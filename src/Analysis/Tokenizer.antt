-- ===== src/Analysis/Tokenizer.antt =====
-- src/analysis/tokenizer.cpp and .hpp. A consumer is a Boolean, whether a callback is set, and the
-- tokens that it has received, in order; every callback that the source passes appends them to a
-- list. An operation that throws ends the use of its session.
pub mod Runs
pub mod Words
pub mod Stream
pub mod Terms
use snow_seek.Prelude.{
  Bool, Bytes, Error, List, Result, [], false, if◌then◌else◌, is_empty, leb, length, ltb, not, ok,
  throw_if, true, ℕ, ◌&&◌, ◌++◌, ◌+◌, ◌-◌, ◌==◌, ◌>>=◌, ◌>>◌, ◌||◌, ◌∷◌,
}

pub record Token : Type 0 where
  pub term : Bytes
  pub position : ℕ

pub record TokenizerSession : Type 0 where
  pub max_token_length : ℕ
  pub pending : Bytes
  pub next_position : ℕ
  pub finished : Bool

abbrev pub default_max_token_length : ℕ
default_max_token_length = 256

abbrev pub max_u32 : ℕ
max_u32 = 0xffffffff

unfoldable pub is_ascii_token_character : ℕ → Bool
is_ascii_token_character character =
    leb b'a' character && leb character b'z'
    || leb b'A' character && leb character b'Z'
    || leb b'0' character && leb character b'9'
    || character == b'_'

unfoldable pub normalize_ascii : ℕ → ℕ
normalize_ascii character =
    if leb b'A' character && leb character b'Z' then character + (b'a' - b'A') else character

-- The constructor of TokenizerSession, and the same check in that of Tokenizer.
unfoldable pub new_session : ℕ → Result TokenizerSession
new_session max_token_length = do
  throw_if (max_token_length == 0) (Error.invalid_argument "maximum token length must be non-zero")
  ok (record {
    max_token_length = max_token_length;
    pending = [];
    next_position = 0;
    finished = false;
  })

unfoldable pub require_consumer : Bool → Result (Unit {0})
require_consumer consumer =
    throw_if (not consumer) (Error.invalid_argument "token consumer must not be empty")

-- The session and what the consumer has received.
unfoldable pub emit_pending : TokenizerSession → List Token → Result (TokenizerSession × List Token)
emit_pending session received = if is_empty session.pending then ok (session, received) else (do
  throw_if (ltb max_u32 session.next_position)
      (Error.overflow_error "token position exceeds uint32_t")
  ok (
    record session { pending = []; next_position = session.next_position + 1 },
    received ++ (record { term = session.pending; position = session.next_position } ∷ []),
  ))

-- One byte of the loop of `push`.
unfoldable pub push_byte :
    TokenizerSession → List Token → ℕ → Result (TokenizerSession × List Token)
push_byte session received character =
    if is_ascii_token_character character
    then (do
      throw_if (length session.pending == session.max_token_length)
          (Error.length_error "token exceeds maximum length")
      ok (
        record session { pending = session.pending ++ (normalize_ascii character ∷ []) },
        received,
      ))
    else emit_pending session received

unfoldable pub push_bytes :
    TokenizerSession → List Token → Bytes → Result (TokenizerSession × List Token)
push_bytes session received [] = ok (session, received)
push_bytes session received (character ∷ chunk) = do
  (next, emitted) ← push_byte session received character
  push_bytes next emitted chunk

unfoldable pub push :
    Bool → TokenizerSession → List Token → Bytes → Result (TokenizerSession × List Token)
push consumer session received chunk = do
  throw_if session.finished (Error.logic_error "cannot push data to a finished tokenizer session")
  require_consumer consumer
  push_bytes session received chunk

unfoldable pub finish :
    Bool → TokenizerSession → List Token → Result (TokenizerSession × List Token)
finish consumer session received = do
  throw_if session.finished (Error.logic_error "tokenizer session has already been finished")
  require_consumer consumer
  (closed, emitted) ← emit_pending session received
  ok (record closed { finished = true }, emitted)

unfoldable pub tokenize_with_positions : ℕ → Bytes → Result (List Token)
tokenize_with_positions max_token_length text = do
  session ← new_session max_token_length
  (pushed, received) ← push true session [] text
  (closed, tokens) ← finish true pushed received
  ok tokens

abbrev pub terms_of : List Token → List Bytes
terms_of [] = []
terms_of (token ∷ tokens) = token.term ∷ terms_of tokens

unfoldable pub tokenize : ℕ → Bytes → Result (List Bytes)
tokenize max_token_length text = do
  tokens ← tokenize_with_positions max_token_length text
  ok (terms_of tokens)
