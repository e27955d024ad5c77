-- ===== src/Query/Lexer.antt =====
-- The class Lexer of src/query/query_parser.cpp. `input_` from `position_` on is `rest`.
pub mod Quoted
pub mod Progress
use snow_seek.Prelude.{
  Bool, Bytes, Error, Result, String, [], drop, false, if◌then◌else◌, leb, length, not, ok, take,
  throw, throw_if, true, ℕ, ◌&&◌, ◌++◌, ◌+◌, ◌==◌, ◌>>=◌, ◌>>◌, ◌^◌, ◌||◌, ◌∷◌,
}
use snow_seek.Query.Filter.{is_error, starts_with}
use snow_seek.Query.Number.{from_chars}

pub data TokenKind : Type 0 where
  word phrase path_filter extension_filter size_filter mtime_filter : TokenKind
  conjunction disjunction negation left_parenthesis right_parenthesis end : TokenKind

pub record LexToken : Type 0 where
  pub kind : TokenKind
  pub text : Bytes
  pub offset : ℕ
  pub proximity : ℕ

pub record Lexer : Type 0 where
  pub rest : Bytes
  pub position : ℕ

-- std::isspace and std::tolower in the C locale.
unfoldable pub is_space : ℕ → Bool
is_space c = c == b' ' || leb 9 c && leb c 13

unfoldable pub to_lower : ℕ → ℕ
to_lower c = if leb b'A' c && leb c b'Z' then c + 32 else c

unfoldable pub starts_with_ascii_case_insensitive : Bytes → Bytes → Bool
starts_with_ascii_case_insensitive text [] = true
starts_with_ascii_case_insensitive [] (p ∷ front) = false
starts_with_ascii_case_insensitive (c ∷ text) (p ∷ front) =
    to_lower c == to_lower p && starts_with_ascii_case_insensitive text front

unfoldable pub equals_keyword : Bytes → Bytes → Bool
equals_keyword text keyword =
    length text == length keyword && starts_with_ascii_case_insensitive text keyword

unfoldable pub skip_whitespace : ℕ → Bytes → Lexer
skip_whitespace position [] = record { rest = []; position = position }
skip_whitespace position (c ∷ rest) =
    let more = skip_whitespace (position + 1) rest in
    if is_space c then more else record { rest = c ∷ rest; position = position }

unfoldable pub read_proximity : ℕ → Lexer → Result (ℕ × Lexer)
read_proximity tilde_offset lexer = do
  let result = from_chars (2 ^ 32) lexer.rest
  throw_if (result.taken == 0 || is_error result.ec)
      (Error.syntax_error tilde_offset "invalid phrase proximity")
  ok (result.value, record { rest = result.left; position = lexer.position + result.taken })

-- The loop of `read_quoted_value`, with the value so far.
unfoldable pub read_quoted : ℕ → Bytes → ℕ → Bytes → Result (Bytes × Lexer)
read_quoted quote_offset decoded position [] =
    throw (Error.syntax_error quote_offset "unterminated quoted value")
read_quoted quote_offset decoded position (c ∷ []) =
    if c == b'"'
    then ok (decoded, record { rest = []; position = position + 1 })
    else if c == b'\\'
    then throw (Error.syntax_error quote_offset "unterminated escape sequence")
    else throw (Error.syntax_error quote_offset "unterminated quoted value")
read_quoted quote_offset decoded position (c ∷ escaped ∷ rest) =
    let plain = read_quoted quote_offset (decoded ++ (c ∷ [])) (position + 1) (escaped ∷ rest) in
    let more = read_quoted quote_offset (decoded ++ (escaped ∷ [])) (position + 2) rest in
    if c == b'"'
    then ok (decoded, record { rest = escaped ∷ rest; position = position + 1 })
    else if c == b'\\'
    then if not (escaped == b'"') && not (escaped == b'\\')
      then throw (Error.syntax_error position "only quote and backslash may be escaped")
      else more
    else plain

unfoldable pub read_quoted_value : ℕ → Lexer → Result (Bytes × Lexer)
read_quoted_value quote_offset lexer = read_quoted quote_offset [] lexer.position lexer.rest

-- A quoted value ends at the input's end, a closing parenthesis or whitespace.
unfoldable pub at_boundary : String → ℕ → Bytes → Result (Unit {0})
at_boundary message position [] = ok tt
at_boundary message position (c ∷ rest) =
    throw_if (not (c == b')') && not (is_space c)) (Error.syntax_error position message)

unfoldable pub require_boundary : String → Lexer → Result (Unit {0})
require_boundary message lexer = at_boundary message lexer.position lexer.rest

abbrev pub path_prefix : Bytes
path_prefix = b'p' ∷ b'a' ∷ b't' ∷ b'h' ∷ b':' ∷ []

abbrev pub extension_prefix : Bytes
extension_prefix = b'e' ∷ b'x' ∷ b't' ∷ b'e' ∷ b'n' ∷ b's' ∷ b'i' ∷ b'o' ∷ b'n' ∷ b':' ∷ []

abbrev pub size_prefix : Bytes
size_prefix = b's' ∷ b'i' ∷ b'z' ∷ b'e' ∷ b':' ∷ []

abbrev pub mtime_prefix : Bytes
mtime_prefix = b'm' ∷ b't' ∷ b'i' ∷ b'm' ∷ b'e' ∷ b':' ∷ []

-- The kind of a filter's name and its length; `end` where the text begins with no filter.
unfoldable pub find_filter : Bytes → TokenKind × ℕ
find_filter text =
    if starts_with_ascii_case_insensitive text path_prefix
    then (TokenKind.path_filter, 5)
    else if starts_with_ascii_case_insensitive text extension_prefix
    then (TokenKind.extension_filter, 10)
    else if starts_with_ascii_case_insensitive text size_prefix
    then (TokenKind.size_filter, 5)
    else if starts_with_ascii_case_insensitive text mtime_prefix
    then (TokenKind.mtime_filter, 6)
    else (TokenKind.end, 0)

unfoldable pub is_end : TokenKind → Bool
is_end TokenKind.end = true
is_end _ = false

-- The bytes up to whitespace or a parenthesis, and the lexer after them.
unfoldable pub read_bare : ℕ → Bytes → Result (Bytes × Lexer)
read_bare position [] = ok ([], record { rest = []; position = position })
read_bare position (c ∷ rest) =
    let more = read_bare (position + 1) rest in
    if is_space c || c == b'(' || c == b')'
    then ok ([], record { rest = c ∷ rest; position = position })
    else if c == b'"'
    then throw (Error.syntax_error position "unexpected quote in token")
    else more >>= λ (bytes, lexer). ok (c ∷ bytes, lexer)

-- The token of unquoted text: `raw` is its bytes, the filter's name included.
unfoldable pub classify_word : TokenKind × ℕ → ℕ → Bytes → LexToken
classify_word found offset raw =
    if equals_keyword raw (b'A' ∷ b'N' ∷ b'D' ∷ [])
    then record { kind = TokenKind.conjunction; text = []; offset = offset; proximity = 0 }
    else if equals_keyword raw (b'O' ∷ b'R' ∷ [])
    then record { kind = TokenKind.disjunction; text = []; offset = offset; proximity = 0 }
    else if equals_keyword raw (b'N' ∷ b'O' ∷ b'T' ∷ [])
    then record { kind = TokenKind.negation; text = []; offset = offset; proximity = 0 }
    else if not (is_end found.0)
    then record { kind = found.0; text = drop found.1 raw; offset = offset; proximity = 0 }
    else record { kind = TokenKind.word; text = raw; offset = offset; proximity = 0 }

unfoldable pub read_quoted_filter : TokenKind → ℕ → Lexer → Result (LexToken × Lexer)
read_quoted_filter kind offset lexer = do
  (value, after) ←
      read_quoted_value lexer.position
        (record { rest = drop 1 lexer.rest; position = lexer.position + 1 })
  require_boundary "unexpected byte after filter value" after
  ok (record { kind = kind; text = value; offset = offset; proximity = 0 }, after)

unfoldable pub read_word : Lexer → Result (LexToken × Lexer)
read_word lexer =
    let found = find_filter lexer.rest in
    let start : Lexer = record {
      rest = drop found.1 lexer.rest;
      position = lexer.position + found.1;
    } in
    if not (is_end found.0) && starts_with start.rest (b'"' ∷ [])
    then read_quoted_filter found.0 lexer.position start
    else (do
      (bytes, after) ← read_bare start.position start.rest
      ok (classify_word found lexer.position (take found.1 lexer.rest ++ bytes), after))

-- The proximity suffix of a phrase, if there is one.
unfoldable pub read_suffix : Lexer → Result (ℕ × Lexer)
read_suffix lexer =
    if starts_with lexer.rest (b'~' ∷ [])
    then read_proximity lexer.position
        (record { rest = drop 1 lexer.rest; position = lexer.position + 1 })
    else ok (0, lexer)

unfoldable pub read_phrase : ℕ → Lexer → Result (LexToken × Lexer)
read_phrase offset lexer = do
  (value, quoted) ← read_quoted_value offset lexer
  (proximity, after) ← read_suffix quoted
  require_boundary "unexpected byte after phrase" after
  ok (
    record { kind = TokenKind.phrase; text = value; offset = offset; proximity = proximity },
    after,
  )

-- `next` after the whitespace.
unfoldable pub next_token : ℕ → Bytes → Result (LexToken × Lexer)
next_token position [] = ok (
  record { kind = TokenKind.end; text = []; offset = position; proximity = 0 },
  record { rest = []; position = position },
)
next_token position (c ∷ rest) =
    if c == b'('
    then ok (
      record { kind = TokenKind.left_parenthesis; text = []; offset = position; proximity = 0 },
      record { rest = rest; position = position + 1 },
    )
    else if c == b')'
    then ok (
      record { kind = TokenKind.right_parenthesis; text = []; offset = position; proximity = 0 },
      record { rest = rest; position = position + 1 },
    )
    else if c == b'"'
    then read_phrase position (record { rest = rest; position = position + 1 })
    else read_word (record { rest = c ∷ rest; position = position })

unfoldable pub next : Lexer → Result (LexToken × Lexer)
next lexer =
    let start = skip_whitespace lexer.position lexer.rest in next_token start.position start.rest
