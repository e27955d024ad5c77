-- ===== src/Examples/Texts.antt =====
-- src/analysis: the tokenizer at concrete inputs.
use snow_seek.Analysis.Tokenizer.{
  TokenizerSession, emit_pending, finish, is_ascii_token_character, new_session, normalize_ascii,
  push, push_byte, push_bytes, require_consumer, tokenize, tokenize_with_positions,
}
use snow_seek.Analysis.Tokenizer.Runs.{all_short, number, split, words}
use snow_seek.Analysis.Tokenizer.Stream.{push-append}
use snow_seek.Analysis.Tokenizer.Terms.{IsTerm, concatenated, term_bytes, tokenize_again}
use snow_seek.Analysis.Tokenizer.Words.{tokenize_with_positions-words}
use snow_seek.Prelude.{
  All, Bytes, Error, List, [], arith, false, if◌then◌else◌, length, ok, refl, throw, true, ◌++◌,
  ◌>>=◌, ◌^◌, ◌∷◌, ◌≡◌, ◌≤◌,
}

-- To_do x
abbrev text : Bytes
text = b'T' ∷ b'o' ∷ b'_' ∷ b'd' ∷ b'o' ∷ b' ' ∷ b'x' ∷ []

abbrev terms : List Bytes
terms = (b't' ∷ b'o' ∷ b'_' ∷ b'd' ∷ b'o' ∷ []) ∷ (b'x' ∷ []) ∷ []

words_test : words text ≡ terms
unfolding words split is_ascii_token_character normalize_ascii
words_test = refl

few_words : length (words text) ≤ 2 ^ 32
few_words = rw words_test (omega arith)

tokenize_with_positions-words_example : tokenize_with_positions 4 text ≡ (
    if all_short 4 (words text)
    then ok (number 0 (words text))
    else throw (Error.length_error "token exceeds maximum length"))
tokenize_with_positions-words_example = tokenize_with_positions-words 4 text (omega arith) few_words

tokenize_test : tokenize 256 text ≡ ok terms
unfolding tokenize tokenize_with_positions new_session push require_consumer push_bytes push_byte
    emit_pending finish is_ascii_token_character normalize_ascii
tokenize_test = refl

tokenize_again_example :
    All IsTerm terms
    × All (λ (w : Bytes). tokenize 256 w ≡ ok (w ∷ [])) terms
    × (concatenated terms ≡ term_bytes text)
tokenize_again_example = tokenize_again 256 text terms (omega arith) few_words tokenize_test

abbrev session : TokenizerSession
session = record { max_token_length = 4; pending = b'a' ∷ []; next_position = 3; finished = false }

push-append_example :
    push true session [] (text ++ text)
    ≡ (push true session [] text >>= λ (t, emitted). push true t emitted text)
push-append_example = push-append true session [] text text
