-- ===== src/Query/Operand.antt =====
-- The operands of one token: the branches of parse_primary for words, phrases and filters, and
-- normalize_term, of src/query/query_parser.cpp.
pub mod Errors
use snow_seek.Analysis.Tokenizer.{default_max_token_length, tokenize}
use snow_seek.Prelude.{
  Bool, Bytes, Error, List, Option, Result, [], bytes_eq, drop, false, if◌then◌else◌, is_empty,
  length, ltb, none, not, ok, some, take, throw, throw_if, true, ℕ, ◌+◌, ◌-◌, ◌==◌, ◌>>=◌, ◌>>◌,
  ◌||◌, ◌∷◌,
}
use snow_seek.Query.Filter.{parse_comparison, parse_mtime_day, parse_size}
use snow_seek.Query.Lexer.{LexToken, TokenKind}
use snow_seek.Query.Tree.{QueryNode}

abbrev after_one : Option ℕ → Option ℕ
after_one (some n) = some (n + 1)
after_one none = none

-- std::string_view::find_first_of, of a test.
unfoldable pub find_first_of : (ℕ → Bool) → Bytes → Option ℕ
find_first_of test [] = none
find_first_of test (c ∷ text) =
    let later = find_first_of test text in if test c then some 0 else after_one later

abbrev pub is_none : Option ℕ → Bool
is_none none = true
is_none (some n) = false

-- The bytes of "*?~^[]{}".
unfoldable pub is_wildcard : ℕ → Bool
is_wildcard c =
    c == b'*'
    || c == b'?'
    || c == b'~'
    || c == b'^'
    || c == b'['
    || c == b']'
    || c == b'{'
    || c == b'}'

unfoldable pub ends_with_star : Bytes → Bool
ends_with_star [] = false
ends_with_star (c ∷ []) = c == b'*'
ends_with_star (c ∷ d ∷ text) = ends_with_star (d ∷ text)

unfoldable pub only_term : ℕ → List Bytes → Result Bytes
only_term offset (t ∷ []) = ok t
only_term offset _ = throw (Error.syntax_error offset "term must produce exactly one token")

unfoldable pub normalize_term : Bytes → ℕ → Result Bytes
normalize_term raw offset = tokenize default_max_token_length raw >>= only_term offset

-- With a wildcard at an index: the text must be a word and one star at its end.
unfoldable pub parse_prefix : Bytes → ℕ → ℕ → Result QueryNode
parse_prefix text offset wildcard = do
  throw_if
      (ltb (length text) 2
        || not (wildcard == length text - 1)
        || not (ends_with_star text)
        || not (is_none (find_first_of is_wildcard (drop (wildcard + 1) text))))
      (Error.syntax_error offset "only one trailing prefix wildcard is supported")
  normal ← normalize_term (take (length text - 1) text) offset
  ok (QueryNode.prefix normal)

unfoldable pub word_by : Option ℕ → Bytes → ℕ → Result QueryNode
word_by none text offset = normalize_term text offset >>= λ normal. ok (QueryNode.term normal)
word_by (some wildcard) text offset = parse_prefix text offset wildcard

unfoldable pub parse_word : Bytes → ℕ → Result QueryNode
parse_word text offset = word_by (find_first_of is_wildcard text) text offset

unfoldable pub parse_phrase : Bytes → ℕ → ℕ → Result QueryNode
parse_phrase text offset proximity = do
  terms ← tokenize default_max_token_length text
  throw_if (is_empty terms) (Error.syntax_error offset "phrase has no searchable terms")
  ok (QueryNode.phrase terms proximity)

abbrev is_separator : ℕ → Bool
is_separator c = c == b'/' || c == b'\\'

-- The filters, of text that is not empty.
unfoldable pub parse_extension_filter : Bytes → ℕ → Result QueryNode
parse_extension_filter text offset = do
  throw_if (bytes_eq text (b'.' ∷ []) || not (is_none (find_first_of is_separator text)))
      (Error.syntax_error offset "extension filter must name one extension")
  ok (QueryNode.extension_filter text)

unfoldable pub parse_size_filter : Bytes → ℕ → Result QueryNode
parse_size_filter text offset = do
  parsed ← parse_comparison text offset
  size_bytes ← parse_size parsed.operand offset
  ok (QueryNode.size_filter text parsed.comparison size_bytes)

unfoldable pub parse_mtime_filter : Bytes → ℕ → Result QueryNode
parse_mtime_filter text offset = do
  parsed ← parse_comparison text offset
  mtime_day ← parse_mtime_day parsed.operand offset
  ok (QueryNode.mtime_filter text parsed.comparison mtime_day)

abbrev require_value : Bytes → ℕ → Result (Unit {0})
require_value text offset =
    throw_if (is_empty text) (Error.syntax_error offset "filter value is empty")

unfoldable pub operand_of : TokenKind → Bytes → ℕ → ℕ → Result QueryNode
operand_of TokenKind.word text offset proximity = parse_word text offset
operand_of TokenKind.phrase text offset proximity = parse_phrase text offset proximity
operand_of TokenKind.path_filter text offset proximity =
    require_value text offset >> ok (QueryNode.path_filter text)
operand_of TokenKind.extension_filter text offset proximity =
    require_value text offset >> parse_extension_filter text offset
operand_of TokenKind.size_filter text offset proximity =
    require_value text offset >> parse_size_filter text offset
operand_of TokenKind.mtime_filter text offset proximity =
    require_value text offset >> parse_mtime_filter text offset
operand_of _ text offset proximity = throw (Error.syntax_error offset "expected query operand")

unfoldable pub parse_operand : LexToken → Result QueryNode
parse_operand token = operand_of token.kind token.text token.offset token.proximity
