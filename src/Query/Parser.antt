-- ===== src/Query/Parser.antt =====
-- The class Parser and parse_query of src/query/query_parser.cpp. A parser holds one token of
-- lookahead; its tokenizer keeps no state, so it is not a field.
pub mod Fuel
pub mod Grammar
use snow_seek.Prelude.{
  Bool, Bytes, Error, Result, false, if◌then◌else◌, leb, length, ltb, not, ok, suc, throw, throw_if,
  true, zero, ℕ, ◌*◌, ◌+◌, ◌-◌, ◌>>=◌, ◌>>◌,
}
use snow_seek.Query.Lexer.{LexToken, Lexer, TokenKind, is_end, next}
use snow_seek.Query.Operand.{parse_operand}
use snow_seek.Query.Tree.{QueryNode, expression_depth}

pub record Parser : Type 0 where
  pub lexer : Lexer
  pub current : LexToken
  pub nesting_depth : ℕ

abbrev pub max_query_depth : ℕ
max_query_depth = 32

abbrev pub max_query_expression_length : ℕ
max_query_expression_length = 4096

unfoldable pub advance : Parser → Result Parser
advance parser = do
  (token, lexer) ← next parser.lexer
  ok (record parser { current = token; lexer = lexer })

unfoldable pub is_conjunction : TokenKind → Bool
is_conjunction TokenKind.conjunction = true
is_conjunction _ = false

unfoldable pub is_disjunction : TokenKind → Bool
is_disjunction TokenKind.disjunction = true
is_disjunction _ = false

unfoldable pub is_negation : TokenKind → Bool
is_negation TokenKind.negation = true
is_negation _ = false

unfoldable pub is_left_parenthesis : TokenKind → Bool
is_left_parenthesis TokenKind.left_parenthesis = true
is_left_parenthesis _ = false

unfoldable pub is_right_parenthesis : TokenKind → Bool
is_right_parenthesis TokenKind.right_parenthesis = true
is_right_parenthesis _ = false

unfoldable pub starts_operand : TokenKind → Bool
starts_operand TokenKind.word = true
starts_operand TokenKind.phrase = true
starts_operand TokenKind.path_filter = true
starts_operand TokenKind.extension_filter = true
starts_operand TokenKind.size_filter = true
starts_operand TokenKind.mtime_filter = true
starts_operand TokenKind.negation = true
starts_operand TokenKind.left_parenthesis = true
starts_operand _ = false

-- `nesting_depth_` one deeper, and one less deep.
abbrev pub deeper : Parser → Parser
deeper parser = record parser { nesting_depth = parser.nesting_depth + 1 }

abbrev pub shallower : Parser → Parser
shallower parser = record parser { nesting_depth = parser.nesting_depth - 1 }

abbrev pub exceeds_depth : Error
exceeds_depth = Error.invalid_argument "query expression exceeds maximum depth"

-- Each call costs a unit of fuel; the loops of parse_disjunction and parse_conjunction are calls
-- with the left operand so far.
unfoldable mutual
  pub parse_disjunction : ℕ → Parser → Result (QueryNode × Parser)
  parse_disjunction zero s = throw Error.out_of_fuel
  parse_disjunction (suc f) s = parse_conjunction f s >>= λ (left, t). more_disjuncts f left t

  pub more_disjuncts : ℕ → QueryNode → Parser → Result (QueryNode × Parser)
  more_disjuncts zero left s = throw Error.out_of_fuel
  more_disjuncts (suc f) left s =
      let more = advance s >>= λ t. parse_conjunction f t >>= λ (right, u).
      more_disjuncts f (QueryNode.disjunction left right) u in
      if is_disjunction s.current.kind then more else ok (left, s)

  pub parse_conjunction : ℕ → Parser → Result (QueryNode × Parser)
  parse_conjunction zero s = throw Error.out_of_fuel
  parse_conjunction (suc f) s = parse_unary f s >>= λ (left, t). more_conjuncts f left t

  pub more_conjuncts : ℕ → QueryNode → Parser → Result (QueryNode × Parser)
  more_conjuncts zero left s = throw Error.out_of_fuel
  more_conjuncts (suc f) left s =
      let explicit = advance s >>= λ t.
      parse_unary f t >>= λ (right, u). more_conjuncts f (QueryNode.conjunction left right) u in
      let adjacent =
        parse_unary f s >>= λ (right, u). more_conjuncts f (QueryNode.conjunction left right) u in
      if is_conjunction s.current.kind
      then explicit
      else if starts_operand s.current.kind
      then adjacent
      else ok (left, s)

  pub parse_unary : ℕ → Parser → Result (QueryNode × Parser)
  parse_unary zero s = throw Error.out_of_fuel
  parse_unary (suc f) s =
      let negated =
        throw_if (leb max_query_depth s.nesting_depth) exceeds_depth
        >> (advance (deeper s) >>= λ t.
            parse_unary f t >>= λ (operand, u). ok (QueryNode.negation operand, shallower u)) in
      let primary = parse_primary f s in if is_negation s.current.kind then negated else primary

  pub parse_primary : ℕ → Parser → Result (QueryNode × Parser)
  parse_primary zero s = throw Error.out_of_fuel
  parse_primary (suc f) s =
      let group =
        throw_if (leb max_query_depth s.nesting_depth) exceeds_depth
        >> (advance (deeper s) >>= λ t. parse_disjunction f t >>= λ (node, u).
            throw_if (not (is_right_parenthesis u.current.kind))
              (Error.syntax_error s.current.offset "missing closing parenthesis")
            >> (advance u >>= λ closed. ok (node, shallower closed))) in
      let leaf = parse_operand s.current >>= λ node. advance s >>= λ t. ok (node, t) in
      if is_left_parenthesis s.current.kind then group else leaf

-- The constructor: it reads the first token.
unfoldable pub new_parser : Bytes → Result Parser
new_parser expression = do
  (token, lexer) ← next (record { rest = expression; position = 0 })
  ok (record { lexer = lexer; current = token; nesting_depth = 0 })

-- What `parse` checks of its tree.
unfoldable pub check_tree : QueryNode → Parser → Result QueryNode
check_tree tree parser = do
  throw_if (not (is_end parser.current.kind))
      (Error.syntax_error parser.current.offset "unexpected trailing token")
  throw_if (ltb max_query_depth (expression_depth tree)) exceeds_depth
  ok tree

unfoldable pub parse : ℕ → Parser → Result QueryNode
parse fuel parser = do
  throw_if (is_end parser.current.kind) (Error.syntax_error 0 "expression is empty")
  (tree, last) ← parse_disjunction fuel parser
  check_tree tree last

unfoldable pub parse_query : Bytes → Result QueryNode
parse_query expression = do
  throw_if (ltb max_query_expression_length (length expression))
      (Error.invalid_argument "query expression exceeds maximum length")
  parser ← new_parser expression
  parse (5 * length expression + 5) parser
