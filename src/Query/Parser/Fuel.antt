-- ===== src/Query/Parser/Fuel.antt =====
-- The fuel of the parser of src/query/query_parser.cpp.
use mathlib.Core.Path.{subst}
use snow_seek.Prelude.{
  Bytes, Error, Result, Yields, Yields->>=, Yields-throw_if, arith, false, if_intro, leb, length,
  ltb, not, refl, suc, throw, true, zero, ℕ, ◌*◌, ◌+◌, ◌<◌, ◌>>=◌, ◌∙◌, ◌≡◌, ◌≢◌, ◌≤◌,
}
use snow_seek.Query.Lexer.{Lexer, TokenKind, is_end, next}
use snow_seek.Query.Lexer.Progress.{next-Took, weight}
use snow_seek.Query.Operand.{parse_operand}
use snow_seek.Query.Operand.Errors.{parse_operand-Yields}
use snow_seek.Query.Parser.{
  Parser, advance, check_tree, deeper, exceeds_depth, is_conjunction, is_disjunction,
  is_left_parenthesis, is_negation, is_right_parenthesis, max_query_depth,
  max_query_expression_length, more_conjuncts, more_disjuncts, new_parser, parse, parse_conjunction,
  parse_disjunction, parse_primary, parse_query, parse_unary, starts_operand,
}
use snow_seek.Query.Tree.{QueryNode}

-- The bytes that are left, and one for a token that is not the last.
abbrev pub size : Parser → ℕ
size s = length s.lexer.rest + weight s.current.kind

abbrev Advanced : Parser → Parser → Type 0
Advanced s t = (size t ≤ length s.lexer.rest) × (t.nesting_depth ≡ s.nesting_depth)

advance-Yields : (s : Parser) → Yields (Advanced s) (advance s)
unfolding advance
advance-Yields s =
    Yields->>= (λ (token, lexer). length lexer.rest + weight token.kind ≤ length s.lexer.rest)
      (Advanced s) (next s.lexer) _ (next-Took s.lexer) λ (token, lexer) p. (p, refl)

-- A call that takes at least one token, and keeps the nesting depth.
abbrev Fine : ℕ → ℕ → QueryNode × Parser → Type 0
Fine n depth (node, s) = (size s < n) × (s.nesting_depth ≡ depth)

weight_disjunction : (kind : TokenKind) → is_disjunction kind ≡ true → weight kind ≡ 1
unfolding is_disjunction is_end
weight_disjunction kind h = ground arith

weight_conjunction : (kind : TokenKind) → is_conjunction kind ≡ true → weight kind ≡ 1
unfolding is_conjunction is_end
weight_conjunction kind h = ground arith

weight_negation : (kind : TokenKind) → is_negation kind ≡ true → weight kind ≡ 1
unfolding is_negation is_end
weight_negation kind h = ground arith

weight_left : (kind : TokenKind) → is_left_parenthesis kind ≡ true → weight kind ≡ 1
unfolding is_left_parenthesis is_end
weight_left kind h = ground arith

weight_right : (kind : TokenKind) → is_right_parenthesis kind ≡ true → weight kind ≡ 1
unfolding is_right_parenthesis is_end
weight_right kind h = ground arith

-- A bind after a token.
advance_then :
    (Q : QueryNode × Parser → Type 0) (s : Parser) (f : Parser → Result (QueryNode × Parser))
    → ((t : Parser) → Advanced s t → Yields Q (f t))
    → Yields Q (advance s >>= f)
advance_then Q s f k = Yields->>= (Advanced s) Q (advance s) f (advance-Yields s) k

mutual
  unfolding parse_disjunction

  disjunction-Fine :
      (f : ℕ) (s : Parser)
      → 5 * size s + 5 ≤ f
      → Yields (Fine (size s) s.nesting_depth) (parse_disjunction f s)
  disjunction-Fine zero s h = absurd (omega arith)
  disjunction-Fine (suc f) s h =
      Yields->>= (Fine (size s) s.nesting_depth) (Fine (size s) s.nesting_depth)
        (parse_conjunction f s) _ (conjunction-Fine f s (omega arith))
        λ (left, t) (shorter, same).
          more_disjuncts-Fine f left t (size s) s.nesting_depth shorter same (omega arith)

  more_disjuncts-Fine :
      (f : ℕ) (left : QueryNode) (s : Parser) (n depth : ℕ)
      → size s < n
      → s.nesting_depth ≡ depth
      → 5 * size s + 3 ≤ f
      → Yields (Fine n depth) (more_disjuncts f left s)
  more_disjuncts-Fine zero left s n depth shorter same h = absurd (omega arith)
  more_disjuncts-Fine (suc f) left s n depth shorter same h =
      if_intro (Yields (Fine n depth)) (is_disjunction s.current.kind) _ _
        (λ e. advance_then (Fine n depth) s _ λ t (p, q).
          let w = weight_disjunction s.current.kind e in
          Yields->>= (Fine (size t) t.nesting_depth) (Fine n depth) (parse_conjunction f t) _
            (conjunction-Fine f t (omega (arith, w, p)))
            λ (right, u) (p', q').
              more_disjuncts-Fine f (QueryNode.disjunction left right) u n depth
                (omega (arith, w, p, p')) (q' ∙ q ∙ same) (omega (arith, w, p, p')))
        λ _. (shorter, same)

  conjunction-Fine :
      (f : ℕ) (s : Parser)
      → 5 * size s + 4 ≤ f
      → Yields (Fine (size s) s.nesting_depth) (parse_conjunction f s)
  conjunction-Fine zero s h = absurd (omega arith)
  conjunction-Fine (suc f) s h =
      Yields->>= (Fine (size s) s.nesting_depth) (Fine (size s) s.nesting_depth) (parse_unary f s) _
        (unary-Fine f s (omega arith))
        λ (left, t) (shorter, same).
          more_conjuncts-Fine f left t (size s) s.nesting_depth shorter same (omega arith)

  more_conjuncts-Fine :
      (f : ℕ) (left : QueryNode) (s : Parser) (n depth : ℕ)
      → size s < n
      → s.nesting_depth ≡ depth
      → 5 * size s + 3 ≤ f
      → Yields (Fine n depth) (more_conjuncts f left s)
  more_conjuncts-Fine zero left s n depth shorter same h = absurd (omega arith)
  more_conjuncts-Fine (suc f) left s n depth shorter same h =
      if_intro (Yields (Fine n depth)) (is_conjunction s.current.kind) _ _
        (λ e. advance_then (Fine n depth) s _ λ t (p, q).
          let w = weight_conjunction s.current.kind e in
          Yields->>= (Fine (size t) t.nesting_depth) (Fine n depth) (parse_unary f t) _
            (unary-Fine f t (omega (arith, w, p)))
            λ (right, u) (p', q').
              more_conjuncts-Fine f (QueryNode.conjunction left right) u n depth
                (omega (arith, w, p, p')) (q' ∙ q ∙ same) (omega (arith, w, p, p')))
        λ _.
          if_intro (Yields (Fine n depth)) (starts_operand s.current.kind) _ _
            (λ _.
              Yields->>= (Fine (size s) s.nesting_depth) (Fine n depth) (parse_unary f s) _
                (unary-Fine f s (omega arith))
                λ (right, u) (p', q').
                  more_conjuncts-Fine f (QueryNode.conjunction left right) u n depth
                    (omega (arith, p')) (q' ∙ same) (omega (arith, p')))
            λ _. (shorter, same)

  unary-Fine :
      (f : ℕ) (s : Parser)
      → 5 * size s + 2 ≤ f
      → Yields (Fine (size s) s.nesting_depth) (parse_unary f s)
  unary-Fine zero s h = absurd (omega arith)
  unary-Fine (suc f) s h =
      if_intro (Yields (Fine (size s) s.nesting_depth)) (is_negation s.current.kind) _ _
        (λ e.
          Yields-throw_if (Fine (size s) s.nesting_depth) (leb max_query_depth s.nesting_depth)
            exceeds_depth _ refl
            λ _. advance_then (Fine (size s) s.nesting_depth) (deeper s) _ λ t (p, q).
              let w = weight_negation s.current.kind e in
              Yields->>= (Fine (size t) t.nesting_depth) (Fine (size s) s.nesting_depth)
                (parse_unary f t) _ (unary-Fine f t (omega (arith, w, p)))
                λ (inner, u) (p', q'). (omega (arith, w, p, p'), omega (arith, q, q')))
        λ _. primary-Fine f s (omega arith)

  primary-Fine :
      (f : ℕ) (s : Parser)
      → 5 * size s + 1 ≤ f
      → Yields (Fine (size s) s.nesting_depth) (parse_primary f s)
  primary-Fine zero s h = absurd (omega arith)
  primary-Fine (suc f) s h =
      if_intro (Yields (Fine (size s) s.nesting_depth)) (is_left_parenthesis s.current.kind) _ _
        (λ e.
          Yields-throw_if (Fine (size s) s.nesting_depth) (leb max_query_depth s.nesting_depth)
            exceeds_depth _ refl
            λ _. advance_then (Fine (size s) s.nesting_depth) (deeper s) _ λ t (p, q).
              let w = weight_left s.current.kind e in
              Yields->>= (Fine (size t) t.nesting_depth) (Fine (size s) s.nesting_depth)
                (parse_disjunction f t) _ (disjunction-Fine f t (omega (arith, w, p)))
                λ (node, u) (p', q').
                  Yields-throw_if (Fine (size s) s.nesting_depth)
                    (not (is_right_parenthesis u.current.kind))
                    (Error.syntax_error s.current.offset "missing closing parenthesis") _ refl
                    λ _. advance_then (Fine (size s) s.nesting_depth) u _ λ closed (p'', q'').
                      (omega (arith, w, p, p', p''), omega (arith, q, q', q'')))
        λ _.
          Yields->>= (λ node. is_end s.current.kind ≡ false) (Fine (size s) s.nesting_depth)
            (parse_operand s.current) _ (parse_operand-Yields s.current)
            λ node e.
              advance_then (Fine (size s) s.nesting_depth) s _
                λ t (p, q). (rw e (omega (arith, p)), q)

new_parser-Yields :
    (expression : Bytes) → Yields (λ s. size s ≤ length expression) (new_parser expression)
unfolding new_parser
new_parser-Yields expression =
    let start : Lexer = record { rest = expression; position = 0 } in
    Yields->>= (λ (token, lexer). length lexer.rest + weight token.kind ≤ length expression)
      (λ (s : Parser). size s ≤ length expression) (next start) _ (next-Took start)
      λ (token, lexer) p. p

parse-Yields : (f : ℕ) (s : Parser) → 5 * size s + 5 ≤ f → Yields (λ tree. Unit {0}) (parse f s)
unfolding parse check_tree
parse-Yields f s h =
    Yields-throw_if (λ tree. Unit {0}) (is_end s.current.kind)
      (Error.syntax_error 0 "expression is empty") _ refl
      λ _.
        Yields->>= (Fine (size s) s.nesting_depth) (λ tree. Unit {0}) (parse_disjunction f s) _
          (disjunction-Fine f s h) λ (tree, t) _. ground arith

parse_query-Yields : (expression : Bytes) → Yields (λ tree. Unit {0}) (parse_query expression)
unfolding parse_query
parse_query-Yields expression =
    Yields-throw_if (λ tree. Unit {0}) (ltb max_query_expression_length (length expression))
      (Error.invalid_argument "query expression exceeds maximum length") _ refl
      λ _.
        Yields->>= (λ (s : Parser). size s ≤ length expression) (λ tree. Unit {0})
          (new_parser expression) _ (new_parser-Yields expression)
          λ s p. parse-Yields (5 * length expression + 5) s (omega (arith, p))

-- parse_query ends with a tree or with an error of the source, whatever the expression: the fuel of
-- its calls is never used up.
pub parse_query-ends : (expression : Bytes) → parse_query expression ≢ throw Error.out_of_fuel
parse_query-ends expression e =
    let y : Yields (λ (tree : QueryNode). Unit {0}) (throw Error.out_of_fuel) =
      subst (Yields (λ (tree : QueryNode). Unit {0})) e (parse_query-Yields expression) in
    cc
