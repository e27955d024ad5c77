-- ===== src/Query/Parser/Grammar.antt =====
-- The grammar of the query language, on tokens: NOT binds tighter than AND, written or by adjacency,
-- and AND tighter than OR; AND and OR group to the left.
use mathlib.Core.Path.{subst}
use snow_seek.Prelude.{
  Bytes, Error, List, Returns, Returns->>=, Returns-map, Returns-ok, Returns-self, Returns-throw_if,
  [], arith, if_intro, leb, length, ltb, ltb-false, not, ok, refl, suc, sym, true, zero, ℕ, ◌*◌,
  ◌++◌, ◌+◌, ◌∷◌, ◌≡◌, ◌≤◌,
}
use snow_seek.Query.Lexer.{LexToken, Lexer, is_end, next}
use snow_seek.Query.Operand.{parse_operand}
use snow_seek.Query.Parser.{
  Parser, advance, check_tree, deeper, exceeds_depth, is_conjunction, is_disjunction,
  is_left_parenthesis, is_negation, is_right_parenthesis, max_query_depth,
  max_query_expression_length, more_conjuncts, more_disjuncts, new_parser, parse, parse_conjunction,
  parse_disjunction, parse_primary, parse_query, parse_unary, starts_operand,
}
use snow_seek.Query.Tree.{QueryNode, expression_depth}

pub data Level : Type 0 where
  disjuncts conjuncts unary primary : Level

-- `Derives level tokens node`: the tokens are an expression of the level, with the tree `node`.
pub data Derives : Level → List LexToken → QueryNode → Type 0 where
  one_disjunct :
      (ts : List LexToken) (l : QueryNode) → Derives conjuncts ts l → Derives disjuncts ts l
  or_ :
      (ts us : List LexToken) (op : LexToken) (l r : QueryNode)
      → Derives disjuncts ts l
      → is_disjunction op.kind ≡ true
      → Derives conjuncts us r
      → Derives disjuncts (ts ++ (op ∷ us)) (QueryNode.disjunction l r)
  one_conjunct : (ts : List LexToken) (l : QueryNode) → Derives unary ts l → Derives conjuncts ts l
  and_ :
      (ts us : List LexToken) (op : LexToken) (l r : QueryNode)
      → Derives conjuncts ts l
      → is_conjunction op.kind ≡ true
      → Derives unary us r
      → Derives conjuncts (ts ++ (op ∷ us)) (QueryNode.conjunction l r)
  beside :
      (ts us : List LexToken) (l r : QueryNode)
      → Derives conjuncts ts l
      → Derives unary us r
      → Derives conjuncts (ts ++ us) (QueryNode.conjunction l r)
  not_ :
      (ts : List LexToken) (op : LexToken) (l : QueryNode)
      → is_negation op.kind ≡ true
      → Derives unary ts l
      → Derives unary (op ∷ ts) (QueryNode.negation l)
  one_operand : (ts : List LexToken) (l : QueryNode) → Derives primary ts l → Derives unary ts l
  group :
      (ts : List LexToken) (left right : LexToken) (l : QueryNode)
      → is_left_parenthesis left.kind ≡ true
      → Derives disjuncts ts l
      → is_right_parenthesis right.kind ≡ true
      → Derives primary (left ∷ (ts ++ (right ∷ []))) l
  single :
      (token : LexToken) (l : QueryNode)
      → parse_operand token ≡ ok l
      → Derives primary (token ∷ []) l

-- The lexer at `lexer`, with `token` read, reads `tokens` one after another and then stands at
-- `lexer'` with `token'` read.
abbrev pub Lexed : LexToken → Lexer → List LexToken → LexToken → Lexer → Type 0
Lexed token lexer [] token' lexer' = (token ≡ token') × (lexer ≡ lexer')
Lexed token lexer (first ∷ tokens) token' lexer' =
    (token ≡ first)
    × (second : LexToken) × (after : Lexer) × (next lexer ≡ ok (second, after))
    × Lexed second after tokens token' lexer'

Lexed-append :
    (ts us : List LexToken) (t u v : LexToken) (l m n : Lexer)
    → Lexed t l ts u m
    → Lexed u m us v n
    → Lexed t l (ts ++ us) v n
Lexed-append [] us t u v l m n (et, el) h =
    subst (λ x. Lexed x l us v n) (sym et) (subst (λ x. Lexed u x us v n) (sym el) h)
Lexed-append (first ∷ ts) us t u v l m n (e, second, after, now, later) h =
    (e, second, after, now, Lexed-append ts us second u v after m n later h)

abbrev Reads : Parser → List LexToken → Parser → Type 0
Reads s ts t = Lexed s.current s.lexer ts t.current t.lexer

Reads-append :
    (ts us : List LexToken) (s t u : Parser) → Reads s ts t → Reads t us u → Reads s (ts ++ us) u
Reads-append ts us s t u = Lexed-append ts us s.current t.current u.current s.lexer t.lexer u.lexer

advance-Reads : (s : Parser) → Returns (λ t. Reads s (s.current ∷ []) t) (advance s)
unfolding advance
advance-Reads s =
    Returns->>= (λ (token, lexer). next s.lexer ≡ ok (token, lexer))
      (λ t. Reads s (s.current ∷ []) t) (next s.lexer) _ (Returns-self (next s.lexer))
      λ (token, lexer) e. (refl, token, lexer, e, (refl, refl))

-- A call that reads an expression of a level.
abbrev Parsed : Level → Parser → QueryNode × Parser → Type 0
Parsed level s (node, t) = (ts : List LexToken) × Reads s ts t × Derives level ts node

mutual
  unfolding parse_disjunction

  disjunction-Parsed : (f : ℕ) (s : Parser) → Returns (Parsed disjuncts s) (parse_disjunction f s)
  disjunction-Parsed zero s = tt
  disjunction-Parsed (suc f) s =
      Returns->>= (Parsed conjuncts s) (Parsed disjuncts s) (parse_conjunction f s) _
        (conjunction-Parsed f s)
        λ (left, t) (ts, reads, d).
          more_disjuncts-Parsed f left s t ts reads (one_disjunct ts left d)

  more_disjuncts-Parsed :
      (f : ℕ) (left : QueryNode) (start s : Parser) (ts : List LexToken)
      → Reads start ts s
      → Derives disjuncts ts left
      → Returns (Parsed disjuncts start) (more_disjuncts f left s)
  more_disjuncts-Parsed zero left start s ts reads d = tt
  more_disjuncts-Parsed (suc f) left start s ts reads d =
      if_intro (Returns (Parsed disjuncts start)) (is_disjunction s.current.kind) _ _
        (λ e.
          Returns->>= (Reads s (s.current ∷ [])) (Parsed disjuncts start) (advance s) _
            (advance-Reads s)
            λ t a.
              Returns->>= (Parsed conjuncts t) (Parsed disjuncts start) (parse_conjunction f t) _
                (conjunction-Parsed f t)
                λ (right, u) (us, more, c).
                  let all = Reads-append (s.current ∷ []) us s t u a more in
                  more_disjuncts-Parsed f (QueryNode.disjunction left right) start u
                    (ts ++ (s.current ∷ us)) (Reads-append ts (s.current ∷ us) start s u reads all)
                    (or_ ts us s.current left right d e c))
        λ _. (ts, reads, d)

  conjunction-Parsed : (f : ℕ) (s : Parser) → Returns (Parsed conjuncts s) (parse_conjunction f s)
  conjunction-Parsed zero s = tt
  conjunction-Parsed (suc f) s =
      Returns->>= (Parsed unary s) (Parsed conjuncts s) (parse_unary f s) _ (unary-Parsed f s)
        λ (left, t) (ts, reads, d).
          more_conjuncts-Parsed f left s t ts reads (one_conjunct ts left d)

  more_conjuncts-Parsed :
      (f : ℕ) (left : QueryNode) (start s : Parser) (ts : List LexToken)
      → Reads start ts s
      → Derives conjuncts ts left
      → Returns (Parsed conjuncts start) (more_conjuncts f left s)
  more_conjuncts-Parsed zero left start s ts reads d = tt
  more_conjuncts-Parsed (suc f) left start s ts reads d =
      if_intro (Returns (Parsed conjuncts start)) (is_conjunction s.current.kind) _ _
        (λ e.
          Returns->>= (Reads s (s.current ∷ [])) (Parsed conjuncts start) (advance s) _
            (advance-Reads s)
            λ t a.
              Returns->>= (Parsed unary t) (Parsed conjuncts start) (parse_unary f t) _
                (unary-Parsed f t)
                λ (right, u) (us, more, c).
                  let all = Reads-append (s.current ∷ []) us s t u a more in
                  more_conjuncts-Parsed f (QueryNode.conjunction left right) start u
                    (ts ++ (s.current ∷ us)) (Reads-append ts (s.current ∷ us) start s u reads all)
                    (and_ ts us s.current left right d e c))
        λ _.
          if_intro (Returns (Parsed conjuncts start)) (starts_operand s.current.kind) _ _
            (λ _.
              Returns->>= (Parsed unary s) (Parsed conjuncts start) (parse_unary f s) _
                (unary-Parsed f s)
                λ (right, u) (us, more, c).
                  more_conjuncts-Parsed f (QueryNode.conjunction left right) start u (ts ++ us)
                    (Reads-append ts us start s u reads more) (beside ts us left right d c))
            λ _. (ts, reads, d)

  unary-Parsed : (f : ℕ) (s : Parser) → Returns (Parsed unary s) (parse_unary f s)
  unary-Parsed zero s = tt
  unary-Parsed (suc f) s =
      if_intro (Returns (Parsed unary s)) (is_negation s.current.kind) _ _
        (λ e.
          Returns-throw_if (Parsed unary s) (leb max_query_depth s.nesting_depth) exceeds_depth _
            λ _.
              Returns->>= (Reads s (s.current ∷ [])) (Parsed unary s) (advance (deeper s)) _
                (advance-Reads (deeper s))
                λ t a.
                  Returns->>= (Parsed unary t) (Parsed unary s) (parse_unary f t) _
                    (unary-Parsed f t)
                    λ (node, u) (us, more, c). (
                      s.current ∷ us,
                      Reads-append (s.current ∷ []) us s t u a more,
                      not_ us s.current node e c,
                    ))
        λ _.
          Returns-map (Parsed primary s) (Parsed unary s) (parse_primary f s) (primary-Parsed f s)
            λ (node, t) (ts, reads, d). (ts, reads, one_operand ts node d)

  primary-Parsed : (f : ℕ) (s : Parser) → Returns (Parsed primary s) (parse_primary f s)
  primary-Parsed zero s = tt
  primary-Parsed (suc f) s =
      if_intro (Returns (Parsed primary s)) (is_left_parenthesis s.current.kind) _ _
        (λ e.
          Returns-throw_if (Parsed primary s) (leb max_query_depth s.nesting_depth) exceeds_depth _
            λ _.
              Returns->>= (Reads s (s.current ∷ [])) (Parsed primary s) (advance (deeper s)) _
                (advance-Reads (deeper s))
                λ t a.
                  Returns->>= (Parsed disjuncts t) (Parsed primary s) (parse_disjunction f t) _
                    (disjunction-Parsed f t)
                    λ (node, u) (us, more, c).
                      Returns-throw_if (Parsed primary s)
                        (not (is_right_parenthesis u.current.kind))
                        (Error.syntax_error s.current.offset "missing closing parenthesis") _
                        λ closed.
                          Returns->>= (Reads u (u.current ∷ [])) (Parsed primary s) (advance u) _
                            (advance-Reads u)
                            λ v b. (
                              s.current ∷ (us ++ (u.current ∷ [])),
                              Reads-append (s.current ∷ []) (us ++ (u.current ∷ [])) s t v a
                                  (Reads-append us (u.current ∷ []) t u v more b),
                              group us s.current u.current node e c (ground (arith, closed)),
                            ))
        λ _.
          Returns->>= (λ node. parse_operand s.current ≡ ok node) (Parsed primary s)
            (parse_operand s.current) _ (Returns-self (parse_operand s.current))
            λ node e.
              Returns->>= (Reads s (s.current ∷ [])) (Parsed primary s) (advance s) _
                (advance-Reads s) λ t a. (s.current ∷ [], a, single s.current node e)

-- `tokens` are all the tokens of the expression, but for the one that ends it.
abbrev pub Tokens : Bytes → List LexToken → Type 0
Tokens expression tokens =
    (first : LexToken) × (lexer : Lexer) × (last : LexToken) × (lexer' : Lexer) × (next
        (record { rest = expression; position = 0 })
      ≡ ok (first, lexer))
    × (is_end last.kind ≡ true)
    × Lexed first lexer tokens last lexer'

-- The tree of an expression within the limits.
abbrev pub IsTree : Bytes → QueryNode → Type 0
IsTree expression tree =
    (length expression ≤ max_query_expression_length)
    × (expression_depth tree ≤ max_query_depth)
    × (tokens : List LexToken) × Derives disjuncts tokens tree
    × Tokens expression tokens

new_parser_starts :
    (expression : Bytes)
    → Returns
        (λ (s : Parser).
          next (record { rest = expression; position = 0 }) ≡ ok (s.current, s.lexer))
        (new_parser expression)
unfolding new_parser
new_parser_starts expression =
    let start : Lexer = record { rest = expression; position = 0 } in
    Returns->>= (λ r. next start ≡ ok r) (λ (s : Parser). next start ≡ ok (s.current, s.lexer))
      (next start) _ (Returns-self (next start)) λ (token, lexer) e. e

parse_parsed :
    (expression : Bytes) (f : ℕ) (s : Parser)
    → length expression ≤ max_query_expression_length
    → next (record { rest = expression; position = 0 }) ≡ ok (s.current, s.lexer)
    → Returns (IsTree expression) (parse f s)
unfolding parse check_tree
parse_parsed expression f s short starts =
    Returns-throw_if (IsTree expression) (is_end s.current.kind)
      (Error.syntax_error 0 "expression is empty") _
      λ _.
        Returns->>= (Parsed disjuncts s) (IsTree expression) (parse_disjunction f s) _
          (disjunction-Parsed f s)
          λ (tree, t) (ts, reads, d).
            Returns-throw_if (IsTree expression) (not (is_end t.current.kind))
              (Error.syntax_error t.current.offset "unexpected trailing token") _
              λ ended.
                Returns-throw_if (IsTree expression) (ltb max_query_depth (expression_depth tree))
                  exceeds_depth (ok tree)
                  λ shallow. (
                    short,
                    ltb-false max_query_depth (expression_depth tree) shallow,
                    ts,
                    d,
                    (s.current, s.lexer, t.current, t.lexer, starts, ground (arith, ended), reads),
                  )

-- A tree that parse_query returns is one that the grammar derives from all the tokens of the
-- expression, up to its end; the expression and the tree are within their limits.
pub parse_query-IsTree :
    (expression : Bytes) (tree : QueryNode)
    → parse_query expression ≡ ok tree
    → IsTree expression tree
unfolding parse_query
parse_query-IsTree expression tree = Returns-ok (IsTree expression) (parse_query expression) tree (
    Returns-throw_if (IsTree expression) (ltb max_query_expression_length (length expression))
      (Error.invalid_argument "query expression exceeds maximum length") _
      λ short.
        Returns->>=
          (λ (s : Parser).
            next (record { rest = expression; position = 0 }) ≡ ok (s.current, s.lexer))
          (IsTree expression) (new_parser expression) _ (new_parser_starts expression)
          λ s starts.
            parse_parsed expression (5 * length expression + 5) s
              (ltb-false max_query_expression_length (length expression) short) starts)
