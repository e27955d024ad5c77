-- ===== src/Query/Evaluator/Fuel.antt =====
-- The evaluator of src/query/query_evaluator.cpp as a whole, and its fuel.
use snow_seek.Documents.{DocumentStore}
use snow_seek.Index.{InMemoryIndex, sorted_terms}
use snow_seek.Prelude.{
  All, All-append, Bool, Bytes, List, Result, Returns, Returns->>=, Returns-ok, [], arith, false,
  if_intro, is_empty, ltb, ok, refl, suc, throw, true, zero, ℕ, ◌>>=◌, ◌∷◌, ◌≡◌, ◌≤◌,
}
use snow_seek.Query.Evaluator.{
  QueryEvaluation, collect_conjuncts, collect_positive_terms, estimate, evaluate,
  evaluate_conjunction, evaluate_phrase, evaluate_query, insert_operand, intersect_rest, phrase_ids,
  posting_lists, prepare_prefixes, sort_operands, sort_unique,
}
use snow_seek.Query.Evaluator.Matches.{AreMatches, evaluate-matches}
use snow_seek.Query.Evaluator.Selection.{AreLists, IdsFrom}
use snow_seek.Query.Lexer.{next}
use snow_seek.Query.Sets.{DocumentIds, intersect_ids}
use snow_seek.Query.Tree.{QueryNode, expression_depth}

module _ (fnmatch : Bytes → Bytes → Bool) (documents : DocumentStore) (index : InMemoryIndex) where
  abbrev Answers {ℓ} : {A : Type ℓ} → Result A → Type ℓ
  Answers {A = A} r = (a : A) × (r ≡ ok a)

  abbrev AllWithin : ℕ → List QueryNode → Type 0
  AllWithin f nodes = All (λ node. expression_depth node ≤ f) nodes

  collect_conjuncts-AllWithin :
      (f : ℕ) (node : QueryNode) → expression_depth node ≤ f → AllWithin f (collect_conjuncts node)
  unfolding collect_conjuncts expression_depth
  collect_conjuncts-AllWithin f (QueryNode.conjunction left right) h =
      All-append (λ node. expression_depth node ≤ f) (collect_conjuncts left)
        (collect_conjuncts right) (collect_conjuncts-AllWithin f left (omega (arith, h)))
        (collect_conjuncts-AllWithin f right (omega (arith, h)))
  collect_conjuncts-AllWithin f (QueryNode.term text) h = (h, tt)
  collect_conjuncts-AllWithin f (QueryNode.prefix text) h = (h, tt)
  collect_conjuncts-AllWithin f (QueryNode.phrase terms k) h = (h, tt)
  collect_conjuncts-AllWithin f (QueryNode.path_filter text) h = (h, tt)
  collect_conjuncts-AllWithin f (QueryNode.extension_filter text) h = (h, tt)
  collect_conjuncts-AllWithin f (QueryNode.size_filter text c n) h = (h, tt)
  collect_conjuncts-AllWithin f (QueryNode.mtime_filter text c n) h = (h, tt)
  collect_conjuncts-AllWithin f (QueryNode.disjunction left right) h = (h, tt)
  collect_conjuncts-AllWithin f (QueryNode.negation left) h = (h, tt)

  operands-AllWithin :
      (f : ℕ) (left right : QueryNode)
      → expression_depth (QueryNode.conjunction left right) ≤ suc f
      → AllWithin f (collect_conjuncts (QueryNode.conjunction left right))
  unfolding collect_conjuncts expression_depth
  operands-AllWithin f left right h =
      All-append (λ node. expression_depth node ≤ f) (collect_conjuncts left)
        (collect_conjuncts right) (collect_conjuncts-AllWithin f left (omega (arith, h)))
        (collect_conjuncts-AllWithin f right (omega (arith, h)))

  insert_operand-AllWithin :
      (f : ℕ) (node : QueryNode) (nodes : List QueryNode)
      → expression_depth node ≤ f
      → AllWithin f nodes
      → AllWithin f (insert_operand fnmatch documents index node nodes)
  unfolding insert_operand
  insert_operand-AllWithin f node [] h a = (h, tt)
  insert_operand-AllWithin f node (first ∷ nodes) h (now, a) =
      if_intro (AllWithin f)
        (ltb (estimate fnmatch documents index first) (estimate fnmatch documents index node)) _ _
        (λ _. (now, insert_operand-AllWithin f node nodes h a)) λ _. (h, (now, a))

  sort_operands-AllWithin :
      (f : ℕ) (nodes : List QueryNode)
      → AllWithin f nodes
      → AllWithin f (sort_operands fnmatch documents index nodes)
  unfolding sort_operands
  sort_operands-AllWithin f [] a = tt
  sort_operands-AllWithin f (node ∷ nodes) (now, a) =
      insert_operand-AllWithin f node (sort_operands fnmatch documents index nodes) now
        (sort_operands-AllWithin f nodes a)

  bind-Answers {ℓ κ} :
      {A : Type ℓ} {B : Type κ} (m : Result A) (k : A → Result B)
      → Answers m
      → ((a : A) → Answers (k a))
      → Answers (m >>= k)
  bind-Answers (ok a) k h next = next a
  bind-Answers (throw e) k (a, h) next = cc

  intersect_rest-Answers :
      (f : ℕ) (eval : QueryNode → Result DocumentIds)
      → ((node : QueryNode) → expression_depth node ≤ f → Answers (eval node))
      → (found : DocumentIds) (nodes : List QueryNode) → AllWithin f nodes
      → Answers (intersect_rest fnmatch documents index eval found nodes)
  unfolding intersect_rest
  intersect_rest-Answers f eval total found [] a = (found, refl)
  intersect_rest-Answers f eval total found (node ∷ nodes) (now, a) =
      if_intro Answers (is_empty found) _ _ (λ _. (found, refl))
        λ _.
          bind-Answers (eval node) _ (total node now)
            λ ids. intersect_rest-Answers f eval total (intersect_ids found ids) nodes a

  evaluate_conjunction-Answers :
      (f : ℕ) (eval : QueryNode → Result DocumentIds)
      → ((node : QueryNode) → expression_depth node ≤ f → Answers (eval node))
      → (nodes : List QueryNode) → AllWithin f nodes
      → Answers (evaluate_conjunction fnmatch documents index eval nodes)
  unfolding evaluate_conjunction
  evaluate_conjunction-Answers f eval total [] a = ([], refl)
  evaluate_conjunction-Answers f eval total (node ∷ nodes) (now, a) =
      bind-Answers (eval node) _ (total node now)
        λ found. intersect_rest-Answers f eval total found nodes a

  evaluate_phrase-Answers :
      (terms : List Bytes) (k : ℕ)
      → index.store_positions ≡ true
      → Answers (evaluate_phrase fnmatch documents index terms k)
  unfolding evaluate_phrase
  evaluate_phrase-Answers terms k positions = (
    phrase_ids fnmatch documents index (posting_lists fnmatch documents index terms) k,
    rw positions refl,
  )

  pub evaluate-Answers :
      (f : ℕ) (node : QueryNode)
      → index.store_positions ≡ true
      → expression_depth node ≤ f
      → Answers (evaluate fnmatch documents index f node)
  unfolding evaluate expression_depth
  evaluate-Answers zero (QueryNode.term text) positions h = absurd (omega (arith, h))
  evaluate-Answers zero (QueryNode.prefix text) positions h = absurd (omega (arith, h))
  evaluate-Answers zero (QueryNode.phrase terms k) positions h = absurd (omega (arith, h))
  evaluate-Answers zero (QueryNode.path_filter text) positions h = absurd (omega (arith, h))
  evaluate-Answers zero (QueryNode.extension_filter text) positions h = absurd (omega (arith, h))
  evaluate-Answers zero (QueryNode.size_filter text c n) positions h = absurd (omega (arith, h))
  evaluate-Answers zero (QueryNode.mtime_filter text c n) positions h = absurd (omega (arith, h))
  evaluate-Answers zero (QueryNode.conjunction left right) positions h = absurd (omega (arith, h))
  evaluate-Answers zero (QueryNode.disjunction left right) positions h = absurd (omega (arith, h))
  evaluate-Answers zero (QueryNode.negation left) positions h = absurd (omega (arith, h))
  evaluate-Answers (suc f) (QueryNode.term text) positions h = (_, refl)
  evaluate-Answers (suc f) (QueryNode.prefix text) positions h = (_, refl)
  evaluate-Answers (suc f) (QueryNode.phrase terms k) positions h =
      evaluate_phrase-Answers terms k positions
  evaluate-Answers (suc f) (QueryNode.path_filter text) positions h = (_, refl)
  evaluate-Answers (suc f) (QueryNode.extension_filter text) positions h = (_, refl)
  evaluate-Answers (suc f) (QueryNode.size_filter text c n) positions h = (_, refl)
  evaluate-Answers (suc f) (QueryNode.mtime_filter text c n) positions h = (_, refl)
  evaluate-Answers (suc f) (QueryNode.conjunction left right) positions h =
      let nodes = collect_conjuncts (QueryNode.conjunction left right) in
      evaluate_conjunction-Answers f (evaluate fnmatch documents index f)
        (λ node k. evaluate-Answers f node positions k)
        (sort_operands fnmatch documents index nodes)
        (sort_operands-AllWithin f nodes (operands-AllWithin f left right h))
  evaluate-Answers (suc f) (QueryNode.disjunction left right) positions h =
      bind-Answers (evaluate fnmatch documents index f left) _
        (evaluate-Answers f left positions (omega (arith, h)))
        λ l.
          bind-Answers (evaluate fnmatch documents index f right) _
            (evaluate-Answers f right positions (omega (arith, h))) λ r. (_, refl)
  evaluate-Answers (suc f) (QueryNode.negation left) positions h =
      bind-Answers (evaluate fnmatch documents index f left) _
        (evaluate-Answers f left positions (omega (arith, h))) λ l. (_, refl)

  -- If the documents' identifiers are their indices and the posting lists ascend, the index has
  -- positions and the query's prefixes have at most 256 terms, then evaluate_query answers, with an
  -- ascending list of just the documents that match the query.
  pub evaluate_query-AreMatches :
      (query : QueryNode) (prepared : List Bytes)
      → IdsFrom 0 documents
      → AreLists index.dictionary
      → index.store_positions ≡ true
      → prepare_prefixes (sorted_terms index) query [] ≡ ok prepared
      → (ids : DocumentIds) × (names : List Bytes) × (evaluate_query fnmatch documents index query
          ≡ ok (ids, names))
        × AreMatches fnmatch documents index query ids
  unfolding evaluate_query
  evaluate_query-AreMatches query prepared contiguous lists positions ready =
      let (ids, e) = evaluate-Answers (expression_depth query) query positions (omega arith) in
      (
        ids,
        sort_unique (collect_positive_terms (sorted_terms index) query false),
        rw (ready, e) refl,
        Returns-ok (AreMatches fnmatch documents index query)
            (evaluate fnmatch documents index (expression_depth query) query) ids
            (evaluate-matches fnmatch documents index (expression_depth query) query contiguous
              lists)
            e,
      )

  -- Whatever evaluate_query answers, with or without positions, is an ascending list of just the
  -- documents that match, if the identifiers are the indices and the posting lists ascend.
  pub evaluate_query_sound :
      (query : QueryNode) (ids : DocumentIds) (names : List Bytes)
      → IdsFrom 0 documents
      → AreLists index.dictionary
      → evaluate_query fnmatch documents index query ≡ ok (ids, names)
      → AreMatches fnmatch documents index query ids
  unfolding evaluate_query
  evaluate_query_sound query ids names contiguous lists e =
      Returns-ok (λ (r : QueryEvaluation). AreMatches fnmatch documents index query r.0)
        (evaluate_query fnmatch documents index query) (ids, names)
        (Returns->>= (λ prepared. Unit {0})
          (λ (r : QueryEvaluation). AreMatches fnmatch documents index query r.0)
          (prepare_prefixes (sorted_terms index) query []) _
          (Returns_any (prepare_prefixes (sorted_terms index) query []))
          λ prepared _.
            Returns->>= (AreMatches fnmatch documents index query)
              (λ (r : QueryEvaluation). AreMatches fnmatch documents index query r.0)
              (evaluate fnmatch documents index (expression_depth query) query) _
              (evaluate-matches fnmatch documents index (expression_depth query) query contiguous
                lists)
              λ found m. m)
        e
    where
      Returns_any : (r : Result (List Bytes)) → Returns (λ prepared. Unit {0}) r
      Returns_any (ok a) = tt
      Returns_any (throw e) = tt
