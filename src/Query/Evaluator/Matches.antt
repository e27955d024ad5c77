-- ===== src/Query/Evaluator/Matches.antt =====
-- What a query means for one document, and the lists of src/query/query_evaluator.cpp.
use snow_seek.Documents.{DocumentMeta, DocumentStore}
use snow_seek.Index.{InMemoryIndex, PostingList, find, sorted_terms}
use snow_seek.Prelude.{
  Bool, Bool-cases, Bytes, Error, List, Option, Result, Returns, Returns->>=, Returns-map,
  Returns-throw_if, [], ap, arith, false, if_intro, inl, inr, is_empty, length, ltb, none, not, ok,
  refl, some, suc, true, zero, ℕ, ◌&&◌, ◌++◌, ◌||◌, ◌∙◌, ◌∷◌, ◌≡◌,
}
use snow_seek.Prelude.Ascending.{From, member}
use snow_seek.Query.Evaluator.{
  collect_conjuncts, evaluate, evaluate_conjunction, evaluate_phrase, evaluate_prefix,
  evaluate_term, expansion, has_extension, insert_operand, intersect_lists, intersect_rest,
  phrase_ids, posting_lists, select, smallest, sort_operands, universe_from,
}
use snow_seek.Query.Evaluator.Prefixes.{any_key, any_of, expansion-any_key}
use snow_seek.Query.Evaluator.Selection.{
  AreLists, AreSome, From-intersect_lists, From-matching, From-select, From-unite_terms,
  From-universe_from, IdsFrom, any_document, any_term, empty_member, find-IsPostings, in_all,
  member-intersect_lists, member-matching, member-select, member-unite_terms, member-universe_from,
  phrase_matches-in_all, smallest-IsPostings, smallest-member, with_list-AreSome,
}
use snow_seek.Query.Filter.{starts_with}
use snow_seek.Query.Metadata.{compare_days, compare_sizes, utc_day}
use snow_seek.Query.Postings.{phrase_matches, posting_document_ids}
use snow_seek.Query.Sets.{DocumentIds, intersect_ids}
use snow_seek.Query.Sets.Members.{
  From-complement_ids, From-intersect_ids, From-union_ids, member-complement_ids,
  member-intersect_ids, member-union_ids,
}
use snow_seek.Query.Tree.{QueryNode}

module _ (fnmatch : Bytes → Bytes → Bool) (documents : DocumentStore) (index : InMemoryIndex) where
  unfoldable pub phrase_spec : Option (List PostingList) → ℕ → ℕ → Bool
  phrase_spec none k d = false
  phrase_spec (some []) k d = false
  phrase_spec (some (first ∷ lists)) k d = phrase_matches (first ∷ lists) d k

  -- Whether the document with the identifier `d` matches.
  unfoldable pub matches : QueryNode → ℕ → Bool
  matches (QueryNode.term text) d = member d (evaluate_term fnmatch documents index text)
  matches (QueryNode.prefix text) d =
      any_key (λ x. starts_with x text && member d (evaluate_term fnmatch documents index x))
        index.dictionary
  matches (QueryNode.phrase terms k) d =
      phrase_spec (posting_lists fnmatch documents index terms) k d
  matches (QueryNode.path_filter text) d =
      any_document (λ document. fnmatch text document.path) d documents
  matches (QueryNode.extension_filter text) d = any_document (has_extension text) d documents
  matches (QueryNode.size_filter text comparison size_bytes) d =
      any_document (λ document. compare_sizes document.file_size size_bytes comparison) d documents
  matches (QueryNode.mtime_filter text comparison day) d =
      any_document (λ document. compare_days (utc_day document.modified_time_ns) day comparison) d
        documents
  matches (QueryNode.conjunction left right) d = matches left d && matches right d
  matches (QueryNode.disjunction left right) d = matches left d || matches right d
  matches (QueryNode.negation left) d = ltb d (length documents) && not (matches left d)

  -- An ascending list of the documents that match.
  abbrev pub AreMatches : QueryNode → DocumentIds → Type 0
  AreMatches node ids = From 0 ids × ((d : ℕ) → member d ids ≡ matches node d)

  all_match : List QueryNode → ℕ → Bool
  all_match [] d = true
  all_match (node ∷ nodes) d = matches node d && all_match nodes d

  all_match-append :
      (xs ys : List QueryNode) (d : ℕ) → all_match (xs ++ ys) d ≡ (all_match xs d && all_match ys d)
  unfolding all_match
  all_match-append [] ys d = refl
  all_match-append (x ∷ xs) ys d = ground (arith, all_match-append xs ys d)

  all_match-collect :
      (node : QueryNode) (d : ℕ) → all_match (collect_conjuncts node) d ≡ matches node d
  unfolding all_match collect_conjuncts matches
  all_match-collect (QueryNode.conjunction left right) d = ground (
    arith,
    all_match-append (collect_conjuncts left) (collect_conjuncts right) d,
    all_match-collect left d,
    all_match-collect right d,
  )
  all_match-collect (QueryNode.term text) d = ground arith
  all_match-collect (QueryNode.prefix text) d = ground arith
  all_match-collect (QueryNode.phrase terms k) d = ground arith
  all_match-collect (QueryNode.path_filter text) d = ground arith
  all_match-collect (QueryNode.extension_filter text) d = ground arith
  all_match-collect (QueryNode.size_filter text c n) d = ground arith
  all_match-collect (QueryNode.mtime_filter text c n) d = ground arith
  all_match-collect (QueryNode.disjunction left right) d = ground arith
  all_match-collect (QueryNode.negation left) d = ground arith

  all_match-insert :
      (node : QueryNode) (nodes : List QueryNode) (d : ℕ)
      → all_match (insert_operand fnmatch documents index node nodes) d
        ≡ (matches node d && all_match nodes d)
  unfolding insert_operand all_match
  all_match-insert node [] d = refl
  all_match-insert node (first ∷ nodes) d = ground (arith, all_match-insert node nodes d)

  all_match-sort :
      (nodes : List QueryNode) (d : ℕ)
      → all_match (sort_operands fnmatch documents index nodes) d ≡ all_match nodes d
  unfolding sort_operands all_match
  all_match-sort [] d = refl
  all_match-sort (node ∷ nodes) d =
      all_match-insert node (sort_operands fnmatch documents index nodes) d
      ∙ ap (λ b. matches node d && b) (all_match-sort nodes d)

  posting_lists-AreSome :
      (names : List Bytes)
      → AreLists index.dictionary
      → AreSome (posting_lists fnmatch documents index names)
  unfolding posting_lists evaluate_term
  posting_lists-AreSome [] h = tt
  posting_lists-AreSome (name ∷ names) h =
      with_list-AreSome fnmatch documents index (find index name)
        (posting_lists fnmatch documents index names)
        (find-IsPostings fnmatch documents index name h) (posting_lists-AreSome names h)

  phrase_ids-matches :
      (lists : Option (List PostingList)) (k : ℕ)
      → AreSome lists
      → From 0 (phrase_ids fnmatch documents index lists k)
        × ((d : ℕ) → member d (phrase_ids fnmatch documents index lists k) ≡ phrase_spec lists k d)
  unfolding phrase_ids phrase_spec member in_all
  phrase_ids-matches none k h = (tt, λ d. refl)
  phrase_ids-matches (some []) k h = (tt, λ d. refl)
  phrase_ids-matches (some (first ∷ lists)) k (now, h) =
      let all = first ∷ lists in
      let start = posting_document_ids (smallest fnmatch documents index first lists) in
      let s = smallest-IsPostings fnmatch documents index first lists now h in
      (
        From-matching fnmatch documents index all k 0
            (intersect_lists fnmatch documents index start all)
            (From-intersect_lists fnmatch documents index start all (now, h) s),
        λ d. elim (Bool-cases (in_all d all)) [
          | inl e ↦ ground (
            arith,
            e,
            smallest-member fnmatch documents index d first lists (ground (arith, e))
                (ground (arith, e)),
            member-matching fnmatch documents index d k all
                (intersect_lists fnmatch documents index start all),
            member-intersect_lists fnmatch documents index d start all (now, h) s,
          )
          | inr e ↦ ground (
            arith,
            e,
            phrase_matches-in_all d k all (now, h) e,
            member-matching fnmatch documents index d k all
                (intersect_lists fnmatch documents index start all),
          )
        ],
      )

  abbrev Intersected : DocumentIds → List QueryNode → DocumentIds → Type 0
  Intersected found nodes ids =
      From 0 ids × ((d : ℕ) → member d ids ≡ (member d found && all_match nodes d))

  intersect_rest-matches :
      (eval : QueryNode → Result DocumentIds)
      → ((node : QueryNode) → Returns (AreMatches node) (eval node))
      → (found : DocumentIds) (nodes : List QueryNode) → From 0 found
      → Returns (Intersected found nodes) (intersect_rest fnmatch documents index eval found nodes)
  unfolding intersect_rest all_match
  intersect_rest-matches eval right found [] f = (f, λ d. ground arith)
  intersect_rest-matches eval right found (node ∷ nodes) f =
      if_intro (Returns (Intersected found (node ∷ nodes))) (is_empty found) _ _
        (λ e. (f, λ d. ground (arith, empty_member d found e)))
        λ _.
          Returns->>= (AreMatches node) (Intersected found (node ∷ nodes)) (eval node) _
            (right node)
            λ ids (g, m).
              Returns-map (Intersected (intersect_ids found ids) nodes)
                (Intersected found (node ∷ nodes))
                (intersect_rest fnmatch documents index eval (intersect_ids found ids) nodes)
                (intersect_rest-matches eval right (intersect_ids found ids) nodes
                  (From-intersect_ids 0 found ids f g))
                λ r (fr, mr).
                  (fr, λ d. ground (arith, mr d, m d, member-intersect_ids d 0 found ids f g))

  abbrev AllMatched : List QueryNode → DocumentIds → Type 0
  AllMatched nodes ids = From 0 ids × ((d : ℕ) → member d ids ≡ all_match nodes d)

  evaluate_conjunction-matches :
      (eval : QueryNode → Result DocumentIds)
      → ((node : QueryNode) → Returns (AreMatches node) (eval node))
      → (node : QueryNode) (nodes : List QueryNode)
      → Returns
          (AllMatched (node ∷ nodes))
          (evaluate_conjunction fnmatch documents index eval (node ∷ nodes))
  unfolding evaluate_conjunction all_match
  evaluate_conjunction-matches eval right node nodes =
      Returns->>= (AreMatches node) (AllMatched (node ∷ nodes)) (eval node) _ (right node)
        λ found (f, m).
          Returns-map (Intersected found nodes) (AllMatched (node ∷ nodes))
            (intersect_rest fnmatch documents index eval found nodes)
            (intersect_rest-matches eval right found nodes f)
            λ r (fr, mr). (fr, λ d. ground (arith, mr d, m d))

  evaluate_operands-matches :
      (eval : QueryNode → Result DocumentIds)
      → ((node : QueryNode) → Returns (AreMatches node) (eval node))
      → (nodes : List QueryNode) → is_empty nodes ≡ false
      → Returns (AllMatched nodes) (evaluate_conjunction fnmatch documents index eval nodes)
  evaluate_operands-matches eval right [] e = cc
  evaluate_operands-matches eval right (node ∷ nodes) e =
      evaluate_conjunction-matches eval right node nodes

  insert_operand-is_empty :
      (node : QueryNode) (nodes : List QueryNode)
      → is_empty (insert_operand fnmatch documents index node nodes) ≡ false
  unfolding insert_operand
  insert_operand-is_empty node [] = refl
  insert_operand-is_empty node (first ∷ nodes) = ground arith

  sort_operands-is_empty :
      (nodes : List QueryNode)
      → is_empty nodes ≡ false
      → is_empty (sort_operands fnmatch documents index nodes) ≡ false
  unfolding sort_operands
  sort_operands-is_empty [] e = cc
  sort_operands-is_empty (node ∷ nodes) e =
      insert_operand-is_empty node (sort_operands fnmatch documents index nodes)

  append-is_empty : (xs ys : List QueryNode) → is_empty xs ≡ false → is_empty (xs ++ ys) ≡ false
  append-is_empty [] ys e = cc
  append-is_empty (x ∷ xs) ys e = refl

  collect_conjuncts-is_empty : (node : QueryNode) → is_empty (collect_conjuncts node) ≡ false
  unfolding collect_conjuncts
  collect_conjuncts-is_empty (QueryNode.conjunction left right) =
      append-is_empty (collect_conjuncts left) (collect_conjuncts right)
        (collect_conjuncts-is_empty left)
  collect_conjuncts-is_empty (QueryNode.term text) = refl
  collect_conjuncts-is_empty (QueryNode.prefix text) = refl
  collect_conjuncts-is_empty (QueryNode.phrase terms k) = refl
  collect_conjuncts-is_empty (QueryNode.path_filter text) = refl
  collect_conjuncts-is_empty (QueryNode.extension_filter text) = refl
  collect_conjuncts-is_empty (QueryNode.size_filter text c n) = refl
  collect_conjuncts-is_empty (QueryNode.mtime_filter text c n) = refl
  collect_conjuncts-is_empty (QueryNode.disjunction left right) = refl
  collect_conjuncts-is_empty (QueryNode.negation left) = refl

  select-matches :
      (test : DocumentMeta → Bool)
      → IdsFrom 0 documents
      → From 0 (select test documents)
        × ((d : ℕ) → member d (select test documents) ≡ any_document test d documents)
  select-matches test ids = (From-select test 0 documents ids, λ d. member-select test d documents)

  any_term-any_of :
      (d : ℕ) (names : List Bytes)
      → any_term fnmatch documents index d names
        ≡ any_of (λ x. member d (evaluate_term fnmatch documents index x)) names
  unfolding any_of any_term
  any_term-any_of d [] = refl
  any_term-any_of d (name ∷ names) = ground (arith, any_term-any_of d names)

  evaluate_prefix-matches :
      (text : Bytes)
      → AreLists index.dictionary
      → AreMatches (QueryNode.prefix text) (evaluate_prefix fnmatch documents index text)
  unfolding evaluate_prefix member matches
  evaluate_prefix-matches text lists =
      let names = expansion (sorted_terms index) text in
      let holds : ℕ → Bytes → Bool = λ d x. member d (evaluate_term fnmatch documents index x) in
      (
        From-unite_terms fnmatch documents index [] names lists tt,
        λ d.
            member-unite_terms fnmatch documents index d [] names
            ∙ any_term-any_of d names
            ∙ expansion-any_key (holds d) text index,
      )

  evaluate_phrase-matches :
      (terms : List Bytes) (k : ℕ)
      → AreLists index.dictionary
      → Returns
          (AreMatches (QueryNode.phrase terms k))
          (evaluate_phrase fnmatch documents index terms k)
  unfolding evaluate_phrase matches
  evaluate_phrase-matches terms k lists =
      Returns-throw_if (AreMatches (QueryNode.phrase terms k)) (not index.store_positions)
        (Error.invalid_argument "index does not contain positions required for phrase queries")
        (ok (phrase_ids fnmatch documents index (posting_lists fnmatch documents index terms) k))
        λ _.
          phrase_ids-matches (posting_lists fnmatch documents index terms) k
            (posting_lists-AreSome terms lists)

  pub evaluate-matches :
      (f : ℕ) (node : QueryNode)
      → IdsFrom 0 documents
      → AreLists index.dictionary
      → Returns (AreMatches node) (evaluate fnmatch documents index f node)
  unfolding evaluate matches
  evaluate-matches zero node ids lists = tt
  evaluate-matches (suc f) (QueryNode.term text) ids lists =
      (find-IsPostings fnmatch documents index text lists, λ d. refl)
  evaluate-matches (suc f) (QueryNode.prefix text) ids lists = evaluate_prefix-matches text lists
  evaluate-matches (suc f) (QueryNode.phrase terms k) ids lists =
      evaluate_phrase-matches terms k lists
  evaluate-matches (suc f) (QueryNode.path_filter text) ids lists = select-matches _ ids
  evaluate-matches (suc f) (QueryNode.extension_filter text) ids lists = select-matches _ ids
  evaluate-matches (suc f) (QueryNode.size_filter text c n) ids lists = select-matches _ ids
  evaluate-matches (suc f) (QueryNode.mtime_filter text c n) ids lists = select-matches _ ids
  evaluate-matches (suc f) (QueryNode.conjunction left right) ids lists =
      let nodes = collect_conjuncts (QueryNode.conjunction left right) in
      Returns-map (AllMatched (sort_operands fnmatch documents index nodes))
        (AreMatches (QueryNode.conjunction left right))
        (evaluate_conjunction fnmatch documents index (evaluate fnmatch documents index f)
          (sort_operands fnmatch documents index nodes))
        (evaluate_operands-matches (evaluate fnmatch documents index f)
          (λ node. evaluate-matches f node ids lists) (sort_operands fnmatch documents index nodes)
          (sort_operands-is_empty nodes
            (collect_conjuncts-is_empty (QueryNode.conjunction left right))))
        λ r (fr, mr). (
          fr,
          λ d.
              mr d
              ∙ all_match-sort nodes d
              ∙ all_match-collect (QueryNode.conjunction left right) d,
        )
  evaluate-matches (suc f) (QueryNode.disjunction left right) ids lists =
      Returns->>= (AreMatches left) (AreMatches (QueryNode.disjunction left right))
        (evaluate fnmatch documents index f left) _ (evaluate-matches f left ids lists)
        λ l (fl, ml).
          Returns->>= (AreMatches right) (AreMatches (QueryNode.disjunction left right))
            (evaluate fnmatch documents index f right) _ (evaluate-matches f right ids lists)
            λ r (fr, mr).
              (From-union_ids 0 l r fl fr, λ d. ground (arith, ml d, mr d, member-union_ids d l r))
  evaluate-matches (suc f) (QueryNode.negation left) ids lists =
      let n = length documents in
      Returns->>= (AreMatches left) (AreMatches (QueryNode.negation left))
        (evaluate fnmatch documents index f left) _ (evaluate-matches f left ids lists)
        λ l (fl, ml). (
          From-complement_ids 0 (universe_from n 0) l (From-universe_from n 0),
          λ d. ground (
            arith,
            ml d,
            member-universe_from d n 0,
            member-complement_ids d 0 (universe_from n 0) l (From-universe_from n 0) fl,
          ),
        )
