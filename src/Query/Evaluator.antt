-- ===== src/Query/Evaluator.antt =====
-- The class Evaluator and evaluate_query of src/query/query_evaluator.cpp. The matching of a glob,
-- fnmatch of the C library, is a parameter. `prefix_expansions_` has for a prefix node what
-- `expansion` makes of its value. The order of estimates decides the order of a conjunction's
-- operands.
pub mod Matches
pub mod Selection
pub mod Prefixes
pub mod Fuel
use snow_seek.Documents.{DocumentMeta, DocumentStore}
use snow_seek.Index.{InMemoryIndex, PostingList, bytes_less, find, sorted_terms}
use snow_seek.Prelude.{
  Bool, Bytes, Error, List, Option, Result, [], bytes_eq, false, if◌then◌else◌, is_empty, leb,
  length, ltb, min, none, not, ok, some, suc, throw, throw_if, true, zero, ℕ, ◌++◌, ◌+◌, ◌-◌, ◌>>=◌,
  ◌>>◌, ◌||◌, ◌∷◌,
}
use snow_seek.Query.Filter.{starts_with}
use snow_seek.Query.Metadata.{
  ascii_lower, compare_days, compare_sizes, path_extension, utc_day, without_dot,
}
use snow_seek.Query.Postings.{phrase_matches, posting_document_ids}
use snow_seek.Query.Sets.{DocumentIds, complement_ids, intersect_ids, union_ids}
use snow_seek.Query.Tree.{QueryNode, expression_depth}

abbrev pub max_expanded_prefix_terms : ℕ
max_expanded_prefix_terms = 256

-- `universe_`: the identifiers from `first` on.
unfoldable pub universe_from : ℕ → ℕ → DocumentIds
universe_from zero first = []
universe_from (suc n) first = first ∷ universe_from n (suc first)

-- The identifiers of the documents that pass a test, in the order of the table.
unfoldable pub select : (DocumentMeta → Bool) → DocumentStore → DocumentIds
select test [] = []
select test (document ∷ documents) =
    let later = select test documents in if test document then document.id ∷ later else later

unfoldable pub has_extension : Bytes → DocumentMeta → Bool
has_extension extension document =
    bytes_eq (ascii_lower (without_dot (path_extension document.path)))
      (ascii_lower (without_dot extension))

unfoldable pub collect_conjuncts : QueryNode → List QueryNode
collect_conjuncts (QueryNode.conjunction left right) =
    collect_conjuncts left ++ collect_conjuncts right
collect_conjuncts node = node ∷ []

-- The terms that begin with `text`, up to the first one that does not.
unfoldable pub leading : List Bytes → Bytes → List Bytes
leading [] text = []
leading (first ∷ terms) text =
    let more = leading terms text in if starts_with first text then first ∷ more else []

-- Those of a sorted vocabulary from the first one that is not less than `text`: std::lower_bound.
unfoldable pub expansion : List Bytes → Bytes → List Bytes
expansion [] text = []
expansion (first ∷ terms) text =
    let here = leading (first ∷ terms) text in
    let later = expansion terms text in if bytes_less first text then later else here

-- std::set::insert.
unfoldable pub add_term : Bytes → List Bytes → List Bytes
add_term name [] = name ∷ []
add_term name (first ∷ terms) =
    let later = add_term name terms in if bytes_eq name first then first ∷ terms else first ∷ later

unfoldable pub add_terms : List Bytes → List Bytes → Result (List Bytes)
add_terms [] distinct_terms = ok distinct_terms
add_terms (name ∷ names) distinct_terms = do
  let more = add_term name distinct_terms
  throw_if (ltb max_expanded_prefix_terms (length more))
      (Error.invalid_argument "query prefix expansion exceeds 256 distinct terms")
  add_terms names more

unfoldable pub prepare_prefixes : List Bytes → QueryNode → List Bytes → Result (List Bytes)
prepare_prefixes vocabulary (QueryNode.prefix text) distinct_terms =
    add_terms (expansion vocabulary text) distinct_terms
prepare_prefixes vocabulary (QueryNode.conjunction left right) distinct_terms =
    prepare_prefixes vocabulary left distinct_terms >>= prepare_prefixes vocabulary right
prepare_prefixes vocabulary (QueryNode.disjunction left right) distinct_terms =
    prepare_prefixes vocabulary left distinct_terms >>= prepare_prefixes vocabulary right
prepare_prefixes vocabulary (QueryNode.negation left) distinct_terms =
    prepare_prefixes vocabulary left distinct_terms
prepare_prefixes vocabulary _ distinct_terms = ok distinct_terms

unfoldable pub collect_positive_terms : List Bytes → QueryNode → Bool → List Bytes
collect_positive_terms vocabulary (QueryNode.term text) negated = if negated then [] else text ∷ []
collect_positive_terms vocabulary (QueryNode.prefix text) negated =
    if negated then [] else expansion vocabulary text
collect_positive_terms vocabulary (QueryNode.phrase terms proximity) negated =
    if negated then [] else terms
collect_positive_terms vocabulary (QueryNode.negation left) negated =
    collect_positive_terms vocabulary left (not negated)
collect_positive_terms vocabulary (QueryNode.conjunction left right) negated =
    collect_positive_terms vocabulary left negated
    ++ collect_positive_terms vocabulary right negated
collect_positive_terms vocabulary (QueryNode.disjunction left right) negated =
    collect_positive_terms vocabulary left negated
    ++ collect_positive_terms vocabulary right negated
collect_positive_terms vocabulary _ negated = []

-- std::sort and std::unique of the terms.
unfoldable pub insert_unique : Bytes → List Bytes → List Bytes
insert_unique name [] = name ∷ []
insert_unique name (first ∷ terms) =
    let later = insert_unique name terms in
    if bytes_less first name
    then first ∷ later
    else if bytes_eq first name
    then first ∷ terms
    else name ∷ first ∷ terms

unfoldable pub sort_unique : List Bytes → List Bytes
sort_unique [] = []
sort_unique (name ∷ names) = insert_unique name (sort_unique names)

abbrev pub QueryEvaluation : Type 0
QueryEvaluation = DocumentIds × List Bytes

abbrev pub with_list : Option PostingList → Option (List PostingList) → Option (List PostingList)
with_list none rest = none
with_list (some postings) none = none
with_list (some postings) (some rest) = some (postings ∷ rest)

module _ (fnmatch : Bytes → Bytes → Bool) (documents : DocumentStore) (index : InMemoryIndex) where
  abbrev pub ids_of : Option PostingList → DocumentIds
  ids_of none = []
  ids_of (some postings) = posting_document_ids postings

  unfoldable pub evaluate_term : Bytes → DocumentIds
  evaluate_term name = ids_of (find index name)

  unfoldable pub unite_terms : DocumentIds → List Bytes → DocumentIds
  unite_terms found [] = found
  unite_terms found (name ∷ names) = unite_terms (union_ids found (evaluate_term name)) names

  unfoldable pub evaluate_prefix : Bytes → DocumentIds
  evaluate_prefix text = unite_terms [] (expansion (sorted_terms index) text)

  -- The lists of all the terms, if there is one for each.
  unfoldable pub posting_lists : List Bytes → Option (List PostingList)
  posting_lists [] = some []
  posting_lists (name ∷ names) = with_list (find index name) (posting_lists names)

  -- std::min_element by size: the first of the smallest.
  unfoldable pub smallest : PostingList → List PostingList → PostingList
  smallest best [] = best
  smallest best (postings ∷ lists) =
      let better = smallest postings lists in
      let same = smallest best lists in if ltb (length postings) (length best) then better else same

  unfoldable pub intersect_lists : DocumentIds → List PostingList → DocumentIds
  intersect_lists candidates [] = candidates
  intersect_lists candidates (postings ∷ lists) =
      let fewer = intersect_ids candidates (posting_document_ids postings) in
      let rest = intersect_lists fewer lists in if is_empty fewer then [] else rest

  unfoldable pub matching : List PostingList → ℕ → DocumentIds → DocumentIds
  matching lists proximity [] = []
  matching lists proximity (id ∷ candidates) =
      let later = matching lists proximity candidates in
      if phrase_matches lists id proximity then id ∷ later else later

  unfoldable pub phrase_ids : Option (List PostingList) → ℕ → DocumentIds
  phrase_ids none proximity = []
  phrase_ids (some []) proximity = []
  phrase_ids (some (first ∷ lists)) proximity =
      matching (first ∷ lists) proximity
        (intersect_lists (posting_document_ids (smallest first lists)) (first ∷ lists))

  unfoldable pub evaluate_phrase : List Bytes → ℕ → Result DocumentIds
  evaluate_phrase terms proximity = do
    throw_if (not index.store_positions)
        (Error.invalid_argument "index does not contain positions required for phrase queries")
    ok (phrase_ids (posting_lists terms) proximity)

  abbrev size_of : Option PostingList → ℕ
  size_of none = 0
  size_of (some postings) = length postings

  unfoldable pub estimate_prefix : ℕ → List Bytes → ℕ
  estimate_prefix result [] = result
  estimate_prefix result (name ∷ names) =
      let size = size_of (find index name) in
      let more = estimate_prefix (result + size) names in
      if is_missing (find index name) || leb (length documents - min (length documents) size) result
      then length documents
      else more
    where
      is_missing : Option PostingList → Bool
      is_missing none = true
      is_missing (some postings) = false

  unfoldable pub estimate_phrase : ℕ → Option (List PostingList) → ℕ
  estimate_phrase result none = 0
  estimate_phrase result (some []) = result
  estimate_phrase result (some (postings ∷ lists)) =
      estimate_phrase (min result (length postings)) (some lists)

  unfoldable pub estimate : QueryNode → ℕ
  estimate (QueryNode.term text) = size_of (find index text)
  estimate (QueryNode.prefix text) = estimate_prefix 0 (expansion (sorted_terms index) text)
  estimate (QueryNode.phrase terms proximity) =
      estimate_phrase (length documents) (posting_lists terms)
  estimate (QueryNode.conjunction left right) = min (estimate left) (estimate right)
  estimate (QueryNode.disjunction left right) =
      let l = estimate left in
      let r = estimate right in
      if leb (length documents) l || ltb (length documents - l) r then length documents else l + r
  estimate _ = length documents

  -- std::stable_sort by the estimates.
  unfoldable pub insert_operand : QueryNode → List QueryNode → List QueryNode
  insert_operand node [] = node ∷ []
  insert_operand node (first ∷ nodes) =
      let later = insert_operand node nodes in
      if ltb (estimate first) (estimate node) then first ∷ later else node ∷ first ∷ nodes

  unfoldable pub sort_operands : List QueryNode → List QueryNode
  sort_operands [] = []
  sort_operands (node ∷ nodes) = insert_operand node (sort_operands nodes)

  -- The operands after the first, as long as there are matches.
  unfoldable pub intersect_rest :
      (QueryNode → Result DocumentIds) → DocumentIds → List QueryNode → Result DocumentIds
  intersect_rest eval found [] = ok found
  intersect_rest eval found (node ∷ nodes) =
      let more = eval node >>= λ ids. intersect_rest eval (intersect_ids found ids) nodes in
      if is_empty found then ok found else more

  -- A conjunction has operands, so the first clause is never used.
  unfoldable pub evaluate_conjunction :
      (QueryNode → Result DocumentIds) → List QueryNode → Result DocumentIds
  evaluate_conjunction eval [] = ok []
  evaluate_conjunction eval (node ∷ nodes) = eval node >>= λ found. intersect_rest eval found nodes

  -- The operands of a conjunction are no part of it, so each call costs a unit of fuel.
  unfoldable pub evaluate : ℕ → QueryNode → Result DocumentIds
  evaluate zero node = throw Error.out_of_fuel
  evaluate (suc f) (QueryNode.term text) = ok (evaluate_term text)
  evaluate (suc f) (QueryNode.prefix text) = ok (evaluate_prefix text)
  evaluate (suc f) (QueryNode.phrase terms proximity) = evaluate_phrase terms proximity
  evaluate (suc f) (QueryNode.path_filter text) =
      ok (select (λ document. fnmatch text document.path) documents)
  evaluate (suc f) (QueryNode.extension_filter text) = ok (select (has_extension text) documents)
  evaluate (suc f) (QueryNode.size_filter text comparison size_bytes) =
      ok (select (λ document. compare_sizes document.file_size size_bytes comparison) documents)
  evaluate (suc f) (QueryNode.mtime_filter text comparison day) = ok (
      select (λ document. compare_days (utc_day document.modified_time_ns) day comparison)
        documents)
  evaluate (suc f) (QueryNode.conjunction left right) =
      evaluate_conjunction (evaluate f)
        (sort_operands (collect_conjuncts (QueryNode.conjunction left right)))
  evaluate (suc f) (QueryNode.disjunction left right) =
      evaluate f left >>= λ l. evaluate f right >>= λ r. ok (union_ids l r)
  evaluate (suc f) (QueryNode.negation left) =
      evaluate f left >>= λ l. ok (complement_ids (universe_from (length documents) 0) l)

  unfoldable pub evaluate_query : QueryNode → Result QueryEvaluation
  evaluate_query query = do
    prepared ← prepare_prefixes (sorted_terms index) query []
    found ← evaluate (expression_depth query) query
    ok (found, sort_unique (collect_positive_terms (sorted_terms index) query false))
