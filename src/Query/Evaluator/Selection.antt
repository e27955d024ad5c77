-- ===== src/Query/Evaluator/Selection.antt =====
-- The document lists of single operands: their order, and their members.
use mathlib.Core.Path.{subst}
use snow_seek.Documents.{DocumentMeta, DocumentStore}
use snow_seek.Index.{InMemoryIndex, Posting, PostingList, find, lookup}
use snow_seek.Prelude.{
  ==_iff, All, Bool, Bool-cases, Bytes, List, Option, [], ap, arith, bytes_eq, false, if_intro, inl,
  inr, is_empty, leb, length, ltb, none, refl, some, suc, true, zero, ℕ, ◌&&◌, ◌+◌, ◌==◌, ◌||◌, ◌∙◌,
  ◌∷◌, ◌≡◌,
}
use snow_seek.Prelude.Ascending.{From, From-lower, member, member-From}
use snow_seek.Query.Evaluator.{
  evaluate_term, ids_of, intersect_lists, matching, select, smallest, unite_terms, universe_from,
  with_list,
}
use snow_seek.Query.Postings.{
  cons_some, document_postings, find_posting, matches_postings, phrase_matches,
  posting_document_ids,
}
use snow_seek.Query.Sets.{DocumentIds, intersect_ids, union_ids}
use snow_seek.Query.Sets.Members.{
  From-intersect_ids, From-union_ids, member-intersect_ids, member-union_ids,
}

-- The identifiers of a table are its indices, from `first` on.
abbrev pub IdsFrom : ℕ → DocumentStore → Type 0
IdsFrom first [] = Unit {0}
IdsFrom first (document ∷ documents) = (document.id ≡ first) × IdsFrom (suc first) documents

-- The identifiers of a list ascend.
abbrev pub IsPostings : PostingList → Type 0
IsPostings postings = From 0 (posting_document_ids postings)

abbrev pub AreLists : List (Bytes × PostingList) → Type 0
AreLists entries = All (λ entry. IsPostings entry.1) entries

pub any_document : (DocumentMeta → Bool) → ℕ → DocumentStore → Bool
any_document test d [] = false
any_document test d (document ∷ documents) =
    d == document.id && test document || any_document test d documents

pub From-select :
    (test : DocumentMeta → Bool) (first : ℕ) (documents : DocumentStore)
    → IdsFrom first documents
    → From first (select test documents)
unfolding select
From-select test first [] h = tt
From-select test first (document ∷ documents) (e, h) =
    if_intro (From first) (test document) _ _
      (λ _. (omega (arith, e), rw e (From-select test (suc first) documents h)))
      λ _.
        From-lower (suc first) first (select test documents) (omega arith)
          (From-select test (suc first) documents h)

pub member-select :
    (test : DocumentMeta → Bool) (d : ℕ) (documents : DocumentStore)
    → member d (select test documents) ≡ any_document test d documents
unfolding select member any_document
member-select test d [] = refl
member-select test d (document ∷ documents) = ground (arith, member-select test d documents)

pub From-universe_from : (n first : ℕ) → From first (universe_from n first)
unfolding universe_from
From-universe_from zero first = tt
From-universe_from (suc n) first = (omega arith, From-universe_from n (suc first))

pub member-universe_from :
    (d n first : ℕ) → member d (universe_from n first) ≡ (leb first d && ltb d (first + n))
unfolding universe_from member
member-universe_from d zero first = ground arith
member-universe_from d (suc n) first = ground (arith, member-universe_from d n (suc first))

lookup-IsPostings :
    (name : Bytes) (entries : List (Bytes × PostingList)) (postings : PostingList)
    → AreLists entries
    → lookup name entries ≡ some postings
    → IsPostings postings
unfolding lookup
lookup-IsPostings name [] postings h = λ e. cc
lookup-IsPostings name ((key, old) ∷ entries) postings (now, h) =
    if_intro (λ r. r ≡ some postings → IsPostings postings) (bytes_eq name key) _ _
      (λ _ e. let same : old ≡ postings = cc in subst IsPostings same now)
      λ _. lookup-IsPostings name entries postings h

-- The lists that were found, if all were.
abbrev pub AreSome : Option (List PostingList) → Type 0
AreSome none = Unit {0}
AreSome (some lists) = All IsPostings lists

-- A posting is found for the identifiers of the list, and no others.
pub is_found : Option Posting → Bool
is_found none = false
is_found (some posting) = true

pub find_posting-member :
    (d lo : ℕ) (postings : PostingList)
    → From lo (posting_document_ids postings)
    → is_found (find_posting postings d) ≡ member d (posting_document_ids postings)
unfolding find_posting member posting_document_ids is_found
find_posting-member d lo [] h = refl
find_posting-member d lo (posting ∷ postings) (p, h) = ground (
  arith,
  find_posting-member d (suc posting.document_id) postings h,
  member-From d (suc posting.document_id) (posting_document_ids postings) h,
)

-- The document has a posting in every list.
unfoldable pub in_all : ℕ → List PostingList → Bool
in_all d [] = true
in_all d (postings ∷ lists) = member d (posting_document_ids postings) && in_all d lists

not_found : (r : Option Posting) → is_found r ≡ false → r ≡ none
unfolding is_found
not_found none e = refl
not_found (some posting) e = cc

cons_some-none : (r : Option Posting) → cons_some r none ≡ none
cons_some-none none = refl
cons_some-none (some posting) = refl

document_postings-none :
    (d : ℕ) (lists : List PostingList)
    → All IsPostings lists
    → in_all d lists ≡ false
    → document_postings lists d ≡ none
unfolding document_postings in_all
document_postings-none d [] h e = cc
document_postings-none d (postings ∷ lists) (now, h) e =
    elim (Bool-cases (member d (posting_document_ids postings))) [
      | inl here ↦
          let later = document_postings-none d lists h (ground (arith, here, e)) in
          rw later (cons_some-none (find_posting postings d))
      | inr gone ↦
          rw (not_found (find_posting postings d) (find_posting-member d 0 postings now ∙ gone))
            refl
    ]

pub phrase_matches-in_all :
    (d k : ℕ) (lists : List PostingList)
    → All IsPostings lists
    → in_all d lists ≡ false
    → phrase_matches lists d k ≡ false
unfolding phrase_matches matches_postings
phrase_matches-in_all d k lists h e = rw (document_postings-none d lists h e) refl

pub empty_member : (d : ℕ) (ids : DocumentIds) → is_empty ids ≡ true → member d ids ≡ false
unfolding member
empty_member d [] e = refl
empty_member d (x ∷ ids) e = cc

module _ (fnmatch : Bytes → Bytes → Bool) (documents : DocumentStore) (index : InMemoryIndex) where
  pub find-IsPostings :
      (name : Bytes)
      → AreLists index.dictionary
      → From 0 (evaluate_term fnmatch documents index name)
  unfolding evaluate_term find
  find-IsPostings name h =
      from_lookup (lookup name index.dictionary) (lookup-IsPostings name index.dictionary)
    where
      from_lookup :
          (r : Option PostingList)
          → ((postings : PostingList)
              → AreLists index.dictionary
              → r ≡ some postings
              → IsPostings postings)
          → From 0 (ids_of fnmatch documents index r)
      from_lookup none k = tt
      from_lookup (some postings) k = k postings h refl

  unfoldable pub any_term : ℕ → List Bytes → Bool
  any_term d [] = false
  any_term d (name ∷ names) =
      member d (evaluate_term fnmatch documents index name) || any_term d names

  pub From-unite_terms :
      (found : DocumentIds) (names : List Bytes)
      → AreLists index.dictionary
      → From 0 found
      → From 0 (unite_terms fnmatch documents index found names)
  unfolding unite_terms
  From-unite_terms found [] h f = f
  From-unite_terms found (name ∷ names) h f =
      From-unite_terms (union_ids found (evaluate_term fnmatch documents index name)) names h (
        From-union_ids 0 found (evaluate_term fnmatch documents index name) f
          (find-IsPostings name h))

  pub member-unite_terms :
      (d : ℕ) (found : DocumentIds) (names : List Bytes)
      → member d (unite_terms fnmatch documents index found names)
        ≡ (member d found || any_term d names)
  unfolding unite_terms any_term
  member-unite_terms d found [] = ground arith
  member-unite_terms d found (name ∷ names) = ground (
    arith,
    member-unite_terms d (union_ids found (evaluate_term fnmatch documents index name)) names,
    member-union_ids d found (evaluate_term fnmatch documents index name),
  )

  pub From-intersect_lists :
      (found : DocumentIds) (lists : List PostingList)
      → All IsPostings lists
      → From 0 found
      → From 0 (intersect_lists fnmatch documents index found lists)
  unfolding intersect_lists
  From-intersect_lists found [] h f = f
  From-intersect_lists found (postings ∷ lists) (now, h) f =
      let fewer = intersect_ids found (posting_document_ids postings) in
      if_intro (From 0) (is_empty fewer) _ _ (λ _. tt)
        λ _.
          From-intersect_lists fewer lists h
            (From-intersect_ids 0 found (posting_document_ids postings) f now)

  pub member-intersect_lists :
      (d : ℕ) (found : DocumentIds) (lists : List PostingList)
      → All IsPostings lists
      → From 0 found
      → member d (intersect_lists fnmatch documents index found lists)
        ≡ (member d found && in_all d lists)
  unfolding intersect_lists in_all
  member-intersect_lists d found [] h f = ground arith
  member-intersect_lists d found (postings ∷ lists) (now, h) f =
      let ids = posting_document_ids postings in
      let fewer = intersect_ids found ids in
      let both = member-intersect_ids d 0 found ids f now in
      if_intro (λ r. member d r ≡ (member d found && (member d ids && in_all d lists)))
        (is_empty fewer) _ _ (λ e. ground (arith, both, empty_member d fewer e))
        λ _. ground (
          arith,
          both,
          member-intersect_lists d fewer lists h (From-intersect_ids 0 found ids f now),
        )

  pub From-matching :
      (lists : List PostingList) (k lo : ℕ) (found : DocumentIds)
      → From lo found
      → From lo (matching fnmatch documents index lists k found)
  unfolding matching
  From-matching lists k lo [] f = tt
  From-matching lists k lo (id ∷ found) (l, f) =
      if_intro (From lo) (phrase_matches lists id k) _ _
        (λ _. (l, From-matching lists k (suc id) found f))
        λ _.
          From-lower (suc id) lo (matching fnmatch documents index lists k found) (omega arith)
            (From-matching lists k (suc id) found f)

  pub member-matching :
      (d k : ℕ) (lists : List PostingList) (found : DocumentIds)
      → member d (matching fnmatch documents index lists k found)
        ≡ (member d found && phrase_matches lists d k)
  unfolding matching member
  member-matching d k lists [] = refl
  member-matching d k lists (id ∷ found) =
      let same : (d == id) ≡ true → phrase_matches lists d k ≡ phrase_matches lists id k =
        λ e. ap (λ x. phrase_matches lists x k) ((==_iff d id).0 e) in
      elim (Bool-cases (d == id)) [
        | inl e ↦ ground (arith, member-matching d k lists found, same e, e)
        | inr e ↦ ground (arith, member-matching d k lists found, e)
      ]

  pub smallest-IsPostings :
      (best : PostingList) (lists : List PostingList)
      → IsPostings best
      → All IsPostings lists
      → IsPostings (smallest fnmatch documents index best lists)
  unfolding smallest
  smallest-IsPostings best [] b h = b
  smallest-IsPostings best (postings ∷ lists) b (now, h) =
      if_intro IsPostings (ltb (length postings) (length best)) _ _
        (λ _. smallest-IsPostings postings lists now h) λ _. smallest-IsPostings best lists b h

  pub smallest-member :
      (d : ℕ) (best : PostingList) (lists : List PostingList)
      → member d (posting_document_ids best) ≡ true
      → in_all d lists ≡ true
      → member d (posting_document_ids (smallest fnmatch documents index best lists)) ≡ true
  unfolding smallest in_all
  smallest-member d best [] b h = b
  smallest-member d best (postings ∷ lists) b h =
      if_intro (λ r. member d (posting_document_ids r) ≡ true) (ltb (length postings) (length best))
        _ _ (λ _. smallest-member d postings lists (ground (arith, h)) (ground (arith, h)))
        λ _. smallest-member d best lists b (ground (arith, h))

  pub with_list-AreSome :
      (r : Option PostingList) (rest : Option (List PostingList))
      → From 0 (ids_of fnmatch documents index r)
      → AreSome rest
      → AreSome (with_list r rest)
  with_list-AreSome none rest f h = tt
  with_list-AreSome (some postings) none f h = tt
  with_list-AreSome (some postings) (some rest) f h = (f, h)
