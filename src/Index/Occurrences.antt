-- ===== src/Index/Occurrences.antt =====
-- How often a document occurs in the index of src/index/index.cpp.
use mathlib.Core.Path.{subst}
use snow_seek.Index.{
  InMemoryIndex, Posting, PostingList, add_posting, are_ascending, assign, find,
  is_at_or_before_posting, list_of, lookup, postings_for,
}
use snow_seek.Prelude.{
  Bytes, List, Result, [], ap, arith, bind_then, if◌then◌else◌, is_empty, last?, length, not, ok,
  throw, throw_if_then, ℕ, ◌&&◌, ◌++◌, ◌+◌, ◌==◌, ◌||◌, ◌∷◌, ◌≡◌,
}

unfoldable pub frequency_in : ℕ → PostingList → ℕ
frequency_in document_id [] = 0
frequency_in document_id (posting ∷ postings) =
    (if posting.document_id == document_id then posting.frequency else 0)
    + frequency_in document_id postings

unfoldable pub occurrences : ℕ → List (Bytes × PostingList) → ℕ
occurrences document_id [] = 0
occurrences document_id ((key, postings) ∷ entries) =
    frequency_in document_id postings + occurrences document_id entries

frequency_in-append :
    (d : ℕ) (postings : PostingList) (posting : Posting)
    → frequency_in d (postings ++ (posting ∷ []))
      ≡ frequency_in d postings + (if posting.document_id == d then posting.frequency else 0)
unfolding frequency_in
frequency_in-append d [] posting = omega arith
frequency_in-append d (p ∷ postings) posting = omega (arith, frequency_in-append d postings posting)

occurrences-assign :
    (d : ℕ) (text : Bytes) (postings : PostingList) (entries : List (Bytes × PostingList))
    → occurrences d (assign text postings entries) + frequency_in d (list_of (lookup text entries))
      ≡ occurrences d entries + frequency_in d postings
unfolding occurrences assign lookup frequency_in
occurrences-assign d text postings [] = omega arith
occurrences-assign d text postings ((key, old) ∷ entries) =
    ground (arith, occurrences-assign d text postings entries)

occurrences-push :
    (d : ℕ) (text : Bytes) (posting : Posting) (entries : List (Bytes × PostingList))
    → occurrences d (assign text (list_of (lookup text entries) ++ (posting ∷ [])) entries)
      ≡ occurrences d entries + (if posting.document_id == d then posting.frequency else 0)
occurrences-push d text posting entries =
    let postings = list_of (lookup text entries) in
    omega (
      arith,
      occurrences-assign d text (postings ++ (posting ∷ [])) entries,
      frequency_in-append d postings posting,
    )

postings_for-eq :
    (index : InMemoryIndex) (text : Bytes) (postings : PostingList)
    → postings_for index text ≡ ok postings
    → list_of (lookup text index.dictionary) ≡ postings
unfolding postings_for find
postings_for-eq index text postings e = throw_if_then (is_empty text) _ _ e λ some_ found. cc

abbrev entries_of : Result InMemoryIndex → List (Bytes × PostingList)
entries_of (ok index) = index.dictionary
entries_of (throw e) = []

-- A posting that is added counts for its document and for no other.
pub add_posting-occurrences :
    (index after : InMemoryIndex) (text : Bytes) (document_id frequency : ℕ) (positions : List ℕ)
    → add_posting index text document_id frequency positions ≡ ok after
    → (d : ℕ)
    → occurrences d after.dictionary
      ≡ occurrences d index.dictionary + (if document_id == d then frequency else 0)
unfolding add_posting
add_posting-occurrences index after text document_id frequency positions e d =
    throw_if_then (frequency == 0) _ _ e λ c1 e1.
      throw_if_then
        (index.store_positions && not (length positions == frequency)
          || not index.store_positions && not (is_empty positions)
          || not (are_ascending positions))
        _ _ e1
        λ c2 e2. bind_then (postings_for index text) _ e2 λ postings found e3.
          throw_if_then (is_at_or_before_posting document_id (last? postings)) _ _ e3 λ c3 e4.
            let posting : Posting = record {
              document_id = document_id;
              frequency = frequency;
              positions = positions;
            } in
            let old : list_of (lookup text index.dictionary) ≡ postings =
              postings_for-eq index text postings found in
            let new : assign text (postings ++ (posting ∷ [])) index.dictionary ≡ after.dictionary =
              ap (λ (r : Result InMemoryIndex). entries_of r) e4 in
            subst
              (λ (entries : List (Bytes × PostingList)).
                occurrences d entries
                ≡ occurrences d index.dictionary + (if document_id == d then frequency else 0))
              new
              (subst
                (λ (l : PostingList).
                  occurrences d (assign text (l ++ (posting ∷ [])) index.dictionary)
                  ≡ occurrences d index.dictionary + (if document_id == d then frequency else 0))
                old (occurrences-push d text posting index.dictionary))
