-- ===== src/Query/Postings.antt =====
-- What src/query/query_evaluator.cpp reads in posting lists: posting_document_ids, find_posting and
-- phrase_matches.
pub mod Phrases
use snow_seek.Index.{Posting, PostingList}
use snow_seek.Prelude.{
  Bool, List, Option, [], false, if◌then◌else◌, leb, length, ltb, none, some, ℕ, ◌-◌, ◌==◌, ◌||◌,
  ◌∷◌,
}
use snow_seek.Query.Sets.{DocumentIds}

unfoldable pub posting_document_ids : PostingList → DocumentIds
posting_document_ids [] = []
posting_document_ids (posting ∷ postings) = posting.document_id ∷ posting_document_ids postings

-- std::lower_bound on an ascending list, and the test of what it finds.
unfoldable pub find_posting : PostingList → ℕ → Option Posting
find_posting [] document_id = none
find_posting (posting ∷ postings) document_id =
    let later = find_posting postings document_id in
    if ltb posting.document_id document_id
    then later
    else if posting.document_id == document_id
    then some posting
    else none

abbrev pub cons_some : Option Posting → Option (List Posting) → Option (List Posting)
cons_some none rest = none
cons_some (some posting) none = none
cons_some (some posting) (some rest) = some (posting ∷ rest)

-- The postings of one document in every list.
unfoldable pub document_postings : List PostingList → ℕ → Option (List Posting)
document_postings [] document_id = some []
document_postings (postings ∷ lists) document_id =
    cons_some (find_posting postings document_id) (document_postings lists document_id)

-- std::upper_bound: the first position after `previous`.
unfoldable pub next_position : List ℕ → ℕ → Option ℕ
next_position [] previous = none
next_position (p ∷ positions) previous =
    let later = next_position positions previous in if ltb previous p then some p else later

abbrev pub and_then : Option ℕ → (ℕ → Option ℕ) → Option ℕ
and_then none f = none
and_then (some p) f = f p

-- The last position of the chain from `previous` through the lists, if it is complete.
unfoldable pub chain_end : ℕ → List Posting → Option ℕ
chain_end previous [] = some previous
chain_end previous (posting ∷ postings) =
    and_then (next_position posting.positions previous) λ p. chain_end p postings

-- Positions only grow along a chain, so the subtractions of the source do not wrap.
abbrev pub is_within : ℕ → ℕ → ℕ → Option ℕ → Bool
is_within start exact_span proximity none = false
is_within start exact_span proximity (some last) = leb (last - start - exact_span) proximity

unfoldable pub any_start : List ℕ → List Posting → ℕ → Bool
any_start [] postings proximity = false
any_start (start ∷ starts) postings proximity =
    is_within start (length postings) proximity (chain_end start postings)
    || any_start starts postings proximity

unfoldable pub matches_postings : Option (List Posting) → ℕ → Bool
matches_postings none proximity = false
matches_postings (some []) proximity = false
matches_postings (some (first ∷ postings)) proximity = any_start first.positions postings proximity

unfoldable pub phrase_matches : List PostingList → ℕ → ℕ → Bool
phrase_matches postings document_id proximity =
    matches_postings (document_postings postings document_id) proximity
