-- ===== src/Index.antt =====
-- src/index/index.cpp and .hpp: the positional inverted index in memory. The hash map is a list of
-- its entries; the byte counts of `memory_usage_` measure the allocator's capacities and are not
-- here. An operation that throws ends the use of its index.
pub mod Order
pub mod Entries
pub mod Occurrences
pub mod Appending
pub mod Invariant
use snow_seek.Prelude.{
  Bool, Bytes, Error, List, Option, Result, [], bytes_eq, false, if◌then◌else◌, is_empty, last?,
  leb, length, ltb, none, not, ok, some, throw_if, true, ℕ, ◌&&◌, ◌++◌, ◌+◌, ◌==◌, ◌>>=◌, ◌>>◌,
  ◌||◌, ◌∷◌,
}

pub record Posting : Type 0 where
  pub document_id : ℕ
  pub frequency : ℕ
  pub positions : List ℕ

abbrev pub PostingList : Type 0
PostingList = List Posting

pub record InMemoryIndex : Type 0 where
  pub dictionary : List (Bytes × PostingList)
  pub store_positions : Bool

abbrev pub max_frequency : ℕ
max_frequency = 0xffffffff

unfoldable pub lookup : Bytes → List (Bytes × PostingList) → Option PostingList
lookup text [] = none
lookup text ((key, postings) ∷ entries) =
    let later = lookup text entries in if bytes_eq text key then some postings else later

-- The entry of a term replaced, or put at the end.
unfoldable pub assign :
    Bytes → PostingList → List (Bytes × PostingList) → List (Bytes × PostingList)
assign text postings [] = (text, postings) ∷ []
assign text postings ((key, old) ∷ entries) =
    let later = assign text postings entries in
    if bytes_eq text key then (key, postings) ∷ entries else (key, old) ∷ later

unfoldable pub find : InMemoryIndex → Bytes → Option PostingList
find index text = lookup text index.dictionary

-- The list of a term, empty for a new one.
abbrev pub list_of : Option PostingList → PostingList
list_of none = []
list_of (some postings) = postings

unfoldable pub postings_for : InMemoryIndex → Bytes → Result PostingList
postings_for index text = do
  throw_if (is_empty text) (Error.invalid_argument "index term must not be empty")
  ok (list_of (find index text))

abbrev pub is_at_or_before : ℕ → Option ℕ → Bool
is_at_or_before position none = false
is_at_or_before position (some last) = leb position last

-- One more occurrence in the last posting of a list.
unfoldable pub bump : Bool → ℕ → ℕ → Posting → Result Posting
bump store_positions document_id position last = do
  throw_if (ltb document_id last.document_id)
      (Error.invalid_argument "posting document ids must be strictly increasing")
  throw_if (store_positions && is_at_or_before position (last? last.positions))
      (Error.invalid_argument "posting positions must be strictly increasing")
  throw_if (last.frequency == max_frequency)
      (Error.overflow_error "posting term frequency exceeds uint32_t")
  ok (record last {
    positions = if store_positions then last.positions ++ (position ∷ []) else last.positions;
    frequency = last.frequency + 1;
  })

abbrev pub first_occurrence : Bool → ℕ → ℕ → Posting
first_occurrence store_positions document_id position = record {
  document_id = document_id;
  frequency = 1;
  positions = if store_positions then position ∷ [] else [];
}

-- An occurrence at the end of a list of postings.
unfoldable pub occur : Bool → ℕ → ℕ → PostingList → Result PostingList
occur store document_id position [] = ok (first_occurrence store document_id position ∷ [])
occur store document_id position (last ∷ []) =
    if ltb last.document_id document_id
    then ok (last ∷ first_occurrence store document_id position ∷ [])
    else bump store document_id position last >>= λ bumped. ok (bumped ∷ [])
occur store document_id position (front ∷ last ∷ postings) =
    occur store document_id position (last ∷ postings) >>= λ later. ok (front ∷ later)

unfoldable pub add_occurrence : InMemoryIndex → Bytes → ℕ → ℕ → Result InMemoryIndex
add_occurrence index text document_id position = do
  postings ← postings_for index text
  updated ← occur index.store_positions document_id position postings
  ok (record index { dictionary = assign text updated index.dictionary })

-- No position is at or after the next one: std::adjacent_find with std::greater_equal.
unfoldable pub are_ascending : List ℕ → Bool
are_ascending [] = true
are_ascending (x ∷ []) = true
are_ascending (x ∷ y ∷ positions) = ltb x y && are_ascending (y ∷ positions)

abbrev pub is_at_or_before_posting : ℕ → Option Posting → Bool
is_at_or_before_posting document_id none = false
is_at_or_before_posting document_id (some last) = leb document_id last.document_id

unfoldable pub add_posting : InMemoryIndex → Bytes → ℕ → ℕ → List ℕ → Result InMemoryIndex
add_posting index text document_id frequency positions = do
  throw_if (frequency == 0) (Error.invalid_argument "index posting requires frequency")
  throw_if
      (index.store_positions && not (length positions == frequency)
        || not index.store_positions && not (is_empty positions)
        || not (are_ascending positions))
      (Error.invalid_argument "index posting positions invalid")
  postings ← postings_for index text
  throw_if (is_at_or_before_posting document_id (last? postings))
      (Error.invalid_argument "posting document ids must be strictly increasing")
  let posting : Posting = record {
    document_id = document_id;
    frequency = frequency;
    positions = positions;
  }
  ok (record index { dictionary = assign text (postings ++ (posting ∷ [])) index.dictionary })

-- The order of std::string: by bytes, a prefix first.
unfoldable pub bytes_less : Bytes → Bytes → Bool
bytes_less xs [] = false
bytes_less [] (y ∷ ys) = true
bytes_less (x ∷ xs) (y ∷ ys) = ltb x y || x == y && bytes_less xs ys

unfoldable pub insert : Bytes → List Bytes → List Bytes
insert text [] = text ∷ []
insert text (first ∷ terms) =
    let later = insert text terms in
    if bytes_less first text then first ∷ later else text ∷ first ∷ terms

unfoldable pub sorted_keys : List (Bytes × PostingList) → List Bytes
sorted_keys [] = []
sorted_keys ((key, postings) ∷ entries) = insert key (sorted_keys entries)

unfoldable pub sorted_terms : InMemoryIndex → List Bytes
sorted_terms index = sorted_keys index.dictionary
