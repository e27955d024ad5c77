-- ===== src/Index/Invariant.antt =====
-- The invariant of the index: ascending documents in each list, ascending positions in each
-- posting, and as many positions as occurrences.
use snow_seek.Index.{
  InMemoryIndex, Posting, PostingList, add_occurrence, add_posting, are_ascending, assign, bump,
  find, first_occurrence, is_at_or_before, is_at_or_before_posting, list_of, lookup, max_frequency,
  occur, postings_for,
}
use snow_seek.Prelude.{
  All, Bool, Bytes, Error, List, Returns, Returns->>=, Returns-ok, Returns-throw_if, [], arith,
  bytes_eq, false, if_intro, if◌then◌else◌, is_empty, last?, length, length-append, ltb, ltb→lt,
  not, ok, refl, suc, true, ℕ, ◌&&◌, ◌++◌, ◌<◌, ◌==◌, ◌^◌, ◌||◌, ◌∷◌, ◌≡◌, ◌≤◌,
}
use snow_seek.Prelude.Ascending.{From}

-- Positions from `lo` on, with the last one at `last`, as a list that can be extended.
abbrev pub IsPosting : Bool → Posting → Type 0
IsPosting store posting =
    (1 ≤ posting.frequency)
    × (posting.frequency < 2 ^ 32)
    × From 0 posting.positions
    × (length posting.positions ≡ (if store then posting.frequency else 0))

-- Postings of documents from `lo` on.
abbrev pub IsListFrom : Bool → ℕ → PostingList → Type 0
IsListFrom store lo [] = Unit {0}
IsListFrom store lo (posting ∷ postings) =
    (lo ≤ posting.document_id)
    × IsPosting store posting
    × IsListFrom store (suc posting.document_id) postings

abbrev pub IsIndex : InMemoryIndex → Type 0
IsIndex index = All (λ entry. IsListFrom index.store_positions 0 entry.1) index.dictionary

IsListFrom-lower :
    (store : Bool) (lo lo' : ℕ) (postings : PostingList)
    → lo' ≤ lo
    → IsListFrom store lo postings
    → IsListFrom store lo' postings
IsListFrom-lower store lo lo' [] h l = tt
IsListFrom-lower store lo lo' (posting ∷ postings) h (a, p, l) = (omega arith, p, l)

-- What lies after the last position lies after them all.
after_last :
    (y x : ℕ) (xs : List ℕ)
    → From (suc y) xs
    → is_at_or_before x (last? (y ∷ xs)) ≡ false
    → suc y ≤ x
after_last y x [] f h = ground (arith, h)
after_last y x (z ∷ xs) (a, f) h = omega (arith, after_last z x xs f h)

-- A position after the last one.
From-append :
    (lo x : ℕ) (xs : List ℕ)
    → From lo xs
    → lo ≤ x
    → is_at_or_before x (last? xs) ≡ false
    → From lo (xs ++ (x ∷ []))
From-append lo x [] f l h = (l, tt)
From-append lo x (y ∷ []) (a, f) l h = (a, (ground (arith, h), tt))
From-append lo x (y ∷ z ∷ xs) (a, f) l h =
    (a, From-append (suc y) x (z ∷ xs) f (after_last y x (z ∷ xs) f h) h)

first_occurrence-IsPosting :
    (store : Bool) (document_id position : ℕ)
    → IsPosting store (first_occurrence store document_id position)
first_occurrence-IsPosting true d p = (omega arith, omega arith, (omega arith, tt), omega arith)
first_occurrence-IsPosting false d p = (omega arith, omega arith, tt, omega arith)

abbrev Bumped : Bool → Posting → Posting → Type 0
Bumped store last after = IsPosting store after × (after.document_id ≡ last.document_id)

bump-IsPosting :
    (store : Bool) (document_id position : ℕ) (last : Posting)
    → IsPosting store last
    → Returns (Bumped store last) (bump store document_id position last)
unfolding bump
bump-IsPosting true d p last (some_, small, f, n) =
    Returns-throw_if (Bumped true last) (ltb d last.document_id)
      (Error.invalid_argument "posting document ids must be strictly increasing") _
      λ _.
        Returns-throw_if (Bumped true last) (is_at_or_before p (last? last.positions))
          (Error.invalid_argument "posting positions must be strictly increasing") _
          λ e.
            Returns-throw_if (Bumped true last) (last.frequency == max_frequency)
              (Error.overflow_error "posting term frequency exceeds uint32_t") (ok _)
              λ room. (
                (
                  omega arith,
                  ground (arith, small, room),
                  From-append 0 p last.positions f (omega arith) e,
                  omega (arith, length-append last.positions (p ∷ []), n),
                ),
                refl,
              )
bump-IsPosting false d p last (some_, small, f, n) =
    Returns-throw_if (Bumped false last) (ltb d last.document_id)
      (Error.invalid_argument "posting document ids must be strictly increasing") _
      λ _.
        Returns-throw_if (Bumped false last) (last.frequency == max_frequency)
          (Error.overflow_error "posting term frequency exceeds uint32_t") (ok _)
          λ room. ((omega arith, ground (arith, small, room), f, n), refl)

-- A posting of a document after the last one lies after them all.
after_last_posting :
    (store : Bool) (y d : ℕ) (first : Posting) (postings : PostingList)
    → IsListFrom store y (first ∷ postings)
    → is_at_or_before_posting d (last? (first ∷ postings)) ≡ false
    → suc first.document_id ≤ d
after_last_posting store y d first [] l h = ground (arith, h)
after_last_posting store y d first (second ∷ postings) (a, q, l) h =
    omega (arith, l.0, after_last_posting store (suc first.document_id) d second postings l h)

IsListFrom-append :
    (store : Bool) (lo : ℕ) (postings : PostingList) (posting : Posting)
    → IsListFrom store lo postings
    → IsPosting store posting
    → lo ≤ posting.document_id
    → is_at_or_before_posting posting.document_id (last? postings) ≡ false
    → IsListFrom store lo (postings ++ (posting ∷ []))
IsListFrom-append store lo [] posting l p a h = (a, p, tt)
IsListFrom-append store lo (first ∷ []) posting (b, q, l) p a h = (b, q, (ground (arith, h), p, tt))
IsListFrom-append store lo (first ∷ second ∷ postings) posting (b, q, l) p a h = (
  b,
  q,
  IsListFrom-append store (suc first.document_id) (second ∷ postings) posting l p
      (after_last_posting store lo posting.document_id first (second ∷ postings) (b, q, l) h) h,
)

occur_later :
    (store : Bool) (lo document_id position : ℕ) (last : Posting) (postings : PostingList)
    → IsListFrom store lo (last ∷ postings)
    → Returns (IsListFrom store lo) (occur store document_id position (last ∷ postings))
unfolding occur
occur_later store lo d p last [] (b, q, l) =
    if_intro (Returns (IsListFrom store lo)) (ltb last.document_id d) _ _
      (λ e. (b, q, (ltb→lt last.document_id d e, first_occurrence-IsPosting store d p, tt)))
      λ _.
        Returns->>= (Bumped store last) (IsListFrom store lo) (bump store d p last) _
          (bump-IsPosting store d p last q) λ after (q', same). (omega (arith, same), q', tt)
occur_later store lo d p front (last ∷ postings) (b, q, l) =
    Returns->>= (IsListFrom store (suc front.document_id)) (IsListFrom store lo)
      (occur store d p (last ∷ postings)) _
      (occur_later store (suc front.document_id) d p last postings l) λ later k. (b, q, k)

occur-IsListFrom :
    (store : Bool) (document_id position : ℕ) (postings : PostingList)
    → IsListFrom store 0 postings
    → Returns (IsListFrom store 0) (occur store document_id position postings)
unfolding occur
occur-IsListFrom store d p [] l = (omega arith, first_occurrence-IsPosting store d p, tt)
occur-IsListFrom store d p (last ∷ postings) l = occur_later store 0 d p last postings l

abbrev AreLists : Bool → List (Bytes × PostingList) → Type 0
AreLists store entries = All (λ entry. IsListFrom store 0 entry.1) entries

list_of-lookup :
    (store : Bool) (text : Bytes) (entries : List (Bytes × PostingList))
    → AreLists store entries
    → IsListFrom store 0 (list_of (lookup text entries))
unfolding lookup
list_of-lookup store text [] h = tt
list_of-lookup store text ((key, postings) ∷ entries) (now, h) =
    if_intro (λ r. IsListFrom store 0 (list_of r)) (bytes_eq text key) _ _ (λ _. now)
      λ _. list_of-lookup store text entries h

assign-AreLists :
    (store : Bool) (text : Bytes) (postings : PostingList) (entries : List (Bytes × PostingList))
    → AreLists store entries
    → IsListFrom store 0 postings
    → AreLists store (assign text postings entries)
unfolding assign
assign-AreLists store text postings [] h l = (l, tt)
assign-AreLists store text postings ((key, old) ∷ entries) (now, h) l =
    if_intro (AreLists store) (bytes_eq text key) _ _ (λ _. (l, h))
      λ _. (now, assign-AreLists store text postings entries h l)

postings_for-IsListFrom :
    (index : InMemoryIndex) (text : Bytes)
    → IsIndex index
    → Returns (IsListFrom index.store_positions 0) (postings_for index text)
unfolding postings_for find
postings_for-IsListFrom index text h =
    Returns-throw_if (IsListFrom index.store_positions 0) (is_empty text)
      (Error.invalid_argument "index term must not be empty")
      (ok (list_of (lookup text index.dictionary)))
      λ _. list_of-lookup index.store_positions text index.dictionary h

-- add_occurrence keeps the index's invariant wherever it succeeds.
pub add_occurrence-IsIndex :
    (index : InMemoryIndex) (text : Bytes) (document_id position : ℕ) (after : InMemoryIndex)
    → IsIndex index
    → add_occurrence index text document_id position ≡ ok after
    → IsIndex after
unfolding add_occurrence
add_occurrence-IsIndex index text d p after h e =
    let store = index.store_positions in
    Returns-ok IsIndex (add_occurrence index text d p) after
      (Returns->>= (IsListFrom store 0) IsIndex (postings_for index text) _
        (postings_for-IsListFrom index text h)
        λ postings l.
          Returns->>= (IsListFrom store 0) IsIndex (occur store d p postings) _
            (occur-IsListFrom store d p postings l)
            λ updated k. assign-AreLists store text updated index.dictionary h k)
      e

are_ascending-From :
    (lo x : ℕ) (xs : List ℕ) → lo ≤ x → are_ascending (x ∷ xs) ≡ true → From lo (x ∷ xs)
unfolding are_ascending
are_ascending-From lo x [] a h = (a, tt)
are_ascending-From lo x (y ∷ xs) a h =
    (a, are_ascending-From (suc x) y xs (ground (arith, h)) (ground (arith, h)))

ascending-From : (xs : List ℕ) → are_ascending xs ≡ true → From 0 xs
ascending-From [] h = tt
ascending-From (x ∷ xs) h = are_ascending-From 0 x xs (omega arith) h

-- What add_posting checks of its arguments.
checked-IsPosting :
    (store : Bool) (d frequency : ℕ) (positions : List ℕ)
    → frequency < 2 ^ 32
    → (frequency == 0) ≡ false
    → (store && not (length positions == frequency)
        || not store && not (is_empty positions)
        || not (are_ascending positions))
      ≡ false
    → IsPosting store (record { document_id = d; frequency = frequency; positions = positions })
checked-IsPosting true d frequency positions small some_ e =
    (ground (arith, some_), small, ascending-From positions (ground (arith, e)), ground (arith, e))
checked-IsPosting false d frequency [] small some_ e = (ground (arith, some_), small, tt, refl)
checked-IsPosting false d frequency (x ∷ positions) small some_ e = cc

-- add_posting keeps the index's invariant wherever it succeeds, for a frequency of 32 bits.
pub add_posting-IsIndex :
    (index : InMemoryIndex) (text : Bytes) (document_id frequency : ℕ) (positions : List ℕ)
    (after : InMemoryIndex)
    → IsIndex index
    → frequency < 2 ^ 32
    → add_posting index text document_id frequency positions ≡ ok after
    → IsIndex after
unfolding add_posting
add_posting-IsIndex index text d frequency positions after h small e =
    let store = index.store_positions in
    Returns-ok IsIndex (add_posting index text d frequency positions) after
      (Returns-throw_if IsIndex (frequency == 0)
        (Error.invalid_argument "index posting requires frequency") _
        λ some_.
          Returns-throw_if IsIndex
            (store && not (length positions == frequency)
              || not store && not (is_empty positions)
              || not (are_ascending positions))
            (Error.invalid_argument "index posting positions invalid") _
            λ valid.
              Returns->>= (IsListFrom store 0) IsIndex (postings_for index text) _
                (postings_for-IsListFrom index text h)
                λ postings l.
                  Returns-throw_if IsIndex (is_at_or_before_posting d (last? postings))
                    (Error.invalid_argument "posting document ids must be strictly increasing")
                    (ok _)
                    λ later.
                      let posting : Posting = record {
                        document_id = d;
                        frequency = frequency;
                        positions = positions;
                      } in
                      assign-AreLists store text (postings ++ (posting ∷ [])) index.dictionary h (
                        IsListFrom-append store 0 postings posting l
                          (checked-IsPosting store d frequency positions small some_ valid)
                          (omega arith) later))
      e
