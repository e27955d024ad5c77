-- ===== src/Index/Appending.antt =====
-- `add_posting` of src/index/index.cpp where the postings come in the order of a Segment: term by
-- term, and by document in each.
-- The document of the last posting of a list.
use snow_seek.Index.{
  InMemoryIndex, Posting, PostingList, add_posting, are_ascending, assign, find, is_at_or_before,
  is_at_or_before_posting, list_of, postings_for,
}
use snow_seek.Index.Entries.{AllKeys, assign-AllKeys, lookup-assign_self}
use snow_seek.Index.Order.{KeyUpTo}
use snow_seek.Prelude.{
  Bool, Bytes, List, Option, [], ap, arith, false, if◌then◌else◌, inr, is_empty, last?, length,
  none, not, ok, refl, some, true, ℕ, ◌&&◌, ◌++◌, ◌==◌, ◌||◌, ◌∙◌, ◌∷◌, ◌≡◌,
}

abbrev pub last_document : Option Posting → Option ℕ
last_document none = none
last_document (some posting) = some posting.document_id

last_document-append :
    (postings : PostingList) (posting : Posting)
    → last_document (last? (postings ++ (posting ∷ []))) ≡ some posting.document_id
last_document-append [] posting = refl
last_document-append (p ∷ []) posting = refl
last_document-append (p ∷ q ∷ postings) posting = last_document-append (q ∷ postings) posting

is_at_or_before-last_document :
    (d : ℕ) (last : Option Posting)
    → is_at_or_before_posting d last ≡ is_at_or_before d (last_document last)
is_at_or_before-last_document d none = refl
is_at_or_before-last_document d (some posting) = refl

-- The index can take a posting of the term after those of the document `previous`: no term is after
-- this one.
pub record Ready (has_positions : Bool) (text : Bytes) (previous : Option ℕ) (index : InMemoryIndex)
    : Type 0 where
  pub store_is : index.store_positions ≡ has_positions
  pub keys : AllKeys (KeyUpTo text) index.dictionary
  pub last_is : last_document (last? (list_of (find index text))) ≡ previous

-- The index with one more posting.
abbrev pub appended : InMemoryIndex → Bytes → Posting → InMemoryIndex
appended index text posting = record index {
  dictionary = assign text (list_of (find index text) ++ (posting ∷ [])) index.dictionary;
}

appended-Ready :
    (has_positions : Bool) (text : Bytes) (previous : Option ℕ) (index : InMemoryIndex)
    (posting : Posting)
    → is_empty text ≡ false
    → Ready has_positions text previous index
    → Ready has_positions text (some posting.document_id) (appended index text posting)
unfolding find
appended-Ready has text previous index posting some_ r =
    let postings = list_of (find index text) in
    record {
      store_is = r.store_is;
      keys =
          assign-AllKeys (KeyUpTo text) text (postings ++ (posting ∷ [])) index.dictionary
            (some_, inr refl) r.keys;
      last_is =
          ap (λ (found : Option PostingList). last_document (last? (list_of found)))
            (lookup-assign_self text (postings ++ (posting ∷ [])) index.dictionary)
          ∙ last_document-append postings posting;
    }

counted :
    (has store : Bool) (frequency : ℕ) (positions : List ℕ)
    → store ≡ has
    → length positions ≡ (if has then frequency else 0)
    → are_ascending positions ≡ true
    → (store && not (length positions == frequency)
        || not store && not (is_empty positions)
        || not (are_ascending positions))
      ≡ false
counted true store frequency positions e n a = ground (arith, e, n, a)
counted false store frequency [] e n a = ground (arith, e, n, a)
counted false store frequency (x ∷ positions) e n a = absurd (omega (arith, n))

-- Nothing in `add_posting` refuses the posting.
pub add_posting-Ready :
    (has_positions : Bool) (text : Bytes) (previous : Option ℕ) (index : InMemoryIndex)
    (document_id frequency : ℕ) (positions : List ℕ)
    → is_empty text ≡ false
    → (frequency == 0) ≡ false
    → length positions ≡ (if has_positions then frequency else 0)
    → are_ascending positions ≡ true
    → is_at_or_before document_id previous ≡ false
    → Ready has_positions text previous index
    → (after : InMemoryIndex) × (add_posting index text document_id frequency positions ≡ ok after)
      × Ready has_positions text (some document_id) after
unfolding add_posting postings_for
add_posting-Ready has text previous index d frequency positions some_ f n a later r =
    let posting : Posting = record {
      document_id = d;
      frequency = frequency;
      positions = positions;
    } in
    let place : is_at_or_before_posting d (last? (list_of (find index text))) ≡ false =
      is_at_or_before-last_document d (last? (list_of (find index text)))
      ∙ ap (is_at_or_before d) r.last_is
      ∙ later in
    let counts : (index.store_positions && not (length positions == frequency)
          || not index.store_positions && not (is_empty positions)
          || not (are_ascending positions))
        ≡ false =
      counted has index.store_positions frequency positions r.store_is n a in
    (
      appended index text posting,
      rw (f, counts, some_, place) refl,
      appended-Ready has text previous index posting some_ r,
    )
