-- ===== src/Examples/Tables.antt =====
-- src/document and src/index: the document store and the index at concrete inputs.
use snow_seek.Documents.{
  DocumentMeta, DocumentState, DocumentStore, add, add_tombstone, get, is_tombstone,
  set_token_count,
}
use snow_seek.Documents.Store.{Grows, IsStore, add-Added, id_overflow, set_token_count-IsStore}
use snow_seek.Index.{
  InMemoryIndex, Posting, add_occurrence, add_posting, are_ascending, assign, bump, find, lookup,
  occur, postings_for,
}
use snow_seek.Index.Invariant.{IsIndex, add_occurrence-IsIndex, add_posting-IsIndex}
use snow_seek.Prelude.{
  [], arith, length, none, ok, refl, some, throw, true, ℕ, ◌<◌, ◌^◌, ◌∷◌, ◌≡◌, ◌≤◌, ◌⊎◌,
}
use snow_seek.Prelude.Int.{negsuc, pos}

abbrev first_document : DocumentMeta
first_document = record {
  id = 0;
  path = b'a' ∷ [];
  file_size = 3;
  modified_time_ns = pos 5;
  token_count = 2;
  state = DocumentState.live;
  content_crc32c = none;
}

abbrev store : DocumentStore
store = first_document ∷ []

store-IsStore : IsStore store
unfolding is_tombstone
store-IsStore = (refl, (λ e. cc), tt)

add-Added_example :
    ((length store < 2 ^ 32)
      × ((r : ℕ × (DocumentStore × (DocumentStore × DocumentStore))) × Grows store
            (b'b' ∷ [])
            9
            (negsuc 3)
            (some 7)
            4
            r))
    ⊎ ((2 ^ 32 ≤ length store)
        × (add store (b'b' ∷ []) 9 (negsuc 3) (some 7) ≡ throw id_overflow)
        × (add_tombstone store (b'b' ∷ []) ≡ throw id_overflow))
add-Added_example = add-Added store (b'b' ∷ []) 9 (negsuc 3) (some 7) 4 store-IsStore

set_token_count_test :
    set_token_count store 0 8 ≡ ok (record first_document { token_count = 8 } ∷ [])
unfolding set_token_count get is_tombstone
set_token_count_test = refl

set_token_count-IsStore_example : IsStore (record first_document { token_count = 8 } ∷ [])
set_token_count-IsStore_example =
    set_token_count-IsStore store 0 8 (record first_document { token_count = 8 } ∷ []) store-IsStore
      set_token_count_test

abbrev posting : Posting
posting = record { document_id = 1; frequency = 2; positions = 0 ∷ 4 ∷ [] }

abbrev index : InMemoryIndex
index = record { dictionary = (b'a' ∷ [], posting ∷ []) ∷ []; store_positions = true }

index-IsIndex : IsIndex index
index-IsIndex =
    ((omega arith, (omega arith, omega arith, (omega arith, (omega arith, tt)), refl), tt), tt)

abbrev longer : InMemoryIndex
longer = record {
  dictionary =
      (b'a' ∷ [], record { document_id = 1; frequency = 3; positions = 0 ∷ 4 ∷ 9 ∷ [] } ∷ []) ∷ [];
  store_positions = true;
}

add_occurrence_test : add_occurrence index (b'a' ∷ []) 1 9 ≡ ok longer
unfolding add_occurrence postings_for find lookup occur bump assign
add_occurrence_test = refl

add_occurrence-IsIndex_example : IsIndex longer
add_occurrence-IsIndex_example =
    add_occurrence-IsIndex index (b'a' ∷ []) 1 9 longer index-IsIndex add_occurrence_test

abbrev wider : InMemoryIndex
wider = record {
  dictionary =
      (b'a' ∷ [], posting ∷ [])
      ∷ (b'b' ∷ [], record { document_id = 0; frequency = 1; positions = 7 ∷ [] } ∷ [])
      ∷ [];
  store_positions = true;
}

add_posting_test : add_posting index (b'b' ∷ []) 0 1 (7 ∷ []) ≡ ok wider
unfolding add_posting are_ascending postings_for find lookup assign
add_posting_test = refl

add_posting-IsIndex_example : IsIndex wider
add_posting-IsIndex_example =
    add_posting-IsIndex index (b'b' ∷ []) 0 1 (7 ∷ []) wider index-IsIndex (omega arith)
      add_posting_test
