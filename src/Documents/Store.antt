-- ===== src/Documents/Store.antt =====
-- The invariant of the document store of src/document/document_store.cpp.
use mathlib.Core.Path.{subst}
use snow_seek.Documents.{
  DocumentMeta, DocumentState, DocumentStore, add, add_tombstone, get, is_tombstone,
  max_document_id, set_token_count,
}
use snow_seek.Prelude.{
  Bool-cases, Bytes, Error, Option, [], ap, arith, bind_then, false, inl, inr, length, ltb, none,
  not, ok, refl, set, suc, sym, throw, throw_if_then, true, zero, ℕ, ◌&&◌, ◌++◌, ◌+◌, ◌<◌, ◌==◌,
  ◌^◌, ◌∙◌, ◌∷◌, ◌≡◌, ◌≤◌, ◌⊎◌,
}
use snow_seek.Prelude.Int.{pos, ℤ}

-- Each document has its index, from `first` on, and a tombstone has no tokens.
abbrev pub IsStoreFrom : ℕ → DocumentStore → Type 0
IsStoreFrom first [] = Unit {0}
IsStoreFrom first (document ∷ documents) =
    (document.id ≡ first)
    × (is_tombstone document.state ≡ true → document.token_count ≡ 0)
    × IsStoreFrom (suc first) documents

abbrev pub IsStore : DocumentStore → Type 0
IsStore documents = IsStoreFrom 0 documents

pub IsStoreFrom-push :
    (first : ℕ) (documents : DocumentStore) (document : DocumentMeta)
    → IsStoreFrom first documents
    → document.id ≡ first + length documents
    → (is_tombstone document.state ≡ true → document.token_count ≡ 0)
    → IsStoreFrom first (documents ++ (document ∷ []))
IsStoreFrom-push first [] document h e t = (e ∙ omega arith, t, tt)
IsStoreFrom-push first (d ∷ documents) document (id, tokens, h) e t =
    (id, tokens, IsStoreFrom-push (suc first) documents document h (e ∙ omega arith) t)

pub set_pushed :
    (documents : DocumentStore) (d d' : DocumentMeta)
    → set (documents ++ (d ∷ [])) (length documents) d' ≡ documents ++ (d' ∷ [])
set_pushed [] d d' = refl
set_pushed (x ∷ documents) d d' = λ i. x ∷ set_pushed documents d d' i

-- The new document is at the identifier that `add` answers.
pub get_pushed :
    (documents : DocumentStore) (document : DocumentMeta)
    → get (documents ++ (document ∷ [])) (length documents) ≡ ok document
unfolding get
get_pushed [] document = refl
get_pushed (d ∷ documents) document = get_pushed documents document

pub set_token_count_pushed :
    (documents : DocumentStore) (fresh : DocumentMeta) (tokens : ℕ)
    → is_tombstone fresh.state ≡ false
    → set_token_count (documents ++ (fresh ∷ [])) (length documents) tokens
      ≡ ok (documents ++ (record fresh { token_count = tokens } ∷ []))
unfolding set_token_count
set_token_count_pushed documents fresh tokens alive =
    rw (get_pushed documents fresh, alive)
      (ap ok (set_pushed documents fresh (record fresh { token_count = tokens })))

no_tokens_pushed :
    (documents : DocumentStore) (fresh : DocumentMeta) (tokens : ℕ)
    → is_tombstone fresh.state ≡ true
    → set_token_count (documents ++ (fresh ∷ [])) (length documents) (suc tokens)
      ≡ throw (Error.invalid_argument "Tombstone token count must remain zero")
unfolding set_token_count
no_tokens_pushed documents fresh tokens dead = rw (get_pushed documents fresh, dead) (ground arith)

-- `after` is a store that has just the document at the new identifier `id`, and the documents of
-- `before` where they were.
abbrev pub Added : DocumentStore → DocumentMeta → ℕ × DocumentStore → Type 0
Added before document (id, after) =
    IsStore after
    × (id ≡ length before)
    × ((i : ℕ) → i < length before → get after i ≡ get before i)
    × (get after id ≡ ok document)

get_before :
    (documents more : DocumentStore) (i : ℕ)
    → i < length documents
    → get (documents ++ more) i ≡ get documents i
unfolding get
get_before [] more i h = absurd (omega (arith, h))
get_before (d ∷ documents) more zero h = refl
get_before (d ∷ documents) more (suc i) h = get_before documents more i (omega (arith, h))

pushed-Added :
    (documents : DocumentStore) (document : DocumentMeta)
    → IsStore documents
    → document.id ≡ length documents
    → (is_tombstone document.state ≡ true → document.token_count ≡ 0)
    → Added documents document (length documents, documents ++ (document ∷ []))
pushed-Added documents document h at tokens = (
  IsStoreFrom-push 0 documents document h (at ∙ omega arith) tokens,
  refl,
  λ i k. get_before documents (document ∷ []) i k,
  get_pushed documents document,
)

-- A live document with what the caller gave of it, and a tombstone with the path alone.
abbrev pub live_document : ℕ → Bytes → ℕ → ℤ → Option ℕ → ℕ → DocumentMeta
live_document id path size time crc tokens = record {
  id = id;
  path = path;
  file_size = size;
  modified_time_ns = time;
  token_count = tokens;
  state = DocumentState.live;
  content_crc32c = crc;
}

abbrev pub dead_document : ℕ → Bytes → DocumentMeta
dead_document id path = record {
  id = id;
  path = path;
  file_size = 0;
  modified_time_ns = pos 0;
  token_count = 0;
  state = DocumentState.tombstone;
  content_crc32c = none;
}

-- What `add`, `set_token_count` and `add_tombstone` do where a document fits.
abbrev pub Grows :
    DocumentStore
    → Bytes
    → ℕ
    → ℤ
    → Option ℕ
    → ℕ
    → ℕ × (DocumentStore × (DocumentStore × DocumentStore))
    → Type 0
Grows documents path size time crc tokens (id, (added, (counted, buried))) =
    (add documents path size time crc ≡ ok (id, added))
    × Added documents (live_document id path size time crc 0) (id, added)
    × (set_token_count added id tokens ≡ ok counted)
    × Added documents (live_document id path size time crc tokens) (id, counted)
    × (add_tombstone documents path ≡ ok (id, buried))
    × Added documents (dead_document id path) (id, buried)
    × (set_token_count buried id (suc tokens)
        ≡ throw (Error.invalid_argument "Tombstone token count must remain zero"))

abbrev pub id_overflow : Error
id_overflow = Error.overflow_error "document id exceeds uint32_t"

module _ (documents : DocumentStore) (path : Bytes) (size : ℕ) (time : ℤ) (crc : Option ℕ)
    (tokens : ℕ) (h : IsStore documents) where
  stores-Grows :
      length documents < 2 ^ 32
      → Grows documents path size time crc tokens (
        length documents,
        (
          documents ++ (live_document (length documents) path size time crc 0 ∷ []),
          (
            documents ++ (live_document (length documents) path size time crc tokens ∷ []),
            documents ++ (dead_document (length documents) path ∷ []),
          ),
        ),
      )
  unfolding add add_tombstone is_tombstone
  stores-Grows room =
      let id = length documents in
      let fits : ltb max_document_id id ≡ false = ground (arith, room) in
      let live = live_document id path size time crc 0 in
      let dead = dead_document id path in
      (
        rw fits refl,
        pushed-Added documents live h refl (λ e. refl),
        set_token_count_pushed documents live tokens refl,
        pushed-Added documents (live_document id path size time crc tokens) h refl (λ e. cc),
        rw fits refl,
        pushed-Added documents dead h refl (λ e. refl),
        no_tokens_pushed documents dead tokens refl,
      )

  -- In a store with room for an identifier of 32 bits, `add` puts the live document that its
  -- arguments describe, with no tokens, at the next identifier; `set_token_count` then changes only
  -- its count. `add_tombstone` puts there a tombstone with nothing but the path, for which
  -- `set_token_count` refuses every other count than 0. Each time the documents before keep their
  -- places and the table stays a store. In a table with no room both throw the overflow error.
  pub add-Added :
      ((length documents < 2 ^ 32)
        × ((r : ℕ × (DocumentStore × (DocumentStore × DocumentStore))) × Grows documents path size
              time crc tokens r))
      ⊎ ((2 ^ 32 ≤ length documents)
          × (add documents path size time crc ≡ throw id_overflow)
          × (add_tombstone documents path ≡ throw id_overflow))
  unfolding add add_tombstone
  add-Added = elim (Bool-cases (ltb max_document_id (length documents))) [
    | inl over ↦
        let large : 2 ^ 32 ≤ length documents = ground (arith, over) in
        inr (large, rw over refl, rw over refl)
    | inr room ↦
        let small : length documents < 2 ^ 32 = ground (arith, room) in
        inl (small, (_, stores-Grows small))
  ]

set-IsStoreFrom :
    (first id tokens : ℕ) (documents : DocumentStore) (document : DocumentMeta)
    → IsStoreFrom first documents
    → get documents id ≡ ok document
    → (is_tombstone document.state && not (tokens == 0)) ≡ false
    → IsStoreFrom first (set documents id (record document { token_count = tokens }))
unfolding get
set-IsStoreFrom first id tokens [] document h e k = cc
set-IsStoreFrom first zero tokens (d ∷ documents) document (at, t, h) e k =
    let same : d ≡ document = cc in
    (sym (ap (λ (x : DocumentMeta). x.id) same) ∙ at, λ dead. ground (arith, k, dead), h)
set-IsStoreFrom first (suc id) tokens (d ∷ documents) document (at, t, h) e k =
    (at, t, set-IsStoreFrom (suc first) id tokens documents document h e k)

-- Where set_token_count succeeds, the store stays one: a tombstone keeps no tokens.
pub set_token_count-IsStore :
    (documents : DocumentStore) (id tokens : ℕ) (after : DocumentStore)
    → IsStore documents
    → set_token_count documents id tokens ≡ ok after
    → IsStore after
unfolding set_token_count
set_token_count-IsStore documents id tokens after h e =
    bind_then (get documents id) _ e λ document found later.
      throw_if_then (is_tombstone document.state && not (tokens == 0))
        (Error.invalid_argument "Tombstone token count must remain zero")
        (ok (set documents id (record document { token_count = tokens }))) later
        λ live now.
          let same : set documents id (record document { token_count = tokens }) ≡ after = cc in
          subst IsStore same (set-IsStoreFrom 0 id tokens documents document h found live)
