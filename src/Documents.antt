-- ===== src/Documents.antt =====
-- src/document/document_store.cpp and document.hpp: the table of documents. A path is the bytes of
-- its generic string. `estimated_memory_bytes` measures allocations and is not here.
pub mod Store
pub mod Reader
use snow_seek.Prelude.{
  Bool, Bytes, Error, List, Option, Result, [], false, length, ltb, none, not, ok, set, suc, throw,
  throw_if, true, zero, ℕ, ◌&&◌, ◌++◌, ◌==◌, ◌>>=◌, ◌>>◌, ◌∷◌,
}
use snow_seek.Prelude.Int.{pos, ℤ}

pub data DocumentState : Type 0 where
  live tombstone : DocumentState

pub record DocumentMeta : Type 0 where
  pub id : ℕ
  pub path : Bytes
  pub file_size : ℕ
  pub modified_time_ns : ℤ
  pub token_count : ℕ
  pub state : DocumentState
  pub content_crc32c : Option ℕ

abbrev pub DocumentStore : Type 0
DocumentStore = List DocumentMeta

abbrev pub max_document_id : ℕ
max_document_id = 0xffffffff

unfoldable pub add : DocumentStore → Bytes → ℕ → ℤ → Option ℕ → Result (ℕ × DocumentStore)
add documents path file_size modified_time_ns content_crc32c = do
  throw_if (ltb max_document_id (length documents))
      (Error.overflow_error "document id exceeds uint32_t")
  let id = length documents
  ok (
    id,
    documents
        ++ (record {
          id = id;
          path = path;
          file_size = file_size;
          modified_time_ns = modified_time_ns;
          token_count = 0;
          state = DocumentState.live;
          content_crc32c = content_crc32c;
        }
            ∷ []),
  )

unfoldable pub add_tombstone : DocumentStore → Bytes → Result (ℕ × DocumentStore)
add_tombstone documents path = do
  throw_if (ltb max_document_id (length documents))
      (Error.overflow_error "document id exceeds uint32_t")
  let id = length documents
  ok (
    id,
    documents
        ++ (record {
          id = id;
          path = path;
          file_size = 0;
          modified_time_ns = pos 0;
          token_count = 0;
          state = DocumentState.tombstone;
          content_crc32c = none;
        }
            ∷ []),
  )

unfoldable pub get : DocumentStore → ℕ → Result DocumentMeta
get [] id = throw (Error.out_of_range "document id is out of range")
get (document ∷ documents) zero = ok document
get (document ∷ documents) (suc id) = get documents id

unfoldable pub is_tombstone : DocumentState → Bool
is_tombstone DocumentState.tombstone = true
is_tombstone DocumentState.live = false

unfoldable pub set_token_count : DocumentStore → ℕ → ℕ → Result DocumentStore
set_token_count documents id token_count = do
  document ← get documents id
  throw_if (is_tombstone document.state && not (token_count == 0))
      (Error.invalid_argument "Tombstone token count must remain zero")
  ok (set documents id (record document { token_count = token_count }))
