-- ===== src/Storage/Writing/Accepting.antt =====
-- The stores of documents that `write_index_file_bounded` of src/storage/index_file.cpp encodes.
use Prim.Native.String.{String}
use snow_seek.Arithmetic.{checked_add}
use snow_seek.Documents.{DocumentMeta, DocumentStore, is_tombstone}
use snow_seek.Prelude.{
  All, Bool-cases, Bytes, [], arith, inl, inr, length, length-append, ok, refl, true, ℕ, ◌++◌, ◌+◌,
  ◌<◌, ◌^◌, ◌↔◌, ◌∷◌, ◌≡◌,
}
use snow_seek.Storage.Codec.{u64_bytes}
use snow_seek.Storage.Codec.RoundTrip.{memory, write_u64_le-memory}
use snow_seek.Storage.File.Utf8.{is_valid_utf8}
use snow_seek.Storage.Records.RoundTrip.{document_bytes, write_document_record-memory}
use snow_seek.Storage.Stream.{write-took}
use snow_seek.Storage.Validation.Table.{is_relative_document_path}
use snow_seek.Storage.Writing.Documents.{
  DocumentsState, content_or_zero, document_flags, encode_documents, write_document,
  write_documents,
}
use snow_seek.Storage.Writing.Fields.{checked_narrow, path_to_utf8}
use snow_seek.Storage.Writing.Layout.{IsWritable, flags_of, paths_bytes, record_of}
use snow_seek.Storage.Writing.RoundTrip.{encode_documents-Encoded}
use snow_seek.Storage.Writing.Table.{count_after, table_at}

path_to_utf8-ok :
    (path : Bytes)
    → is_relative_document_path path ≡ true
    → is_valid_utf8 path ≡ true
    → path_to_utf8 path ≡ ok path
unfolding path_to_utf8 is_relative_document_path
path_to_utf8-ok path relative text = ground (arith, relative, text)

checked_narrow-ok :
    (number : ℕ) (field : String) → number < 2 ^ 32 → checked_narrow number field ≡ ok number
unfolding checked_narrow
checked_narrow-ok number field h = ground (arith, h)

checked_add-ok :
    (left right : ℕ) (field : String)
    → left + right < 2 ^ 64
    → checked_add left right field ≡ ok (left + right)
unfolding checked_add
checked_add-ok left right field h = ground (arith, h)

document_flags-ok :
    (document : DocumentMeta)
    → IsWritable document
    → document_flags document ≡ ok (flags_of document, content_or_zero document.content_crc32c)
unfolding document_flags flags_of
document_flags-ok document v = elim (Bool-cases (is_tombstone document.state)) [
  | inl dead ↦
      let (size, time, tokens, content) = v.tombstone_is dead in
      rw (dead, size, time, tokens, content) refl
  | inr alive ↦ rw alive refl
]

module _ (w p : Bytes) (offset : ℕ) (counts : ℕ × ℕ) where
  write_document-ok :
      (document : DocumentMeta)
      → IsWritable document
      → offset + length document.path < 2 ^ 64
      → write_document (table_at w p offset counts) document
        ≡ ok (
            table_at
              (w ++ document_bytes (record_of document offset))
              (p ++ document.path)
              (offset + length document.path)
              (count_after document counts))
  unfolding write_document
  write_document-ok document v inside =
      rw
        (
          path_to_utf8-ok document.path v.path_is v.text_is,
          checked_narrow-ok (length document.path) "path length" v.path_fits,
          document_flags-ok document v,
          write_document_record-memory w (record_of document offset),
          checked_add-ok offset (length document.path) "paths section length" inside,
          write-took (memory p) document.path refl tt,
        )
        refl

write_documents-ok :
    (w p : Bytes) (offset : ℕ) (counts : ℕ × ℕ) (documents : DocumentStore)
    → All IsWritable documents
    → offset + length (paths_bytes documents) < 2 ^ 64
    → (table : DocumentsState) × (write_documents (table_at w p offset counts) documents ≡ ok table)
unfolding write_documents paths_bytes
write_documents-ok w p offset counts [] v inside = (table_at w p offset counts, refl)
write_documents-ok w p offset counts (document ∷ documents) (v, later) inside =
    let size = length-append document.path (paths_bytes documents) in
    let (table, e) =
      write_documents-ok (w ++ document_bytes (record_of document offset)) (p ++ document.path)
        (offset + length document.path) (count_after document counts) documents later
        (omega (arith, inside, size)) in
    let here = write_document-ok w p offset counts document v (omega (arith, inside, size)) in
    (table, rw here e)

-- The documents are encoded exactly where each of them is writable and their paths have fewer than
-- 2 ^ 64 bytes together; otherwise encoding throws.
pub encode_documents-IsWritable :
    (documents : DocumentStore)
    → ((table : DocumentsState) × (encode_documents documents ≡ ok table))
      ↔ (All IsWritable documents × length (paths_bytes documents) < 2 ^ 64)
unfolding encode_documents
encode_documents-IsWritable documents = (
  λ (table, e).
      let (writable, inside, same) = encode_documents-Encoded documents table e in
      (writable, omega (arith, inside)),
  λ (writable, inside).
      let (table, e) =
        write_documents-ok (u64_bytes (length documents)) [] 0 (0, 0) documents writable
          (omega (arith, inside)) in
      (table, rw (write_u64_le-memory [] (length documents)) e),
)
