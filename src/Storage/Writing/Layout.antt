-- ===== src/Storage/Writing/Layout.antt =====
-- The bytes of the Documents and Paths sections of src/storage/index_file.cpp.
use snow_seek.Documents.{DocumentMeta, DocumentStore, is_tombstone}
use snow_seek.Prelude.{
  Bytes, [], if◌then◌else◌, length, none, true, ℕ, ◌++◌, ◌+◌, ◌<◌, ◌^◌, ◌∷◌, ◌≡◌,
}
use snow_seek.Prelude.Int.{pos}
use snow_seek.Storage.File.Utf8.{is_valid_utf8}
use snow_seek.Storage.Records.{DocumentRecord}
use snow_seek.Storage.Records.RoundTrip.{document_bytes}
use snow_seek.Storage.Validation.Table.{is_relative_document_path}
use snow_seek.Storage.Writing.Documents.{content_or_zero, document_record, has_content}

unfoldable pub flags_of : DocumentMeta → ℕ
flags_of document =
    if is_tombstone document.state then 1 else if has_content document.content_crc32c then 2 else 0

-- The record of a document whose path begins at `offset` in the Paths section.
abbrev pub record_of : DocumentMeta → ℕ → DocumentRecord
record_of document offset =
    document_record document (length document.path) offset (flags_of document)
      (content_or_zero document.content_crc32c)

unfoldable pub records_bytes : ℕ → DocumentStore → Bytes
records_bytes offset [] = []
records_bytes offset (document ∷ documents) =
    document_bytes (record_of document offset)
    ++ records_bytes (offset + length document.path) documents

unfoldable pub paths_bytes : DocumentStore → Bytes
paths_bytes [] = []
paths_bytes (document ∷ documents) = document.path ++ paths_bytes documents

-- What the writer requires of a document.
pub record IsWritable (document : DocumentMeta) : Type 0 where
  pub path_is : is_relative_document_path document.path ≡ true
  pub text_is : is_valid_utf8 document.path ≡ true
  pub path_fits : length document.path < 2 ^ 32
  pub tombstone_is :
      is_tombstone document.state ≡ true
      → (document.file_size ≡ 0)
        × (document.modified_time_ns ≡ pos 0)
        × (document.token_count ≡ 0)
        × (document.content_crc32c ≡ none)
