-- ===== src/Storage/Writing/Documents.antt =====
-- The Documents and Paths sections in `write_index_file_bounded` of src/storage/index_file.cpp.
use snow_seek.Arithmetic.{checked_add}
use snow_seek.Documents.{DocumentMeta, DocumentStore, is_tombstone}
use snow_seek.Prelude.{
  Bool, Error, Option, Result, [], false, if◌then◌else◌, length, none, not, ok, some, throw_if,
  true, ℕ, ◌%◌, ◌+◌, ◌==◌, ◌>>=◌, ◌>>◌, ◌^◌, ◌||◌, ◌∷◌,
}
use snow_seek.Prelude.Int.{eq_ℤ, pos, ℤ}
use snow_seek.Storage.Codec.{write_u64_le}
use snow_seek.Storage.Records.{DocumentRecord, write_document_record}
use snow_seek.Storage.Stream.{Output, string_stream, write}
use snow_seek.Storage.Writing.Fields.{checked_narrow, path_to_utf8, timestamp_bits}

-- What the loop over the documents changes.
pub record DocumentsState : Type 0 where
  pub paths_stream : Output
  pub documents_stream : Output
  pub path_offset : ℕ
  pub live_document_count : ℕ
  pub tombstone_count : ℕ

abbrev pub has_content : Option ℕ → Bool
has_content none = false
has_content (some crc) = true

abbrev pub content_or_zero : Option ℕ → ℕ
content_or_zero none = 0
content_or_zero (some crc) = crc

abbrev pub is_zero_time : ℤ → Bool
is_zero_time time = eq_ℤ time (pos 0)

-- The flags of a document with its checksum.
unfoldable pub document_flags : DocumentMeta → Result (ℕ × ℕ)
document_flags document =
    if is_tombstone document.state
    then (throw_if
          (not (document.file_size == 0)
            || not (is_zero_time document.modified_time_ns)
            || not (document.token_count == 0)
            || has_content document.content_crc32c)
          (Error.runtime_error "Tombstone contains live document metadata")
        >> ok (1, 0))
    else ok (
      if has_content document.content_crc32c then 2 else 0,
      content_or_zero document.content_crc32c,
    )

-- The record of a document.
abbrev pub document_record : DocumentMeta → ℕ → ℕ → ℕ → ℕ → DocumentRecord
document_record document path_length path_offset flags content_crc32c = record {
  document_id = document.id;
  path_length = path_length;
  path_offset = path_offset;
  file_size = document.file_size;
  modified_time_bits = timestamp_bits document.modified_time_ns;
  token_count = document.token_count;
  flags = flags;
  content_crc32c = content_crc32c;
  reserved = 0;
}

unfoldable pub write_document : DocumentsState → DocumentMeta → Result DocumentsState
write_document state document = do
  path_bytes ← path_to_utf8 document.path
  path_length ← checked_narrow (length path_bytes) "path length"
  (flags, content_crc32c) ← document_flags document
  documents_stream ←
      write_document_record state.documents_stream
        (document_record document path_length state.path_offset flags content_crc32c)
  path_offset ← checked_add state.path_offset (length path_bytes) "paths section length"
  ok (record {
    paths_stream = write state.paths_stream path_bytes;
    documents_stream = documents_stream;
    path_offset = path_offset;
    live_document_count =
        if is_tombstone document.state
        then state.live_document_count
        else (state.live_document_count + 1) % 2 ^ 64;
    tombstone_count =
        if is_tombstone document.state
        then (state.tombstone_count + 1) % 2 ^ 64
        else state.tombstone_count;
  })

unfoldable pub write_documents : DocumentsState → DocumentStore → Result DocumentsState
write_documents state [] = ok state
write_documents state (document ∷ documents) = do
  next ← write_document state document
  write_documents next documents

-- The Documents and Paths sections, as streams, with the counts.
unfoldable pub encode_documents : DocumentStore → Result DocumentsState
encode_documents documents = do
  counted ← write_u64_le string_stream (length documents)
  write_documents
      (record {
        paths_stream = string_stream;
        documents_stream = counted;
        path_offset = 0;
        live_document_count = 0;
        tombstone_count = 0;
      })
      documents
