-- ===== src/Storage/Writing.antt =====
-- src/storage/index_file.cpp: a table of documents and an index are written as a Segment. The free
-- space of the file system, or none where it cannot be asked, and the opened file, or none where it
-- cannot be created, are arguments. The path and the system's text at the end of a message are left out.
pub mod Fields
pub mod Documents
pub mod Terms
pub mod File
pub mod Written
pub mod Placing
pub mod Envelope
pub mod Streams
pub mod Accepting
pub mod Layout
pub mod Checks
pub mod Table
pub mod Decoded
pub mod Loop
pub mod RoundTrip
pub mod Restored
use snow_seek.Storage.Writing.Documents.{encode_documents}
use snow_seek.Storage.Writing.Fields.{finish}
use snow_seek.Storage.Writing.Terms.{write_terms, write_terms_section}
use snow_seek.Arithmetic.{checked_add}
use snow_seek.Documents.{DocumentStore}
use snow_seek.Index.{InMemoryIndex, sorted_terms}
use snow_seek.Prelude.{
  Bool, Bytes, Error, List, Option, Result, [], if◌then◌else◌, length, ltb, none, not, ok, some,
  throw, throw_if, ℕ, ◌>>=◌, ◌>>◌, ◌∷◌,
}
use snow_seek.Storage.Checksum.{crc32c}
use snow_seek.Storage.Header.{
  IndexHeader, SectionDescriptor, index_format_version, index_header_size, index_section_order,
  max_u64, write_header,
}
use snow_seek.Storage.Stream.{Output, string_stream, write}
use snow_seek.Storage.Validation.Table.{SegmentStats}

-- The loop over `section_index`: the descriptors and the size of the file.
unfoldable pub place_sections : ℕ → List ℕ → List Bytes → Result (List SectionDescriptor × ℕ)
place_sections offset (kind ∷ kinds) (section ∷ sections) = do
  next ← checked_add offset (length section) "index file size"
  (descriptors, size) ← place_sections next kinds sections
  ok (
    record { kind = kind; offset = offset; length = length section; checksum = crc32c section }
        ∷ descriptors,
    size,
  )
place_sections offset kinds sections = ok ([], offset)

unfoldable pub write_sections_bytes : Output → List Bytes → Output
write_sections_bytes output [] = output
write_sections_bytes output (section ∷ sections) =
    write_sections_bytes (write output section) sections

-- The five sections and the statistics but for the size of the file.
unfoldable pub encode_sections : DocumentStore → InMemoryIndex → Result (List Bytes × SegmentStats)
encode_sections documents index = do
  table ← encode_documents documents
  let terms = sorted_terms index
  state ←
      write_terms documents index
        (record {
          postings_stream = string_stream;
          positions_stream = string_stream;
          term_records = [];
          posting_offset = 0;
          position_offset = 0;
          posting_count = 0;
          position_count = 0;
        })
        terms
  terms_stream ← write_terms_section state.term_records terms
  documents_bytes ← finish table.documents_stream
  paths_bytes ← finish table.paths_stream
  terms_bytes ← finish terms_stream
  postings_bytes ← finish state.postings_stream
  positions_bytes ← finish state.positions_stream
  ok (
    documents_bytes ∷ paths_bytes ∷ terms_bytes ∷ postings_bytes ∷ positions_bytes ∷ [],
    record {
      file_size = 0;
      physical_document_count = length documents;
      live_document_count = table.live_document_count;
      tombstone_count = table.tombstone_count;
      term_count = length terms;
      posting_count = state.posting_count;
      position_count = state.position_count;
    },
  )

unfoldable pub make_header : Bool → List Bytes → Result IndexHeader
make_header stores_positions sections = do
  (descriptors, size) ← place_sections index_header_size index_section_order sections
  ok (record {
    version = index_format_version;
    feature_flags = if stores_positions then 1 else 0;
    file_size = size;
    sections = descriptors;
  })

-- The checks of the space, the file and the writes to it.
unfoldable pub check_space : Option ℕ → ℕ → Result (Unit {0})
check_space none size = throw (Error.runtime_error "failed to inspect temporary filesystem space")
check_space (some available) size =
    throw_if (ltb available size) (Error.runtime_error "insufficient temporary filesystem space")

unfoldable pub write_file : Option Output → IndexHeader → List Bytes → Result Output
write_file none header sections = throw (Error.runtime_error "failed to create index file")
write_file (some output) header sections = do
  headed ← write_header output header
  let written = write_sections_bytes headed sections
  throw_if (not written.good) (Error.runtime_error "failed to write index file")
  ok written

unfoldable pub write_index_file_bounded :
    Option ℕ → Option Output → DocumentStore → InMemoryIndex → ℕ → Result (SegmentStats × Output)
write_index_file_bounded available output documents index maximum_file_size = do
  (sections, stats) ← encode_sections documents index
  header ← make_header index.store_positions sections
  throw_if (ltb maximum_file_size header.file_size)
      (Error.runtime_error "temporary space budget exceeded while writing Segment")
  check_space available header.file_size
  written ← write_file output header sections
  ok (record stats { file_size = header.file_size }, written)

unfoldable pub write_index_file :
    Option ℕ → Option Output → DocumentStore → InMemoryIndex → Result (SegmentStats × Output)
write_index_file available output documents index =
    write_index_file_bounded available output documents index max_u64
