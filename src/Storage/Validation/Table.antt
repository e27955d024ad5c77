-- ===== src/Storage/Validation/Table.antt =====
-- src/storage/index_validation.cpp: `decode_document_table`. A path is its bytes, as on a POSIX
-- system, where std::filesystem::path keeps the bytes of a UTF-8 string as they are.
pub mod Pushed
pub mod Stores
use snow_seek.Arithmetic.{checked_add, checked_multiply}
use snow_seek.Documents.{DocumentStore, add, add_tombstone, set_token_count}
use snow_seek.Prelude.{
  Bool, Bytes, Error, List, Result, [], bytes_eq, false, if◌then◌else◌, is_empty, length, ltb, none,
  not, ok, some, suc, throw_if, true, zero, ℕ, ◌%◌, ◌&&◌, ◌++◌, ◌+◌, ◌-◌, ◌/◌, ◌==◌, ◌>>=◌, ◌>>◌,
  ◌^◌, ◌||◌, ◌∷◌,
}
use snow_seek.Prelude.Int.{negsuc, pos, ℤ}
use snow_seek.Storage.Codec.{read_u64_le}
use snow_seek.Storage.File.{SegmentFile, open_input, read_exact, seek_to}
use snow_seek.Storage.File.Utf8.{is_valid_utf8}
use snow_seek.Storage.Header.{
  IndexHeader, SectionDescriptor, index_format_version, index_header_size,
}
use snow_seek.Storage.Records.{DocumentRecord, document_record_size, read_document_record, section}

-- The largest std::size_t.
abbrev pub max_size : ℕ
max_size = 0xffffffffffffffff

pub record SegmentStats : Type 0 where
  pub file_size : ℕ
  pub physical_document_count : ℕ
  pub live_document_count : ℕ
  pub tombstone_count : ℕ
  pub term_count : ℕ
  pub posting_count : ℕ
  pub position_count : ℕ

pub record LoadedDocumentTable : Type 0 where
  pub documents : DocumentStore
  pub token_counts : List ℕ
  pub stats : SegmentStats
  pub header : IndexHeader
  pub stores_positions : Bool

abbrev empty_section : ℕ → SectionDescriptor
empty_section kind = record { kind = kind; offset = index_header_size; length = 0; checksum = 0 }

-- The default member initializers of `IndexHeader`.
abbrev pub default_header : IndexHeader
default_header = record {
  version = index_format_version;
  feature_flags = 1;
  file_size = index_header_size;
  sections =
      empty_section 1 ∷ empty_section 2 ∷ empty_section 3 ∷ empty_section 4 ∷ empty_section 5 ∷ [];
}

-- A byte in front of the first name.
unfoldable pub grown : ℕ → List Bytes → List Bytes
grown c [] = (c ∷ []) ∷ []
grown c (name ∷ names) = (c ∷ name) ∷ names

-- The names between the separators of a path. Iterating a std::filesystem::path skips the empty
-- ones, or yields them as an empty or a root name, which are neither `.` nor `..`.
unfoldable pub components : Bytes → List Bytes
components [] = [] ∷ []
components (c ∷ path) =
    let later = components path in if c == b'/' then [] ∷ later else grown c later

-- `component == "." || component == ".."`.
unfoldable pub is_dots : Bytes → Bool
is_dots name = bytes_eq name (b'.' ∷ []) || bytes_eq name (b'.' ∷ b'.' ∷ [])

unfoldable pub none_is_dots : List Bytes → Bool
none_is_dots [] = true
none_is_dots (name ∷ names) = not (is_dots name) && none_is_dots names

unfoldable pub is_absolute : Bytes → Bool
is_absolute [] = false
is_absolute (c ∷ path) = c == b'/'

unfoldable pub is_relative_document_path : Bytes → Bool
is_relative_document_path path =
    not (is_empty path) && not (is_absolute path) && none_is_dots (components path)

-- The std::int64_t with the bits.
unfoldable pub timestamp_from_bits : ℕ → ℤ
timestamp_from_bits bits = if ltb bits (2 ^ 63) then pos bits else negsuc (2 ^ 64 - 1 - bits)

-- `flags & kDocumentTombstone` and `flags & kDocumentContentCrc32c`; `flags & ~kSupported` is nonzero
-- when `flags / 4` is.
abbrev pub has_tombstone_flag : DocumentRecord → Bool
has_tombstone_flag entry = entry.flags % 2 == 1

abbrev pub has_content_crc32c_flag : DocumentRecord → Bool
has_content_crc32c_flag entry = entry.flags / 2 % 2 == 1

-- The checks of a document's record at the index `document_index`, of a Paths section of
-- `paths_length` bytes.
unfoldable pub check_document_record : ℕ → ℕ → ℕ → DocumentRecord → Result (Unit {0})
check_document_record document_index expected_path_offset paths_length entry = do
  throw_if
      (not (entry.document_id == document_index)
        || not (entry.reserved == 0)
        || not (entry.flags / 4 == 0))
      (Error.runtime_error "invalid document id, flags, or reserved field")
  throw_if
      (has_tombstone_flag entry
          && (not (entry.file_size == 0)
              || not (entry.modified_time_bits == 0)
              || not (entry.token_count == 0)
              || has_content_crc32c_flag entry
              || not (entry.content_crc32c == 0))
        || not (has_content_crc32c_flag entry) && not (entry.content_crc32c == 0))
      (Error.runtime_error "invalid Tombstone or content checksum metadata")
  throw_if
      (entry.path_length == 0
        || not (entry.path_offset == expected_path_offset)
        || ltb paths_length entry.path_offset
        || ltb (paths_length - entry.path_offset) entry.path_length)
      (Error.runtime_error "document path exceeds Paths section")

unfoldable pub decode_path : Bytes → SectionDescriptor → DocumentRecord → Result Bytes
decode_path content paths_section entry = do
  offset ← checked_add paths_section.offset entry.path_offset "path offset"
  paths_input ← seek_to content offset
  (path_bytes, rest) ← read_exact paths_input entry.path_length
  throw_if (not (is_valid_utf8 path_bytes))
      (Error.runtime_error "stored document path is not valid nonempty UTF-8")
  throw_if (not (is_relative_document_path path_bytes))
      (Error.runtime_error "stored document path is not normalized and relative")
  ok path_bytes

-- The two ways to add a document.
unfoldable pub add_decoded_tombstone :
    LoadedDocumentTable → DocumentRecord → Bytes → Result LoadedDocumentTable
add_decoded_tombstone loaded entry path = do
  (id, documents) ← add_tombstone loaded.documents path
  ok (record loaded {
    documents = documents;
    token_counts = loaded.token_counts ++ (entry.token_count ∷ []);
    stats = record (loaded.stats) { tombstone_count = (loaded.stats.tombstone_count + 1) % 2 ^ 64 };
  })

unfoldable pub add_decoded_live :
    LoadedDocumentTable → DocumentRecord → Bytes → Result LoadedDocumentTable
add_decoded_live loaded entry path = do
  (id, added) ←
      add loaded.documents path entry.file_size (timestamp_from_bits entry.modified_time_bits)
        (if has_content_crc32c_flag entry then some entry.content_crc32c else none)
  documents ← set_token_count added id entry.token_count
  ok (record loaded {
    documents = documents;
    token_counts = loaded.token_counts ++ (entry.token_count ∷ []);
    stats = record (loaded.stats) {
      live_document_count = (loaded.stats.live_document_count + 1) % 2 ^ 64;
    };
  })

unfoldable pub add_decoded :
    LoadedDocumentTable → DocumentRecord → Bytes → Result LoadedDocumentTable
add_decoded loaded entry path =
    if has_tombstone_flag entry
    then add_decoded_tombstone loaded entry path
    else add_decoded_live loaded entry path

-- The loop over `document_index`, with the rounds left: the table and the next expected offset.
unfoldable pub decode_documents :
    Bytes
    → SectionDescriptor
    → ℕ
    → ℕ
    → Bytes
    → ℕ
    → LoadedDocumentTable
    → Result (LoadedDocumentTable × ℕ)
decode_documents content paths_section zero document_index documents_input expected_path_offset
      loaded =
    ok (loaded, expected_path_offset)
decode_documents content paths_section (suc rounds) document_index documents_input
      expected_path_offset loaded =
    do
      (entry, rest) ← read_document_record documents_input
      check_document_record document_index expected_path_offset paths_section.length entry
      path ← decode_path content paths_section entry
      added ← add_decoded loaded entry path
      next ← checked_add expected_path_offset entry.path_length "path byte range"
      decode_documents content paths_section rounds (document_index + 1) rest next added

abbrev pub empty_table : IndexHeader → ℕ → LoadedDocumentTable
empty_table header document_count = record {
  documents = [];
  token_counts = [];
  stats = record {
    file_size = header.file_size;
    physical_document_count = document_count;
    live_document_count = 0;
    tombstone_count = 0;
    term_count = 0;
    posting_count = 0;
    position_count = 0;
  };
  header = default_header;
  stores_positions = not (header.feature_flags % 2 == 0);
}

unfoldable pub decode_document_table : SegmentFile → IndexHeader → Result LoadedDocumentTable
decode_document_table file header = do
  documents_section ← section header 1
  paths_section ← section header 2
  content ← open_input file
  documents_input ← seek_to content documents_section.offset
  (document_count, rest) ← read_u64_le documents_input
  records_size ← checked_multiply document_count document_record_size "documents section length"
  expected_size ← checked_add 8 records_size "documents section length"
  throw_if (not (documents_section.length == expected_size))
      (Error.runtime_error "documents section has inconsistent length")
  throw_if (ltb max_size document_count) (Error.runtime_error "document count exceeds size_t")
  (loaded, path_end) ←
      decode_documents content paths_section document_count 0 rest 0
        (empty_table header document_count)
  throw_if (not (path_end == paths_section.length))
      (Error.runtime_error "Paths section contains unreferenced trailing bytes")
  ok loaded
