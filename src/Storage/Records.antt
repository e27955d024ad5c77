-- ===== src/Storage/Records.antt =====
-- src/storage/segment_format_internal.hpp: the fixed-width records of a Segment's sections.
pub mod RoundTrip
use snow_seek.Prelude.{
  Bytes, Error, Option, Result, get_elem?, length, ltb, none, not, ok, some, throw, throw_if, ℕ,
  ◌-◌, ◌==◌, ◌>>=◌, ◌>>◌, ◌||◌,
}
use snow_seek.Storage.Codec.{read_u32_le, read_u64_le, write_u32_le, write_u64_le}
use snow_seek.Storage.Header.{IndexHeader, SectionDescriptor}
use snow_seek.Storage.Stream.{Output}

abbrev pub document_record_size : ℕ
document_record_size = 48

abbrev pub term_record_size : ℕ
term_record_size = 32

abbrev pub posting_record_size : ℕ
posting_record_size = 16

abbrev pub position_record_size : ℕ
position_record_size = 4

pub record DocumentRecord : Type 0 where
  pub document_id : ℕ
  pub path_length : ℕ
  pub path_offset : ℕ
  pub file_size : ℕ
  pub modified_time_bits : ℕ
  pub token_count : ℕ
  pub flags : ℕ
  pub content_crc32c : ℕ
  pub reserved : ℕ

pub record TermRecord : Type 0 where
  pub term_offset : ℕ
  pub term_length : ℕ
  pub document_frequency : ℕ
  pub posting_offset : ℕ
  pub posting_length : ℕ

pub record PostingRecord : Type 0 where
  pub document_id : ℕ
  pub frequency : ℕ
  pub position_offset : ℕ

-- `header.sections[value - 1]`, whose kind is checked.
unfoldable pub descriptor_of : Option SectionDescriptor → ℕ → Result SectionDescriptor
descriptor_of none kind = throw (Error.logic_error "unknown Segment section kind")
descriptor_of (some descriptor) kind = do
  throw_if (not (descriptor.kind == kind)) (Error.logic_error "Segment sections are not canonical")
  ok descriptor

unfoldable pub section : IndexHeader → ℕ → Result SectionDescriptor
section header kind = do
  throw_if (kind == 0 || ltb (length header.sections) kind)
      (Error.logic_error "unknown Segment section kind")
  descriptor_of (get_elem? header.sections (kind - 1)) kind

unfoldable pub write_document_record : Output → DocumentRecord → Result Output
write_document_record output entry = do
  o1 ← write_u32_le output entry.document_id
  o2 ← write_u32_le o1 entry.path_length
  o3 ← write_u64_le o2 entry.path_offset
  o4 ← write_u64_le o3 entry.file_size
  o5 ← write_u64_le o4 entry.modified_time_bits
  o6 ← write_u32_le o5 entry.token_count
  o7 ← write_u32_le o6 entry.flags
  o8 ← write_u32_le o7 entry.content_crc32c
  write_u32_le o8 entry.reserved

unfoldable pub read_document_record : Bytes → Result (DocumentRecord × Bytes)
read_document_record input = do
  (document_id, i1) ← read_u32_le input
  (path_length, i2) ← read_u32_le i1
  (path_offset, i3) ← read_u64_le i2
  (file_size, i4) ← read_u64_le i3
  (modified_time_bits, i5) ← read_u64_le i4
  (token_count, i6) ← read_u32_le i5
  (flags, i7) ← read_u32_le i6
  (content_crc32c, i8) ← read_u32_le i7
  (reserved, i9) ← read_u32_le i8
  ok (
    record {
      document_id = document_id;
      path_length = path_length;
      path_offset = path_offset;
      file_size = file_size;
      modified_time_bits = modified_time_bits;
      token_count = token_count;
      flags = flags;
      content_crc32c = content_crc32c;
      reserved = reserved;
    },
    i9,
  )

unfoldable pub write_term_record : Output → TermRecord → Result Output
write_term_record output entry = do
  o1 ← write_u64_le output entry.term_offset
  o2 ← write_u32_le o1 entry.term_length
  o3 ← write_u32_le o2 entry.document_frequency
  o4 ← write_u64_le o3 entry.posting_offset
  write_u64_le o4 entry.posting_length

unfoldable pub read_term_record : Bytes → Result (TermRecord × Bytes)
read_term_record input = do
  (term_offset, i1) ← read_u64_le input
  (term_length, i2) ← read_u32_le i1
  (document_frequency, i3) ← read_u32_le i2
  (posting_offset, i4) ← read_u64_le i3
  (posting_length, i5) ← read_u64_le i4
  ok (
    record {
      term_offset = term_offset;
      term_length = term_length;
      document_frequency = document_frequency;
      posting_offset = posting_offset;
      posting_length = posting_length;
    },
    i5,
  )

unfoldable pub write_posting_record : Output → PostingRecord → Result Output
write_posting_record output entry = do
  o1 ← write_u32_le output entry.document_id
  o2 ← write_u32_le o1 entry.frequency
  write_u64_le o2 entry.position_offset

unfoldable pub read_posting_record : Bytes → Result (PostingRecord × Bytes)
read_posting_record input = do
  (document_id, i1) ← read_u32_le input
  (frequency, i2) ← read_u32_le i1
  (position_offset, i3) ← read_u64_le i2
  ok (
    record { document_id = document_id; frequency = frequency; position_offset = position_offset },
    i3,
  )
