-- ===== src/Storage/Header.antt =====
-- src/storage/index_header.cpp and .hpp: the 200-byte Segment header. A section's kind is the number
-- of its enumerator, since `read_header` casts any u32 to the enumeration before it is checked. The
-- array of five descriptors is a list, which the theorems take to have five.
pub mod Checks
pub mod Layout
pub mod Writing
pub mod Reading
pub mod Sections
pub mod Canonical
use snow_seek.Prelude.{
  Bytes, Error, List, Result, [], bytes_eq, drop, length, ltb, not, ok, suc, take, throw, throw_if,
  zero, ℕ, ◌%◌, ◌&&◌, ◌+◌, ◌-◌, ◌/◌, ◌==◌, ◌>>=◌, ◌>>◌, ◌||◌, ◌∷◌,
}
use snow_seek.Storage.Checksum.{crc32c}
use snow_seek.Storage.Codec.{read_u32_le, read_u64_le, write_u32_le, write_u64_le}
use snow_seek.Storage.Stream.{Output, string_stream, write}

abbrev pub index_magic : Bytes
index_magic = b'S' ∷ b'N' ∷ b'O' ∷ b'W' ∷ b'S' ∷ b'E' ∷ b'E' ∷ b'K' ∷ []

abbrev pub legacy_index_format_version : ℕ
legacy_index_format_version = 1

abbrev pub index_format_version : ℕ
index_format_version = 2

abbrev pub index_header_size : ℕ
index_header_size = 200

abbrev pub index_section_count : ℕ
index_section_count = 5

abbrev pub checksummed_header_size : ℕ
checksummed_header_size = 192

-- `kIndexSectionOrder`: documents, paths, terms, postings, positions.
abbrev pub index_section_order : List ℕ
index_section_order = 1 ∷ 2 ∷ 3 ∷ 4 ∷ 5 ∷ []

abbrev pub max_u64 : ℕ
max_u64 = 0xffffffffffffffff

pub record SectionDescriptor : Type 0 where
  pub kind : ℕ
  pub offset : ℕ
  pub length : ℕ
  pub checksum : ℕ

pub record IndexHeader : Type 0 where
  pub version : ℕ
  pub feature_flags : ℕ
  pub file_size : ℕ
  pub sections : List SectionDescriptor

-- One round of the loop of `validate_header`: the next expected offset. `max - offset` is of u64s
-- and cannot wrap.
unfoldable pub validate_section : ℕ → ℕ → SectionDescriptor → Result ℕ
validate_section kind expected_offset section = do
  throw_if (not (section.kind == kind))
      (Error.runtime_error "index sections are missing or out of order")
  throw_if (not (section.offset == expected_offset))
      (Error.runtime_error "index sections are not packed contiguously")
  throw_if (ltb (max_u64 - section.offset) section.length)
      (Error.runtime_error "index section boundary overflows uint64_t")
  throw_if (section.length == 0 && not (section.checksum == 0))
      (Error.runtime_error "empty index section has a nonzero checksum")
  ok (section.offset + section.length)

-- The loop, along the expected kinds; an array of another length than five does not occur.
unfoldable pub validate_sections : List ℕ → ℕ → List SectionDescriptor → Result ℕ
validate_sections order expected_offset [] = ok expected_offset
validate_sections [] expected_offset (section ∷ sections) = throw Error.out_of_fuel
validate_sections (kind ∷ order) expected_offset (section ∷ sections) = do
  next ← validate_section kind expected_offset section
  validate_sections order next sections

-- `header.sections.back().length`.
unfoldable pub last_length : List SectionDescriptor → ℕ
last_length [] = 0
last_length (section ∷ []) = section.length
last_length (section ∷ next ∷ sections) = last_length (next ∷ sections)

-- `flags & ~kSupportedFeatureFlags` is nonzero when `flags / 2` is; `flags & kFeaturePositions` is
-- `flags % 2`.
unfoldable pub validate_header : IndexHeader → Result (Unit {0})
validate_header header = do
  throw_if (header.version == legacy_index_format_version)
      (Error.runtime_error "Segment v1 is no longer supported; rebuild the index")
  throw_if (not (header.version == index_format_version))
      (Error.runtime_error "unsupported index format version")
  throw_if (not (header.feature_flags / 2 == 0))
      (Error.runtime_error "unsupported index feature flags")
  throw_if (ltb header.file_size index_header_size)
      (Error.runtime_error "index file is smaller than header")
  expected_offset ← validate_sections index_section_order index_header_size header.sections
  throw_if (header.feature_flags % 2 == 0 && not (last_length header.sections == 0))
      (Error.runtime_error "positions section requires the positions feature")
  throw_if (not (expected_offset == header.file_size))
      (Error.runtime_error "index file size does not match section directory")

-- The body of the loop that writes one descriptor.
unfoldable pub write_section : Output → SectionDescriptor → Result Output
write_section out section = do
  o1 ← write_u32_le out section.kind
  o2 ← write_u32_le o1 0
  o3 ← write_u64_le o2 section.offset
  o4 ← write_u64_le o3 section.length
  o5 ← write_u32_le o4 section.checksum
  write_u32_le o5 0

unfoldable pub write_sections : Output → List SectionDescriptor → Result Output
write_sections out [] = ok out
write_sections out (section ∷ sections) = do
  next ← write_section out section
  write_sections next sections

-- The writes of `serialize_checksummed_prefix` after the magic.
unfoldable pub write_fields : Output → IndexHeader → Result Output
write_fields encoded header = do
  o1 ← write_u32_le encoded header.version
  o2 ← write_u32_le o1 header.feature_flags
  o3 ← write_u32_le o2 index_header_size
  o4 ← write_u32_le o3 index_section_count
  o5 ← write_u64_le o4 header.file_size
  write_sections o5 header.sections

unfoldable pub serialize_checksummed_prefix : IndexHeader → Result Bytes
serialize_checksummed_prefix header = do
  encoded ← write_fields (write string_stream index_magic) header
  throw_if (not (length encoded.written == checksummed_header_size))
      (Error.runtime_error "internal index header size mismatch")
  ok encoded.written

unfoldable pub write_header : Output → IndexHeader → Result Output
write_header output header = do
  validate_header header
  prefix ← serialize_checksummed_prefix header
  let o1 = write output prefix
  o2 ← write_u32_le o1 (crc32c prefix)
  o3 ← write_u32_le o2 0
  throw_if (not o3.good) (Error.runtime_error "failed to write index header")
  ok o3

-- The body of the loop that reads one descriptor.
unfoldable pub read_section : Bytes → Result (SectionDescriptor × Bytes)
read_section encoded = do
  (kind, i1) ← read_u32_le encoded
  (section_flags, i2) ← read_u32_le i1
  (offset, i3) ← read_u64_le i2
  (size, i4) ← read_u64_le i3
  (checksum, i5) ← read_u32_le i4
  (section_reserved, i6) ← read_u32_le i5
  throw_if (not (section_flags == 0) || not (section_reserved == 0))
      (Error.runtime_error "index section reserved field is nonzero")
  ok (record { kind = kind; offset = offset; length = size; checksum = checksum }, i6)

unfoldable pub read_sections : ℕ → Bytes → Result (List SectionDescriptor × Bytes)
read_sections zero encoded = ok ([], encoded)
read_sections (suc n) encoded = do
  (section, i1) ← read_section encoded
  (sections, i2) ← read_sections n i1
  ok (section ∷ sections, i2)

-- The first read of `read_header`: 200 bytes, and the rest of the input.
unfoldable pub read_header_bytes : Bytes → Result (Bytes × Bytes)
read_header_bytes input = do
  throw_if (ltb (length input) index_header_size) (Error.runtime_error "truncated index header")
  ok (take index_header_size input, drop index_header_size input)

unfoldable pub read_magic : Bytes → Result Bytes
read_magic encoded = do
  throw_if (not (bytes_eq (take 8 encoded) index_magic))
      (Error.runtime_error "invalid SnowSeek index magic")
  ok (drop 8 encoded)

-- `read_header` between the magic and `validate_header`; `bytes` is the whole header.
unfoldable pub read_fields : Bytes → Bytes → Result IndexHeader
read_fields bytes i0 = do
  (version, i1) ← read_u32_le i0
  (feature_flags, i2) ← read_u32_le i1
  (header_size, i3) ← read_u32_le i2
  (section_count, i4) ← read_u32_le i3
  (file_size, i5) ← read_u64_le i4
  throw_if (not (header_size == index_header_size))
      (Error.runtime_error "unsupported index header size")
  throw_if (not (section_count == index_section_count))
      (Error.runtime_error "unsupported index section count")
  (sections, i6) ← read_sections index_section_count i5
  (stored_checksum, i7) ← read_u32_le i6
  (header_reserved, i8) ← read_u32_le i7
  throw_if (not (header_reserved == 0))
      (Error.runtime_error "index header reserved field is nonzero")
  throw_if (not (stored_checksum == crc32c (take checksummed_header_size bytes)))
      (Error.runtime_error "index header checksum mismatch")
  ok (record {
    version = version;
    feature_flags = feature_flags;
    file_size = file_size;
    sections = sections;
  })

-- The header and the input that follows it.
unfoldable pub read_header : Bytes → Result (IndexHeader × Bytes)
read_header input = do
  (bytes, rest) ← read_header_bytes input
  i0 ← read_magic bytes
  header ← read_fields bytes i0
  validate_header header
  ok (header, rest)
