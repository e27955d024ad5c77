-- ===== src/Storage/Validation/Envelope.antt =====
-- src/storage/index_validation.cpp: the header, the physical size and the checksums of the sections.
-- The size that the file system answers is the number of the file's bytes.
pub mod Checksums
use snow_seek.Prelude.{
  Bytes, Error, List, Result, [], false, length, min, not, ok, suc, throw_if, true, zero, ℕ, ◌-◌,
  ◌==◌, ◌>>=◌, ◌>>◌, ◌∷◌,
}
use snow_seek.Storage.Checksum.{Crc32c, initial, update, value}
use snow_seek.Storage.File.{SegmentFile, open_input, read_exact, seek_to}
use snow_seek.Storage.Header.{IndexHeader, SectionDescriptor, index_section_order, read_header}
use snow_seek.Storage.Records.{section}

abbrev pub checksum_buffer_size : ℕ
checksum_buffer_size = 65536

-- The loop of `validate_checksum`: the checksum of the next `remaining` bytes, a buffer at a time.
-- A round takes a byte at least, so `remaining` rounds are enough.
unfoldable pub checksum_rounds : ℕ → ℕ → Crc32c → Bytes → Result Crc32c
checksum_rounds zero remaining checksum input = do
  throw_if (not (remaining == 0)) Error.out_of_fuel
  ok checksum
checksum_rounds (suc fuel) remaining checksum input = elim (remaining == 0) [
  | true ↦ ok checksum
  | false ↦ do
    (buffer, rest) ← read_exact input (min remaining checksum_buffer_size)
    checksum_rounds fuel (remaining - min remaining checksum_buffer_size) (update checksum buffer)
        rest
]

unfoldable pub validate_checksum : Bytes → SectionDescriptor → Result (Unit {0})
validate_checksum content descriptor = do
  input ← seek_to content descriptor.offset
  checksum ← checksum_rounds descriptor.length descriptor.length initial input
  throw_if (not (value checksum == descriptor.checksum))
      (Error.runtime_error "index section checksum mismatch")

-- The loop over `kIndexSectionOrder`.
unfoldable pub validate_checksums : Bytes → IndexHeader → List ℕ → Result (Unit {0})
validate_checksums content header [] = ok tt
validate_checksums content header (kind ∷ kinds) = do
  descriptor ← section header kind
  validate_checksum content descriptor
  validate_checksums content header kinds

unfoldable pub read_validated_header : SegmentFile → Result IndexHeader
read_validated_header file = do
  content ← open_input file
  (header, rest) ← read_header content
  throw_if (not (length content == header.file_size))
      (Error.runtime_error "index file size does not match header")
  validate_checksums content header index_section_order
  ok header
