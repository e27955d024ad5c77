-- ===== src/Storage/Manifest.antt =====
-- src/storage/index_manifest.cpp and .hpp: the Manifest, which names the active Segments. Its bytes
-- are a 64-byte header and a payload of 8 bytes for each SegmentId. `read_manifest_file` reads a
-- file and passes its bytes on to `decode_manifest`.
pub mod Checks
pub mod Layout
pub mod Decoding
use snow_seek.Prelude.{
  Bytes, Error, List, Result, [], bytes_eq, drop, is_empty, leb, length, ltb, not, ok, suc, take,
  throw_if, zero, ℕ, ◌%◌, ◌*◌, ◌++◌, ◌+◌, ◌==◌, ◌>>=◌, ◌>>◌, ◌^◌, ◌||◌, ◌∷◌,
}
use snow_seek.Storage.Checksum.{crc32c}
use snow_seek.Storage.Codec.{read_u32_le, read_u64_le, write_u32_le, write_u64_le}
use snow_seek.Storage.Stream.{Output, string_stream, write}

abbrev pub manifest_magic : Bytes
manifest_magic = b'S' ∷ b'N' ∷ b'O' ∷ b'W' ∷ b'M' ∷ b'N' ∷ b'F' ∷ b'T' ∷ []

abbrev pub manifest_format_version : ℕ
manifest_format_version = 1

abbrev pub manifest_header_size : ℕ
manifest_header_size = 64

abbrev pub checksummed_header_size : ℕ
checksummed_header_size = 52

abbrev pub manifest_flags : ℕ
manifest_flags = 0

abbrev pub max_u32 : ℕ
max_u32 = 0xffffffff

pub record IndexManifest : Type 0 where
  pub generation : ℕ
  pub next_segment_id : ℕ
  pub active_segments : List ℕ

-- The loop over the SegmentIds.
unfoldable pub validate_ids : ℕ → List ℕ → Result (Unit {0})
validate_ids previous [] = ok tt
validate_ids previous (segment ∷ segments) = do
  throw_if (segment == 0 || leb segment previous)
      (Error.runtime_error "Manifest SegmentIds must be nonzero and strictly increasing")
  validate_ids segment segments

-- `active_segments.back()` of a list that is not empty.
unfoldable pub back : List ℕ → ℕ
back [] = 0
back (segment ∷ []) = segment
back (segment ∷ next ∷ segments) = back (next ∷ segments)

unfoldable pub validate_manifest : IndexManifest → Result (Unit {0})
validate_manifest manifest = do
  throw_if (manifest.generation == 0) (Error.runtime_error "manifest generation must be nonzero")
  throw_if (is_empty manifest.active_segments || ltb max_u32 (length manifest.active_segments))
      (Error.runtime_error "Manifest requires a representable nonempty Segment list")
  validate_ids 0 manifest.active_segments
  throw_if (leb manifest.next_segment_id (back manifest.active_segments))
      (Error.runtime_error "manifest next SegmentId must exceed active SegmentIds")

-- The writes of `encode_header_prefix` after the magic.
unfoldable pub write_fields : Output → IndexManifest → ℕ → ℕ → Result Output
write_fields output manifest payload_length payload_checksum = do
  o1 ← write_u32_le output manifest_format_version
  o2 ← write_u32_le o1 manifest_flags
  o3 ← write_u32_le o2 manifest_header_size
  o4 ← write_u32_le o3 (length manifest.active_segments % 2 ^ 32)
  o5 ← write_u64_le o4 manifest.generation
  o6 ← write_u64_le o5 manifest.next_segment_id
  o7 ← write_u64_le o6 payload_length
  write_u32_le o7 payload_checksum

unfoldable pub encode_header_prefix : IndexManifest → ℕ → ℕ → Result Bytes
encode_header_prefix manifest payload_length payload_checksum = do
  output ←
      write_fields (write string_stream manifest_magic) manifest payload_length payload_checksum
  throw_if (not (length output.written == checksummed_header_size))
      (Error.runtime_error "internal Manifest header size mismatch")
  ok output.written

unfoldable pub write_payload : Output → List ℕ → Result Output
write_payload output [] = ok output
write_payload output (segment ∷ segments) = do
  next ← write_u64_le output segment
  write_payload next segments

unfoldable pub write_suffix : Bytes → Result Output
write_suffix prefix = do suffix ← write_u32_le string_stream (crc32c prefix); write_u64_le suffix 0

unfoldable pub encode_manifest : IndexManifest → Result Bytes
encode_manifest manifest = do
  validate_manifest manifest
  payload_stream ← write_payload string_stream manifest.active_segments
  let payload = payload_stream.written
  prefix ← encode_header_prefix manifest (length payload) (crc32c payload)
  suffix ← write_suffix prefix
  let bytes = prefix ++ (suffix.written ++ payload)
  throw_if (not (length bytes == manifest_header_size + length payload))
      (Error.runtime_error "internal Manifest size mismatch")
  ok bytes

-- The fixed fields in the order in which they are read.
pub record FixedFields : Type 0 where
  pub version : ℕ
  pub flags : ℕ
  pub header_size : ℕ
  pub active_count : ℕ
  pub generation : ℕ
  pub next_segment_id : ℕ
  pub payload_length : ℕ
  pub payload_checksum : ℕ
  pub header_checksum : ℕ
  pub reserved : ℕ

unfoldable pub read_fixed_fields : Bytes → Result (FixedFields × Bytes)
read_fixed_fields input = do
  (version, i1) ← read_u32_le input
  (flags, i2) ← read_u32_le i1
  (header_size, i3) ← read_u32_le i2
  (active_count, i4) ← read_u32_le i3
  (generation, i5) ← read_u64_le i4
  (next_segment_id, i6) ← read_u64_le i5
  (payload_length, i7) ← read_u64_le i6
  (payload_checksum, i8) ← read_u32_le i7
  (header_checksum, i9) ← read_u32_le i8
  (reserved, i10) ← read_u64_le i9
  ok (
    record {
      version = version;
      flags = flags;
      header_size = header_size;
      active_count = active_count;
      generation = generation;
      next_segment_id = next_segment_id;
      payload_length = payload_length;
      payload_checksum = payload_checksum;
      header_checksum = header_checksum;
      reserved = reserved;
    },
    i10,
  )

-- The loop over `active_count`.
unfoldable pub read_payload : ℕ → Bytes → Result (List ℕ × Bytes)
read_payload zero input = ok ([], input)
read_payload (suc n) input = do
  (segment, i1) ← read_u64_le input
  (segments, i2) ← read_payload n i1
  ok (segment ∷ segments, i2)

-- The checks between the fixed fields and the payload. The product is of a u32 by 8 in 64 bits, and
-- the sum of 64 and a length that equals it: neither wraps.
unfoldable pub check_fields : FixedFields → Bytes → Result (Unit {0})
check_fields f bytes = do
  throw_if (not (f.version == manifest_format_version))
      (Error.runtime_error "unsupported Manifest version")
  throw_if (not (f.flags == 0) || not (f.reserved == 0))
      (Error.runtime_error "Manifest reserved field is nonzero")
  throw_if (not (f.header_size == manifest_header_size))
      (Error.runtime_error "unsupported Manifest header size")
  throw_if (f.active_count == 0)
      (Error.runtime_error "Manifest requires at least one active Segment")
  throw_if (not (f.payload_length == f.active_count * 8))
      (Error.runtime_error "Manifest payload length is inconsistent")
  throw_if (not (length bytes == manifest_header_size + f.payload_length))
      (Error.runtime_error "Manifest file length is inconsistent")
  throw_if (not (crc32c (take checksummed_header_size bytes) == f.header_checksum))
      (Error.runtime_error "Manifest header checksum mismatch")
  throw_if (not (crc32c (drop manifest_header_size bytes) == f.payload_checksum))
      (Error.runtime_error "Manifest payload checksum mismatch")

unfoldable pub read_magic : Bytes → Result Bytes
read_magic input = do
  throw_if (not (bytes_eq (take 8 input) manifest_magic))
      (Error.runtime_error "invalid SnowSeek Manifest magic")
  ok (drop 8 input)

abbrev pub manifest_of : FixedFields → List ℕ → IndexManifest
manifest_of f segments = record {
  generation = f.generation;
  next_segment_id = f.next_segment_id;
  active_segments = segments;
}

unfoldable pub decode_manifest : Bytes → Result IndexManifest
decode_manifest bytes = do
  throw_if (ltb (length bytes) manifest_header_size)
      (Error.runtime_error "truncated Manifest header")
  i0 ← read_magic (take manifest_header_size bytes)
  (f, left) ← read_fixed_fields i0
  check_fields f bytes
  (segments, unread) ← read_payload f.active_count (drop manifest_header_size bytes)
  validate_manifest (manifest_of f segments)
  ok (manifest_of f segments)
