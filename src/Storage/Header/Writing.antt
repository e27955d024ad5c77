-- ===== src/Storage/Header/Writing.antt =====
-- `write_header` of src/storage/index_header.cpp and the documented layout.
use mathlib.Core.Path.{subst}
use snow_seek.Prelude.{
  Bytes, List, [], ap, append-nil, append_assoc, arith, length, ok, refl, true, ℕ, ◌++◌, ◌+◌, ◌∙◌,
  ◌∷◌, ◌≡◌,
}
use snow_seek.Storage.Checksum.{crc32c}
use snow_seek.Storage.Codec.{u32_bytes}
use snow_seek.Storage.Codec.RoundTrip.{
  length-u32_bytes, memory, write_u32_le-memory, write_u32_le-took, write_u64_le-memory,
}
use snow_seek.Storage.Header.{
  IndexHeader, SectionDescriptor, index_magic, serialize_checksummed_prefix, write_fields,
  write_header, write_section, write_sections,
}
use snow_seek.Storage.Header.Checks.{IsHeader, IsHeader→validate_header}
use snow_seek.Storage.Header.Layout.{
  field_bytes, header_bytes, length-field_bytes, length-prefix_bytes, prefix_bytes, section_bytes,
  sections_bytes, tail_bytes,
}
use snow_seek.Storage.Stream.{
  Fits, Fits-front, Fits-took, Output, string_stream, took, took-took, write, write-took,
}

write_section-memory :
    (w : Bytes) (section : SectionDescriptor)
    → write_section (memory w) section ≡ ok (memory (w ++ section_bytes section))
unfolding write_section section_bytes
write_section-memory w section = simp (write_u32_le-memory, write_u64_le-memory, append_assoc)

write_sections-memory :
    (w : Bytes) (sections : List SectionDescriptor)
    → write_sections (memory w) sections ≡ ok (memory (w ++ sections_bytes sections))
unfolding write_sections sections_bytes
write_sections-memory w [] = simp append-nil
write_sections-memory w (section ∷ sections) = rw (write_section-memory w section) (
    write_sections-memory (w ++ section_bytes section) sections
    ∙ ap (λ (b : Bytes). ok (memory b))
        (append_assoc w (section_bytes section) (sections_bytes sections)))

write_fields-memory :
    (w : Bytes) (header : IndexHeader)
    → write_fields (memory w) header ≡ ok (memory (w ++ field_bytes header))
unfolding write_fields field_bytes
write_fields-memory w header =
    simp (write_u32_le-memory, write_u64_le-memory, write_sections-memory, append_assoc)

string_stream_magic : write string_stream index_magic ≡ memory index_magic
unfolding write
string_stream_magic = refl

pub serialize_checksummed_prefix_lem :
    (header : IndexHeader)
    → length header.sections ≡ 5
    → serialize_checksummed_prefix header ≡ ok (prefix_bytes header)
unfolding serialize_checksummed_prefix prefix_bytes
serialize_checksummed_prefix_lem header n =
    rw (string_stream_magic, write_fields-memory index_magic header, length-field_bytes header, n)

-- On a stream with room, a valid header is written as its 200 bytes and nothing else.
pub write_header-took :
    (out : Output) (header : IndexHeader)
    → out.good ≡ true
    → Fits out.room 200
    → IsHeader header
    → length header.sections ≡ 5
    → write_header out header ≡ ok (took out (header_bytes header))
unfolding write_header header_bytes tail_bytes
write_header-took out header g f v n =
    let p = prefix_bytes header in
    let c = u32_bytes (crc32c p) in
    let room : Fits out.room (length p + (length c + length (u32_bytes 0))) =
      subst (λ (k : ℕ). Fits out.room k)
        (omega
          (arith, length-prefix_bytes header n, length-u32_bytes (crc32c p), length-u32_bytes 0))
        f in
    let after : Fits (took out p).room (length c + length (u32_bytes 0)) = Fits-took out p _ room in
    rw
      (
        IsHeader→validate_header header v,
        serialize_checksummed_prefix_lem header n,
        write-took out p g (Fits-front out (length p) _ room),
        write_u32_le-took (took out p) (crc32c p) refl
            (Fits-front (took out p) (length c) (length (u32_bytes 0)) after),
        write_u32_le-took (took (took out p) c) 0 refl
            (Fits-took (took out p) c (length (u32_bytes 0)) after),
      )
      (ap ok (
        ap (λ (o : Output). took o (u32_bytes 0)) (took-took out p c)
        ∙ took-took out (p ++ c) (u32_bytes 0)
        ∙ ap (took out) (append_assoc p c (u32_bytes 0))))
