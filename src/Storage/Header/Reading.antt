-- ===== src/Storage/Header/Reading.antt =====
-- `read_header` of src/storage/index_header.cpp on the documented layout.
use mathlib.Core.Path.{subst}
use snow_seek.Prelude.{
  All, Bytes, IsU32, List, [], append_assoc, arith, drop, drop-append, eq→==, false, length,
  length-append, ltb, ok, refl, take, take-append, ℕ, ◌++◌, ◌∷◌, ◌≡◌,
}
use snow_seek.Storage.Checksum.{crc32c}
use snow_seek.Storage.Checksum.Chunks.{crc32c-IsU32}
use snow_seek.Storage.Codec.{read_u32_le, u32_bytes}
use snow_seek.Storage.Codec.RoundTrip.{read_u32_le-u32_bytes, read_u64_le-u64_bytes}
use snow_seek.Storage.Header.{
  IndexHeader, SectionDescriptor, read_fields, read_header, read_header_bytes, read_magic,
  read_section, read_sections,
}
use snow_seek.Storage.Header.Checks.{IsHeader, IsHeader→validate_header}
use snow_seek.Storage.Header.Layout.{
  Fields, SectionFits, field_bytes, header_bytes, length-header_bytes, length-prefix_bytes,
  prefix_bytes, prefix_bytes-IsByte, section_bytes, sections_bytes, tail_bytes,
}

zero_fits : IsU32 0
zero_fits = omega arith

read_section-section_bytes :
    (section : SectionDescriptor) (rest : Bytes)
    → SectionFits section
    → read_section (section_bytes section ++ rest) ≡ ok (section, rest)
unfolding read_section section_bytes
read_section-section_bytes section rest h = simp (
  append_assoc,
  read_u32_le-u32_bytes section.kind _ h.0,
  read_u32_le-u32_bytes 0 _ (zero_fits),
  read_u64_le-u64_bytes section.offset _ h.1,
  read_u64_le-u64_bytes section.length _ h.2,
  read_u32_le-u32_bytes section.checksum _ h.3,
)

read_sections-sections_bytes :
    (sections : List SectionDescriptor) (rest : Bytes)
    → All SectionFits sections
    → read_sections (length sections) (sections_bytes sections ++ rest) ≡ ok (sections, rest)
unfolding read_sections sections_bytes
read_sections-sections_bytes [] rest h = refl
read_sections-sections_bytes (section ∷ sections) rest h = rw (
  append_assoc (section_bytes section) (sections_bytes sections) rest,
  read_section-section_bytes section (sections_bytes sections ++ rest) h.0,
  read_sections-sections_bytes sections rest h.1,
)

read_header_bytes-append :
    (bytes rest : Bytes) → length bytes ≡ 200 → read_header_bytes (bytes ++ rest) ≡ ok (bytes, rest)
unfolding read_header_bytes
read_header_bytes-append bytes rest n =
    let enough : ltb (length (bytes ++ rest)) 200 ≡ false =
      ground (arith, length-append bytes rest) in
    let front : take 200 (bytes ++ rest) ≡ bytes = rw (← n) (take-append bytes rest) in
    let back : drop 200 (bytes ++ rest) ≡ rest = rw (← n) (drop-append bytes rest) in
    rw (enough, front, back)

take-header_bytes :
    (header : IndexHeader)
    → length header.sections ≡ 5
    → take 192 (header_bytes header) ≡ prefix_bytes header
unfolding header_bytes
take-header_bytes header n =
    subst (λ (k : ℕ). take k (prefix_bytes header ++ tail_bytes header) ≡ prefix_bytes header)
      (length-prefix_bytes header n) (take-append (prefix_bytes header) (tail_bytes header))

read_magic-header_bytes :
    (header : IndexHeader)
    → read_magic (header_bytes header) ≡ ok (field_bytes header ++ tail_bytes header)
unfolding read_magic header_bytes prefix_bytes
read_magic-header_bytes header = refl

size_fits : IsU32 200
size_fits = omega arith

count_fits : IsU32 5
count_fits = omega arith

read_five :
    (sections : List SectionDescriptor) (rest : Bytes)
    → length sections ≡ 5
    → All SectionFits sections
    → read_sections 5 (sections_bytes sections ++ rest) ≡ ok (sections, rest)
read_five sections rest n h = rw (← n) (read_sections-sections_bytes sections rest h)

read_last_zero : read_u32_le (u32_bytes 0) ≡ ok (0, [])
unfolding read_u32_le u32_bytes
read_last_zero = refl

read_fields-field_bytes :
    (bytes : Bytes) (header : IndexHeader)
    → Fields header
    → take 192 bytes ≡ prefix_bytes header
    → read_fields bytes (field_bytes header ++ tail_bytes header) ≡ ok header
unfolding read_fields field_bytes tail_bytes
read_fields-field_bytes bytes header f e = simp (
  append_assoc,
  read_u32_le-u32_bytes header.version _ f.version_fits,
  read_u32_le-u32_bytes header.feature_flags _ f.flags_fit,
  read_u32_le-u32_bytes 200 _ size_fits,
  read_u32_le-u32_bytes 5 _ count_fits,
  read_u64_le-u64_bytes header.file_size _ f.file_size_fits,
  read_five header.sections _ f.five f.sections_fit,
  read_u32_le-u32_bytes (crc32c (prefix_bytes header)) _
      (crc32c-IsU32 (prefix_bytes header) (prefix_bytes-IsByte header)),
  read_last_zero,
  e,
  eq→== (crc32c (prefix_bytes header)) (crc32c (prefix_bytes header)) refl,
)

-- A valid header whose values fit their fields is read back from its 200 bytes, and what follows
-- them is left unread.
pub read_header-header_bytes :
    (header : IndexHeader) (rest : Bytes)
    → Fields header
    → IsHeader header
    → read_header (header_bytes header ++ rest) ≡ ok (header, rest)
unfolding read_header
read_header-header_bytes header rest f v = rw (
  read_header_bytes-append (header_bytes header) rest (length-header_bytes header f.five),
  read_magic-header_bytes header,
  read_fields-field_bytes (header_bytes header) header f (take-header_bytes header f.five),
  IsHeader→validate_header header v,
)
