-- ===== src/Storage/Header/Layout.antt =====
-- The layout of the Segment header, as docs/index-format.md describes it.
use snow_seek.Prelude.{
  All, All-append, Bytes, IsByte, IsU32, IsU64, List, [], arith, length, length-append, refl, ◌*◌,
  ◌++◌, ◌+◌, ◌∷◌, ◌≡◌,
}
use snow_seek.Storage.Checksum.{crc32c}
use snow_seek.Storage.Codec.{u32_bytes, u64_bytes}
use snow_seek.Storage.Codec.RoundTrip.{u32_bytes-IsByte, u64_bytes-IsByte}
use snow_seek.Storage.Header.{
  IndexHeader, SectionDescriptor, index_header_size, index_magic, index_section_count,
}

unfoldable pub section_bytes : SectionDescriptor → Bytes
section_bytes section =
    u32_bytes section.kind
    ++ (u32_bytes 0
        ++ (u64_bytes section.offset
            ++ (u64_bytes section.length ++ (u32_bytes section.checksum ++ u32_bytes 0))))

unfoldable pub sections_bytes : List SectionDescriptor → Bytes
sections_bytes [] = []
sections_bytes (section ∷ sections) = section_bytes section ++ sections_bytes sections

unfoldable pub field_bytes : IndexHeader → Bytes
field_bytes header =
    u32_bytes header.version
    ++ (u32_bytes header.feature_flags
        ++ (u32_bytes index_header_size
            ++ (u32_bytes index_section_count
                ++ (u64_bytes header.file_size ++ sections_bytes header.sections))))

-- The documented layout: the checksummed prefix, its checksum, and a zero.
unfoldable pub prefix_bytes : IndexHeader → Bytes
prefix_bytes header = index_magic ++ field_bytes header

unfoldable pub tail_bytes : IndexHeader → Bytes
tail_bytes header = u32_bytes (crc32c (prefix_bytes header)) ++ u32_bytes 0

unfoldable pub header_bytes : IndexHeader → Bytes
header_bytes header = prefix_bytes header ++ tail_bytes header

-- The values fit their fields.
abbrev pub SectionFits : SectionDescriptor → Type 0
SectionFits section =
    IsU32 section.kind × IsU64 section.offset × IsU64 section.length × IsU32 section.checksum

pub record Fields (header : IndexHeader) : Type 0 where
  pub version_fits : IsU32 header.version
  pub flags_fit : IsU32 header.feature_flags
  pub file_size_fits : IsU64 header.file_size
  pub five : length header.sections ≡ 5
  pub sections_fit : All SectionFits header.sections

pub length-section_bytes : (section : SectionDescriptor) → length (section_bytes section) ≡ 32
unfolding section_bytes u32_bytes u64_bytes
length-section_bytes section = refl

pub length-sections_bytes :
    (sections : List SectionDescriptor) → length (sections_bytes sections) ≡ 32 * length sections
unfolding sections_bytes
length-sections_bytes [] = refl
length-sections_bytes (section ∷ sections) = omega (
  arith,
  length-append (section_bytes section) (sections_bytes sections),
  length-section_bytes section,
  length-sections_bytes sections,
)

pub length-field_bytes :
    (header : IndexHeader) → length (field_bytes header) ≡ 24 + 32 * length header.sections
unfolding field_bytes u32_bytes u64_bytes
length-field_bytes header = omega (arith, length-sections_bytes header.sections)

pub length-prefix_bytes :
    (header : IndexHeader) → length header.sections ≡ 5 → length (prefix_bytes header) ≡ 192
unfolding prefix_bytes
length-prefix_bytes header n = omega (arith, length-field_bytes header)

pub length-tail_bytes : (header : IndexHeader) → length (tail_bytes header) ≡ 8
unfolding tail_bytes u32_bytes
length-tail_bytes header = refl

pub length-header_bytes :
    (header : IndexHeader) → length header.sections ≡ 5 → length (header_bytes header) ≡ 200
unfolding header_bytes
length-header_bytes header n = omega (
  arith,
  length-append (prefix_bytes header) (tail_bytes header),
  length-prefix_bytes header n,
  length-tail_bytes header,
)

section_bytes-IsByte : (section : SectionDescriptor) → All IsByte (section_bytes section)
unfolding section_bytes u32_bytes u64_bytes
section_bytes-IsByte section = omega arith

sections_bytes-IsByte : (sections : List SectionDescriptor) → All IsByte (sections_bytes sections)
unfolding sections_bytes
sections_bytes-IsByte [] = tt
sections_bytes-IsByte (section ∷ sections) =
    All-append IsByte (section_bytes section) (sections_bytes sections)
      (section_bytes-IsByte section) (sections_bytes-IsByte sections)

field_bytes-IsByte : (header : IndexHeader) → All IsByte (field_bytes header)
unfolding field_bytes
field_bytes-IsByte header =
    All-append IsByte (u32_bytes header.version) _ (u32_bytes-IsByte header.version) (
      All-append IsByte (u32_bytes header.feature_flags) _ (u32_bytes-IsByte header.feature_flags) (
        All-append IsByte (u32_bytes 200) _ (u32_bytes-IsByte 200) (
          All-append IsByte (u32_bytes 5) _ (u32_bytes-IsByte 5) (
            All-append IsByte (u64_bytes header.file_size) _ (u64_bytes-IsByte header.file_size)
              (sections_bytes-IsByte header.sections)))))

pub prefix_bytes-IsByte : (header : IndexHeader) → All IsByte (prefix_bytes header)
unfolding prefix_bytes
prefix_bytes-IsByte header =
    All-append IsByte index_magic (field_bytes header) (omega arith) (field_bytes-IsByte header)

pub header_bytes-IsByte : (header : IndexHeader) → All IsByte (header_bytes header)
unfolding header_bytes tail_bytes
header_bytes-IsByte header =
    All-append IsByte (prefix_bytes header)
      (u32_bytes (crc32c (prefix_bytes header)) ++ u32_bytes 0) (prefix_bytes-IsByte header)
      (All-append IsByte (u32_bytes (crc32c (prefix_bytes header))) (u32_bytes 0)
        (u32_bytes-IsByte (crc32c (prefix_bytes header))) (u32_bytes-IsByte 0))
