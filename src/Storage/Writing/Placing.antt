-- ===== src/Storage/Writing/Placing.antt =====
-- The descriptors that src/storage/index_file.cpp makes, and what stands where they say.
use mathlib.Core.Path.{subst}
use snow_seek.Arithmetic.{checked_add}
use snow_seek.Prelude.{
  All, Bool, Bytes, IsByte, List, Result, Returns, Returns->>=, Returns-then, [], ap, arith,
  bind_then, drop, eq→==, false, if◌then◌else◌, length, length-append, ltb, ok, refl, sym, take,
  take-append, true, ℕ, ◌+◌, ◌-◌, ◌<◌, ◌==◌, ◌^◌, ◌∙◌, ◌∷◌, ◌≡◌,
}
use snow_seek.Storage.Checksum.{crc32c}
use snow_seek.Storage.File.{max_stream_offset}
use snow_seek.Storage.Header.{IndexHeader, SectionDescriptor, index_section_order}
use snow_seek.Storage.Validation.Envelope.{validate_checksum}
use snow_seek.Storage.Validation.Envelope.Checksums.{
  length-drop, section_content, validate_checksum_lem,
}
use snow_seek.Storage.Writing.{make_header, place_sections}
use snow_seek.Storage.Writing.Checks.{checked_add-eq-ok}
use snow_seek.Storage.Writing.RoundTrip.{IsPlaced}
use snow_seek.Storage.Writing.Streams.{joined}

abbrev pub descriptor_at : ℕ → ℕ → Bytes → SectionDescriptor
descriptor_at offset kind section = record {
  kind = kind;
  offset = offset;
  length = length section;
  checksum = crc32c section;
}

-- The descriptors without the checks of their sums.
abbrev pub descriptors_at : ℕ → List ℕ → List Bytes → List SectionDescriptor
descriptors_at offset [] sections = []
descriptors_at offset (kind ∷ kinds) [] = []
descriptors_at offset (kind ∷ kinds) (section ∷ sections) =
    descriptor_at offset kind section ∷ descriptors_at (offset + length section) kinds sections

abbrev Placed : ℕ → List ℕ → List Bytes → List SectionDescriptor × ℕ → Type 0
Placed offset kinds sections (descriptors, size) =
    (descriptors ≡ descriptors_at offset kinds sections)
    × (size ≡ offset + length (joined sections))
    × size < 2 ^ 64

place_sections-Placed :
    (offset : ℕ) (kinds : List ℕ) (sections : List Bytes)
    → offset < 2 ^ 64
    → length kinds ≡ length sections
    → Returns (Placed offset kinds sections) (place_sections offset kinds sections)
unfolding place_sections
place_sections-Placed offset [] [] small same = (refl, omega arith, small)
place_sections-Placed offset [] (section ∷ sections) small same = absurd (omega arith)
place_sections-Placed offset (kind ∷ kinds) [] small same = absurd (omega arith)
place_sections-Placed offset (kind ∷ kinds) (section ∷ sections) small same =
    let Q = Placed offset (kind ∷ kinds) (section ∷ sections) in
    Returns-then Q (checked_add offset (length section) "index file size") _ λ next e.
      let (next_eq, fits) =
        checked_add-eq-ok offset (length section) next "index file size" small e in
      Returns->>= (Placed next kinds sections) Q (place_sections next kinds sections) _
        (place_sections-Placed next kinds sections (omega arith) (omega arith))
        λ (descriptors, size) (d_eq, size_eq, inside).
          let whole = length-append section (joined sections) in
          (
            ap (λ (ds : List SectionDescriptor). descriptor_at offset kind section ∷ ds)
                (d_eq ∙ ap (λ (n : ℕ). descriptors_at n kinds sections) next_eq),
            omega (arith, size_eq, next_eq, whole),
            inside,
          )

-- The header of five sections.
abbrev pub header_of : Bool → List Bytes → IndexHeader
header_of stores_positions sections = record {
  version = 2;
  feature_flags = if stores_positions then 1 else 0;
  file_size = 200 + length (joined sections);
  sections = descriptors_at 200 index_section_order sections;
}

header_eq : (a b : IndexHeader) → ◌≡◌ {A = Result IndexHeader} (ok a) (ok b) → a ≡ b
header_eq a b e = cc

pub make_header-header_of :
    (stores_positions : Bool) (sections : List Bytes) (header : IndexHeader)
    → length sections ≡ 5
    → make_header stores_positions sections ≡ ok header
    → (header ≡ header_of stores_positions sections) × header.file_size < 2 ^ 64
unfolding make_header
make_header-header_of stores_positions sections header five e =
    bind_then (place_sections 200 index_section_order sections) _ e
      λ (descriptors, size) placed now.
        let (d_eq, size_eq, inside) =
          subst (Returns (Placed 200 index_section_order sections)) placed (
            place_sections-Placed 200 index_section_order sections (omega arith)
              (omega (arith, five))) in
        let made : IndexHeader = record {
          version = 2;
          feature_flags = if stores_positions then 1 else 0;
          file_size = size;
          sections = descriptors;
        } in
        let same : made ≡ header = header_eq made header now in
        (
          sym same ∙ λ i. record {
            version = 2;
            feature_flags = if stores_positions then 1 else 0;
            file_size = size_eq i;
            sections = d_eq i;
          },
          subst (λ (h : IndexHeader). h.file_size < 2 ^ 64) same inside,
        )

-- A section that stands whole where its descriptor says, with its checksum, passes the check.
pub validate_checksum-IsPlaced :
    (content section : Bytes) (descriptor : SectionDescriptor)
    → All IsByte content
    → IsPlaced content descriptor section
    → descriptor.checksum ≡ crc32c section
    → validate_checksum content descriptor ≡ ok tt
validate_checksum-IsPlaced content section descriptor b (size, reach, (after, stands)) crc =
    let left = length-drop descriptor.offset content in
    let there : length (drop descriptor.offset content) ≡ length section + length after =
      ap length stands ∙ length-append section after in
    let near : ltb max_stream_offset descriptor.offset ≡ false = ground (arith, reach) in
    let whole : ltb (length content - descriptor.offset) descriptor.length ≡ false =
      ground (arith, left, there, size) in
    let taken : section_content content descriptor ≡ section =
      ap (λ (n : ℕ). take n (drop descriptor.offset content)) size
      ∙ ap (take (length section)) stands
      ∙ take-append section after in
    let same : crc32c (section_content content descriptor) == descriptor.checksum ≡ true =
      eq→== _ _ (ap crc32c taken ∙ sym crc) in
    validate_checksum_lem content descriptor b ∙ rw (near, whole, same) refl
