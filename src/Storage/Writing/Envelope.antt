-- ===== src/Storage/Writing/Envelope.antt =====
-- A file of src/storage/index_file.cpp before `read_validated_header` of
-- src/storage/index_validation.cpp.
use mathlib.Core.Path.{subst}
use snow_seek.Prelude.{
  All, Bool, Bytes, IsByte, List, [], ap, append-nil, arith, drop, drop-append, eq→==, length,
  length-append, ok, refl, some, sym, true, ℕ, ◌++◌, ◌+◌, ◌==◌, ◌∙◌, ◌∷◌, ◌≡◌, ◌≤◌,
}
use snow_seek.Storage.Checksum.{crc32c}
use snow_seek.Storage.Checksum.Chunks.{crc32c-IsU32}
use snow_seek.Storage.File.{max_stream_offset, open_input}
use snow_seek.Storage.Header.{IndexHeader, SectionDescriptor, index_section_order}
use snow_seek.Storage.Header.Checks.{IsHeader}
use snow_seek.Storage.Header.Layout.{Fields, header_bytes, length-header_bytes}
use snow_seek.Storage.Header.Reading.{read_header-header_bytes}
use snow_seek.Storage.Records.{descriptor_of, section}
use snow_seek.Storage.Validation.Envelope.{read_validated_header, validate_checksums}
use snow_seek.Storage.Writing.Placing.{
  descriptor_at, descriptors_at, header_of, validate_checksum-IsPlaced,
}
use snow_seek.Storage.Writing.Restored.{StandsAt, StandsAt-back, StandsAt-front}
use snow_seek.Storage.Writing.RoundTrip.{IsPlaced}
use snow_seek.Storage.Writing.Streams.{All-joined, All-split, joined}

-- Every section stands where its descriptor says, with its checksum.
abbrev pub AllPlaced : Bytes → List Bytes → List SectionDescriptor → Type 0
AllPlaced content [] [] = Unit {0}
AllPlaced content [] (descriptor ∷ descriptors) = ⊥
AllPlaced content (section ∷ sections) [] = ⊥
AllPlaced content (section ∷ sections) (descriptor ∷ descriptors) =
    IsPlaced content descriptor section
    × (descriptor.checksum ≡ crc32c section)
    × AllPlaced content sections descriptors

descriptors_at-AllPlaced :
    (content : Bytes) (offset : ℕ) (kinds : List ℕ) (sections : List Bytes)
    → length kinds ≡ length sections
    → offset + length (joined sections) ≤ max_stream_offset
    → StandsAt content offset (joined sections)
    → AllPlaced content sections (descriptors_at offset kinds sections)
descriptors_at-AllPlaced content offset [] [] same reach stands = tt
descriptors_at-AllPlaced content offset [] (section ∷ sections) same reach stands =
    absurd (omega arith)
descriptors_at-AllPlaced content offset (kind ∷ kinds) [] same reach stands = absurd (omega arith)
descriptors_at-AllPlaced content offset (kind ∷ kinds) (section ∷ sections) same reach stands =
    let whole = length-append section (joined sections) in
    (
      (
        refl,
        omega (arith, reach, whole),
        StandsAt-front content offset section (joined sections) stands,
      ),
      refl,
      descriptors_at-AllPlaced content (offset + length section) kinds sections (omega arith)
          (omega (arith, reach, whole))
          (StandsAt-back content offset section (joined sections) stands),
    )

module _ (a b c d e : Bytes) (stores_positions : Bool) where
  abbrev pub five_sections : List Bytes
  five_sections = a ∷ b ∷ c ∷ d ∷ e ∷ []

  abbrev pub file_header : IndexHeader
  file_header = header_of stores_positions five_sections

  abbrev pub file_content : Bytes
  file_content = header_bytes file_header ++ joined five_sections

  file_content-StandsAt : StandsAt file_content 200 (joined five_sections)
  file_content-StandsAt = (
    [],
    subst (λ (n : ℕ). drop n file_content ≡ joined five_sections)
          (length-header_bytes file_header refl)
          (drop-append (header_bytes file_header) (joined five_sections))
        ∙ sym (append-nil (joined five_sections)),
  )

  pub file_content-AllPlaced :
      file_header.file_size ≤ max_stream_offset
      → AllPlaced file_content five_sections file_header.sections
  file_content-AllPlaced reach =
      descriptors_at-AllPlaced file_content 200 index_section_order five_sections refl reach
        file_content-StandsAt

  file_header-Fields :
      file_header.file_size ≤ max_stream_offset → All IsByte file_content → Fields file_header
  file_header-Fields reach bytes =
      let (all_a, (all_b, (all_c, (all_d, (all_e, nothing))))) =
        All-joined five_sections
          (All-split IsByte (header_bytes file_header) (joined five_sections) bytes).1 in
      let crc_a = crc32c-IsU32 a all_a in
      let crc_b = crc32c-IsU32 b all_b in
      let crc_c = crc32c-IsU32 c all_c in
      let crc_d = crc32c-IsU32 d all_d in
      let crc_e = crc32c-IsU32 e all_e in
      let la = length-append a (joined (b ∷ c ∷ d ∷ e ∷ [])) in
      let lb = length-append b (joined (c ∷ d ∷ e ∷ [])) in
      let lc = length-append c (joined (d ∷ e ∷ [])) in
      let ld = length-append d (joined (e ∷ [])) in
      let le = length-append e [] in
      record {
        version_fits = omega arith;
        flags_fit = ground arith;
        file_size_fits = omega (arith, reach);
        five = refl;
        sections_fit = omega (arith, reach, la, lb, lc, ld, le, crc_a, crc_b, crc_c, crc_d, crc_e);
      }

  validate_checksums-ok :
      file_header.file_size ≤ max_stream_offset
      → All IsByte file_content
      → validate_checksums file_content file_header index_section_order ≡ ok tt
  unfolding validate_checksums section descriptor_of
  validate_checksums-ok reach bytes =
      let (pa, ca, (pb, cb, (pc, c_c, (pd, cd, (pe, ce, nothing))))) =
        file_content-AllPlaced reach in
      rw
        (
          validate_checksum-IsPlaced file_content a (descriptor_at 200 1 a) bytes pa ca,
          validate_checksum-IsPlaced file_content b (descriptor_at (200 + length a) 2 b) bytes pb
              cb,
          validate_checksum-IsPlaced file_content c
              (descriptor_at ((200 + length a) + length b) 3 c) bytes pc c_c,
          validate_checksum-IsPlaced file_content d
              (descriptor_at (((200 + length a) + length b) + length c) 4 d) bytes pd cd,
          validate_checksum-IsPlaced file_content e
              (descriptor_at ((((200 + length a) + length b) + length c) + length d) 5 e) bytes pe
              ce,
        )
        refl

  pub read_validated_header-file_content :
      IsHeader file_header
      → file_header.file_size ≤ max_stream_offset
      → All IsByte file_content
      → read_validated_header (some file_content) ≡ ok file_header
  unfolding read_validated_header open_input
  read_validated_header-file_content v reach bytes =
      let size : length file_content ≡ file_header.file_size =
        length-append (header_bytes file_header) (joined five_sections)
        ∙ ap (λ (n : ℕ). n + length (joined five_sections))
            (length-header_bytes file_header refl) in
      let sized : length file_content == file_header.file_size ≡ true = eq→== _ _ size in
      rw
        (
          read_header-header_bytes file_header (joined five_sections)
              (file_header-Fields reach bytes) v,
          sized,
          validate_checksums-ok reach bytes,
        )
        refl
