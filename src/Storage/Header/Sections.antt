-- ===== src/Storage/Header/Sections.antt =====
-- The descriptors that `read_header` of src/storage/index_header.cpp accepts.
use snow_seek.Prelude.{
  >>=-eq-ok, All, Bytes, IsByte, List, [], append_assoc, arith, length, ok, suc, zero, ℕ, ◌++◌, ◌∷◌,
  ◌≡◌,
}
use snow_seek.Storage.Codec.RoundTrip.{TookU32, TookU64, read_u32_then, read_u64_then}
use snow_seek.Storage.Header.{SectionDescriptor, read_section, read_sections}
use snow_seek.Storage.Header.Layout.{SectionFits, section_bytes, sections_bytes}

-- A section that was read, with what stood before it.
pub record TookSection (bytes : Bytes) (section : SectionDescriptor) (rest : Bytes) : Type 0 where
  pub input_is : bytes ≡ section_bytes section ++ rest
  pub fits : SectionFits section
  pub rest_bytes : All IsByte rest

-- The descriptors that were read, with what stood before them.
pub record TookSections (n : ℕ) (bytes : Bytes) (sections : List SectionDescriptor) (rest : Bytes)
    : Type 0 where
  pub input_is : bytes ≡ sections_bytes sections ++ rest
  pub count : length sections ≡ n
  pub fits : All SectionFits sections
  pub rest_bytes : All IsByte rest

joined :
    (kind flags offset size checksum reserved : ℕ) (bytes i1 i2 i3 i4 i5 i6 : Bytes)
    → TookU32 bytes kind i1
    → TookU32 i1 flags i2
    → TookU64 i2 offset i3
    → TookU64 i3 size i4
    → TookU32 i4 checksum i5
    → TookU32 i5 reserved i6
    → (section : SectionDescriptor) (rest : Bytes)
    → (flags ≡ 0)
      × (reserved ≡ 0)
      × (section ≡ record { kind = kind; offset = offset; length = size; checksum = checksum })
      × (rest ≡ i6)
    → TookSection bytes section rest
unfolding section_bytes
joined kind flags offset size checksum reserved bytes i1 i2 i3 i4 i5 i6 t1 t2 t3 t4 t5 t6 section
      rest (ef, er, es, ei) =
    record {
      input_is = simp (
        t1.input_is, t2.input_is, t3.input_is, t4.input_is, t5.input_is, t6.input_is, ef, er, es,
        ei, append_assoc,
      );
      fits = ground (arith, t1.in_range, t3.in_range, t4.in_range, t5.in_range);
      rest_bytes = rw ei t6.rest_bytes;
    }

joined_sections :
    (n : ℕ) (bytes i1 i2 : Bytes) (section : SectionDescriptor) (more : List SectionDescriptor)
    → TookSection bytes section i1
    → TookSections n i1 more i2
    → (sections : List SectionDescriptor) (rest : Bytes) → (sections ≡ section ∷ more) × (rest ≡ i2)
    → TookSections (suc n) bytes sections rest
unfolding sections_bytes
joined_sections n bytes i1 i2 section more t1 t2 sections rest (es, ei) = record {
  input_is = simp (t1.input_is, t2.input_is, es, ei, append_assoc);
  count = rw es (omega (arith, t2.count));
  fits = rw es (t1.fits, t2.fits);
  rest_bytes = rw ei t2.rest_bytes;
}

read_section-TookSection :
    (bytes rest : Bytes) (section : SectionDescriptor)
    → All IsByte bytes
    → read_section bytes ≡ ok (section, rest)
    → TookSection bytes section rest
unfolding read_section
read_section-TookSection bytes rest section h e = read_u32_then bytes _ h e λ kind i1 t1 e1.
    read_u32_then i1 _ t1.rest_bytes e1 λ flags i2 t2 e2.
      read_u64_then i2 _ t2.rest_bytes e2 λ offset i3 t3 e3.
        read_u64_then i3 _ t3.rest_bytes e3 λ size i4 t4 e4.
          read_u32_then i4 _ t4.rest_bytes e4 λ checksum i5 t5 e5.
            read_u32_then i5 _ t5.rest_bytes e5 λ reserved i6 t6 e6.
              joined kind flags offset size checksum reserved bytes i1 i2 i3 i4 i5 i6 t1 t2 t3 t4 t5
                t6 section rest (ground (arith, e6))

pub read_sections-TookSections :
    (n : ℕ) (bytes rest : Bytes) (sections : List SectionDescriptor)
    → All IsByte bytes
    → read_sections n bytes ≡ ok (sections, rest)
    → TookSections n bytes sections rest
unfolding read_sections sections_bytes
read_sections-TookSections zero bytes rest sections h e =
    let p : (sections ≡ []) × (bytes ≡ rest) = ground arith in
    record { input_is = rw p.0 p.1; count = rw p.0; fits = rw p.0 tt; rest_bytes = rw (← p.1) h }
read_sections-TookSections (suc n) bytes rest sections h e =
    let ((section, i1), e1, r1) = >>=-eq-ok (read_section bytes) _ e in
    let t1 = read_section-TookSection bytes i1 section h e1 in
    let ((more, i2), e2, r2) = >>=-eq-ok (read_sections n i1) _ r1 in
    let t2 = read_sections-TookSections n i1 i2 more t1.rest_bytes e2 in
    joined_sections n bytes i1 i2 section more t1 t2 sections rest (ground (arith, r2))
