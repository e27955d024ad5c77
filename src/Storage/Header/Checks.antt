-- ===== src/Storage/Header/Checks.antt =====
-- `validate_header` against an independent description of a packed Segment.
use snow_seek.Prelude.{
  >>=-eq-ok, List, Result-cases, [], ap, arith, inl, inr, length, ok, sym, ℕ, ◌+◌, ◌<◌, ◌↔◌, ◌∷◌,
  ◌≡◌, ◌≢◌, ◌≤◌, ◌⊎◌,
}
use snow_seek.Storage.Header.{
  IndexHeader, SectionDescriptor, index_section_order, last_length, max_u64, validate_header,
  validate_section, validate_sections,
}

-- A descriptor that stands at `start` and has the expected kind. An empty section has checksum 0.
pub record IsSection (kind start : ℕ) (section : SectionDescriptor) : Type 0 where
  pub kind_is : section.kind ≡ kind
  pub offset_is : section.offset ≡ start
  pub fits : start + section.length ≤ max_u64
  pub empty_checksum : (section.length ≢ 0) ⊎ (section.checksum ≡ 0)

-- Sections of the given kinds lie side by side from `start` to `end`.
abbrev pub Packed : List ℕ → ℕ → List SectionDescriptor → ℕ → Type 0
Packed [] start [] end = start ≡ end
Packed (kind ∷ order) start (section ∷ sections) end =
    IsSection kind start section × Packed order (start + section.length) sections end
Packed [] start (section ∷ sections) end = ⊥
Packed (kind ∷ order) start [] end = ⊥

-- What a valid header is.
pub record IsHeader (header : IndexHeader) : Type 0 where
  pub current : header.version ≡ 2
  pub known_flags : header.feature_flags < 2
  pub packed : Packed index_section_order 200 header.sections header.file_size
  pub positions : (header.feature_flags ≡ 1) ⊎ (last_length header.sections ≡ 0)

validate_section→IsSection :
    (kind start next : ℕ) (section : SectionDescriptor)
    → start ≤ max_u64
    → validate_section kind start section ≡ ok next
    → IsSection kind start section × (next ≡ start + section.length)
unfolding validate_section
validate_section→IsSection kind start next section h e = ground arith

IsSection→validate_section :
    (kind start : ℕ) (section : SectionDescriptor)
    → IsSection kind start section
    → validate_section kind start section ≡ ok (start + section.length)
unfolding validate_section
IsSection→validate_section kind start section v = ground arith

validate_sections→Packed :
    (order : List ℕ) (start end : ℕ) (sections : List SectionDescriptor)
    → length order ≡ length sections
    → start ≤ max_u64
    → validate_sections order start sections ≡ ok end
    → Packed order start sections end × (start ≤ end)
unfolding validate_sections
validate_sections→Packed [] start end [] n h e = ground arith
validate_sections→Packed (kind ∷ order) start end [] n h e = absurd (omega arith)
validate_sections→Packed [] start end (section ∷ sections) n h e = absurd (omega arith)
validate_sections→Packed (kind ∷ order) start end (section ∷ sections) n h e =
    let (next, now, later) = >>=-eq-ok (validate_section kind start section) _ e in
    let (v, step) = validate_section→IsSection kind start next section h now in
    let (p, le) =
      validate_sections→Packed order next end sections (omega arith) (omega (arith, v.fits))
        later in
    ((v, rw step at p), omega arith)

Packed→validate_sections :
    (order : List ℕ) (start end : ℕ) (sections : List SectionDescriptor)
    → Packed order start sections end
    → validate_sections order start sections ≡ ok end
unfolding validate_sections
Packed→validate_sections [] start end [] p = ap ok p
Packed→validate_sections (kind ∷ order) start end [] p = absurd p
Packed→validate_sections [] start end (section ∷ sections) p = absurd p
Packed→validate_sections (kind ∷ order) start end (section ∷ sections) p =
    rw (IsSection→validate_section kind start section p.0)
      (Packed→validate_sections order (start + section.length) end sections p.1)

Packed-le :
    (order : List ℕ) (start end : ℕ) (sections : List SectionDescriptor)
    → Packed order start sections end
    → start ≤ end
Packed-le [] start end [] p = omega arith
Packed-le (kind ∷ order) start end [] p = absurd p
Packed-le [] start end (section ∷ sections) p = absurd p
Packed-le (kind ∷ order) start end (section ∷ sections) p =
    omega (arith, Packed-le order (start + section.length) end sections p.1)

-- The checks of `validate_header` apart from those in its loop.
Head : IndexHeader → ℕ → Type 0
Head header end =
    (header.version ≡ 2)
    × (header.feature_flags < 2)
    × (end ≡ header.file_size)
    × ((header.feature_flags ≡ 1) ⊎ (last_length header.sections ≡ 0))

sections_of_valid :
    (header : IndexHeader)
    → validate_header header ≡ ok tt
    → (end : ℕ) × (validate_sections index_section_order 200 header.sections ≡ ok end)
      × Head header end
unfolding validate_header Head
sections_of_valid header e =
    elim (Result-cases (validate_sections index_section_order 200 header.sections)) [
      | inl (end, r) ↦ (end, r, ground (arith, r))
      | inr (x, r) ↦ absurd (ground (arith, r))
    ]

pub validate_header→IsHeader :
    (header : IndexHeader)
    → length header.sections ≡ 5
    → validate_header header ≡ ok tt
    → IsHeader header
unfolding Head
validate_header→IsHeader header n e =
    let (end, sections, head) = sections_of_valid header e in
    let (p, le) =
      validate_sections→Packed index_section_order 200 end header.sections (sym n) (omega arith)
        sections in
    let (version, flags, file, positions) = head in
    record { current = version; known_flags = flags; packed = rw file at p; positions = positions }

pub IsHeader→validate_header :
    (header : IndexHeader) → IsHeader header → validate_header header ≡ ok tt
unfolding validate_header
IsHeader→validate_header header v = ground (
  arith,
  Packed→validate_sections index_section_order 200 header.file_size header.sections v.packed,
  Packed-le index_section_order 200 header.file_size header.sections v.packed,
)

-- `validate_header` accepts a header of five descriptors exactly when it is of version 2, has no
-- unknown flag, its sections have the five kinds in order, lie side by side from byte 200 to the
-- end of the file within 64 bits, an empty one has checksum 0, and without the positions flag the
-- last section is empty.
pub validate_header-IsHeader :
    (header : IndexHeader)
    → length header.sections ≡ 5
    → (validate_header header ≡ ok tt) ↔ IsHeader header
validate_header-IsHeader header n =
    (validate_header→IsHeader header n, IsHeader→validate_header header)
