-- ===== src/Storage/Header/Canonical.antt =====
-- What `read_header` of src/storage/index_header.cpp accepts.
use mathlib.Core.Path.{subst}
use snow_seek.Prelude.{
  All, Bytes, IsByte, List, Result, [], ap, append-nil, append_assoc, arith, bind_then, bytes_eq,
  bytes_eq→eq, drop, length, length-append, ltb, ltb-false, not, ok, refl, sym, take, take-append,
  throw, throw_if_then, ℕ, ◌++◌, ◌==◌, ◌∙◌, ◌≡◌,
}
use snow_seek.Prelude.Slices.{All-take, append_nothing, length-take, take-drop}
use snow_seek.Storage.Checksum.{crc32c}
use snow_seek.Storage.Codec.{u32_bytes}
use snow_seek.Storage.Codec.RoundTrip.{
  TookU32, TookU64, length-u32_bytes, read_u32_then, read_u64_then,
}
use snow_seek.Storage.Header.{
  IndexHeader, SectionDescriptor, checksummed_header_size, index_header_size, index_magic,
  index_section_count, read_fields, read_header, read_header_bytes, read_magic, read_sections,
  validate_header,
}
use snow_seek.Storage.Header.Checks.{IsHeader, validate_header→IsHeader}
use snow_seek.Storage.Header.Layout.{
  Fields, field_bytes, header_bytes, length-prefix_bytes, prefix_bytes, tail_bytes,
}
use snow_seek.Storage.Header.Sections.{TookSections, read_sections-TookSections}

-- The part of the header that follows the magic, as `read_fields` leaves it.
record TookFields (bytes i0 : Bytes) (header : IndexHeader) : Type 0 where
  left : Bytes
  input_is :
      i0
      ≡ field_bytes header
        ++ (u32_bytes (crc32c (take checksummed_header_size bytes)) ++ (u32_bytes 0 ++ left))
  fields : Fields header

module _ (bytes i0 : Bytes) (header : IndexHeader) where
  fields_joined :
      (version flags size count file_size stored reserved : ℕ) (sections : List SectionDescriptor)
      (i1 i2 i3 i4 i5 i6 i7 i8 : Bytes)
      → TookU32 i0 version i1
      → TookU32 i1 flags i2
      → TookU32 i2 size i3
      → TookU32 i3 count i4
      → TookU64 i4 file_size i5
      → TookSections 5 i5 sections i6
      → TookU32 i6 stored i7
      → TookU32 i7 reserved i8
      → (size ≡ index_header_size)
        × (count ≡ index_section_count)
        × (reserved ≡ 0)
        × (stored ≡ crc32c (take checksummed_header_size bytes))
        × (header ≡ record {
          version = version;
          feature_flags = flags;
          file_size = file_size;
          sections = sections;
        })
      → TookFields bytes i0 header
  unfolding field_bytes
  fields_joined version flags size count file_size stored reserved sections i1 i2 i3 i4 i5 i6 i7 i8
        t1 t2 t3 t4 t5 t6 t7 t8 (es, ec, er, ek, eh) =
      record {
        left = i8;
        input_is = simp (
          t1.input_is, t2.input_is, t3.input_is, t4.input_is, t5.input_is, t6.input_is, t7.input_is,
          t8.input_is, es, ec, er, ek, eh, append_assoc,
        );
        fields = rw eh (record {
          version_fits = t1.in_range;
          flags_fit = t2.in_range;
          file_size_fits = t5.in_range;
          five = t6.count;
          sections_fit = t6.fits;
        });
      }

  read_fields-TookFields :
      All IsByte i0 → read_fields bytes i0 ≡ ok header → TookFields bytes i0 header
  unfolding read_fields
  read_fields-TookFields h e = read_u32_then i0 _ h e λ version i1 t1 e1.
      read_u32_then i1 _ t1.rest_bytes e1 λ flags i2 t2 e2.
        read_u32_then i2 _ t2.rest_bytes e2 λ size i3 t3 e3.
          read_u32_then i3 _ t3.rest_bytes e3 λ count i4 t4 e4.
            read_u64_then i4 _ t4.rest_bytes e4 λ file_size i5 t5 e5.
              throw_if_then (not (size == index_header_size)) _ _ e5 λ c1 e6.
                throw_if_then (not (count == index_section_count)) _ _ e6 λ c2 e7.
                  bind_then (read_sections index_section_count i5) _ e7 λ (sections, i6) found e8.
                    let t6 = read_sections-TookSections 5 i5 i6 sections t5.rest_bytes found in
                    read_u32_then i6 _ t6.rest_bytes e8 λ stored i7 t7 e9.
                      read_u32_then i7 _ t7.rest_bytes e9 λ reserved i8 t8 e10.
                        throw_if_then (not (reserved == 0)) _ _ e10 λ c3 e11.
                          throw_if_then
                            (not (stored == crc32c (take checksummed_header_size bytes))) _ _ e11
                            λ c4 e12.
                              fields_joined version flags size count file_size stored reserved
                                sections i1 i2 i3 i4 i5 i6 i7 i8 t1 t2 t3 t4 t5 t6 t7 t8
                                (
                                  ground (arith, c1),
                                  ground (arith, c2),
                                  ground (arith, c3),
                                  ground (arith, c4),
                                  cc (e12),
                                )

magic_fields :
    (header : IndexHeader) (more : Bytes)
    → index_magic ++ (field_bytes header ++ more) ≡ prefix_bytes header ++ more
unfolding prefix_bytes
magic_fields header more = refl

take_prefix :
    (header : IndexHeader) (more : Bytes)
    → length header.sections ≡ 5
    → take 192 (prefix_bytes header ++ more) ≡ prefix_bytes header
take_prefix header more n =
    subst (λ (k : ℕ). take k (prefix_bytes header ++ more) ≡ prefix_bytes header)
      (length-prefix_bytes header n) (take-append (prefix_bytes header) more)

length_whole :
    (header : IndexHeader) (c : ℕ)
    → length header.sections ≡ 5
    → length (prefix_bytes header ++ (u32_bytes c ++ u32_bytes 0)) ≡ 200
length_whole header c n = omega (
  arith,
  length-append (prefix_bytes header) (u32_bytes c ++ u32_bytes 0),
  length-append (u32_bytes c) (u32_bytes 0),
  length-u32_bytes c,
  length-u32_bytes 0,
  length-prefix_bytes header n,
)

-- 200 bytes from which the fields of a header were read are that header's bytes.
whole_header :
    (bytes i0 : Bytes) (header : IndexHeader)
    → length bytes ≡ 200
    → bytes ≡ index_magic ++ i0
    → TookFields bytes i0 header
    → bytes ≡ header_bytes header
unfolding header_bytes tail_bytes
whole_header bytes i0 header n magic t =
    let c = crc32c (take 192 bytes) in
    let split : bytes ≡ prefix_bytes header ++ (u32_bytes c ++ (u32_bytes 0 ++ t.left)) =
      magic ∙ ap (λ (b : Bytes). index_magic ++ b) t.input_is ∙ magic_fields header _ in
    let front : take 192 bytes ≡ prefix_bytes header =
      ap (take 192) split ∙ take_prefix header _ t.fields.five in
    let grouped : bytes ≡ (prefix_bytes header ++ (u32_bytes c ++ u32_bytes 0)) ++ t.left =
      split ∙ simp append_assoc in
    let nothing : t.left ≡ [] =
      append_nothing bytes (prefix_bytes header ++ (u32_bytes c ++ u32_bytes 0)) t.left grouped
        (omega (arith, length_whole header c t.fields.five)) in
    grouped
    ∙ ap (λ (b : Bytes). (prefix_bytes header ++ (u32_bytes c ++ u32_bytes 0)) ++ b) nothing
    ∙ append-nil (prefix_bytes header ++ (u32_bytes c ++ u32_bytes 0))
    ∙ ap (λ (p : Bytes). prefix_bytes header ++ (u32_bytes (crc32c p) ++ u32_bytes 0)) front

read_magic-eq-ok : (bytes i0 : Bytes) → read_magic bytes ≡ ok i0 → bytes ≡ index_magic ++ i0
unfolding read_magic
read_magic-eq-ok bytes i0 e =
    throw_if_then (not (bytes_eq (take 8 bytes) index_magic)) _ _ e λ good found.
      let front : take 8 bytes ≡ index_magic =
        bytes_eq→eq (take 8 bytes) index_magic (ground (arith, good)) in
      let back : drop 8 bytes ≡ i0 = cc found in take-drop 8 bytes ∙ rw (front, back)

abbrev front_of : Result (Bytes × Bytes) → Bytes
front_of (ok p) = p.0
front_of (throw e) = []

abbrev back_of : Result (Bytes × Bytes) → Bytes
back_of (ok p) = p.1
back_of (throw e) = []

results :
    (found header : IndexHeader) (more rest : Bytes)
    → ◌≡◌ {A = Result (IndexHeader × Bytes)} (ok (found, more)) (ok (header, rest))
    → (header ≡ found) × (rest ≡ more)
results found header more rest e = (cc, cc)

canonical_parts :
    (input bytes more i0 : Bytes) (found : IndexHeader)
    → All IsByte input
    → read_header_bytes input ≡ ok (bytes, more)
    → bytes ≡ index_magic ++ i0
    → read_fields bytes i0 ≡ ok found
    → validate_header found ≡ ok tt
    → (input ≡ header_bytes found ++ more) × Fields found × IsHeader found
unfolding read_header_bytes
canonical_parts input bytes more i0 found h e0 magic fields valid =
    throw_if_then (ltb (length input) 200) _ _ e0 λ enough same.
      let front : take 200 input ≡ bytes = ap (λ (r : Result (Bytes × Bytes)). front_of r) same in
      let back : drop 200 input ≡ more = ap (λ (r : Result (Bytes × Bytes)). back_of r) same in
      let size : length bytes ≡ 200 =
        ap length (sym front) ∙ length-take 200 input (ltb-false (length input) 200 enough) in
      let all : All IsByte (index_magic ++ i0) =
        subst (All IsByte) (front ∙ magic) (All-take 200 input h) in
      let t = read_fields-TookFields bytes i0 found all.1.1.1.1.1.1.1.1 fields in
      (
        take-drop 200 input
            ∙ ap (λ (b : Bytes). b ++ drop 200 input)
                (front ∙ whole_header bytes i0 found size magic t)
            ∙ ap (λ (b : Bytes). header_bytes found ++ b) back,
        t.fields,
        validate_header→IsHeader found t.fields.five valid,
      )

-- Whatever input of bytes `read_header` accepts, it begins with the 200 bytes that `write_header`
-- writes for the header returned, what follows them is left unread, and the header is valid, of
-- five descriptors whose values fit their fields.
pub read_header_canonical :
    (input rest : Bytes) (header : IndexHeader)
    → All IsByte input
    → read_header input ≡ ok (header, rest)
    → (input ≡ header_bytes header ++ rest) × Fields header × IsHeader header
unfolding read_header read_header_bytes
read_header_canonical input rest header h e =
    bind_then (read_header_bytes input) _ e λ (bytes, more) e0 e1.
      bind_then (read_magic bytes) _ e1 λ i0 magic e2.
        bind_then (read_fields bytes i0) _ e2 λ found fields e3.
          bind_then (validate_header found) _ e3 λ t valid e4.
            let (p, q) = results found header more rest e4 in
            rw (p, q)
              (canonical_parts input bytes more i0 found h e0 (read_magic-eq-ok bytes i0 magic)
                fields valid)
