-- ===== src/Storage/Manifest/Decoding.antt =====
-- `decode_manifest` of src/storage/index_manifest.cpp on the bytes of a Manifest.
use mathlib.Core.Path.{subst}
use snow_seek.Prelude.{
  All, Bytes, Error, IsU32, IsU64, List, Result, [], ap, append-nil, append_assoc, arith, bind_then,
  drop, drop-append, false, length, ltb, not, ok, refl, sym, take, take-append, throw_if, ℕ, ◌*◌,
  ◌++◌, ◌+◌, ◌<◌, ◌==◌, ◌>>◌, ◌∙◌, ◌∷◌, ◌≡◌,
}
use snow_seek.Prelude.Slices.{take-front}
use snow_seek.Storage.Checksum.{crc32c}
use snow_seek.Storage.Checksum.Chunks.{crc32c-IsU32}
use snow_seek.Storage.Codec.{read_u64_le, u64_bytes}
use snow_seek.Storage.Codec.RoundTrip.{read_u32_le-u32_bytes, read_u64_le-u64_bytes}
use snow_seek.Storage.Manifest.{
  FixedFields, IndexManifest, check_fields, decode_manifest, encode_manifest, manifest_magic,
  read_fixed_fields, read_magic, read_payload, validate_manifest,
}
use snow_seek.Storage.Manifest.Checks.{
  IsManifest, IsManifest→validate_manifest, validate_manifest→IsManifest,
}
use snow_seek.Storage.Manifest.Layout.{
  checksum_bytes, covered_bytes, covered_bytes-IsByte, covered_bytes-sealed, encode_manifest_lem,
  header_bytes, length-covered_bytes, length-header_bytes, length-manifest_bytes,
  length-payload_bytes, manifest_bytes, payload_bytes, payload_bytes-IsByte, sealed, unsealed,
}

-- The values fit their fields.
pub record ManifestFits (manifest : IndexManifest) : Type 0 where
  pub generation_fits : IsU64 manifest.generation
  pub next_fits : IsU64 manifest.next_segment_id
  pub ids_fit : All IsU64 manifest.active_segments

pub record FieldsFit (f : FixedFields) : Type 0 where
  pub version_fits : IsU32 f.version
  pub flags_fit : IsU32 f.flags
  pub header_size_fits : IsU32 f.header_size
  pub active_count_fits : IsU32 f.active_count
  pub generation_fits : IsU64 f.generation
  pub next_fits : IsU64 f.next_segment_id
  pub payload_length_fits : IsU64 f.payload_length
  pub payload_checksum_fits : IsU32 f.payload_checksum
  pub header_checksum_fits : IsU32 f.header_checksum
  pub reserved_fits : IsU64 f.reserved

read_last_u64 : (v : ℕ) → IsU64 v → read_u64_le (u64_bytes v) ≡ ok (v, [])
read_last_u64 v h = rw (← append-nil (u64_bytes v)) (read_u64_le-u64_bytes v [] h)

read_fixed_fields-bytes :
    (f : FixedFields)
    → FieldsFit f
    → read_fixed_fields (covered_bytes f ++ checksum_bytes f) ≡ ok (f, [])
unfolding read_fixed_fields covered_bytes checksum_bytes
read_fixed_fields-bytes f h = simp (
  append_assoc,
  read_u32_le-u32_bytes f.version _ h.version_fits,
  read_u32_le-u32_bytes f.flags _ h.flags_fit,
  read_u32_le-u32_bytes f.header_size _ h.header_size_fits,
  read_u32_le-u32_bytes f.active_count _ h.active_count_fits,
  read_u64_le-u64_bytes f.generation _ h.generation_fits,
  read_u64_le-u64_bytes f.next_segment_id _ h.next_fits,
  read_u64_le-u64_bytes f.payload_length _ h.payload_length_fits,
  read_u32_le-u32_bytes f.payload_checksum _ h.payload_checksum_fits,
  read_u32_le-u32_bytes f.header_checksum _ h.header_checksum_fits,
  read_last_u64 f.reserved h.reserved_fits,
)

read_payload-payload_bytes :
    (ids : List ℕ) → All IsU64 ids → read_payload (length ids) (payload_bytes ids) ≡ ok (ids, [])
unfolding read_payload payload_bytes
read_payload-payload_bytes [] h = refl
read_payload-payload_bytes (id ∷ ids) h =
    rw (read_u64_le-u64_bytes id (payload_bytes ids) h.0, read_payload-payload_bytes ids h.1)

unsealed_fits :
    (manifest : IndexManifest)
    → IsManifest manifest
    → ManifestFits manifest
    → FieldsFit (sealed (unsealed manifest))
unsealed_fits manifest v h = record {
  version_fits = omega arith;
  flags_fit = omega arith;
  header_size_fits = omega arith;
  active_count_fits = v.representable;
  generation_fits = h.generation_fits;
  next_fits = h.next_fits;
  payload_length_fits =
      omega (arith, length-payload_bytes manifest.active_segments, v.representable);
  payload_checksum_fits =
      crc32c-IsU32 (payload_bytes manifest.active_segments)
        (payload_bytes-IsByte manifest.active_segments);
  header_checksum_fits =
      crc32c-IsU32 (manifest_magic ++ covered_bytes (unsealed manifest))
        (covered_bytes-IsByte (unsealed manifest));
  reserved_fits = omega arith;
}

take_header :
    (f : FixedFields) (payload : Bytes) → take 64 (header_bytes f ++ payload) ≡ header_bytes f
take_header f payload =
    subst (λ (k : ℕ). take k (header_bytes f ++ payload) ≡ header_bytes f) (length-header_bytes f)
      (take-append (header_bytes f) payload)

drop_header : (f : FixedFields) (payload : Bytes) → drop 64 (header_bytes f ++ payload) ≡ payload
drop_header f payload =
    subst (λ (k : ℕ). drop k (header_bytes f ++ payload) ≡ payload) (length-header_bytes f)
      (drop-append (header_bytes f) payload)

take_covered :
    (f : FixedFields) (payload : Bytes)
    → take 52 (header_bytes f ++ payload) ≡ manifest_magic ++ covered_bytes f
unfolding header_bytes
take_covered f payload =
    take-front 52 (manifest_magic ++ covered_bytes f) (checksum_bytes f) payload
      (length-covered_bytes f)

read_magic-header_bytes :
    (f : FixedFields) → read_magic (header_bytes f) ≡ ok (covered_bytes f ++ checksum_bytes f)
unfolding read_magic header_bytes
read_magic-header_bytes f = refl

take_header_manifest :
    (manifest : IndexManifest)
    → take 64 (manifest_bytes manifest) ≡ header_bytes (sealed (unsealed manifest))
unfolding manifest_bytes
take_header_manifest manifest =
    take_header (sealed (unsealed manifest)) (payload_bytes manifest.active_segments)

drop_header_manifest :
    (manifest : IndexManifest)
    → drop 64 (manifest_bytes manifest) ≡ payload_bytes manifest.active_segments
unfolding manifest_bytes
drop_header_manifest manifest =
    drop_header (sealed (unsealed manifest)) (payload_bytes manifest.active_segments)

take_covered_manifest :
    (manifest : IndexManifest)
    → take 52 (manifest_bytes manifest) ≡ manifest_magic ++ covered_bytes (unsealed manifest)
unfolding manifest_bytes
take_covered_manifest manifest =
    take_covered (sealed (unsealed manifest)) (payload_bytes manifest.active_segments)
    ∙ ap (λ (b : Bytes). manifest_magic ++ b) (covered_bytes-sealed (unsealed manifest))

long_enough : (manifest : IndexManifest) → ltb (length (manifest_bytes manifest)) 64 ≡ false
long_enough manifest = ground (arith, length-manifest_bytes manifest)

-- A check of two equal numbers goes on to what follows it.
pass_eq :
    (a b : ℕ) (e : Error) (m : Result (Unit {0})) → a ≡ b → (throw_if (not (a == b)) e >> m) ≡ m
pass_eq a b e m h = ground arith

pass_last : (a b : ℕ) (e : Error) → a ≡ b → throw_if (not (a == b)) e ≡ ok tt
pass_last a b e h = ground arith

pass_nonzero : (a : ℕ) (e : Error) (m : Result (Unit {0})) → 0 < a → (throw_if (a == 0) e >> m) ≡ m
pass_nonzero a e m h = ground arith

check_fields-manifest_bytes :
    (manifest : IndexManifest)
    → IsManifest manifest
    → check_fields (sealed (unsealed manifest)) (manifest_bytes manifest) ≡ ok tt
unfolding check_fields
check_fields-manifest_bytes manifest v =
    let ids = manifest.active_segments in
    pass_nonzero (length ids) _ _ v.some_segment
    ∙ pass_eq (length (payload_bytes ids)) (length ids * 8) _ _ (length-payload_bytes ids)
    ∙ pass_eq (length (manifest_bytes manifest)) (64 + length (payload_bytes ids)) _ _
        (length-manifest_bytes manifest)
    ∙ pass_eq (crc32c (take 52 (manifest_bytes manifest)))
        (crc32c (manifest_magic ++ covered_bytes (unsealed manifest))) _ _
        (ap crc32c (take_covered_manifest manifest))
    ∙ pass_last (crc32c (drop 64 (manifest_bytes manifest))) (crc32c (payload_bytes ids)) _
        (ap crc32c (drop_header_manifest manifest))

-- A valid Manifest whose values fit their fields is decoded from its bytes.
pub decode_manifest-manifest_bytes :
    (manifest : IndexManifest)
    → IsManifest manifest
    → ManifestFits manifest
    → decode_manifest (manifest_bytes manifest) ≡ ok manifest
unfolding decode_manifest
decode_manifest-manifest_bytes manifest v h = rw (
  long_enough manifest,
  take_header_manifest manifest,
  read_magic-header_bytes (sealed (unsealed manifest)),
  read_fixed_fields-bytes (sealed (unsealed manifest)) (unsealed_fits manifest v h),
  check_fields-manifest_bytes manifest v,
  drop_header_manifest manifest,
  read_payload-payload_bytes manifest.active_segments h.ids_fit,
  IsManifest→validate_manifest manifest v,
)

encode_manifest→IsManifest :
    (manifest : IndexManifest) (bytes : Bytes)
    → encode_manifest manifest ≡ ok bytes
    → IsManifest manifest
unfolding encode_manifest
encode_manifest→IsManifest manifest bytes e =
    bind_then (validate_manifest manifest) _ e
      λ t valid more. validate_manifest→IsManifest manifest valid

-- Decoding undoes encoding: if `encode_manifest` accepts a Manifest whose values fit their fields,
-- `decode_manifest` reads the same Manifest back from the bytes that it returns.
pub decode_manifest-encode_manifest :
    (manifest : IndexManifest) (bytes : Bytes)
    → ManifestFits manifest
    → encode_manifest manifest ≡ ok bytes
    → decode_manifest bytes ≡ ok manifest
decode_manifest-encode_manifest manifest bytes h e =
    let v = encode_manifest→IsManifest manifest bytes e in
    let same : ok bytes ≡ ok (manifest_bytes manifest) = sym e ∙ encode_manifest_lem manifest v in
    let b : bytes ≡ manifest_bytes manifest = cc in
    rw b (decode_manifest-manifest_bytes manifest v h)
