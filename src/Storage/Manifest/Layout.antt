-- ===== src/Storage/Manifest/Layout.antt =====
-- The bytes of a Manifest, as src/storage/index_manifest.cpp writes them.
use native.Mathlib.Nat.{mod-eq_of_lt}
use snow_seek.Prelude.{
  All, All-append, Bytes, Error, IsByte, List, [], ap, append-nil, append_assoc, arith, length,
  length-append, not, ok, refl, sym, throw_if, ℕ, ◌*◌, ◌++◌, ◌+◌, ◌<◌, ◌==◌, ◌>>◌, ◌^◌, ◌∙◌, ◌∷◌,
  ◌≡◌,
}
use snow_seek.Storage.Checksum.{crc32c}
use snow_seek.Storage.Codec.{u32_bytes, u64_bytes}
use snow_seek.Storage.Codec.RoundTrip.{
  memory, u64_bytes-IsByte, write_u32_le-memory, write_u64_le-memory,
}
use snow_seek.Storage.Manifest.{
  FixedFields, IndexManifest, encode_header_prefix, encode_manifest, manifest_magic, write_fields,
  write_payload, write_suffix,
}
use snow_seek.Storage.Manifest.Checks.{IsManifest, IsManifest→validate_manifest}
use snow_seek.Storage.Stream.{string_stream, write}

unfoldable pub payload_bytes : List ℕ → Bytes
payload_bytes [] = []
payload_bytes (segment ∷ segments) = u64_bytes segment ++ payload_bytes segments

-- The fields that the header checksum covers, after the magic.
unfoldable pub covered_bytes : FixedFields → Bytes
covered_bytes f =
    u32_bytes f.version
    ++ (u32_bytes f.flags
        ++ (u32_bytes f.header_size
            ++ (u32_bytes f.active_count
                ++ (u64_bytes f.generation
                    ++ (u64_bytes f.next_segment_id
                        ++ (u64_bytes f.payload_length ++ u32_bytes f.payload_checksum))))))

unfoldable pub checksum_bytes : FixedFields → Bytes
checksum_bytes f = u32_bytes f.header_checksum ++ u64_bytes f.reserved

-- The fields of a Manifest; the header checksum is over the magic and the covered fields.
abbrev pub unsealed : IndexManifest → FixedFields
unsealed manifest = record {
  version = 1;
  flags = 0;
  header_size = 64;
  active_count = length manifest.active_segments;
  generation = manifest.generation;
  next_segment_id = manifest.next_segment_id;
  payload_length = length (payload_bytes manifest.active_segments);
  payload_checksum = crc32c (payload_bytes manifest.active_segments);
  header_checksum = 0;
  reserved = 0;
}

abbrev pub sealed : FixedFields → FixedFields
sealed f = record f { header_checksum = crc32c (manifest_magic ++ covered_bytes f) }

unfoldable pub header_bytes : FixedFields → Bytes
header_bytes f = (manifest_magic ++ covered_bytes f) ++ checksum_bytes f

unfoldable pub manifest_bytes : IndexManifest → Bytes
manifest_bytes manifest =
    header_bytes (sealed (unsealed manifest)) ++ payload_bytes manifest.active_segments

pub length-payload_bytes : (ids : List ℕ) → length (payload_bytes ids) ≡ length ids * 8
unfolding payload_bytes u64_bytes
length-payload_bytes [] = refl
length-payload_bytes (id ∷ ids) = omega (arith, length-payload_bytes ids)

pub length-covered_bytes : (f : FixedFields) → length (manifest_magic ++ covered_bytes f) ≡ 52
unfolding covered_bytes u32_bytes u64_bytes
length-covered_bytes f = refl

pub length-header_bytes : (f : FixedFields) → length (header_bytes f) ≡ 64
unfolding header_bytes covered_bytes checksum_bytes u32_bytes u64_bytes
length-header_bytes f = refl

pub payload_bytes-IsByte : (ids : List ℕ) → All IsByte (payload_bytes ids)
unfolding payload_bytes
payload_bytes-IsByte [] = tt
payload_bytes-IsByte (id ∷ ids) =
    All-append IsByte (u64_bytes id) (payload_bytes ids) (u64_bytes-IsByte id)
      (payload_bytes-IsByte ids)

pub covered_bytes-IsByte : (f : FixedFields) → All IsByte (manifest_magic ++ covered_bytes f)
unfolding covered_bytes u32_bytes u64_bytes
covered_bytes-IsByte f = omega arith

write_payload-memory :
    (w : Bytes) (ids : List ℕ) → write_payload (memory w) ids ≡ ok (memory (w ++ payload_bytes ids))
unfolding write_payload payload_bytes
write_payload-memory w [] = simp append-nil
write_payload-memory w (id ∷ ids) = rw (write_u64_le-memory w id) (
    write_payload-memory (w ++ u64_bytes id) ids
    ∙ ap (λ (b : Bytes). ok (memory b)) (append_assoc w (u64_bytes id) (payload_bytes ids)))

write_fields-memory :
    (w : Bytes) (manifest : IndexManifest)
    → length manifest.active_segments < 2 ^ 32
    → write_fields
        (memory w)
        manifest
        (length (payload_bytes manifest.active_segments))
        (crc32c (payload_bytes manifest.active_segments))
      ≡ ok (memory (w ++ covered_bytes (unsealed manifest)))
unfolding write_fields covered_bytes
write_fields-memory w manifest few =
    simp (write_u32_le-memory, write_u64_le-memory, append_assoc, mod-eq_of_lt few)

string_stream_magic : write string_stream manifest_magic ≡ memory manifest_magic
unfolding write
string_stream_magic = refl

-- A size check that passes.
sized :
    (e : Error) (bytes result : Bytes) (n : ℕ)
    → length bytes ≡ n
    → bytes ≡ result
    → (throw_if (not (length bytes == n)) e >> ok bytes) ≡ ok result
sized e bytes result n p q = ground arith

pub covered_bytes-sealed : (f : FixedFields) → covered_bytes (sealed f) ≡ covered_bytes f
unfolding covered_bytes
covered_bytes-sealed f = refl

encoded_bytes :
    (manifest : IndexManifest)
    → (manifest_magic ++ covered_bytes (unsealed manifest))
        ++ ((u32_bytes (crc32c (manifest_magic ++ covered_bytes (unsealed manifest)))
              ++ u64_bytes 0)
            ++ payload_bytes manifest.active_segments)
      ≡ manifest_bytes manifest
unfolding manifest_bytes header_bytes checksum_bytes
encoded_bytes manifest = rw (covered_bytes-sealed (unsealed manifest)) (
    sym (
      append_assoc (manifest_magic ++ covered_bytes (unsealed manifest))
        (u32_bytes (crc32c (manifest_magic ++ covered_bytes (unsealed manifest))) ++ u64_bytes 0)
        (payload_bytes manifest.active_segments)))

pub length-manifest_bytes :
    (manifest : IndexManifest)
    → length (manifest_bytes manifest) ≡ 64 + length (payload_bytes manifest.active_segments)
unfolding manifest_bytes
length-manifest_bytes manifest = omega (
  arith,
  length-append (header_bytes (sealed (unsealed manifest)))
      (payload_bytes manifest.active_segments),
  length-header_bytes (sealed (unsealed manifest)),
)

encoded_size :
    (manifest : IndexManifest)
    → length (
        (manifest_magic ++ covered_bytes (unsealed manifest))
        ++ ((u32_bytes (crc32c (manifest_magic ++ covered_bytes (unsealed manifest)))
              ++ u64_bytes 0)
            ++ payload_bytes manifest.active_segments))
      ≡ 64 + length (payload_bytes manifest.active_segments)
encoded_size manifest = ap length (encoded_bytes manifest) ∙ length-manifest_bytes manifest

encode_header_prefix_lem :
    (manifest : IndexManifest)
    → length manifest.active_segments < 2 ^ 32
    → encode_header_prefix manifest
        (length (payload_bytes manifest.active_segments))
        (crc32c (payload_bytes manifest.active_segments))
      ≡ ok (manifest_magic ++ covered_bytes (unsealed manifest))
unfolding encode_header_prefix
encode_header_prefix_lem manifest few =
    rw (string_stream_magic, write_fields-memory manifest_magic manifest few)
      (sized _ (manifest_magic ++ covered_bytes (unsealed manifest)) _ 52
        (length-covered_bytes (unsealed manifest)) refl)

write_suffix_lem :
    (prefix : Bytes) → write_suffix prefix ≡ ok (memory (u32_bytes (crc32c prefix) ++ u64_bytes 0))
unfolding write_suffix
write_suffix_lem prefix =
    rw (write_u32_le-memory [] (crc32c prefix), write_u64_le-memory (u32_bytes (crc32c prefix)) 0)

-- A valid Manifest is encoded as the bytes of its layout.
pub encode_manifest_lem :
    (manifest : IndexManifest)
    → IsManifest manifest
    → encode_manifest manifest ≡ ok (manifest_bytes manifest)
unfolding encode_manifest
encode_manifest_lem manifest v =
    rw
      (
        IsManifest→validate_manifest manifest v,
        write_payload-memory [] manifest.active_segments,
        encode_header_prefix_lem manifest v.representable,
        write_suffix_lem (manifest_magic ++ covered_bytes (unsealed manifest)),
      )
      (sized _ _ (manifest_bytes manifest) (64 + length (payload_bytes manifest.active_segments))
        (encoded_size manifest) (encoded_bytes manifest))
