-- ===== src/Examples/Formats.antt =====
-- src/storage: the checksum, the Segment header and the Manifest at concrete inputs.
use snow_seek.Prelude.{
  All, All-append, Bytes, IsByte, IsU32, [], arith, bit_xor, inr, length, ok, refl, some, true, ℕ,
  ◌++◌, ◌↔◌, ◌∷◌, ◌≡◌,
}
use snow_seek.Storage.Checksum.{Crc32c, crc32c, update}
use snow_seek.Storage.Checksum.Chunks.{crc32c-bitwise, update-append}
use snow_seek.Storage.Checksum.Slices.{bitwise_crc}
use snow_seek.Storage.Header.{
  IndexHeader, SectionDescriptor, last_length, read_header, validate_header, write_header,
}
use snow_seek.Storage.Header.Canonical.{read_header_canonical}
use snow_seek.Storage.Header.Checks.{IsHeader, IsSection, validate_header-IsHeader}
use snow_seek.Storage.Header.Layout.{header_bytes, Fields, SectionFits, header_bytes-IsByte}
use snow_seek.Storage.Header.Reading.{read_header-header_bytes}
use snow_seek.Storage.Header.Writing.{write_header-took}
use snow_seek.Storage.Manifest.{IndexManifest, decode_manifest, encode_manifest, validate_manifest}
use snow_seek.Storage.Manifest.Checks.{IsManifest, validate_manifest-IsManifest}
use snow_seek.Storage.Manifest.Decoding.{decode_manifest-encode_manifest}
use snow_seek.Storage.Manifest.Layout.{encode_manifest_lem, manifest_bytes}
use snow_seek.Storage.Stream.{Output, took}

-- Eleven bytes: a round of eight, and a tail.
abbrev sample : Bytes
sample = 1 ∷ 2 ∷ 3 ∷ 4 ∷ 5 ∷ 6 ∷ 7 ∷ 8 ∷ 9 ∷ 10 ∷ 255 ∷ []

sample-IsByte : All IsByte sample
sample-IsByte = (
  omega arith,
  (
    omega arith,
    (
      omega arith,
      (
        omega arith,
        (
          omega arith,
          (
            omega arith,
            (omega arith, (omega arith, (omega arith, (omega arith, (omega arith, tt))))),
          ),
        ),
      ),
    ),
  ),
)

crc32c-bitwise_example : crc32c sample ≡ bit_xor (bitwise_crc 0xffffffff sample) 0xffffffff
crc32c-bitwise_example = crc32c-bitwise sample sample-IsByte

abbrev fresh : Crc32c
fresh = record { state = 0xffffffff }

update-append_example : update (update fresh sample) sample ≡ update fresh (sample ++ sample)
update-append_example = update-append fresh sample sample sample-IsByte sample-IsByte

abbrev section_of : ℕ → ℕ → SectionDescriptor
section_of kind length = record { kind = kind; offset = 200; length = length; checksum = 0 }

-- A header of five empty sections.
abbrev header : IndexHeader
header = record {
  version = 2;
  feature_flags = 0;
  file_size = 200;
  sections =
      section_of 1 0 ∷ section_of 2 0 ∷ section_of 3 0 ∷ section_of 4 0 ∷ section_of 5 0 ∷ [];
}

IsSection-IsSection : (kind : ℕ) → IsSection kind 200 (section_of kind 0)
IsSection-IsSection kind = record {
  kind_is = refl;
  offset_is = refl;
  fits = omega arith;
  empty_checksum = inr refl;
}

header-IsHeader : IsHeader header
unfolding last_length
header-IsHeader = record {
  current = refl;
  known_flags = omega arith;
  packed = (
    IsSection-IsSection 1,
    (
      IsSection-IsSection 2,
      (IsSection-IsSection 3, (IsSection-IsSection 4, (IsSection-IsSection 5, refl))),
    ),
  );
  positions = inr refl;
}

section_fits : (kind : ℕ) → IsU32 kind → SectionFits (section_of kind 0)
section_fits kind h = (h, omega arith, omega arith, omega arith)

header-Fields : Fields header
header-Fields = record {
  version_fits = omega arith;
  flags_fit = omega arith;
  file_size_fits = omega arith;
  five = refl;
  sections_fit = (
    section_fits 1 (omega arith),
    (
      section_fits 2 (omega arith),
      (
        section_fits 3 (omega arith),
        (section_fits 4 (omega arith), (section_fits 5 (omega arith), tt)),
      ),
    ),
  );
}

validate_header-IsHeader_example : (validate_header header ≡ ok tt) ↔ IsHeader header
validate_header-IsHeader_example = validate_header-IsHeader header refl

abbrev output : Output
output = record { written = 7 ∷ []; room = some 200; good = true }

write_header-took_example : write_header output header ≡ ok (took output (header_bytes header))
write_header-took_example = write_header-took output header refl (omega arith) header-IsHeader refl

read_header-header_bytes_example : read_header (header_bytes header ++ sample) ≡ ok (header, sample)
read_header-header_bytes_example =
    read_header-header_bytes header sample header-Fields header-IsHeader

read_header_canonical_example :
    (header_bytes header ++ sample ≡ header_bytes header ++ sample)
    × Fields header
    × IsHeader header
read_header_canonical_example =
    read_header_canonical (header_bytes header ++ sample) sample header
      (All-append IsByte (header_bytes header) sample (header_bytes-IsByte header) sample-IsByte)
      (read_header-header_bytes header sample header-Fields header-IsHeader)

abbrev manifest : IndexManifest
manifest = record { generation = 1; next_segment_id = 6; active_segments = 2 ∷ 5 ∷ [] }

validate_manifest-IsManifest_example : (validate_manifest manifest ≡ ok tt) ↔ IsManifest manifest
validate_manifest-IsManifest_example = validate_manifest-IsManifest manifest

manifest-IsManifest : IsManifest manifest
manifest-IsManifest = record {
  generation_pos = omega arith;
  some_segment = omega arith;
  representable = omega arith;
  ascending = (omega arith, (omega arith, tt));
  next_above = (omega arith, (omega arith, tt));
}

encode_manifest_lem_example : encode_manifest manifest ≡ ok (manifest_bytes manifest)
encode_manifest_lem_example = encode_manifest_lem manifest manifest-IsManifest

decode_manifest-encode_manifest_example : decode_manifest (manifest_bytes manifest) ≡ ok manifest
decode_manifest-encode_manifest_example =
    decode_manifest-encode_manifest manifest (manifest_bytes manifest)
      (record {
        generation_fits = omega arith;
        next_fits = omega arith;
        ids_fit = (omega arith, (omega arith, tt));
      })
      (encode_manifest_lem manifest manifest-IsManifest)
