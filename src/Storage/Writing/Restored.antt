-- ===== src/Storage/Writing/Restored.antt =====
-- The two sections of src/storage/index_file.cpp, where they stand in a file, read by
-- `decode_document_table` of src/storage/index_validation.cpp.
use snow_seek.Arithmetic.{checked_add}
use snow_seek.Documents.{DocumentMeta, is_tombstone}
use snow_seek.Prelude.{
  Bool, Bool-cases, Bytes, Option, [], ap, append_assoc, arith, drop, drop-append, false, inl, inr,
  length, length-append, ltb, none, not, ok, refl, some, suc, sym, take-append, true, zero, ℕ, ◌&&◌,
  ◌++◌, ◌+◌, ◌-◌, ◌/◌, ◌<◌, ◌==◌, ◌||◌, ◌∙◌, ◌∷◌, ◌≡◌, ◌≤◌,
}
use snow_seek.Prelude.Int.{pos, ℤ}
use snow_seek.Storage.File.{max_stream_offset, read_exact, seek_to}
use snow_seek.Storage.Header.{SectionDescriptor, max_u64}
use snow_seek.Storage.Records.{DocumentRecord}
use snow_seek.Storage.Validation.Table.{
  check_document_record, decode_path, has_content_crc32c_flag, has_tombstone_flag,
  is_relative_document_path,
}
use snow_seek.Storage.Writing.Decoded.{flags_of-content, flags_of-lt, flags_of-tombstone}
use snow_seek.Storage.Writing.Documents.{content_or_zero, has_content}
use snow_seek.Storage.Writing.Fields.{timestamp_bits}
use snow_seek.Storage.Writing.Layout.{IsWritable, flags_of, record_of}

path_not_empty : (path : Bytes) → is_relative_document_path path ≡ true → 0 < length path
unfolding is_relative_document_path
path_not_empty [] h = cc
path_not_empty (c ∷ path) h = ground arith

timestamp_bits-zero : (time : ℤ) → time ≡ pos 0 → timestamp_bits time ≡ 0
unfolding timestamp_bits
timestamp_bits-zero time e = ap timestamp_bits e

content_zero : (content : Option ℕ) → has_content content ≡ false → content_or_zero content ≡ 0
content_zero none h = refl
content_zero (some crc) h = cc

module _ (document : DocumentMeta) (offset size : ℕ) (v : IsWritable document)
    (inside : offset + length document.path ≤ size) where
  abbrev entry : DocumentRecord
  entry = record_of document offset

  path_ok :
      (entry.path_length == 0
        || not (entry.path_offset == offset)
        || ltb size entry.path_offset
        || ltb (size - entry.path_offset) entry.path_length)
      ≡ false
  path_ok = let some_ = path_not_empty document.path v.path_is in ground (arith, some_, inside)

  no_content :
      is_tombstone document.state ≡ false
      → (not (has_content_crc32c_flag entry) && not (entry.content_crc32c == 0)) ≡ false
  no_content alive =
      let flag = flags_of-content document offset alive in
      elim (Bool-cases (has_content document.content_crc32c)) [
        | inl has ↦ rw (flag, has) refl
        | inr bare ↦ rw (flag, bare, content_zero document.content_crc32c bare) refl
      ]

  abbrev wrong_metadata : Bool
  wrong_metadata =
      has_tombstone_flag entry
        && (not (entry.file_size == 0)
            || not (entry.modified_time_bits == 0)
            || not (entry.token_count == 0)
            || has_content_crc32c_flag entry
            || not (entry.content_crc32c == 0))
      || not (has_content_crc32c_flag entry) && not (entry.content_crc32c == 0)

  metadata_of_tombstone : is_tombstone document.state ≡ true → wrong_metadata ≡ false
  unfolding flags_of
  metadata_of_tombstone dead =
      let (size_eq, time_eq, tokens_eq, content_eq) = v.tombstone_is dead in
      let bits = timestamp_bits-zero document.modified_time_ns time_eq in
      rw (dead, size_eq, bits, tokens_eq, content_eq) refl

  metadata_of_live : is_tombstone document.state ≡ false → wrong_metadata ≡ false
  metadata_of_live alive =
      let rest = no_content alive in rw (flags_of-tombstone document offset, alive) rest

  metadata_ok : wrong_metadata ≡ false
  metadata_ok = elim (Bool-cases (is_tombstone document.state)) [
    | inl dead ↦ metadata_of_tombstone dead
    | inr alive ↦ metadata_of_live alive
  ]

  pub check_document_record-record_of : check_document_record document.id offset size entry ≡ ok tt
  unfolding check_document_record
  check_document_record-record_of =
      let low : document.id == document.id ≡ true = ground arith in
      let four : flags_of document / 4 ≡ 0 = omega (arith, flags_of-lt document) in
      rw (low, four, metadata_ok, path_ok) refl

drop_nothing : (n : ℕ) → ◌≡◌ {A = Bytes} (drop n []) []
drop_nothing zero = refl
drop_nothing (suc n) = refl

drop-drop : (a b : ℕ) (xs : Bytes) → drop b (drop a xs) ≡ drop (a + b) xs
drop-drop zero b xs = let n : b ≡ 0 + b = omega arith in ap (λ (k : ℕ). drop k xs) n
drop-drop (suc a) b [] = drop_nothing b ∙ sym (drop_nothing (suc a + b))
drop-drop (suc a) b (x ∷ xs) =
    let n : suc (a + b) ≡ suc a + b = omega arith in
    drop-drop a b xs ∙ ap (λ (k : ℕ). drop k (x ∷ xs)) n

-- `bytes` stand in the content at the offset.
abbrev pub StandsAt : Bytes → ℕ → Bytes → Type 0
StandsAt content offset bytes = (after : Bytes) × (drop offset content ≡ bytes ++ after)

pub StandsAt-front :
    (content : Bytes) (offset : ℕ) (xs ys : Bytes)
    → StandsAt content offset (xs ++ ys)
    → StandsAt content offset xs
StandsAt-front content offset xs ys (after, e) = (ys ++ after, e ∙ append_assoc xs ys after)

pub StandsAt-back :
    (content : Bytes) (offset : ℕ) (xs ys : Bytes)
    → StandsAt content offset (xs ++ ys)
    → StandsAt content (offset + length xs) ys
StandsAt-back content offset xs ys (after, e) = (
  after,
  sym (drop-drop offset (length xs) content)
      ∙ ap (drop (length xs)) (e ∙ append_assoc xs ys after)
      ∙ drop-append xs (ys ++ after),
)

module _ (content : Bytes) (paths_section : SectionDescriptor) (document : DocumentMeta)
    (offset : ℕ) (v : IsWritable document)
    (reach : paths_section.offset + offset ≤ max_stream_offset)
    (stands : StandsAt content (paths_section.offset + offset) document.path) where
  pub decode_path-record_of :
      decode_path content paths_section (record_of document offset) ≡ ok document.path
  unfolding decode_path checked_add seek_to read_exact
  decode_path-record_of =
      let (after, e) = stands in
      let small : ltb max_stream_offset (paths_section.offset + offset) ≡ false =
        ground (arith, reach) in
      let sum : ltb (max_u64 - paths_section.offset) offset ≡ false = ground (arith, reach) in
      let size = length-append document.path after in
      let enough : ltb (length (document.path ++ after)) (length document.path) ≡ false =
        ground (arith, size) in
      let relative = v.path_is in
      let text = v.text_is in
      rw (sum, small, e, enough, take-append document.path after, text, relative) refl
