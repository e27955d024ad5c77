-- ===== src/Storage/Writing/Checks.antt =====
-- What the checks of src/storage/index_file.cpp let through.
use Prim.Native.String.{String}
use snow_seek.Arithmetic.{checked_add}
use snow_seek.Documents.{DocumentMeta, is_tombstone}
use snow_seek.Prelude.{
  Bool-cases, Bytes, Option, Result, ap, arith, else_branch, false, inl, inr, none, not, ok, refl,
  some, sym, then_branch, throw_if_then, true, ℕ, ◌+◌, ◌<◌, ◌==◌, ◌^◌, ◌||◌, ◌∙◌, ◌≡◌,
}
use snow_seek.Prelude.Int.{negsuc, pos, ℤ}
use snow_seek.Storage.File.Utf8.{is_valid_utf8}
use snow_seek.Storage.Validation.Table.{is_relative_document_path}
use snow_seek.Storage.Writing.Documents.{content_or_zero, document_flags, has_content, is_zero_time}
use snow_seek.Storage.Writing.Fields.{checked_narrow, path_to_utf8}
use snow_seek.Storage.Writing.Layout.{flags_of}

is_zero_time-eq : (time : ℤ) → is_zero_time time ≡ true → time ≡ pos 0
is_zero_time-eq (pos n) h = let e : n ≡ 0 = ground (arith, h) in ap pos e
is_zero_time-eq (negsuc n) h = cc

has_content-none : (content : Option ℕ) → has_content content ≡ false → content ≡ none
has_content-none none h = refl
has_content-none (some crc) h = cc

abbrev pub IsEmptyDocument : DocumentMeta → Type 0
IsEmptyDocument document =
    (document.file_size ≡ 0)
    × (document.modified_time_ns ≡ pos 0)
    × (document.token_count ≡ 0)
    × (document.content_crc32c ≡ none)

abbrev pub Flagged : DocumentMeta → ℕ → ℕ → Type 0
Flagged document flags crc =
    (flags ≡ flags_of document)
    × (crc ≡ content_or_zero document.content_crc32c)
    × (is_tombstone document.state ≡ true → IsEmptyDocument document)

empty_document :
    (document : DocumentMeta)
    → (not (document.file_size == 0)
        || not (is_zero_time document.modified_time_ns)
        || not (document.token_count == 0)
        || has_content document.content_crc32c)
      ≡ false
    → IsEmptyDocument document
empty_document document h = (
  ground (arith, h),
  is_zero_time-eq document.modified_time_ns (ground (arith, h)),
  ground (arith, h),
  has_content-none document.content_crc32c (ground (arith, h)),
)

pair_eq : (a b c d : ℕ) → ◌≡◌ {A = Result (ℕ × ℕ)} (ok (a, b)) (ok (c, d)) → (c ≡ a) × (d ≡ b)
pair_eq a b c d e = (cc, cc)

-- The flags that the writer takes, and what it required.
pub document_flags-Flagged :
    (document : DocumentMeta) (flags crc : ℕ)
    → document_flags document ≡ ok (flags, crc)
    → Flagged document flags crc
unfolding document_flags flags_of
document_flags-Flagged document flags crc e =
    let t = is_tombstone document.state in
    elim (Bool-cases t) [
      | inl dead ↦
          throw_if_then
            (not (document.file_size == 0)
              || not (is_zero_time document.modified_time_ns)
              || not (document.token_count == 0)
              || has_content document.content_crc32c)
            _ _ (then_branch t _ _ dead e)
            λ bare now.
              let (f, c) = pair_eq 1 0 flags crc now in
              let none_ = empty_document document bare in
              let zero_ : content_or_zero document.content_crc32c ≡ 0 =
                ap content_or_zero none_.3 in
              (rw dead f, c ∙ sym zero_, λ _. none_)
      | inr alive ↦
          let (f, c) = pair_eq _ _ flags crc (else_branch t _ _ alive e) in
          (rw alive f, c, λ dead. cc)
    ]

pub path_to_utf8-eq-ok :
    (path bytes : Bytes)
    → path_to_utf8 path ≡ ok bytes
    → (bytes ≡ path) × (is_relative_document_path path ≡ true) × (is_valid_utf8 path ≡ true)
unfolding path_to_utf8 is_relative_document_path
path_to_utf8-eq-ok path bytes e = ground (arith, e)

pub checked_narrow-eq-ok :
    (number narrowed : ℕ) (field : String)
    → checked_narrow number field ≡ ok narrowed
    → (narrowed ≡ number) × (number < 2 ^ 32)
unfolding checked_narrow
checked_narrow-eq-ok number narrowed field e = ground (arith, e)

pub checked_add-eq-ok :
    (left right sum : ℕ) (field : String)
    → left < 2 ^ 64
    → checked_add left right field ≡ ok sum
    → (sum ≡ left + right) × (left + right < 2 ^ 64)
unfolding checked_add
checked_add-eq-ok left right sum field h e = ground (arith, e)
