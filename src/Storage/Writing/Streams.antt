-- ===== src/Storage/Writing/Streams.antt =====
-- What a file holds after the writes of src/storage/index_file.cpp succeeded.
use mathlib.Core.Path.{subst}
use snow_seek.Prelude.{
  All, Bool-cases, Bytes, IsByte, List, Option, Result, [], ap, append-nil, append_assoc, bind_then,
  false, inl, inr, length, ltb, ltb-false, ltb→lt, none, not, ok, refl, some, sym, throw_if_then,
  true, ℕ, ◌++◌, ◌∙◌, ◌∷◌, ◌≡◌, ◌≢◌,
}
use snow_seek.Storage.Checksum.{crc32c}
use snow_seek.Storage.Codec.{require_write, u32_bytes, write_u32_le}
use snow_seek.Storage.Header.{
  IndexHeader, serialize_checksummed_prefix, validate_header, write_header,
}
use snow_seek.Storage.Header.Checks.{IsHeader, validate_header→IsHeader}
use snow_seek.Storage.Header.Layout.{header_bytes, prefix_bytes, tail_bytes}
use snow_seek.Storage.Header.Writing.{serialize_checksummed_prefix_lem}
use snow_seek.Storage.Stream.{Fits, Output, write, write-took, write_short}
use snow_seek.Storage.Writing.{write_sections_bytes}

-- The stream was good, and the bytes follow what it had.
abbrev pub Took : Output → Bytes → Output → Type 0
Took out bytes after = (out.good ≡ true) × (after.written ≡ out.written ++ bytes)

true_not_false : true ≢ false
true_not_false e = cc

take_write-Took :
    (r : Option ℕ) (out : Output) (bytes : Bytes)
    → out.room ≡ r
    → (out.good ≡ true)
    → (write out bytes).good ≡ true
    → Took out bytes (write out bytes)
take_write-Took none out bytes e g h =
    let fits : Fits out.room (length bytes) =
      subst (λ (r : Option ℕ). Fits r (length bytes)) (sym e) tt in
    (g, ap (λ (o : Output). o.written) (write-took out bytes g fits))
take_write-Took (some n) out bytes e g h = elim (Bool-cases (ltb n (length bytes))) [
  | inl short ↦
      let bad = write_short out bytes n e (ltb→lt n (length bytes) short) in
      absurd (true_not_false (sym h ∙ bad))
  | inr enough ↦
      let fits : Fits out.room (length bytes) =
        subst (λ (r : Option ℕ). Fits r (length bytes)) (sym e)
          (ltb-false n (length bytes) enough) in
      (g, ap (λ (o : Output). o.written) (write-took out bytes g fits))
]

write_failed : (out : Output) (bytes : Bytes) → out.good ≡ false → write out bytes ≡ out
unfolding write
write_failed out bytes bad = rw bad refl

write_good : (out : Output) (bytes : Bytes) → (write out bytes).good ≡ true → out.good ≡ true
unfolding write
write_good out bytes h = elim (Bool-cases out.good) [
  | inl good ↦ good
  | inr bad ↦
      absurd
        (true_not_false (sym h ∙ ap (λ (o : Output). o.good) (write_failed out bytes bad) ∙ bad))
]

pub write-Took :
    (out : Output) (bytes : Bytes)
    → (write out bytes).good ≡ true
    → Took out bytes (write out bytes)
write-Took out bytes h = take_write-Took out.room out bytes refl (write_good out bytes h) h

pub Took-then :
    (out middle after : Output) (xs ys : Bytes)
    → Took out xs middle
    → Took middle ys after
    → Took out (xs ++ ys) after
Took-then out middle after xs ys (g, e) (g', e') =
    (g, e' ∙ ap (λ (b : Bytes). b ++ ys) e ∙ append_assoc out.written xs ys)

-- All the sections, one behind the other.
abbrev pub joined : List Bytes → Bytes
joined [] = []
joined (section ∷ sections) = section ++ joined sections

pub write_sections_bytes-Took :
    (out : Output) (sections : List Bytes)
    → (write_sections_bytes out sections).good ≡ true
    → Took out (joined sections) (write_sections_bytes out sections)
unfolding write_sections_bytes
write_sections_bytes-Took out [] h = (h, sym (append-nil out.written))
write_sections_bytes-Took out (section ∷ sections) h =
    let rest = write_sections_bytes-Took (write out section) sections h in
    Took-then out (write out section) (write_sections_bytes (write out section) sections) section
      (joined sections) (write-Took out section rest.0) rest

pub All-split :
    {A : Type 0} (P : A → Type 0) (xs ys : List A) → All P (xs ++ ys) → All P xs × All P ys
All-split P [] ys h = (tt, h)
All-split P (x ∷ xs) ys (here, h) = let (front, back) = All-split P xs ys h in ((here, front), back)

-- The bytes of each section are bytes.
pub All-joined : (sections : List Bytes) → All IsByte (joined sections) → All (All IsByte) sections
All-joined [] h = tt
All-joined (section ∷ sections) h =
    let (front, back) = All-split IsByte section (joined sections) h in
    (front, All-joined sections back)

-- What an integer leaves, where writing it succeeded.
pub bytes_same : (a b : Bytes) → ◌≡◌ {A = Result Bytes} (ok a) (ok b) → a ≡ b
bytes_same a b e = cc

output_eq : (a b : Output) → ◌≡◌ {A = Result Output} (ok a) (ok b) → a ≡ b
output_eq a b e = cc

write_u32_le-Took :
    (out after : Output) (v : ℕ)
    → write_u32_le out v ≡ ok after
    → after.good ≡ true
    → Took out (u32_bytes v) after
unfolding write_u32_le require_write
write_u32_le-Took out after v e h =
    let same : write out (u32_bytes v) ≡ after =
      throw_if_then (not (write out (u32_bytes v)).good) _ (ok (write out (u32_bytes v))) e
        λ good now. output_eq (write out (u32_bytes v)) after now in
    subst (λ (o : Output). o.good ≡ true → Took out (u32_bytes v) o) same
      (write-Took out (u32_bytes v)) h

-- A header that is written is valid, and its bytes are those of the layout.
pub write_header-Took :
    (out after : Output) (header : IndexHeader)
    → length header.sections ≡ 5
    → write_header out header ≡ ok after
    → IsHeader header × (after.good ≡ true → Took out (header_bytes header) after)
unfolding write_header header_bytes tail_bytes
write_header-Took out after header five e =
    let prefix = prefix_bytes header in
    bind_then (validate_header header) _ e λ done valid now.
      let v = validate_header→IsHeader header five valid in
      bind_then (serialize_checksummed_prefix header) _ now λ p serialized now.
        let same : p ≡ prefix =
          bytes_same p prefix (sym serialized ∙ serialize_checksummed_prefix_lem header five) in
        bind_then (write_u32_le (write out p) (crc32c p)) _ now λ o2 first now.
          bind_then (write_u32_le o2 0) _ now λ o3 second now.
            throw_if_then (not o3.good) _ (ok o3) now λ good last.
              let o3_eq = output_eq o3 after last in
              (
                v,
                λ h.
                    let crc = u32_bytes (crc32c p) in
                    let last_ = write_u32_le-Took o2 after 0 (second ∙ ap ok o3_eq) h in
                    let crc_ = write_u32_le-Took (write out p) o2 (crc32c p) first last_.0 in
                    subst
                      (λ (b : Bytes). Took out (b ++ (u32_bytes (crc32c b) ++ u32_bytes 0)) after)
                      same
                      (Took-then out (write out p) after p (crc ++ u32_bytes 0)
                        (write-Took out p crc_.0)
                        (Took-then (write out p) o2 after crc (u32_bytes 0) crc_ last_)),
              )
