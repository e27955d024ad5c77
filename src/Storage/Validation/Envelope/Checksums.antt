-- ===== src/Storage/Validation/Envelope/Checksums.antt =====
-- `validate_checksum` of src/storage/index_validation.cpp against the checksum of a section's bytes.
use snow_seek.Prelude.{
  All, Bool-cases, Bytes, Error, IsByte, List, Result, [], ap, arith, drop, if◌then◌else◌, inl, inr,
  length, ltb, ltb-false, ltb→lt, min, ok, refl, suc, sym, take, throw, zero, ℕ, ◌++◌, ◌+◌, ◌-◌,
  ◌<◌, ◌==◌, ◌>>=◌, ◌∙◌, ◌∷◌, ◌≡◌, ◌≤◌,
}
use snow_seek.Prelude.Slices.{All-drop, All-take}
use snow_seek.Storage.Checksum.{Crc32c, crc32c, initial, update, update_state, update_tail}
use snow_seek.Storage.Checksum.Chunks.{update-append}
use snow_seek.Storage.File.{max_stream_offset, read_exact, seek_to}
use snow_seek.Storage.Header.{SectionDescriptor}
use snow_seek.Storage.Validation.Envelope.{checksum_buffer_size, checksum_rounds, validate_checksum}

pub take_add :
    {A : Type 0} (m k : ℕ) (xs : List A) → take (m + k) xs ≡ take m xs ++ take k (drop m xs)
take_add zero k xs = ap (λ (n : ℕ). take n xs) (omega arith)
take_add {A} (suc m) zero [] =
    let e : suc m + 0 ≡ suc m = omega arith in ap (λ (n : ℕ). take {A = A} n []) e
take_add {A} (suc m) (suc k) [] =
    let e : suc m + suc k ≡ suc (m + suc k) = omega arith in ap (λ (n : ℕ). take {A = A} n []) e
take_add (suc m) k (x ∷ xs) =
    let e : suc m + k ≡ suc (m + k) = omega arith in
    ap (λ (n : ℕ). take n (x ∷ xs)) e ∙ λ i. x ∷ take_add m k xs i

pub length-drop : {A : Type 0} (n : ℕ) (xs : List A) → length (drop n xs) ≡ length xs - n
length-drop zero xs = omega arith
length-drop (suc n) [] = omega arith
length-drop (suc n) (x ∷ xs) = omega (arith, length-drop n xs)

abbrev truncated : {A : Type 0} → Result A
truncated = throw (Error.runtime_error "index file is truncated")

read_exact_whole :
    (input : Bytes) (size : ℕ)
    → size ≤ length input
    → read_exact input size ≡ ok (take size input, drop size input)
unfolding read_exact
read_exact_whole input size h = ground (arith, h)

read_exact_short :
    (input : Bytes) (size : ℕ) → length input < size → read_exact input size ≡ truncated
unfolding read_exact
read_exact_short input size h = ground (arith, h)

update_nothing : (checksum : Crc32c) → update checksum [] ≡ checksum
unfolding update update_state update_tail
update_nothing checksum = refl

module _ (remaining : ℕ) where
  abbrev chunk : ℕ
  chunk = min remaining checksum_buffer_size

  chunk_le : chunk ≤ remaining
  chunk_le = omega arith

  chunk_pos : 0 < remaining → 0 < chunk
  chunk_pos h = omega arith

-- A round of the loop with bytes left.
checksum_round :
    (fuel remaining : ℕ) (checksum : Crc32c) (input : Bytes)
    → checksum_rounds (suc fuel) (suc remaining) checksum input ≡ (
        read_exact input (chunk (suc remaining)) >>= λ (buffer, rest).
        checksum_rounds fuel (suc remaining - chunk (suc remaining)) (update checksum buffer) rest)
unfolding checksum_rounds
checksum_round fuel remaining checksum input = ground arith

checksum_rounds_whole :
    (fuel remaining : ℕ) (checksum : Crc32c) (input : Bytes)
    → All IsByte input
    → remaining ≤ fuel
    → remaining ≤ length input
    → checksum_rounds fuel remaining checksum input ≡ ok (update checksum (take remaining input))
unfolding checksum_rounds
checksum_rounds_whole zero zero checksum input b f h = ap ok (sym (update_nothing checksum))
checksum_rounds_whole zero (suc remaining) checksum input b f h = absurd (omega arith)
checksum_rounds_whole (suc fuel) zero checksum input b f h = ap ok (sym (update_nothing checksum))
checksum_rounds_whole (suc fuel) (suc remaining) checksum input b f h =
    let n = suc remaining in
    let k = chunk n in
    let le = chunk_le n in
    let whole : k + (n - k) ≡ n = omega arith in
    let left : n - k ≤ fuel = omega (arith, chunk_pos n (omega arith)) in
    rw (checksum_round fuel remaining checksum input, read_exact_whole input k (omega arith))
      (checksum_rounds_whole fuel (n - k) (update checksum (take k input)) (drop k input)
          (All-drop k input b) left (omega (arith, length-drop k input))
        ∙ ap ok (
            update-append checksum (take k input) (take (n - k) (drop k input)) (All-take k input b)
              (All-take (n - k) (drop k input) (All-drop k input b))
            ∙ ap (update checksum)
                (sym (take_add k (n - k) input) ∙ ap (λ (m : ℕ). take m input) whole)))

checksum_rounds_short :
    (fuel remaining : ℕ) (checksum : Crc32c) (input : Bytes)
    → remaining ≤ fuel
    → length input < remaining
    → checksum_rounds fuel remaining checksum input ≡ truncated
unfolding checksum_rounds
checksum_rounds_short zero remaining checksum input f h = absurd (omega arith)
checksum_rounds_short (suc fuel) zero checksum input f h = absurd (omega arith)
checksum_rounds_short (suc fuel) (suc remaining) checksum input f h =
    let n = suc remaining in
    let k = chunk n in
    let le = chunk_le n in
    let some_ = chunk_pos n (omega arith) in
    elim (Bool-cases (ltb (length input) k)) [
      | inl short ↦
          rw
            (
              checksum_round fuel remaining checksum input,
              read_exact_short input k (ltb→lt (length input) k short),
            )
            refl
      | inr whole ↦
          rw
            (
              checksum_round fuel remaining checksum input,
              read_exact_whole input k (ltb-false (length input) k whole),
            )
            (checksum_rounds_short fuel (n - k) (update checksum (take k input)) (drop k input)
              (omega arith) (omega (arith, length-drop k input, ltb-false (length input) k whole)))
    ]

-- The bytes of a section.
abbrev pub section_content : Bytes → SectionDescriptor → Bytes
section_content content descriptor = take descriptor.length (drop descriptor.offset content)

-- What the check of a section answers.
abbrev pub checksum_verdict : Bytes → SectionDescriptor → Result (Unit {0})
checksum_verdict content descriptor =
    if ltb max_stream_offset descriptor.offset
    then throw (Error.runtime_error "index offset exceeds stream limit")
    else if ltb (length content - descriptor.offset) descriptor.length
    then throw (Error.runtime_error "index file is truncated")
    else if crc32c (section_content content descriptor) == descriptor.checksum
    then ok tt
    else throw (Error.runtime_error "index section checksum mismatch")

-- In a file of bytes, the check of a section refuses an offset beyond the stream's limit, then a
-- section that the file does not hold whole, then one whose bytes, taken together, have another
-- CRC32C than the descriptor's, each with its own error, and accepts every other section: the buffer
-- by which it reads leaves no trace.
pub validate_checksum_lem :
    (content : Bytes) (descriptor : SectionDescriptor)
    → All IsByte content
    → validate_checksum content descriptor ≡ checksum_verdict content descriptor
unfolding validate_checksum seek_to crc32c
validate_checksum_lem content descriptor b =
    let input = drop descriptor.offset content in
    let n = descriptor.length in
    elim (Bool-cases (ltb (length content - descriptor.offset) n)) [
      | inl short ↦
          let few : length input < n =
            omega (arith, ltb→lt _ _ short, length-drop descriptor.offset content) in
          let r = checksum_rounds_short n n initial input (omega arith) few in
          ground (arith, short, r)
      | inr whole ↦
          let enough : n ≤ length input =
            omega (arith, ltb-false _ _ whole, length-drop descriptor.offset content) in
          let r =
            checksum_rounds_whole n n initial input (All-drop descriptor.offset content b)
              (omega arith) enough in
          ground (arith, whole, r)
    ]
