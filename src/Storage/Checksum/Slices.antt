-- ===== src/Storage/Checksum/Slices.antt =====
-- The rounds of eight bytes of src/storage/checksum.cpp against the bitwise CRC32C.
use mathlib.Core.Path.{ap₂}
use snow_seek.Prelude.{
  All, Bytes, IsByte, [], ap, arith, bit_xor, refl, suc, sym, zero, ℕ, ◌%◌, ◌*◌, ◌+◌, ◌/◌, ◌^◌, ◌∎,
  ◌∙◌, ◌∷◌, ◌≡◌, ◌≡⟨◌⟩◌,
}
use snow_seek.Prelude.Xor.{bit_xor-zero, div-pow-bit_xor, xor_assoc}
use snow_seek.Storage.Checksum.{
  crc32c_tables, shift_bits, update_byte, update_eight, update_state, update_tail,
}
use snow_seek.Storage.Checksum.Linear.{
  shift_bits-split, shift_bits-xor, shift_bits_add, shift_bits_shifted,
}

-- The definition of the reflected CRC, a bit at a time: the independent reference.
abbrev pub bitwise_crc : ℕ → Bytes → ℕ
bitwise_crc state [] = state
bitwise_crc state (byte ∷ rest) = bitwise_crc (shift_bits 8 (bit_xor state byte)) rest

regroup : (slice : ℕ) → 8 * slice + 8 + 8 ≡ 8 * suc slice + 8
regroup slice = omega arith

tables_lem : (slice index : ℕ) → crc32c_tables slice index ≡ shift_bits (8 * slice + 8) index
unfolding crc32c_tables
tables_lem zero index = refl
tables_lem (suc slice) index =
    let p = crc32c_tables slice index in
    bit_xor (shift_bits 8 (p % 256)) (p / 2 ^ 8)
    ≡⟨ shift_bits-split p ⟩ shift_bits 8 p
    ≡⟨ ap (shift_bits 8) (tables_lem slice index) ⟩ shift_bits 8 (shift_bits (8 * slice + 8) index)
    ≡⟨ sym (shift_bits_add 8 (8 * slice + 8) index) ⟩ shift_bits (8 * slice + 8 + 8) index
    ≡⟨ ap (λ (n : ℕ). shift_bits n index) (regroup slice) ⟩ shift_bits (8 * suc slice + 8) index ∎

high_bits : (state byte : ℕ) → IsByte byte → bit_xor state byte / 2 ^ 8 ≡ state / 2 ^ 8
high_bits state byte h =
    bit_xor state byte / 2 ^ 8
    ≡⟨ div-pow-bit_xor 8 state byte ⟩ bit_xor (state / 2 ^ 8) (byte / 2 ^ 8)
    ≡⟨ ap (bit_xor (state / 2 ^ 8)) (omega arith) ⟩ bit_xor (state / 2 ^ 8) 0
    ≡⟨ bit_xor-zero (state / 2 ^ 8) ⟩ state / 2 ^ 8 ∎

update_byte_reads :
    (state byte : ℕ)
    → update_byte state byte ≡ bit_xor (crc32c_tables 0 (bit_xor state byte % 256)) (state / 2 ^ 8)
unfolding update_byte
update_byte_reads state byte = refl

update_byte_lem :
    (state byte : ℕ) → IsByte byte → update_byte state byte ≡ shift_bits 8 (bit_xor state byte)
update_byte_lem state byte h =
    update_byte state byte
    ≡⟨ update_byte_reads state byte ⟩
      bit_xor (crc32c_tables 0 (bit_xor state byte % 256)) (state / 2 ^ 8)
    ≡⟨ ap₂ bit_xor (tables_lem 0 (bit_xor state byte % 256)) (sym (high_bits state byte h)) ⟩
      bit_xor (shift_bits 8 (bit_xor state byte % 256)) (bit_xor state byte / 2 ^ 8)
    ≡⟨ shift_bits-split (bit_xor state byte) ⟩ shift_bits 8 (bit_xor state byte) ∎

-- One byte of a number, taken off the low end.
peel :
    (n z : ℕ)
    → shift_bits (8 + n) z ≡ bit_xor (shift_bits (8 + n) (z % 256)) (shift_bits n (z / 2 ^ 8))
peel n z =
    shift_bits (8 + n) z
    ≡⟨ shift_bits_add n 8 z ⟩ shift_bits n (shift_bits 8 z)
    ≡⟨ ap (shift_bits n) (sym (shift_bits-split z)) ⟩
      shift_bits n (bit_xor (shift_bits 8 (z % 256)) (z / 2 ^ 8))
    ≡⟨ shift_bits-xor n (shift_bits 8 (z % 256)) (z / 2 ^ 8) ⟩
      bit_xor (shift_bits n (shift_bits 8 (z % 256))) (shift_bits n (z / 2 ^ 8))
    ≡⟨ ap (λ (y : ℕ). bit_xor y (shift_bits n (z / 2 ^ 8))) (sym (shift_bits_add n 8 (z % 256))) ⟩
      bit_xor (shift_bits (8 + n) (z % 256)) (shift_bits n (z / 2 ^ 8)) ∎

-- A byte folded in after `n` bits is the byte folded in `n` bits higher up before them.
absorb : (n x c : ℕ) → bit_xor (shift_bits n x) c ≡ shift_bits n (bit_xor x (c * 2 ^ n))
absorb n x c =
    bit_xor (shift_bits n x) c
    ≡⟨ ap (bit_xor (shift_bits n x)) (sym (shift_bits_shifted n c)) ⟩
      bit_xor (shift_bits n x) (shift_bits n (c * 2 ^ n))
    ≡⟨ sym (shift_bits-xor n x (c * 2 ^ n)) ⟩ shift_bits n (bit_xor x (c * 2 ^ n)) ∎

absorb_byte :
    (n x c : ℕ)
    → shift_bits 8 (bit_xor (shift_bits n x) c) ≡ shift_bits (n + 8) (bit_xor x (c * 2 ^ n))
absorb_byte n x c =
    ap (shift_bits 8) (absorb n x c) ∙ sym (shift_bits_add 8 n (bit_xor x (c * 2 ^ n)))

-- Four bytes of the reference are 32 bits of one word.
four_bytes :
    (s a b c d : ℕ)
    → bitwise_crc s (a ∷ b ∷ c ∷ d ∷ [])
      ≡ shift_bits 32
          (bit_xor (bit_xor (bit_xor (bit_xor s a) (b * 2 ^ 8)) (c * 2 ^ 16)) (d * 2 ^ 24))
four_bytes s a b c d = rw (absorb_byte 8 (bit_xor s a) b) (
    rw (absorb_byte 16 (bit_xor (bit_xor s a) (b * 2 ^ 8)) c)
      (absorb_byte 24 (bit_xor (bit_xor (bit_xor s a) (b * 2 ^ 8)) (c * 2 ^ 16)) d))

-- The four table reads of one word, at `n` bits of later input.
abbrev word_reads : ℕ → ℕ → ℕ
word_reads slice z = bit_xor (crc32c_tables (slice + 3) (z % 256)) (
    bit_xor (crc32c_tables (slice + 2) (z / 2 ^ 8 % 256))
      (bit_xor (crc32c_tables (slice + 1) (z / 2 ^ 16 % 256)) (crc32c_tables slice (z / 2 ^ 24))))

table_at : (slice n i : ℕ) → n ≡ 8 * slice + 8 → crc32c_tables slice i ≡ shift_bits n i
table_at slice n i e = rw e (tables_lem slice i)

peel_at :
    (m n z : ℕ)
    → m ≡ 8 + n
    → shift_bits m z ≡ bit_xor (shift_bits m (z % 256)) (shift_bits n (z / 2 ^ 8))
peel_at m n z e = rw e (peel n z)

word_peeled :
    (n z : ℕ)
    → shift_bits (n + 32) z
      ≡ bit_xor (shift_bits (n + 32) (z % 256)) (
          bit_xor
            (shift_bits (n + 24) (z / 2 ^ 8 % 256))
            (bit_xor (shift_bits (n + 16) (z / 2 ^ 16 % 256)) (shift_bits (n + 8) (z / 2 ^ 24))))
word_peeled n z =
    let two : z / 2 ^ 8 / 2 ^ 8 ≡ z / 2 ^ 16 = omega arith in
    let three : z / 2 ^ 16 / 2 ^ 8 ≡ z / 2 ^ 24 = omega arith in
    peel_at (n + 32) (n + 24) z (omega arith)
    ∙ ap (bit_xor (shift_bits (n + 32) (z % 256))) (
        peel_at (n + 24) (n + 16) (z / 2 ^ 8) (omega arith)
        ∙ ap (bit_xor (shift_bits (n + 24) (z / 2 ^ 8 % 256))) (
            ap (shift_bits (n + 16)) two
            ∙ peel_at (n + 16) (n + 8) (z / 2 ^ 16) (omega arith)
            ∙ ap
                (λ (y : ℕ). bit_xor (shift_bits (n + 16) (z / 2 ^ 16 % 256)) (shift_bits (n + 8) y))
                three))

word_reads_lem : (slice z : ℕ) → word_reads slice z ≡ shift_bits (8 * slice + 32) z
word_reads_lem slice z =
    ap₂ bit_xor (table_at (slice + 3) (8 * slice + 32) (z % 256) (omega arith)) (
      ap₂ bit_xor (table_at (slice + 2) (8 * slice + 24) (z / 2 ^ 8 % 256) (omega arith)) (
        ap₂ bit_xor (table_at (slice + 1) (8 * slice + 16) (z / 2 ^ 16 % 256) (omega arith))
          (table_at slice (8 * slice + 8) (z / 2 ^ 24) refl)))
    ∙ sym (word_peeled (8 * slice) z)

abbrev pub first_word : ℕ → ℕ → ℕ → ℕ → ℕ → ℕ
first_word s a b c d =
    bit_xor (bit_xor (bit_xor (bit_xor s a) (b * 2 ^ 8)) (c * 2 ^ 16)) (d * 2 ^ 24)

abbrev second_word : ℕ → ℕ → ℕ → ℕ → ℕ
second_word e f g h = bit_xor (bit_xor (bit_xor e (f * 2 ^ 8)) (g * 2 ^ 16)) (h * 2 ^ 24)

update_eight_reads :
    (s a b c d e f g h : ℕ)
    → update_eight s a b c d e f g h
      ≡ bit_xor (word_reads 4 (first_word s a b c d)) (word_reads 0 (second_word e f g h))
unfolding update_eight
update_eight_reads s a b c d e f g h = simp xor_assoc

first_word-xor : (s e f g h : ℕ) → first_word s e f g h ≡ bit_xor s (second_word e f g h)
first_word-xor s e f g h = simp xor_assoc

update_eight_lem :
    (s a b c d e f g h : ℕ)
    → update_eight s a b c d e f g h ≡ bitwise_crc s (a ∷ b ∷ c ∷ d ∷ e ∷ f ∷ g ∷ h ∷ [])
update_eight_lem s a b c d e f g h =
    let x = first_word s a b c d in
    let y = second_word e f g h in
    update_eight s a b c d e f g h
    ≡⟨ update_eight_reads s a b c d e f g h ⟩ bit_xor (word_reads 4 x) (word_reads 0 y)
    ≡⟨ ap₂ bit_xor (word_reads_lem 4 x) (word_reads_lem 0 y) ⟩
      bit_xor (shift_bits 64 x) (shift_bits 32 y)
    ≡⟨ ap (λ (z : ℕ). bit_xor z (shift_bits 32 y)) (shift_bits_add 32 32 x) ⟩
      bit_xor (shift_bits 32 (shift_bits 32 x)) (shift_bits 32 y)
    ≡⟨ sym (shift_bits-xor 32 (shift_bits 32 x) y) ⟩ shift_bits 32 (bit_xor (shift_bits 32 x) y)
    ≡⟨ ap (shift_bits 32) (sym (first_word-xor (shift_bits 32 x) e f g h)) ⟩
      shift_bits 32 (first_word (shift_bits 32 x) e f g h)
    ≡⟨ sym (four_bytes (shift_bits 32 x) e f g h) ⟩
      bitwise_crc (shift_bits 32 x) (e ∷ f ∷ g ∷ h ∷ [])
    ≡⟨ ap (λ (z : ℕ). bitwise_crc z (e ∷ f ∷ g ∷ h ∷ [])) (sym (four_bytes s a b c d)) ⟩
      bitwise_crc s (a ∷ b ∷ c ∷ d ∷ e ∷ f ∷ g ∷ h ∷ []) ∎

update_tail_lem :
    (state : ℕ) (bytes : Bytes)
    → All IsByte bytes
    → update_tail state bytes ≡ bitwise_crc state bytes
unfolding update_tail
update_tail_lem state [] h = refl
update_tail_lem state (b ∷ rest) h =
    rw (update_byte_lem state b h.0) (update_tail_lem (shift_bits 8 (bit_xor state b)) rest h.1)

-- On bytes, both loops of `update` compute the reference CRC.
pub update_state_lem :
    (state : ℕ) (bytes : Bytes)
    → All IsByte bytes
    → update_state state bytes ≡ bitwise_crc state bytes
unfolding update_state
update_state_lem state (a ∷ b ∷ c ∷ d ∷ e ∷ f ∷ g ∷ h ∷ rest) all =
    rw (update_eight_lem state a b c d e f g h) (
      update_state_lem (bitwise_crc state (a ∷ b ∷ c ∷ d ∷ e ∷ f ∷ g ∷ h ∷ [])) rest
        all.1.1.1.1.1.1.1.1)
update_state_lem state bytes all = update_tail_lem state bytes all
