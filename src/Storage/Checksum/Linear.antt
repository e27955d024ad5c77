-- ===== src/Storage/Checksum/Linear.antt =====
-- One bit of the checksum of src/storage/checksum.cpp and the exclusive or.
use native.Mathlib.Nat.{zero-add, suc-add}
use snow_seek.Prelude.{
  Bool-cases, ap, arith, bit_xor, inl, inr, refl, suc, sym, zero, ℕ, ◌%◌, ◌*◌, ◌+◌, ◌/◌, ◌==◌, ◌^◌,
  ◌∎, ◌∙◌, ◌≡◌, ◌≡⟨◌⟩◌, ◌⊎◌,
}
use snow_seek.Prelude.Xor.{
  half-bit_xor, shift_more, parity-bit_xor, xor_assoc, xor_comm, xor_fields, xor_self, zero-bit_xor,
}
use snow_seek.Storage.Checksum.{reflected_castagnoli_polynomial, shift_bit, shift_bits}

xor_swap_right : (a b c : ℕ) → bit_xor (bit_xor a b) c ≡ bit_xor (bit_xor a c) b
xor_swap_right a b c = rw (xor_assoc a b c, xor_comm b c, ← xor_assoc a c b)

xor_cancel : (a b p : ℕ) → bit_xor (bit_xor a p) (bit_xor b p) ≡ bit_xor a b
xor_cancel a b p =
    bit_xor (bit_xor a p) (bit_xor b p)
    ≡⟨ ap (bit_xor (bit_xor a p)) (xor_comm b p) ⟩ bit_xor (bit_xor a p) (bit_xor p b)
    ≡⟨ xor_assoc a p (bit_xor p b) ⟩ bit_xor a (bit_xor p (bit_xor p b))
    ≡⟨ ap (bit_xor a) (sym (xor_assoc p p b)) ⟩ bit_xor a (bit_xor (bit_xor p p) b)
    ≡⟨ ap (λ z. bit_xor a (bit_xor z b)) (xor_self p) ⟩ bit_xor a (bit_xor 0 b)
    ≡⟨ ap (bit_xor a) (zero-bit_xor b) ⟩ bit_xor a b ∎

shift_bit_even : (a : ℕ) → a % 2 ≡ 0 → shift_bit a ≡ a / 2
unfolding shift_bit
shift_bit_even a h = ground arith

shift_bit_odd : (a : ℕ) → a % 2 ≡ 1 → shift_bit a ≡ bit_xor (a / 2) reflected_castagnoli_polynomial
unfolding shift_bit
shift_bit_odd a h = ground arith

parity : (a : ℕ) → (a % 2 ≡ 0) ⊎ (a % 2 ≡ 1)
parity a = elim (Bool-cases (a % 2 == 0)) [
  | inl e ↦ inl (ground arith)
  | inr e ↦ inr (ground arith)
]

pub shift_bit-xor : (a b : ℕ) → shift_bit (bit_xor a b) ≡ bit_xor (shift_bit a) (shift_bit b)
shift_bit-xor a b = elim (parity a) [
  | inl p ↦ elim (parity b) [
    | inl q ↦
        rw
          (
            shift_bit_even a p,
            shift_bit_even b q,
            shift_bit_even (bit_xor a b) (omega (arith, parity-bit_xor a b)),
          )
          (half-bit_xor a b)
    | inr q ↦
        rw
          (
            shift_bit_even a p,
            shift_bit_odd b q,
            shift_bit_odd (bit_xor a b) (omega (arith, parity-bit_xor a b)),
            half-bit_xor a b,
          )
          (xor_assoc (a / 2) (b / 2) reflected_castagnoli_polynomial)
  ]
  | inr p ↦ elim (parity b) [
    | inl q ↦
        rw
          (
            shift_bit_odd a p,
            shift_bit_even b q,
            shift_bit_odd (bit_xor a b) (omega (arith, parity-bit_xor a b)),
            half-bit_xor a b,
          )
          (xor_swap_right (a / 2) (b / 2) reflected_castagnoli_polynomial)
    | inr q ↦
        rw
          (
            shift_bit_odd a p,
            shift_bit_odd b q,
            shift_bit_even (bit_xor a b) (omega (arith, parity-bit_xor a b)),
            half-bit_xor a b,
          )
          (sym (xor_cancel (a / 2) (b / 2) reflected_castagnoli_polynomial))
  ]
]

shift_bits-suc : (n a : ℕ) → shift_bits (suc n) a ≡ shift_bits n (shift_bit a)
unfolding shift_bits
shift_bits-suc n a = refl

pub shift_bits-xor :
    (n a b : ℕ) → shift_bits n (bit_xor a b) ≡ bit_xor (shift_bits n a) (shift_bits n b)
shift_bits-xor zero a b = unfold shift_bits in refl
shift_bits-xor (suc n) a b =
    rw (shift_bits-suc n (bit_xor a b), shift_bits-suc n a, shift_bits-suc n b, shift_bit-xor a b)
      (shift_bits-xor n (shift_bit a) (shift_bit b))

pub shift_bits_add : (m n a : ℕ) → shift_bits (n + m) a ≡ shift_bits m (shift_bits n a)
unfolding shift_bits
shift_bits_add m zero a = rw zero-add
shift_bits_add m (suc n) a = rw suc-add (shift_bits_add m n (shift_bit a))

-- `k` low bits that are zero are shifted out with no feedback.
pub shift_bits_shifted : (k q : ℕ) → shift_bits k (q * 2 ^ k) ≡ q
unfolding shift_bits
shift_bits_shifted zero q = omega arith
shift_bits_shifted (suc k) q =
    let half : shift_bit (q * 2 ^ suc k) ≡ q * 2 ^ k =
      shift_bit_even _ (omega (arith, shift_more k q)) ∙ omega (arith, shift_more k q) in
    rw half (shift_bits_shifted k q)

pub shift_bits_eight_shifted : (q : ℕ) → shift_bits 8 (q * 2 ^ 8) ≡ q
shift_bits_eight_shifted q = shift_bits_shifted 8 q

-- The table's step: eight bits of any number are its low byte's entry, folded with the rest.
pub shift_bits-split : (x : ℕ) → bit_xor (shift_bits 8 (x % 256)) (x / 2 ^ 8) ≡ shift_bits 8 x
shift_bits-split x =
    bit_xor (shift_bits 8 (x % 256)) (x / 2 ^ 8)
    ≡⟨ ap (bit_xor (shift_bits 8 (x % 256))) (sym (shift_bits_eight_shifted (x / 2 ^ 8))) ⟩
      bit_xor (shift_bits 8 (x % 256)) (shift_bits 8 (x / 2 ^ 8 * 2 ^ 8))
    ≡⟨ sym (shift_bits-xor 8 (x % 256) (x / 2 ^ 8 * 2 ^ 8)) ⟩
      shift_bits 8 (bit_xor (x % 256) (x / 2 ^ 8 * 2 ^ 8))
    ≡⟨ ap (shift_bits 8) (xor_comm (x % 256) (x / 2 ^ 8 * 2 ^ 8)) ⟩
      shift_bits 8 (bit_xor (x / 2 ^ 8 * 2 ^ 8) (x % 256))
    ≡⟨ ap (shift_bits 8) (xor_fields 8 (x / 2 ^ 8) (x % 256) (omega arith)) ⟩
      shift_bits 8 (x / 2 ^ 8 * 2 ^ 8 + x % 256)
    ≡⟨ ap (shift_bits 8) (omega arith) ⟩ shift_bits 8 x ∎
