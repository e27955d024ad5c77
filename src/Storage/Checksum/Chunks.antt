-- ===== src/Storage/Checksum/Chunks.antt =====
-- The checksum of src/storage/checksum.cpp against the bitwise definition, and its chunks.
use snow_seek.Prelude.{
  All, All-append, Bytes, IsByte, IsU32, [], ap, arith, bit_xor, refl, suc, sym, zero, ℕ, ◌*◌, ◌++◌,
  ◌/◌, ◌<◌, ◌^◌, ◌∙◌, ◌∷◌, ◌≡◌,
}
use snow_seek.Prelude.Xor.{xor-lt-pow}
use snow_seek.Storage.Checksum.{
  Crc32c, crc32c, reflected_castagnoli_polynomial, shift_bit, shift_bits, update, update_state,
  value,
}
use snow_seek.Storage.Checksum.Slices.{bitwise_crc, first_word, update_state_lem}

-- On bytes, `crc32c` is the CRC32C computed a bit at a time from all ones, with a final inversion.
pub crc32c-bitwise :
    (bytes : Bytes)
    → All IsByte bytes
    → crc32c bytes ≡ bit_xor (bitwise_crc 0xffffffff bytes) 0xffffffff
unfolding crc32c update value
crc32c-bitwise bytes h = ap (λ (s : ℕ). bit_xor s 0xffffffff) (update_state_lem 0xffffffff bytes h)

bitwise_crc-append :
    (state : ℕ) (xs ys : Bytes)
    → bitwise_crc state (xs ++ ys) ≡ bitwise_crc (bitwise_crc state xs) ys
bitwise_crc-append state [] ys = refl
bitwise_crc-append state (x ∷ xs) ys = bitwise_crc-append (shift_bits 8 (bit_xor state x)) xs ys

-- Updating with two byte strings in turn is updating with their concatenation, wherever the input
-- is cut: the eight-byte rounds of the two calls need not line up with those of the one.
pub update-append :
    (checksum : Crc32c) (xs ys : Bytes)
    → All IsByte xs
    → All IsByte ys
    → update (update checksum xs) ys ≡ update checksum (xs ++ ys)
unfolding update
update-append checksum xs ys hx hy =
    let s = checksum.state in
    let step : update_state (update_state s xs) ys ≡ update_state s (xs ++ ys) =
      update_state_lem (update_state s xs) ys hy
      ∙ ap (λ (z : ℕ). bitwise_crc z ys) (update_state_lem s xs hx)
      ∙ sym (bitwise_crc-append s xs ys)
      ∙ sym (update_state_lem s (xs ++ ys) (All-append IsByte xs ys hx hy)) in
    λ i. record { state = step i }

shift_bit-lt : (x : ℕ) → IsU32 x → IsU32 (shift_bit x)
unfolding shift_bit
shift_bit-lt x h =
    ground
      (arith, xor-lt-pow 32 (x / 2) reflected_castagnoli_polynomial (omega arith) (omega arith))

shift_bits-lt : (n x : ℕ) → IsU32 x → IsU32 (shift_bits n x)
unfolding shift_bits
shift_bits-lt zero x h = h
shift_bits-lt (suc n) x h = shift_bits-lt n (shift_bit x) (shift_bit-lt x h)

bitwise_crc-lt :
    (state : ℕ) (bytes : Bytes) → IsU32 state → All IsByte bytes → IsU32 (bitwise_crc state bytes)
bitwise_crc-lt state [] h k = h
bitwise_crc-lt state (b ∷ bytes) h k =
    bitwise_crc-lt (shift_bits 8 (bit_xor state b)) bytes
      (shift_bits-lt 8 (bit_xor state b) (xor-lt-pow 32 state b h (omega arith))) k.1

first_word-lt :
    (s a b c d : ℕ)
    → IsU32 s
    → IsByte a
    → IsByte b
    → IsByte c
    → IsByte d
    → IsU32 (first_word s a b c d)
first_word-lt s a b c d hs ha hb hc hd =
    xor-lt-pow 32 _ (d * 2 ^ 24)
      (xor-lt-pow 32 _ (c * 2 ^ 16)
        (xor-lt-pow 32 _ (b * 2 ^ 8) (xor-lt-pow 32 s a hs (omega arith)) (omega arith))
        (omega arith))
      (omega arith)

-- From a 32-bit state, the state after any bytes and the checksum are 32-bit numbers, and the one
-- table index of an eight-byte round that no mask bounds, `first >> 24`, is below 256.
pub crc32c_in_range :
    (s a b c d : ℕ) (bytes : Bytes)
    → IsU32 s
    → All IsByte (a ∷ b ∷ c ∷ d ∷ bytes)
    → (first_word s a b c d / 2 ^ 24 < 256) × IsU32 (update_state s bytes) × IsU32 (crc32c bytes)
unfolding crc32c update value
crc32c_in_range s a b c d bytes hs h = (
  omega (arith, first_word-lt s a b c d hs h.0 h.1.0 h.1.1.0 h.1.1.1.0),
  rw (update_state_lem s bytes h.1.1.1.1) (bitwise_crc-lt s bytes hs h.1.1.1.1),
  xor-lt-pow 32 (update_state 0xffffffff bytes) 0xffffffff
      (rw (update_state_lem 0xffffffff bytes h.1.1.1.1)
        (bitwise_crc-lt 0xffffffff bytes (omega arith) h.1.1.1.1))
      (omega arith),
)

-- The checksum of bytes is a 32-bit number.
pub crc32c-IsU32 : (bytes : Bytes) → All IsByte bytes → IsU32 (crc32c bytes)
crc32c-IsU32 bytes h =
    (crc32c_in_range 0 0 0 0 0 bytes (omega arith)
      (omega arith, (omega arith, (omega arith, (omega arith, h))))).2
