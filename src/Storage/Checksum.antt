-- ===== src/Storage/Checksum.antt =====
-- src/storage/checksum.cpp: CRC32C by slicing-by-eight. The constexpr tables are functions of the
-- slice and the index that compute the entry; `x & 0xff` is `x % 256` and `x >> k` is `x / 2 ^ k`.
pub mod Linear
pub mod Slices
pub mod Chunks
use snow_seek.Prelude.{
  Bytes, [], bit_xor, if◌then◌else◌, refl, suc, zero, ℕ, ◌%◌, ◌*◌, ◌/◌, ◌==◌, ◌^◌, ◌∷◌, ◌≡◌,
}

abbrev pub reflected_castagnoli_polynomial : ℕ
reflected_castagnoli_polynomial = 0x82f63b78

-- One round of the loop over `bit` that fills the first table.
unfoldable pub shift_bit : ℕ → ℕ
shift_bit entry =
    if entry % 2 == 0 then entry / 2 else bit_xor (entry / 2) reflected_castagnoli_polynomial

-- `n` rounds of that loop.
unfoldable pub shift_bits : ℕ → ℕ → ℕ
shift_bits zero entry = entry
shift_bits (suc n) entry = shift_bits n (shift_bit entry)

-- `tables[slice][index]`.
unfoldable pub crc32c_tables : ℕ → ℕ → ℕ
crc32c_tables zero index = shift_bits 8 index
crc32c_tables (suc slice) index =
    let previous = crc32c_tables slice index in
    bit_xor (shift_bits 8 (previous % 256)) (previous / 2 ^ 8)

-- The class Crc32c: its one member.
pub record Crc32c : Type 0 where
  pub state : ℕ

abbrev pub initial : Crc32c
initial = record { state = 0xffffffff }

-- One round of the loop that takes eight bytes.
unfoldable pub update_eight : ℕ → ℕ → ℕ → ℕ → ℕ → ℕ → ℕ → ℕ → ℕ → ℕ
update_eight state a b c d e f g h =
    let first =
      bit_xor (bit_xor (bit_xor (bit_xor state a) (b * 2 ^ 8)) (c * 2 ^ 16)) (d * 2 ^ 24) in
    let second = bit_xor (bit_xor (bit_xor e (f * 2 ^ 8)) (g * 2 ^ 16)) (h * 2 ^ 24) in
    bit_xor
      (bit_xor
        (bit_xor
          (bit_xor
            (bit_xor
              (bit_xor
                (bit_xor (crc32c_tables 7 (first % 256)) (crc32c_tables 6 (first / 2 ^ 8 % 256)))
                (crc32c_tables 5 (first / 2 ^ 16 % 256)))
              (crc32c_tables 4 (first / 2 ^ 24)))
            (crc32c_tables 3 (second % 256)))
          (crc32c_tables 2 (second / 2 ^ 8 % 256)))
        (crc32c_tables 1 (second / 2 ^ 16 % 256)))
      (crc32c_tables 0 (second / 2 ^ 24))

-- One round of the loop over the bytes that are left.
unfoldable pub update_byte : ℕ → ℕ → ℕ
update_byte state byte = bit_xor (crc32c_tables 0 (bit_xor state byte % 256)) (state / 2 ^ 8)

unfoldable pub update_tail : ℕ → Bytes → ℕ
update_tail state [] = state
update_tail state (byte ∷ rest) = update_tail (update_byte state byte) rest

-- Both loops of `update`: eight bytes at a time while there are as many, then one by one.
unfoldable pub update_state : ℕ → Bytes → ℕ
update_state state (a ∷ b ∷ c ∷ d ∷ e ∷ f ∷ g ∷ h ∷ rest) =
    update_state (update_eight state a b c d e f g h) rest
update_state state bytes = update_tail state bytes

unfoldable pub update : Crc32c → Bytes → Crc32c
update checksum bytes = record { state = update_state checksum.state bytes }

unfoldable pub value : Crc32c → ℕ
value checksum = bit_xor checksum.state 0xffffffff

unfoldable pub crc32c : Bytes → ℕ
crc32c bytes = value (update initial bytes)

-- The check value of CRC32C, over the digits from 1 to 9.
crc32c_check :
    crc32c (0x31 ∷ 0x32 ∷ 0x33 ∷ 0x34 ∷ 0x35 ∷ 0x36 ∷ 0x37 ∷ 0x38 ∷ 0x39 ∷ []) ≡ 0xe3069283
unfolding crc32c update value update_state update_eight update_tail update_byte crc32c_tables
    shift_bits shift_bit
crc32c_check = refl
