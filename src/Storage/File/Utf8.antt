-- ===== src/Storage/File/Utf8.antt =====
-- `is_valid_utf8` of src/storage/index_file_internal.hpp: a byte string is checked from the front;
-- the bytes `b2`, `b3` and `b4` of a sequence are those at the offsets 1, 2 and 3.
use snow_seek.Prelude.{
  Bool, Bytes, [], false, if◌then◌else◌, leb, ltb, not, true, ℕ, ◌&&◌, ◌==◌, ◌||◌, ◌∷◌,
}

abbrev pub is_between : ℕ → ℕ → ℕ → Bool
is_between low high octet = leb low octet && leb octet high

-- The test of the loop over `offset` that every byte after the first passes.
unfoldable pub is_tail_byte : ℕ → Bool
is_tail_byte octet = not (ltb octet 0x80 || ltb 0xbf octet)

-- The tests at offset 1.
unfoldable pub is_second_byte : ℕ → ℕ → Bool
unfolding is_tail_byte
is_second_byte first octet =
    is_tail_byte octet
    && not (
        first == 0xe0 && ltb octet 0xa0
        || first == 0xed && ltb 0x9f octet
        || first == 0xf0 && ltb octet 0x90
        || first == 0xf4 && ltb 0x8f octet)

-- The length of a sequence by its first octet, 0 for a octet that begins none.
unfoldable pub utf8_length : ℕ → ℕ
utf8_length first =
    if leb first 0x7f
    then 1
    else if is_between 0xc2 0xdf first
    then 2
    else if is_between 0xe0 0xef first
    then 3
    else if is_between 0xf0 0xf4 first
    then 4
    else 0

unfoldable pub is_valid_utf8 : Bytes → Bool
is_valid_utf8 [] = true
is_valid_utf8 (first ∷ []) = utf8_length first == 1
is_valid_utf8 (first ∷ b2 ∷ []) =
    if utf8_length first == 1
    then is_valid_utf8 (b2 ∷ [])
    else utf8_length first == 2 && is_second_byte first b2
is_valid_utf8 (first ∷ b2 ∷ b3 ∷ []) =
    let after1 = is_valid_utf8 (b2 ∷ b3 ∷ []) in
    let after2 = is_valid_utf8 (b3 ∷ []) in
    if utf8_length first == 1
    then after1
    else if utf8_length first == 2
    then is_second_byte first b2 && after2
    else utf8_length first == 3 && is_second_byte first b2 && is_tail_byte b3
is_valid_utf8 (first ∷ b2 ∷ b3 ∷ b4 ∷ rest) = elim (utf8_length first == 1) [
  | true ↦ is_valid_utf8 (b2 ∷ b3 ∷ b4 ∷ rest)
  | false ↦ elim (utf8_length first == 2) [
    | true ↦ is_second_byte first b2 && is_valid_utf8 (b3 ∷ b4 ∷ rest)
    | false ↦ elim (utf8_length first == 3) [
      | true ↦ is_second_byte first b2 && is_tail_byte b3 && is_valid_utf8 (b4 ∷ rest)
      | false ↦
          utf8_length first == 4
          && is_second_byte first b2
          && is_tail_byte b3
          && is_tail_byte b4
          && is_valid_utf8 rest
    ]
  ]
]
