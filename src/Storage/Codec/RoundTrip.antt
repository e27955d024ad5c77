-- ===== src/Storage/Codec/RoundTrip.antt =====
-- Reading and writing of the integers of src/storage/binary_codec.cpp, together.
use snow_seek.Prelude.{
  >>=-eq-ok, All, Bytes, Error, IsByte, Result, arith, false, length, none, ok, refl, throw, true,
  ℕ, ◌%◌, ◌*◌, ◌++◌, ◌+◌, ◌/◌, ◌<◌, ◌>>=◌, ◌^◌, ◌∷◌, ◌≡◌,
}
use snow_seek.Storage.Codec.{
  read_u32_le, read_u64_le, u32_bytes, u64_bytes, write_u32_le, write_u64_le,
}
use snow_seek.Storage.Stream.{Fits, Output, took, write, write-took}

pub u32_digits :
    (v : ℕ)
    → v < 2 ^ 32
    → v % 256 + v / 2 ^ 8 % 256 * 2 ^ 8 + v / 2 ^ 16 % 256 * 2 ^ 16 + v / 2 ^ 24 % 256 * 2 ^ 24 ≡ v
u32_digits v h = omega arith

pub read_u32_le-u32_bytes :
    (v : ℕ) (rest : Bytes) → v < 2 ^ 32 → read_u32_le (u32_bytes v ++ rest) ≡ ok (v, rest)
unfolding read_u32_le u32_bytes
read_u32_le-u32_bytes v rest h = ground (arith, u32_digits v h)

pub u64_digits :
    (v : ℕ)
    → v < 2 ^ 64
    → v % 256
        + v / 2 ^ 8 % 256 * 2 ^ 8
        + v / 2 ^ 16 % 256 * 2 ^ 16
        + v / 2 ^ 24 % 256 * 2 ^ 24
        + v / 2 ^ 32 % 256 * 2 ^ 32
        + v / 2 ^ 40 % 256 * 2 ^ 40
        + v / 2 ^ 48 % 256 * 2 ^ 48
        + v / 2 ^ 56 % 256 * 2 ^ 56
      ≡ v
u64_digits v h = omega arith

pub read_u64_le-u64_bytes :
    (v : ℕ) (rest : Bytes) → v < 2 ^ 64 → read_u64_le (u64_bytes v ++ rest) ≡ ok (v, rest)
unfolding read_u64_le u64_bytes
read_u64_le-u64_bytes v rest h = ground (arith, u64_digits v h)

pub length-u32_bytes : (v : ℕ) → length (u32_bytes v) ≡ 4
unfolding u32_bytes
length-u32_bytes v = refl

pub length-u64_bytes : (v : ℕ) → length (u64_bytes v) ≡ 8
unfolding u64_bytes
length-u64_bytes v = refl

pub u32_bytes-IsByte : (v : ℕ) → All IsByte (u32_bytes v)
unfolding u32_bytes
u32_bytes-IsByte v = omega arith

pub u64_bytes-IsByte : (v : ℕ) → All IsByte (u64_bytes v)
unfolding u64_bytes
u64_bytes-IsByte v = omega arith

-- What a successful read says of its input.
pub record TookU32 (bytes : Bytes) (v : ℕ) (rest : Bytes) : Type 0 where
  pub input_is : bytes ≡ u32_bytes v ++ rest
  pub in_range : v < 2 ^ 32
  pub rest_bytes : All IsByte rest

pub record TookU64 (bytes : Bytes) (v : ℕ) (rest : Bytes) : Type 0 where
  pub input_is : bytes ≡ u64_bytes v ++ rest
  pub in_range : v < 2 ^ 64
  pub rest_bytes : All IsByte rest

-- A read that succeeds took the bytes that a write of its value would have written.
pub read_u32_le-TookU32 :
    (bytes rest : Bytes) (v : ℕ)
    → All IsByte bytes
    → read_u32_le bytes ≡ ok (v, rest)
    → TookU32 bytes v rest
unfolding read_u32_le u32_bytes
read_u32_le-TookU32 (a ∷ b ∷ c ∷ d ∷ rest') rest v h e = ground arith
read_u32_le-TookU32 _ rest v h e = cc

pub read_u64_le-TookU64 :
    (bytes rest : Bytes) (v : ℕ)
    → All IsByte bytes
    → read_u64_le bytes ≡ ok (v, rest)
    → TookU64 bytes v rest
unfolding read_u64_le u64_bytes
read_u64_le-TookU64 (a ∷ b ∷ c ∷ d ∷ e' ∷ f ∷ g ∷ h' ∷ rest') rest v h e = ground arith
read_u64_le-TookU64 _ rest v h e = cc

-- Going on from a read that succeeded, with the value and the rest as variables.
pub read_u32_then :
    {B P : Type 0} {b : B} (bytes : Bytes) (f : ℕ × Bytes → Result B)
    → All IsByte bytes
    → (read_u32_le bytes >>= f) ≡ ok b
    → ((v : ℕ) (rest : Bytes) → TookU32 bytes v rest → f (v, rest) ≡ ok b → P)
    → P
read_u32_then bytes f h e k =
    let ((v, rest), now, later) = >>=-eq-ok (read_u32_le bytes) f e in
    k v rest (read_u32_le-TookU32 bytes rest v h now) later

pub read_u64_then :
    {B P : Type 0} {b : B} (bytes : Bytes) (f : ℕ × Bytes → Result B)
    → All IsByte bytes
    → (read_u64_le bytes >>= f) ≡ ok b
    → ((v : ℕ) (rest : Bytes) → TookU64 bytes v rest → f (v, rest) ≡ ok b → P)
    → P
read_u64_then bytes f h e k =
    let ((v, rest), now, later) = >>=-eq-ok (read_u64_le bytes) f e in
    k v rest (read_u64_le-TookU64 bytes rest v h now) later

-- A stringstream that holds some bytes.
abbrev pub memory : Bytes → Output
memory bytes = record { written = bytes; room = none; good = true }

pub write_u32_le-memory :
    (w : Bytes) (v : ℕ) → write_u32_le (memory w) v ≡ ok (memory (w ++ u32_bytes v))
unfolding write_u32_le
write_u32_le-memory w v = rw (write-took (memory w) (u32_bytes v) refl tt)

pub write_u64_le-memory :
    (w : Bytes) (v : ℕ) → write_u64_le (memory w) v ≡ ok (memory (w ++ u64_bytes v))
unfolding write_u64_le
write_u64_le-memory w v = rw (write-took (memory w) (u64_bytes v) refl tt)

pub write_u32_le-took :
    (out : Output) (v : ℕ)
    → out.good ≡ true
    → Fits out.room (length (u32_bytes v))
    → write_u32_le out v ≡ ok (took out (u32_bytes v))
unfolding write_u32_le
write_u32_le-took out v g f = rw (write-took out (u32_bytes v) g f)

pub write_u64_le-took :
    (out : Output) (v : ℕ)
    → out.good ≡ true
    → Fits out.room (length (u64_bytes v))
    → write_u64_le out v ≡ ok (took out (u64_bytes v))
unfolding write_u64_le
write_u64_le-took out v g f = rw (write-took out (u64_bytes v) g f)

-- A failed stream makes the next write throw.
pub write_u32_le-failed :
    (out : Output) (v : ℕ)
    → out.good ≡ false
    → write_u32_le out v ≡ throw (Error.runtime_error "failed to write binary value")
unfolding write_u32_le write
write_u32_le-failed out v g = ground arith
