-- ===== src/Storage/Codec.antt =====
-- src/storage/binary_codec.cpp. A byte is a number below 256. `value & 0xff` is `value % 256` and
-- `value >> 8k` is `value / 256 ^ k`; the `|` that joins the shifted bytes of a number never meets
-- two ones in one place, so it is a sum.
pub mod RoundTrip
use snow_seek.Prelude.{
  Bytes, Error, Result, [], not, ok, throw, throw_if, ℕ, ◌%◌, ◌*◌, ◌+◌, ◌/◌, ◌>>=◌, ◌>>◌, ◌^◌, ◌∷◌,
}
use snow_seek.Storage.Stream.{Output, write}

-- The four bytes that `write_u32_le` builds.
unfoldable pub u32_bytes : ℕ → Bytes
u32_bytes value =
    value % 256 ∷ value / 2 ^ 8 % 256 ∷ value / 2 ^ 16 % 256 ∷ value / 2 ^ 24 % 256 ∷ []

-- The eight bytes that `write_u64_le` builds.
unfoldable pub u64_bytes : ℕ → Bytes
u64_bytes value =
    value % 256
    ∷ value / 2 ^ 8 % 256
    ∷ value / 2 ^ 16 % 256
    ∷ value / 2 ^ 24 % 256
    ∷ value / 2 ^ 32 % 256
    ∷ value / 2 ^ 40 % 256
    ∷ value / 2 ^ 48 % 256
    ∷ value / 2 ^ 56 % 256
    ∷ []

unfoldable pub require_write : Output → Result Output
require_write out = do
  throw_if (not out.good) (Error.runtime_error "failed to write binary value")
  ok out

unfoldable pub write_u32_le : Output → ℕ → Result Output
unfolding require_write
write_u32_le out value = require_write (write out (u32_bytes value))

unfoldable pub write_u64_le : Output → ℕ → Result Output
unfolding require_write
write_u64_le out value = require_write (write out (u64_bytes value))

-- The value and the bytes that are left. `read_bytes` throws unless all the bytes are there.
unfoldable pub read_u32_le : Bytes → Result (ℕ × Bytes)
read_u32_le (a ∷ b ∷ c ∷ d ∷ rest) = ok (a + b * 2 ^ 8 + c * 2 ^ 16 + d * 2 ^ 24, rest)
read_u32_le _ = throw (Error.runtime_error "truncated u32")

unfoldable pub read_u64_le : Bytes → Result (ℕ × Bytes)
read_u64_le (a ∷ b ∷ c ∷ d ∷ e ∷ f ∷ g ∷ h ∷ rest) = ok (
  a + b * 2 ^ 8 + c * 2 ^ 16 + d * 2 ^ 24 + e * 2 ^ 32 + f * 2 ^ 40 + g * 2 ^ 48 + h * 2 ^ 56,
  rest,
)
read_u64_le _ = throw (Error.runtime_error "truncated u64")
