-- ===== src/Cli.antt =====
-- The option values of src/cli/application.cpp: sizes, the merge fan-in and the worker threads. An
-- option's name is the start of a message.
pub mod Values
use Prim.Native.String.{String, ◌++◌}
use snow_seek.Prelude.{
  Bytes, Error, Option, Result, [], bytes_eq, if◌then◌else◌, is_empty, ltb, none, not, ok, some,
  throw, throw_if, ℕ, ◌*◌, ◌/◌, ◌==◌, ◌>>=◌, ◌>>◌, ◌^◌, ◌||◌, ◌∷◌,
}
use snow_seek.Query.Filter.{is_error, is_out_of_range, max_u64}
use snow_seek.Query.Number.{from_chars}

-- The suffixes of `parse_byte_size`: none for one that is not known.
unfoldable pub iec_multiplier : Bytes → Option ℕ
iec_multiplier suffix =
    if is_empty suffix || bytes_eq suffix (b'B' ∷ [])
    then some 1
    else if bytes_eq suffix (b'K' ∷ b'i' ∷ b'B' ∷ [])
    then some (2 ^ 10)
    else if bytes_eq suffix (b'M' ∷ b'i' ∷ b'B' ∷ [])
    then some (2 ^ 20)
    else if bytes_eq suffix (b'G' ∷ b'i' ∷ b'B' ∷ [])
    then some (2 ^ 30)
    else if bytes_eq suffix (b'T' ∷ b'i' ∷ b'B' ∷ [])
    then some (2 ^ 40)
    else none

-- The product with the suffix's factor.
unfoldable pub scale_bytes : String → ℕ → Option ℕ → Result ℕ
scale_bytes option_name number none =
    throw (Error.invalid_argument (option_name ++ " has an invalid IEC suffix"))
scale_bytes option_name number (some multiplier) = do
  throw_if (ltb (max_u64 / multiplier) number)
      (Error.overflow_error (option_name ++ " exceeds uint64_t"))
  ok (number * multiplier)

unfoldable pub parse_byte_size : Bytes → String → Result ℕ
parse_byte_size text option_name = do
  let result = from_chars (2 ^ 64) text
  throw_if (is_out_of_range result.ec) (Error.overflow_error (option_name ++ " exceeds uint64_t"))
  throw_if (is_error result.ec || result.value == 0)
      (Error.invalid_argument (option_name ++ " requires a positive size"))
  scale_bytes option_name result.value (iec_multiplier result.left)

unfoldable pub parse_merge_fan_in : Bytes → Result ℕ
parse_merge_fan_in text = do
  let result = from_chars (2 ^ 64) text
  throw_if (is_empty text || is_error result.ec || not (is_empty result.left) || ltb result.value 2)
      (Error.invalid_argument "--merge-fan-in requires an integer of at least two")
  ok result.value

unfoldable pub parse_worker_threads : Bytes → Result ℕ
parse_worker_threads text = do
  let result = from_chars (2 ^ 64) text
  throw_if (is_empty text || is_error result.ec || not (is_empty result.left) || result.value == 0)
      (Error.invalid_argument "--threads requires a positive integer")
  ok result.value
