-- ===== src/Examples/Options.antt =====
-- src/cli and src/common: option values and counters at concrete inputs.
use snow_seek.Arithmetic.{checked_multiply, checked_multiply_lem, within_u64}
use snow_seek.Cli.{
  iec_multiplier, parse_byte_size, parse_merge_fan_in, parse_worker_threads, scale_bytes,
}
use snow_seek.Cli.Values.{
  count_options-number_from, fan_in_error, number_from, parse_byte_size-parse_size, threads_error,
}
use snow_seek.Prelude.{Bytes, [], ok, refl, throw, ◌*◌, ◌<◌, ◌^◌, ◌↔◌, ◌∷◌, ◌≡◌}
use snow_seek.Query.Filter.{is_error, is_out_of_range, parse_size}
use snow_seek.Query.Number.{from_chars, is_digit, read_digits}

abbrev four_kib : Bytes
four_kib = b'4' ∷ b'K' ∷ b'i' ∷ b'B' ∷ []

parse_byte_size_test : parse_byte_size four_kib "--memory-limit" ≡ ok 4096
unfolding parse_byte_size from_chars read_digits is_digit is_out_of_range is_error scale_bytes
    iec_multiplier
parse_byte_size_test = refl

parse_byte_size-parse_size_example :
    (parse_byte_size four_kib "--memory-limit" ≡ ok 4096)
    ↔ ((parse_size four_kib 9 ≡ ok 4096) × (0 < 4096))
parse_byte_size-parse_size_example = parse_byte_size-parse_size four_kib "--memory-limit" 9 4096

count_options-number_from_example :
    (parse_merge_fan_in four_kib ≡ number_from 2 fan_in_error four_kib)
    × (parse_worker_threads four_kib ≡ number_from 1 threads_error four_kib)
count_options-number_from_example = count_options-number_from four_kib

-- Zeros in front are taken, other bytes behind are not.
counts_test :
    (parse_merge_fan_in (b'0' ∷ b'1' ∷ b'2' ∷ []) ≡ ok 12)
    × (parse_worker_threads (b'1' ∷ b'2' ∷ b'a' ∷ []) ≡ throw threads_error)
unfolding parse_merge_fan_in parse_worker_threads from_chars read_digits is_digit is_error
counts_test = (refl, refl)

checked_multiply_lem_example :
    checked_multiply (2 ^ 32) (2 ^ 32) "posting" ≡ within_u64 "posting" (2 ^ 32 * 2 ^ 32)
checked_multiply_lem_example = checked_multiply_lem (2 ^ 32) (2 ^ 32) "posting"
