-- ===== src/Cli/Values.antt =====
-- The values that the options of src/cli/application.cpp take.
use mathlib.Core.Path.{subst}
use snow_seek.Cli.{
  iec_multiplier, parse_byte_size, parse_merge_fan_in, parse_worker_threads, scale_bytes,
}
use snow_seek.Prelude.{
  Bool-cases, Bytes, Error, Option, Result, String, arith, false, if◌then◌else◌, inl, inr, leb, ltb,
  ltb-false, ltb→lt, none, ok, refl, some, suc, sym, throw, throw_if_then, zero, ℕ, ◌&&◌, ◌*◌, ◌<◌,
  ◌==◌, ◌^◌, ◌||◌, ◌↔◌, ◌≡◌,
}
use snow_seek.Query.Filter.{is_error, is_out_of_range, multiplier_of, parse_size, scale}
use snow_seek.Query.Number.{from_chars}
use snow_seek.Query.Number.Texts.{
  from_chars-no_number, from_chars-number, from_chars-number_over, is_number, number_of,
}

from_chars-taken :
    (bound : ℕ) (text : Bytes)
    → is_error (from_chars bound text).ec ≡ false
    → ((from_chars bound text).taken == 0) ≡ false
unfolding from_chars is_error
from_chars-taken bound text h = ground (arith, h)

-- The two tables of suffixes agree.
iec_multiplier-multiplier_of : (suffix : Bytes) → iec_multiplier suffix ≡ multiplier_of suffix
unfolding iec_multiplier multiplier_of
iec_multiplier-multiplier_of suffix = refl

iec_multiplier-positive : (suffix : Bytes) (m : ℕ) → iec_multiplier suffix ≡ some m → 0 < m
unfolding iec_multiplier
iec_multiplier-positive suffix m e = ground (arith, e)

-- Of a number and a factor, the sizes of the command line are those of the query.
scale_bytes-scale :
    (name : String) (offset number : ℕ) (multiplier : Option ℕ) (n : ℕ)
    → (scale_bytes name number multiplier ≡ ok n) ↔ (scale offset number multiplier ≡ ok n)
unfolding scale_bytes scale
scale_bytes-scale name offset number none n = ((λ e. cc), (λ e. cc))
scale_bytes-scale name offset number (some m) n =
    ((λ e. ground (arith, e)), (λ e. ground (arith, e)))

scale_bytes-positive :
    (name : String) (number n : ℕ) (multiplier : Option ℕ)
    → ((m : ℕ) → multiplier ≡ some m → 0 < m)
    → 0 < number
    → scale_bytes name number multiplier ≡ ok n
    → 0 < n
unfolding scale_bytes
scale_bytes-positive name number n none factor h e = cc
scale_bytes-positive name number n (some m) factor h e =
    let product : number * m ≡ n = ground (arith, e) in
    let pos_ = factor m refl in subst (λ (k : ℕ). 0 < k) product (grind arith)

scale-positive :
    (offset number n : ℕ) (multiplier : Option ℕ)
    → scale offset number multiplier ≡ ok n
    → 0 < n
    → 0 < number
unfolding scale
scale-positive offset zero n none e h = cc
scale-positive offset zero n (some m) e h = ground (arith, e)
scale-positive offset (suc number) n multiplier e h = omega arith

positive_size :
    (text : Bytes) (name : String) (offset n : ℕ)
    → parse_byte_size text name ≡ ok n
    → (parse_size text offset ≡ ok n) × (0 < n)
unfolding parse_byte_size parse_size
positive_size text name offset n e =
    let result = from_chars (2 ^ 64) text in
    let factor = iec_multiplier result.left in
    throw_if_then (is_out_of_range result.ec) _ _ e λ near e1.
      throw_if_then (is_error result.ec || result.value == 0) _ _ e1 λ good e2.
        let right : is_error result.ec ≡ false = ground (arith, good) in
        let some_ : 0 < result.value = ground (arith, good) in
        let read : (result.taken == 0 || is_error result.ec) ≡ false =
          ground (arith, right, from_chars-taken (2 ^ 64) text right) in
        (
          rw (near, read, sym (iec_multiplier-multiplier_of result.left))
              ((scale_bytes-scale name offset result.value factor n).0 e2),
          scale_bytes-positive name result.value n factor (iec_multiplier-positive result.left)
              some_ e2,
        )

-- An option of the command line takes as a size exactly the texts that the size filter of a query takes
-- as a positive size, and it takes them as the same number of bytes.
pub parse_byte_size-parse_size :
    (text : Bytes) (name : String) (offset n : ℕ)
    → (parse_byte_size text name ≡ ok n) ↔ ((parse_size text offset ≡ ok n) × (0 < n))
unfolding parse_byte_size parse_size
parse_byte_size-parse_size text name offset n = (
  positive_size text name offset n,
  λ (e, h).
      let result = from_chars (2 ^ 64) text in
      let factor = multiplier_of result.left in
      throw_if_then (is_out_of_range result.ec) _ _ e λ near e1.
        throw_if_then (result.taken == 0 || is_error result.ec) _ _ e1 λ good e2.
          let some_ = scale-positive offset result.value n factor e2 h in
          let right : (is_error result.ec || result.value == 0) ≡ false =
            ground (arith, good, some_) in
          rw (near, right, iec_multiplier-multiplier_of result.left)
            ((scale_bytes-scale name offset result.value factor n).1 e2),
)

-- What an option for a number of at least `least` takes, and what it answers otherwise.
abbrev pub number_from : ℕ → Error → Bytes → Result ℕ
number_from least e text =
    if is_number text && leb least (number_of text) && ltb (number_of text) (2 ^ 64)
    then ok (number_of text)
    else throw e

abbrev pub fan_in_error : Error
fan_in_error = Error.invalid_argument "--merge-fan-in requires an integer of at least two"

abbrev pub threads_error : Error
threads_error = Error.invalid_argument "--threads requires a positive integer"

-- Each of the two options that count takes the texts of digits only whose number, each digit counted
-- by its place, fits 64 bits and is at least 2 for the fan-in and 1 for the threads, and answers that
-- number. Every other text is refused with the option's error: the empty one, one with another byte
-- anywhere, and a number too small or too large.
pub count_options-number_from :
    (text : Bytes)
    → (parse_merge_fan_in text ≡ number_from 2 fan_in_error text)
      × (parse_worker_threads text ≡ number_from 1 threads_error text)
unfolding parse_merge_fan_in parse_worker_threads is_error
count_options-number_from text =
    let n = number_of text in
    elim (Bool-cases (is_number text)) [
      | inl digits ↦ elim (Bool-cases (ltb n (2 ^ 64))) [
        | inl small ↦
            let e = from_chars-number (2 ^ 64) text digits (ltb→lt n (2 ^ 64) small) in
            rw e (ground (arith, digits, small), ground (arith, digits, small))
        | inr large ↦
            let e = from_chars-number_over (2 ^ 64) text digits (ltb-false n (2 ^ 64) large) in
            rw e (ground (arith, digits, large), ground (arith, digits, large))
      ]
      | inr other ↦
          let bad = from_chars-no_number (2 ^ 64) text other in
          (ground (arith, bad, other), ground (arith, bad, other))
    ]
