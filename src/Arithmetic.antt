-- ===== src/Arithmetic.antt =====
-- src/common/checked_arithmetic.hpp: sums and products of 64-bit counters.
use Prim.Native.String.{String, ◌++◌}
use native.Mathlib.Nat.{div-lt_iff_lt-mul, le-div_iff_mul-le, mul_comm}
use snow_seek.Prelude.{
  Bool-cases, Error, Result, arith, if◌then◌else◌, inl, inr, ltb, ltb-false, ltb→lt, not, ok, suc,
  throw, throw_if, zero, ℕ, ◌&&◌, ◌*◌, ◌+◌, ◌-◌, ◌/◌, ◌==◌, ◌>>◌, ◌^◌, ◌≡◌, ◌≤◌,
}

abbrev max_u64 : ℕ
max_u64 = 0xffffffffffffffff

abbrev pub counter_overflow : String → Error
counter_overflow field = Error.overflow_error ("counter overflow: " ++ field)

unfoldable pub checked_add : ℕ → ℕ → String → Result ℕ
checked_add left right field = do
  throw_if (ltb (max_u64 - left) right) (counter_overflow field)
  ok (left + right)

unfoldable pub checked_multiply : ℕ → ℕ → String → Result ℕ
checked_multiply left right field = do
  throw_if (not (left == 0) && ltb (max_u64 / left) right) (counter_overflow field)
  ok (left * right)

-- The value if 64 bits hold it.
abbrev pub within_u64 : String → ℕ → Result ℕ
within_u64 field n = if ltb n (2 ^ 64) then ok n else throw (counter_overflow field)

pub product_test :
    (left right : ℕ)
    → (not (left == 0) && ltb (max_u64 / left) right) ≡ not (ltb (left * right) (2 ^ 64))
product_test zero right = ground arith
product_test (suc left) right =
    let low = (div-lt_iff_lt-mul {k = suc left} {x = max_u64} {y = right} (omega arith)).0 in
    let swap = mul_comm (suc left) right in
    elim (Bool-cases (ltb (max_u64 / suc left) right)) [
      | inl e ↦
          let over = low (ltb→lt (max_u64 / suc left) right e) in ground (arith, e, over, swap)
      | inr e ↦
          let fits : suc left * right ≤ max_u64 = omega (
            arith,
            swap,
            (le-div_iff_mul-le {k = suc left} {x = right} {y = max_u64} (omega arith)).0
                (ltb-false (max_u64 / suc left) right e),
          ) in
          ground (arith, e, fits)
    ]

-- checked_multiply answers the product of two counters if 64 bits hold it, and the overflow error
-- otherwise.
pub checked_multiply_lem :
    (left right : ℕ) (field : String)
    → checked_multiply left right field ≡ within_u64 field (left * right)
unfolding checked_multiply
checked_multiply_lem left right field = rw (product_test left right) (ground arith)
