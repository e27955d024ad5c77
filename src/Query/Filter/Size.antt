-- ===== src/Query/Filter/Size.antt =====
-- What parse_size makes of a number with each suffix.
use snow_seek.Prelude.{
  Bool-cases, Bytes, Error, Result, [], arith, if◌then◌else◌, inl, inr, ltb, ltb-false, ltb→lt, ok,
  refl, some, throw, ℕ, ◌*◌, ◌++◌, ◌^◌, ◌∷◌, ◌≡◌, ◌≤◌,
}
use snow_seek.Query.Filter.{is_error, is_out_of_range, multiplier_of, parse_size, scale}
use snow_seek.Query.Number.{is_digit}
use snow_seek.Query.Number.Decimal.{NoDigit, decimal, from_chars-decimal, from_chars-decimal_over}

pub data Iec : Type 0 where
  no_suffix byte kib mib gib tib : Iec

abbrev pub suffix_of : Iec → Bytes
suffix_of no_suffix = []
suffix_of byte = b'B' ∷ []
suffix_of kib = b'K' ∷ b'i' ∷ b'B' ∷ []
suffix_of mib = b'M' ∷ b'i' ∷ b'B' ∷ []
suffix_of gib = b'G' ∷ b'i' ∷ b'B' ∷ []
suffix_of tib = b'T' ∷ b'i' ∷ b'B' ∷ []

abbrev pub factor_of : Iec → ℕ
factor_of no_suffix = 1
factor_of byte = 1
factor_of kib = 1024
factor_of mib = 1048576
factor_of gib = 1073741824
factor_of tib = 1099511627776

abbrev pub too_large : Error
too_large = Error.overflow_error "query size exceeds uint64_t"

-- The size that a number of units has, if it is below 2 ^ 64.
abbrev pub size_or_overflow : ℕ → Result ℕ
size_or_overflow n = if ltb n (2 ^ 64) then ok n else throw too_large

suffix-NoDigit : (unit : Iec) → NoDigit (suffix_of unit)
unfolding is_digit
suffix-NoDigit no_suffix = tt
suffix-NoDigit byte = refl
suffix-NoDigit kib = refl
suffix-NoDigit mib = refl
suffix-NoDigit gib = refl
suffix-NoDigit tib = refl

suffix_known : (unit : Iec) → multiplier_of (suffix_of unit) ≡ some (factor_of unit)
unfolding multiplier_of
suffix_known no_suffix = refl
suffix_known byte = refl
suffix_known kib = refl
suffix_known mib = refl
suffix_known gib = refl
suffix_known tib = refl

scale-factor :
    (offset n : ℕ) (unit : Iec)
    → scale offset n (some (factor_of unit)) ≡ size_or_overflow (n * factor_of unit)
unfolding scale
scale-factor offset n no_suffix = ground arith
scale-factor offset n byte = ground arith
scale-factor offset n kib = ground arith
scale-factor offset n mib = ground arith
scale-factor offset n gib = ground arith
scale-factor offset n tib = ground arith

factor_pos : (unit : Iec) → (n : ℕ) → n ≤ n * factor_of unit
factor_pos no_suffix n = omega arith
factor_pos byte n = omega arith
factor_pos kib n = omega arith
factor_pos mib n = omega arith
factor_pos gib n = omega arith
factor_pos tib n = omega arith

-- The size of a decimal number with a unit is their product; where it does not fit 64 bits, or
-- the number alone does not, parse_size fails with an overflow error.
pub parse_size-decimal :
    (n offset : ℕ) (unit : Iec)
    → parse_size (decimal n ++ suffix_of unit) offset ≡ size_or_overflow (n * factor_of unit)
unfolding parse_size is_out_of_range is_error
parse_size-decimal n offset unit = elim (Bool-cases (ltb n (2 ^ 64))) [
  | inl small ↦
      let (taken, some_digit, e) =
        from_chars-decimal (2 ^ 64) n (suffix_of unit) (ltb→lt n (2 ^ 64) small)
          (suffix-NoDigit unit) in
      rw (e, suffix_known unit) (ground (arith, some_digit, scale-factor offset n unit))
  | inr large ↦
      let e =
        from_chars-decimal_over (2 ^ 64) n (suffix_of unit) (ltb-false n (2 ^ 64) large)
          (suffix-NoDigit unit) in
      rw e (ground (arith, factor_pos unit n, large))
]
