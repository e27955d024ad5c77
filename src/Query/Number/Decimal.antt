-- ===== src/Query/Number/Decimal.antt =====
-- The decimal digits of a number, and std::from_chars on them.
use mathlib.Core.Path.{ap₂}
use snow_seek.Prelude.{
  Bool-cases, Bytes, [], ap, append_assoc, arith, false, if◌then◌else◌, inl, inr, leb, ltb,
  ltb-false, ltb→lt, refl, suc, sym, true, zero, ℕ, ◌%◌, ◌&&◌, ◌*◌, ◌++◌, ◌+◌, ◌-◌, ◌/◌, ◌<◌, ◌∙◌,
  ◌∷◌, ◌≡◌, ◌≤◌,
}
use snow_seek.Query.Number.{Errc, from_chars, is_digit, read_digits}

-- The digits of `n`, with fuel for at least as many as there are.
pub decimal_digits : ℕ → ℕ → Bytes
decimal_digits zero n = []
decimal_digits (suc f) n =
    let front = decimal_digits f (n / 10) in
    if ltb n 10 then (b'0' + n) ∷ [] else front ++ ((b'0' + n % 10) ∷ [])

-- The digits of `n`, the first one not 0 unless it is the only one.
abbrev pub decimal : ℕ → Bytes
decimal n = decimal_digits (n + 1) n

-- The text begins with no digit.
abbrev pub NoDigit : Bytes → Type 0
NoDigit [] = Unit {0}
NoDigit (c ∷ text) = is_digit c ≡ false

read_digits_stop :
    (value taken : ℕ) (text : Bytes)
    → NoDigit text
    → read_digits value taken text
      ≡ record { ec = Errc.no_error; value = value; taken = taken; left = text }
unfolding read_digits
read_digits_stop value taken [] h = refl
read_digits_stop value taken (c ∷ text) h = rw h

read_digits_digit :
    (value taken d value' taken' : ℕ) (text : Bytes)
    → d < 10
    → value' ≡ value * 10 + d
    → taken' ≡ taken + 1
    → read_digits value taken ((b'0' + d) ∷ text) ≡ read_digits value' taken' text
unfolding read_digits is_digit
read_digits_digit value taken d value' taken' text h ev et =
    let digit : (leb b'0' (b'0' + d) && leb (b'0' + d) b'9') ≡ true = ground arith in
    rw digit (ap₂ (λ (v t : ℕ). read_digits v t text) (same ∙ sym ev) (sym et))
  where
    same : value * 10 + (b'0' + d - b'0') ≡ value * 10 + d
    same = omega arith

-- The reading of a number's digits, whatever follows them.
read_decimal_digits :
    (f n taken : ℕ) (text : Bytes)
    → n < f
    → (taken' : ℕ) × (taken < taken')
      × (read_digits 0 taken (decimal_digits f n ++ text) ≡ read_digits n taken' text)
unfolding decimal_digits
read_decimal_digits zero n taken text h = absurd (omega arith)
read_decimal_digits (suc f) n taken text h = elim (Bool-cases (ltb n 10)) [
  | inl small ↦ (
    taken + 1,
    omega arith,
    rw small
        (read_digits_digit 0 taken n n (taken + 1) text (ltb→lt n 10 small) (omega arith) refl),
  )
  | inr large ↦
      let more = (b'0' + n % 10) ∷ text in
      let (taken', later, ih) =
        read_decimal_digits f (n / 10) taken more (omega (arith, ltb-false n 10 large)) in
      (
        taken' + 1,
        omega arith,
        rw large (
            ap (read_digits 0 taken) (append_assoc (decimal_digits f (n / 10)) _ text)
            ∙ ih
            ∙ read_digits_digit (n / 10) taken' (n % 10) n (taken' + 1) text (omega arith)
                (omega arith) refl),
      )
]

-- `from_chars` reads a number below its bound back from its digits, if no digit follows them.
pub from_chars-decimal :
    (bound n : ℕ) (text : Bytes)
    → n < bound
    → NoDigit text
    → (taken : ℕ) × (0 < taken)
      × (from_chars bound (decimal n ++ text)
          ≡ record { ec = Errc.no_error; value = n; taken = taken; left = text })
unfolding from_chars
from_chars-decimal bound n text h stop =
    let (taken, some_digit, e) = read_decimal_digits (n + 1) n 0 text (omega arith) in
    let r = e ∙ read_digits_stop n taken text stop in (taken, some_digit, rw r (ground arith))

-- A number that is not below the bound is out of range.
pub from_chars-decimal_over :
    (bound n : ℕ) (text : Bytes)
    → bound ≤ n
    → NoDigit text
    → (from_chars bound (decimal n ++ text)).ec ≡ Errc.result_out_of_range
unfolding from_chars
from_chars-decimal_over bound n text h stop =
    let (taken, some_digit, e) = read_decimal_digits (n + 1) n 0 text (omega arith) in
    let r = e ∙ read_digits_stop n taken text stop in rw r (ground arith)
