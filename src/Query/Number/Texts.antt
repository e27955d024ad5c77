-- ===== src/Query/Number/Texts.antt =====
-- std::from_chars on any text: whether it is all digits, and what number they write.
use snow_seek.Prelude.{
  Bool, Bytes, [], arith, false, is_empty, leb, length, not, refl, suc, true, ℕ, ◌&&◌, ◌*◌, ◌+◌,
  ◌-◌, ◌<◌, ◌^◌, ◌||◌, ◌∙◌, ◌∷◌, ◌≡◌, ◌≤◌,
}
use snow_seek.Query.Filter.{is_error}
use snow_seek.Query.Number.{Errc, from_chars, is_digit, read_digits}

-- Only digits, and at least one.
abbrev pub are_digits : Bytes → Bool
are_digits [] = true
are_digits (c ∷ text) = leb b'0' c && leb c b'9' && are_digits text

abbrev pub is_number : Bytes → Bool
is_number text = not (is_empty text) && are_digits text

-- The number that the digits write, each by its place from the right.
abbrev pub number_of : Bytes → ℕ
number_of [] = 0
number_of (c ∷ text) = (c - b'0') * 10 ^ length text + number_of text

-- A digit before some others.
place :
    (value d rest k : ℕ)
    → (value * 10 + d) * 10 ^ k + rest ≡ value * 10 ^ suc k + (d * 10 ^ k + rest)
place value d rest k = let more : 10 ^ suc k ≡ 10 * 10 ^ k = grind arith in rw more (grind arith)

read_digits-are_digits :
    (value taken : ℕ) (text : Bytes)
    → are_digits text ≡ true
    → read_digits value taken text ≡ record {
      ec = Errc.no_error;
      value = value * 10 ^ length text + number_of text;
      taken = taken + length text;
      left = [];
    }
unfolding read_digits is_digit
read_digits-are_digits value taken [] h =
    let v : value ≡ value * 10 ^ 0 + 0 = grind arith in
    let t : taken ≡ taken + 0 = omega arith in
    λ i. record { ec = Errc.no_error; value = v i; taken = t i; left = [] }
read_digits-are_digits value taken (c ∷ text) h =
    let d = c - b'0' in
    let digit : (leb b'0' c && leb c b'9') ≡ true = ground (arith, h) in
    let later : are_digits text ≡ true = ground (arith, h) in
    let v = place value d (number_of text) (length text) in
    let t : taken + 1 + length text ≡ taken + suc (length text) = omega arith in
    rw digit (
      read_digits-are_digits (value * 10 + d) (taken + 1) text later ∙ λ i. record {
        ec = Errc.no_error;
        value = v i;
        taken = t i;
        left = [];
      })

read_digits-left :
    (value taken : ℕ) (text : Bytes)
    → are_digits text ≡ false
    → (is_empty (read_digits value taken text).left ≡ false)
      × ((read_digits value taken text).ec ≡ Errc.no_error)
unfolding read_digits is_digit
read_digits-left value taken [] h = cc
read_digits-left value taken (c ∷ text) h =
    ground (arith, h, read_digits-left (value * 10 + (c - b'0')) (taken + 1) text)

pub from_chars-number :
    (bound : ℕ) (text : Bytes)
    → is_number text ≡ true
    → number_of text < bound
    → from_chars bound text
      ≡ record { ec = Errc.no_error; value = number_of text; taken = length text; left = [] }
unfolding from_chars
from_chars-number bound [] h small = cc
from_chars-number bound (c ∷ text) h small =
    let read = read_digits-are_digits 0 0 (c ∷ text) h in
    let value_eq : 0 * 10 ^ length (c ∷ text) + number_of (c ∷ text) ≡ number_of (c ∷ text) =
      grind arith in
    let taken_eq : 0 + length (c ∷ text) ≡ length (c ∷ text) = omega arith in
    let read_ : read_digits 0 0 (c ∷ text) ≡ record {
      ec = Errc.no_error;
      value = number_of (c ∷ text);
      taken = length (c ∷ text);
      left = [];
    } =
      read ∙ λ i. record {
        ec = Errc.no_error;
        value = value_eq i;
        taken = taken_eq i;
        left = [];
      } in
    rw read_ (ground (arith, small))

pub from_chars-number_over :
    (bound : ℕ) (text : Bytes)
    → is_number text ≡ true
    → bound ≤ number_of text
    → (from_chars bound text).ec ≡ Errc.result_out_of_range
unfolding from_chars
from_chars-number_over bound [] h large = cc
from_chars-number_over bound (c ∷ text) h large =
    let read = read_digits-are_digits 0 0 (c ∷ text) h in
    let value_eq : 0 * 10 ^ length (c ∷ text) + number_of (c ∷ text) ≡ number_of (c ∷ text) =
      grind arith in
    rw (read, value_eq) (ground (arith, large))

-- A text that is no number: no digit begins it, it is out of range, or some bytes are left.
pub from_chars-no_number :
    (bound : ℕ) (text : Bytes)
    → is_number text ≡ false
    → (is_empty text
        || is_error (from_chars bound text).ec
        || not (is_empty (from_chars bound text).left))
      ≡ true
unfolding from_chars is_error
from_chars-no_number bound [] h = refl
from_chars-no_number bound (c ∷ text) h =
    let (some_left, fine) = read_digits-left 0 0 (c ∷ text) h in ground (arith, some_left, fine)
