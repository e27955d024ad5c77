-- ===== src/Query/Number.antt =====
-- std::from_chars for unsigned decimal numbers, as src/query/query_parser.cpp and
-- src/cli/application.cpp use it: the digits at the front of the text, however many. It answers with
-- what went wrong, the value, how many bytes it took and what is left.
pub mod Decimal
pub mod Texts
use snow_seek.Prelude.{Bool, Bytes, [], if◌then◌else◌, leb, ltb, ℕ, ◌&&◌, ◌*◌, ◌+◌, ◌-◌, ◌==◌, ◌∷◌}

pub data Errc : Type 0 where
  no_error invalid result_out_of_range : Errc

pub record FromChars : Type 0 where
  pub ec : Errc
  pub value : ℕ
  pub taken : ℕ
  pub left : Bytes

unfoldable pub is_digit : ℕ → Bool
is_digit c = leb b'0' c && leb c b'9'

-- The digits at the front: their number, and the rest.
unfoldable pub read_digits : ℕ → ℕ → Bytes → FromChars
read_digits value taken [] = record { ec = Errc.no_error; value = value; taken = taken; left = [] }
read_digits value taken (c ∷ text) =
    let more = read_digits (value * 10 + (c - b'0')) (taken + 1) text in
    if is_digit c
    then more
    else record { ec = Errc.no_error; value = value; taken = taken; left = c ∷ text }

-- With no digit, or a number that is not below `bound`, the value is left as the caller set it: 0.
unfoldable pub from_chars : ℕ → Bytes → FromChars
from_chars bound text =
    let r = read_digits 0 0 text in
    if r.taken == 0
    then record { ec = Errc.invalid; value = 0; taken = 0; left = text }
    else if ltb r.value bound
    then r
    else record r { ec = Errc.result_out_of_range; value = 0 }
