-- ===== src/Index/Order.antt =====
-- The order of byte strings that src/index/index.cpp sorts terms by.
use snow_seek.Index.{bytes_less}
use snow_seek.Prelude.{
  Bytes, [], arith, false, inl, inr, is_empty, not, refl, true, ◌&&◌, ◌∷◌, ◌≡◌, ◌⊎◌,
}

pub bytes_less_irrefl : (a : Bytes) → bytes_less a a ≡ false
unfolding bytes_less
bytes_less_irrefl [] = refl
bytes_less_irrefl (x ∷ a) = ground (arith, bytes_less_irrefl a)

pub bytes_less_trans :
    (a b c : Bytes) → bytes_less a b ≡ true → bytes_less b c ≡ true → bytes_less a c ≡ true
unfolding bytes_less
bytes_less_trans a b [] h k = cc
bytes_less_trans a [] (z ∷ c) h k = cc
bytes_less_trans [] (y ∷ b) (z ∷ c) h k = refl
bytes_less_trans (x ∷ a) (y ∷ b) (z ∷ c) h k = ground (arith, bytes_less_trans a b c)

not_below_empty : (key : Bytes) → bytes_less key [] ≡ false
unfolding bytes_less
not_below_empty [] = refl
not_below_empty (x ∷ key) = refl

-- A nonempty key at or before a text.
abbrev pub KeyUpTo : Bytes → Bytes → Type 0
KeyUpTo text key = (is_empty key ≡ false) × ((bytes_less key text ≡ true) ⊎ (key ≡ text))

pub KeyUpTo-next :
    (previous text key : Bytes)
    → (not (is_empty previous) && not (bytes_less previous text)) ≡ false
    → KeyUpTo previous key
    → bytes_less key text ≡ true
KeyUpTo-next [] text key h (some_, inl e) = cc (not_below_empty key, e)
KeyUpTo-next [] text key h (some_, inr e) = cc
KeyUpTo-next (x ∷ previous) text key h (some_, inl e) =
    bytes_less_trans key (x ∷ previous) text e (ground (arith, h))
KeyUpTo-next (x ∷ previous) text key h (some_, inr e) = ground (arith, h, e)
