-- ===== src/Prelude/Int.antt =====
-- Signed integers over the native numbers; `negsuc n` is -(n + 1).
use snow_seek.Prelude.{
  Bool, arith, false, if◌then◌else◌, leb, ltb, suc, true, zero, ℕ, ◌+◌, ◌-◌, ◌==◌, ◌≡◌,
}

pub data ℤ : Type 0 where
  pos : ℕ → ℤ
  negsuc : ℕ → ℤ

-- a - b.
abbrev pub sub_ℕ : ℕ → ℕ → ℤ
sub_ℕ a b = if leb b a then pos (a - b) else negsuc (b - a - 1)

abbrev pub ltb_ℤ : ℤ → ℤ → Bool
ltb_ℤ (pos a) (pos b) = ltb a b
ltb_ℤ (pos a) (negsuc b) = false
ltb_ℤ (negsuc a) (pos b) = true
ltb_ℤ (negsuc a) (negsuc b) = ltb b a

abbrev pub eq_ℤ : ℤ → ℤ → Bool
eq_ℤ (pos a) (pos b) = a == b
eq_ℤ (pos a) (negsuc b) = false
eq_ℤ (negsuc a) (pos b) = false
eq_ℤ (negsuc a) (negsuc b) = a == b

-- z + 1.
abbrev pub next_ℤ : ℤ → ℤ
next_ℤ (pos n) = pos (n + 1)
next_ℤ (negsuc zero) = pos 0
next_ℤ (negsuc (suc n)) = negsuc n

pub sub_ℕ-suc : (a b : ℕ) → sub_ℕ (a + 1) b ≡ next_ℤ (sub_ℕ a b)
sub_ℕ-suc a b = ground arith
