-- ===== src/Prelude/Ascending.antt =====
-- Strictly ascending lists of numbers, such as document identifiers and positions.
use snow_seek.Prelude.{Bool, List, [], arith, false, refl, suc, ℕ, ◌<◌, ◌==◌, ◌||◌, ◌∷◌, ◌≡◌, ◌≤◌}

-- `From lo xs`: the numbers of `xs` ascend strictly and begin at `lo` or later.
abbrev pub From : ℕ → List ℕ → Type 0
From lo [] = Unit {0}
From lo (x ∷ xs) = (lo ≤ x) × From (suc x) xs

pub From-lower : (lo lo' : ℕ) (xs : List ℕ) → lo' ≤ lo → From lo xs → From lo' xs
From-lower lo lo' [] h f = tt
From-lower lo lo' (x ∷ xs) h f = (omega arith, f.1)

-- Membership as a test.
unfoldable pub member : ℕ → List ℕ → Bool
member d [] = false
member d (x ∷ xs) = d == x || member d xs

-- A number below the start is not there.
pub member-From : (d lo : ℕ) (xs : List ℕ) → From lo xs → d < lo → member d xs ≡ false
unfolding member
member-From d lo [] f h = refl
member-From d lo (x ∷ xs) f h = ground (arith, member-From d (suc x) xs)
