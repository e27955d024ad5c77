-- ===== src/Prelude/Slices.antt =====
-- Cutting lists at a position.
use mathlib.Core.Path.{subst}
use snow_seek.Prelude.{
  All, Bytes, IsByte, List, [], ap, append_assoc, arith, drop, length, length-append, refl, suc,
  take, take-append, zero, ℕ, ◌++◌, ◌∙◌, ◌∷◌, ◌≡◌, ◌≤◌,
}

pub take-drop : {A : Type 0} (n : ℕ) (xs : List A) → xs ≡ take n xs ++ drop n xs
take-drop zero xs = refl
take-drop (suc n) [] = refl
take-drop (suc n) (x ∷ xs) = λ i. x ∷ take-drop n xs i

pub length-take : {A : Type 0} (n : ℕ) (xs : List A) → n ≤ length xs → length (take n xs) ≡ n
length-take zero xs h = refl
length-take (suc n) [] h = absurd (omega arith)
length-take (suc n) (x ∷ xs) h = omega (arith, length-take n xs (omega arith))

pub All-take : (n : ℕ) (xs : Bytes) → All IsByte xs → All IsByte (take n xs)
All-take zero xs h = tt
All-take (suc n) [] h = tt
All-take (suc n) (x ∷ xs) h = (h.0, All-take n xs h.1)

pub All-drop : (n : ℕ) (xs : Bytes) → All IsByte xs → All IsByte (drop n xs)
All-drop zero xs h = h
All-drop (suc n) [] h = tt
All-drop (suc n) (x ∷ xs) h = All-drop n xs h.1

pub append_nothing : (xs ys zs : Bytes) → xs ≡ ys ++ zs → length xs ≡ length ys → zs ≡ []
append_nothing xs ys [] e n = refl
append_nothing xs ys (z ∷ zs) e n = absurd (omega (arith, ap length e, length-append ys (z ∷ zs)))

-- The front of a list that is written in three parts.
pub take-front : (k : ℕ) (xs ys zs : Bytes) → length xs ≡ k → take k ((xs ++ ys) ++ zs) ≡ xs
take-front k xs ys zs n =
    ap (take k) (append_assoc xs ys zs)
    ∙ subst (λ (j : ℕ). take j (xs ++ (ys ++ zs)) ≡ xs) n (take-append xs (ys ++ zs))

pub drop-append_left :
    {A : Type 0} (n : ℕ) (xs ys : List A) → n ≤ length xs → drop n (xs ++ ys) ≡ drop n xs ++ ys
drop-append_left zero xs ys h = refl
drop-append_left (suc n) [] ys h = absurd (omega arith)
drop-append_left (suc n) (x ∷ xs) ys h = drop-append_left n xs ys (omega arith)

pub take-append_left :
    {A : Type 0} (n : ℕ) (xs ys : List A) → n ≤ length xs → take n (xs ++ ys) ≡ take n xs
take-append_left zero xs ys h = refl
take-append_left (suc n) [] ys h = absurd (omega arith)
take-append_left (suc n) (x ∷ xs) ys h = λ i. x ∷ take-append_left n xs ys (omega arith) i
