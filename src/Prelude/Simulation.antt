-- ===== src/Prelude/Simulation.antt =====
-- Two computations side by side: both give values that are related, or both throw one error.
use snow_seek.Prelude.{
  Bool, Error, Result, ap, false, ok, refl, throw, throw_if, true, ◌>>=◌, ◌>>◌, ◌≡◌,
}

abbrev pub Simulates {ℓ κ} :
    {A : Type ℓ} {B : Type κ} → (A → B → Type 0) → Result A → Result B → Type 0
Simulates R (ok a) (ok b) = R a b
Simulates R (throw e) (throw e') = e ≡ e'
Simulates R (ok a) (throw e) = ⊥
Simulates R (throw e) (ok b) = ⊥

module _ {ℓ κ ℓ' κ'} {A : Type ℓ} {B : Type κ} {C : Type ℓ'} {D : Type κ'} (R : A → B → Type 0)
    (Q : C → D → Type 0) where
  pub Simulates->>= :
      (m : Result A) (n : Result B) (f : A → Result C) (g : B → Result D)
      → Simulates R m n
      → ((a : A) (b : B) → R a b → Simulates Q (f a) (g b))
      → Simulates Q (m >>= f) (n >>= g)
  Simulates->>= (ok a) (ok b) f g h k = k a b h
  Simulates->>= (throw e) (throw e') f g h k = h
  Simulates->>= (ok a) (throw e) f g h k = absurd h
  Simulates->>= (throw e) (ok b) f g h k = absurd h

module _ {ℓ ℓ' κ'} {A : Type ℓ} {C : Type ℓ'} {D : Type κ'} (Q : C → D → Type 0) where
  -- The same computation first on both sides.
  pub Simulates-same :
      (m : Result A) (f : A → Result C) (g : A → Result D)
      → ((a : A) → m ≡ ok a → Simulates Q (f a) (g a))
      → Simulates Q (m >>= f) (m >>= g)
  Simulates-same (ok a) f g k = k a refl
  Simulates-same (throw e) f g k = refl

module _ {ℓ κ} {C : Type ℓ} {D : Type κ} (Q : C → D → Type 0) where
  pub Simulates-throw_if :
      (bad : Bool) (e : Error) (m : Result C) (n : Result D)
      → (bad ≡ false → Simulates Q m n)
      → Simulates Q (throw_if bad e >> m) (throw_if bad e >> n)
  Simulates-throw_if true e m n k = refl
  Simulates-throw_if false e m n k = k refl

pub Simulates-eq {ℓ κ ℓ'} :
    {A : Type ℓ} {B : Type κ} {C : Type ℓ'} (R : A → B → Type 0) (m : Result A) (n : Result B)
    (f : A → Result C) (g : B → Result C)
    → Simulates R m n
    → ((a : A) (b : B) → R a b → f a ≡ g b)
    → (m >>= f) ≡ (n >>= g)
Simulates-eq R (ok a) (ok b) f g h k = k a b h
Simulates-eq R (throw e) (throw e') f g h k = ap throw h
Simulates-eq R (ok a) (throw e) f g h k = absurd h
Simulates-eq R (throw e) (ok b) f g h k = absurd h

pub >>=-eq {ℓ κ} :
    {A : Type ℓ} {C : Type κ} (m : Result A) (f g : A → Result C)
    → ((a : A) → m ≡ ok a → f a ≡ g a)
    → (m >>= f) ≡ (m >>= g)
>>=-eq (ok a) f g k = k a refl
>>=-eq (throw e) f g k = refl

pub >>=-assoc {ℓ κ ℓ'} :
    {A : Type ℓ} {B : Type κ} {C : Type ℓ'} (m : Result A) (f : A → Result B) (g : B → Result C)
    → ((m >>= f) >>= g) ≡ (m >>= λ a. f a >>= g)
>>=-assoc (ok a) f g = refl
>>=-assoc (throw e) f g = refl
