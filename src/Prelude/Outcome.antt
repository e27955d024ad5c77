-- ===== src/Prelude/Outcome.antt =====
-- C++ exceptions as values. An exception is its class and its message; `syntax_error` is the
-- invalid_argument that query_parser.cpp builds from a byte offset and a reason, `invalid_utf8` is the
-- InvalidUtf8Error of text_reader.cpp with its offset, and `out_of_fuel` belongs to the model only.
use Prim.Native.Nat.{ℕ}
use Prim.Native.String.{String}
use mathlib.Core.Path.{subst, ◌≡◌, refl}
use mathlib.Core.Logic.{◌⊎◌, inl, inr}
use mathlib.Core.Bool.{Bool, true, false}

pub data Error : Type 0 where
  invalid_argument out_of_range length_error overflow_error runtime_error logic_error :
      String → Error
  syntax_error : ℕ → String → Error
  invalid_utf8 : ℕ → Error
  out_of_fuel : Error

pub data Result {ℓ} (A : Type ℓ) : Type ℓ where
  ok : A → Result A
  throw : Error → Result A

infixl 5 ◌>>=◌ ◌>>◌
abbrev pub ◌>>=◌ {ℓ κ} : {A : Type ℓ} {B : Type κ} → Result A → (A → Result B) → Result B
throw problem >>= next = throw problem
ok value >>= next = next value

abbrev pub ◌>>◌ {κ} : {B : Type κ} → Result (Unit {0}) → Result B → Result B
check >> rest = check >>= λ done. rest

-- `if (bad) throw e;`
abbrev pub throw_if : Bool → Error → Result (Unit {0})
throw_if true e = throw e
throw_if false e = ok tt

module _ {ℓ} {A : Type ℓ} where
  pub Result-cases : (r : Result A) → ((a : A) × (r ≡ ok a)) ⊎ ((e : Error) × (r ≡ throw e))
  Result-cases (ok a) = inl (a, refl)
  Result-cases (throw e) = inr (e, refl)

-- Both parts of a bind that succeeds succeed.
pub >>=-eq-ok {κ ℓ} :
    {B : Type κ} {A : Type ℓ} {final : B} (first : Result A) (next : A → Result B)
    → (first >>= next) ≡ ok final
    → (value : A) × (first ≡ ok value) × (next value ≡ ok final)
>>=-eq-ok (throw problem) next e = cc
>>=-eq-ok (ok value) next e = (value, refl, e)

-- Inversion of a successful bind, with a continuation that has the value as a variable.
pub bind_then {ℓ κ} :
    {A : Type ℓ} {B : Type κ} {P : Type 0} {b : B} (m : Result A) (f : A → Result B)
    → (m >>= f) ≡ ok b
    → ((a : A) → m ≡ ok a → f a ≡ ok b → P)
    → P
bind_then (throw e) f h k = cc
bind_then (ok a) f h k = k a refl h

pub throw_if_then {κ} :
    {B : Type κ} {P : Type 0} {b : B} (bad : Bool) (e : Error) (m : Result B)
    → (throw_if bad e >> m) ≡ ok b
    → (bad ≡ false → m ≡ ok b → P)
    → P
throw_if_then true e m h k = cc
throw_if_then false e m h k = k refl h

-- A bind after a failure fails.
pub >>=-throw {ℓ κ} :
    {A : Type ℓ} {B : Type κ} (m : Result A) (f : A → Result B) {e : Error}
    → m ≡ throw e
    → (m >>= f) ≡ throw e
>>=-throw (ok a) f h = cc
>>=-throw (throw x) f h = cc

abbrev pub is_out_of_fuel : Error → Bool
is_out_of_fuel out_of_fuel = true
is_out_of_fuel _ = false

-- A result that satisfies a predicate, or an error of the source: never the end of the fuel.
abbrev pub Yields {ℓ} : {A : Type ℓ} → (A → Type 0) → Result A → Type 0
Yields P (ok a) = P a
Yields P (throw e) = is_out_of_fuel e ≡ false

module _ {ℓ κ} {A : Type ℓ} {B : Type κ} (P : A → Type 0) (Q : B → Type 0) where
  pub Yields->>= :
      (m : Result A) (f : A → Result B)
      → Yields P m
      → ((a : A) → P a → Yields Q (f a))
      → Yields Q (m >>= f)
  Yields->>= (ok a) f h k = k a h
  Yields->>= (throw e) f h k = h

module _ {κ} {B : Type κ} (Q : B → Type 0) where
  pub Yields-throw_if :
      (bad : Bool) (e : Error) (m : Result B)
      → is_out_of_fuel e ≡ false
      → (bad ≡ false → Yields Q m)
      → Yields Q (throw_if bad e >> m)
  Yields-throw_if true e m h k = h
  Yields-throw_if false e m h k = k refl

-- What holds of the value if there is one.
abbrev pub Returns {ℓ} : {A : Type ℓ} → (A → Type 0) → Result A → Type 0
Returns P (ok a) = P a
Returns P (throw e) = Unit {0}

module _ {ℓ κ} {A : Type ℓ} {B : Type κ} (P : A → Type 0) (Q : B → Type 0) where
  pub Returns->>= :
      (m : Result A) (f : A → Result B)
      → Returns P m
      → ((a : A) → P a → Returns Q (f a))
      → Returns Q (m >>= f)
  Returns->>= (ok a) f h k = k a h
  Returns->>= (throw e) f h k = tt

module _ {κ} {B : Type κ} (Q : B → Type 0) where
  pub Returns-throw_if :
      (bad : Bool) (e : Error) (m : Result B)
      → (bad ≡ false → Returns Q m)
      → Returns Q (throw_if bad e >> m)
  Returns-throw_if true e m k = tt
  Returns-throw_if false e m k = k refl

-- A first step of which nothing is known but what it answered.
pub Returns-then {ℓ κ} :
    {A : Type ℓ} {B : Type κ} (Q : B → Type 0) (m : Result A) (f : A → Result B)
    → ((a : A) → m ≡ ok a → Returns Q (f a))
    → Returns Q (m >>= f)
Returns-then Q (ok a) f k = k a refl
Returns-then Q (throw e) f k = tt

pub Returns-self : {A : Type 0} (m : Result A) → Returns (λ a. m ≡ ok a) m
Returns-self (ok a) = refl
Returns-self (throw e) = tt

pub Returns-ok {ℓ} :
    {A : Type ℓ} (P : A → Type 0) (m : Result A) (a : A) → Returns P m → m ≡ ok a → P a
Returns-ok P m a h e = subst (Returns P) e h

pub Returns-map {ℓ} :
    {A : Type ℓ} (P Q : A → Type 0) (m : Result A)
    → Returns P m
    → ((a : A) → P a → Q a)
    → Returns Q m
Returns-map P Q (ok a) h k = k a h
Returns-map P Q (throw e) h k = tt
