-- ===== src/Prelude/Xor.antt =====
-- `bit_xor` at every width, from its definition as a recursion on binary digits.
use Prim.Native.Nat.{ℕ, zero, suc, ◌+◌, ◌*◌, ◌/◌, ◌%◌, ◌≤◌, ◌<◌, ◌^◌}
use Prim.Native.Nat.{digits, bitwise, differ, bit_xor, bit_xor-bitwise}
use mathlib.Core.Path.{◌≡◌, refl}
use native.Mathlib.Nat.{le_refl, pow-suc, div-one, div-div-eq-div-mul}
use native.Mathlib.Omega.{arith}

-- Enough fuel for the digits of `a` is as good as any other.
digits_fuel :
    (outer : ℕ → ℕ) (op : ℕ → ℕ → ℕ) (f g a b : ℕ)
    → a ≤ g
    → a ≤ f
    → digits outer op f a b ≡ digits outer op g a b
digits_fuel outer op (suc f) (suc g) (suc a) b h k =
    omega (arith, digits_fuel outer op f g (suc a / 2) (b / 2) (omega arith) (omega arith))
digits_fuel outer op (suc f) (suc g) zero b h k = refl
digits_fuel outer op (suc f) zero (suc a) b h k = absurd (omega arith)
digits_fuel outer op (suc f) zero zero b h k = refl
digits_fuel outer op zero (suc g) (suc a) b h k = absurd (omega arith)
digits_fuel outer op zero (suc g) zero b h k = refl
digits_fuel outer op zero zero a b h k = refl

bitwise-suc :
    (a b : ℕ)
    → bitwise (λ b. b) differ (suc a) b
      ≡ bitwise (λ b. b) differ (suc a / 2) (b / 2) * 2 + differ (suc a % 2) (b % 2)
bitwise-suc a b =
    omega (
      arith,
      digits_fuel (λ b. b) differ a (suc a / 2) (suc a / 2) (b / 2) (le_refl _) (omega arith),
    )

differ_zero : (a b : ℕ) → a < 1 → differ a b ≡ b
differ_zero zero b p = refl
differ_zero (suc a) b p = omega arith

differ_bit : (a b : ℕ) → a < 2 → b < 2 → differ a b ≡ (a + b) % 2
differ_bit zero b p q = omega arith
differ_bit (suc a) zero p q = omega arith
differ_bit (suc a) (suc b) p q = ground (arith, differ_zero a b)

pub zero-bit_xor : (b : ℕ) → bit_xor 0 b ≡ b
zero-bit_xor b = bit_xor-bitwise 0 b

pub bit_xor_step : (a b : ℕ) → bit_xor a b ≡ bit_xor (a / 2) (b / 2) * 2 + (a % 2 + b % 2) % 2
bit_xor_step zero b = omega (arith, zero-bit_xor b, zero-bit_xor (b / 2))
bit_xor_step (suc a) b = omega (
  arith,
  bit_xor-bitwise (suc a) b,
  bit_xor-bitwise (suc a / 2) (b / 2),
  bitwise-suc a b,
  differ_bit (suc a % 2) (b % 2) (omega arith) (omega arith),
)

pub half-bit_xor : (a b : ℕ) → bit_xor a b / 2 ≡ bit_xor (a / 2) (b / 2)
half-bit_xor a b = omega (arith, bit_xor_step a b)

pub parity-bit_xor : (a b : ℕ) → bit_xor a b % 2 ≡ (a % 2 + b % 2) % 2
parity-bit_xor a b = omega (arith, bit_xor_step a b)

-- The laws go from half of the numbers to the numbers, below a bound on all of them.
xor_comm_below : (n a b : ℕ) → a ≤ n → b ≤ n → bit_xor a b ≡ bit_xor b a
xor_comm_below zero zero zero p q = refl
xor_comm_below zero a b p q = omega arith
xor_comm_below (suc n) a b p q = omega (
  arith,
  bit_xor_step a b,
  bit_xor_step b a,
  xor_comm_below n (a / 2) (b / 2) (omega arith) (omega arith),
)

pub xor_comm : (a b : ℕ) → bit_xor a b ≡ bit_xor b a
xor_comm a b = xor_comm_below (a + b) a b (omega arith) (omega arith)

pub bit_xor-zero : (a : ℕ) → bit_xor a 0 ≡ a
bit_xor-zero a = omega (arith, xor_comm a 0, zero-bit_xor a)

xor_assoc_below :
    (n a b c : ℕ) → a ≤ n → b ≤ n → c ≤ n → bit_xor (bit_xor a b) c ≡ bit_xor a (bit_xor b c)
xor_assoc_below zero zero zero zero p q r = refl
xor_assoc_below zero a b c p q r = omega arith
xor_assoc_below (suc n) a b c p q r =
    let whole = bit_xor_step (bit_xor a b) c in
    let whole' = bit_xor_step a (bit_xor b c) in
    let ih = xor_assoc_below n (a / 2) (b / 2) (c / 2) (omega arith) (omega arith) (omega arith) in
    let halves : bit_xor (bit_xor a b / 2) (c / 2) ≡ bit_xor (a / 2) (bit_xor b c / 2) =
      rw (half-bit_xor a b, half-bit_xor b c) ih in
    omega (arith, whole, whole', halves, parity-bit_xor a b, parity-bit_xor b c)

pub xor_assoc : (a b c : ℕ) → bit_xor (bit_xor a b) c ≡ bit_xor a (bit_xor b c)
xor_assoc a b c = xor_assoc_below (a + b + c) a b c (omega arith) (omega arith) (omega arith)

xor_self_below : (n a : ℕ) → a ≤ n → bit_xor a a ≡ 0
xor_self_below zero zero p = refl
xor_self_below zero a p = omega arith
xor_self_below (suc n) a p = omega (arith, bit_xor_step a a, xor_self_below n (a / 2) (omega arith))

pub xor_self : (a : ℕ) → bit_xor a a ≡ 0
xor_self a = xor_self_below a a (omega arith)

-- A shift by one more bit.
pub shift_more : (bits n : ℕ) → n * 2 ^ suc bits ≡ 2 * (n * 2 ^ bits)
shift_more bits n = rw (pow-suc 2 bits) (omega arith)

-- A number below `2 ^ k` is joined to a multiple of `2 ^ k` by a sum.
pub xor_fields :
    (bits high low : ℕ) → low < 2 ^ bits → bit_xor (high * 2 ^ bits) low ≡ high * 2 ^ bits + low
xor_fields zero high zero small = omega (arith, bit_xor-zero (high * 2 ^ 0))
xor_fields zero high (suc low) small = omega arith
xor_fields (suc bits) high low small =
    let half = xor_fields bits high (low / 2) (omega (arith, pow-suc 2 bits)) in
    ground (arith, half, shift_more bits high, bit_xor_step (high * 2 ^ suc bits) low)

pub xor-lt-pow : (k a b : ℕ) → a < 2 ^ k → b < 2 ^ k → bit_xor a b < 2 ^ k
xor-lt-pow zero zero zero p q = omega (arith, zero-bit_xor 0)
xor-lt-pow zero a b p q = omega arith
xor-lt-pow (suc k) a b p q = omega (
  arith,
  pow-suc 2 k,
  bit_xor_step a b,
  xor-lt-pow k (a / 2) (b / 2) (omega (arith, pow-suc 2 k)) (omega (arith, pow-suc 2 k)),
)

pub div-pow-bit_xor : (k a b : ℕ) → bit_xor a b / 2 ^ k ≡ bit_xor (a / 2 ^ k) (b / 2 ^ k)
div-pow-bit_xor zero a b = rw (div-one, div-one, div-one)
div-pow-bit_xor (suc k) a b =
    rw
      (
        pow-suc 2 k,
        ← div-div-eq-div-mul (bit_xor a b) (2 ^ k) 2,
        ← div-div-eq-div-mul a (2 ^ k) 2,
        ← div-div-eq-div-mul b (2 ^ k) 2,
        div-pow-bit_xor k a b,
      )
      (half-bit_xor (a / 2 ^ k) (b / 2 ^ k))
