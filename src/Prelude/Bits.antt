-- ===== src/Prelude/Bits.antt =====
-- `hi << k | lo` as a sum: the two numbers share no bit.
use Prim.Native.Nat.{
  ℕ, zero, suc, ◌+◌, ◌*◌, ◌/◌, ◌%◌, ◌^◌, ◌≤◌, ◌<◌, max, bit_or, digits, bit_or-bitwise,
}
use mathlib.Core.Path.{◌≡◌, refl, ap, ◌∙◌}
use native.Mathlib.Omega.{arith}
use native.Mathlib.Nat.{pow-suc}

abbrev or_digits : ℕ → ℕ → ℕ → ℕ
or_digits n a b = digits (λ b. b) max n a b

-- Any count of digits that covers the first number gives the same result.
or_digits_fuel : (n m a b : ℕ) → a ≤ n → a ≤ m → or_digits n a b ≡ or_digits m a b
or_digits_fuel zero zero a b p q = refl
or_digits_fuel zero (suc m) zero b p q = refl
or_digits_fuel zero (suc m) (suc a) b p q = absurd (omega arith)
or_digits_fuel (suc n) zero zero b p q = refl
or_digits_fuel (suc n) zero (suc a) b p q = absurd (omega arith)
or_digits_fuel (suc n) (suc m) zero b p q = refl
or_digits_fuel (suc n) (suc m) (suc a) b p q =
    omega (arith, or_digits_fuel n m (suc a / 2) (b / 2) (omega arith) (omega arith))

zero-bit_or : (b : ℕ) → bit_or 0 b ≡ b
zero-bit_or b = bit_or-bitwise 0 b

pub bit_or_step : (a b : ℕ) → bit_or a b ≡ bit_or (a / 2) (b / 2) * 2 + max (a % 2) (b % 2)
bit_or_step zero b = omega (arith, zero-bit_or b, zero-bit_or (b / 2))
bit_or_step (suc a) b = omega (
  arith,
  bit_or-bitwise (suc a) b,
  bit_or-bitwise (suc a / 2) (b / 2),
  or_digits_fuel a (suc a / 2) (suc a / 2) (b / 2) (omega arith) (omega arith),
)

bit_or-zero_fuel : (n a : ℕ) → a ≤ n → bit_or a 0 ≡ a
bit_or-zero_fuel n zero h = refl
bit_or-zero_fuel zero (suc a) h = absurd (omega arith)
bit_or-zero_fuel (suc n) (suc a) h =
    omega (arith, bit_or_step (suc a) 0, bit_or-zero_fuel n (suc a / 2) (omega arith))

double : (h k : ℕ) → h * 2 ^ suc k ≡ h * 2 ^ k * 2
double h k = omega (arith, ap (λ (t : ℕ). h * t) (pow-suc 2 k))

half_double : (h k : ℕ) → h * 2 ^ suc k / 2 ≡ h * 2 ^ k
half_double h k = omega (arith, double h k)

-- The low number fills the digits that the shift left empty.
bit_or_disjoint : (k h l : ℕ) → l < 2 ^ k → bit_or (h * 2 ^ k) l ≡ h * 2 ^ k + l
bit_or_disjoint zero h l lt =
    ap (bit_or (h * 2 ^ 0)) (omega arith)
    ∙ bit_or-zero_fuel (h * 2 ^ 0) (h * 2 ^ 0) (omega arith)
    ∙ omega arith
bit_or_disjoint (suc k) h l lt = omega (
  arith,
  bit_or_step (h * 2 ^ suc k) l,
  ap (λ t. bit_or t (l / 2)) (half_double h k),
  double h k,
  bit_or_disjoint k h (l / 2) (omega (arith, pow-suc 2 k)),
)

pub bit_or_shift : (h l : ℕ) → l < 65536 → bit_or (h * 65536) l ≡ h * 65536 + l
bit_or_shift = bit_or_disjoint 16
