-- ===== src/Common/Bits.antt =====
-- `|` on unsigned words: joining a low field and a shifted high field is addition.
use Prim.Native.Nat.{
  ℕ, zero, suc, ◌+◌, ◌*◌, ◌/◌, ◌%◌, ◌^◌, ◌≤◌, ◌<◌, max, bit_or, digits, bit_or-bitwise,
}
use mathlib.Core.Path.{◌≡◌, refl, ap}
use native.Mathlib.Omega.{arith}
use native.Mathlib.Nat.{pow-suc}

abbrev or_digits : ℕ → ℕ → ℕ → ℕ
or_digits n a b = digits (λ b. b) max n a b

or_digits_fuel : (n m a b : ℕ) → a ≤ n → a ≤ m → or_digits n a b ≡ or_digits m a b
or_digits_fuel zero zero a b p q = refl
or_digits_fuel zero (suc m) zero b p q = refl
or_digits_fuel zero (suc m) (suc a) b p q = absurd (omega arith)
or_digits_fuel (suc n) zero zero b p q = refl
or_digits_fuel (suc n) zero (suc a) b p q = absurd (omega arith)
or_digits_fuel (suc n) (suc m) zero b p q = refl
or_digits_fuel (suc n) (suc m) (suc a) b p q =
    omega (arith, or_digits_fuel n m (suc a / 2) (b / 2) (omega arith) (omega arith))

pub zero-bit_or : (b : ℕ) → bit_or 0 b ≡ b
zero-bit_or b = bit_or-bitwise 0 b

pub bit_or_step : (a b : ℕ) → bit_or a b ≡ bit_or (a / 2) (b / 2) * 2 + max (a % 2) (b % 2)
bit_or_step zero b = omega (arith, zero-bit_or b, zero-bit_or (b / 2))
bit_or_step (suc a) b = omega (
  arith,
  bit_or-bitwise (suc a) b,
  bit_or-bitwise (suc a / 2) (b / 2),
  or_digits_fuel a (suc a / 2) (suc a / 2) (b / 2) (omega arith) (omega arith),
)

-- With the low `k` bits in `a` and the others in `b * 2 ^ k`, nothing overlaps.
pub bit_or-disjoint : (k a b : ℕ) → a < 2 ^ k → bit_or a (b * 2 ^ k) ≡ a + b * 2 ^ k
bit_or-disjoint zero a b h =
    let e : a ≡ 0 = omega arith in rw e (omega (arith, zero-bit_or (b * 2 ^ 0)))
bit_or-disjoint (suc k) a b h = omega (
  arith,
  bit_or_step a (b * 2 ^ suc k),
  ap (λ (t : ℕ). bit_or (a / 2) t) half,
  bit_or-disjoint k (a / 2) b (omega (arith, pow-suc 2 k)),
  even,
)
  where
    even : b * 2 ^ suc k ≡ 2 * (b * 2 ^ k)
    even = omega (arith, ap (λ (t : ℕ). b * t) (pow-suc 2 k))

    half : b * 2 ^ suc k / 2 ≡ b * 2 ^ k
    half = omega (arith, even)

bit_or-zero_fuel : (n a : ℕ) → a ≤ n → bit_or a 0 ≡ a
bit_or-zero_fuel n zero h = zero-bit_or 0
bit_or-zero_fuel zero (suc a) h = absurd (omega arith)
bit_or-zero_fuel (suc n) (suc a) h =
    omega (arith, bit_or_step (suc a) 0, bit_or-zero_fuel n (suc a / 2) (omega arith))

-- The same with the high field first.
pub disjoint-bit_or : (k a b : ℕ) → a < 2 ^ k → bit_or (b * 2 ^ k) a ≡ b * 2 ^ k + a
disjoint-bit_or zero a b h =
    let e : a ≡ 0 = omega arith in
    rw e (omega (arith, bit_or-zero_fuel (b * 2 ^ 0) (b * 2 ^ 0) (omega arith)))
disjoint-bit_or (suc k) a b h = omega (
  arith,
  bit_or_step (b * 2 ^ suc k) a,
  ap (λ (t : ℕ). bit_or t (a / 2)) half,
  disjoint-bit_or k (a / 2) b (omega (arith, pow-suc 2 k)),
  even,
)
  where
    even : b * 2 ^ suc k ≡ 2 * (b * 2 ^ k)
    even = omega (arith, ap (λ (t : ℕ). b * t) (pow-suc 2 k))

    half : b * 2 ^ suc k / 2 ≡ b * 2 ^ k
    half = omega (arith, even)
