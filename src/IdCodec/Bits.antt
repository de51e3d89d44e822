-- ===== src/IdCodec/Bits.antt =====
-- `|` of fields that do not overlap is addition, and `&` with a mask of ones is a remainder.
use Prim.Native.Nat.{
  ℕ, zero, suc, ◌+◌, ◌*◌, ◌/◌, ◌%◌, ◌^◌, ◌≤◌, ◌<◌, min, max, bit_and, bit_or, digits,
  bit_and-bitwise, bit_or-bitwise,
}
use mathlib.Core.Path.{◌≡◌, refl, ap, ◌∙◌}
use native.Mathlib.Omega.{arith}
use native.Mathlib.Nat.{pow-suc}

-- Enough rounds of the digit recursion give one result.
or_rounds : (n m a b : ℕ) → a ≤ n → a ≤ m → digits (λ b. b) max n a b ≡ digits (λ b. b) max m a b
or_rounds zero zero a b p q = refl
or_rounds zero (suc m) zero b p q = refl
or_rounds zero (suc m) (suc a) b p q = absurd (omega arith)
or_rounds (suc n) zero zero b p q = refl
or_rounds (suc n) zero (suc a) b p q = absurd (omega arith)
or_rounds (suc n) (suc m) zero b p q = refl
or_rounds (suc n) (suc m) (suc a) b p q =
    omega (arith, or_rounds n m (suc a / 2) (b / 2) (omega arith) (omega arith))

zero-bit_or : (b : ℕ) → bit_or 0 b ≡ b
zero-bit_or b = bit_or-bitwise 0 b

bit_or_halves : (n m : ℕ) → bit_or n m ≡ max (n % 2) (m % 2) + bit_or (n / 2) (m / 2) * 2
bit_or_halves (suc n) m = omega (
  arith,
  or_rounds n (suc n / 2) (suc n / 2) (m / 2) (omega arith) (omega arith),
  bit_or-bitwise (suc n / 2) (m / 2),
  bit_or-bitwise (suc n) m,
)
bit_or_halves zero m = omega (arith, zero-bit_or (m / 2), zero-bit_or m)

half_twice : (m : ℕ) → m * 2 / 2 ≡ m
half_twice m = omega arith

bit_or-twice : (m b : ℕ) → bit_or (m * 2) b ≡ bit_or m (b / 2) * 2 + b % 2
bit_or-twice m b = omega (arith, bit_or_halves (m * 2) b, ap (λ h. bit_or h (b / 2)) (half_twice m))

bit_or-zero_rounds : (n a : ℕ) → a ≤ n → bit_or a 0 ≡ a
bit_or-zero_rounds n zero h = refl
bit_or-zero_rounds zero (suc a) h = absurd (omega arith)
bit_or-zero_rounds (suc n) (suc a) h =
    omega (arith, bit_or_halves (suc a) 0, bit_or-zero_rounds n (suc a / 2) (omega arith))

bit_or-zero : (a : ℕ) → bit_or a 0 ≡ a
bit_or-zero a = bit_or-zero_rounds a a (omega arith)

below_one : (b : ℕ) → b < 1 → b ≡ 0
below_one b h = omega arith

shift_suc : (k a : ℕ) → a * 2 ^ suc k ≡ a * 2 ^ k * 2
shift_suc k a = ap (λ p. a * p) (pow-suc 2 k) ∙ grind arith

-- Fields that do not overlap: the upper one is a multiple of the power the lower one is below.
pub bit_or_disjoint : (k a b : ℕ) → b < 2 ^ k → bit_or (a * 2 ^ k) b ≡ a * 2 ^ k + b
bit_or_disjoint zero a b h = omega (arith, ap (bit_or (a * 1)) (below_one b h), bit_or-zero (a * 1))
bit_or_disjoint (suc k) a b h = omega (
  arith,
  shift_suc k a,
  ap (λ m. bit_or m b) (shift_suc k a),
  bit_or-twice (a * 2 ^ k) b,
  bit_or_disjoint k a (b / 2) (omega (arith, pow-suc 2 k, h)),
)

and_rounds :
    (n m a b : ℕ) → a ≤ n → a ≤ m → digits (λ b. zero) min n a b ≡ digits (λ b. zero) min m a b
and_rounds zero zero a b p q = refl
and_rounds zero (suc m) zero b p q = refl
and_rounds zero (suc m) (suc a) b p q = absurd (omega arith)
and_rounds (suc n) zero zero b p q = refl
and_rounds (suc n) zero (suc a) b p q = absurd (omega arith)
and_rounds (suc n) (suc m) zero b p q = refl
and_rounds (suc n) (suc m) (suc a) b p q =
    omega (arith, and_rounds n m (suc a / 2) (b / 2) (omega arith) (omega arith))

half_odd : (m : ℕ) → (m * 2 + 1) / 2 ≡ m
half_odd m = omega arith

-- One digit of a mask of ones.
bit_and_odd : (m b : ℕ) → bit_and b (m * 2 + 1) ≡ bit_and (b / 2) m * 2 + b % 2
bit_and_odd m zero = omega (arith, bit_and-bitwise 0 (m * 2 + 1), bit_and-bitwise 0 m)
bit_and_odd m (suc b) = omega (
  arith,
  bit_and-bitwise (suc b) (m * 2 + 1),
  bit_and-bitwise (suc b / 2) m,
  and_rounds b (suc b / 2) (suc b / 2) ((m * 2 + 1) / 2) (omega arith) (omega arith),
  ap (λ h. digits (λ b. zero) min (suc b / 2) (suc b / 2) h) (half_odd m),
)

bit_and-none_rounds : (n a : ℕ) → a ≤ n → bit_and a 0 ≡ 0
bit_and-none_rounds n zero h = refl
bit_and-none_rounds zero (suc a) h = absurd (omega arith)
bit_and-none_rounds (suc n) (suc a) h = omega (
  arith,
  bit_and-bitwise (suc a) 0,
  bit_and-bitwise (suc a / 2) 0,
  and_rounds n (suc a / 2) (suc a / 2) 0 (omega arith) (omega arith),
  and_rounds a (suc a / 2) (suc a / 2) 0 (omega arith) (omega arith),
  bit_and-none_rounds n (suc a / 2) (omega arith),
)

bit_and-none : (a : ℕ) → bit_and a 0 ≡ 0
bit_and-none a = bit_and-none_rounds a a (omega arith)

bit_and_fifteen : (a : ℕ) → bit_and a 15 ≡ a % 16
bit_and_fifteen a = omega (
  arith,
  bit_and_odd 7 a,
  bit_and_odd 3 (a / 2),
  bit_and_odd 1 (a / 2 / 2),
  bit_and_odd 0 (a / 2 / 2 / 2),
  bit_and-none (a / 2 / 2 / 2 / 2),
)

pub bit_and_byte : (a : ℕ) → bit_and a 255 ≡ a % 256
bit_and_byte a = omega (
  arith,
  bit_and_odd 127 a,
  bit_and_odd 63 (a / 2),
  bit_and_odd 31 (a / 2 / 2),
  bit_and_odd 15 (a / 2 / 2 / 2),
  bit_and_fifteen (a / 2 / 2 / 2 / 2),
)

pub bit_and_ten : (a : ℕ) → bit_and a 1023 ≡ a % 1024
bit_and_ten a = omega (arith, bit_and_odd 511 a, bit_and_odd 255 (a / 2), bit_and_byte (a / 2 / 2))
