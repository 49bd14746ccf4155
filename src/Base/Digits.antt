-- ===== src/Base/Digits.antt =====
-- `|` on numbers that share no binary digit is the sum.
use Prim.Native.Nat.{
  ℕ, zero, suc, ◌+◌, ◌*◌, ◌/◌, ◌%◌, ◌^◌, ◌≤◌, ◌<◌, max, digits, bit_or, bit_or-bitwise,
}
use mathlib.Core.Path.{◌≡◌, refl, ap}
use native.Mathlib.Nat.{pow-suc, pow-succ', mul_assoc}
use native.Mathlib.Omega.{arith}

-- The digits of `a | b`, on any number of rounds that is enough for `a`.
or_rounds : (n m a b : ℕ) → a ≤ n → a ≤ m → digits (λ y. y) max n a b ≡ digits (λ y. y) max m a b
or_rounds zero zero a b p q = refl
or_rounds zero (suc m) zero b p q = refl
or_rounds zero (suc m) (suc a) b p q = absurd (omega arith)
or_rounds (suc n) zero zero b p q = refl
or_rounds (suc n) zero (suc a) b p q = absurd (omega arith)
or_rounds (suc n) (suc m) zero b p q = refl
or_rounds (suc n) (suc m) (suc a) b p q =
    omega (arith, or_rounds n m (suc a / 2) (b / 2) (omega arith) (omega arith))

-- The lowest digit of `a | b`.
pub or_digit : (a b : ℕ) → bit_or a b ≡ bit_or (a / 2) (b / 2) * 2 + max (a % 2) (b % 2)
or_digit zero b = omega (arith, bit_or-bitwise 0 b, bit_or-bitwise 0 (b / 2))
or_digit (suc a) b = omega (
  arith,
  bit_or-bitwise (suc a) b,
  bit_or-bitwise (suc a / 2) (b / 2),
  or_rounds a (suc a / 2) (suc a / 2) (b / 2) (omega arith) (omega arith),
)

zero-bit_or : (b : ℕ) → bit_or 0 b ≡ b
zero-bit_or b = bit_or-bitwise 0 b

bit_or-zero_below : (n a : ℕ) → a ≤ n → bit_or a 0 ≡ a
bit_or-zero_below n zero h = zero-bit_or 0
bit_or-zero_below zero (suc a) h = absurd (omega arith)
bit_or-zero_below (suc n) (suc a) h =
    omega (arith, or_digit (suc a) 0, bit_or-zero_below n (suc a / 2) (omega arith))

two_pow_suc : (k : ℕ) → 2 ^ suc k ≡ 2 * 2 ^ k
two_pow_suc k = pow-succ' 2 k

mul_pow_suc : (k q : ℕ) → q * 2 ^ suc k ≡ q * 2 ^ k * 2
mul_pow_suc k q = rw (pow-suc 2 k, mul_assoc q (2 ^ k) 2)

pub bit_or_disjoint : (k q r : ℕ) → r < 2 ^ k → bit_or (q * 2 ^ k) r ≡ q * 2 ^ k + r
bit_or_disjoint zero q zero h =
    omega (arith, bit_or-zero_below (q * 2 ^ zero) (q * 2 ^ zero) (omega arith))
bit_or_disjoint zero q (suc r) h = absurd (omega arith)
bit_or_disjoint (suc k) q r h =
    let double = mul_pow_suc k q in
    let small : r / 2 < 2 ^ k = omega (arith, two_pow_suc k) in
    let half : q * 2 ^ suc k / 2 ≡ q * 2 ^ k = omega (arith, double) in
    let ih = bit_or_disjoint k q (r / 2) small in
    omega (arith, double, ih, ap (λ t. bit_or t (r / 2)) half, or_digit (q * 2 ^ suc k) r)

pub bit_or_disjoint_high : (k q r : ℕ) → r < 2 ^ k → bit_or r (q * 2 ^ k) ≡ r + q * 2 ^ k
bit_or_disjoint_high zero q zero h = omega (arith, zero-bit_or (q * 2 ^ zero))
bit_or_disjoint_high zero q (suc r) h = absurd (omega arith)
bit_or_disjoint_high (suc k) q r h =
    let double = mul_pow_suc k q in
    let small : r / 2 < 2 ^ k = omega (arith, two_pow_suc k) in
    let half : q * 2 ^ suc k / 2 ≡ q * 2 ^ k = omega (arith, double) in
    let ih = bit_or_disjoint_high k q (r / 2) small in
    omega (arith, double, ih, ap (λ t. bit_or (r / 2) t) half, or_digit r (q * 2 ^ suc k))

-- `|` below a power of two leaves the digits above it.
pub bit_or_low :
    (k q r s : ℕ) → r < 2 ^ k → s < 2 ^ k → bit_or (q * 2 ^ k + r) s ≡ q * 2 ^ k + bit_or r s
bit_or_low zero q zero zero hr hs =
    let same : q * 2 ^ zero + 0 ≡ q * 2 ^ zero = omega arith in
    omega (arith, bit_or_disjoint zero q 0 (omega arith), zero-bit_or 0, ap (λ t. bit_or t 0) same)
bit_or_low zero q (suc r) s hr hs = absurd (omega arith)
bit_or_low zero q r (suc s) hr hs = absurd (omega arith)
bit_or_low (suc k) q r s hr hs =
    let double = mul_pow_suc k q in
    let small_r : r / 2 < 2 ^ k = omega (arith, two_pow_suc k) in
    let small_s : s / 2 < 2 ^ k = omega (arith, two_pow_suc k) in
    let half : (q * 2 ^ suc k + r) / 2 ≡ q * 2 ^ k + r / 2 = omega (arith, double) in
    omega (
      arith,
      double,
      bit_or_low k q (r / 2) (s / 2) small_r small_s,
      ap (λ t. bit_or t (s / 2)) half,
      or_digit (q * 2 ^ suc k + r) s,
      or_digit r s,
    )

pub bit_or_small : (k r s : ℕ) → r < 2 ^ k → s < 2 ^ k → bit_or r s < 2 ^ k
bit_or_small zero zero zero hr hs = omega (arith, zero-bit_or 0)
bit_or_small zero (suc r) s hr hs = absurd (omega arith)
bit_or_small zero r (suc s) hr hs = absurd (omega arith)
bit_or_small (suc k) r s hr hs =
    let twice = two_pow_suc k in
    omega (
      arith,
      twice,
      bit_or_small k (r / 2) (s / 2) (omega (arith, twice)) (omega (arith, twice)),
      or_digit r s,
    )
