-- ===== src/Common/Digits.antt =====
-- The binary digit of a number at a place, and what the bit operations do to it.
use Prim.Native.Nat.{
  ℕ, zero, suc, ◌+◌, ◌-◌, ◌*◌, ◌/◌, ◌%◌, ◌^◌, ◌≤◌, ◌<◌, min, max, bit_and, bit_or,
}
use mathlib.Core.Path.{◌≡◌, refl, ap}
use native.Mathlib.Omega.{arith}
use native.Mathlib.Nat.{pow-suc, one-le-pow}
use pristine.Common.Tests.{◌==◌, if◌then◌else◌}
use pristine.Common.Bits.{bit_or_step, bit_and_step, bit_and-zero}

unfoldable pub digit : ℕ → ℕ → ℕ
digit x zero = x % 2
digit x (suc k) = digit (x / 2) k

pub digit-le : (x k : ℕ) → digit x k ≤ 1
unfolding digit
digit-le x zero = omega arith
digit-le x (suc k) = digit-le (x / 2) k

pub bit_and-two_pow : (x k : ℕ) → bit_and x (2 ^ k) ≡ digit x k * 2 ^ k
unfolding digit
bit_and-two_pow x zero = ground (arith, bit_and_step x 1, bit_and-zero (x / 2))
bit_and-two_pow x (suc k) =
    grind (arith, bit_and_step x (2 ^ suc k), pow-suc 2 k, bit_and-two_pow (x / 2) k)

pub digit-bit_or : (a b k : ℕ) → digit (bit_or a b) k ≡ max (digit a k) (digit b k)
unfolding digit
digit-bit_or a b zero = ground (arith, bit_or_step a b)
digit-bit_or a b (suc k) =
    let half : bit_or a b / 2 ≡ bit_or (a / 2) (b / 2) = omega (arith, bit_or_step a b) in
    rw half (digit-bit_or (a / 2) (b / 2) k)

pub digit-bit_and : (a b k : ℕ) → digit (bit_and a b) k ≡ min (digit a k) (digit b k)
unfolding digit
digit-bit_and a b zero = ground (arith, bit_and_step a b)
digit-bit_and a b (suc k) =
    let half : bit_and a b / 2 ≡ bit_and (a / 2) (b / 2) = omega (arith, bit_and_step a b) in
    rw half (digit-bit_and (a / 2) (b / 2) k)

pub digit-zero : (k : ℕ) → digit 0 k ≡ 0
unfolding digit
digit-zero zero = refl
digit-zero (suc k) = digit-zero k

pub digit-two_pow : (j k : ℕ) → digit (2 ^ j) k ≡ (if j == k then 1 else 0)
unfolding digit
digit-two_pow zero zero = refl
digit-two_pow zero (suc k) = ground (arith, digit-zero k)
digit-two_pow (suc j) zero = ground (arith, pow-suc 2 j)
digit-two_pow (suc j) (suc k) =
    let half : 2 ^ suc j / 2 ≡ 2 ^ j = omega (arith, pow-suc 2 j) in
    rw half (ground (arith, digit-two_pow j k))

-- The complement within `n` places.
pub digit_complement : (n x k : ℕ) → x < 2 ^ n → k < n → digit (2 ^ n - 1 - x) k + digit x k ≡ 1
unfolding digit
digit_complement zero x k h lt = absurd (omega arith)
digit_complement (suc n) x zero h lt = omega (arith, pow-suc 2 n)
digit_complement (suc n) x (suc k) h lt =
    let half : (2 ^ suc n - 1 - x) / 2 ≡ 2 ^ n - 1 - x / 2 = omega (arith, pow-suc 2 n) in
    rw half (digit_complement n (x / 2) k (omega (arith, pow-suc 2 n)) (omega arith))

pub two_pow-mul : (m x : ℕ) → 2 ^ suc m * x ≡ 2 * (2 ^ m * x)
two_pow-mul m x = omega (arith, ap (λ (t : ℕ). t * x) (pow-suc 2 m))

-- A number below `2 ^ m` with another above it: the digits of the one, then of the other.
pub digit_low : (m lo hi k : ℕ) → k < m → digit (lo + 2 ^ m * hi) k ≡ digit lo k
unfolding digit
digit_low zero lo hi k h = absurd (omega arith)
digit_low (suc m) lo hi zero h = omega (arith, two_pow-mul m hi)
digit_low (suc m) lo hi (suc k) h =
    let half : (lo + 2 ^ suc m * hi) / 2 ≡ lo / 2 + 2 ^ m * hi = omega (arith, two_pow-mul m hi) in
    rw half (digit_low m (lo / 2) hi k (omega arith))

pub digit_high : (m lo hi k : ℕ) → lo < 2 ^ m → digit (lo + 2 ^ m * hi) (m + k) ≡ digit hi k
unfolding digit
digit_high zero lo hi k h = let e : lo + 1 * hi ≡ hi = omega arith in ground (arith, e)
digit_high (suc m) lo hi k h =
    let half : (lo + 2 ^ suc m * hi) / 2 ≡ lo / 2 + 2 ^ m * hi = omega (arith, two_pow-mul m hi) in
    let place : suc m + k ≡ suc (m + k) = omega arith in
    let step : digit (lo + 2 ^ suc m * hi) (suc (m + k)) ≡ digit hi k =
      rw (half, digit) (digit_high m (lo / 2) hi k (omega (arith, pow-suc 2 m))) in
    rw place step

-- Digits decide a number.
pub digits_ext :
    (n x y : ℕ) → x < 2 ^ n → y < 2 ^ n → ((k : ℕ) → k < n → digit x k ≡ digit y k) → x ≡ y
unfolding digit
digits_ext zero x y p q h = omega arith
digits_ext (suc n) x y p q h =
    let halves : x / 2 ≡ y / 2 =
      digits_ext n (x / 2) (y / 2) (omega (arith, pow-suc 2 n)) (omega (arith, pow-suc 2 n))
        (λ k lt. h (suc k) (omega arith)) in
    omega (arith, halves, h 0 (omega arith))

pub two_pow-lt : (k n : ℕ) → k < n → 2 ^ k < 2 ^ n
two_pow-lt k zero h = absurd (omega arith)
two_pow-lt zero (suc n) h = omega (arith, pow-suc 2 n, one-le-pow n 2)
two_pow-lt (suc k) (suc n) h = omega (arith, pow-suc 2 n, pow-suc 2 k, two_pow-lt k n (omega arith))
