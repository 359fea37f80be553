-- ===== src/Common/Xor.antt =====
-- Laws of exclusive or at variables.
use Prim.Native.Nat.{
  ℕ, zero, suc, ◌+◌, ◌*◌, ◌/◌, ◌%◌, ◌^◌, ◌≤◌, ◌<◌, bit_xor, differ, bit_xor-bitwise,
}
use mathlib.Core.Path.{◌≡◌, refl, ap, sym, ◌∙◌}
use native.Mathlib.Omega.{arith}
use native.Mathlib.Nat.{pow-suc}
use pristine.Common.Bits.{lowest_digit}

differ_bits : (p q : ℕ) → p < 2 → q < 2 → differ p q ≡ (p + q) % 2
differ_bits zero q hp hq = omega arith
differ_bits (suc zero) zero hp hq = refl
differ_bits (suc zero) (suc zero) hp hq = refl
differ_bits (suc zero) (suc (suc q)) hp hq = absurd (omega arith)
differ_bits (suc (suc p)) q hp hq = absurd (omega arith)

differ_sum : (x y : ℕ) → differ (x % 2) (y % 2) ≡ (x + y) % 2
differ_sum x y = differ_bits (x % 2) (y % 2) (omega arith) (omega arith) ∙ omega arith

pub bit_xor_step : (x y : ℕ) → bit_xor x y ≡ bit_xor (x / 2) (y / 2) * 2 + (x + y) % 2
bit_xor_step zero y = simp bit_xor-bitwise (omega arith)
bit_xor_step (suc x) y =
    simp bit_xor-bitwise (omega (arith, lowest_digit (λ d. d) differ x y, differ_sum (suc x) y))

bit_xor_twice_below :
    (n x y : ℕ) → x ≤ n → y ≤ n → (bit_xor (bit_xor x y) y ≡ x) × (bit_xor x (bit_xor x y) ≡ y)
bit_xor_twice_below zero zero zero p q = (refl, refl)
bit_xor_twice_below zero (suc x) y p q = absurd (omega arith)
bit_xor_twice_below zero zero (suc y) p q = absurd (omega arith)
bit_xor_twice_below (suc n) x y p q =
    let (left, right) = bit_xor_twice_below n (x / 2) (y / 2) (omega arith) (omega arith) in
    let half : bit_xor x y / 2 ≡ bit_xor (x / 2) (y / 2) = omega (arith, bit_xor_step x y) in
    (
      omega (
        arith,
        bit_xor_step (bit_xor x y) y ∙ ap (λ h. bit_xor h (y / 2) * 2 + (bit_xor x y + y) % 2) half,
        left,
        bit_xor_step x y,
      ),
      omega (
        arith,
        bit_xor_step x (bit_xor x y) ∙ ap (λ h. bit_xor (x / 2) h * 2 + (x + bit_xor x y) % 2) half,
        right,
        bit_xor_step x y,
      ),
    )

pub bit_xor_cancel : (x y c : ℕ) → bit_xor x c ≡ bit_xor y c → x ≡ y
bit_xor_cancel x y c e =
    sym (bit_xor_twice_below (x + c) x c (omega arith) (omega arith)).0
    ∙ ap (λ t. bit_xor t c) e
    ∙ (bit_xor_twice_below (y + c) y c (omega arith) (omega arith)).0

pub bit_xor_cancel_left : (c x y : ℕ) → bit_xor c x ≡ bit_xor c y → x ≡ y
bit_xor_cancel_left c x y e =
    sym (bit_xor_twice_below (c + x) c x (omega arith) (omega arith)).1
    ∙ ap (bit_xor c) e
    ∙ (bit_xor_twice_below (c + y) c y (omega arith) (omega arith)).1

pub bit_xor-lt : (n x y : ℕ) → x < 2 ^ n → y < 2 ^ n → bit_xor x y < 2 ^ n
bit_xor-lt zero zero zero p q = omega arith
bit_xor-lt zero (suc x) y p q = absurd (omega arith)
bit_xor-lt zero zero (suc y) p q = absurd (omega arith)
bit_xor-lt (suc n) x y p q = omega (
  arith,
  pow-suc 2 n,
  bit_xor_step x y,
  bit_xor-lt n (x / 2) (y / 2) (omega (arith, pow-suc 2 n)) (omega (arith, pow-suc 2 n)),
)

-- The highest place, where only the second number has a one.
pub bit_xor_high : (n x y : ℕ) → x < 2 ^ n → 2 ^ n ≤ y → 2 ^ n ≤ bit_xor x y
bit_xor_high zero zero y p q = omega (arith, bit_xor_zero y)
  where
    bit_xor_zero : (y : ℕ) → bit_xor 0 y ≡ y
    bit_xor_zero y = bit_xor-bitwise 0 y
bit_xor_high zero (suc x) y p q = absurd (omega arith)
bit_xor_high (suc n) x y p q = omega (
  arith,
  pow-suc 2 n,
  bit_xor_step x y,
  bit_xor_high n (x / 2) (y / 2) (omega (arith, pow-suc 2 n)) (omega (arith, pow-suc 2 n)),
)

bit_xor-zero_below : (x n : ℕ) → x ≤ n → bit_xor x 0 ≡ x
bit_xor-zero_below zero n h = refl
bit_xor-zero_below (suc x) zero h = absurd (omega arith)
bit_xor-zero_below (suc x) (suc n) h =
    omega (arith, bit_xor_step (suc x) 0, bit_xor-zero_below (suc x / 2) n (omega arith))

pub bit_xor-zero : (x : ℕ) → bit_xor x 0 ≡ x
bit_xor-zero x = bit_xor-zero_below x x (omega arith)
