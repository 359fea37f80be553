-- ===== src/Common/Align.antt =====
-- Rounding down to a power of two by a mask on 64 bits.
use Prim.Native.Nat.{ℕ, zero, suc, ◌+◌, ◌-◌, ◌*◌, ◌/◌, ◌^◌, ◌<◌, bit_and}
use mathlib.Core.Path.{◌≡◌, ap, ◌∙◌}
use native.Mathlib.Omega.{arith}
use native.Mathlib.Nat.{pow-suc, one-le-pow, mul-sub, mod-eq_of_lt, div-lt_iff_lt-mul}
use pristine.Common.Bits.{bit_and_field}
use pristine.Common.Digits.{two_pow-mul}

two_pow_add : (j k : ℕ) → 2 ^ (j + k) ≡ 2 ^ j * 2 ^ k
two_pow_add zero k = let place : 0 + k ≡ k = omega arith in ap (λ t. 2 ^ t) place ∙ omega arith
two_pow_add (suc j) k =
    let place : suc j + k ≡ suc (j + k) = omega arith in
    ap (λ t. 2 ^ t) place ∙ omega (arith, pow-suc 2 (j + k), two_pow-mul j (2 ^ k), two_pow_add j k)

pub bit_and_align : (k a : ℕ) → k < 64 → a < 2 ^ 64 → bit_and a (2 ^ 64 - 2 ^ k) ≡ a / 2 ^ k * 2 ^ k
bit_and_align k a lt fits =
    ap (bit_and a) mask ∙ bit_and_field (64 - k) k a ∙ ap (λ q. q * 2 ^ k) (mod-eq_of_lt below)
  where
    whole : 2 ^ 64 ≡ 2 ^ (64 - k) * 2 ^ k
    whole = let sum : 64 ≡ 64 - k + k = omega arith in ap (λ t. 2 ^ t) sum ∙ two_pow_add (64 - k) k

    mask : 2 ^ 64 - 2 ^ k ≡ (2 ^ (64 - k) - 1) * 2 ^ k
    mask = omega (arith, whole, mul-sub (2 ^ k) (2 ^ (64 - k)) 1)

    below : a / 2 ^ k < 2 ^ (64 - k)
    below = (div-lt_iff_lt-mul (omega (arith, one-le-pow k 2))).1 (omega (arith, whole))
