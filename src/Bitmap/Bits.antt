-- ===== src/Bitmap/Bits.antt =====
-- kernel/bitmap.c: what setting, clearing and testing do to each bit.
use native.Mathlib.Nat.{one-le-pow}
use pristine.Common.{
  ℕ, ◌+◌, ◌-◌, ◌*◌, ◌/◌, ◌%◌, ◌^◌, ◌≤◌, ◌<◌, bit_and, bit_or, ◌≡◌, sym, ap, ◌∙◌, ◌↔◌, arith, ◌==◌,
  if◌then◌else◌,
}
use pristine.Common.Digits.{
  digit, digit-le, bit_and-two_pow, digit-bit_or, digit-bit_and, digit-two_pow, digit_complement,
  digit_low, two_pow-lt,
}
use pristine.Bitmap.{Bitmap, IsBytes, bitmap_set, bitmap_clear, bitmap_test}

-- The bit at an index, 0 or 1.
unfoldable pub bit : Bitmap → ℕ → ℕ
bit b i = digit (b (i / 8)) (i % 8)

abbrev pub Free : Bitmap → ℕ → Type 0
Free b i = bitmap_test b i ≡ 0

pub bit-le : (b : Bitmap) (i : ℕ) → bit b i ≤ 1
unfolding bit
bit-le b i = digit-le _ _

pub test-bit : (b : Bitmap) (i : ℕ) → bitmap_test b i ≡ bit b i * 2 ^ (i % 8)
unfolding bitmap_test bit
test-bit b i = bit_and-two_pow _ _

pub Free-bit : (b : Bitmap) (i : ℕ) → Free b i ↔ (bit b i ≡ 0)
Free-bit b i = (
  λ h. grind (arith, test-bit b i, one-le-pow (i % 8) 2, bit-le b i),
  λ h. ground (arith, test-bit b i),
)

digit_byte : (x k : ℕ) → k < 8 → digit (x % 2 ^ 8) k ≡ digit x k
digit_byte x k h =
    let whole : x ≡ x % 2 ^ 8 + 2 ^ 8 * (x / 2 ^ 8) = omega arith in
    sym (ap (λ y. digit y k) whole ∙ digit_low 8 (x % 2 ^ 8) (x / 2 ^ 8) k h)

-- The index of a bit is its byte and its place.
same_index : (i j : ℕ) → i / 8 ≡ j / 8 → i % 8 ≡ j % 8 → i ≡ j
same_index i j p q = omega arith

pub bit-set : (b : Bitmap) (i j : ℕ) → bit (bitmap_set b i) j ≡ (if i == j then 1 else bit b j)
unfolding bit bitmap_set
bit-set b i j = ground (
  arith,
  digit_byte (bit_or (b (i / 8)) (2 ^ (i % 8))) (j % 8) (omega arith),
  digit-bit_or (b (i / 8)) (2 ^ (i % 8)) (j % 8),
  digit-two_pow (i % 8) (j % 8),
  digit-le (b (j / 8)) (j % 8),
)

pub bit-clear : (b : Bitmap) (i j : ℕ) → bit (bitmap_clear b i) j ≡ (if i == j then 0 else bit b j)
unfolding bit bitmap_clear
bit-clear b i j = ground (
  arith,
  digit_byte (bit_and (b (i / 8)) (2 ^ 32 - 1 - 2 ^ (i % 8))) (j % 8) (omega arith),
  digit-bit_and (b (i / 8)) (2 ^ 32 - 1 - 2 ^ (i % 8)) (j % 8),
  digit-two_pow (i % 8) (j % 8),
  two_pow-lt (i % 8) 32 (omega arith),
  digit_complement 32 (2 ^ (i % 8)) (j % 8),
  digit-le (b (j / 8)) (j % 8),
)

pub bitmap_set-IsBytes : (b : Bitmap) (i : ℕ) → IsBytes b → IsBytes (bitmap_set b i)
unfolding bitmap_set
bitmap_set-IsBytes b i h j = ground (arith, h j)

pub bitmap_clear-IsBytes : (b : Bitmap) (i : ℕ) → IsBytes b → IsBytes (bitmap_clear b i)
unfolding bitmap_clear
bitmap_clear-IsBytes b i h j = ground (arith, h j)
