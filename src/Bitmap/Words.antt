-- ===== src/Bitmap/Words.antt =====
-- kernel/bitmap.c: the digits of a 64-bit word of the map, and the lowest clear one.
use native.Mathlib.Nat.{pow-suc, one-le-pow}
use native.Mathlib.Numerals.{add-one}
use pristine.Common.{
  ℕ, zero, suc, ◌+◌, ◌-◌, ◌*◌, ◌/◌, ◌%◌, ◌^◌, ◌<◌, bit_or, ◌≡◌, ap, ◌∙◌, ◌≢◌, inl, inr, arith,
  dec_lt, ltb, ◌==◌, if◌then◌else◌, Bool-cases,
}
use pristine.Common.Digits.{
  digit, digit-le, digit-bit_or, digit-zero, digit_complement, digit_low, digit_high, two_pow-lt,
}
use pristine.Bitmap.{Bitmap, IsBytes, uint64_max, read_le, word_at, trailing_zeros, ctz_not}
use pristine.Bitmap.Bits.{bit}

read_le-lt : (n : ℕ) (b : Bitmap) (i : ℕ) → IsBytes b → read_le n b i < 2 ^ (8 * n)
unfolding read_le
read_le-lt zero b i h = omega arith
read_le-lt (suc n) b i h =
    let e : 8 * suc n ≡ suc (suc (suc (suc (suc (suc (suc (suc (8 * n)))))))) = omega arith in
    omega (
      arith,
      ap (λ k. 2 ^ k) e,
      h i,
      read_le-lt n b (i + 1) h,
      pow-suc 2 (suc (suc (suc (suc (suc (suc (suc (8 * n)))))))),
      pow-suc 2 (suc (suc (suc (suc (suc (suc (8 * n))))))),
      pow-suc 2 (suc (suc (suc (suc (suc (8 * n)))))),
      pow-suc 2 (suc (suc (suc (suc (8 * n))))),
      pow-suc 2 (suc (suc (suc (8 * n)))),
      pow-suc 2 (suc (suc (8 * n))),
      pow-suc 2 (suc (8 * n)),
      pow-suc 2 (8 * n),
    )

digit-read_le :
    (n : ℕ) (b : Bitmap) (i k : ℕ)
    → IsBytes b
    → k < 8 * n
    → digit (read_le n b i) k ≡ digit (b (i + k / 8)) (k % 8)
unfolding read_le
digit-read_le zero b i k h lt = absurd (omega arith)
digit-read_le (suc n) b i k h lt = elim (dec_lt k 8) [
  | yes low ↦
      let slot : i + k / 8 ≡ i = omega arith in
      let place : k % 8 ≡ k = omega arith in
      rw (slot, place) (digit_low 8 (b i) (read_le n b (i + 1)) k low)
  | no high ↦
      let at : k ≡ 8 + (k - 8) = omega arith in
      let slot : i + 1 + (k - 8) / 8 ≡ i + k / 8 = omega arith in
      let place : (k - 8) % 8 ≡ k % 8 = omega arith in
      ap (digit (read_le (suc n) b i)) at
      ∙ digit_high 8 (b i) (read_le n b (i + 1)) (k - 8) (h i)
      ∙ digit-read_le n b (i + 1) (k - 8) h (omega arith)
      ∙ ap (λ s. digit (b s) ((k - 8) % 8)) slot
      ∙ ap (digit (b (i + k / 8))) place
]

pub word_at-lt : (b : Bitmap) (i : ℕ) → IsBytes b → word_at b i < 2 ^ 64
unfolding word_at
word_at-lt b i h = read_le-lt 8 b (8 * i) h

pub digit-word_at :
    (b : Bitmap) (i k : ℕ) → IsBytes b → k < 64 → digit (word_at b i) k ≡ bit b (i * 64 + k)
unfolding word_at bit
digit-word_at b i k h lt =
    let slot : 8 * i + k / 8 ≡ (i * 64 + k) / 8 = omega arith in
    let place : k % 8 ≡ (i * 64 + k) % 8 = omega arith in
    digit-read_le 8 b (8 * i) k h lt
    ∙ ap (λ s. digit (b s) (k % 8)) slot
    ∙ ap (digit (b ((i * 64 + k) / 8))) place

-- The count of trailing zeros is the place of the lowest digit 1.
trailing_zeros_lowest :
    (n x : ℕ)
    → x < 2 ^ n
    → x ≢ 0
    → (trailing_zeros n x < n)
      × (digit x (trailing_zeros n x) ≡ 1)
      × ((k : ℕ) → k < trailing_zeros n x → digit x k ≡ 0)
unfolding trailing_zeros digit
trailing_zeros_lowest zero x small ne = absurd (omega arith)
trailing_zeros_lowest (suc n) x small ne = elim (Bool-cases (x % 2 == 1)) [
  | inl odd ↦ rw odd (omega arith, ground arith, λ k lt. absurd (omega arith))
  | inr even ↦
      let (in_range, lowest, below) =
        trailing_zeros_lowest n (x / 2) (omega (arith, pow-suc 2 n)) (ground arith) in
      rw even (omega arith, rw add-one lowest, lower (ground arith) below)
]
  where
    lower :
        x % 2 ≡ 0
        → ((k : ℕ) → k < trailing_zeros n (x / 2) → digit (x / 2) k ≡ 0)
        → (k : ℕ) → k < trailing_zeros n (x / 2) + 1
        → digit x k ≡ 0
    lower even below zero lt = even
    lower even below (suc k) lt = below k (omega arith)

-- The place that `__builtin_ctzll(~word)` gives is that of the lowest digit 0 of the word.
pub ctz_not_lowest :
    (w : ℕ)
    → w < 2 ^ 64
    → w ≢ uint64_max
    → (ctz_not w < 64) × (digit w (ctz_not w) ≡ 0) × ((k : ℕ) → k < ctz_not w → digit w k ≡ 1)
unfolding ctz_not
ctz_not_lowest w small ne =
    let x = uint64_max - w in
    let (in_range, lowest, below) = trailing_zeros_lowest 64 x (omega arith) (omega arith) in
    (
      in_range,
      omega (arith, lowest, digit_complement 64 w (trailing_zeros 64 x) small in_range),
      λ k lt. omega (arith, below k lt, digit_complement 64 w k small (omega arith)),
    )

pub digit_mask : (r k : ℕ) → digit (2 ^ r - 1) k ≡ (if ltb k r then 1 else 0)
unfolding digit
digit_mask zero k = ground (arith, digit-zero k)
digit_mask (suc r) zero = ground (arith, pow-suc 2 r, one-le-pow r 2)
digit_mask (suc r) (suc k) =
    let half : (2 ^ suc r - 1) / 2 ≡ 2 ^ r - 1 = omega (arith, pow-suc 2 r) in
    rw half (ground (arith, digit_mask r k))

-- Above `r` places a mask of the high places makes each digit 1, and below it changes none.
pub digit_masked :
    (w r k : ℕ)
    → r < 64
    → k < 64
    → digit (bit_or w (uint64_max - (2 ^ r - 1))) k ≡ (if ltb k r then digit w k else 1)
digit_masked w r k hr hk = ground (
  arith,
  two_pow-lt r 64 hr,
  one-le-pow r 2,
  digit-bit_or w (uint64_max - (2 ^ r - 1)) k,
  digit_complement 64 (2 ^ r - 1) k (omega (arith, two_pow-lt r 64 hr)) hk,
  digit_mask r k,
  digit-le w k,
)
