-- ===== src/Tools/Slices.antt =====
-- tools/bsfs/bsfs.c: the bits of a part of a bitmap, and bytes that have all their bits.
use pristine.Bitmap.Words.{digit_mask}
use pristine.Tools.{slice_from, all_full}
use pristine.Bitmap.{Bitmap, IsBytes}
use pristine.Common.{
  ℕ, zero, suc, ◌+◌, ◌-◌, ◌*◌, ◌/◌, ◌%◌, ◌≤◌, ◌<◌, ◌≡◌, refl, sym, ◌∙◌, ◌≢◌, true, arith, dec_lt,
  ℕ_discrete, ◌!=◌, lt→ltb,
}
use pristine.Common.Digits.{digit, digits_ext}
use pristine.Bitmap.Bits.{bit}

pub bit-slice : (b : Bitmap) (offset j : ℕ) → bit (slice_from b offset) j ≡ bit b (offset * 8 + j)
unfolding bit slice_from
bit-slice b offset j =
    let slot : (offset * 8 + j) / 8 ≡ offset + j / 8 = omega arith in
    let place : (offset * 8 + j) % 8 ≡ j % 8 = omega arith in rw (slot, place) refl

pub slice_from-IsBytes : (b : Bitmap) (offset : ℕ) → IsBytes b → IsBytes (slice_from b offset)
unfolding slice_from
slice_from-IsBytes b offset bytes i = bytes (offset + i)

digit_255 : (k : ℕ) → k < 8 → digit 255 k ≡ 1
digit_255 k lt = digit_mask 8 k ∙ rw (lt→ltb k 8 lt) refl

-- A byte with all its bits.
byte_full : (b : Bitmap) (i : ℕ) → IsBytes b → ((j : ℕ) → j < 8 → bit b (i * 8 + j) ≡ 1) → b i ≡ 255
unfolding bit
byte_full b i bytes bits = digits_ext 8 (b i) 255 (bytes i) (omega arith) λ k lt.
    let slot : (i * 8 + k) / 8 ≡ i = omega arith in
    let place : (i * 8 + k) % 8 ≡ k = omega (arith, lt) in
    (rw (slot, place) at (bits k lt)) ∙ sym (digit_255 k lt)

pub full_byte : (b : Bitmap) (i j : ℕ) → b i ≡ 255 → j < 8 → bit b (i * 8 + j) ≡ 1
unfolding bit
full_byte b i j all lt =
    let slot : (i * 8 + j) / 8 ≡ i = omega arith in
    let place : (i * 8 + j) % 8 ≡ j = omega (arith, lt) in rw (slot, place, all) (digit_255 j lt)

byte_test : (x : ℕ) → x ≢ 255 → (x != 255) ≡ true
byte_test x other = ground arith

pub all_full-bits :
    (n : ℕ) (b : Bitmap) (i : ℕ)
    → all_full n b i ≡ true
    → (j : ℕ) → i * 8 ≤ j
    → j < (i + n) * 8
    → bit b j ≡ 1
unfolding all_full
all_full-bits zero b i all j from below = absurd (omega arith)
all_full-bits (suc n) b i all j from below = elim (ℕ_discrete (b i) 255) [
  | no other ↦ absurd (cc (rw (byte_test (b i) other) at all))
  | yes here ↦ elim (dec_lt j (i * 8 + 8)) [
    | yes inside ↦
        let place : i * 8 + (j - i * 8) ≡ j = omega arith in
        rw (sym place) (full_byte b i (j - i * 8) here (omega arith))
    | no after ↦ all_full-bits n b (i + 1) (rw here at all) j (omega arith) (omega arith)
  ]
]

pub bits-all_full :
    (n : ℕ) (b : Bitmap) (i : ℕ)
    → IsBytes b
    → ((j : ℕ) → i * 8 ≤ j → j < (i + n) * 8 → bit b j ≡ 1)
    → all_full n b i ≡ true
unfolding all_full
bits-all_full zero b i bytes bits = refl
bits-all_full (suc n) b i bytes bits =
    let here = byte_full b i bytes (λ j lt. bits (i * 8 + j) (omega arith) (omega arith)) in
    rw here (bits-all_full n b (i + 1) bytes λ j from below. bits j (omega arith) (omega arith))
