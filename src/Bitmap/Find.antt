-- ===== src/Bitmap/Find.antt =====
-- kernel/bitmap.c: `bitmap_find` gives the lowest clear bit.
use pristine.Common.{
  ℕ, zero, suc, ◌+◌, ◌-◌, ◌*◌, ◌/◌, ◌%◌, ◌^◌, ◌<◌, bit_or, ◌≡◌, refl, ap, ◌≢◌, inl, inr, arith,
  dec_lt, ltb, ◌!=◌, if◌then◌else◌, Bool-cases,
}
use pristine.Common.Bits.{bit_or_split}
use pristine.Common.Digits.{digit}
use pristine.Bitmap.{
  Bitmap, IsBytes, uint32_max, uint64_max, word_at, ctz_not, find_remaining, find_words,
  bitmap_find,
}
use pristine.Bitmap.Bits.{bit}
use pristine.Bitmap.Words.{word_at-lt, digit-word_at, ctz_not_lowest, digit_mask, digit_masked}

-- `r` is the lowest clear bit below `n`, or `uint32_max` where all of them are set.
pub data Lowest (b : Bitmap) (n : ℕ) (r : ℕ) : Type 0 where
  found : r < n → bit b r ≡ 0 → ((j : ℕ) → j < r → bit b j ≡ 1) → Lowest b n r
  none_free : r ≡ uint32_max → ((j : ℕ) → j < n → bit b j ≡ 1) → Lowest b n r

-- A word that is not full, with all bits before it set: its lowest clear bit is the one looked for.
found_in_word :
    (b : Bitmap) (n i w : ℕ)
    → w < 2 ^ 64
    → w ≢ uint64_max
    → n < 2 ^ 32
    → ((j : ℕ) → j < i * 64 → bit b j ≡ 1)
    → ((k : ℕ) → k < 64 → digit w k ≡ (if ltb (i * 64 + k) n then bit b (i * 64 + k) else 1))
    → Lowest b n ((i * 64 + ctz_not w) % 2 ^ 32)
found_in_word b n i w small ne few before reads =
    let (in_range, clear, below) = ctz_not_lowest w small ne in
    let k = ctz_not w in
    let inside : i * 64 + k < n = ground (arith, reads k in_range) in
    let here : (i * 64 + k) % 2 ^ 32 ≡ i * 64 + k = omega arith in
    rw here (
      found inside (ground (arith, reads k in_range)) λ j lt. elim (dec_lt j (i * 64)) [
        | yes early ↦ before j early
        | no late ↦
            let at : j ≡ i * 64 + (j - i * 64) = omega arith in
            rw at (ground (arith, reads (j - i * 64), below (j - i * 64)))
      ])

-- The bits of a full word are set.
full_word :
    (b : Bitmap) (n i w : ℕ)
    → w ≡ uint64_max
    → ((j : ℕ) → j < i * 64 → bit b j ≡ 1)
    → ((k : ℕ) → k < 64 → digit w k ≡ (if ltb (i * 64 + k) n then bit b (i * 64 + k) else 1))
    → (j : ℕ) → j < (i + 1) * 64
    → j < n
    → bit b j ≡ 1
full_word b n i w full before reads j lt in_range = elim (dec_lt j (i * 64)) [
  | yes early ↦ before j early
  | no late ↦
      let k = j - i * 64 in
      let at : j ≡ i * 64 + k = omega arith in
      let one : digit w k ≡ 1 = ground (arith, ap (λ v. digit v k) full, digit_mask 64 k) in
      rw at (ground (arith, reads k, one))
]

-- The last word with the bits from `r` on set.
abbrev masked : Bitmap → ℕ → ℕ → ℕ
masked b i r = bit_or (word_at b i) (uint64_max - (2 ^ r - 1))

masked-lt : (b : Bitmap) (i r : ℕ) → IsBytes b → masked b i r < 2 ^ 64
masked-lt b i r bytes =
    let (_, fits) =
      bit_or_split 64 0 (word_at b i) 0 (uint64_max - (2 ^ r - 1)) (word_at-lt b i bytes)
        (omega arith) in
    fits

find_remaining-Lowest :
    (b : Bitmap) (n i r : ℕ)
    → IsBytes b
    → n ≡ i * 64 + r
    → r < 64
    → n < 2 ^ 32
    → ((j : ℕ) → j < i * 64 → bit b j ≡ 1)
    → Lowest b n (find_remaining b i r)
unfolding find_remaining
find_remaining-Lowest b n i r bytes split small few before = elim (Bool-cases (r != 0)) [
  | inr whole ↦ rw whole (none_free refl λ j lt. before j (ground arith))
  | inl part ↦ elim (Bool-cases (masked b i r != uint64_max)) [
    | inl free ↦
        rw (part, free)
          (found_in_word b n i (masked b i r) (masked-lt b i r bytes) (ground arith) few before
            reads)
    | inr full ↦
        rw (part, full)
          (none_free refl
            λ j lt. full_word b n i (masked b i r) (ground arith) before reads j (omega arith) lt)
  ]
]
  where
    reads :
        (k : ℕ)
        → k < 64
        → digit (masked b i r) k ≡ (if ltb (i * 64 + k) n then bit b (i * 64 + k) else 1)
    reads k lt =
        ground (arith, digit_masked (word_at b i) r k small lt, digit-word_at b i k bytes lt)

find_words-Lowest :
    (left : ℕ) (b : Bitmap) (n i r : ℕ)
    → IsBytes b
    → n ≡ (i + left) * 64 + r
    → r < 64
    → n < 2 ^ 32
    → ((j : ℕ) → j < i * 64 → bit b j ≡ 1)
    → Lowest b n (find_words left b i r)
unfolding find_words
find_words-Lowest zero b n i r bytes split small few before =
    find_remaining-Lowest b n i r bytes (omega arith) small few before
find_words-Lowest (suc left) b n i r bytes split small few before =
    elim (Bool-cases (word_at b i != uint64_max)) [
      | inl free ↦
          rw free (
            found_in_word b n i (word_at b i) (word_at-lt b i bytes) (ground arith) few before
              reads)
      | inr full ↦ rw full (
          find_words-Lowest left b n (i + 1) r bytes (omega arith) small few
            λ j lt. full_word b n i (word_at b i) (ground arith) before reads j lt (omega arith))
    ]
  where
    reads :
        (k : ℕ)
        → k < 64
        → digit (word_at b i) k ≡ (if ltb (i * 64 + k) n then bit b (i * 64 + k) else 1)
    reads k lt = ground (arith, digit-word_at b i k bytes lt)

-- `bitmap_find` returns the lowest clear bit below `bit_count`, and `UINT32_MAX` exactly where
-- there is none.
pub bitmap_find-Lowest :
    (b : Bitmap) (bit_count : ℕ)
    → IsBytes b
    → bit_count < 2 ^ 32
    → Lowest b bit_count (bitmap_find b bit_count)
unfolding bitmap_find
bitmap_find-Lowest b bit_count bytes few =
    find_words-Lowest (bit_count / 64) b bit_count 0 (bit_count % 64) bytes (omega arith)
      (omega arith) few (λ j lt. absurd (omega arith))
