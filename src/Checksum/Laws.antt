-- ===== src/Checksum/Laws.antt =====
-- The checksum as a function of the bytes: chunks, and the errors that it finds.
use pristine.Common.Xor.{
  bit_xor_cancel, bit_xor_cancel_left, bit_xor-lt, bit_xor_high, bit_xor-zero,
}
use pristine.Checksum.{crc32_start, crc32_bits, crc32_loop, crc32_update, crc32_finalize, crc32}
use pristine.Common.Bits.{bit_and-zero, bit_and_mask}
use pristine.Common.{
  ℕ, zero, suc, ◌+◌, ◌-◌, ◌*◌, ◌/◌, ◌%◌, ◌^◌, ◌≤◌, ◌<◌, bit_and, bit_xor, ◌≡◌, refl, sym, ap, ◌∙◌,
  ◌≢◌, List, [], ◌∷◌, ◌++◌, arith, ℕ_discrete, All,
}

-- One round of the inner loop: shift, and subtract the polynomial where a one was shifted out.
abbrev round : ℕ → ℕ → ℕ
round p x = bit_xor (x / 2) (bit_and p ((2 ^ 32 - bit_and x 1) % 2 ^ 32))

round_even : (p x : ℕ) → x % 2 ≡ 0 → round p x ≡ x / 2
round_even p x even =
    let low : bit_and x 1 ≡ 0 = bit_and_mask 1 x ∙ even in
    rw (low, bit_and-zero p) (bit_xor-zero (x / 2))

round_odd : (p x : ℕ) → p < 2 ^ 32 → x % 2 ≡ 1 → round p x ≡ bit_xor (x / 2) p
round_odd p x fits odd =
    let low : bit_and x 1 ≡ 1 = bit_and_mask 1 x ∙ odd in
    let all : bit_and p (2 ^ 32 - 1) ≡ p = bit_and_mask 32 p ∙ omega arith in rw (low, all)

module _ (p : ℕ) (fits : p < 2 ^ 32) (top : 2 ^ 31 ≤ p) where
  round-lt : (x : ℕ) → x < 2 ^ 32 → round p x < 2 ^ 32
  round-lt x h = elim (ℕ_discrete (x % 2) 0) [
    | yes even ↦ omega (arith, round_even p x even)
    | no odd ↦
        omega (arith, round_odd p x fits (omega arith), bit_xor-lt 32 (x / 2) p (omega arith) fits)
  ]

  -- The highest bit of the result tells what was shifted out.
  round_high :
      (x : ℕ) → x < 2 ^ 32 → (x % 2) * 2 ^ 31 ≤ round p x × (round p x < 2 ^ 31 + (x % 2) * 2 ^ 31)
  round_high x h = elim (ℕ_discrete (x % 2) 0) [
    | yes even ↦ omega (arith, round_even p x even)
    | no odd ↦ omega (
      arith,
      round_odd p x fits (omega arith),
      bit_xor-lt 32 (x / 2) p (omega arith) fits,
      bit_xor_high 31 (x / 2) p (omega arith) top,
    )
  ]

  round_injective : (x y : ℕ) → x < 2 ^ 32 → y < 2 ^ 32 → round p x ≡ round p y → x ≡ y
  round_injective x y hx hy e =
      let bits : x % 2 ≡ y % 2 = omega (arith, round_high x hx, round_high y hy, e) in
      elim (ℕ_discrete (x % 2) 0) [
        | yes even ↦ omega (arith, bits, round_even p x even, round_even p y (omega arith), e)
        | no odd ↦
            let halves : x / 2 ≡ y / 2 =
              bit_xor_cancel (x / 2) (y / 2) p
                (sym (round_odd p x fits (omega arith)) ∙ e ∙ round_odd p y fits (omega arith)) in
            omega (arith, bits, halves)
      ]

  crc32_bits-lt : (n x : ℕ) → x < 2 ^ 32 → crc32_bits p n x < 2 ^ 32
  unfolding crc32_bits
  crc32_bits-lt zero x h = h
  crc32_bits-lt (suc n) x h = crc32_bits-lt n (round p x) (round-lt x h)

  crc32_bits_injective :
      (n x y : ℕ) → x < 2 ^ 32 → y < 2 ^ 32 → crc32_bits p n x ≡ crc32_bits p n y → x ≡ y
  unfolding crc32_bits
  crc32_bits_injective zero x y hx hy e = e
  crc32_bits_injective (suc n) x y hx hy e =
      round_injective x y hx hy
        (crc32_bits_injective n (round p x) (round p y) (round-lt x hx) (round-lt y hy) e)

  step-lt : (crc b : ℕ) → crc < 2 ^ 32 → b < 256 → crc32_bits p 8 (bit_xor crc b) < 2 ^ 32
  step-lt crc b h small = crc32_bits-lt 8 (bit_xor crc b) (bit_xor-lt 32 crc b h (omega arith))

  crc32_loop-lt :
      (input : List ℕ) (crc : ℕ)
      → crc < 2 ^ 32
      → All (λ b. b < 256) input
      → crc32_loop p crc input < 2 ^ 32
  unfolding crc32_loop
  crc32_loop-lt [] crc h bytes = h
  crc32_loop-lt (b ∷ input) crc h bytes =
      crc32_loop-lt input (crc32_bits p 8 (bit_xor crc b)) (step-lt crc b h bytes.0) bytes.1

  crc32_loop_injective :
      (input : List ℕ) (x y : ℕ)
      → x < 2 ^ 32
      → y < 2 ^ 32
      → All (λ b. b < 256) input
      → crc32_loop p x input ≡ crc32_loop p y input
      → x ≡ y
  unfolding crc32_loop
  crc32_loop_injective [] x y hx hy bytes e = e
  crc32_loop_injective (b ∷ input) x y hx hy bytes e =
      let steps =
        crc32_loop_injective input (crc32_bits p 8 (bit_xor x b)) (crc32_bits p 8 (bit_xor y b))
          (step-lt x b hx bytes.0) (step-lt y b hy bytes.0) bytes.1 e in
      bit_xor_cancel x y b (
        crc32_bits_injective 8 (bit_xor x b) (bit_xor y b) (bit_xor-lt 32 x b hx (omega arith))
          (bit_xor-lt 32 y b hy (omega arith)) steps)

module _ (p : ℕ) (fits : p < 2 ^ 32) (top : 2 ^ 31 ≤ p) where
  one_byte :
      (after : List ℕ) (crc a b : ℕ)
      → crc < 2 ^ 32
      → All (λ x. x < 256) after
      → a < 256
      → b < 256
      → crc32_loop p crc (a ∷ after) ≡ crc32_loop p crc (b ∷ after)
      → a ≡ b
  unfolding crc32_loop
  one_byte after crc a b h rest small_a small_b e = bit_xor_cancel_left crc a b (
      crc32_bits_injective p fits top 8 (bit_xor crc a) (bit_xor crc b)
        (bit_xor-lt 32 crc a h (omega arith)) (bit_xor-lt 32 crc b h (omega arith))
        (crc32_loop_injective p fits top after _ _ (step-lt p fits top crc a h small_a)
          (step-lt p fits top crc b h small_b) rest e))

pub crc32_loop-append :
    (p : ℕ) (xs ys : List ℕ) (crc : ℕ)
    → crc32_loop p crc (xs ++ ys) ≡ crc32_loop p (crc32_loop p crc xs) ys
unfolding crc32_loop
crc32_loop-append p [] ys crc = refl
crc32_loop-append p (x ∷ xs) ys crc = crc32_loop-append p xs ys (crc32_bits p 8 (bit_xor crc x))

-- The update over a sequence of chunks, as the readers of a file call it.
abbrev pub update_chunks : ℕ → List (List ℕ) → ℕ
update_chunks crc [] = crc
update_chunks crc (chunk ∷ chunks) = update_chunks (crc32_update crc chunk) chunks

abbrev pub joined : List (List ℕ) → List ℕ
joined [] = []
joined (chunk ∷ chunks) = chunk ++ joined chunks

update_chunks-joined :
    (chunks : List (List ℕ)) (crc : ℕ) → update_chunks crc chunks ≡ crc32_update crc (joined chunks)
unfolding crc32_update crc32_loop
update_chunks-joined [] crc = refl
update_chunks-joined (chunk ∷ chunks) crc =
    update_chunks-joined chunks (crc32_update crc chunk)
    ∙ sym (crc32_loop-append 0xEDB8_8320 chunk (joined chunks) crc)

-- However a file is cut into chunks, updating from the start value over them and finalizing gives
-- the checksum of the whole.
pub crc32-update_chunks :
    (chunks : List (List ℕ))
    → crc32_finalize (update_chunks crc32_start chunks) ≡ crc32 (joined chunks)
unfolding crc32_finalize crc32 crc32_update
crc32-update_chunks chunks = ap (λ c. 2 ^ 32 - 1 - c) (update_chunks-joined chunks crc32_start)

-- The polynomial of `crc32` and `crc32_update`.
abbrev poly : ℕ
poly = 0xEDB8_8320

All-append : (P : ℕ → Type 0) (xs ys : List ℕ) → All P xs → All P ys → All P (xs ++ ys)
All-append P [] ys p q = q
All-append P (x ∷ xs) ys p q = (p.0, All-append P xs ys p.1 q)

-- A change of any one byte of the data changes the checksum.
pub crc32_detects_byte :
    (before after : List ℕ) (a b : ℕ)
    → All (λ x. x < 256) before
    → All (λ x. x < 256) after
    → a < 256
    → b < 256
    → a ≢ b
    → crc32 (before ++ a ∷ after) ≢ crc32 (before ++ b ∷ after)
unfolding crc32
crc32_detects_byte before after a b first rest small_a small_b ne e =
    let start_lt =
      crc32_loop-lt poly (omega arith) (omega arith) before crc32_start (omega arith) first in
    let sums : crc32_loop poly crc32_start (before ++ a ∷ after)
        ≡ crc32_loop poly crc32_start (before ++ b ∷ after) =
      omega (arith, e, whole_lt a small_a, whole_lt b small_b) in
    ne (
      one_byte poly (omega arith) (omega arith) after _ a b start_lt rest small_a small_b (
        sym (crc32_loop-append poly before (a ∷ after) crc32_start)
        ∙ sums
        ∙ crc32_loop-append poly before (b ∷ after) crc32_start))
  where
    whole_lt : (c : ℕ) → c < 256 → crc32_loop poly crc32_start (before ++ c ∷ after) < 2 ^ 32
    whole_lt c small =
        crc32_loop-lt poly (omega arith) (omega arith) (before ++ c ∷ after) crc32_start
          (omega arith) (All-append _ before (c ∷ after) first (small, rest))
