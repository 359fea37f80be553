-- ===== src/Printf/Digits.antt =====
-- kernel/printf.c: the digits of a number in the buffer, first digit first, and what they read as.
use native.Mathlib.Nat.{pow-suc}
use pristine.Strings.{Bytes}
use pristine.Printf.{
  PrintBase, base_oct, base_dec, base_hex, base_of, radix10, radix16, digit_char, put_digits,
}
use pristine.Common.{
  ℕ, zero, suc, ◌+◌, ◌-◌, ◌*◌, ◌/◌, ◌%◌, ◌^◌, ◌≤◌, ◌<◌, ◌≡◌, refl, ◌∙◌, Bool, true, false, List, [],
  ◌∷◌, arith, dec_lt, ltb, if◌then◌else◌, lt→ltb, update, update_self, update-ne,
}

-- A number without its last `m` digits.
abbrev pub quot : PrintBase → ℕ → ℕ → ℕ
quot base num zero = num
quot base num (suc m) = quot base (num / base_of base) m

pub quot_next :
    (base : PrintBase) (num m : ℕ) → quot base num (suc m) ≡ quot base num m / base_of base
quot_next base num zero = refl
quot_next base num (suc m) = quot_next base (num / base_of base) m

pub quot_zero : (base : PrintBase) (m num : ℕ) → num < 8 ^ m → quot base num m ≡ 0
quot_zero base zero num h = omega arith
quot_zero base_oct (suc m) num h = quot_zero base_oct m (num / 8) (omega (arith, pow-suc 8 m))
quot_zero base_dec (suc m) num h = quot_zero base_dec m (num / 10) (omega (arith, pow-suc 8 m))
quot_zero base_hex (suc m) num h = quot_zero base_hex m (num / 16) (omega (arith, pow-suc 8 m))

-- The value of a character as a digit, which is 255 for one that is none, and of a list of them.
abbrev pub digit_value : ℕ → ℕ
digit_value c =
    if ltb c 48
    then 255
    else if ltb c 58
    then c - 48
    else if ltb c 65
    then 255
    else if ltb c 91
    then c - 55
    else if ltb c 97
    then 255
    else c - 87

abbrev pub read_number : PrintBase → ℕ → List ℕ → ℕ
read_number base acc [] = acc
read_number base acc (c ∷ cs) = read_number base (acc * base_of base + digit_value c) cs

pub digit_char-value :
    (base : PrintBase) (uppercase : Bool) (d : ℕ)
    → d < base_of base
    → (digit_value (digit_char base uppercase d) ≡ d)
      × (48 ≤ digit_char base uppercase d)
      × (digit_char base uppercase d < 256)
unfolding digit_char radix10 radix16
digit_char-value base_oct uppercase d h = ground arith
digit_char-value base_dec uppercase d h = ground arith
digit_char-value base_hex true d h = ground arith
digit_char-value base_hex false d h = ground arith

pub remainder-lt : (base : PrintBase) (num : ℕ) → num % base_of base < base_of base
remainder-lt base_oct num = omega arith
remainder-lt base_dec num = omega arith
remainder-lt base_hex num = omega arith

-- What the loop leaves: `count` digits, the last digit of the number first.
pub record Digits (base : PrintBase) (uppercase : Bool) (num buflen : ℕ) (buf : Bytes)
    (result : ℕ × Bytes) : Type 0 where
  pub count : ℕ
  pub len : result.0 ≡ buflen + count
  pub all_of : quot base num count ≡ 0
  pub some_of : 0 < num → 0 < count
  pub lead : (k : ℕ) → k < count → 0 < quot base num k
  pub digits :
      (k : ℕ)
      → k < count
      → result.1 (1 + buflen + k) ≡ digit_char base uppercase (quot base num k % base_of base)
  pub before : (x : ℕ) → x < 1 + buflen → result.1 x ≡ buf x

-- A digit, and those after it.
Digits-first :
    (base : PrintBase) (uppercase : Bool) (num buflen : ℕ) (buf : Bytes) (result : ℕ × Bytes)
    → 0 < num
    → Digits base uppercase
        (num / base_of base)
        (buflen + 1)
        (update buf (1 + buflen) (digit_char base uppercase (num % base_of base)))
        result
    → Digits base uppercase num buflen buf result
Digits-first base uppercase num buflen buf result more rest = record {
  count = suc rest.count;
  len = rest.len ∙ omega arith;
  all_of = rest.all_of;
  some_of = λ h. omega arith;
  lead = lead;
  digits = digits;
  before = λ x lt.
      rest.before x (omega arith)
      ∙ update-ne buf (1 + buflen) (digit_char base uppercase (num % base_of base)) x (omega arith);
}
  where
    lead : (k : ℕ) → k < suc rest.count → 0 < quot base num k
    lead zero lt = more
    lead (suc k) lt = rest.lead k (omega (arith, lt))

    digits :
        (k : ℕ)
        → k < suc rest.count
        → result.1 (1 + buflen + k) ≡ digit_char base uppercase (quot base num k % base_of base)
    digits zero lt =
        let place : 1 + buflen + 0 ≡ 1 + buflen = omega arith in
        rw place (
          rest.before (1 + buflen) (omega arith)
          ∙ update_self buf (1 + buflen) (digit_char base uppercase (num % base_of base)))
    digits (suc k) lt =
        let place : 1 + buflen + suc k ≡ 1 + (buflen + 1) + k = omega arith in
        rw place (rest.digits k (omega (arith, lt)))

pub put_digits-Digits :
    (left : ℕ) (base : PrintBase) (uppercase : Bool) (num buflen : ℕ) (buf : Bytes)
    → quot base num left ≡ 0
    → Digits base uppercase num buflen buf (put_digits left base uppercase num buflen buf)
unfolding put_digits
put_digits-Digits zero base uppercase num buflen buf enough = record {
  count = 0;
  len = omega arith;
  all_of = enough;
  some_of = λ h. absurd (omega (arith, h, enough));
  lead = λ k lt. absurd (omega arith);
  digits = λ k lt. absurd (omega arith);
  before = λ x lt. refl;
}
put_digits-Digits (suc left) base uppercase num buflen buf enough = elim (dec_lt 0 num) [
  | no done ↦
      let stop : ltb 0 num ≡ false = ground (arith, done) in
      rw stop record {
        count = 0;
        len = omega arith;
        all_of = omega arith;
        some_of = λ h. absurd (omega (arith, h));
        lead = λ k lt. absurd (omega arith);
        digits = λ k lt. absurd (omega arith);
        before = λ x lt. refl;
      }
  | yes more ↦
      let next = update buf (1 + buflen) (digit_char base uppercase (num % base_of base)) in
      rw (lt→ltb 0 num more) (
        Digits-first base uppercase num buflen buf
          (put_digits left base uppercase (num / base_of base) (buflen + 1) next) more
          (put_digits-Digits left base uppercase (num / base_of base) (buflen + 1) next enough))
]
