-- ===== src/Printf/Number.antt =====
-- kernel/printf.c: a number as `vprintf_unsigned` and `vprintf_signed` print it, read back.
use pristine.Printf.Reverse.{strrev-bytes}
use pristine.Printf.Digits.{
  quot, quot_next, quot_zero, digit_value, read_number, digit_char-value, remainder-lt, Digits,
  put_digits-Digits,
}
use pristine.Strings.{Bytes, strrev}
use pristine.Strings.Text.{IsText}
use pristine.Printf.{
  PrintBase, base_oct, base_dec, base_hex, base_of, nprintf_puts, digit_char, put_digits,
  number_text,
}
use pristine.Common.{
  ℕ, zero, suc, ◌+◌, ◌-◌, ◌*◌, ◌/◌, ◌%◌, ◌^◌, ◌<◌, ◌≡◌, refl, sym, ap, ◌∙◌, subst, ◌≢◌, Bool, [],
  ◌∷◌, arith, dec_lt, ==-ne, length, All, update, update_self, update-ne,
}

-- The bytes of an array as a text.
puts-IsText :
    (n p : ℕ) (mem : Bytes)
    → ((k : ℕ) → k < n → (mem (p + k) ≢ 0) × (mem (p + k) < 256))
    → mem (p + n) ≡ 0
    → IsText mem p (nprintf_puts mem p n)
unfolding nprintf_puts
puts-IsText zero p mem chars ended = let place : p ≡ p + 0 = omega arith in ap mem place ∙ ended
puts-IsText (suc n) p mem chars ended =
    let place : p + 0 ≡ p = omega arith in
    let first = rw place at (chars 0 (omega arith)) in
    let next : p + suc n ≡ p + 1 + n = omega arith in
    (
      refl,
      first.0,
      first.1,
      puts-IsText n (p + 1) mem
          (λ k lt.
            let there : p + 1 + k ≡ p + suc k = omega arith in
            rw there (chars (suc k) (omega arith)))
          (rw next at ended),
    )

pub length-nprintf_puts : (n p : ℕ) (mem : Bytes) → length (nprintf_puts mem p n) ≡ n
unfolding nprintf_puts
length-nprintf_puts zero p mem = refl
length-nprintf_puts (suc n) p mem = ap suc (length-nprintf_puts n (p + 1) mem)

-- The buffer holds the `n` digits of a number from the first on.
abbrev Shown : PrintBase → Bool → ℕ → ℕ → Bytes → Type 0
Shown base uppercase num n text =
    (k : ℕ)
    → k < n
    → text (1 + k) ≡ digit_char base uppercase (quot base num (n - 1 - k) % base_of base)

whole_division :
    (base : PrintBase) (num : ℕ) → num / base_of base * base_of base + num % base_of base ≡ num
whole_division base_oct num = omega arith
whole_division base_dec num = omega arith
whole_division base_hex num = omega arith

-- The last `j` digits, read after those before them.
read_rest :
    (base : PrintBase) (uppercase : Bool) (num n : ℕ) (text : Bytes) (j k : ℕ)
    → k + j ≡ n
    → Shown base uppercase num n text
    → read_number base (quot base num j) (nprintf_puts text (1 + k) j) ≡ num
unfolding nprintf_puts
read_rest base uppercase num n text zero k whole shown = refl
read_rest base uppercase num n text (suc j) k whole shown =
    let digit = quot base num j % base_of base in
    let index : n - 1 - k ≡ j = omega (arith, whole) in
    let char : text (1 + k) ≡ digit_char base uppercase digit =
      shown k (omega (arith, whole))
      ∙ ap (λ m. digit_char base uppercase (quot base num m % base_of base)) index in
    let value : digit_value (text (1 + k)) ≡ digit =
      ap digit_value char
      ∙ (digit_char-value base uppercase digit (remainder-lt base (quot base num j))).0 in
    let acc : quot base num (suc j) * base_of base + digit_value (text (1 + k)) ≡ quot base num j =
      rw (quot_next base num j, value) (whole_division base (quot base num j)) in
    let next : 1 + k + 1 ≡ 1 + (k + 1) = omega arith in
    ap (λ a. read_number base a (nprintf_puts text (1 + k + 1) j)) acc
    ∙ rw next (read_rest base uppercase num n text j (k + 1) (omega (arith, whole)) shown)

-- The text of a number: digits without a zero in front, which read as the number.
pub record NumberText (base : PrintBase) (uppercase : Bool) (num : ℕ) (result : ℕ × Bytes)
    : Type 0 where
  pub some_digits : 0 < result.0
  pub bounded : result.0 < 32
  pub reads : read_number base 0 (nprintf_puts result.1 1 result.0) ≡ num
  pub valid : All (λ c. digit_value c < base_of base) (nprintf_puts result.1 1 result.0)
  pub no_zero : 0 < num → 0 < digit_value (result.1 1)

leading_digit : (base : PrintBase) (q : ℕ) → q / base_of base ≡ 0 → 0 < q → 0 < q % base_of base
leading_digit base_oct q above more = omega arith
leading_digit base_dec q above more = omega arith
leading_digit base_hex q above more = omega arith

zero_valid : (base : PrintBase) → All (λ c. digit_value c < base_of base) (48 ∷ [])
zero_valid base_oct = omega arith
zero_valid base_dec = omega arith
zero_valid base_hex = omega arith

-- All bytes of a text of digits are digits of the base.
puts-valid :
    (base : PrintBase) (mem : Bytes) (n p : ℕ)
    → ((k : ℕ) → k < n → digit_value (mem (p + k)) < base_of base)
    → All (λ c. digit_value c < base_of base) (nprintf_puts mem p n)
unfolding nprintf_puts
puts-valid base mem zero p h = tt
puts-valid base mem (suc n) p h =
    let place : p + 0 ≡ p = omega arith in
    (
      rw place at (h 0 (omega arith)),
      puts-valid base mem n (p + 1) (λ k lt.
          let there : p + 1 + k ≡ p + suc k = omega arith in rw there (h (suc k) (omega arith))),
    )

Shown-valid :
    (base : PrintBase) (uppercase : Bool) (num n : ℕ) (text : Bytes)
    → Shown base uppercase num n text
    → All (λ c. digit_value c < base_of base) (nprintf_puts text 1 n)
Shown-valid base uppercase num n text shown = puts-valid base text n 1 λ k lt.
    let digit = quot base num (n - 1 - k) % base_of base in
    let small = remainder-lt base (quot base num (n - 1 - k)) in
    let value : digit_value (text (1 + k)) ≡ digit =
      ap digit_value (shown k lt) ∙ (digit_char-value base uppercase digit small).0 in
    rw value small

zero_reads : (base : PrintBase) → read_number base 0 (48 ∷ []) ≡ 0
zero_reads base_oct = refl
zero_reads base_dec = refl
zero_reads base_hex = refl

module _ (base : PrintBase) (uppercase : Bool) (num : ℕ) (buf : Bytes) where
  abbrev stored : ℕ × Bytes
  stored = put_digits 31 base uppercase num 0 buf

  -- The digits in the buffer are a text, which `strrev` turns round.
  stored-Shown :
      (d : Digits base uppercase num 0 buf stored)
      → 0 < d.count
      → d.count < 32
      → Shown base uppercase num d.count (strrev 32 (update stored.1 (1 + stored.0) 0) 1)
  stored-Shown d some_digits few k lt =
      let n = d.count in
      let ended = update stored.1 (1 + n) 0 in
      let at_end : stored.0 ≡ n = d.len ∙ omega arith in
      let kept : (j : ℕ)
          → j < n
          → ended (1 + j) ≡ digit_char base uppercase (quot base num j % base_of base) =
        λ j below. update-ne stored.1 (1 + n) 0 (1 + j) (omega (arith, below)) ∙ d.digits j below in
      let text : IsText ended 1 (nprintf_puts ended 1 n) =
        puts-IsText n 1 ended
          (λ j below.
            let char =
              digit_char-value base uppercase (quot base num j % base_of base)
                (remainder-lt base (quot base num j)) in
            rw (kept j below) ((λ e. absurd (omega (arith, e, char.1))), char.2))
          (update_self stored.1 (1 + n) 0) in
      let count = length-nprintf_puts n 1 ended in
      rw at_end (
        strrev-bytes 32 ended 1 (nprintf_puts ended 1 n) text (rw count some_digits) (rw count few)
          (omega arith) k (rw count lt)
        ∙ ap (λ m. ended (1 + (m - 1 - k))) count
        ∙ kept (n - 1 - k) (omega (arith, lt)))

  nonzero-NumberText :
      0 < num
      → num < 2 ^ 64
      → NumberText base uppercase num (stored.0, strrev 32 (update stored.1 (1 + stored.0) 0) 1)
  nonzero-NumberText more small =
      let d = put_digits-Digits 31 base uppercase num 0 buf (quot_zero base 31 num (omega arith)) in
      let some_digits = d.some_of more in
      let few : d.count < 32 = elim (dec_lt 31 d.count) [
        | yes many ↦ absurd (omega (arith, d.lead 31 many, quot_zero base 31 num (omega arith)))
        | no fits ↦ omega arith
      ] in
      let at_end : stored.0 ≡ d.count = d.len ∙ omega arith in
      let text = strrev 32 (update stored.1 (1 + stored.0) 0) 1 in
      let shown = stored-Shown d some_digits few in
      let all_read : read_number base 0 (nprintf_puts text 1 d.count) ≡ num =
        ap (λ a. read_number base a (nprintf_puts text 1 d.count)) (sym d.all_of)
        ∙ read_rest base uppercase num d.count text d.count 0 (omega arith) shown in
      let top = d.count - 1 in
      let same_top : d.count - 1 - 0 ≡ top = omega arith in
      let first : digit_value (text 1) ≡ quot base num top % base_of base =
        ap digit_value (shown 0 some_digits)
        ∙ (digit_char-value base uppercase (quot base num (d.count - 1 - 0) % base_of base)
            (remainder-lt base (quot base num (d.count - 1 - 0)))).0
        ∙ ap (λ m. quot base num m % base_of base) same_top in
      let whole_count : suc top ≡ d.count = omega (arith, some_digits) in
      let above : quot base num top / base_of base ≡ 0 =
        sym (quot_next base num top) ∙ ap (quot base num) whole_count ∙ d.all_of in
      record {
        some_digits = rw at_end some_digits;
        bounded = rw at_end few;
        reads = ap (λ n. read_number base 0 (nprintf_puts text 1 n)) at_end ∙ all_read;
        valid =
            subst (λ n. All (λ c. digit_value c < base_of base) (nprintf_puts text 1 n))
              (sym at_end) (Shown-valid base uppercase num d.count text shown);
        no_zero = λ h. rw first (
            leading_digit base (quot base num top) above (d.lead top (omega (arith, some_digits))));
      }

  -- The text of any number of 64 bits.
  pub number_text-NumberText :
      num < 2 ^ 64 → NumberText base uppercase num (number_text base uppercase num buf)
  unfolding number_text nprintf_puts
  number_text-NumberText small = elim (dec_lt 0 num) [
    | yes more ↦ rw (==-ne num 0 (λ e. absurd (omega (arith, e)))) (nonzero-NumberText more small)
    | no empty ↦
        let is_zero : num ≡ 0 = omega arith in
        rw (is_zero) record {
          some_digits = omega arith;
          bounded = omega arith;
          reads = zero_reads base;
          valid = zero_valid base;
          no_zero = λ h. absurd (omega (arith, h));
        }
  ]
