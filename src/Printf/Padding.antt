-- ===== src/Printf/Padding.antt =====
-- kernel/printf.c: a number in a field of some width.
use pristine.Printf.Digits.{digit_value, read_number}
use pristine.Printf.{PrintBase, base_dec, base_of, Flags, pad_char, sign_text}
use pristine.Common.{
  ℕ, zero, suc, ◌+◌, ◌-◌, ◌^◌, ◌<◌, max, ◌≡◌, refl, ap, Bool, not, List, ◌++◌, leb, if◌then◌else◌,
  length, get_or, replicate, All,
}

length-replicate : (n a : ℕ) → length (replicate n a) ≡ n
length-replicate zero a = refl
length-replicate (suc n) a = ap suc (length-replicate n a)

-- Digits that read as a number, with padding on one side or between them and a sign.
pub record Printed (base : PrintBase) (num width : ℕ) (flags : Flags) (out : List ℕ) : Type 0 where
  pub digits : List ℕ
  pub pads : ℕ
  pub shape : out ≡ (
      if not flags.leftalign
      then replicate pads (pad_char flags) ++ digits
      else digits ++ replicate pads (pad_char flags))
  pub reads : read_number base 0 digits ≡ num
  pub some_digits : 0 < length digits
  pub valid : All (λ c. digit_value c < base_of base) digits
  pub no_zero : 0 < num → 0 < digit_value (get_or digits 0 0)
  pub size : length digits + pads ≡ max width (length digits)

-- The sign, the padding and the digits, in the order of the flags.
abbrev pub arranged : Flags → List ℕ → List ℕ → List ℕ → List ℕ
arranged flags sign pads digits =
    if not flags.leftalign
    then if flags.zeropad then sign ++ pads ++ digits else pads ++ sign ++ digits
    else sign ++ digits ++ pads

-- The characters of a `-`, and the absolute value of a number in two's complement.
abbrev pub minus_length : Bool → ℕ
minus_length negative = if negative then 1 else 0

abbrev pub magnitude_of : ℕ → ℕ
magnitude_of num = if leb (2 ^ 63) num then 2 ^ 64 - num else num

pub record SignedPrinted (negative : Bool) (magnitude width : ℕ) (flags : Flags) (out : List ℕ)
    : Type 0 where
  pub digits : List ℕ
  pub pads : ℕ
  pub shape :
      out ≡ arranged flags (sign_text negative flags) (replicate pads (pad_char flags)) digits
  pub reads : read_number base_dec 0 digits ≡ magnitude
  pub some_digits : 0 < length digits
  pub valid : All (λ c. digit_value c < 10) digits
  pub no_zero : 0 < magnitude → 0 < digit_value (get_or digits 0 0)
  pub size :
      length digits + pads + minus_length negative
      ≡ max width (length digits + minus_length negative)
