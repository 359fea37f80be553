-- ===== src/Tests/Prints.antt =====
-- Numbers printed by kernel/printf.c.
use pristine.Strings.Text.{IsText}
use pristine.Printf.Pieces.{Piece, plain, integer, text_at, format_of, all_printed}
use pristine.Printf.{
  is_digit, is_length_modifier, is_format_specifier, nprintf_puts, radix10, digit_char, put_digits,
  number_text, pad_char, vprintf_unsigned, signed_text, sign_text, vprintf_signed,
}
use pristine.Printf.Loop.{vprintf-all_printed}
use pristine.Printf.Format.{
  va_arg, sign_extend, printf_resolve_unsigned, read_flag, read_flags, read_width, width_mul,
  width_value, read_length, print_specifier, print_directive, vprintf_loop, vprintf,
}
use pristine.Strings.{Bytes, strlen_from, strlen, swap_between, strrev}
use pristine.Common.{ℕ, ◌-◌, ◌^◌, ◌≡◌, refl, List, [], ◌∷◌, arith, get_or}

abbrev empty_buffer : Bytes
empty_buffer k = 0

-- The format "a%4lux" with the argument 17.
abbrev format : Bytes
format k = get_or (97 ∷ 37 ∷ 52 ∷ 108 ∷ 117 ∷ 120 ∷ []) k 0

printed : vprintf 10 empty_buffer empty_buffer format (17 ∷ []) ≡ 97 ∷ 32 ∷ 32 ∷ 49 ∷ 55 ∷ 120 ∷ []
unfolding vprintf vprintf_loop print_directive print_specifier read_flags read_flag read_width
    read_length width_value width_mul is_digit is_length_modifier is_format_specifier va_arg
    printf_resolve_unsigned vprintf_unsigned number_text put_digits digit_char radix10 pad_char
    nprintf_puts strlen strlen_from strrev swap_between
printed = refl

-- "%d:%s" with -1 and the text "hi" at 7.
abbrev hi : List ℕ
hi = 104 ∷ 105 ∷ []

abbrev hi_at_7 : Bytes
hi_at_7 k = get_or hi (k - 7) 0

abbrev pieces : List Piece
pieces = integer (2 ^ 32 - 1) ∷ plain 58 ∷ text_at 7 hi ∷ []

abbrev pieces_format : Bytes
pieces_format k = get_or (format_of pieces) k 0

hi-IsText : IsText hi_at_7 7 hi
hi-IsText = (
  refl,
  (λ e. absurd (omega (arith, e))),
  omega arith,
  (refl, (λ e. absurd (omega (arith, e))), omega arith, refl),
)

pieces-IsText : IsText pieces_format 0 (format_of pieces)
pieces-IsText = (
  refl,
  (λ e. absurd (omega (arith, e))),
  omega arith,
  (
    refl,
    (λ e. absurd (omega (arith, e))),
    omega arith,
    (
      refl,
      (λ e. absurd (omega (arith, e))),
      omega arith,
      (
        refl,
        (λ e. absurd (omega (arith, e))),
        omega arith,
        (refl, (λ e. absurd (omega (arith, e))), omega arith, refl),
      ),
    ),
  ),
)

vprintf-all_printed_example :
    vprintf 10 hi_at_7 empty_buffer pieces_format ((2 ^ 32 - 1) ∷ 7 ∷ [])
    ≡ all_printed empty_buffer pieces
vprintf-all_printed_example =
    vprintf-all_printed 10 hi_at_7 empty_buffer pieces_format pieces
      (_, ((λ e. absurd (omega (arith, e))), ((hi-IsText, omega arith, omega arith), _)))
      pieces-IsText (omega arith)

pieces_printed : all_printed empty_buffer pieces ≡ 45 ∷ 49 ∷ 58 ∷ hi
unfolding sign_extend vprintf_signed sign_text signed_text number_text put_digits digit_char radix10
    pad_char nprintf_puts strlen strlen_from strrev swap_between
pieces_printed = refl
