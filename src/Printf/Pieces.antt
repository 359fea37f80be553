-- ===== src/Printf/Pieces.antt =====
-- kernel/printf.c: the pieces of a format, and what they stand for.
use pristine.Strings.{Bytes}
use pristine.Printf.{
  base_dec, base_hex, vprintf_puts, vprintf_unsigned, vprintf_signed, vprintf_ptr, vprintf_str,
}
use pristine.Printf.Format.{sign_extend, no_flags}
use pristine.Strings.Text.{IsText, strlen-length}
use pristine.Common.{
  ℕ, zero, suc, ◌+◌, ◌-◌, ◌%◌, ◌^◌, ◌<◌, ◌≡◌, refl, ap, ◌∙◌, ◌≢◌, false, List, [], ◌∷◌, ◌++◌, arith,
  ltb, ◌==◌, if◌then◌else◌, ==-ne, length,
}

-- A character that stands for itself, `%%`, `%lu`, `%lx`, `%d`, `%s`, `%c` and `%p`, with the
-- arguments.
pub data Piece : Type 0 where
  plain : ℕ → Piece
  percent : Piece
  decimal hexadecimal integer character pointer : ℕ → Piece
  text_at : ℕ → List ℕ → Piece

-- What a piece asks for: a text is in the memory, and shorter than 256 bytes.
abbrev pub IsPrintable : ℕ → Bytes → Piece → Type 0
IsPrintable fuel mem (plain c) = c ≢ 37
IsPrintable fuel mem (text_at p xs) = IsText mem p xs × (length xs < 256) × (length xs < fuel)
IsPrintable fuel mem _ = Unit

abbrev pub AllPrintable : ℕ → Bytes → List Piece → Type 0
AllPrintable fuel mem [] = Unit
AllPrintable fuel mem (piece ∷ pieces) = IsPrintable fuel mem piece × AllPrintable fuel mem pieces

abbrev pub written : Piece → List ℕ
written (plain c) = c ∷ []
written percent = 37 ∷ 37 ∷ []
written (decimal n) = 37 ∷ 108 ∷ 117 ∷ []
written (hexadecimal n) = 37 ∷ 108 ∷ 120 ∷ []
written (integer n) = 37 ∷ 100 ∷ []
written (text_at p xs) = 37 ∷ 115 ∷ []
written (character c) = 37 ∷ 99 ∷ []
written (pointer p) = 37 ∷ 112 ∷ []

abbrev pub format_of : List Piece → List ℕ
format_of [] = []
format_of (piece ∷ pieces) = written piece ++ format_of pieces

abbrev pub arguments_of : List Piece → List ℕ
arguments_of [] = []
arguments_of (plain c ∷ pieces) = arguments_of pieces
arguments_of (percent ∷ pieces) = arguments_of pieces
arguments_of (decimal n ∷ pieces) = n ∷ arguments_of pieces
arguments_of (hexadecimal n ∷ pieces) = n ∷ arguments_of pieces
arguments_of (integer n ∷ pieces) = n ∷ arguments_of pieces
arguments_of (text_at p xs ∷ pieces) = p ∷ arguments_of pieces
arguments_of (character c ∷ pieces) = c ∷ arguments_of pieces
arguments_of (pointer p ∷ pieces) = p ∷ arguments_of pieces

abbrev pub printed_of : Bytes → Piece → List ℕ
printed_of buf (plain c) = c ∷ []
printed_of buf percent = 37 ∷ []
printed_of buf (decimal n) = vprintf_unsigned n 0 no_flags false base_dec buf
printed_of buf (hexadecimal n) = vprintf_unsigned n 0 no_flags false base_hex buf
printed_of buf (integer n) = vprintf_signed (sign_extend 32 n) 0 no_flags false base_dec buf
printed_of buf (text_at p xs) = xs
printed_of buf (character c) = c % 2 ^ 8 ∷ []
printed_of buf (pointer p) = vprintf_ptr p buf

abbrev pub all_printed : Bytes → List Piece → List ℕ
all_printed buf [] = []
all_printed buf (piece ∷ pieces) = printed_of buf piece ++ all_printed buf pieces

pub IsText-append :
    (xs ys : List ℕ) (mem : Bytes) (p : ℕ) → IsText mem p (xs ++ ys) → IsText mem (p + length xs) ys
IsText-append [] ys mem p text = let place : p ≡ p + 0 = omega arith in rw place at text
IsText-append (x ∷ xs) ys mem p text =
    let place : p + 1 + length xs ≡ p + suc (length xs) = omega arith in
    rw place at (IsText-append xs ys mem (p + 1) text.3)

vprintf_puts-text :
    (fuel : ℕ) (mem : Bytes) (p : ℕ) (xs : List ℕ)
    → IsText mem p xs
    → length xs < fuel
    → vprintf_puts fuel mem p ≡ xs
unfolding vprintf_puts
vprintf_puts-text zero mem p xs text enough = absurd (omega (arith, enough))
vprintf_puts-text (suc fuel) mem p [] text enough = rw text refl
vprintf_puts-text (suc fuel) mem p (x ∷ xs) text enough =
    let rest = vprintf_puts-text fuel mem (p + 1) xs text.3 (omega arith) in
    let more : (mem p == 0) ≡ false = ap (λ y. y == 0) text.0 ∙ ==-ne x 0 text.1 in
    rw (more, text.0) (ap (λ ys. x ∷ ys) rest)

no_pads :
    (len : ℕ) → len < 256 → ((if ltb 0 len then len % 2 ^ 8 else 0) + 2 ^ 64 - len) % 2 ^ 64 ≡ 0
no_pads len short = ground arith

-- A text without a width.
pub vprintf_str-text :
    (fuel : ℕ) (mem : Bytes) (p : ℕ) (xs : List ℕ)
    → IsText mem p xs
    → length xs < 256
    → length xs < fuel
    → vprintf_str fuel mem p 0 false ≡ xs
unfolding vprintf_str
vprintf_str-text fuel mem p xs text short enough =
    rw (strlen-length fuel mem p xs text enough, no_pads (length xs) short)
      (vprintf_puts-text fuel mem p xs text enough)

pub written-positive : (piece : Piece) → 0 < length (written piece)
written-positive (plain c) = omega arith
written-positive percent = omega arith
written-positive (decimal n) = omega arith
written-positive (hexadecimal n) = omega arith
written-positive (integer n) = omega arith
written-positive (text_at p xs) = omega arith
written-positive (character c) = omega arith
written-positive (pointer p) = omega arith
