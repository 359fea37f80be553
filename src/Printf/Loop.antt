-- ===== src/Printf/Loop.antt =====
-- kernel/printf.c: what `vprintf_` prints of a format made of pieces.
use pristine.Printf.{is_digit, is_length_modifier, is_format_specifier, vprintf_char}
use pristine.Strings.{Bytes}
use pristine.Printf.Format.{
  va_arg, printf_resolve_signed, printf_resolve_unsigned, read_flag, print_specifier, no_flags,
  print_directive, vprintf_loop, vprintf,
}
use pristine.Strings.Text.{IsText, strlen-length}
use pristine.Printf.Pieces.{
  Piece, plain, percent, decimal, hexadecimal, integer, character, pointer, text_at, IsPrintable,
  AllPrintable, written, format_of, arguments_of, printed_of, all_printed, IsText-append,
  vprintf_str-text, written-positive,
}
use pristine.Printf.Directives.{ending, short_directive, long_directive}
use pristine.Common.{
  ℕ, zero, suc, ◌+◌, ◌≤◌, ◌<◌, ◌≡◌, refl, ap, ◌∙◌, ◌≢◌, true, false, none, List, [], ◌∷◌, ◌++◌,
  arith, ltb, ◌==◌, lt→ltb, ==-ne, length, length-append,
}

module _ (rounds fuel : ℕ) (mem buf fmt : Bytes) (len i : ℕ) where
  plain_step :
      (c : ℕ) (args : List ℕ)
      → fmt i ≡ c
      → c ≢ 37
      → i < len
      → vprintf_loop (suc rounds) fuel mem buf fmt len i args
        ≡ c ∷ vprintf_loop rounds fuel mem buf fmt len (i + 1) args
  unfolding vprintf_loop
  plain_step c args at other lt =
      let not_percent : (fmt i == 37) ≡ false = ap (λ x. x == 37) at ∙ ==-ne c 37 other in
      rw (lt→ltb i len lt, not_percent)
        (ap (λ x. x ∷ vprintf_loop rounds fuel mem buf fmt len (i + 1) args) at)

  directive_step :
      (args : List ℕ) (end : ℕ) (r : List ℕ × List ℕ)
      → fmt i ≡ 37
      → i < len
      → print_directive fuel mem buf fmt len (i + 1) args ≡ ending end r
      → vprintf_loop (suc rounds) fuel mem buf fmt len i args
        ≡ r.0 ++ vprintf_loop rounds fuel mem buf fmt len (end + 1) r.1
  unfolding vprintf_loop
  directive_step args end r at lt same = rw (lt→ltb i len lt, at, same) refl

  short_step :
      (letter : ℕ) (args : List ℕ) (r : List ℕ × List ℕ)
      → fmt i ≡ 37
      → fmt (i + 1) ≡ letter
      → i < len
      → read_flag letter no_flags ≡ none
      → is_digit letter ≡ false
      → is_length_modifier letter ≡ false
      → is_format_specifier letter ≡ true
      → print_specifier fuel mem buf letter no_flags 0 [] args ≡ r
      → vprintf_loop (suc rounds) fuel mem buf fmt len i args
        ≡ r.0 ++ vprintf_loop rounds fuel mem buf fmt len (i + 2) r.1
  short_step letter args r at at' lt flag digit modifier known prints =
      let one =
        short_directive fuel mem buf fmt len (i + 1) letter args at' flag digit modifier known in
      let end : i + 1 + 1 ≡ i + 2 = omega arith in
      rw end at (directive_step args (i + 1) r at lt (one ∙ ap (ending (i + 1)) prints))

  long_step :
      (letter : ℕ) (args : List ℕ) (r : List ℕ × List ℕ)
      → fmt i ≡ 37
      → fmt (i + 1) ≡ 108
      → fmt (i + 1 + 1) ≡ letter
      → i + 3 ≤ len
      → is_length_modifier letter ≡ false
      → is_format_specifier letter ≡ true
      → print_specifier fuel mem buf letter no_flags 0 (108 ∷ []) args ≡ r
      → vprintf_loop (suc rounds) fuel mem buf fmt len i args
        ≡ r.0 ++ vprintf_loop rounds fuel mem buf fmt len (i + 3) r.1
  long_step letter args r at at' at'' room modifier known prints =
      let one =
        long_directive fuel mem buf fmt len (i + 1) letter args at' at'' (omega arith) modifier
          known in
      let end : i + 1 + 1 + 1 ≡ i + 3 = omega arith in
      rw end at
        (directive_step args (i + 1 + 1) r at (omega arith) (one ∙ ap (ending (i + 1 + 1)) prints))

  -- The loop prints a piece and goes on after it.
  piece_step :
      (piece : Piece) (pieces : List Piece) (rest : List ℕ)
      → IsPrintable fuel mem piece
      → IsText fmt i (written piece ++ rest)
      → i + length (written piece) ≤ len
      → vprintf_loop (suc rounds) fuel mem buf fmt len i (arguments_of (piece ∷ pieces))
        ≡ printed_of buf piece
          ++ vprintf_loop rounds fuel mem buf fmt len
              (i + length (written piece))
              (arguments_of pieces)
  unfolding print_specifier va_arg printf_resolve_signed printf_resolve_unsigned read_flag is_digit
      is_length_modifier is_format_specifier vprintf_char
  piece_step (plain c) pieces rest other text room =
      plain_step c (arguments_of pieces) text.0 other (omega arith)
  piece_step percent pieces rest _ text room =
      short_step 37 (arguments_of pieces) (37 ∷ [], arguments_of pieces) text.0 text.3.0
        (omega arith) refl refl refl refl refl
  piece_step (decimal n) pieces rest _ text room =
      long_step 117 (n ∷ arguments_of pieces) (printed_of buf (decimal n), arguments_of pieces)
        text.0 text.3.0 text.3.3.0 (omega arith) refl refl refl
  piece_step (hexadecimal n) pieces rest _ text room =
      long_step 120 (n ∷ arguments_of pieces) (printed_of buf (hexadecimal n), arguments_of pieces)
        text.0 text.3.0 text.3.3.0 (omega arith) refl refl refl
  piece_step (integer n) pieces rest _ text room =
      short_step 100 (n ∷ arguments_of pieces) (printed_of buf (integer n), arguments_of pieces)
        text.0 text.3.0 (omega arith) refl refl refl refl refl
  piece_step (text_at p xs) pieces rest ok text room =
      short_step 115 (p ∷ arguments_of pieces) (xs, arguments_of pieces) text.0 text.3.0
        (omega arith) refl refl refl refl
        (ap (λ out. (out, arguments_of pieces)) (vprintf_str-text fuel mem p xs ok.0 ok.1 ok.2))
  piece_step (character c) pieces rest _ text room =
      short_step 99 (c ∷ arguments_of pieces) (printed_of buf (character c), arguments_of pieces)
        text.0 text.3.0 (omega arith) refl refl refl refl refl
  piece_step (pointer p) pieces rest _ text room =
      short_step 112 (p ∷ arguments_of pieces) (printed_of buf (pointer p), arguments_of pieces)
        text.0 text.3.0 (omega arith) refl refl refl refl refl

loop-all_printed :
    (rounds fuel : ℕ) (mem buf fmt : Bytes) (len i : ℕ) (pieces : List Piece)
    → AllPrintable fuel mem pieces
    → IsText fmt i (format_of pieces)
    → i + length (format_of pieces) ≡ len
    → length (format_of pieces) ≤ rounds
    → vprintf_loop rounds fuel mem buf fmt len i (arguments_of pieces) ≡ all_printed buf pieces
unfolding vprintf_loop
loop-all_printed zero fuel mem buf fmt len i [] ok text all enough = refl
loop-all_printed (suc rounds) fuel mem buf fmt len i [] ok text all enough =
    let done : ltb i len ≡ false = ground arith in rw done refl
loop-all_printed zero fuel mem buf fmt len i (piece ∷ pieces) ok text all enough =
    let some_byte = written-positive piece in
    let both = length-append (written piece) (format_of pieces) in absurd (omega arith)
loop-all_printed (suc rounds) fuel mem buf fmt len i (piece ∷ pieces) ok text all enough =
    let some_byte = written-positive piece in
    let both = length-append (written piece) (format_of pieces) in
    let next = i + length (written piece) in
    let text' = IsText-append (written piece) (format_of pieces) fmt i text in
    piece_step rounds fuel mem buf fmt len i piece pieces (format_of pieces) ok.0 text (omega arith)
    ∙ ap (λ out. printed_of buf piece ++ out)
        (loop-all_printed rounds fuel mem buf fmt len next pieces ok.1 text' (omega arith)
          (omega arith))

-- `vprintf_` of a format that is the text of some pieces, with the pieces' arguments and fuel for more
-- rounds than the format has bytes, prints what the pieces stand for, one after the other: a character
-- other than `%` itself, `%%` a `%`, `%lu`, `%lx` and `%p` the whole 64 bits as `vprintf_unsigned` and
-- `vprintf_ptr` do, `%d` the lowest 32 bits with their sign as `vprintf_signed` does, `%c` the lowest
-- 8 bits, and `%s` the text in the memory, which is to be shorter than 256 bytes and than the fuel.
pub vprintf-all_printed :
    (fuel : ℕ) (mem buf fmt : Bytes) (pieces : List Piece)
    → AllPrintable fuel mem pieces
    → IsText fmt 0 (format_of pieces)
    → length (format_of pieces) < fuel
    → vprintf fuel mem buf fmt (arguments_of pieces) ≡ all_printed buf pieces
unfolding vprintf
vprintf-all_printed fuel mem buf fmt pieces ok text enough =
    let len = strlen-length fuel fmt 0 (format_of pieces) text enough in
    rw len (
      loop-all_printed (length (format_of pieces)) fuel mem buf fmt (length (format_of pieces)) 0
        pieces ok text (omega arith) (omega arith))
