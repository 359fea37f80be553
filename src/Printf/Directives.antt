-- ===== src/Printf/Directives.antt =====
-- kernel/printf.c: one directive of a format, without flags and width.
use pristine.Printf.{is_digit, is_length_modifier, is_format_specifier, Flags}
use pristine.Printf.Format.{
  read_flag, read_flags, read_width, width_value, read_length, print_specifier, no_flags,
  print_directive,
}
use pristine.Strings.{Bytes}
use pristine.Common.{
  ℕ, zero, suc, ◌+◌, ◌-◌, ◌≤◌, min, ◌≡◌, refl, ap, ◌∙◌, true, false, none, List, [], ◌∷◌, arith,
}

flags_end :
    (left : ℕ) (fmt : Bytes) (i : ℕ) (flags : Flags)
    → read_flag (fmt i) flags ≡ none
    → read_flags left fmt i flags ≡ (i, flags)
unfolding read_flags
flags_end zero fmt i flags h = refl
flags_end (suc left) fmt i flags h = rw (read_flags, h) refl

width_end :
    (left : ℕ) (fmt : Bytes) (i : ℕ) (wspec : List ℕ)
    → is_digit (fmt i) ≡ false
    → read_width left fmt i wspec ≡ (i, wspec)
unfolding read_width
width_end zero fmt i wspec h = refl
width_end (suc left) fmt i wspec h = rw (read_width, h) refl

length_end :
    (left : ℕ) (fmt : Bytes) (i : ℕ) (lspec : List ℕ)
    → is_length_modifier (fmt i) ≡ false
    → read_length left fmt i lspec ≡ (i, lspec)
unfolding read_length
length_end zero fmt i lspec h = refl
length_end (suc left) fmt i lspec h = rw (read_length, h) refl

-- What follows a directive's letter, as `vprintf_loop` uses it.
abbrev pub ending : ℕ → List ℕ × List ℕ → ℕ × List ℕ × List ℕ
ending i r = (i, r.0, r.1)

-- A directive of one letter, without flags, width or length.
pub short_directive :
    (fuel : ℕ) (mem buf fmt : Bytes) (len i letter : ℕ) (args : List ℕ)
    → fmt i ≡ letter
    → read_flag letter no_flags ≡ none
    → is_digit letter ≡ false
    → is_length_modifier letter ≡ false
    → is_format_specifier letter ≡ true
    → print_directive fuel mem buf fmt len i args
      ≡ ending i (print_specifier fuel mem buf letter no_flags 0 [] args)
unfolding print_directive width_value
short_directive fuel mem buf fmt len i letter args at flag digit modifier known =
    let f = flags_end (len - i) fmt i no_flags (ap (λ c. read_flag c no_flags) at ∙ flag) in
    let w = width_end (min 3 (len - i)) fmt i [] (ap is_digit at ∙ digit) in
    let l = length_end (min 2 (len - i)) fmt i [] (ap is_length_modifier at ∙ modifier) in
    rw (f, w, l, at, known) refl

-- The length `l` and one that is none after it.
read_l :
    (fmt : Bytes) (i letter : ℕ)
    → fmt i ≡ 108
    → fmt (i + 1) ≡ letter
    → is_length_modifier letter ≡ false
    → read_length 2 fmt i [] ≡ (i + 1, 108 ∷ [])
unfolding read_length is_length_modifier
read_l fmt i letter at at' modifier =
    let rest = length_end 1 fmt (i + 1) (108 ∷ []) (ap is_length_modifier at' ∙ modifier) in
    rw (at, rest) refl

-- A directive with the length `l`.
pub long_directive :
    (fuel : ℕ) (mem buf fmt : Bytes) (len i letter : ℕ) (args : List ℕ)
    → fmt i ≡ 108
    → fmt (i + 1) ≡ letter
    → i + 2 ≤ len
    → is_length_modifier letter ≡ false
    → is_format_specifier letter ≡ true
    → print_directive fuel mem buf fmt len i args
      ≡ ending (i + 1) (print_specifier fuel mem buf letter no_flags 0 (108 ∷ []) args)
unfolding print_directive width_value read_flag is_digit
long_directive fuel mem buf fmt len i letter args at at' room modifier known =
    let f = flags_end (len - i) fmt i no_flags (ap (λ c. read_flag c no_flags) at) in
    let w = width_end (min 3 (len - i)) fmt i [] (ap is_digit at) in
    let two : min 2 (len - i) ≡ 2 = omega arith in
    let l = ap (λ n. read_length n fmt i []) two ∙ read_l fmt i letter at at' modifier in
    rw (f, w, l, at', known) refl
