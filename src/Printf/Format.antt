-- ===== src/Printf/Format.antt =====
-- kernel/printf.c: `vprintf_`, the loop over a format. An argument is a slot of 64 bits, and where
-- none is left a slot is 0. The strings that arguments point to are in memory; `fuel` is for their
-- lengths and that of the format. `buf` is what the buffer for digits has at first.
use pristine.Printf.{
  base_oct, base_dec, base_hex, is_digit, is_length_modifier, is_format_specifier, Flags,
  vprintf_unsigned, vprintf_signed, vprintf_ptr, vprintf_str, vprintf_char,
}
use pristine.Strings.{Bytes, strlen}
use pristine.Common.{
  ℕ, zero, suc, ◌+◌, ◌-◌, ◌*◌, ◌%◌, ◌^◌, min, true, false, ◌&&◌, ◌||◌, Option, none, some, List, [],
  ◌∷◌, ◌++◌, ltb, leb, ◌==◌, if◌then◌else◌, length, get_or,
}

unfoldable pub va_arg : List ℕ → ℕ × List ℕ
va_arg [] = (0, [])
va_arg (x ∷ rest) = (x, rest)

-- A signed number of `bits` bits as one of 64.
unfoldable pub sign_extend : ℕ → ℕ → ℕ
sign_extend bits x =
    let low = x % 2 ^ bits in if leb (2 ^ (bits - 1)) low then low + 2 ^ 64 - 2 ^ bits else low

-- The length modifiers, of which there are two at most; `llen` is their number.
unfoldable pub printf_resolve_signed : ℕ → ℕ → ℕ → ℕ → ℕ
printf_resolve_signed l0 l1 llen slot =
    if llen == 0
    then sign_extend 32 slot
    else if llen == 1
    then if l0 == 104
      then sign_extend 16 slot
      else if (l0 == 108) || (l0 == 116) || (l0 == 122) || (l0 == 106)
      then slot
      else sign_extend 32 slot
    else if (l0 == 104) && (l1 == 104)
    then sign_extend 8 slot
    else if (l0 == 108) && (l1 == 108)
    then slot
    else sign_extend 32 slot

unfoldable pub printf_resolve_unsigned : ℕ → ℕ → ℕ → ℕ → ℕ
printf_resolve_unsigned l0 l1 llen slot =
    if llen == 0
    then slot % 2 ^ 32
    else if llen == 1
    then if l0 == 104
      then slot % 2 ^ 16
      else if (l0 == 108) || (l0 == 122) || (l0 == 106)
      then slot
      else slot % 2 ^ 32
    else if (l0 == 104) && (l1 == 104)
    then slot % 2 ^ 8
    else if (l0 == 108) && (l1 == 108)
    then slot
    else slot % 2 ^ 32

-- The flag that a character stands for, with the other flags.
unfoldable pub read_flag : ℕ → Flags → Option Flags
read_flag ch flags =
    if ch == 43
    then some (record flags { sign = true })
    else if ch == 45
    then some (record flags { leftalign = true })
    else if ch == 32
    then some (record flags { space = true })
    else if ch == 48
    then some (record flags { zeropad = true })
    else if ch == 35
    then some (record flags { alternate = true })
    else none

-- The loop over the flags at `fmt[i]`, with `left` bytes to go: where it stops, and the flags.
unfoldable pub read_flags : ℕ → Bytes → ℕ → Flags → ℕ × Flags
read_flags zero fmt i flags = (i, flags)
read_flags (suc left) fmt i flags = elim (read_flag (fmt i) flags) [
  | none ↦ (i, flags)
  | some more ↦ read_flags left fmt (i + 1) more
]

-- The loop over the digits of the width, of which there are three at most.
unfoldable pub read_width : ℕ → Bytes → ℕ → List ℕ → ℕ × List ℕ
read_width zero fmt i wspec = (i, wspec)
read_width (suc left) fmt i wspec =
    let rest = read_width left fmt (i + 1) (wspec ++ fmt i ∷ []) in
    if is_digit (fmt i) then rest else (i, wspec)

-- The inner loop of the width: `mul` after `rounds` products by 10, a `uint8_t`.
unfoldable pub width_mul : ℕ → ℕ
width_mul zero = 1
width_mul (suc rounds) = width_mul rounds * 10 % 2 ^ 8

unfoldable pub width_value : List ℕ → ℕ → ℕ
width_value [] width = width
width_value (x ∷ wspec) width =
    width_value wspec ((width + (x - 48) * width_mul (length wspec)) % 2 ^ 8)

-- The loop over the length modifiers.
unfoldable pub read_length : ℕ → Bytes → ℕ → List ℕ → ℕ × List ℕ
read_length zero fmt i lspec = (i, lspec)
read_length (suc left) fmt i lspec =
    let rest = read_length left fmt (i + 1) (lspec ++ fmt i ∷ []) in
    if is_length_modifier (fmt i) then rest else (i, lspec)

-- What a specifier prints, and the arguments after it.
unfoldable pub print_specifier :
    ℕ → Bytes → Bytes → ℕ → Flags → ℕ → List ℕ → List ℕ → List ℕ × List ℕ
print_specifier fuel mem buf specifier flags width lspec args =
    let (slot, rest) = va_arg args in
    let l0 = get_or lspec 0 0 in
    let l1 = get_or lspec 1 0 in
    let signed = printf_resolve_signed l0 l1 (length lspec) slot in
    let unsigned = printf_resolve_unsigned l0 l1 (length lspec) slot in
    if specifier == 37
    then (37 ∷ [], args)
    else if specifier == 115
    then (vprintf_str fuel mem slot width flags.leftalign, rest)
    else if specifier == 99
    then (vprintf_char (slot % 2 ^ 8) width flags.leftalign, rest)
    else if specifier == 112
    then (vprintf_ptr slot buf, rest)
    else if (specifier == 100) || (specifier == 105)
    then (vprintf_signed signed width flags false base_dec buf, rest)
    else if specifier == 117
    then (vprintf_unsigned unsigned width flags false base_dec buf, rest)
    else if (specifier == 120) || (specifier == 88)
    then (vprintf_unsigned unsigned width flags (specifier == 88) base_hex buf, rest)
    else if specifier == 111
    then (vprintf_unsigned unsigned width flags false base_oct buf, rest)
    else ([], args)

abbrev pub no_flags : Flags
no_flags = record {
  leftalign = false;
  sign = false;
  space = false;
  zeropad = false;
  alternate = false;
}

-- One directive, its `%` read: where it ends, what it prints and the arguments after it.
unfoldable pub print_directive : ℕ → Bytes → Bytes → Bytes → ℕ → ℕ → List ℕ → ℕ × List ℕ × List ℕ
print_directive fuel mem buf fmt len i args =
    let (i1, flags) = read_flags (len - i) fmt i no_flags in
    let (i2, wspec) = read_width (min 3 (len - i1)) fmt i1 [] in
    let (i3, lspec) = read_length (min 2 (len - i2)) fmt i2 [] in
    let specifier = if is_format_specifier (fmt i3) then fmt i3 else 0 in
    let (out, rest) =
      print_specifier fuel mem buf specifier flags (width_value wspec 0) lspec args in
    (i3, out, rest)

-- The loop at `fmt[i]`; a round goes at least one byte on.
unfoldable pub vprintf_loop : ℕ → ℕ → Bytes → Bytes → Bytes → ℕ → ℕ → List ℕ → List ℕ
vprintf_loop zero fuel mem buf fmt len i args = []
vprintf_loop (suc rounds) fuel mem buf fmt len i args =
    if ltb i len
    then elim (fmt i == 37) [
      | true ↦
          let (end, out, rest) = print_directive fuel mem buf fmt len (i + 1) args in
          out ++ vprintf_loop rounds fuel mem buf fmt len (end + 1) rest
      | false ↦ fmt i ∷ vprintf_loop rounds fuel mem buf fmt len (i + 1) args
    ]
    else []

unfoldable pub vprintf : ℕ → Bytes → Bytes → Bytes → List ℕ → List ℕ
vprintf fuel mem buf fmt args =
    let len = strlen fuel fmt 0 in vprintf_loop len fuel mem buf fmt len 0 args
