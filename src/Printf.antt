-- ===== src/Printf.antt =====
-- kernel/printf.c: the output of formats. What a function writes by `putchar_` is a list of bytes. A
-- number of 64 bits is in two's complement; the buffer of 32 bytes stands at address 1 of a memory of
-- its own.
pub mod Format
pub mod Digits
pub mod Directives
pub mod Loop
pub mod Number
pub mod Padding
pub mod Pieces
pub mod Reverse
use pristine.Strings.{Bytes, strlen, strrev}
use pristine.Common.{
  ℕ, zero, suc, ◌+◌, ◌-◌, ◌/◌, ◌%◌, ◌^◌, max, Bool, false, not, ◌&&◌, ◌||◌, List, [], ◌∷◌, ◌++◌,
  ltb, leb, ◌==◌, if◌then◌else◌, replicate, update,
}

abbrev pub format_stack : ℕ
format_stack = 32

pub data PrintBase : Type 0 where
  base_oct base_dec base_hex : PrintBase

abbrev pub base_of : PrintBase → ℕ
base_of base_oct = 8
base_of base_dec = 10
base_of base_hex = 16

unfoldable pub is_digit : ℕ → Bool
is_digit ch = ltb 47 ch && ltb ch 58

-- `h`, `l`, `L`, `z`, `t` and `j`
unfoldable pub is_length_modifier : ℕ → Bool
is_length_modifier ch =
    (ch == 104) || (ch == 108) || (ch == 76) || (ch == 122) || (ch == 116) || (ch == 106)

-- `diuoxXfFeEgGcspn%`
unfoldable pub is_format_specifier : ℕ → Bool
is_format_specifier ch =
    (ch == 100)
    || (ch == 105)
    || (ch == 117)
    || (ch == 111)
    || (ch == 120)
    || (ch == 88)
    || (ch == 102)
    || (ch == 70)
    || (ch == 101)
    || (ch == 69)
    || (ch == 103)
    || (ch == 71)
    || (ch == 99)
    || (ch == 115)
    || (ch == 112)
    || (ch == 110)
    || (ch == 37)

unfoldable pub vprintf_puts : ℕ → Bytes → ℕ → List ℕ
vprintf_puts zero mem str = []
vprintf_puts (suc fuel) mem str =
    let rest = vprintf_puts fuel mem (str + 1) in if mem str == 0 then [] else mem str ∷ rest

unfoldable pub nprintf_puts : Bytes → ℕ → ℕ → List ℕ
nprintf_puts mem str zero = []
nprintf_puts mem str (suc len) = mem str ∷ nprintf_puts mem (str + 1) len

-- The tables `radix8` and `radix10`, and `radix16` with its two cases.
unfoldable pub radix10 : ℕ → ℕ
radix10 d = 48 + d

unfoldable pub radix16 : ℕ → ℕ
radix16 d =
    if ltb d 10
    then 48 + d
    else if ltb d 16
    then 97 + (d - 10)
    else if ltb d 26
    then 48 + (d - 16)
    else 65 + (d - 26)

-- `num % 16 + uppercase * 16` for the base 16.
unfoldable pub digit_char : PrintBase → Bool → ℕ → ℕ
digit_char base_oct uppercase d = radix10 d
digit_char base_dec uppercase d = radix10 d
digit_char base_hex uppercase d = radix16 (d + (if uppercase then 16 else 0))

-- The loops that fill the buffer from its digit `buflen` on, with `left` places to go.
unfoldable pub put_digits : ℕ → PrintBase → Bool → ℕ → ℕ → Bytes → ℕ × Bytes
put_digits zero base uppercase num buflen buf = (buflen, buf)
put_digits (suc left) base uppercase num buflen buf =
    let char = digit_char base uppercase (num % base_of base) in
    let rest =
      put_digits left base uppercase (num / base_of base) (buflen + 1)
        (update buf (1 + buflen) char) in
    if ltb 0 num then rest else (buflen, buf)

-- The buffer with the digits of a number, first digit first, and their number.
unfoldable pub number_text : PrintBase → Bool → ℕ → Bytes → ℕ × Bytes
number_text base uppercase num buf =
    if num == 0
    then (1, update (update buf 1 48) 2 0)
    else let (buflen, digits) = put_digits (format_stack - 1) base uppercase num 0 buf in
      (buflen, strrev format_stack (update digits (1 + buflen) 0) 1)

-- `f_sign`, `f_leftalign`, `f_space`, `f_zeropad` and `f_alternate`
pub record Flags : Type 0 where
  pub leftalign : Bool
  pub sign : Bool
  pub space : Bool
  pub zeropad : Bool
  pub alternate : Bool

unfoldable pub pad_char : Flags → ℕ
pad_char flags = if flags.zeropad && not flags.leftalign then 48 else 32

unfoldable pub vprintf_unsigned : ℕ → ℕ → Flags → Bool → PrintBase → Bytes → List ℕ
vprintf_unsigned num width flags uppercase base buf =
    let (buflen, text) = number_text base uppercase num buf in
    let final_width = if ltb width buflen then buflen else width in
    let pads = replicate (final_width - buflen) (pad_char flags) in
    if not flags.leftalign
    then pads ++ nprintf_puts text 1 buflen
    else nprintf_puts text 1 buflen ++ pads

-- The digits of `vprintf_signed`, which knows the base 10 only; `num > 0` is of a signed number.
unfoldable pub signed_text : PrintBase → ℕ → Bytes → ℕ × Bytes
signed_text base_dec num buf =
    if leb (2 ^ 63) num
    then (0, strrev format_stack (update buf 1 0) 1)
    else number_text base_dec false num buf
signed_text base_oct num buf = if num == 0 then number_text base_dec false num buf else (0, buf)
signed_text base_hex num buf = if num == 0 then number_text base_dec false num buf else (0, buf)

-- `-` or `+` where there is one
unfoldable pub sign_text : Bool → Flags → List ℕ
sign_text negative flags = if negative || flags.sign then (if negative then 45 else 43) ∷ [] else []

unfoldable pub vprintf_signed : ℕ → ℕ → Flags → Bool → PrintBase → Bytes → List ℕ
vprintf_signed num width flags uppercase base buf =
    let negative = leb (2 ^ 63) num in
    let magnitude = if negative then (2 ^ 64 - num) % 2 ^ 64 else num in
    let (buflen, text) = signed_text base magnitude buf in
    let taken = buflen + (if negative then 1 else 0) in
    let final_width = if ltb width taken then taken else width in
    let pads = replicate (final_width - taken) (pad_char flags) in
    let sign = sign_text negative flags in
    if not flags.leftalign
    then if flags.zeropad
      then sign ++ pads ++ nprintf_puts text 1 buflen
      else pads ++ sign ++ nprintf_puts text 1 buflen
    else sign ++ nprintf_puts text 1 buflen ++ pads

-- The loops of `vprintf_ptr` that put zeros up to a length.
unfoldable pub put_zeros : ℕ → ℕ → Bytes → Bytes
put_zeros zero buflen buf = buf
put_zeros (suc left) buflen buf = put_zeros left (buflen + 1) (update buf (1 + buflen) 48)

unfoldable pub ptr_text : ℕ → Bytes → ℕ × Bytes
ptr_text num buf =
    if num == 0
    then (18, update (put_zeros 16 2 (update (update buf 1 48) 2 120)) 19 0)
    else let (buflen, digits) = put_digits (format_stack - 1) base_hex false num 0 buf in
      let filled = put_zeros (16 - buflen) buflen digits in
      let final_len = max buflen 16 + 2 in
      let marked = update (update filled (final_len - 1) 120) final_len 48 in
      (final_len, strrev format_stack (update marked (1 + final_len) 0) 1)

unfoldable pub vprintf_ptr : ℕ → Bytes → List ℕ
vprintf_ptr num buf = let (buflen, text) = ptr_text num buf in nprintf_puts text 1 buflen

-- `width - len` is a `size_t`, and `width` a `uint8_t`.
unfoldable pub vprintf_str : ℕ → Bytes → ℕ → ℕ → Bool → List ℕ
vprintf_str fuel mem str width leftalign =
    let len = strlen fuel mem str in
    let final_width = if ltb width len then len % 2 ^ 8 else width in
    let pads = replicate ((final_width + 2 ^ 64 - len) % 2 ^ 64) 32 in
    if not leftalign then pads ++ vprintf_puts fuel mem str else vprintf_puts fuel mem str ++ pads

unfoldable pub vprintf_char : ℕ → ℕ → Bool → List ℕ
vprintf_char ch width leftalign =
    let final_width = if ltb width 1 then 1 else width in
    let pads = replicate (final_width - 1) 32 in
    if not leftalign then pads ++ ch ∷ [] else ch ∷ pads
