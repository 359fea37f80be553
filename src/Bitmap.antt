-- ===== src/Bitmap.antt =====
-- kernel/bitmap.c: bits in an array of bytes, and the search for a clear bit by 64-bit words.
-- The array is a function from a byte's index to the byte. `uint32_t` products wrap.
pub mod Bits
pub mod Words
pub mod Find
use pristine.Common.{
  ℕ, zero, suc, ◌+◌, ◌-◌, ◌*◌, ◌/◌, ◌%◌, ◌^◌, ◌<◌, bit_and, bit_or, ltb, ◌==◌, ◌!=◌, if◌then◌else◌,
  update,
}

abbrev pub Bitmap : Type 0
Bitmap = ℕ → ℕ

abbrev pub IsBytes : Bitmap → Type 0
IsBytes b = (i : ℕ) → b i < 256

abbrev pub uint32_max : ℕ
uint32_max = 2 ^ 32 - 1

abbrev pub uint64_max : ℕ
uint64_max = 2 ^ 64 - 1

-- `memset(bitmap, 0, size)`
unfoldable pub bitmap_clear_all : Bitmap → ℕ → Bitmap
bitmap_clear_all b size i = if ltb i size then 0 else b i

unfoldable pub bitmap_set : Bitmap → ℕ → Bitmap
bitmap_set b index =
    let slot = index / 8 in update b slot (bit_or (b slot) (2 ^ (index % 8)) % 2 ^ 8)

-- `~` is taken on an `int`, and the store keeps the low byte.
unfoldable pub bitmap_clear : Bitmap → ℕ → Bitmap
bitmap_clear b index =
    let slot = index / 8 in update b slot (bit_and (b slot) (2 ^ 32 - 1 - 2 ^ (index % 8)) % 2 ^ 8)

unfoldable pub bitmap_test : Bitmap → ℕ → ℕ
bitmap_test b index = let slot = index / 8 in bit_and (b slot) (2 ^ (index % 8))

-- `n` bytes from index `i` on, read as a little-endian number.
unfoldable pub read_le : ℕ → Bitmap → ℕ → ℕ
read_le zero b i = 0
read_le (suc n) b i = b i + 2 ^ 8 * read_le n b (i + 1)

-- `ptr[i]` for `const uint64_t *ptr`
unfoldable pub word_at : Bitmap → ℕ → ℕ
word_at b i = read_le 8 b (8 * i)

-- The trailing zeros of a number of at most `n` binary places.
unfoldable pub trailing_zeros : ℕ → ℕ → ℕ
trailing_zeros zero x = 0
trailing_zeros (suc n) x = let rest = trailing_zeros n (x / 2) + 1 in if x % 2 == 1 then 0 else rest

-- `__builtin_ctzll(~word)`
unfoldable pub ctz_not : ℕ → ℕ
ctz_not word = trailing_zeros 64 (uint64_max - word)

-- The part after the loop: `remaining` bits of the word at `word_count`.
unfoldable pub find_remaining : Bitmap → ℕ → ℕ → ℕ
find_remaining b word_count remaining =
    let mask = 2 ^ remaining - 1 in
    let word = bit_or (word_at b word_count) (uint64_max - mask) in
    if remaining != 0
    then (if word != uint64_max then (word_count * 64 + ctz_not word) % 2 ^ 32 else uint32_max)
    else uint32_max

-- The loop at word `i`, with `left` words to go.
unfoldable pub find_words : ℕ → Bitmap → ℕ → ℕ → ℕ
find_words zero b i remaining = find_remaining b i remaining
find_words (suc left) b i remaining =
    let word = word_at b i in
    let rest = find_words left b (i + 1) remaining in
    if word != uint64_max then (i * 64 + ctz_not word) % 2 ^ 32 else rest

unfoldable pub bitmap_find : Bitmap → ℕ → ℕ
bitmap_find b bit_count = find_words (bit_count / 64) b 0 (bit_count % 64)
