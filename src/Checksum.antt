-- ===== src/Checksum.antt =====
-- kernel/common/crc32.c and include/common/crc32.h, with the copies of the file system tools: the
-- checksum of a sequence of bytes. A `uint32_t` is a number below 2^32.
pub mod Laws
use pristine.Common.{ℕ, zero, suc, ◌-◌, ◌/◌, ◌%◌, ◌^◌, bit_and, bit_xor, List, [], ◌∷◌}

abbrev pub crc32_start : ℕ
crc32_start = 0xFFFF_FFFF

-- The inner loop with `left` rounds to go; `-(crc & 1)` is 0 or all ones.
unfoldable pub crc32_bits : ℕ → ℕ → ℕ → ℕ
crc32_bits polynomial zero crc = crc
crc32_bits polynomial (suc left) crc =
    crc32_bits polynomial left
      (bit_xor (crc / 2) (bit_and polynomial ((2 ^ 32 - bit_and crc 1) % 2 ^ 32)))

unfoldable pub crc32_loop : ℕ → ℕ → List ℕ → ℕ
crc32_loop polynomial crc [] = crc
crc32_loop polynomial crc (byte ∷ input) =
    crc32_loop polynomial (crc32_bits polynomial 8 (bit_xor crc byte)) input

unfoldable pub crc32_update : ℕ → List ℕ → ℕ
crc32_update crc input = crc32_loop 0xEDB8_8320 crc input

unfoldable pub crc32_finalize : ℕ → ℕ
crc32_finalize crc = 2 ^ 32 - 1 - crc

unfoldable pub crc32 : List ℕ → ℕ
crc32 input = 2 ^ 32 - 1 - crc32_loop 0xEDB8_8320 crc32_start input
