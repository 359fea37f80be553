-- ===== src/Arena.antt =====
-- kernel/common/arena.c: a buffer that is handed out from the front. Only the offset is kept; the
-- address of the buffer is an argument.
use pristine.Common.Digits.{two_pow-lt}
use native.Mathlib.Nat.{one-le-pow, mod-lt, div-add-mod', mul-mod_left}
use pristine.Common.Align.{bit_and_align}
use pristine.Common.{
  ℕ, ◌+◌, ◌-◌, ◌*◌, ◌/◌, ◌%◌, ◌^◌, ◌≤◌, ◌<◌, bit_and, ◌≡◌, refl, inl, inr, true, false, arith, ltb,
  if◌then◌else◌, Bool-cases,
}

abbrev pub arena_size : ℕ
arena_size = 16 * 1024

unfoldable pub arena_align_up : ℕ → ℕ → ℕ
arena_align_up val align = bit_and ((val + align - 1) % 2 ^ 64) (2 ^ 64 - 1 - (align - 1))

-- The new offset and the address, which is 0 where the buffer has no room; `_arena_offset` is a
-- `uint32_t`.
unfoldable pub arena_alloc : ℕ → ℕ → ℕ → ℕ → ℕ × ℕ
arena_alloc buf offset size align =
    let aligned = arena_align_up offset align in
    if ltb arena_size ((aligned + size) % 2 ^ 64)
    then (offset, 0)
    else ((aligned + size) % 2 ^ 32, buf + aligned)

unfoldable pub arena_reset : ℕ
arena_reset = 0

-- What `arena_alloc` gives. `start` is the first multiple of the alignment from the old offset on, as
-- an offset in the buffer.
pub data Given (buf offset size align : ℕ) (answer : ℕ × ℕ) : Type 0 where
  given :
      (start : ℕ)
      → answer.1 ≡ buf + start
      → start % align ≡ 0
      → offset ≤ start
      → start < offset + align
      → start + size ≤ arena_size
      → answer.0 ≡ start + size
      → Given buf offset size align answer
  no_room :
      (start : ℕ)
      → answer ≡ (offset, 0)
      → start % align ≡ 0
      → offset ≤ start
      → start < offset + align
      → arena_size < start + size
      → Given buf offset size align answer

arena_align_up-eq :
    (val k : ℕ)
    → k < 64
    → val + 2 ^ k ≤ 2 ^ 64
    → arena_align_up val (2 ^ k) ≡ (val + 2 ^ k - 1) / 2 ^ k * 2 ^ k
unfolding arena_align_up
arena_align_up-eq val k lt fits =
    let whole : (val + 2 ^ k - 1) % 2 ^ 64 ≡ val + 2 ^ k - 1 = omega (arith, one-le-pow k 2) in
    let mask : 2 ^ 64 - 1 - (2 ^ k - 1) ≡ 2 ^ 64 - 2 ^ k = omega (arith, one-le-pow k 2) in
    rw (whole, mask) (bit_and_align k (val + 2 ^ k - 1) lt (omega (arith, one-le-pow k 2)))

-- `arena_alloc` with an alignment that is a power of two below 2^32, and a size below 2^32, takes the
-- first multiple of the alignment from the old offset on. It gives the place of the buffer at that
-- offset where the size fits into the buffer from there, and the next offset is its end; where the
-- size does not fit it refuses and the offset stays. Only the offset in the buffer is aligned, the
-- address as far as the buffer is.
pub arena_alloc-Given :
    (buf offset size k : ℕ)
    → offset ≤ arena_size
    → k < 32
    → size < 2 ^ 32
    → Given buf offset size (2 ^ k) (arena_alloc buf offset size (2 ^ k))
unfolding arena_alloc
arena_alloc-Given buf offset size k inside lt small =
    elim (Bool-cases (ltb arena_size ((start + size) % 2 ^ 64))) [
      | inl full ↦
          rw (aligned, full)
            (no_room start refl (mul-mod_left ((offset + 2 ^ k - 1) / 2 ^ k) (2 ^ k))
              (omega (arith, bounds)) (omega (arith, bounds)) (passed full))
      | inr fits ↦
          rw (aligned, fits)
            (given start refl (mul-mod_left ((offset + 2 ^ k - 1) / 2 ^ k) (2 ^ k))
              (omega (arith, bounds)) (omega (arith, bounds))
              (omega (arith, limit, bounds, room fits)) (omega (arith, limit, bounds, room fits)))
    ]
  where
    start : ℕ
    start = (offset + 2 ^ k - 1) / 2 ^ k * 2 ^ k

    limit : 2 ^ k < 2 ^ 32
    limit = two_pow-lt k 32 lt

    aligned : arena_align_up offset (2 ^ k) ≡ start
    aligned = arena_align_up-eq offset k (omega arith) (omega (arith, limit))

    bounds : (offset ≤ start) × (start < offset + 2 ^ k)
    bounds = omega (
      arith,
      one-le-pow k 2,
      div-add-mod' (offset + 2 ^ k - 1) (2 ^ k),
      mod-lt (offset + 2 ^ k - 1) {m = 2 ^ k} (omega (arith, one-le-pow k 2)),
    )

    passed : ltb arena_size ((start + size) % 2 ^ 64) ≡ true → arena_size < start + size
    passed full = ground (arith, limit, bounds)

    room : ltb arena_size ((start + size) % 2 ^ 64) ≡ false → start + size ≤ arena_size
    room fits = ground (arith, limit, bounds)
