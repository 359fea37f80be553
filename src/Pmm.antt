-- ===== src/Pmm.antt =====
-- kernel/kernel/pmm.c: the physical page allocator over a bitmap. `debug` is PRISTINE_DEBUG.
pub mod Frames
pub mod Count
use pristine.Common.{
  ℕ, zero, suc, ◌+◌, ◌-◌, ◌*◌, ◌/◌, ◌%◌, ◌^◌, bit_and, Bool, ◌==◌, ◌!=◌, if◌then◌else◌,
}
use pristine.Bitmap.{Bitmap, uint32_max, bitmap_set, bitmap_clear, bitmap_test, bitmap_find}
use pristine.Machine.{Machine, ok, Cmd, pure, ◌>>◌, panic_if, debug_panic_if}

abbrev pub page_size : ℕ
page_size = 4096

unfoldable pub pmm_init : Bitmap → ℕ → Cmd (Unit {0})
pmm_init bitmap size m = ok tt (record m { pmm_bitmap = bitmap; pmm_bitmap_size = size })

unfoldable pub pmm_set_bitmap_size : ℕ → Cmd (Unit {0})
pmm_set_bitmap_size size m = ok tt (record m { pmm_bitmap_size = size })

-- `__pmm_bitmap_size * 8`, a `uint32_t`
abbrev pub bit_count : Machine → ℕ
bit_count m = m.pmm_bitmap_size * 8 % 2 ^ 32

abbrev set_bitmap : Bitmap → Cmd (Unit {0})
set_bitmap b m = ok tt (record m { pmm_bitmap = b })

unfoldable pub pmm_alloc : Bool → Cmd ℕ
pmm_alloc debug m =
    (let idx = bitmap_find m.pmm_bitmap (bit_count m) in
        do
          panic_if (idx == uint32_max)
          debug_panic_if debug (bitmap_test m.pmm_bitmap idx != 0)
          set_bitmap (bitmap_set m.pmm_bitmap idx)
          pure (idx * page_size))
      m

unfoldable pub pmm_free : Bool → ℕ → Cmd (Unit {0})
pmm_free debug page m =
    (let idx = page / page_size % 2 ^ 32 in
        do
          debug_panic_if debug (bit_and page (page_size - 1) != 0)
          debug_panic_if debug (bitmap_test m.pmm_bitmap idx == 0)
          set_bitmap (bitmap_clear m.pmm_bitmap idx))
      m

-- The loop from bit `i` on, with `left` rounds to go.
unfoldable pub count_free : ℕ → Bitmap → ℕ → ℕ → ℕ
count_free zero b i count = count
count_free (suc left) b i count =
    count_free left b (i + 1) (if bitmap_test b i == 0 then count + 1 else count)

unfoldable pub pmm_get_free_page_count : Cmd ℕ
pmm_get_free_page_count m = ok (count_free (bit_count m) m.pmm_bitmap 0 0) m
