-- ===== src/Memmap.antt =====
-- kernel/common/memmap.c: the memory map of the firmware put into the frame bitmap. The prints are
-- left out.
pub mod Pages
use pristine.Pmm.{page_size}
use pristine.Bitmap.{Bitmap, bitmap_set, bitmap_clear}
use pristine.Address.{align_up}
use pristine.Common.{
  ℕ, zero, suc, ◌+◌, ◌-◌, ◌*◌, ◌/◌, ◌%◌, ◌^◌, bit_or, Bool, List, [], ◌∷◌, ltb, ◌==◌, if◌then◌else◌,
}

pub record MemmapEntry : Type 0 where
  pub base_addr_low : ℕ
  pub base_addr_high : ℕ
  pub length_low : ℕ
  pub length_high : ℕ
  pub kind : ℕ

pub record MemmapInitResult : Type 0 where
  pub memory_usable : ℕ
  pub memory_usable_top : ℕ
  pub memory_top : ℕ

abbrev pub entry_base : MemmapEntry → ℕ
entry_base e = bit_or (e.base_addr_high * 2 ^ 32 % 2 ^ 64) (e.base_addr_low)

abbrev pub entry_size : MemmapEntry → ℕ
entry_size e = bit_or (e.length_high * 2 ^ 32 % 2 ^ 64) (e.length_low)

abbrev pub region_base : MemmapEntry → ℕ
region_base e = align_up (entry_base e) page_size

abbrev pub region_end : MemmapEntry → ℕ
region_end e = align_up ((entry_base e + entry_size e) % 2 ^ 64) page_size

-- The two inner loops from address `m` on, with `left` rounds to go.
unfoldable pub mark_pages : Bool → ℕ → ℕ → Bitmap → Bitmap
mark_pages usable zero m b = b
mark_pages usable (suc left) m b = mark_pages usable left (m + page_size) (
    if usable
    then bitmap_clear b (m / page_size % 2 ^ 32)
    else bitmap_set b (m / page_size % 2 ^ 32))

-- `for (m = base; m < end; m += VMM_DEFAULT_PAGE_SIZE)`
abbrev pub region_rounds : MemmapEntry → ℕ
region_rounds e = (region_end e - region_base e + page_size - 1) / page_size

unfoldable pub mark_entry : MemmapEntry → Bitmap → Bitmap
mark_entry e b = mark_pages (e.kind == 1) (region_rounds e) (region_base e) b

unfoldable pub update_result : MemmapEntry → MemmapInitResult → MemmapInitResult
update_result e r = record {
  memory_usable =
      if e.kind == 1 then (r.memory_usable + entry_size e) % 2 ^ 32 else r.memory_usable;
  memory_usable_top =
      if e.kind == 1
      then (if ltb r.memory_usable_top (region_end e) then region_end e else r.memory_usable_top)
      else r.memory_usable_top;
  memory_top = if ltb r.memory_top (region_end e) then region_end e else r.memory_top;
}

unfoldable pub memmap_loop :
    List MemmapEntry → Bitmap → MemmapInitResult → Bitmap × MemmapInitResult
memmap_loop [] b r = (b, r)
memmap_loop (e ∷ entries) b r = memmap_loop entries (mark_entry e b) (update_result e r)

unfoldable pub memmap_bitmap_init : List MemmapEntry → Bitmap → Bitmap × MemmapInitResult
memmap_bitmap_init entries b =
    memmap_loop entries b (record { memory_usable = 0; memory_usable_top = 0; memory_top = 0 })
