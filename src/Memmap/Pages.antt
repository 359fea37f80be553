-- ===== src/Memmap/Pages.antt =====
-- kernel/common/memmap.c: the bit of each page after the memory map is read.
use pristine.Common.Bits.{bit_or_fields}
use pristine.Memmap.{
  MemmapEntry, MemmapInitResult, entry_base, entry_size, region_base, region_end, mark_pages,
  region_rounds, mark_entry, update_result, memmap_loop, memmap_bitmap_init,
}
use pristine.Pmm.{page_size}
use pristine.Bitmap.{Bitmap, bitmap_set, bitmap_clear}
use pristine.Address.Laws.{align_up_page}
use pristine.Bitmap.Bits.{bit, bit-set, bit-clear}
use pristine.Common.{
  ℕ, zero, suc, ◌+◌, ◌*◌, ◌/◌, ◌%◌, ◌^◌, ◌≤◌, ◌<◌, bit_or, ◌≡◌, refl, ap, ◌∙◌, Bool, true, false,
  ◌&&◌, List, [], ◌∷◌, arith, ltb, leb, ◌==◌, if◌then◌else◌, All,
}

-- The addresses of a region, from the halves of the entry.
abbrev pub first_byte : MemmapEntry → ℕ
first_byte e = e.base_addr_high * 2 ^ 32 + e.base_addr_low

abbrev pub past_end : MemmapEntry → ℕ
past_end e = first_byte e + (e.length_high * 2 ^ 32 + e.length_low)

-- The pages whose first byte lies in the region: one that begins before the region is left out, and
-- one that reaches over its end is taken.
abbrev pub covers : MemmapEntry → ℕ → Bool
covers e j = leb (first_byte e) (j * page_size) && ltb (j * page_size) (past_end e)

-- The bit of page `j`: the last entry that covers the page decides, and a page that is in no entry
-- keeps the bit that it had.
abbrev pub page_bit : List MemmapEntry → ℕ → ℕ → ℕ
page_bit [] j old = old
page_bit (e ∷ entries) j old =
    page_bit entries j (if covers e j then (if e.kind == 1 then 0 else 1) else old)

abbrev pub marked : Bool → ℕ → ℕ → ℕ → ℕ → ℕ
marked usable first n j old =
    if leb first j && ltb j (first + n) then (if usable then 0 else 1) else old

mark_pages-bit :
    (usable : Bool) (left m : ℕ) (b : Bitmap) (j : ℕ)
    → m % page_size ≡ 0
    → m / page_size + left ≤ 2 ^ 32
    → bit (mark_pages usable left m b) j ≡ marked usable (m / page_size) left j (bit b j)
unfolding mark_pages
mark_pages-bit usable zero m b j aligned small = ground arith
mark_pages-bit true (suc n) m b j aligned small =
    mark_pages-bit true n (m + page_size) (bitmap_clear b (m / page_size % 2 ^ 32)) j (omega arith)
      (omega arith)
    ∙ ground (arith, bit-clear b (m / page_size % 2 ^ 32) j)
mark_pages-bit false (suc n) m b j aligned small =
    mark_pages-bit false n (m + page_size) (bitmap_set b (m / page_size % 2 ^ 32)) j (omega arith)
      (omega arith)
    ∙ ground (arith, bit-set b (m / page_size % 2 ^ 32) j)

-- The low halves are of 32 bits, and the regions end a page below 2^44, which is where the frames are
-- counted by 32 bits.
abbrev pub Fits : MemmapEntry → Type 0
Fits e = (e.base_addr_low < 2 ^ 32) × (e.length_low < 2 ^ 32) × (past_end e + page_size < 2 ^ 44)

entry-halves :
    (high low : ℕ)
    → low < 2 ^ 32
    → high < 2 ^ 32
    → bit_or (high * 2 ^ 32 % 2 ^ 64) low ≡ high * 2 ^ 32 + low
entry-halves high low small small' =
    let whole : high * 2 ^ 32 % 2 ^ 64 ≡ high * 2 ^ 32 = omega arith in
    rw whole (bit_or_fields 32 high low small)

mark_entry-bit :
    (e : MemmapEntry) (b : Bitmap) (j : ℕ)
    → Fits e
    → bit (mark_entry e b) j ≡ (if covers e j then (if e.kind == 1 then 0 else 1) else bit b j)
unfolding mark_entry
mark_entry-bit e b j fits =
    mark_pages-bit (e.kind == 1) (region_rounds e) (region_base e) b j (omega (arith, base))
      (omega (arith, base, top, from, size, fits))
    ∙ ground (arith, base, top, from, size, fits)
  where
    from : entry_base e ≡ first_byte e
    from = entry-halves e.base_addr_high e.base_addr_low fits.0 (omega (arith, fits))

    size : entry_size e ≡ e.length_high * 2 ^ 32 + e.length_low
    size = entry-halves e.length_high e.length_low fits.1 (omega (arith, fits))

    base : region_base e ≡ (entry_base e + 4095) % 2 ^ 64 / 4096 * 4096
    base = align_up_page (entry_base e)

    top : region_end e ≡ ((entry_base e + entry_size e) % 2 ^ 64 + 4095) % 2 ^ 64 / 4096 * 4096
    top = align_up_page ((entry_base e + entry_size e) % 2 ^ 64)

memmap_loop-bit :
    (entries : List MemmapEntry) (b : Bitmap) (r : MemmapInitResult) (j : ℕ)
    → All Fits entries
    → bit (memmap_loop entries b r).0 j ≡ page_bit entries j (bit b j)
unfolding memmap_loop
memmap_loop-bit [] b r j fits = refl
memmap_loop-bit (e ∷ entries) b r j fits =
    memmap_loop-bit entries (mark_entry e b) (update_result e r) j fits.1
    ∙ ap (page_bit entries j) (mark_entry-bit e b j fits.0)

-- `memmap_bitmap_init`, for entries whose low halves are of 32 bits and that end a page below 2^44,
-- leaves in the bit of each page what the last entry says in which the first byte of the page lies: 0
-- for usable memory and 1 for any other kind, also where the page reaches over the end of the entry;
-- the bit of a page whose first byte is in no entry is unchanged.
pub memmap_bitmap_init-bit :
    (entries : List MemmapEntry) (b : Bitmap) (j : ℕ)
    → All Fits entries
    → bit (memmap_bitmap_init entries b).0 j ≡ page_bit entries j (bit b j)
unfolding memmap_bitmap_init
memmap_bitmap_init-bit entries b j fits = memmap_loop-bit entries b _ j fits
