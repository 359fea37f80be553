-- ===== src/Tests/Boot.antt =====
-- A memory map of two regions, and the arena.
use pristine.Arena.{arena_alloc, Given, arena_alloc-Given}
use pristine.Memmap.Pages.{page_bit, memmap_bitmap_init-bit}
use pristine.Memmap.{MemmapEntry, memmap_bitmap_init}
use pristine.Address.{align_up}
use pristine.Bitmap.Bits.{bit}
use pristine.Common.{◌^◌, ◌≡◌, refl, List, [], ◌∷◌, arith}

abbrev usable_region : MemmapEntry
usable_region = record {
  base_addr_low = 0x1000;
  base_addr_high = 0;
  length_low = 0x8000;
  length_high = 0;
  kind = 1;
}

abbrev reserved_region : MemmapEntry
reserved_region = record {
  base_addr_low = 0x4000;
  base_addr_high = 0;
  length_low = 0x1000;
  length_high = 0;
  kind = 2;
}

abbrev map_of_two : List MemmapEntry
map_of_two = usable_region ∷ reserved_region ∷ []

memmap_bitmap_init-bit_example :
    bit (memmap_bitmap_init map_of_two (λ _. 255)).0 4 ≡ page_bit map_of_two 4 (bit (λ _. 255) 4)
memmap_bitmap_init-bit_example = memmap_bitmap_init-bit map_of_two (λ _. 255) 4 (omega arith)

-- The reserved page inside of the usable region stays marked.
pages_test :
    (page_bit map_of_two 4 1 ≡ 1) × (page_bit map_of_two 5 1 ≡ 0) × (page_bit map_of_two 20 1 ≡ 1)
unfolding align_up
pages_test = (refl, refl, refl)

arena_alloc-Given_example : Given 0x9000 100 64 (2 ^ 4) (arena_alloc 0x9000 100 64 (2 ^ 4))
arena_alloc-Given_example =
    arena_alloc-Given 0x9000 100 64 4 (omega arith) (omega arith) (omega arith)
