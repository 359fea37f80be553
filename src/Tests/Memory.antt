-- ===== src/Tests/Memory.antt =====
-- A machine of 64 frames: the bitmap, the page allocator and the page tables on it.
use pristine.Vmm.Tables.{frame_addr, unmapped, IsTree, lookup-zeroed}
use pristine.Bitmap.{
  Bitmap, bitmap_set, bitmap_clear, bitmap_test, read_le, word_at, trailing_zeros, ctz_not,
  find_remaining, find_words, bitmap_find,
}
use pristine.Vmm.Unmap.{
  Unmapped, vmm_unmap-Unmapped, one_table, cleared, cleared_slot, empty_root-IsTree, vmm_init_lem,
}
use pristine.Pmm.Frames.{
  IsPmm, FrameUsed, FrameFree, Allocated, AllocOutcome, pmm_alloc_lem, pmm_free_lem,
}
use pristine.Vmm.Map.{path_of, translate, path_small, Mapped, vmm_map-Mapped}
use pristine.Pmm.{pmm_alloc, pmm_free, count_free}
use pristine.Bitmap.Find.{Lowest, bitmap_find-Lowest}
use pristine.Pmm.Count.{free_pages, Borrowed, pmm_free-pmm_alloc, pmm_alloc_total}
use pristine.Address.{phys_to_virt, virt_to_phys, align_up, align_down}
use pristine.Address.Laws.{virt_to_phys-phys_to_virt, align_page}
use pristine.Machine.{Machine, ok, Returns, state_after, Returns-after}
use pristine.Vmm.{vmm_init, vmm_map, vmm_unmap}
use pristine.Bitmap.Bits.{bit, bitmap_set-IsBytes}
use pristine.Common.Digits.{digit}
use pristine.Common.{ℕ, ◌+◌, ◌%◌, ◌≤◌, ◌<◌, bit_or, ◌≡◌, refl, true, arith, ◌==◌, if◌then◌else◌}

abbrev blank : Machine
blank = record {
  pmm_bitmap = λ _. 0;
  pmm_bitmap_size = 8;
  mem = λ _. 0;
  cr3 = 0;
  kernel_pml4 = frame_addr 0;
  slab_top = 0;
  free_slabs = λ _. 0;
  full_slabs = λ _. 0;
}

blank-IsPmm : IsPmm blank
blank-IsPmm = record { bytes = λ i. omega arith; counted = omega arith }

blank-free_pages : 0 < free_pages blank
unfolding count_free bitmap_test
blank-free_pages = omega arith

-- Frame 0 is in use.
abbrev pub one_used : Machine
one_used = record blank { pmm_bitmap = bitmap_set (λ _. 0) 0 }

one_used-IsPmm : IsPmm one_used
one_used-IsPmm = record {
  bytes = bitmap_set-IsBytes (λ _. 0) 0 (λ i. omega arith);
  counted = omega arith;
}

one_used-frame : FrameUsed one_used 0
unfolding bitmap_set bit digit
one_used-frame = refl

abbrev nearly_full : Bitmap
nearly_full i = if i == 9 then 191 else 255

bitmap_find-Lowest_example : Lowest nearly_full 100 (bitmap_find nearly_full 100)
bitmap_find-Lowest_example = bitmap_find-Lowest nearly_full 100 (λ i. ground arith) (omega arith)

bitmap_find_test : bitmap_find nearly_full 100 ≡ 78
unfolding bitmap_find find_words word_at read_le find_remaining ctz_not trailing_zeros
bitmap_find_test = refl

pmm_alloc_lem_example : AllocOutcome one_used (pmm_alloc true one_used)
pmm_alloc_lem_example = pmm_alloc_lem true one_used one_used-IsPmm

pmm_free_lem_example :
    Returns
      (λ _ m'.
        (m' ≡ record one_used { pmm_bitmap = bitmap_clear one_used.pmm_bitmap 0 })
        × ((j : ℕ) → bit m'.pmm_bitmap j ≡ (if 0 == j then 0 else bit one_used.pmm_bitmap j)))
      (pmm_free true 0 one_used)
pmm_free_lem_example = pmm_free_lem true one_used 0 refl one_used-frame

first_alloc : pmm_alloc true blank ≡ ok 0 one_used
unfolding pmm_alloc bitmap_find find_words word_at read_le find_remaining ctz_not trailing_zeros
    bitmap_test bitmap_set
first_alloc = refl

pmm_free-pmm_alloc_example : Borrowed true blank 0 one_used
pmm_free-pmm_alloc_example = pmm_free-pmm_alloc true blank blank-IsPmm first_alloc

pmm_alloc_total_example :
    Returns
      (λ page m'. Allocated blank page m' × (free_pages blank ≡ free_pages m' + 1))
      (pmm_alloc true blank)
pmm_alloc_total_example = pmm_alloc_total true blank blank-IsPmm blank-free_pages

vmm_init_lem_example :
    Returns
      (λ pml4 m'.
        (g : ℕ) × (pml4 ≡ frame_addr g)
        × FrameFree blank g
        × IsTree m' g (one_table g)
        × ((virt : ℕ) → translate m' g virt ≡ unmapped))
      (vmm_init true blank)
vmm_init_lem_example = vmm_init_lem true blank blank-IsPmm blank-free_pages

-- The root table of this machine is in frame 0, and a page is mapped under it.
abbrev pub rooted : Machine
rooted = cleared one_used 0

pub rooted-IsTree : IsTree rooted 0 (one_table 0)
rooted-IsTree = empty_root-IsTree one_used-IsPmm one_used-frame (omega arith)

rooted-free_pages : 3 ≤ free_pages rooted
unfolding count_free bitmap_test bitmap_set
rooted-free_pages = omega arith

abbrev page : ℕ
page = 0x40_2000

rooted-unmapped : translate rooted 0 page ≡ unmapped
rooted-unmapped =
    lookup-zeroed _ 0 (path_of page) (λ i lt. cleared_slot one_used 0 i lt) (path_small page)

vmm_map-Mapped_example :
    Returns
      (λ _ n. Mapped rooted 0 (one_table 0) page (bit_or 0x5000 7) 7 n)
      (vmm_map true (frame_addr 0) 0x5000 page 7 rooted)
vmm_map-Mapped_example =
    vmm_map-Mapped true 0x5000 page 7 rooted-IsTree refl refl refl rooted-unmapped rooted-free_pages

abbrev mapped : Machine
mapped = state_after (vmm_map true (frame_addr 0) 0x5000 page 7 rooted) rooted

mapped-Mapped : Mapped rooted 0 (one_table 0) page (bit_or 0x5000 7) 7 mapped
mapped-Mapped =
    Returns-after _ (vmm_map true (frame_addr 0) 0x5000 page 7 rooted) rooted vmm_map-Mapped_example

vmm_unmap-Unmapped_example :
    Returns
      (λ _ m'. Unmapped mapped 0 (mapped-Mapped.own') page m')
      (vmm_unmap true (frame_addr 0) page mapped)
vmm_unmap-Unmapped_example =
    vmm_unmap-Unmapped true page (bit_or 0x5000 7) mapped-Mapped.tree refl mapped-Mapped.here

align_page_example :
    (align_up 5000 4096 % 4096 ≡ 0)
    × (5000 ≤ align_up 5000 4096)
    × (align_up 5000 4096 < 5000 + 4096)
    × (align_down 5000 4096 % 4096 ≡ 0)
    × (align_down 5000 4096 ≤ 5000)
    × (5000 < align_down 5000 4096 + 4096)
align_page_example = align_page 5000 (omega arith)

virt_to_phys-phys_to_virt_example : virt_to_phys (phys_to_virt 0x5000) ≡ 0x5000
virt_to_phys-phys_to_virt_example = virt_to_phys-phys_to_virt 0x5000 (omega arith)
