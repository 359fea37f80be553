-- ===== src/Tests/Break.antt =====
-- A process whose break moves up by two pages.
use pristine.Pages.Fresh.{page_after, Extended, map_fresh-Extended}
use pristine.Machine.{Returns}
use pristine.Sbrk.{required_pages, syscall_sbrk, Grown, syscall_sbrk-Grown}
use pristine.Pmm.Count.{free_pages}
use pristine.Bitmap.{bitmap_set, bitmap_test}
use pristine.Process.{running, Process}
use pristine.Vmm.{flags_user_data}
use pristine.Vmm.Map.{path_of, translate, path_small}
use pristine.Vmm.Unmap.{one_table, cleared_slot}
use pristine.Pmm.{page_size, count_free}
use pristine.Vmm.Tables.{frame_addr, unmapped, lookup-zeroed}
use pristine.Pages.{map_fresh}
use pristine.Address.{align_up}
use pristine.Common.{ℕ, ◌+◌, ◌*◌, ◌≤◌, ◌≡◌, refl, true, arith}
use pristine.Tests.Memory.{one_used, rooted, rooted-IsTree}
use pristine.Tests.Scheduling.{process_in}

abbrev grower : Process
grower = record (process_in running) { pml4 = frame_addr 0; brk_start = 0x40_0000; brk = 0x40_0010 }

rooted-eight : 4 * 2 ≤ free_pages rooted
unfolding count_free bitmap_test bitmap_set
rooted-eight = omega arith

nothing_mapped : (v : ℕ) → translate rooted 0 v ≡ unmapped
nothing_mapped v =
    lookup-zeroed _ 0 (path_of v) (λ i lt. cleared_slot one_used 0 i lt) (path_small v)

two_pages : 2 ≡ required_pages 0x40_0010 (0x40_0010 + 0x2800)
unfolding align_up
two_pages = refl

map_fresh-Extended_example :
    Returns
      (λ _ m'. Extended rooted 0 (one_table 0) 0x40_1000 2 flags_user_data m')
      (map_fresh true (frame_addr 0) 2 0x40_1000 flags_user_data rooted)
map_fresh-Extended_example =
    map_fresh-Extended true 2 0x40_1000 flags_user_data rooted-IsTree refl (omega arith) refl
      (λ i lt. nothing_mapped (page_after 0x40_1000 i)) rooted-eight

syscall_sbrk-Grown_example :
    Returns
      (λ answer m'. Grown rooted 0 (one_table 0) grower 0x2800 answer m')
      (syscall_sbrk true grower 0x2800 rooted)
syscall_sbrk-Grown_example =
    syscall_sbrk-Grown true grower 0x2800 2 rooted-IsTree refl (omega arith) two_pages
      (λ i lt. nothing_mapped (page_after (align_up 0x40_0010 page_size) i)) rooted-eight
