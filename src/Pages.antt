-- ===== src/Pages.antt =====
-- The loops of kernel/kernel/process.c and kernel/kernel/syscall.c that map fresh frames at
-- consecutive pages, and those that free consecutive pages.
pub mod Fresh
use pristine.Vmm.Release.{vmm_free}
use pristine.Pmm.{page_size, pmm_alloc}
use pristine.Vmm.{vmm_map}
use pristine.Common.{ℕ, zero, suc, ◌+◌, ◌%◌, ◌^◌, Bool}
use pristine.Machine.{Cmd, pure, ◌>>=◌, ◌>>◌}

-- `phys = pmm_alloc(); vmm_map(pml4, phys, s, flags)` for `n` pages from `s` on
unfoldable pub map_fresh : Bool → ℕ → ℕ → ℕ → ℕ → Cmd (Unit {0})
map_fresh debug pml4 zero s flags = pure tt
map_fresh debug pml4 (suc n) s flags = do
  phys ← pmm_alloc debug
  vmm_map debug pml4 phys s flags
  map_fresh debug pml4 n ((s + page_size) % 2 ^ 64) flags

-- `vmm_free(pml4, s)` for `n` pages from `s` on
unfoldable pub free_mapped : Bool → ℕ → ℕ → ℕ → Cmd (Unit {0})
free_mapped debug pml4 zero s = pure tt
free_mapped debug pml4 (suc n) s = do
  vmm_free debug pml4 s
  free_mapped debug pml4 n ((s + page_size) % 2 ^ 64)
