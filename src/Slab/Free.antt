-- ===== src/Slab/Free.antt =====
-- kernel/kernel/slab.c: `bin_free`.
use pristine.Machine.{Cmd, pure, ◌>>=◌, ◌>>◌, debug_panic_if, load, store}
use pristine.Slab.{
  slab_virt_start, slab_virt_end, total_bins, max_objects, count_at, next_free_at, next_slab_at,
  prev_slab_at, phys_at, bin_at, load_low, store_low, get_free, get_full, set_free, set_full, link,
  slab_of,
}
use pristine.Vmm.{vmm_unmap}
use pristine.Pmm.{pmm_free}
use pristine.Common.{ℕ, ◌+◌, ◌-◌, ◌^◌, Bool, true, ◌||◌, ltb, leb, ◌==◌, if◌then◌else◌}

-- A slab leaves the list that it stands in: its neighbours are linked to each other.
unfoldable pub unlink : ℕ → Cmd (Unit {0})
unlink slab = do
  next ← load (next_slab_at slab)
  prev ← load (prev_slab_at slab)
  link next (prev_slab_at next) prev
  next ← load (next_slab_at slab)
  prev ← load (prev_slab_at slab)
  link prev (next_slab_at prev) next

-- A slab that was full moves to the front of the list of slabs with free objects.
unfoldable pub revive : ℕ → ℕ → Cmd (Unit {0})
revive bin slab = do
  full ← get_full bin
  next ← load (next_slab_at slab)
  if full == slab then set_full bin next else pure tt
  unlink slab
  free ← get_free bin
  link free (prev_slab_at free) slab
  store (next_slab_at slab) free
  store (prev_slab_at slab) 0
  set_free bin slab

-- A slab without objects in use goes back to the page allocator.
unfoldable pub release : Bool → ℕ → ℕ → Cmd (Unit {0})
release debug bin slab m =
    (do
      free ← get_free bin
      next ← load (next_slab_at slab)
      if free == slab then set_free bin next else pure tt
      unlink slab
      slab_phys ← load (phys_at slab)
      pmm_free debug slab_phys
      vmm_unmap debug m.kernel_pml4 slab)
      m

-- The object goes to the front of the free list of its slab.
unfoldable pub put_object : ℕ → ℕ → Cmd (Unit {0})
put_object slab addr = do
  next_free ← load (next_free_at slab)
  store addr next_free
  store (next_free_at slab) addr
  count ← load_low 32 (count_at slab)
  store_low 32 (count_at slab) (count + 2 ^ 32 - 1)

unfoldable pub bin_free : Bool → ℕ → Cmd Bool
bin_free debug addr = do
  debug_panic_if debug (ltb addr slab_virt_start || ltb slab_virt_end addr)
  let slab = slab_of addr
  bin ← load_low 16 (bin_at slab)
  debug_panic_if debug (leb total_bins bin)
  count ← load_low 32 (count_at slab)
  put_object slab addr
  if count == max_objects bin then revive bin slab else pure tt
  count ← load_low 32 (count_at slab)
  if count == 0 then release debug bin slab else pure tt
  pure true
