-- ===== src/Vmm.antt =====
-- kernel/kernel/vmm.c and include/kernel/vmm.h: the four levels of page tables. A pointer to a table
-- is its virtual address, and `table[idx]` is the word at `table + 8 * idx`. `debug` is PRISTINE_DEBUG. Flushing the TLB
-- (`vmm_invlpg`) changes nothing that is modelled.
pub mod Tables
pub mod Hang
pub mod Grow
pub mod Walk
pub mod Leaf
pub mod Map
pub mod Unmap
pub mod Release
use pristine.Common.{
  ℕ, ◌+◌, ◌*◌, ◌/◌, ◌^◌, bit_and, bit_or, Bool, true, false, not, ◌&&◌, ◌==◌, ◌!=◌, if◌then◌else◌,
}
use pristine.Machine.{
  ok, Cmd, pure, ◌>>=◌, ◌>>◌, panic_if, debug_panic_if, load, store, memset_zero,
}
use pristine.Pmm.{page_size, pmm_alloc}
use pristine.Address.{phys_to_virt, virt_to_phys, is_aligned}

abbrev pub large_page_size : ℕ
large_page_size = 0x20_0000

abbrev pub huge_page_size : ℕ
huge_page_size = 0x4000_0000

abbrev pub pte_addr_mask : ℕ
pte_addr_mask = 0x000F_FFFF_FFFF_F000

abbrev pub flags_present : ℕ
flags_present = 1

abbrev pub flags_kernel_data : ℕ
flags_kernel_data = 2 ^ 63 + 3

abbrev pub flags_user_code : ℕ
flags_user_code = 7

abbrev pub flags_user_data : ℕ
flags_user_data = 2 ^ 63 + 7

abbrev pub flags_table_kernel : ℕ
flags_table_kernel = 3

abbrev pub flags_table_user : ℕ
flags_table_user = 7

abbrev pub flag_user : ℕ
flag_user = 4

abbrev pub pdpt_huge_flags : ℕ
pdpt_huge_flags = 0x80

abbrev pub pd_large_flags : ℕ
pd_large_flags = 0x80

unfoldable pub pml4_idx : ℕ → ℕ
pml4_idx addr = bit_and (addr / 2 ^ 39) 0x1FF

unfoldable pub pdpt_idx : ℕ → ℕ
pdpt_idx addr = bit_and (addr / 2 ^ 30) 0x1FF

unfoldable pub pd_idx : ℕ → ℕ
pd_idx addr = bit_and (addr / 2 ^ 21) 0x1FF

unfoldable pub pt_idx : ℕ → ℕ
pt_idx addr = bit_and (addr / 2 ^ 12) 0x1FF

-- The address of `table[idx]`.
abbrev pub slot : ℕ → ℕ → ℕ
slot table idx = table + 8 * idx

-- The table that an entry points at.
abbrev pub table_of : ℕ → ℕ
table_of entry = phys_to_virt (bit_and entry pte_addr_mask)

-- `iflags`, the flags of the tables on the way.
unfoldable pub table_flags : ℕ → ℕ
table_flags flags = if bit_and flags flag_user != 0 then flags_table_user else flags_table_kernel

unfoldable pub vmm_init : Bool → Cmd ℕ
vmm_init debug = do
  phys ← pmm_alloc debug
  let pml4 = phys_to_virt phys
  memset_zero pml4 page_size
  pure pml4

-- Where `table[idx]` is 0, a new zeroed table is hung there.
unfoldable pub new_table : Bool → ℕ → ℕ → ℕ → Cmd ℕ
new_table debug table idx iflags = do
  table_phys_addr ← pmm_alloc debug
  store (slot table idx) (bit_or table_phys_addr iflags)
  let table_ptr = phys_to_virt table_phys_addr
  memset_zero table_ptr page_size
  pure table_ptr

-- One level of the walk in `vmm_map`, `vmm_map_large` and `vmm_map_huge`. `no_ps` holds where the
-- source has the debug test that the entry is no large page.
unfoldable pub next_table : Bool → Bool → ℕ → ℕ → ℕ → Cmd ℕ
next_table debug no_ps table idx iflags = do
  entry ← load (slot table idx)
  if entry == 0 then new_table debug table idx iflags else (do
    debug_panic_if debug (no_ps && (bit_and entry pd_large_flags != 0))
    pure (table_of entry))

-- The last step: the entry is written, and a debug build tests first that it was 0.
unfoldable pub set_entry : Bool → ℕ → ℕ → ℕ → Cmd (Unit {0})
set_entry debug table idx entry = do
  old ← load (slot table idx)
  debug_panic_if debug (old != 0)
  store (slot table idx) entry

unfoldable pub vmm_map : Bool → ℕ → ℕ → ℕ → ℕ → Cmd (Unit {0})
vmm_map debug pml4 phys virt flags = do
  debug_panic_if debug (not (is_aligned phys page_size))
  debug_panic_if debug (not (is_aligned virt page_size))
  pdpt ← next_table debug false pml4 (pml4_idx virt) (table_flags flags)
  pd ← next_table debug false pdpt (pdpt_idx virt) (table_flags flags)
  pt ← next_table debug false pd (pd_idx virt) (table_flags flags)
  set_entry debug pt (pt_idx virt) (bit_or phys flags)

unfoldable pub vmm_map_large : Bool → ℕ → ℕ → ℕ → ℕ → Cmd (Unit {0})
vmm_map_large debug pml4 phys virt flags = do
  debug_panic_if debug (not (is_aligned phys large_page_size))
  debug_panic_if debug (not (is_aligned virt large_page_size))
  pdpt ← next_table debug false pml4 (pml4_idx virt) (table_flags flags)
  pd ← next_table debug true pdpt (pdpt_idx virt) (table_flags flags)
  set_entry debug pd (pd_idx virt) (bit_or phys (bit_or flags pd_large_flags))

unfoldable pub vmm_map_huge : Bool → ℕ → ℕ → ℕ → ℕ → Cmd (Unit {0})
vmm_map_huge debug pml4 phys virt flags = do
  debug_panic_if debug (not (is_aligned phys huge_page_size))
  debug_panic_if debug (not (is_aligned virt huge_page_size))
  pdpt ← next_table debug false pml4 (pml4_idx virt) (table_flags flags)
  set_entry debug pdpt (pdpt_idx virt) (bit_or phys (bit_or flags pdpt_huge_flags))

-- One level of the walk in the `vmm_unmap` functions: a missing table is a panic.
unfoldable pub old_table : Bool → Bool → ℕ → ℕ → Cmd ℕ
old_table debug no_ps table idx = do
  entry ← load (slot table idx)
  panic_if (entry == 0)
  debug_panic_if debug (no_ps && (bit_and entry pd_large_flags != 0))
  pure (table_of entry)

unfoldable pub vmm_unmap : Bool → ℕ → ℕ → Cmd (Unit {0})
vmm_unmap debug pml4 virt = do
  debug_panic_if debug (not (is_aligned virt page_size))
  pdpt ← old_table debug false pml4 (pml4_idx virt)
  pd ← old_table debug true pdpt (pdpt_idx virt)
  pt ← old_table debug true pd (pd_idx virt)
  old ← load (slot pt (pt_idx virt))
  debug_panic_if debug (old == 0)
  store (slot pt (pt_idx virt)) 0

unfoldable pub vmm_unmap_large : Bool → ℕ → ℕ → Cmd (Unit {0})
vmm_unmap_large debug pml4 virt = do
  debug_panic_if debug (not (is_aligned virt large_page_size))
  pdpt ← old_table debug false pml4 (pml4_idx virt)
  pd ← old_table debug false pdpt (pdpt_idx virt)
  old ← load (slot pd (pd_idx virt))
  debug_panic_if debug (bit_and old pd_large_flags == 0)
  debug_panic_if debug (old == 0)
  store (slot pd (pd_idx virt)) 0

unfoldable pub vmm_unmap_huge : Bool → ℕ → ℕ → Cmd (Unit {0})
vmm_unmap_huge debug pml4 virt = do
  debug_panic_if debug (not (is_aligned virt huge_page_size))
  pdpt ← old_table debug false pml4 (pml4_idx virt)
  old ← load (slot pdpt (pdpt_idx virt))
  debug_panic_if debug (bit_and old pdpt_huge_flags == 0)
  debug_panic_if debug (old == 0)
  store (slot pdpt (pdpt_idx virt)) 0

unfoldable pub vmm_switch : ℕ → Cmd (Unit {0})
vmm_switch pml4 m = ok tt (record m { cr3 = virt_to_phys pml4 })
