-- ===== src/Vmm/Release.antt =====
-- kernel/kernel/vmm.c: `vmm_free` and `vmm_destroy`, which give frames back.
use pristine.Pmm.{page_size, pmm_free}
use pristine.Common.{ℕ, zero, suc, ◌+◌, ◌/◌, bit_and, Bool, ◌||◌, ◌==◌, ◌!=◌, if◌then◌else◌}
use pristine.Vmm.{
  large_page_size, huge_page_size, pte_addr_mask, flags_present, pdpt_huge_flags, pd_large_flags,
  pml4_idx, pdpt_idx, pd_idx, pt_idx, slot, table_of,
}
use pristine.Machine.{Cmd, pure, ◌>>=◌, ◌>>◌, panic_if, load, store}

-- `for (p = start; p < end; p += VMM_DEFAULT_PAGE_SIZE) pmm_free(p)`, with `n` rounds to go.
unfoldable pub free_pages_from : Bool → ℕ → ℕ → Cmd (Unit {0})
free_pages_from debug zero p = pure tt
free_pages_from debug (suc n) p = do pmm_free debug p; free_pages_from debug n (p + page_size)

-- A present table below `table[idx]`, or a panic.
unfoldable pub present_table : ℕ → ℕ → Cmd ℕ
present_table table idx = do
  entry ← load (slot table idx)
  panic_if ((table_of entry == 0) || (bit_and entry flags_present == 0))
  pure (table_of entry)

unfoldable pub vmm_free : Bool → ℕ → ℕ → Cmd (Unit {0})
vmm_free debug pml4 virt = do
  pdpt ← present_table pml4 (pml4_idx virt)
  pdpt_entry ← load (slot pdpt (pdpt_idx virt))
  if bit_and pdpt_entry pdpt_huge_flags != 0
      then (do
        free_pages_from debug (huge_page_size / page_size) (bit_and pdpt_entry pte_addr_mask)
        store (slot pdpt (pdpt_idx virt)) 0)
      else (do
        pd ← present_table pdpt (pdpt_idx virt)
        pd_entry ← load (slot pd (pd_idx virt))
        if bit_and pd_entry pd_large_flags != 0
            then (do
              free_pages_from debug (large_page_size / page_size) (bit_and pd_entry pte_addr_mask)
              store (slot pd (pd_idx virt)) 0)
            else (do
              pt_entry ← load (slot (table_of pd_entry) (pt_idx virt))
              panic_if ((table_of pd_entry == 0) || (bit_and pt_entry flags_present == 0))
              pmm_free debug (bit_and pt_entry pte_addr_mask)
              store (slot (table_of pd_entry) (pt_idx virt)) 0))

-- `for (size_t idx = idx; idx < idx + n; idx++) body(idx)`
unfoldable pub for_idx : ℕ → ℕ → (ℕ → Cmd (Unit {0})) → Cmd (Unit {0})
for_idx zero idx body = pure tt
for_idx (suc n) idx body = do body idx; for_idx n (idx + 1) body

-- The three inner loops of `vmm_destroy`, each over the 512 entries of a table.
unfoldable pub destroy_pt : Bool → ℕ → Cmd (Unit {0})
destroy_pt debug pt = for_idx 512 0 λ ptidx. (do
  entry ← load (slot pt ptidx)
  if entry == 0 then pure tt else pmm_free debug (bit_and entry pte_addr_mask))

unfoldable pub destroy_pd : Bool → ℕ → Cmd (Unit {0})
destroy_pd debug pd = for_idx 512 0 λ pdidx. (do
  entry ← load (slot pd pdidx)
  if (entry == 0) || (bit_and entry pd_large_flags != 0)
      then pure tt
      else (do destroy_pt debug (table_of entry); pmm_free debug (bit_and entry pte_addr_mask)))

unfoldable pub destroy_pdpt : Bool → ℕ → Cmd (Unit {0})
destroy_pdpt debug pdpt = for_idx 512 0 λ pdptidx. (do
  entry ← load (slot pdpt pdptidx)
  if (entry == 0) || (bit_and entry pdpt_huge_flags != 0)
      then pure tt
      else (do destroy_pd debug (table_of entry); pmm_free debug (bit_and entry pte_addr_mask)))

-- The upper half, from entry 256 on, belongs to the kernel and is left alone.
unfoldable pub vmm_destroy : Bool → ℕ → Cmd (Unit {0})
vmm_destroy debug pml4 = for_idx 256 0 λ pml4idx. (do
  entry ← load (slot pml4 pml4idx)
  if entry == 0
      then pure tt
      else (do destroy_pdpt debug (table_of entry); pmm_free debug (bit_and entry pte_addr_mask)))
