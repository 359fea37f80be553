-- ===== src/Vmm/Hang.antt =====
-- kernel/kernel/vmm.c: what hanging a new table under an entry does to memory and to the tree.
use pristine.Pmm.{pmm_alloc}
use pristine.Common.{
  ℕ, ◌+◌, ◌*◌, ◌%◌, ◌≤◌, ◌<◌, bit_or, ◌≡◌, ap, ◌∙◌, ◌≢◌, Bool, arith, ◌==◌, if◌then◌else◌, update,
  update_self, update-ne,
}
use pristine.Machine.{Machine, zeroed, Returns, bind-Returns}
use pristine.Pmm.Frames.{IsPmm, FrameUsed, FrameFree, Allocated}
use pristine.Pmm.Count.{free_pages, Allocated-IsPmm, pmm_alloc_total}
use pristine.Address.{phys_to_virt}
use pristine.Address.Laws.{phys_to_virt-small}
use pristine.Bitmap.Bits.{bit}
use pristine.Vmm.{slot, table_of, new_table}
use pristine.Vmm.Tables.{
  frame_addr, large_bit, table_of-entry, entry-ne-zero, entry-not_large, entry-low,
}

abbrev pub InPage : ℕ → ℕ → Type 0
InPage g a = (frame_addr g ≤ a) × (a < frame_addr g + 4096)

-- The frame `g`, free before, is an empty table, with the flags `iflags`, under entry `idx` of the table in frame `f`.
pub record Hung (m : Machine) (f idx g iflags : ℕ) (m' : Machine) : Type 0 where
  pub pmm : IsPmm m'
  pub size : m'.pmm_bitmap_size ≡ m.pmm_bitmap_size
  pub was_free : FrameFree m g
  pub in_map : g < m.pmm_bitmap_size * 8
  pub now : (j : ℕ) → bit m'.pmm_bitmap j ≡ (if g == j then 1 else bit m.pmm_bitmap j)
  pub fewer : free_pages m ≡ free_pages m' + 1
  pub present : m'.mem (slot (frame_addr f) idx) ≢ 0
  pub not_large : large_bit (m'.mem (slot (frame_addr f) idx)) ≡ 0
  pub low : m'.mem (slot (frame_addr f) idx) % 4096 ≡ iflags
  pub leads : table_of (m'.mem (slot (frame_addr f) idx)) ≡ frame_addr g
  pub empty : (i : ℕ) → i < 512 → m'.mem (slot (frame_addr g) i) ≡ 0
  pub same : (a : ℕ) → a ≢ slot (frame_addr f) idx → ¬ (InPage g a) → m'.mem a ≡ m.mem a

-- Memory after the entry is written and the new table is cleared.
abbrev hung_mem : Machine → ℕ → ℕ → ℕ → ℕ → ℕ → ℕ
hung_mem m f idx g entry = zeroed (update m.mem (slot (frame_addr f) idx) entry) (frame_addr g) 4096

zeroed_inside : (mem : ℕ → ℕ) (p a : ℕ) → p ≤ a → a < p + 4096 → zeroed mem p 4096 a ≡ 0
unfolding zeroed
zeroed_inside mem p a lo hi = ground arith

zeroed_outside :
    (mem : ℕ → ℕ) (p a : ℕ) → ¬ ((p ≤ a) × (a < p + 4096)) → zeroed mem p 4096 a ≡ mem a
unfolding zeroed
zeroed_outside mem p a out = ground arith

module _ {m : Machine} {page : ℕ} {m' : Machine} (f idx iflags : ℕ) where
  Allocated-Hung :
      IsPmm m
      → FrameUsed m f
      → idx < 512
      → iflags < 128
      → iflags ≢ 0
      → (a : Allocated m page m') → free_pages m ≡ free_pages m' + 1
      → Hung m f idx a.frame iflags
          (record m' { mem = hung_mem m' f idx a.frame (bit_or (a.frame * 4096) iflags) })
  Allocated-Hung inv used_f in_table low ne a fewer = record {
    pmm = record { bytes = kept.bytes; counted = kept.counted };
    size = ap (λ s. s.pmm_bitmap_size) a.state;
    was_free = a.was_free;
    in_map = a.in_map;
    now = a.now;
    fewer = fewer;
    present = rw entry (entry-ne-zero g iflags (omega arith) ne);
    not_large = rw entry (entry-not_large g iflags low);
    low = rw entry (entry-low g iflags (omega arith));
    leads = rw entry (table_of-entry g iflags (omega (arith, a.in_map, inv.counted)) (omega arith));
    empty = λ i lt. zeroed_inside _ (frame_addr g) _ (omega arith) (omega arith);
    same = λ x ne_slot out.
        zeroed_outside (update m'.mem (slot (frame_addr f) idx) (bit_or (g * 4096) iflags))
          (frame_addr g) x out
        ∙ update-ne m'.mem (slot (frame_addr f) idx) (bit_or (g * 4096) iflags) x ne_slot
        ∙ ap (λ s. s.mem x) a.state;
  }
    where
      g : ℕ
      g = a.frame

      kept : IsPmm m'
      kept = Allocated-IsPmm inv a

      apart : f ≢ g
      apart e = absurd (omega (arith, used_f, a.was_free, ap (bit m.pmm_bitmap) e))

      entry :
          hung_mem m' f idx g (bit_or (g * 4096) iflags) (slot (frame_addr f) idx)
          ≡ bit_or (g * 4096) iflags
      entry =
          zeroed_outside (update m'.mem (slot (frame_addr f) idx) (bit_or (g * 4096) iflags))
            (frame_addr g) (slot (frame_addr f) idx) (λ (lo, hi). apart (omega arith))
          ∙ update_self m'.mem (slot (frame_addr f) idx) (bit_or (g * 4096) iflags)

pub new_table-Hung :
    (debug : Bool) (m : Machine) (f idx iflags : ℕ)
    → IsPmm m
    → FrameUsed m f
    → idx < 512
    → iflags < 128
    → iflags ≢ 0
    → 0 < free_pages m
    → Returns
        (λ t m'. (g : ℕ) × (t ≡ frame_addr g) × Hung m f idx g iflags m')
        (new_table debug (frame_addr f) idx iflags m)
unfolding new_table
new_table-Hung debug m f idx iflags inv used_f in_table low ne some_free =
    bind-Returns _ _ (pmm_alloc debug m) _ (pmm_alloc_total debug m inv some_free)
      λ page m' (a, fewer).
        let addr : phys_to_virt page ≡ frame_addr a.frame =
          ap phys_to_virt a.address
          ∙ phys_to_virt-small (a.frame * 4096) (omega (arith, a.in_map, inv.counted)) in
        (
          a.frame,
          addr,
          rw (addr, a.address) (Allocated-Hung f idx iflags inv used_f in_table low ne a fewer),
        )
