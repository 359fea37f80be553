-- ===== src/Vmm/Tables.antt =====
-- The tree of page tables: which frame holds which table, and what a walk finds.
use pristine.Common.{
  ℕ, ◌+◌, ◌*◌, ◌%◌, ◌^◌, ◌≤◌, ◌<◌, bit_and, bit_or, ◌≡◌, refl, ◌≢◌, ◌⊎◌, inl, inr, Option, some,
  List, [], ◌∷◌, arith, ◌==◌, if◌then◌else◌, length, All,
}
use pristine.Common.Bits.{bit_and_field, bit_or_fields}
use pristine.Machine.{Machine}
use pristine.Pmm.Frames.{IsPmm, FrameUsed}
use pristine.Address.{pmm_hhdm_start}
use pristine.Address.Laws.{phys_to_virt-small}
use pristine.Vmm.{pte_addr_mask, pd_large_flags, slot, table_of, table_flags}

-- The virtual address of a frame.
abbrev pub frame_addr : ℕ → ℕ
frame_addr f = f * 4096 + pmm_hhdm_start

-- What a walk finds: nothing, or an entry with the number of table levels below it, which is 0
-- for a page, 1 for a large page and 2 for a huge page.
pub data Mapping : Type 0 where
  unmapped : Mapping
  leaf : ℕ → ℕ → Mapping

-- The PS bit of an entry above the last level.
abbrev pub large_bit : ℕ → ℕ
large_bit entry = bit_and entry pd_large_flags

-- The walk along the indices from a table on: it ends at an entry that is 0, at a large page, or at an
-- entry of the last table. It does not look at the rights of the entries on the way.
unfoldable pub lookup : (ℕ → ℕ) → ℕ → List ℕ → Mapping
lookup mem table [] = unmapped
lookup mem table (i ∷ []) =
    let entry = mem (slot table i) in if entry == 0 then unmapped else leaf 0 entry
lookup mem table (i ∷ j ∷ rest) =
    let entry = mem (slot table i) in
    let deeper = lookup mem (table_of entry) (j ∷ rest) in
    if entry == 0
    then unmapped
    else if large_bit entry == 0
    then deeper
    else leaf (length (j ∷ rest)) entry

-- Which table a frame holds: the indices that lead to it, the last one first.
abbrev pub Owners : Type 0
Owners = ℕ → Option (List ℕ)

-- The low 12 bits of an entry that leads to a table: present, writable, and for the user if the
-- flags of the page are.
abbrev pub rights_of : ℕ → ℕ
rights_of flags = 1 + 2 + bit_and flags 4

-- A non-zero entry above the last level is present; if it is no large page it leads to the table of that entry,
-- Every table but the root hangs from such an entry, and all tables stand in frames in use.
pub record IsTree (m : Machine) (root : ℕ) (own : Owners) : Type 0 where
  pub pmm : IsPmm m
  pub at_root : own root ≡ some []
  pub only_root : (f : ℕ) → own f ≡ some [] → f ≡ root
  pub short : (f : ℕ) (p : List ℕ) → own f ≡ some p → length p ≤ 3
  pub used : (f : ℕ) (p : List ℕ) → own f ≡ some p → FrameUsed m f × (f < m.pmm_bitmap_size * 8)
  pub child :
      (f : ℕ) (p : List ℕ) (i : ℕ)
      → own f ≡ some p
      → length p < 3
      → i < 512
      → m.mem (slot (frame_addr f) i) ≢ 0
      → large_bit (m.mem (slot (frame_addr f) i)) ≡ 0
      → (g : ℕ) × (own g ≡ some (i ∷ p)) × (table_of (m.mem (slot (frame_addr f) i)) ≡ frame_addr g)
  pub present :
      (f : ℕ) (p : List ℕ) (i : ℕ)
      → own f ≡ some p
      → length p < 3
      → i < 512
      → m.mem (slot (frame_addr f) i) ≢ 0
      → m.mem (slot (frame_addr f) i) % 2 ≡ 1
  pub parent :
      (g : ℕ) (p : List ℕ) (i : ℕ)
      → own g ≡ some (i ∷ p)
      → (f : ℕ) × (own f ≡ some p)
        × (i < 512)
        × (m.mem (slot (frame_addr f) i) ≢ 0)
        × (large_bit (m.mem (slot (frame_addr f) i)) ≡ 0)
        × (table_of (m.mem (slot (frame_addr f) i)) ≡ frame_addr g)

-- The entry that hangs the table of a frame under another.
pub table_of-entry :
    (f flags : ℕ) → f < 2 ^ 32 → flags < 4096 → table_of (bit_or (f * 4096) flags) ≡ frame_addr f
table_of-entry f flags small low =
    let sum : bit_or (f * 4096) flags ≡ f * 4096 + flags = bit_or_fields 12 f flags low in
    let field : bit_and (f * 4096 + flags) pte_addr_mask ≡ f * 4096 =
      omega (arith, bit_and_field 40 12 (f * 4096 + flags)) in
    rw (sum, field) (phys_to_virt-small (f * 4096) (omega arith))

pub entry-ne-zero : (f flags : ℕ) → flags < 4096 → flags ≢ 0 → bit_or (f * 4096) flags ≢ 0
entry-ne-zero f flags low ne e = ne (omega (arith, bit_or_fields 12 f flags low))

pub entry-not_large : (f flags : ℕ) → flags < 128 → large_bit (bit_or (f * 4096) flags) ≡ 0
entry-not_large f flags low =
    omega
      (arith, bit_and_field 1 7 (bit_or (f * 4096) flags), bit_or_fields 12 f flags (omega arith))

-- The flags that the code gives to tables are those rights.
pub table_flags-rights : (flags : ℕ) → table_flags flags ≡ rights_of flags
unfolding table_flags
table_flags-rights flags = ground (arith, bit_and_field 1 2 flags)

pub entry-low : (f flags : ℕ) → flags < 4096 → bit_or (f * 4096) flags % 4096 ≡ flags
entry-low f flags low = omega (arith, bit_or_fields 12 f flags low)

pub table_flags-bounds :
    (flags : ℕ) → (table_flags flags < 128) × (table_flags flags ≢ 0) × (table_flags flags % 2 ≡ 1)
unfolding table_flags
table_flags-bounds flags = ground arith

-- Slots of different tables, or at different indices, are different words.
pub slot-ne :
    (f i g j : ℕ)
    → i < 512
    → j < 512
    → (f ≢ g) ⊎ (i ≢ j)
    → slot (frame_addr f) i ≢ slot (frame_addr g) j
slot-ne f i g j hi hj (inl ne) e = ne (omega arith)
slot-ne f i g j hi hj (inr ne) e = ne (ground arith)

-- A walk from an empty table finds nothing.
pub lookup-zeroed :
    (mem : ℕ → ℕ) (f : ℕ) (q : List ℕ)
    → ((i : ℕ) → i < 512 → mem (slot (frame_addr f) i) ≡ 0)
    → All (λ i. i < 512) q
    → lookup mem (frame_addr f) q ≡ unmapped
unfolding lookup
lookup-zeroed mem f [] empty h = refl
lookup-zeroed mem f (i ∷ []) empty h = rw (empty i h.0) refl
lookup-zeroed mem f (i ∷ j ∷ rest) empty h = rw (empty i h.0) refl
