-- ===== src/Address/Laws.antt =====
-- include/common/common.h: the macros as arithmetic, for the alignments that are powers of two.
use pristine.Common.Bits.{bit_and_mask, bit_and_field}
use pristine.Common.{ℕ, ◌+◌, ◌*◌, ◌/◌, ◌%◌, ◌^◌, ◌≤◌, ◌<◌, ◌≡◌, ◌↔◌, true, arith}
use pristine.Address.{pmm_hhdm_start, phys_to_virt, virt_to_phys, align_up, align_down, is_aligned}

-- The window on physical memory is undone by `VIRT_TO_PHYS`.
pub virt_to_phys-phys_to_virt : (p : ℕ) → p < 2 ^ 64 → virt_to_phys (phys_to_virt p) ≡ p
unfolding virt_to_phys phys_to_virt
virt_to_phys-phys_to_virt p h = omega arith

pub phys_to_virt-small : (p : ℕ) → p < 2 ^ 47 → phys_to_virt p ≡ p + pmm_hhdm_start
unfolding phys_to_virt
phys_to_virt-small p h = omega arith

pub is_aligned_iff : (a k : ℕ) → (is_aligned a (2 ^ k) ≡ true) ↔ (a % 2 ^ k ≡ 0)
unfolding is_aligned
is_aligned_iff a k = ground (arith, bit_and_mask k a)

-- The page-sized `ALIGN_DOWN` and `ALIGN_UP`.
pub align_down_page : (v : ℕ) → v < 2 ^ 64 → align_down v 4096 ≡ v / 4096 * 4096
unfolding align_down
align_down_page v h = ground (arith, bit_and_field 52 12 v)

pub align_up_page : (v : ℕ) → align_up v 4096 ≡ (v + 4095) % 2 ^ 64 / 4096 * 4096
unfolding align_up
align_up_page v = ground (arith, bit_and_field 52 12 ((v + 4095) % 2 ^ 64))

-- `ALIGN_UP` to a page gives the least multiple of the page size that is not below the value, where
-- that is an address at all, and `ALIGN_DOWN` the greatest that is not above.
pub align_page :
    (v : ℕ)
    → v + 4095 < 2 ^ 64
    → (align_up v 4096 % 4096 ≡ 0)
      × (v ≤ align_up v 4096)
      × (align_up v 4096 < v + 4096)
      × (align_down v 4096 % 4096 ≡ 0)
      × (align_down v 4096 ≤ v)
      × (v < align_down v 4096 + 4096)
align_page v fits = rw (align_up_page v, align_down_page v (omega arith)) (omega arith)
