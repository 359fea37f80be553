-- ===== src/Address.antt =====
-- include/common/common.h: alignment, and the window through which all physical memory is seen.
pub mod Laws
use pristine.Common.{ℕ, ◌+◌, ◌-◌, ◌%◌, ◌^◌, bit_and, Bool, ◌==◌}

abbrev pub pmm_hhdm_start : ℕ
pmm_hhdm_start = 0xFFFF_8000_0000_0000

abbrev pub kernel_base_offset : ℕ
kernel_base_offset = 0xFFFF_FFFF_8000_0000

-- `~x` on 64 bits
abbrev pub not64 : ℕ → ℕ
not64 x = 2 ^ 64 - 1 - x

unfoldable pub phys_to_virt : ℕ → ℕ
phys_to_virt phys = (phys + pmm_hhdm_start) % 2 ^ 64

unfoldable pub virt_to_phys : ℕ → ℕ
virt_to_phys virt = (virt + 2 ^ 64 - pmm_hhdm_start) % 2 ^ 64

unfoldable pub kernel_phys_to_virt : ℕ → ℕ
kernel_phys_to_virt phys = (phys + kernel_base_offset) % 2 ^ 64

unfoldable pub kernel_virt_to_phys : ℕ → ℕ
kernel_virt_to_phys virt = (virt + 2 ^ 64 - kernel_base_offset) % 2 ^ 64

-- `ALIGN_UP` and `ALIGN_DOWN` on `uint64_t`; the alignment is at least 1.
unfoldable pub align_up : ℕ → ℕ → ℕ
align_up value align = bit_and ((value + align - 1) % 2 ^ 64) (not64 (align - 1))

unfoldable pub align_down : ℕ → ℕ → ℕ
align_down value align = bit_and value (not64 (align - 1))

unfoldable pub is_aligned : ℕ → ℕ → Bool
is_aligned addr alignment = bit_and addr (alignment - 1) == 0
