-- ===== src/Slab.antt =====
-- kernel/kernel/slab.c and include/kernel/slab.h: one page for each slab, with a header of 48 bytes
-- and objects of one size, in 24 bins. The pages are seen at their own virtual addresses. The 32 and
-- 16 bit fields of a header are the low digits of a word, whose other bytes are padding.
pub mod Free
pub mod Stack
pub mod Objects
use pristine.Pmm.{page_size, pmm_alloc}
use pristine.Machine.{ok, Cmd, pure, ◌>>=◌, ◌>>◌, debug_panic_if, load, store}
use pristine.Common.{
  ℕ, zero, suc, ◌+◌, ◌-◌, ◌*◌, ◌/◌, ◌%◌, ◌^◌, bit_and, Bool, List, [], ◌∷◌, leb, ◌==◌, ◌!=◌,
  if◌then◌else◌, get_or, update,
}
use pristine.Vmm.{flags_kernel_data, vmm_map}

abbrev pub slab_virt_start : ℕ
slab_virt_start = 0xFFFF_9000_0000_0000

abbrev pub slab_virt_end : ℕ
slab_virt_end = slab_virt_start + 0x100_0000_0000

abbrev pub total_bins : ℕ
total_bins = 24

-- `sizeof(SlabHeader)`
abbrev pub header_size : ℕ
header_size = 48

abbrev pub object_sizes : List ℕ
object_sizes =
    8 ∷ 16 ∷ 24 ∷ 32 ∷ 40 ∷ 48 ∷ 56 ∷ 64 ∷ 80 ∷ 96 ∷ 112 ∷ 128 ∷ 160 ∷ 192 ∷ 224 ∷ 256 ∷ 320 ∷ 384
    ∷ 448 ∷ 512 ∷ 640 ∷ 768 ∷ 896 ∷ 1024 ∷ []

abbrev pub object_size : ℕ → ℕ
object_size bin = get_or object_sizes bin 0

unfoldable pub max_objects : ℕ → ℕ
max_objects bin = (page_size - header_size) / object_size bin

-- The fields of a header.
abbrev pub count_at : ℕ → ℕ
count_at slab = slab

abbrev pub next_free_at : ℕ → ℕ
next_free_at slab = slab + 8

abbrev pub next_slab_at : ℕ → ℕ
next_slab_at slab = slab + 16

abbrev pub prev_slab_at : ℕ → ℕ
prev_slab_at slab = slab + 24

abbrev pub phys_at : ℕ → ℕ
phys_at slab = slab + 32

abbrev pub bin_at : ℕ → ℕ
bin_at slab = slab + 40

-- A field of `w` bits at the start of a word.
abbrev pub load_low : ℕ → ℕ → Cmd ℕ
load_low w p m = ok (m.mem p % 2 ^ w) m

abbrev pub store_low : ℕ → ℕ → ℕ → Cmd (Unit {0})
store_low w p v m = ok tt (record m { mem = update m.mem p (m.mem p / 2 ^ w * 2 ^ w + v % 2 ^ w) })

abbrev pub get_free : ℕ → Cmd ℕ
get_free bin m = ok (m.free_slabs bin) m

abbrev pub get_full : ℕ → Cmd ℕ
get_full bin m = ok (m.full_slabs bin) m

abbrev pub set_free : ℕ → ℕ → Cmd (Unit {0})
set_free bin slab m = ok tt (record m { free_slabs = update m.free_slabs bin slab })

abbrev pub set_full : ℕ → ℕ → Cmd (Unit {0})
set_full bin slab m = ok tt (record m { full_slabs = update m.full_slabs bin slab })

-- `if (slab != NULL) slab->field = value`
abbrev pub link : ℕ → ℕ → ℕ → Cmd (Unit {0})
link slab field value = if slab != 0 then store field value else pure tt

-- `addr & ~0xFFF`
abbrev pub slab_of : ℕ → ℕ
slab_of addr = bit_and addr (2 ^ 64 - 4096)

-- The loop that links the objects from `i` on, with `left` rounds to go.
unfoldable pub link_objects : ℕ → ℕ → ℕ → Cmd (Unit {0})
link_objects zero i size = pure tt
link_objects (suc left) i size = do store i (i + size); link_objects left (i + size) size

-- The rounds of that loop: the objects that begin inside the page.
abbrev pub object_rounds : ℕ → ℕ
object_rounds size = (page_size - header_size + size - 1) / size

abbrev take_page : Cmd (Unit {0})
take_page m = ok tt (record m { slab_top = m.slab_top + page_size })

-- A new slab for an empty bin. `slab->next_slab` and the link back are those of an empty list.
unfoldable pub new_slab : Bool → ℕ → Cmd (Unit {0})
new_slab debug bin m =
    (let slab = slab_virt_start + m.slab_top in
        do
          slab_phys ← pmm_alloc debug
          vmm_map debug m.kernel_pml4 slab_phys slab flags_kernel_data
          take_page
          store_low 32 (count_at slab) 0
          store (phys_at slab) slab_phys
          store_low 16 (bin_at slab) bin
          link_objects (object_rounds (object_size bin)) (slab + header_size) (object_size bin)
          store (slab + page_size - object_size bin) 0
          store (next_free_at slab) (slab + header_size)
          first ← get_free bin
          store (next_slab_at slab) first
          store (prev_slab_at slab) 0
          link first (prev_slab_at first) slab
          set_free bin slab)
      m

-- A slab without free objects moves from the front of the one list to the front of the other.
unfoldable pub retire : ℕ → ℕ → Cmd (Unit {0})
retire bin slab = do
  next ← load (next_slab_at slab)
  set_free bin next
  link next (prev_slab_at next) 0
  full ← get_full bin
  link full (prev_slab_at full) slab
  store (next_slab_at slab) full
  store (prev_slab_at slab) 0
  set_full bin slab

-- The part of `bin_alloc` after the slab is there.
unfoldable pub take_object : ℕ → Cmd ℕ
take_object bin = do
  slab ← get_free bin
  addr ← load (next_free_at slab)
  next_free ← load addr
  store (next_free_at slab) next_free
  count ← load_low 32 (count_at (slab_of addr))
  store_low 32 (count_at (slab_of addr)) (count + 1)
  objects ← load_low 32 (count_at slab)
  if objects == max_objects bin then retire bin slab else pure tt
  pure addr

unfoldable pub bin_alloc : Bool → ℕ → Cmd ℕ
bin_alloc debug bin m =
    (do
      debug_panic_if debug (leb total_bins bin)
      debug_panic_if debug (leb (slab_virt_end - page_size) m.slab_top)
      free ← get_free bin
      if free == 0 then new_slab debug bin else pure tt
      take_object bin)
      m
