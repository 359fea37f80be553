-- ===== src/Pmm/Frames.antt =====
-- kernel/kernel/pmm.c: allocation and release of frames, bit by bit.
use pristine.Common.Bits.{bit_and_mask}
use pristine.Bitmap.Bits.{bit, Free-bit, bit-set, bit-clear}
use pristine.Bitmap.Find.{Lowest, found, none_free, bitmap_find-Lowest}
use pristine.Common.{
  ℕ, ◌*◌, ◌/◌, ◌%◌, ◌^◌, ◌<◌, bit_and, ◌≡◌, refl, Bool, true, false, ◌&&◌, arith, ◌==◌, ◌!=◌,
  if◌then◌else◌,
}
use pristine.Bitmap.{IsBytes, uint32_max, bitmap_set, bitmap_clear, bitmap_test, bitmap_find}
use pristine.Machine.{Machine, Outcome, ok, panic, Returns}
use pristine.Pmm.{page_size, bit_count, pmm_alloc, pmm_free}

pub and_false : (b : Bool) → (b && false) ≡ false
and_false true = refl
and_false false = refl

-- The bitmap holds bytes and its bits are counted without wrapping.
pub record IsPmm (m : Machine) : Type 0 where
  pub bytes : IsBytes m.pmm_bitmap
  pub counted : m.pmm_bitmap_size * 8 < 2 ^ 32

-- The state of a frame by its number: in use or not.
abbrev pub FrameUsed : Machine → ℕ → Type 0
FrameUsed m i = bit m.pmm_bitmap i ≡ 1

abbrev pub FrameFree : Machine → ℕ → Type 0
FrameFree m i = bit m.pmm_bitmap i ≡ 0

-- What `pmm_alloc` gives: the lowest free frame, aligned and below the end of the map, which is
-- the only one whose state changes.
pub record Allocated (m : Machine) (page : ℕ) (m' : Machine) : Type 0 where
  pub frame : ℕ
  pub address : page ≡ frame * page_size
  pub in_map : frame < m.pmm_bitmap_size * 8
  pub was_free : FrameFree m frame
  pub lowest : (j : ℕ) → j < frame → FrameUsed m j
  pub state : m' ≡ record m { pmm_bitmap = bitmap_set m.pmm_bitmap frame }
  pub now : (j : ℕ) → bit m'.pmm_bitmap j ≡ (if frame == j then 1 else bit m.pmm_bitmap j)

-- On a full map `pmm_alloc` panics, and otherwise it returns the lowest free frame.
pub data AllocOutcome (m : Machine) : Outcome ℕ → Type 0 where
  allocated : {page : ℕ} {m' : Machine} → Allocated m page m' → AllocOutcome m (ok page m')
  exhausted : ((j : ℕ) → j < m.pmm_bitmap_size * 8 → FrameUsed m j) → AllocOutcome m panic

module _ (debug : Bool) (m : Machine) (inv : IsPmm m) where
  alloc_found :
      (r : ℕ)
      → bitmap_find m.pmm_bitmap (bit_count m) ≡ r
      → Lowest m.pmm_bitmap (bit_count m) r
      → AllocOutcome m (pmm_alloc debug m)
  unfolding pmm_alloc
  alloc_found r e (none_free full used) =
      rw (e, full) (exhausted λ j lt. used j (ground (arith, inv.counted)))
  alloc_found r e (found lt clear before) =
      let some_free : (r == uint32_max) ≡ false = ground (arith, inv.counted) in
      let unmarked : (bitmap_test m.pmm_bitmap r != 0) ≡ false =
        ground (arith, (Free-bit m.pmm_bitmap r).1 clear) in
      rw (e, some_free, unmarked, and_false debug)
        (allocated (record {
          frame = r;
          address = refl;
          in_map = ground (arith, inv.counted);
          was_free = clear;
          lowest = before;
          state = refl;
          now = bit-set m.pmm_bitmap r;
        }))

-- `pmm_alloc` returns the lowest free frame, marks it and no other, and panics only when every
-- frame of the map is in use; the debug test never fires.
pub pmm_alloc_lem : (debug : Bool) (m : Machine) → IsPmm m → AllocOutcome m (pmm_alloc debug m)
unfolding pmm_alloc
pmm_alloc_lem debug m inv =
    alloc_found debug m inv (bitmap_find m.pmm_bitmap (bit_count m)) refl
      (bitmap_find-Lowest m.pmm_bitmap (bit_count m) inv.bytes (omega arith))

-- The frame number that `pmm_free` works on.
abbrev pub frame_of : ℕ → ℕ
frame_of page = page / page_size % 2 ^ 32

-- `pmm_free` of a page-aligned frame in use clears its bit and no other.
pub pmm_free_lem :
    (debug : Bool) (m : Machine) (page : ℕ)
    → page % page_size ≡ 0
    → FrameUsed m (frame_of page)
    → Returns
        (λ _ m'.
          (m' ≡ record m { pmm_bitmap = bitmap_clear m.pmm_bitmap (frame_of page) })
          × ((j : ℕ)
              → bit m'.pmm_bitmap j ≡ (if frame_of page == j then 0 else bit m.pmm_bitmap j)))
        (pmm_free debug page m)
unfolding pmm_free
pmm_free_lem debug m page aligned used =
    let fits : (bit_and page 4095 != 0) ≡ false = ground (arith, bit_and_mask 12 page) in
    let taken : (bitmap_test m.pmm_bitmap (frame_of page) == 0) ≡ false =
      ground (arith, (Free-bit m.pmm_bitmap (frame_of page)).0) in
    rw (fits, and_false debug, taken, and_false debug)
      (refl, bit-clear m.pmm_bitmap (frame_of page))
