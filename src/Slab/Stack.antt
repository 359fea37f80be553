-- ===== src/Slab/Stack.antt =====
-- kernel/kernel/slab.c: the free objects of a slab as a stack.
use pristine.Pmm.{page_size}
use pristine.Machine.{Machine}
use pristine.Common.Bits.{bit_and_field}
use native.Mathlib.Nat.{div-le_self}
use pristine.Slab.{header_size, object_size, max_objects, count_at, next_free_at, bin_at, slab_of}
use pristine.Common.{
  ℕ, ◌+◌, ◌-◌, ◌*◌, ◌/◌, ◌%◌, ◌^◌, ◌≤◌, ◌<◌, ◌≡◌, refl, sym, ap, ◌∙◌, subst, ◌≢◌, List, [], ◌∷◌,
  arith, length, All, update, update_self, update-ne,
}

-- The free list: it starts at `first`, and each object holds the address of the next.
abbrev pub Linked : (ℕ → ℕ) → ℕ → List ℕ → Type 0
Linked mem first [] = Unit
Linked mem first (a ∷ rest) = (first ≡ a) × Linked mem (mem a) rest

abbrev pub Absent : ℕ → List ℕ → Type 0
Absent a [] = Unit
Absent a (b ∷ rest) = (a ≢ b) × Absent a rest

abbrev pub Distinct : List ℕ → Type 0
Distinct [] = Unit
Distinct (a ∷ rest) = Absent a rest × Distinct rest

-- An object of a slab: behind the header, in its page.
abbrev pub InSlab : ℕ → ℕ → Type 0
InSlab slab a = (slab + header_size ≤ a) × (a < slab + page_size)

-- A slab with the objects that are free in it: they are linked, they are different objects of its
-- page, and with those in use they are as many as a slab of its bin has.
pub record IsSlab (m : Machine) (bin slab : ℕ) (free : List ℕ) : Type 0 where
  pub in_memory : slab + page_size < 2 ^ 64
  pub aligned : slab % page_size ≡ 0
  pub not_null : slab ≢ 0
  pub linked : Linked m.mem (m.mem (next_free_at slab)) free
  pub inside : All (InSlab slab) free
  pub distinct : Distinct free
  pub tagged : m.mem (bin_at slab) % 2 ^ 16 ≡ bin
  pub counted : m.mem (count_at slab) % 2 ^ 32 + length free ≡ max_objects bin

-- Only the first two words of the header, and one other word `a`, are written.
pub record Touched (slab a : ℕ) (m m' : Machine) : Type 0 where
  pub elsewhere : (x : ℕ) → x ≢ count_at slab → x ≢ next_free_at slab → x ≢ a → m'.mem x ≡ m.mem x
  pub free_lists : (bin : ℕ) → m'.free_slabs bin ≡ m.free_slabs bin
  pub full_lists : (bin : ℕ) → m'.full_slabs bin ≡ m.full_slabs bin
  pub frames : m'.pmm_bitmap ≡ m.pmm_bitmap

pub slab_of-object :
    (slab a : ℕ)
    → slab + page_size < 2 ^ 64
    → slab % page_size ≡ 0
    → InSlab slab a
    → slab_of a ≡ slab
slab_of-object slab a small aligned inside =
    let page : slab_of a ≡ a / 4096 * 4096 = ground (arith, bit_and_field 52 12 a) in
    omega (arith, page, inside)

pub max_objects-lt : (bin : ℕ) → max_objects bin < 2 ^ 32
unfolding max_objects
max_objects-lt bin = omega (arith, div-le_self (page_size - header_size) (object_size bin))

-- Writing outside of the objects of a list does not change how they are linked.
pub Linked-update :
    (mem : ℕ → ℕ) (at v first : ℕ) (free : List ℕ)
    → Absent at free
    → Linked mem first free
    → Linked (update mem at v) first free
Linked-update mem at v first [] away l = tt
Linked-update mem at v first (a ∷ rest) away l = (
  l.0,
  subst (λ w. Linked (update mem at v) w rest) (sym (update-ne mem at v a (λ e. away.0 (sym e))))
      (Linked-update mem at v (mem a) rest away.1 l.1),
)

Absent-header :
    (slab w : ℕ) (free : List ℕ) → w < slab + header_size → All (InSlab slab) free → Absent w free
Absent-header slab w [] low inside = tt
Absent-header slab w (a ∷ rest) low inside =
    ((λ e. absurd (omega (arith, inside.0, e))), Absent-header slab w rest low inside.1)

-- The memory with a new free list and a new count in the header of a slab.
abbrev pub with_header : (ℕ → ℕ) → ℕ → ℕ → ℕ → ℕ → ℕ
with_header mem slab first count =
    update (update mem (next_free_at slab) first) (count_at slab)
      (mem (count_at slab) / 2 ^ 32 * 2 ^ 32 + count % 2 ^ 32)

pub with_header-IsSlab :
    (m : Machine) (bin slab first count : ℕ) (free old : List ℕ) (n : Machine)
    → IsSlab n bin slab old
    → m.mem (bin_at slab) % 2 ^ 16 ≡ bin
    → Linked m.mem first free
    → All (InSlab slab) free
    → Distinct free
    → count % 2 ^ 32 + length free ≡ max_objects bin
    → IsSlab (record m { mem = with_header m.mem slab first count }) bin slab free
with_header-IsSlab m bin slab first count free old n s tag linked inside distinct enough = record {
  in_memory = s.in_memory;
  aligned = s.aligned;
  not_null = s.not_null;
  linked =
      subst (λ w. Linked (with_header m.mem slab first count) w free)
        (sym (
          update-ne (update m.mem (slab + 8) first) slab _ (slab + 8) (omega arith)
          ∙ update_self m.mem (slab + 8) first))
        (Linked-update (update m.mem (slab + 8) first) slab _ first free
          (Absent-header slab slab free (omega arith) inside)
          (Linked-update m.mem (slab + 8) first first free
            (Absent-header slab (slab + 8) free (omega arith) inside) linked));
  inside = inside;
  distinct = distinct;
  tagged =
      ap (λ w. w % 2 ^ 16)
        (update-ne (update m.mem (slab + 8) first) slab _ (slab + 40) (omega arith)
          ∙ update-ne m.mem (slab + 8) first (slab + 40) (omega arith))
      ∙ tag;
  counted =
      ap (λ w. w % 2 ^ 32 + length free) (update_self (update m.mem (slab + 8) first) slab _)
      ∙ omega (arith, enough);
}

-- What a slab keeps under a new header.
pub with_header-Touched :
    (m : Machine) (slab a first count : ℕ)
    → Touched slab a m (record m { mem = with_header m.mem slab first count })
with_header-Touched m slab a first count = record {
  elsewhere = λ x c n o.
      update-ne (update m.mem (next_free_at slab) first) _ _ x c ∙ update-ne m.mem _ _ x n;
  free_lists = λ bin. refl;
  full_lists = λ bin. refl;
  frames = refl;
}
