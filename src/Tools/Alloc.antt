-- ===== src/Tools/Alloc.antt =====
-- tools/bsfs/bsfs.c: `bsfs_alloc_block` finds the lowest free block and keeps the bitmap of full
-- megablocks exact. A megablock is as many blocks as one block has bits.
use pristine.Tools.Slices.{bit-slice, slice_from-IsBytes, all_full-bits, bits-all_full}
use pristine.Bitmap.Find.{found, none_free, bitmap_find-Lowest}
use pristine.Tools.{
  bsfs_bitmap_set, bsfs_bitmap_find, ImageHeader, ImageState, slice_from, all_full, choose_block,
  mark_block, bsfs_alloc_block,
}
use pristine.Bitmap.{Bitmap, IsBytes, uint32_max, bitmap_set, bitmap_find}
use native.Mathlib.Nat.{
  le-mul_of_pos_right, div-lt_iff_lt-mul, add-mul, div-add-mod, mod-lt, mul-le-mul_right, mul_comm,
  mul_assoc,
}
use pristine.Common.{
  ℕ, ◌+◌, ◌-◌, ◌*◌, ◌/◌, ◌%◌, ◌^◌, ◌≤◌, ◌<◌, ◌≡◌, refl, sym, ap, ◌∙◌, ◌≢◌, inl, inr, false, arith,
  dec_lt, ℕ_discrete, ◌==◌, if◌then◌else◌, ==-ne, Bool-cases,
}
use pristine.Bitmap.Bits.{bit, bit-set, bitmap_set-IsBytes}

abbrev pub megablock_blocks : ImageHeader → ℕ
megablock_blocks header = header.block_size * 8

abbrev pub megablocks : ImageHeader → ℕ
megablocks header = header.megablock_bitmap_size * 8

-- A megablock is marked exactly where all its blocks are taken.
pub record Consistent (header : ImageHeader) (state : ImageState) : Type 0 where
  pub block_bytes : IsBytes state.block_bitmap
  pub mega_bytes : IsBytes state.megablock_bitmap
  pub full :
      (m : ℕ)
      → m < megablocks header
      → bit state.megablock_bitmap m ≡ 1
      → (j : ℕ) → j < megablock_blocks header
      → bit state.block_bitmap (m * megablock_blocks header + j) ≡ 1
  pub marked :
      (m : ℕ)
      → m < megablocks header
      → ((j : ℕ)
          → j < megablock_blocks header
          → bit state.block_bitmap (m * megablock_blocks header + j) ≡ 1)
      → bit state.megablock_bitmap m ≡ 1

-- The lowest free block is taken, which is one of the image if the image has one, the state is as consistent as before, and the count is one less.
pub record Allocated (header : ImageHeader) (state : ImageState) (result : ImageState × ℕ)
    : Type 0 where
  pub was_free : bit state.block_bitmap result.1 ≡ 0
  pub lowest : (c : ℕ) → c < result.1 → bit state.block_bitmap c ≡ 1
  pub in_image :
      (c : ℕ)
      → c < header.total_blocks
      → bit state.block_bitmap c ≡ 0
      → result.1 < header.total_blocks
  pub taken :
      (c : ℕ)
      → bit result.0.block_bitmap c ≡ (if result.1 == c then 1 else bit state.block_bitmap c)
  pub consistent : Consistent header result.0
  pub counted : result.0.free_block_count ≡ (state.free_block_count + 2 ^ 32 - 1) % 2 ^ 32

-- Blocks of one megablock, by their numbers.
module _ (header : ImageHeader) (state : ImageState) (ok : Consistent header state) where
  -- A block below a free one: the megablock before is full, or it stands in the same megablock.
  block_taken :
      (r l c : ℕ)
      → 0 < megablock_blocks header
      → r < megablocks header
      → ((m : ℕ) → m < r → bit state.megablock_bitmap m ≡ 1)
      → ((j : ℕ) → j < l → bit state.block_bitmap (r * megablock_blocks header + j) ≡ 1)
      → c < r * megablock_blocks header + l
      → bit state.block_bitmap c ≡ 1
  block_taken r l c some_blocks inside before same lt =
      let n = megablock_blocks header in
      elim (dec_lt c (r * n)) [
        | yes earlier ↦
            let m = c / n in
            let parts = div-add-mod c n in
            let place : m * n + c % n ≡ c = omega (arith, parts, mul_comm n m) in
            let below : m < r = (div-lt_iff_lt-mul some_blocks).1 earlier in
            rw (sym place) (
              ok.full m (omega (arith, below, inside)) (before m below) (c % n)
                (mod-lt c some_blocks))
        | no here ↦
            let place : r * n + (c - r * n) ≡ c = omega (arith, here) in
            rw (sym place) (same (c - r * n) (omega (arith, here, lt)))
      ]

-- Numbers of blocks in different megablocks differ.
apart : (n r l m j : ℕ) → l < n → j < n → r * n + l ≡ m * n + j → r ≡ m
apart n r l m j small small' e = elim (dec_lt r m) [
  | yes less ↦
      let step : (r + 1) * n ≤ m * n = mul-le-mul_right n (omega (arith, less)) in
      absurd (omega (arith, step, add-mul r 1 n, e, small))
  | no not_less ↦ elim (dec_lt m r) [
    | yes more ↦
        let step : (m + 1) * n ≤ r * n = mul-le-mul_right n (omega (arith, more)) in
        absurd (omega (arith, step, add-mul m 1 n, e, small'))
    | no same ↦ omega (arith, not_less, same)
  ]
]

set_keeps : (b : Bitmap) (i c : ℕ) → bit b c ≡ 1 → bit (bitmap_set b i) c ≡ 1
set_keeps b i c h = ground (arith, bit-set b i c, h)

set_other : (b : Bitmap) (i c : ℕ) → i ≢ c → bit (bitmap_set b i) c ≡ bit b c
set_other b i c h = ground (arith, bit-set b i c, h)

module _ (header : ImageHeader) (state : ImageState) (ok : Consistent header state) where
  -- After block `l` of megablock `r` is marked, with any bitmap of megablocks that differs in `r` only
  -- and is right about it.
  Consistent-set :
      (r l count : ℕ) (mega : Bitmap)
      → l < megablock_blocks header
      → IsBytes mega
      → ((m : ℕ) → m ≢ r → bit mega m ≡ bit state.megablock_bitmap m)
      → let blocks = bitmap_set state.block_bitmap (r * megablock_blocks header + l) in
        (bit mega r ≡ 1
          → (j : ℕ) → j < megablock_blocks header
          → bit blocks (r * megablock_blocks header + j) ≡ 1)
        → (((j : ℕ)
              → j < megablock_blocks header
              → bit blocks (r * megablock_blocks header + j) ≡ 1)
            → bit mega r ≡ 1)
        → Consistent header (record state {
          block_bitmap = blocks;
          megablock_bitmap = mega;
          free_block_count = count;
        })
  Consistent-set r l count mega small bytes others right right' = record {
    block_bytes =
        bitmap_set-IsBytes state.block_bitmap (r * megablock_blocks header + l) ok.block_bytes;
    mega_bytes = bytes;
    full = λ m inside one j lt. elim (ℕ_discrete m r) [
      | yes here ↦ rw here (right (rw here at one) j lt)
      | no other ↦
          set_keeps state.block_bitmap _ _ (ok.full m inside (sym (others m other) ∙ one) j lt)
    ];
    marked = λ m inside all. elim (ℕ_discrete m r) [
      | yes here ↦ rw here (right' (rw here at all))
      | no other ↦
          others m other
          ∙ ok.marked m inside λ j lt.
            sym (
              set_other state.block_bitmap (r * megablock_blocks header + l)
                (m * megablock_blocks header + j)
                (λ e. other (sym (apart (megablock_blocks header) r l m j small lt e))))
            ∙ all j lt
    ];
  }

  mark_block-Consistent :
      (r l : ℕ)
      → r * header.block_size < 2 ^ 32
      → r < megablocks header
      → l < megablock_blocks header
      → Consistent header (mark_block header state r (r * megablock_blocks header + l))
  unfolding mark_block bsfs_bitmap_set
  mark_block-Consistent r l fits inside small =
      let n = megablock_blocks header in
      let blocks = bitmap_set state.block_bitmap (r * n + l) in
      let bytes = bitmap_set-IsBytes state.block_bitmap (r * n + l) ok.block_bytes in
      let offset : r * header.block_size % 2 ^ 32 ≡ r * header.block_size = omega (arith, fits) in
      let slice = slice_from blocks (r * header.block_size) in
      let there : (j : ℕ) → bit slice j ≡ bit blocks (r * n + j) = λ j.
        bit-slice blocks (r * header.block_size) j
        ∙ ap (λ x. bit blocks (x + j)) (mul_assoc r header.block_size 8) in
      elim (Bool-cases (all_full header.block_size slice 0)) [
        | inl all ↦
            rw (offset, all)
              (Consistent-set r l _ (bitmap_set state.megablock_bitmap r) small
                (bitmap_set-IsBytes state.megablock_bitmap r ok.mega_bytes)
                (λ m other. set_other state.megablock_bitmap r m (λ e. other (sym e)))
                (λ one j lt.
                  sym (there j)
                  ∙ all_full-bits header.block_size slice 0 all j (omega arith) (omega (arith, lt)))
                (λ bits. ground (arith, bit-set state.megablock_bitmap r r)))
        | inr some_free ↦
            rw (offset, some_free)
              (Consistent-set r l _ state.megablock_bitmap small ok.mega_bytes (λ m other. refl)
                (λ one j lt.
                  set_keeps state.block_bitmap (r * n + l) (r * n + j) (ok.full r inside one j lt))
                (λ bits. absurd (
                  cc (
                    some_free,
                    bits-all_full header.block_size slice 0
                        (slice_from-IsBytes blocks (r * header.block_size) bytes)
                        λ j from below. there j ∙ bits j (omega (arith, below)),
                  ))))
      ]

  -- The numbers that the code computes, where a megablock and a block in it are found.
  bsfs_alloc_block_found :
      (r l : ℕ)
      → megablocks header * megablock_blocks header < 2 ^ 32
      → bitmap_find state.megablock_bitmap (megablocks header) ≡ r
      → bitmap_find
          (slice_from state.block_bitmap (r * header.block_size))
          (megablock_blocks header)
        ≡ l
      → r < megablocks header
      → l < megablock_blocks header
      → bsfs_alloc_block header state ≡ (
        mark_block header state r (r * megablock_blocks header + l),
        r * megablock_blocks header + l,
      )
  unfolding bsfs_alloc_block choose_block bsfs_bitmap_find
  bsfs_alloc_block_found r l fits at at' inside small =
      let n = megablock_blocks header in
      let total = megablocks header in
      let one : total ≤ total * n = le-mul_of_pos_right total (omega (arith, small)) in
      let other : n ≤ n * total = le-mul_of_pos_right n (omega (arith, inside)) in
      let next : (r + 1) * n ≤ total * n = mul-le-mul_right n (omega (arith, inside)) in
      let step = add-mul r 1 n in
      let bits : r * header.block_size * 8 ≡ r * n = mul_assoc r header.block_size 8 in
      let w1 : total % 2 ^ 32 ≡ total = omega (arith, fits, one) in
      let w2 : n % 2 ^ 32 ≡ n = omega (arith, fits, other, mul_comm n total) in
      let w3 : r * header.block_size % 2 ^ 32 ≡ r * header.block_size =
        omega (arith, fits, next, step, bits) in
      let w4 : r * header.block_size * 8 % 2 ^ 32 ≡ r * n = omega (arith, fits, next, step, bits) in
      let w5 : (l + r * n) % 2 ^ 32 ≡ r * n + l = omega (arith, fits, next, step, small) in
      let some' : (l == uint32_max) ≡ false =
        ==-ne l uint32_max (λ e. absurd (omega (arith, e, small, fits, other, mul_comm n total))) in
      rw (w1, w2, at, w3, at', w4, w5, some') refl

  -- `bsfs_alloc_block` gives the lowest block that is free in the block bitmap, which lies in the image
  -- exactly if the bitmap has a free block below `total_blocks`; it marks that block and no other; it marks the megablock if that was the last of its free blocks, so that the
  -- bitmap of megablocks is exact again, and takes one off the count. The bitmap of megablocks is to be exact before and to have a
  -- megablock that is not full, and the numbers of all blocks are to be below 2^32.
  pub bsfs_alloc_block-Allocated :
      (m : ℕ)
      → 0 < header.block_size
      → megablocks header * megablock_blocks header < 2 ^ 32
      → m < megablocks header
      → bit state.megablock_bitmap m ≡ 0
      → Allocated header state (bsfs_alloc_block header state)
  unfolding mark_block bsfs_bitmap_set
  bsfs_alloc_block-Allocated m some_bytes fits inside free =
      let n = megablock_blocks header in
      let total = megablocks header in
      let one : total ≤ total * n = le-mul_of_pos_right total (omega (arith, some_bytes)) in
      let other : n ≤ n * total = le-mul_of_pos_right n (omega (arith, inside)) in
      let r = bitmap_find state.megablock_bitmap total in
      let slice = slice_from state.block_bitmap (r * header.block_size) in
      let l = bitmap_find slice n in
      let there : (j : ℕ) → bit slice j ≡ bit state.block_bitmap (r * n + j) = λ j.
        bit-slice state.block_bitmap (r * header.block_size) j
        ∙ ap (λ x. bit state.block_bitmap (x + j)) (mul_assoc r header.block_size 8) in
      elim (bitmap_find-Lowest state.megablock_bitmap total ok.mega_bytes
        (omega (arith, fits, one))) [
          | none_free e all ↦ absurd (omega (arith, all m inside, free))
          | found below unset before ↦
              elim (bitmap_find-Lowest slice n
                (slice_from-IsBytes state.block_bitmap _ ok.block_bytes)
                (omega (arith, fits, other, mul_comm n total))) [
                  | none_free e all ↦
                      absurd
                        (omega (arith, ok.marked r below (λ j lt. sym (there j) ∙ all j lt), unset))
                  | found small unset' before' ↦
                      let next : (r + 1) * n ≤ total * n =
                        mul-le-mul_right n (omega (arith, below)) in
                      let bits : r * header.block_size * 8 ≡ r * n =
                        mul_assoc r header.block_size 8 in
                      rw (bsfs_alloc_block_found r l fits refl refl below small) record {
                        was_free = sym (there l) ∙ unset';
                        lowest = λ c lt.
                            block_taken header state ok r l c (omega (arith, some_bytes)) below
                              before (λ j less. sym (there j) ∙ before' j less) lt;
                        in_image = λ c inside clear. elim (dec_lt c (r * n + l)) [
                          | yes below_it ↦ absurd (
                              omega (
                                arith,
                                block_taken header state ok r l c (omega (arith, some_bytes)) below
                                    before (λ j less. sym (there j) ∙ before' j less) below_it,
                                clear,
                              ))
                          | no not_below ↦ omega (arith, inside, not_below)
                        ];
                        taken = λ c. bit-set state.block_bitmap (r * n + l) c;
                        consistent =
                            mark_block-Consistent r l
                              (omega (arith, fits, next, add-mul r 1 n, bits)) below small;
                        counted = refl;
                      }
                ]
        ]
