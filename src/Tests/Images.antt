-- ===== src/Tests/Images.antt =====
-- A small image whose first megablock is full, and the layout of an image of 16 MiB, for tools/bsfs.
use pristine.Tools.Slices.{full_byte}
use pristine.Common.{
  ℕ, ◌+◌, ◌*◌, ◌/◌, ◌%◌, ◌^◌, ◌<◌, ◌≡◌, refl, ◌∙◌, ◌≢◌, false, some, List, [], ◌∷◌, arith,
  ℕ_discrete, ◌==◌, if◌then◌else◌, ==-ne, length,
}
use pristine.Common.Digits.{digit-zero, digit-two_pow}
use pristine.Bitmap.Bits.{bit}
use pristine.Tools.{ImageHeader, ImageState, bsfs_alloc_block}
use pristine.Tools.Alloc.{Consistent, Allocated, bsfs_alloc_block-Allocated}
use pristine.Tools.Formatted.{Outcome, mkfs-Outcome}
use pristine.Tools.Mkfs.{
  StrtolResult, done, same_text, block_size_option, default_options, option_number, set_option,
  parse_options, mkfs,
}

abbrev small_header : ImageHeader
small_header = record {
  block_size = 1;
  total_blocks = 64;
  inode_count = 16;
  free_blocks = 56;
  free_inodes = 16;
  block_bitmap_start = 1;
  block_bitmap_blocks = 8;
  megablock_bitmap_start = 9;
  megablock_bitmap_blocks = 1;
  megablock_bitmap_size = 1;
  inode_bitmap_start = 10;
  inode_bitmap_blocks = 2;
  inode_table_start = 12;
  inode_table_blocks = 16;
  data_start = 28;
  image_root = 0;
  partition_lba = 0;
  label = [];
}

abbrev small_state : ImageState
small_state = record {
  free_block_count = 56;
  free_inode_count = 16;
  block_bitmap = λ i. if i == 0 then 255 else 0;
  megablock_bitmap = λ i. if i == 0 then 1 else 0;
  inode_bitmap = λ i. 0;
}

block_bytes : (i : ℕ) → small_state.block_bitmap i < 256
block_bytes i = ground arith

mega_bytes : (i : ℕ) → small_state.megablock_bitmap i < 256
mega_bytes i = ground arith

mega_bit : (m : ℕ) → m < 8 → bit small_state.megablock_bitmap m ≡ (if 0 == m then 1 else 0)
unfolding bit
mega_bit m lt =
    let slot : m / 8 ≡ 0 = omega arith in
    let place : m % 8 ≡ m = omega arith in rw (slot, place) (digit-two_pow 0 m)

later_bit : (m j : ℕ) → 0 < m → j < 8 → bit small_state.block_bitmap (m * 8 + j) ≡ 0
unfolding bit
later_bit m j more lt =
    let slot : (m * 8 + j) / 8 ≡ m = omega arith in
    rw (slot, ==-ne m 0 (λ e. absurd (omega (arith, e)))) (digit-zero ((m * 8 + j) % 8))

small-Consistent : Consistent small_header small_state
small-Consistent = record {
  block_bytes = block_bytes;
  mega_bytes = mega_bytes;
  full = λ m inside one j lt. elim (ℕ_discrete m 0) [
    | yes first ↦ rw first (full_byte small_state.block_bitmap 0 j refl lt)
    | no later ↦ absurd (later_unmarked m inside later one)
  ];
  marked = λ m inside all. elim (ℕ_discrete m 0) [
    | yes first ↦ rw first (mega_bit 0 (omega arith))
    | no later ↦
        absurd (omega (arith, all 0 (omega arith), later_bit m 0 (omega arith) (omega arith)))
  ];
}
  where
    later_unmarked : (m : ℕ) → m < 8 → m ≢ 0 → bit small_state.megablock_bitmap m ≡ 1 → ⊥
    later_unmarked m inside later one =
        let unmarked : bit small_state.megablock_bitmap m ≡ 0 =
          mega_bit m inside ∙ ground (arith, later) in
        omega (arith, one, unmarked)

bsfs_alloc_block-Allocated_example :
    Allocated small_header small_state (bsfs_alloc_block small_header small_state)
bsfs_alloc_block-Allocated_example =
    bsfs_alloc_block-Allocated small_header small_state small-Consistent 1 (omega arith)
      (omega arith) (omega arith) (mega_bit 1 (omega arith))

-- A `strtol` that reads every text as 2048, and the options "--block-size 2048".
abbrev fixed_strtol : List ℕ → StrtolResult
fixed_strtol text = record {
  negative = false;
  magnitude = 2048;
  consumed = length text;
  erange = false;
}

abbrev arguments : List (List ℕ)
arguments = block_size_option ∷ (50 ∷ 48 ∷ 52 ∷ 56 ∷ []) ∷ []

mkfs-Outcome_example :
    Outcome
      (parse_options fixed_strtol default_options arguments)
      (2 ^ 24)
      (mkfs fixed_strtol ([] ∷ arguments) (some (2 ^ 24)))
mkfs-Outcome_example = mkfs-Outcome fixed_strtol [] arguments (2 ^ 24) (omega arith)

-- The options are accepted.
accepted :
    parse_options fixed_strtol default_options arguments
    ≡ done (record default_options { final_blocksize = 2048 })
unfolding parse_options set_option option_number same_text
accepted = refl
