-- ===== src/Tools/Layout.antt =====
-- tools/bsfs/mkfs.bsfs.c: the regions of a new file system follow one another, and each is large
-- enough for what it describes.
use pristine.Tools.{ImageHeader}
use pristine.Tools.Mkfs.{MkfsOptions, div_ceil, image_layout}
use native.Mathlib.Nat.{
  lt-div-mul-add, add-mul, div-lt_iff_lt-mul, le-mul_of_pos_right, mul-le-mul_right,
}
use pristine.Bsfs.{u32, sizeof_inode}
use pristine.Common.{ℕ, ◌+◌, ◌-◌, ◌*◌, ◌/◌, ◌^◌, ◌≤◌, ◌<◌, ◌≡◌, refl, arith, length}

-- What the options can be.
pub record ValidOptions (options : MkfsOptions) : Type 0 where
  pub size_low : 1024 ≤ options.final_blocksize
  pub size_high : options.final_blocksize ≤ 16384
  pub offset_high : options.final_offset ≤ 1024
  pub label_short : length options.final_label < 32

-- The regions of a file system on an image of `total` blocks.
pub record LaidOut (options : MkfsOptions) (imagesize : ℕ) (header : ImageHeader) : Type 0 where
  pub blocks : header.total_blocks ≡ imagesize / options.final_blocksize
  pub after_header : header.block_bitmap_start ≡ options.final_offset + 1
  pub mega_after :
      header.megablock_bitmap_start ≡ header.block_bitmap_start + header.block_bitmap_blocks
  pub inodes_after :
      header.inode_bitmap_start ≡ header.megablock_bitmap_start + header.megablock_bitmap_blocks
  pub table_after :
      header.inode_table_start ≡ header.inode_bitmap_start + header.inode_bitmap_blocks
  pub data_after : header.data_start ≡ header.inode_table_start + header.inode_table_blocks
  pub block_bits : header.total_blocks ≤ header.block_bitmap_blocks * options.final_blocksize * 8
  pub mega_bits :
      header.total_blocks ≤ header.megablock_bitmap_size * 8 * (options.final_blocksize * 8)
  pub mega_room :
      header.megablock_bitmap_size ≤ header.megablock_bitmap_blocks * options.final_blocksize
  pub inode_bits : header.inode_count ≤ header.inode_bitmap_blocks * options.final_blocksize * 8
  pub inode_room :
      header.inode_count * sizeof_inode ≤ header.inode_table_blocks * options.final_blocksize
  pub free :
      header.data_start ≤ header.total_blocks
      → header.free_blocks + header.data_start ≡ header.total_blocks

ceil_covers : (a b : ℕ) → 0 < b → a ≤ div_ceil a b * b
ceil_covers a b pos =
    let rest : a + b - 1 < (a + b - 1) / b * b + b = lt-div-mul-add pos in omega (arith, rest, pos)

ceil_small : (a b : ℕ) → 0 < b → div_ceil a b ≤ a
ceil_small a b pos =
    let product : (a + 1) * b ≡ a * b + b = omega (arith, add-mul a 1 b) in
    let below : div_ceil a b < a + 1 =
      (div-lt_iff_lt-mul pos).1 (omega (arith, product, le-mul_of_pos_right a pos, pos)) in
    omega (arith, below)

-- A size that does not wrap.
ceil_narrow : (a b : ℕ) → 0 < b → a < 2 ^ 32 → u32 (div_ceil a b) ≡ div_ceil a b
ceil_narrow a b pos small = omega (arith, ceil_small a b pos, small)

-- The layout that `mkfs.bsfs` writes, for options that it accepts and an image below 64 GiB: the
-- block with the header, the block bitmap, the megablock bitmap, the inode bitmap, the inode table
-- and the data follow one another without gap or overlap; there is a bit for each block, for each
-- megablock and for each inode, and room for each inode; and the free blocks are those from
-- the data on, where the image has that many.
pub image_layout-LaidOut :
    (options : MkfsOptions) (imagesize : ℕ)
    → ValidOptions options
    → imagesize < 2 ^ 36
    → LaidOut options imagesize (image_layout options imagesize)
unfolding image_layout
image_layout-LaidOut options imagesize valid small =
    let size = options.final_blocksize in
    let pos : 0 < size = omega (arith, valid.size_low) in
    let pos8 : 0 < size * 8 = omega (arith, pos) in
    let total = imagesize / size in
    let few : total < 2 ^ 26 = (div-lt_iff_lt-mul pos).1 (omega (arith, small, valid.size_low)) in
    let megas = div_ceil total (size * 8) in
    let bytes = div_ceil total 8 in
    let mega_bytes = div_ceil megas 8 in
    let inodes = total / 4 in
    let inode_bytes = div_ceil inodes 8 in
    let m1 = ceil_small total (size * 8) pos8 in
    let b1 = ceil_small bytes size pos in
    let b2 = ceil_small mega_bytes size pos in
    let b3 = ceil_small inode_bytes size pos in
    let b4 = ceil_small (inodes * sizeof_inode) size pos in
    let w0 : u32 total ≡ total = omega (arith, few) in
    let w1 : u32 megas ≡ megas = omega (arith, few, m1) in
    let w2 : u32 (total + 8 + 2 ^ 32 - 1) / 8 ≡ bytes = omega (arith, few) in
    let w3 : u32 (megas + 8 + 2 ^ 32 - 1) / 8 ≡ mega_bytes = omega (arith, few, m1) in
    let w4 : u32 (inodes + 8 + 2 ^ 32 - 1) / 8 ≡ inode_bytes = omega (arith, few) in
    let w5 : u32 (inodes * sizeof_inode) ≡ inodes * sizeof_inode = omega (arith, few) in
    let w6 = ceil_narrow bytes size pos (omega (arith, few)) in
    let w7 = ceil_narrow mega_bytes size pos (omega (arith, few, m1)) in
    let w8 = ceil_narrow inode_bytes size pos (omega (arith, few)) in
    let w9 = ceil_narrow (inodes * sizeof_inode) size pos (omega (arith, few)) in
    let start = options.final_offset + 1 in
    let a = div_ceil bytes size in
    let b = div_ceil mega_bytes size in
    let c = div_ceil inode_bytes size in
    let d = div_ceil (inodes * sizeof_inode) size in
    let sum : start + a + b + c + d < 2 ^ 32 =
      omega (arith, few, m1, b1, b2, b3, b4, valid.offset_high) in
    let s0 : u32 start ≡ start = omega (arith, sum) in
    let s1 : u32 (start + a) ≡ start + a = omega (arith, sum) in
    let s2 : u32 (start + a + b) ≡ start + a + b = omega (arith, sum) in
    let s3 : u32 (start + a + b + c) ≡ start + a + b + c = omega (arith, sum) in
    let s4 : u32 (start + a + b + c + d) ≡ start + a + b + c + d = omega (arith, sum) in
    let mega_cover : megas * (size * 8) ≤ mega_bytes * 8 * (size * 8) =
      mul-le-mul_right (size * 8) (ceil_covers megas 8 (omega arith)) in
    rw (w0, w1, w2, w3, w4, w5, w6, w7, w8, w9, s0, s1, s2, s3, s4)
      record {
        blocks = refl;
        after_header = refl;
        mega_after = refl;
        inodes_after = refl;
        table_after = refl;
        data_after = refl;
        block_bits = omega (arith, ceil_covers total 8 (omega arith), ceil_covers bytes size pos);
        mega_bits = omega (arith, ceil_covers total (size * 8) pos8, mega_cover);
        mega_room = ceil_covers mega_bytes size pos;
        inode_bits =
            omega (arith, ceil_covers inodes 8 (omega arith), ceil_covers inode_bytes size pos);
        inode_room = ceil_covers (inodes * sizeof_inode) size pos;
        free = λ h. omega (arith, h, sum, few);
      }
