-- ===== src/Tools.antt =====
-- tools/bsfs/bsfs.c: allocation of blocks, inodes and directory entries on an image, with the header
-- of include/common/bsfs/bsfs.h as its tools see it. A bitmap is an array of bytes, and the functions
-- on its bits have the text of those of kernel/bitmap.c. `BSFS_PANIC` is empty: the Makefile defines
-- BSFS_STDLIB_EXISTS, and the header asks for DBSFS_STDLIB_EXISTS. BSFS_DEBUG is defined.
pub mod Slices
pub mod Alloc
pub mod Mkfs
pub mod Layout
pub mod Formatted
use pristine.Bitmap.{Bitmap, uint32_max, bitmap_set, bitmap_clear, bitmap_test, bitmap_find}
use pristine.Bsfs.{u32, max_directblocks, inode_type_directory, BsfsInode}
use pristine.Common.{
  ℕ, zero, suc, ◌+◌, ◌-◌, ◌*◌, ◌/◌, ◌%◌, ◌^◌, Bool, true, false, Option, none, some, List, leb,
  ◌==◌, ◌!=◌, if◌then◌else◌, update,
}

unfoldable pub bsfs_bitmap_set : Bitmap → ℕ → Bitmap
bsfs_bitmap_set = bitmap_set

unfoldable pub bsfs_bitmap_clear : Bitmap → ℕ → Bitmap
bsfs_bitmap_clear = bitmap_clear

unfoldable pub bsfs_bitmap_test : Bitmap → ℕ → ℕ
bsfs_bitmap_test = bitmap_test

unfoldable pub bsfs_bitmap_find : Bitmap → ℕ → ℕ
bsfs_bitmap_find = bitmap_find

pub record ImageHeader : Type 0 where
  pub block_size : ℕ
  pub total_blocks : ℕ
  pub inode_count : ℕ
  pub free_blocks : ℕ
  pub free_inodes : ℕ
  pub block_bitmap_start : ℕ
  pub block_bitmap_blocks : ℕ
  pub megablock_bitmap_start : ℕ
  pub megablock_bitmap_blocks : ℕ
  pub megablock_bitmap_size : ℕ
  pub inode_bitmap_start : ℕ
  pub inode_bitmap_blocks : ℕ
  pub inode_table_start : ℕ
  pub inode_table_blocks : ℕ
  pub data_start : ℕ
  pub image_root : ℕ
  pub partition_lba : ℕ
  pub label : List ℕ

-- What the allocator changes: the counters of the header and the bitmaps.
pub record ImageState : Type 0 where
  pub free_block_count : ℕ
  pub free_inode_count : ℕ
  pub block_bitmap : Bitmap
  pub megablock_bitmap : Bitmap
  pub inode_bitmap : Bitmap

-- The bitmap from a byte on.
unfoldable pub slice_from : Bitmap → ℕ → Bitmap
slice_from b offset i = b (offset + i)

-- All of `n` bytes are 255.
unfoldable pub all_full : ℕ → Bitmap → ℕ → Bool
all_full zero b i = true
all_full (suc left) b i = let rest = all_full left b (i + 1) in if b i != 255 then false else rest

-- The block that is chosen, before it is marked: the first free bit in the slice of the first
-- megablock that is not full.
unfoldable pub choose_block : ImageHeader → ImageState → ℕ × ℕ
choose_block header state =
    let free_megablock =
      bsfs_bitmap_find state.megablock_bitmap (u32 (header.megablock_bitmap_size * 8)) in
    let slice = slice_from state.block_bitmap (u32 (free_megablock * header.block_size)) in
    (free_megablock, bsfs_bitmap_find slice (u32 (header.block_size * 8)))

unfoldable pub mark_block : ImageHeader → ImageState → ℕ → ℕ → ImageState
mark_block header state free_megablock free_block =
    let blocks = bsfs_bitmap_set state.block_bitmap free_block in
    let slice = slice_from blocks (u32 (free_megablock * header.block_size)) in
    record state {
      block_bitmap = blocks;
      megablock_bitmap =
          if all_full header.block_size slice 0
          then bsfs_bitmap_set state.megablock_bitmap free_megablock
          else state.megablock_bitmap;
      free_block_count = u32 (state.free_block_count + 2 ^ 32 - 1);
    }

unfoldable pub bsfs_alloc_block : ImageHeader → ImageState → ImageState × ℕ
bsfs_alloc_block header state =
    let (free_megablock, local) = choose_block header state in
    let base_block = u32 (u32 (free_megablock * header.block_size) * 8) in
    let free_block = u32 (local + base_block) in
    if local == uint32_max
    then (state, uint32_max)
    else (mark_block header state free_megablock free_block, free_block)

unfoldable pub bsfs_alloc_inode : ImageHeader → ImageState → ImageState × ℕ
bsfs_alloc_inode header state =
    let free_inode = bsfs_bitmap_find state.inode_bitmap header.inode_count in
    if free_inode == uint32_max then (state, uint32_max) else (
      record state {
        inode_bitmap = bsfs_bitmap_set state.inode_bitmap free_inode;
        free_inode_count = u32 (state.free_inode_count + 2 ^ 32 - 1);
      },
      free_inode,
    )

-- The state, the inode of the directory and the offset on the image; `none` is UINT64_MAX.
unfoldable pub bsfs_alloc_dirent :
    ImageHeader → ImageState → BsfsInode → ImageState × BsfsInode × Option ℕ
bsfs_alloc_dirent header state inode =
    let local = u32 (inode.size / header.block_size) in
    let offset = u32 (inode.size % header.block_size) in
    let (after, block) = bsfs_alloc_block header state in
    let grown = record inode {
      blocks_direct = update inode.blocks_direct local block;
      blocks = u32 (inode.blocks + 1);
    } in
    if inode.inode_type != inode_type_directory
    then (state, inode, none)
    else if leb max_directblocks local
    then (state, inode, none)
    else if inode.blocks_direct local == 0
    then (after, grown, some (u32 (u32 (header.block_size * block) + offset)))
    else (state, inode, some (u32 (u32 (header.block_size * inode.blocks_direct local) + offset)))
