-- ===== src/Bsfs/Fread.antt =====
-- kernel/common/bsfs/bsfs.c: what `bsfs_fread` gives, as a part of the bytes of the file.
use pristine.Bsfs.Loop.{BlocksIn, fread_blocks-BlocksIn}
use pristine.Bsfs.{u32, disk_read_max_blocks, BsfsContext, BsfsFile}
use pristine.Bsfs.Blocks.{Loaded, Held}
use pristine.Bsfs.Image.{Served, Geometry, reach, file_blocks, Addressable}
use pristine.Bsfs.Read.{fread_blocks, fread_end, fread_finish, fread}
use native.Mathlib.Nat.{
  add-mul, div-mul-le_self, div-lt_iff_lt-mul, div-add-mod, mod-lt, mul_comm, le-div_iff_mul-le,
  mod-eq_of_lt,
}
use pristine.Strings.{Bytes}
use pristine.Common.{ℕ, ◌+◌, ◌-◌, ◌*◌, ◌/◌, ◌^◌, ◌≤◌, ◌<◌, min, ◌≡◌, refl, false, arith, ltb}

-- How many bytes are read: what is asked, cut to the buffer and to the file.
abbrev pub fread_total : ℕ → ℕ → BsfsFile → ℕ
fread_total size count file =
    min (min (size * count) file.bufsize) (file.inode.size - file.position)

-- A request that the counters of 32 bits hold, on a file that the direct blocks and the first table
-- reach and whose own blocks begin below 2^32. Where the block of the position is the cached one, it
-- stands at the start of the buffer.
pub record Readable (ctx : BsfsContext) (image : Bytes) (size count : ℕ) (file : BsfsFile)
    : Type 0 where
  pub inside : file.position ≤ file.inode.size
  pub request : file.position + size * count < 2 ^ 32
  pub rounding : file.inode.size + ctx.header.block_size < 2 ^ 32
  pub sectors : fread_total size count file ≤ disk_read_max_blocks * ctx.phys_sector_size
  pub sector : disk_read_max_blocks * ctx.phys_sector_size < 2 ^ 32
  pub reached : file.inode.size ≤ reach ctx * ctx.header.block_size
  pub small : reach ctx < 2 ^ 32
  pub held : Held ctx image file (file.position / ctx.header.block_size) 0
  pub fits : Addressable ctx image file.inode (file_blocks ctx file.inode)
  pub loaded : Loaded ctx image file

pub fread_end_lem :
    (size count : ℕ) (file : BsfsFile)
    → file.position ≤ file.inode.size
    → file.position + size * count < 2 ^ 32
    → file.inode.size < 2 ^ 32
    → fread_end size count file ≡ file.position + fread_total size count file
unfolding fread_end
fread_end_lem size count file inside request small =
    let start : u32 file.position ≡ file.position = omega arith in
    let product : u32 (size * count) ≡ size * count = omega arith in
    rw (start, product) (ground arith)

-- The blocks of a request: the first, and the one after the last.
abbrev pub first_block_of : BsfsContext → BsfsFile → ℕ
first_block_of ctx file = file.position / ctx.header.block_size

abbrev pub end_block_of : BsfsContext → ℕ → BsfsFile → ℕ
end_block_of ctx total file =
    (file.position + total + ctx.header.block_size - 1) / ctx.header.block_size

module _ (ctx : BsfsContext) (image : Bytes) (geometry : Geometry ctx) where
  -- The blocks that hold bytes of a range: from the first to the last of them, and no more.
  whole_blocks :
      (position total limit : ℕ)
      → position + total ≤ limit * ctx.header.block_size
      → (position / ctx.header.block_size
          ≤ (position + total + ctx.header.block_size - 1) / ctx.header.block_size)
        × ((position + total + ctx.header.block_size - 1) / ctx.header.block_size ≤ limit)
  whole_blocks position total limit inside =
      let size = ctx.header.block_size in
      let one_more : (limit + 1) * size ≡ limit * size + size =
        omega (arith, add-mul limit 1 size) in
      let below : (position + total + size - 1) / size < limit + 1 =
        (div-lt_iff_lt-mul geometry.0).1 (omega (arith, inside, one_more, geometry.0)) in
      let first =
        (le-div_iff_mul-le geometry.0).1
          (omega (arith, div-mul-le_self position size, geometry.0)) in
      (first, omega (arith, below))

  -- The bytes that are read are in the file.
  pub fread_total-le :
      (size count : ℕ) (file : BsfsFile)
      → file.position ≤ file.inode.size
      → fread_total size count file + file.position ≤ file.inode.size
  fread_total-le size count file inside = ground (arith, inside)

  pub blocks_ordered :
      (size count : ℕ) (file : BsfsFile)
      → Readable ctx image size count file
      → (first_block_of ctx file ≤ end_block_of ctx (fread_total size count file) file)
        × (end_block_of ctx (fread_total size count file) file ≤ reach ctx)
  blocks_ordered size count file readable =
      whole_blocks file.position (fread_total size count file) (reach ctx)
        (omega (arith, fread_total-le size count file readable.inside, readable.reached))

  -- The blocks are those of the file.
  blocks_own :
      (size count : ℕ) (file : BsfsFile)
      → Readable ctx image size count file
      → end_block_of ctx (fread_total size count file) file ≤ file_blocks ctx file.inode
  blocks_own size count file readable =
      let block_size = ctx.header.block_size in
      let blocks = file_blocks ctx file.inode in
      let parts = div-add-mod (file.inode.size + block_size - 1) block_size in
      let left = mod-lt (file.inode.size + block_size - 1) geometry.0 in
      let holds : file.inode.size ≤ blocks * block_size =
        omega (arith, parts, left, geometry.0, mul_comm block_size blocks) in
      (whole_blocks file.position (fread_total size count file) blocks
        (omega (arith, fread_total-le size count file readable.inside, holds))).1

  -- What is left of `bsfs_fread` where the request can be met: the loop, and the copy.
  pub fread-run :
      (size count : ℕ) (file : BsfsFile)
      → Readable ctx image size count file
      → let total = fread_total size count file in
        let blocks = end_block_of ctx total file - first_block_of ctx file in
        fread ctx size count file
        ≡ fread_finish ctx
            (file.position + total)
            total
            (fread_blocks ctx blocks (first_block_of ctx file) 0 file)
  unfolding fread
  fread-run size count file readable =
      let block_size = ctx.header.block_size in
      let total = fread_total size count file in
      let position = file.position in
      let target =
        fread_end_lem size count file readable.inside readable.request
          (omega (arith, readable.rounding)) in
      let start : u32 position ≡ position = omega (arith, readable.request) in
      let bound = fread_total-le size count file readable.inside in
      let counted : u32 (position + total + 2 ^ 32 - position) ≡ total =
        omega (arith, bound, readable.rounding) in
      let rounded : u32 (position + total + block_size + 2 ^ 32 - 1)
          ≡ position + total + block_size - 1 =
        omega (arith, bound, readable.rounding, geometry.0) in
      let limit : u32 (disk_read_max_blocks * ctx.phys_sector_size)
          ≡ disk_read_max_blocks * ctx.phys_sector_size =
        mod-eq_of_lt readable.sector in
      let allowed : ltb (disk_read_max_blocks * ctx.phys_sector_size) total ≡ false =
        ground (arith, readable.sectors) in
      rw (target, start, counted, rounded, limit, allowed) refl

  pub run-BlocksIn :
      (size count : ℕ) (file : BsfsFile) (served : Served ctx image)
      → Readable ctx image size count file
      → let blocks =
          end_block_of ctx (fread_total size count file) file - first_block_of ctx file in
        BlocksIn ctx image geometry served blocks
          (first_block_of ctx file)
          0
          file
          (fread_blocks ctx blocks (first_block_of ctx file) 0 file)
  run-BlocksIn size count file served readable =
      let (ordered, reached) = blocks_ordered size count file readable in
      let own = blocks_own size count file readable in
      fread_blocks-BlocksIn ctx image geometry served _ (first_block_of ctx file) 0 file
        (omega (arith, ordered, reached)) readable.small readable.held
        (
          (λ far. readable.fits.0 (omega (arith, far, ordered, own))),
          λ i lt. readable.fits.1 i (omega (arith, lt, ordered, own)),
        )
        readable.loaded
