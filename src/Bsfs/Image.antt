-- ===== src/Bsfs/Image.antt =====
-- The disk under the reader of kernel/common/bsfs/bsfs.c as one sequence of bytes, and what a file
-- holds: the byte at each place of it, by the direct blocks and the table of indirect blocks.
use pristine.Bsfs.{u32, max_directblocks, little_endian, BsfsInode, BsfsContext, fill}
use pristine.Bsfs.Read.{lba_of_block}
use pristine.Strings.{Bytes}
use native.Mathlib.Nat.{mul_assoc, div-eq_of_eq-mul_left, mod-eq_of_lt}
use pristine.Common.{
  ℕ, zero, suc, ◌+◌, ◌-◌, ◌*◌, ◌/◌, ◌%◌, ◌^◌, ◌≤◌, ◌<◌, ◌≡◌, refl, sym, ap, ◌∙◌, ◌⊎◌, true, arith,
  ltb, if◌then◌else◌,
}

-- What `disk_ops->read` is to do: it succeeds, and the sectors asked for are in the buffer.
abbrev pub Served : BsfsContext → Bytes → Type 0
Served ctx image =
    (lba count : ℕ)
    → ((ctx.disk_read lba count).0 ≡ true)
      × ((k : ℕ)
          → k < count * ctx.phys_sector_size
          → (ctx.disk_read lba count).1 k ≡ image (lba * ctx.phys_sector_size + k))

-- A block is a number of whole sectors.
abbrev pub Geometry : BsfsContext → Type 0
Geometry ctx =
    (0 < ctx.header.block_size)
    × (0 < ctx.phys_sector_size)
    × (ctx.header.block_size / ctx.phys_sector_size * ctx.phys_sector_size ≡ ctx.header.block_size)

-- The block number of block `i` of a file.
abbrev pub block_of : BsfsContext → Bytes → BsfsInode → ℕ → ℕ
block_of ctx image inode i =
    if ltb i max_directblocks
    then inode.blocks_direct i
    else little_endian 4 image
        (inode.blocks_l1indirect * ctx.header.block_size + 4 * (i - max_directblocks))

abbrev pub byte_of : BsfsContext → Bytes → BsfsInode → ℕ → ℕ
byte_of ctx image inode o =
    let block_size = ctx.header.block_size in
    image (block_of ctx image inode (o / block_size) * block_size + o % block_size)

-- The number of blocks that the direct blocks and the first table reach.
abbrev pub reach : BsfsContext → ℕ
reach ctx = max_directblocks + ctx.header.block_size / 4

-- The number of blocks that the bytes of a file take.
abbrev pub file_blocks : BsfsContext → BsfsInode → ℕ
file_blocks ctx inode = (inode.size + ctx.header.block_size - 1) / ctx.header.block_size

-- The blocks below a limit begin below 2^32 bytes, and so does the table if they are more than the
-- direct ones.
abbrev pub Addressable : BsfsContext → Bytes → BsfsInode → ℕ → Type 0
Addressable ctx image inode limit =
    (max_directblocks < limit → inode.blocks_l1indirect * ctx.header.block_size < 2 ^ 32)
    × ((i : ℕ) → i < limit → block_of ctx image inode i * ctx.header.block_size < 2 ^ 32)

pub little_endian_ext :
    (n : ℕ) (f g : Bytes) (p q : ℕ)
    → ((k : ℕ) → k < n → f (p + k) ≡ g (q + k))
    → little_endian n f p ≡ little_endian n g q
unfolding little_endian
little_endian_ext zero f g p q same = refl
little_endian_ext (suc n) f g p q same =
    let first : p + 0 ≡ p = omega arith in
    let first' : q + 0 ≡ q = omega arith in
    let here : f p ≡ g q = cc (ap f first, ap g first', same 0 (omega arith)) in
    let rest = little_endian_ext n f g (p + 1) (q + 1) λ k lt.
      let e : p + 1 + k ≡ p + suc k = omega arith in
      let e' : q + 1 + k ≡ q + suc k = omega arith in rw (e, e') (same (suc k) (omega arith)) in
    omega (arith, here, rest)

-- Where a block begins on the disk.
pub lba_of_block-byte :
    (ctx : BsfsContext) (block : ℕ)
    → Geometry ctx
    → block * ctx.header.block_size < 2 ^ 32
    → lba_of_block ctx block * ctx.phys_sector_size ≡ block * ctx.header.block_size
unfolding lba_of_block
lba_of_block-byte ctx block geometry fits =
    let sectors = ctx.header.block_size / ctx.phys_sector_size in
    let exact : block * ctx.header.block_size ≡ block * sectors * ctx.phys_sector_size =
      ap (λ n. block * n) (sym geometry.2) ∙ sym (mul_assoc block sectors ctx.phys_sector_size) in
    let lba : u32 (block * ctx.header.block_size) / ctx.phys_sector_size ≡ block * sectors =
      div-eq_of_eq-mul_left geometry.1 (mod-eq_of_lt fits ∙ exact) in
    ap (λ n. n * ctx.phys_sector_size) lba ∙ sym exact

pub fill_inside :
    (buf : Bytes) (offset n : ℕ) (src : Bytes) (k : ℕ)
    → k < n
    → fill buf offset n src (offset + k) ≡ src k
unfolding fill
fill_inside buf offset n src k h =
    let back : offset + k - offset ≡ k = omega arith in ground (arith, back)

pub fill_outside :
    (buf : Bytes) (offset n : ℕ) (src : Bytes) (k : ℕ)
    → (k < offset) ⊎ (offset + n ≤ k)
    → fill buf offset n src k ≡ buf k
unfolding fill
fill_outside buf offset n src k h = ground arith

pub fill_start : (buf : Bytes) (n : ℕ) (src : Bytes) (k : ℕ) → k < n → fill buf 0 n src k ≡ src k
fill_start buf n src k h =
    let place : 0 + k ≡ k = omega arith in
    ap (fill buf 0 n src) (sym place) ∙ fill_inside buf 0 n src k h
