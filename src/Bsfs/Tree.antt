-- ===== src/Bsfs/Tree.antt =====
-- The directories on a disk as a reference for kernel/common/bsfs/bsfs.c: inodes by their number, the
-- entries of a directory in order, and a path as the list of its names.
use pristine.Bsfs.{
  u32, max_directblocks, max_direntname, sizeof_inode, sizeof_dirent, little_endian, BsfsInode,
  inode_at, BsfsContext,
}
use pristine.Strings.{Bytes}
use pristine.Bsfs.Open.{slash}
use pristine.Common.{
  ℕ, zero, suc, ◌+◌, ◌*◌, ◌/◌, ◌%◌, ◌^◌, ◌<◌, ◌≡◌, ◌≢◌, Bool, ◌&&◌, Option, none, some, List, [],
  ◌∷◌, leb, ◌==◌, ◌!=◌, if◌then◌else◌, length,
}

-- Offsets of inodes are taken modulo 2^32.
abbrev pub offset_of_inode : BsfsContext → ℕ → ℕ
offset_of_inode ctx idx =
    u32 (u32 (ctx.header.inode_table_start * ctx.header.block_size) + sizeof_inode * idx)

abbrev pub inode_of : BsfsContext → Bytes → ℕ → BsfsInode
inode_of ctx image idx = inode_at image (offset_of_inode ctx idx)

-- The bytes at an address are a name and a zero.
abbrev pub has_name : Bytes → ℕ → List ℕ → Bool
has_name mem p [] = mem p == 0
has_name mem p (x ∷ xs) = (mem p == x) && has_name mem (p + 1) xs

-- The first of `left` entries from an address on that has a name; an entry with the inode 0 is a free
-- slot.
abbrev pub first_named : ℕ → Bytes → ℕ → List ℕ → Option ℕ
first_named zero image p name = none
first_named (suc left) image p name =
    let rest = first_named left image (p + sizeof_dirent) name in
    let inode = little_endian 4 image p in
    if has_name image (p + 4) name && (inode != 0) then some inode else rest

-- The direct blocks are searched from `b` on; a block 0 is none.
abbrev pub first_in : ℕ → BsfsContext → Bytes → BsfsInode → ℕ → List ℕ → Option ℕ
first_in zero ctx image inode b name = none
first_in (suc left) ctx image inode b name =
    let block_size = ctx.header.block_size in
    let block = inode.blocks_direct b in
    let rest = first_in left ctx image inode (b + 1) name in
    let here = first_named (block_size / sizeof_dirent) image (block * block_size) name in
    if block == 0 then rest else elim here [ some k ↦ some k | none ↦ rest ]

abbrev pub lookup : BsfsContext → Bytes → ℕ → List ℕ → Option ℕ
lookup ctx image current name =
    if leb max_direntname (length name)
    then none
    else first_in max_directblocks ctx image (inode_of ctx image current) 0 name

abbrev pub walk : BsfsContext → Bytes → ℕ → List (List ℕ) → Option ℕ
walk ctx image current [] = some current
walk ctx image current (name ∷ names) = elim (lookup ctx image current name) [
  | none ↦ none
  | some next ↦ walk ctx image next names
]

abbrev pub with_first : ℕ → List (List ℕ) → List (List ℕ)
with_first x [] = (x ∷ []) ∷ []
with_first x (name ∷ names) = (x ∷ name) ∷ names

-- The names between the slashes; nothing after the last slash is no name.
abbrev pub names_of : List ℕ → List (List ℕ)
names_of [] = []
names_of (x ∷ xs) = if x == slash then [] ∷ names_of xs else with_first x (names_of xs)

-- A sector holds whole inodes, and so does the space before the table; a block holds whole entries.
pub record Placed (ctx : BsfsContext) (image : Bytes) : Type 0 where
  pub sectors : ctx.phys_sector_size % sizeof_inode ≡ 0
  pub table : (ctx.header.inode_table_start * ctx.header.block_size) % sizeof_inode ≡ 0
  pub byte : (a : ℕ) → image a < 256

-- A directory with direct blocks that begin below 2^32 and with free slots that have no name.
abbrev pub IsDirectory : BsfsContext → Bytes → BsfsInode → Type 0
IsDirectory ctx image inode =
    ((b : ℕ) → inode.blocks_direct b * ctx.header.block_size < 2 ^ 32)
    × ((b d : ℕ)
        → inode.blocks_direct b ≢ 0
        → d < ctx.header.block_size / sizeof_dirent
        → little_endian 4 image (inode.blocks_direct b * ctx.header.block_size + d * sizeof_dirent)
          ≡ 0
        → image (inode.blocks_direct b * ctx.header.block_size + d * sizeof_dirent + 4) ≡ 0)

-- The names are not empty, and the walk along them looks for each in a directory.
abbrev pub IsRoute : BsfsContext → Bytes → ℕ → List (List ℕ) → Type 0
IsRoute ctx image current [] = Unit
IsRoute ctx image current (name ∷ names) =
    (0 < length name)
    × IsDirectory ctx image (inode_of ctx image current)
    × ((next : ℕ) → lookup ctx image current name ≡ some next → IsRoute ctx image next names)
