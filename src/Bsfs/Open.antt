-- ===== src/Bsfs/Open.antt =====
-- kernel/common/bsfs/bsfs.c: `bsfs_resolve_path`, `bsfs_read_inode`, `bsfs_fopen` and
-- `bsfs_strerror`. A path is an array of bytes with a zero after it; `fuel` is for `strlen` and is
-- to be more than the length of the path. A byte 47 is `/`.
use pristine.Bitmap.{uint32_max}
use pristine.Bsfs.Read.{lba_of_block}
use pristine.Strings.{Bytes, strlen, strcmp}
use pristine.Common.{
  ℕ, zero, suc, ◌+◌, ◌-◌, ◌*◌, ◌/◌, ◌%◌, Bool, false, Option, none, some, ltb, leb, ◌==◌, ◌!=◌,
  if◌then◌else◌, length, update,
}
use pristine.Bsfs.{
  u32, max_directblocks, max_direntname, sizeof_inode, sizeof_dirent, inode_type_file,
  fopen_not_a_file, disk_read_error, fopen_buf_too_small, fopen_buf_unaligned, BsfsInode, inode_at,
  BsfsDirent, dirent_at, BsfsContext, BsfsFile, BsfsResult, success, failure,
}

abbrev pub slash : ℕ
slash = 47

unfoldable pub read_inode : BsfsContext → ℕ → BsfsResult BsfsInode
read_inode ctx inode_idx =
    let sector_size = ctx.phys_sector_size in
    let inode_offset =
      u32 (u32 (ctx.header.inode_table_start * ctx.header.block_size) + sizeof_inode * inode_idx) in
    let got = ctx.disk_read (inode_offset / sector_size) 1 in
    if got.0
    then success (inode_at got.1 (inode_offset % sector_size / sizeof_inode * sizeof_inode))
    else failure disk_read_error

-- The inner loop at `path[i]` with `left` bytes to go: where it stops, the length of the name and the
-- name; `none` where the name is too long.
unfoldable pub next_name : ℕ → Bytes → ℕ → ℕ → Bytes → Option (ℕ × ℕ × Bytes)
next_name zero path i len name = some (i, len, name)
next_name (suc left) path i len name =
    let rest = next_name left path (i + 1) (len + 1) (update name len (path i)) in
    if path i == slash
    then some (i, len, name)
    else if leb (max_direntname - 1) len
    then none
    else rest

-- Two arrays of `max_direntname` bytes, one after the other, for `strcmp`.
unfoldable pub beside : Bytes → Bytes → Bytes
beside a b k = if ltb k max_direntname then a k else b (k - max_direntname)

unfoldable pub same_name : BsfsDirent → Bytes → Bool
same_name dirent name = strcmp max_direntname (beside dirent.name name) 0 max_direntname == 0

-- The loop over the entries of a block at entry `d`, with `left` to go: the inode that is found.
unfoldable pub find_dirent : ℕ → Bytes → ℕ → Bytes → Option ℕ
find_dirent zero scratch d name = none
find_dirent (suc left) scratch d name =
    let dirent = dirent_at scratch (d * sizeof_dirent) in
    let rest = find_dirent left scratch (d + 1) name in
    if same_name dirent name then some dirent.inode else rest

-- The loop over the direct blocks at block `b`, with `left` to go. An error is a read that fails.
unfoldable pub find_in_blocks : ℕ → BsfsContext → BsfsInode → ℕ → Bytes → BsfsResult (Option ℕ)
find_in_blocks zero ctx inode b name = success none
find_in_blocks (suc left) ctx inode b name =
    let block = inode.blocks_direct b in
    let sectors = ctx.header.block_size / ctx.phys_sector_size in
    let got = ctx.disk_read (lba_of_block ctx block) sectors in
    let rest = find_in_blocks left ctx inode (b + 1) name in
    let found = find_dirent (ctx.header.block_size / sizeof_dirent) got.1 0 name in
    if block == 0
    then rest
    else if got.0
    then elim found [ some k ↦ success (some k) | none ↦ rest ]
    else failure disk_read_error

-- One name of the path from a directory; `none` where the function returns `UINT32_MAX`.
unfoldable pub step_into : BsfsContext → ℕ → Bytes → Option ℕ
step_into ctx current name = elim (read_inode ctx current) [
  | failure e ↦ none
  | success inode ↦ elim (find_in_blocks max_directblocks ctx inode 0 name) [
    | failure e ↦ none
    | success found ↦ found
  ]
]

-- The outer loop at `path[i]`; a round goes at least one byte on.
unfoldable pub resolve_loop : ℕ → BsfsContext → Bytes → ℕ → ℕ → ℕ → Option ℕ
resolve_loop zero ctx path length i current = some current
resolve_loop (suc fuel) ctx path length i current =
    if ltb i length
    then elim (next_name (length - i) path i 0 (λ k. 0)) [
      | none ↦ none
      | some (j, len, name) ↦ elim (step_into ctx current (update name len 0)) [
        | none ↦ none
        | some next ↦ resolve_loop fuel ctx path length (j + 1) next
      ]
    ]
    else some current

unfoldable pub or_uint32_max : Option ℕ → ℕ
or_uint32_max none = uint32_max
or_uint32_max (some n) = n

unfoldable pub resolve_path : ℕ → BsfsContext → Bytes → ℕ
resolve_path fuel ctx path =
    let length = strlen fuel path 0 in
    if length == 0
    then uint32_max
    else if path 0 != slash
    then uint32_max
    else or_uint32_max (resolve_loop length ctx path length 1 ctx.header.root_inode)

-- The checks of `bsfs_fopen` after the inode is read.
unfoldable pub fopen_checks : BsfsContext → BsfsFile → BsfsFile × BsfsResult ℕ
fopen_checks ctx file =
    if file.inode.inode_type != inode_type_file
    then (file, failure fopen_not_a_file)
    else if ltb file.bufsize ctx.header.block_size
    then (file, failure fopen_buf_too_small)
    else if file.bufsize % ctx.header.block_size != 0
    then (file, failure fopen_buf_unaligned)
    else (
      record file {
        position = 0;
        eof = false;
        cached_block = uint32_max;
        cached_l1 = uint32_max;
        cached_l2 = uint32_max;
        cached_l3 = uint32_max;
      },
      success 0,
    )

unfoldable pub fopen : ℕ → BsfsContext → Bytes → BsfsFile → BsfsFile × BsfsResult ℕ
fopen fuel ctx path file =
    let inode_idx = resolve_path fuel ctx path in
    if inode_idx == uint32_max
    then (file, failure fopen_not_a_file)
    else elim (read_inode ctx inode_idx) [
      | failure e ↦ (file, failure disk_read_error)
      | success inode ↦ fopen_checks ctx (record file { inode = inode })
    ]
