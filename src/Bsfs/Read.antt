-- ===== src/Bsfs/Read.antt =====
-- kernel/common/bsfs/bsfs.c: `bsfs_fread`, `bsfs_fseeko`, `bsfs_fclose` and `bsfs_verify_checksum`.
-- A `uint32_t` is a number below 2^32, and its arithmetic is taken modulo 2^32.
use pristine.Bitmap.{uint32_max}
use pristine.Common.{
  ℕ, zero, suc, ◌+◌, ◌-◌, ◌*◌, ◌/◌, ◌%◌, ◌^◌, true, false, Option, none, some, List, ltb, leb, ◌==◌,
  if◌then◌else◌,
}
use pristine.Bsfs.{
  u32, max_directblocks, disk_read_max_blocks, BsfsError, fread_file_too_big, fread_disk_read_error,
  fread_size_too_big, checksum_failed, little_endian, BsfsContext, BsfsFile, fill, bytes_of,
  BsfsResult, success, failure,
}
use pristine.Checksum.{crc32_start, crc32_update, crc32_finalize}

-- `block * block_size / phys_sector_size`
unfoldable pub lba_of_block : BsfsContext → ℕ → ℕ
lba_of_block ctx block = u32 (block * ctx.header.block_size) / ctx.phys_sector_size

-- A read of one block into the buffer at `offset`; block `i` of the file is cached where it succeeds.
unfoldable pub fread_data : BsfsContext → ℕ → ℕ → ℕ → BsfsFile → BsfsFile × Option BsfsError
fread_data ctx block i offset file =
    let sectors_per_block = ctx.header.block_size / ctx.phys_sector_size in
    let got = ctx.disk_read (lba_of_block ctx block) sectors_per_block in
    let after = fill file.buf offset (sectors_per_block * ctx.phys_sector_size) got.1 in
    if got.0
    then (record file { buf = after; cached_block = i }, none)
    else (record file { buf = after }, some fread_disk_read_error)

-- The table of indirect blocks, read where it is not cached.
unfoldable pub load_l1 : BsfsContext → BsfsFile → BsfsFile × Option BsfsError
load_l1 ctx file =
    let sectors_per_block = ctx.header.block_size / ctx.phys_sector_size in
    let l1 = file.inode.blocks_l1indirect in
    let got = ctx.disk_read (lba_of_block ctx l1) sectors_per_block in
    let table = fill file.l1_table 0 (sectors_per_block * ctx.phys_sector_size) got.1 in
    if file.cached_l1 == uint32_max
    then if got.0
      then (record file { l1_table = table; cached_l1 = l1 }, none)
      else (record file { l1_table = table }, some fread_disk_read_error)
    else (file, none)

unfoldable pub fread_indirect :
    ℕ → ℕ → BsfsContext → BsfsFile × Option BsfsError → BsfsFile × Option BsfsError
fread_indirect i offset ctx (file, some e) = (file, some e)
fread_indirect i offset ctx (file, none) =
    fread_data ctx (little_endian 4 file.l1_table (4 * (i - max_directblocks))) i offset file

-- The body of the loop of `bsfs_fread` for block `i`.
unfoldable pub fread_block : BsfsContext → ℕ → ℕ → BsfsFile → BsfsFile × Option BsfsError
fread_block ctx i offset file =
    let l2_indirect_start = u32 (max_directblocks + ctx.header.block_size / 4) in
    if i == file.cached_block
    then (file, none)
    else if ltb i max_directblocks
    then fread_data ctx (file.inode.blocks_direct i) i offset file
    else if ltb i l2_indirect_start
    then fread_indirect i offset ctx (load_l1 ctx file)
    else (file, some fread_file_too_big)

-- The loop with `left` rounds to go, at block `i` and at `offset` of the buffer.
unfoldable pub fread_blocks : BsfsContext → ℕ → ℕ → ℕ → BsfsFile → BsfsFile × Option BsfsError
fread_blocks ctx zero i offset file = (file, none)
fread_blocks ctx (suc left) i offset file =
    let step = fread_block ctx i offset file in
    elim step.1 [
      | none ↦ fread_blocks ctx left (i + 1) (offset + ctx.header.block_size) step.0
      | some e ↦ step
    ]

-- `end_offset` after the two conditions on it, as an offset from the start: the bytes to read.
unfoldable pub fread_end : ℕ → ℕ → BsfsFile → ℕ
fread_end size count file =
    let start_offset = u32 file.position in
    let asked = u32 (start_offset + u32 (size * count)) in
    let in_file = if ltb file.inode.size asked then u32 file.inode.size else asked in
    if ltb file.bufsize (u32 (in_file + 2 ^ 32 - start_offset))
    then u32 (start_offset + file.bufsize)
    else in_file

unfoldable pub fread_finish :
    BsfsContext → ℕ → ℕ → BsfsFile × Option BsfsError → BsfsFile × BsfsResult (List ℕ)
fread_finish ctx end_offset total (file, some e) = (file, failure e)
fread_finish ctx end_offset total (file, none) =
    let offset_in_buf = u32 file.position % ctx.header.block_size in
    (
      record file { position = end_offset; eof = leb file.inode.size end_offset },
      success (bytes_of file.buf offset_in_buf total),
    )

-- The bytes are those copied to `ptr`; what the C function returns is their number.
unfoldable pub fread : BsfsContext → ℕ → ℕ → BsfsFile → BsfsFile × BsfsResult (List ℕ)
fread ctx size count file =
    let block_size = ctx.header.block_size in
    let start_offset = u32 file.position in
    let end_offset = fread_end size count file in
    let total = u32 (end_offset + 2 ^ 32 - start_offset) in
    let start_block = start_offset / block_size in
    let end_block = u32 (end_offset + block_size + 2 ^ 32 - 1) / block_size in
    if ltb (u32 (disk_read_max_blocks * ctx.phys_sector_size)) total
    then (file, failure fread_size_too_big)
    else fread_finish ctx end_offset total
        (fread_blocks ctx (end_block - start_block) start_block 0 file)

pub data Whence : Type 0 where
  seek_set seek_cur seek_end : Whence

-- The new position before it is cut to the size of the file; a `uint64_t`.
unfoldable pub fseeko_target : BsfsFile → ℕ → Whence → ℕ
fseeko_target file offset seek_cur = (file.position + offset) % 2 ^ 64
fseeko_target file offset seek_set = offset
fseeko_target file offset seek_end = (file.inode.size + 2 ^ 64 - offset) % 2 ^ 64

unfoldable pub fseeko : BsfsFile → ℕ → Whence → BsfsFile
fseeko file offset whence =
    let target = fseeko_target file offset whence in
    if leb file.inode.size target
    then record file { position = file.inode.size; eof = true }
    else record file { position = target; eof = false }

unfoldable pub fclose : BsfsFile → BsfsFile
fclose file = record file { inode_null = true; position = 2 ^ 64 - 1 }

-- The loop of `bsfs_verify_checksum`; `none` where the fuel runs out.
unfoldable pub checksum_loop : ℕ → BsfsContext → ℕ → ℕ → BsfsFile → Option (BsfsFile × BsfsResult ℕ)
checksum_loop zero ctx bufsize sum file = none
checksum_loop (suc fuel) ctx bufsize sum file = elim file.eof [
  | true ↦ some (file, success sum)
  | false ↦
      let step = fread ctx 1 bufsize file in
      elim step.1 [
        | failure e ↦ some (step.0, failure e)
        | success chunk ↦ checksum_loop fuel ctx bufsize (crc32_update sum chunk) step.0
      ]
]

unfoldable pub checksum_finish : Option (BsfsFile × BsfsResult ℕ) → Option (BsfsFile × BsfsResult ℕ)
checksum_finish none = none
checksum_finish (some (file, failure e)) = some (file, failure e)
checksum_finish (some (file, success sum)) =
    if crc32_finalize sum == file.inode.checksum
    then some (file, success 1)
    else some (file, failure checksum_failed)

-- `bufsize` is a `size_t`, passed on as a `uint32_t`.
unfoldable pub verify_checksum : ℕ → BsfsContext → ℕ → BsfsFile → Option (BsfsFile × BsfsResult ℕ)
verify_checksum fuel ctx bufsize file =
    checksum_finish (checksum_loop fuel ctx (u32 bufsize) crc32_start file)
