-- ===== src/Bsfs/Session.antt =====
-- kernel/common/bsfs/bsfs.c: a file from `bsfs_fopen` on: what is open, and where it stands.
use pristine.Bitmap.{uint32_max}
use pristine.Bsfs.Fread.{fread_end_lem}
use pristine.Bsfs.Blocks.{SameFile}
use pristine.Bsfs.Read.{fread_end, fread_finish, fread, Whence, fseeko_target, fseeko}
use pristine.Bsfs.Handle.{StepOut, fread_blocks-StepOut, InFile}
use pristine.Bsfs.Open.{fopen_checks}
use pristine.Common.{
  ℕ, ◌+◌, ◌-◌, ◌*◌, ◌%◌, ◌^◌, ◌≤◌, ◌<◌, ◌≡◌, refl, inl, inr, false, Option, none, some, arith, ltb,
  leb, ◌!=◌, Bool-cases,
}
use pristine.Bsfs.{
  u32, disk_read_max_blocks, inode_type_file, BsfsError, BsfsInode, BsfsContext, BsfsFile, success,
}

-- A file as `bsfs_fopen` leaves it where it returns 0.
pub record Opened (ctx : BsfsContext) (inode : BsfsInode) (bufsize : ℕ) (file : BsfsFile)
    : Type 0 where
  pub found : file.inode ≡ inode
  pub kind : file.inode.inode_type ≡ inode_type_file
  pub same_bufsize : file.bufsize ≡ bufsize
  pub whole : bufsize % ctx.header.block_size ≡ 0
  pub room : ctx.header.block_size ≤ bufsize
  pub start : file.position ≡ 0
  pub running : file.eof ≡ false
  pub no_block : file.cached_block ≡ uint32_max
  pub no_table : file.cached_l1 ≡ uint32_max

-- A successful result is none of the errors.
fopen_checks-Opened :
    (ctx : BsfsContext) (file : BsfsFile)
    → (fopen_checks ctx file).1 ≡ success 0
    → Opened ctx file.inode file.bufsize (fopen_checks ctx file).0
unfolding fopen_checks
fopen_checks-Opened ctx file fine = elim (Bool-cases (file.inode.inode_type != inode_type_file)) [
  | inl other ↦ absurd (cc (rw other at fine))
  | inr kind ↦ elim (Bool-cases (ltb file.bufsize ctx.header.block_size)) [
    | inl small ↦ absurd (cc (rw (kind, small) at fine))
    | inr room ↦ elim (Bool-cases (file.bufsize % ctx.header.block_size != 0)) [
      | inl odd ↦ absurd (cc (rw (kind, room, odd) at fine))
      | inr whole ↦
          rw (kind, room, whole)
            record {
              found = refl;
              kind = ground (arith, kind);
              same_bufsize = refl;
              whole = ground (arith, whole);
              room = ground (arith, room);
              start = refl;
              running = refl;
              no_block = refl;
              no_table = refl;
            }
    ]
  ]
]

fseeko-InFile :
    (file : BsfsFile) (offset : ℕ) (whence : Whence) → InFile (fseeko file offset whence)
unfolding fseeko
fseeko-InFile file offset whence =
    elim (Bool-cases (leb file.inode.size (fseeko_target file offset whence))) [
      | inl past ↦ rw past (omega arith, λ e. omega arith)
      | inr before ↦ rw before (ground (arith, before), λ e. absurd (cc e))
    ]

InFile-same : (file after : BsfsFile) → SameFile file after → InFile file → InFile after
InFile-same file after same inside = rw (same.0, same.2, same.3) inside

fread_finish-InFile :
    (ctx : BsfsContext) (end_offset total : ℕ) (file : BsfsFile)
    (step : BsfsFile × Option BsfsError)
    → StepOut file step
    → end_offset ≤ file.inode.size
    → InFile file
    → InFile (fread_finish ctx end_offset total step).0
unfolding fread_finish
fread_finish-InFile ctx end_offset total file (after, some e) out fits inside =
    InFile-same file after out.0 inside
fread_finish-InFile ctx end_offset total file (after, none) out fits inside =
    (rw (out.0.0) fits, λ e. ground (arith, e))

-- Where the bytes end: at the old position, or at the end that was computed.
fread-InFile :
    (ctx : BsfsContext) (size count : ℕ) (file : BsfsFile)
    → file.inode.size < 2 ^ 32
    → file.position + size * count < 2 ^ 32
    → InFile file
    → InFile (fread ctx size count file).0
unfolding fread
fread-InFile ctx size count file small request inside =
    let end_offset = fread_end size count file in
    let fits : end_offset ≤ file.inode.size =
      rw (fread_end_lem size count file inside.0 request small) (ground (arith, inside.0)) in
    let total = u32 (end_offset + 2 ^ 32 - u32 file.position) in
    elim (Bool-cases (ltb (u32 (disk_read_max_blocks * ctx.phys_sector_size)) total)) [
      | inl over ↦ rw over inside
      | inr done ↦ rw done (
          fread_finish-InFile ctx end_offset total file _ (fread_blocks-StepOut ctx _ _ 0 file) fits
            inside)
    ]

-- `bsfs_fseeko` and `bsfs_fopen` give a position inside the file, whatever the file was, the offset
-- and the way to seek, and so does `bsfs_fread` on a file below 4 GiB that has one, where the end of
-- the request does not pass 2^32. It does so where it fails too.
pub position-InFile :
    (ctx : BsfsContext) (file : BsfsFile)
    → ((offset : ℕ) (whence : Whence) → InFile (fseeko file offset whence))
      × ((fopen_checks ctx file).1 ≡ success 0 → InFile (fopen_checks ctx file).0)
      × ((size count : ℕ)
          → file.inode.size < 2 ^ 32
          → file.position + size * count < 2 ^ 32
          → InFile file
          → InFile (fread ctx size count file).0)
position-InFile ctx file = (seek, opened, read)
  where
    seek : (offset : ℕ) (whence : Whence) → InFile (fseeko file offset whence)
    seek offset whence = fseeko-InFile file offset whence

    opened : (fopen_checks ctx file).1 ≡ success 0 → InFile (fopen_checks ctx file).0
    opened fine =
        let o = fopen_checks-Opened ctx file fine in
        (rw o.start (omega arith), λ e. absurd (cc (e, o.running)))

    read :
        (size count : ℕ)
        → file.inode.size < 2 ^ 32
        → file.position + size * count < 2 ^ 32
        → InFile file
        → InFile (fread ctx size count file).0
    read size count small request inside = fread-InFile ctx size count file small request inside
