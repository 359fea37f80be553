-- ===== src/Bsfs/Checked.antt =====
-- kernel/common/bsfs/bsfs.c: `bsfs_verify_checksum` compares the checksum of the whole file.
use pristine.Bsfs.Image.{Served, Geometry, byte_of}
use pristine.Bsfs.Read.{checksum_loop, checksum_finish, verify_checksum}
use pristine.Bsfs.Verify.{Verifiable, Sums, rest_of, checksum_loop-Sums}
use pristine.Bsfs.{
  u32, checksum_failed, BsfsInode, BsfsContext, BsfsFile, bytes_of, BsfsResult, success, failure,
}
use pristine.Checksum.{crc32_start, crc32_update, crc32_finalize, crc32}
use pristine.Strings.{Bytes}
use pristine.Common.{
  ℕ, suc, ◌*◌, ◌≤◌, ◌≡◌, refl, ap, subst, Bool, true, false, Option, none, some, List, arith, ◌==◌,
  if◌then◌else◌,
}

-- The bytes of a whole file.
abbrev pub file_bytes : BsfsContext → Bytes → BsfsInode → List ℕ
file_bytes ctx image inode = bytes_of (byte_of ctx image inode) 0 inode.size

-- What the checksum of a file says.
abbrev pub verdict : BsfsContext → Bytes → BsfsInode → BsfsResult ℕ
verdict ctx image inode =
    if crc32 (file_bytes ctx image inode) == inode.checksum
    then success 1
    else failure checksum_failed

abbrev pub Gives : BsfsResult ℕ → Option (BsfsFile × BsfsResult ℕ) → Type 0
Gives result none = ⊥
Gives result (some (after, given)) = given ≡ result

crc32_update_whole :
    (input : List ℕ) → crc32_finalize (crc32_update crc32_start input) ≡ crc32 input
unfolding crc32_finalize crc32_update crc32
crc32_update_whole input = refl

verdict-Gives :
    (ctx : BsfsContext) (image : Bytes) (geometry : Geometry ctx) (file : BsfsFile)
    (o : Option (BsfsFile × BsfsResult ℕ))
    → Sums ctx image geometry file (crc32_update crc32_start (file_bytes ctx image file.inode)) o
    → Gives (verdict ctx image file.inode) (checksum_finish o)
unfolding checksum_finish
verdict-Gives ctx image geometry file none s = s
verdict-Gives ctx image geometry file (some (after, failure e)) s = absurd (cc (s.1))
verdict-Gives ctx image geometry file (some (after, success sum)) s =
    let e : sum ≡ crc32_update crc32_start (file_bytes ctx image file.inode) = cc (s.1) in
    let test : (crc32 (file_bytes ctx image file.inode) == file.inode.checksum)
        ≡ (crc32_finalize sum == after.inode.checksum) =
      rw (e, s.0, crc32_update_whole (file_bytes ctx image file.inode)) refl in
    rw test (either (crc32_finalize sum == after.inode.checksum))
  where
    either :
        (t : Bool)
        → Gives
            (if t then success 1 else failure checksum_failed)
            (if t then some (after, success 1) else some (after, failure checksum_failed))
    either true = refl
    either false = refl

-- From the start of a file, with a buffer of whole blocks, `bsfs_verify_checksum` returns 1 where the
-- CRC-32 of all the bytes of the file is the one in its inode, and `BSFS_CHECKSUM_FAILED` where it is
-- not. It ends with fuel for two rounds more than there are buffers in the file. The disk is to
-- answer every read, the file to be one that `Verifiable` describes.
pub verify_checksum-Gives :
    (ctx : BsfsContext) (image : Bytes) (rounds bufsize : ℕ) (file : BsfsFile)
    → Geometry ctx
    → Served ctx image
    → Verifiable ctx image bufsize file
    → file.position ≡ 0
    → file.eof ≡ false
    → file.inode.size ≤ rounds * bufsize
    → Gives (verdict ctx image file.inode) (verify_checksum (suc (suc rounds)) ctx bufsize file)
unfolding verify_checksum
verify_checksum-Gives ctx image rounds bufsize file geometry served v start running enough =
    let narrow : u32 bufsize ≡ bufsize = omega (arith, v.sectors, v.sector) in
    let sums =
      checksum_loop-Sums ctx image geometry served rounds bufsize crc32_start file running v
        (omega (arith, start, enough)) in
    let whole : rest_of ctx image geometry file ≡ file_bytes ctx image file.inode =
      rw start (ap (bytes_of (byte_of ctx image file.inode) 0) (omega arith)) in
    rw narrow (
      verdict-Gives ctx image geometry file
        (checksum_loop (suc (suc rounds)) ctx bufsize crc32_start file)
        (subst
          (λ l.
            Sums ctx image geometry file (crc32_update crc32_start l)
              (checksum_loop (suc (suc rounds)) ctx bufsize crc32_start file))
          whole sums))
