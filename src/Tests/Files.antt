-- ===== src/Tests/Files.antt =====
-- A disk with one directory and one file of 200 bytes in two blocks, for the reader of
-- kernel/common/bsfs/bsfs.c: the root is inode 1, and `/a` is inode 2.
use pristine.Bitmap.{uint32_max}
use pristine.Bsfs.Fread.{fread_total, Readable}
use pristine.Bsfs.Handle.{InFile, ReadOut, fread-ReadOut}
use pristine.Bsfs.Content.{FreadOut, fread-FreadOut, fread_in_buffer}
use pristine.Bsfs.Session.{position-InFile}
use pristine.Bsfs.Open.{fopen_checks}
use pristine.Bsfs.Read.{fread, Whence, fseeko}
use pristine.Bsfs.Image.{Served, Geometry, file_blocks, Addressable}
use pristine.Strings.{Bytes}
use pristine.Common.{
  ℕ, ◌+◌, ◌*◌, ◌%◌, ◌^◌, ◌≤◌, ◌<◌, ◌≡◌, refl, ◌≢◌, inl, true, false, arith, dec_lt, ltb, ◌==◌,
  if◌then◌else◌, lt→ltb,
}
use pristine.Bsfs.{little_endian, inode_at, BsfsContext, BsfsFile, success}
use pristine.Bsfs.Tree.{offset_of_inode, inode_of}

abbrev disk : Bytes
disk x =
    if x == 307
    then 4
    else if x == 384
    then 1
    else if x == 395
    then 200
    else if x == 435
    then 5
    else if x == 439
    then 6
    else if x == 512
    then 2
    else if x == 516
    then 97
    else if x == 740
    then 7
    else if x == 768
    then 9
    else 0

abbrev context : BsfsContext
context = record {
  header = record { block_size = 128; inode_table_start = 1; root_inode = 1 };
  disk_read = λ lba count. (true, λ k. disk (lba * 128 + k));
  phys_sector_size = 128;
}

abbrev path : Bytes
path x = if x == 0 then 47 else if x == 1 then 97 else 0

-- The bytes where inodes have the numbers of their blocks.
low : (x : ℕ) → x % 4 ≡ 3 → 51 ≤ x % 128 → disk x ≤ 6
low x fourth at = ground arith

high : (x : ℕ) → x % 4 ≢ 3 → 51 ≤ x % 128 → x % 128 < 91 → disk x ≡ 0
high x other at below = ground arith

context-Served : Served context disk
context-Served lba count = (refl, λ k lt. refl)

context-Geometry : Geometry context
context-Geometry = (omega arith, omega arith, refl)

number_small :
    (p : ℕ) → p % 4 ≡ 3 → 51 ≤ p % 128 → p % 128 < 91 → little_endian 4 disk p * 128 < 2 ^ 32
unfolding little_endian
number_small p fourth at below = omega (
  arith,
  low p fourth at,
  high (p + 1) (λ e. absurd (omega arith)) (omega arith) (omega arith),
  high (p + 1 + 1) (λ e. absurd (omega arith)) (omega arith) (omega arith),
  high (p + 1 + 1 + 1) (λ e. absurd (omega arith)) (omega arith) (omega arith),
)

direct_small : (idx b : ℕ) → (inode_of context disk idx).blocks_direct b * 128 < 2 ^ 32
unfolding inode_at
direct_small idx b = elim (dec_lt b 10) [
  | yes direct ↦
      rw (inode_at, lt→ltb b 10 direct)
        (number_small (offset_of_inode context idx + 51 + 4 * b) (omega arith) (omega arith)
          (omega arith))
  | no other ↦ let test : ltb b 10 ≡ false = ground arith in rw (inode_at, test) (omega arith)
]

-- The file as it is open, at a position, with a buffer of one block or two.
abbrev opened_at : ℕ → ℕ → BsfsFile
opened_at position bufsize = record {
  inode = inode_of context disk 2;
  inode_null = false;
  buf = λ k. 0;
  bufsize = bufsize;
  position = position;
  cached_block = uint32_max;
  l1_table = λ k. 0;
  cached_l1 = uint32_max;
  cached_l2 = uint32_max;
  cached_l3 = uint32_max;
  eof = false;
}

file_size : (inode_of context disk 2).size ≡ 200
unfolding inode_at little_endian
file_size = refl

file-Addressable :
    Addressable context disk
      (inode_of context disk 2)
      (file_blocks context (inode_of context disk 2))
file-Addressable = (
  (λ far. absurd (omega (arith, far, file_size))),
  λ i lt.
      let direct : ltb i 10 ≡ true = lt→ltb i 10 (omega (arith, lt, file_size)) in
      rw direct (direct_small 2 i),
)

opened-Readable :
    (position bufsize count : ℕ)
    → position ≤ 200
    → count ≤ 1024
    → Readable context disk 1 count (opened_at position bufsize)
opened-Readable position bufsize count inside few = record {
  inside = rw file_size inside;
  request = omega arith;
  rounding = rw file_size (omega arith);
  sectors = ground arith;
  sector = omega arith;
  reached = rw file_size (omega arith);
  small = omega arith;
  held = λ e k lt. absurd (omega arith);
  fits = file-Addressable;
  loaded = inl refl;
}

fread-FreadOut_example :
    FreadOut context disk
      (fread_total 1 50 (opened_at 100 256))
      (opened_at 100 256)
      (fread context 1 50 (opened_at 100 256))
fread-FreadOut_example =
    fread-FreadOut context disk context-Geometry context-Served 1 50 (opened_at 100 256)
      (opened-Readable 100 256 50 (omega arith) (omega arith))

fread_in_buffer_example : (fread context 1 128 (opened_at 128 128)).0.buf 128 ≡ 0
fread_in_buffer_example =
    fread_in_buffer context disk context-Geometry context-Served 1 128 (opened_at 128 128)
      (opened-Readable 128 128 128 (omega arith) (omega arith)) refl refl 128 (omega arith)

fread-ReadOut_example :
    ReadOut
      (opened_at 100 256)
      (fread context 1 50 (opened_at 100 256)).0
      (fread context 1 50 (opened_at 100 256)).1
fread-ReadOut_example = fread-ReadOut context 1 50 (opened_at 100 256)

position-InFile_example :
    ((offset : ℕ) (whence : Whence) → InFile (fseeko (opened_at 0 128) offset whence))
    × ((fopen_checks context (opened_at 0 128)).1 ≡ success 0
        → InFile (fopen_checks context (opened_at 0 128)).0)
    × ((size count : ℕ)
        → (inode_of context disk 2).size < 2 ^ 32
        → 0 + size * count < 2 ^ 32
        → InFile (opened_at 0 128)
        → InFile (fread context size count (opened_at 0 128)).0)
position-InFile_example = position-InFile context (opened_at 0 128)
