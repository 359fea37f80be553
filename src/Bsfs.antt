-- ===== src/Bsfs.antt =====
-- include/common/bsfs/bsfs.h, bsfs_ops.h and disk.h: the structures of the file system on a disk, as
-- the reader of kernel/common/bsfs/bsfs.c uses them. A structure is read from its bytes, which are
-- packed and little-endian. The disk operations are a parameter: for a sector and a number of
-- sectors, whether the read succeeds and the bytes that it leaves in the buffer.
pub mod Blocks
pub mod Loop
pub mod Names
pub mod Pieces
pub mod Fread
pub mod Image
pub mod Open
pub mod Read
pub mod Tree
pub mod Entries
pub mod Path
pub mod Verify
pub mod Content
pub mod Session
pub mod Handle
pub mod Checked
use pristine.Common.{
  ℕ, zero, suc, ◌+◌, ◌-◌, ◌*◌, ◌%◌, ◌^◌, Bool, ◌&&◌, List, [], ◌∷◌, ltb, leb, if◌then◌else◌,
}
use pristine.Strings.{Bytes}

abbrev pub u32 : ℕ → ℕ
u32 x = x % 2 ^ 32

abbrev pub max_directblocks : ℕ
max_directblocks = 10

abbrev pub max_direntname : ℕ
max_direntname = 124

abbrev pub disk_read_max_blocks : ℕ
disk_read_max_blocks = 8

abbrev pub sizeof_inode : ℕ
sizeof_inode = 128

abbrev pub sizeof_dirent : ℕ
sizeof_dirent = 128

abbrev pub inode_type_directory : ℕ
inode_type_directory = 2

abbrev pub inode_type_file : ℕ
inode_type_file = 1

-- `BSFS_ERRORS`; the codes are negative, and `error_code` is their absolute value.
pub data BsfsError : Type 0 where
  fopen_file_notfound fopen_not_a_file disk_read_error fread_file_too_big : BsfsError
  fopen_buf_too_small fopen_buf_unaligned fread_disk_read_error : BsfsError
  fread_size_too_big fread_buf_too_small checksum_failed : BsfsError

unfoldable pub error_code : BsfsError → ℕ
error_code fopen_file_notfound = 1
error_code fopen_not_a_file = 2
error_code disk_read_error = 3
error_code fread_file_too_big = 4
error_code fopen_buf_too_small = 5
error_code fopen_buf_unaligned = 6
error_code fread_disk_read_error = 7
error_code fread_size_too_big = 8
error_code fread_buf_too_small = 9
error_code checksum_failed = 10

-- A little-endian number of `n` bytes at an address.
unfoldable pub little_endian : ℕ → Bytes → ℕ → ℕ
little_endian zero mem p = 0
little_endian (suc n) mem p = mem p + 256 * little_endian n mem (p + 1)

-- The fields of `BsfsHeader` that the reader uses.
pub record BsfsHeader : Type 0 where
  pub block_size : ℕ
  pub inode_table_start : ℕ
  pub root_inode : ℕ

pub record BsfsInode : Type 0 where
  pub inode_type : ℕ
  pub permissions : ℕ
  pub uid : ℕ
  pub gid : ℕ
  pub size : ℕ
  pub blocks : ℕ
  pub created : ℕ
  pub modified : ℕ
  pub accessed : ℕ
  pub link_count : ℕ
  pub blocks_direct : ℕ → ℕ
  pub blocks_l1indirect : ℕ
  pub blocks_l2indirect : ℕ
  pub blocks_l3indirect : ℕ
  pub checksum : ℕ

-- `((BsfsInode*)p)[0]`
unfoldable pub inode_at : Bytes → ℕ → BsfsInode
inode_at mem p = record {
  inode_type = mem p;
  permissions = little_endian 2 mem (p + 1);
  uid = little_endian 4 mem (p + 3);
  gid = little_endian 4 mem (p + 7);
  size = little_endian 8 mem (p + 11);
  blocks = little_endian 4 mem (p + 19);
  created = little_endian 8 mem (p + 23);
  modified = little_endian 8 mem (p + 31);
  accessed = little_endian 8 mem (p + 39);
  link_count = little_endian 4 mem (p + 47);
  blocks_direct = λ b. if ltb b max_directblocks then little_endian 4 mem (p + 51 + 4 * b) else 0;
  blocks_l1indirect = little_endian 4 mem (p + 91);
  blocks_l2indirect = little_endian 4 mem (p + 95);
  blocks_l3indirect = little_endian 4 mem (p + 99);
  checksum = little_endian 4 mem (p + 103);
}

-- `name` has `max_direntname` bytes.
pub record BsfsDirent : Type 0 where
  pub inode : ℕ
  pub name : Bytes

-- `((BsfsDirent*)p)[0]`
unfoldable pub dirent_at : Bytes → ℕ → BsfsDirent
dirent_at mem p = record { inode = little_endian 4 mem p; name = λ k. mem (p + 4 + k) }

-- `disk_ops->read`, with the header and the size of a sector. What the scratch buffer holds is the
-- result of the last read of it.
pub record BsfsContext : Type 0 where
  pub header : BsfsHeader
  pub disk_read : ℕ → ℕ → Bool × Bytes
  pub phys_sector_size : ℕ

-- An open file: what `inode` points to and whether it is a null pointer, the buffer and the table of
-- indirect blocks by the places in them. The tables of the second and the third level are never
-- read.
pub record BsfsFile : Type 0 where
  pub inode : BsfsInode
  pub inode_null : Bool
  pub buf : Bytes
  pub bufsize : ℕ
  pub position : ℕ
  pub cached_block : ℕ
  pub l1_table : Bytes
  pub cached_l1 : ℕ
  pub cached_l2 : ℕ
  pub cached_l3 : ℕ
  pub eof : Bool

-- `n` bytes of a source put into a buffer from `offset`.
unfoldable pub fill : Bytes → ℕ → ℕ → Bytes → Bytes
fill buf offset n src k = if leb offset k && ltb k (offset + n) then src (k - offset) else buf k

-- `n` bytes from an address, as a list.
unfoldable pub bytes_of : Bytes → ℕ → ℕ → List ℕ
bytes_of mem p zero = []
bytes_of mem p (suc n) = mem p ∷ bytes_of mem (p + 1) n

-- What a function that returns an `int` gives: a number or list of bytes, or an error.
pub data BsfsResult (A : Type 0) : Type 0 where
  success : A → BsfsResult A
  failure : BsfsError → BsfsResult A
