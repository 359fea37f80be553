-- ===== src/Bsfs/Handle.antt =====
-- kernel/common/bsfs/bsfs.c: an open file through `bsfs_fopen`, `bsfs_fread` and `bsfs_fseeko`, with
-- their errors.
use pristine.Bitmap.{uint32_max}
use pristine.Strings.{Bytes}
use pristine.Bsfs.Read.{
  lba_of_block, fread_data, load_l1, fread_indirect, fread_block, fread_blocks, fread_end,
  fread_finish, fread,
}
use pristine.Bsfs.Blocks.{SameFile}
use pristine.Common.{
  ℕ, zero, suc, ◌+◌, ◌-◌, ◌*◌, ◌/◌, ◌^◌, ◌≤◌, ◌≡◌, refl, sym, ap, ◌∙◌, ◌⊎◌, inl, inr, true, Option,
  none, some, List, ltb, leb, ◌==◌, Bool-cases, Option-cases, length,
}
use pristine.Bsfs.{
  u32, max_directblocks, disk_read_max_blocks, BsfsError, fread_file_too_big, fread_disk_read_error,
  fread_size_too_big, little_endian, BsfsInode, BsfsContext, BsfsFile, bytes_of, BsfsResult,
  success, failure,
}

-- The errors of a read of blocks.
abbrev pub IsReadError : Option BsfsError → Type 0
IsReadError none = Unit
IsReadError (some e) = (e ≡ fread_file_too_big) ⊎ (e ≡ fread_disk_read_error)

-- A read of blocks moves nothing, and fails in these ways only.
abbrev pub StepOut : BsfsFile → BsfsFile × Option BsfsError → Type 0
StepOut before result = SameFile before result.0 × IsReadError result.1

same_file : (file : BsfsFile) → SameFile file file
same_file file = (refl, refl, refl, refl)

same_then : (a b c : BsfsFile) → SameFile a b → SameFile b c → SameFile a c
same_then a b c p q = (q.0 ∙ p.0, q.1 ∙ p.1, q.2 ∙ p.2, q.3 ∙ p.3)

fread_data-StepOut :
    (ctx : BsfsContext) (block i offset : ℕ) (file : BsfsFile)
    → StepOut file (fread_data ctx block i offset file)
unfolding fread_data
fread_data-StepOut ctx block i offset file =
    elim (Bool-cases
      (ctx.disk_read (lba_of_block ctx block) (ctx.header.block_size / ctx.phys_sector_size)).0) [
        | inl ok ↦ rw ok (same_file file, tt)
        | inr bad ↦ rw bad (same_file file, inr refl)
      ]

load_l1-StepOut : (ctx : BsfsContext) (file : BsfsFile) → StepOut file (load_l1 ctx file)
unfolding load_l1
load_l1-StepOut ctx file = elim (Bool-cases (file.cached_l1 == uint32_max)) [
  | inr cached ↦ rw cached (same_file file, tt)
  | inl fresh ↦
      elim (Bool-cases
        (ctx.disk_read (lba_of_block ctx file.inode.blocks_l1indirect)
          (ctx.header.block_size / ctx.phys_sector_size)).0) [
            | inl ok ↦ rw (fresh, ok) (same_file file, tt)
            | inr bad ↦ rw (fresh, bad) (same_file file, inr refl)
          ]
]

fread_indirect-StepOut :
    (i offset : ℕ) (ctx : BsfsContext) (file : BsfsFile) (step : BsfsFile × Option BsfsError)
    → StepOut file step
    → StepOut file (fread_indirect i offset ctx step)
unfolding fread_indirect
fread_indirect-StepOut i offset ctx file (after, some e) out = out
fread_indirect-StepOut i offset ctx file (after, none) out =
    let read =
      fread_data-StepOut ctx (little_endian 4 after.l1_table (4 * (i - max_directblocks))) i offset
        after in
    (
      same_then file after
          (fread_data ctx (little_endian 4 after.l1_table (4 * (i - max_directblocks))) i offset
            after).0
          out.0 read.0,
      read.1,
    )

fread_block-StepOut :
    (ctx : BsfsContext) (i offset : ℕ) (file : BsfsFile)
    → StepOut file (fread_block ctx i offset file)
unfolding fread_block
fread_block-StepOut ctx i offset file =
    let data_read = fread_data-StepOut ctx (file.inode.blocks_direct i) i offset file in
    let table_read =
      fread_indirect-StepOut i offset ctx file (load_l1 ctx file) (load_l1-StepOut ctx file) in
    elim (Bool-cases (i == file.cached_block)) [
      | inl cached ↦ rw cached (same_file file, tt)
      | inr fresh ↦ elim (Bool-cases (ltb i max_directblocks)) [
        | inl direct ↦ rw (fresh, direct) data_read
        | inr indirect ↦
            elim (Bool-cases (ltb i (u32 (max_directblocks + ctx.header.block_size / 4)))) [
              | inl near ↦ rw (fresh, indirect, near) table_read
              | inr far ↦ rw (fresh, indirect, far) (same_file file, inl refl)
            ]
      ]
    ]

pub fread_blocks-StepOut :
    (ctx : BsfsContext) (left i offset : ℕ) (file : BsfsFile)
    → StepOut file (fread_blocks ctx left i offset file)
unfolding fread_blocks
fread_blocks-StepOut ctx zero i offset file = (same_file file, tt)
fread_blocks-StepOut ctx (suc left) i offset file =
    let step = fread_block ctx i offset file in
    let one = fread_block-StepOut ctx i offset file in
    let rest = fread_blocks-StepOut ctx left (i + 1) (offset + ctx.header.block_size) step.0 in
    elim (Option-cases step.1) [
      | inl fine ↦
          rw (fread_blocks, fine)
            (
              same_then file step.0
                  (fread_blocks ctx left (i + 1) (offset + ctx.header.block_size) step.0).0 one.0
                  rest.0,
              rest.1,
            )
      | inr (e, failed) ↦ rw (fread_blocks, failed) one
    ]

-- The position is inside the file, and at the end of it where the end is reported.
abbrev pub InFile : BsfsFile → Type 0
InFile file =
    (file.position ≤ file.inode.size) × (file.eof ≡ true → file.inode.size ≤ file.position)

-- What `bsfs_fread` does to a file: an error leaves the position, the end mark and the inode, and is
-- one of three; otherwise the file stays as it is but for the position, which the chunk follows.
abbrev pub ReadOut : BsfsFile → BsfsFile → BsfsResult (List ℕ) → Type 0
ReadOut before after (failure e) =
    SameFile before after × ((e ≡ fread_size_too_big) ⊎ IsReadError (some e))
ReadOut before after (success chunk) =
    (after.inode ≡ before.inode)
    × (after.bufsize ≡ before.bufsize)
    × (u32 (after.position + 2 ^ 32 - u32 before.position) ≡ length chunk)
    × (after.eof ≡ leb before.inode.size after.position)

length-bytes_of : (mem : Bytes) (p n : ℕ) → length (bytes_of mem p n) ≡ n
unfolding bytes_of
length-bytes_of mem p zero = refl
length-bytes_of mem p (suc n) = ap suc (length-bytes_of mem (p + 1) n)

fread_finish-ReadOut :
    (ctx : BsfsContext) (end_offset : ℕ) (file : BsfsFile) (step : BsfsFile × Option BsfsError)
    → StepOut file step
    → let result =
        fread_finish ctx end_offset (u32 (end_offset + 2 ^ 32 - u32 file.position)) step in
      ReadOut file result.0 result.1
unfolding fread_finish
fread_finish-ReadOut ctx end_offset file (after, some e) out = (out.0, inr out.1)
fread_finish-ReadOut ctx end_offset file (after, none) out = (
  out.0.0,
  out.0.1,
  sym (length-bytes_of after.buf _ _),
  ap (λ (i : BsfsInode). leb i.size end_offset) out.0.0,
)

-- Whatever the disk does, `bsfs_fread` either fails with one of its three errors and leaves the
-- position, the end mark, the inode and the size of the buffer as they were, or it gives as many bytes
-- as the position moves by, modulo 2^32, and reports the end exactly where the position reaches the
-- size of the file.
pub fread-ReadOut :
    (ctx : BsfsContext) (size count : ℕ) (file : BsfsFile)
    → ReadOut file (fread ctx size count file).0 (fread ctx size count file).1
unfolding fread
fread-ReadOut ctx size count file =
    let end_offset = fread_end size count file in
    let total = u32 (end_offset + 2 ^ 32 - u32 file.position) in
    elim (Bool-cases (ltb (u32 (disk_read_max_blocks * ctx.phys_sector_size)) total)) [
      | inl over ↦ rw over (same_file file, inl refl)
      | inr fits ↦
          rw fits (fread_finish-ReadOut ctx end_offset file _ (fread_blocks-StepOut ctx _ _ 0 file))
    ]
