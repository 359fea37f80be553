-- ===== src/Bsfs/Blocks.antt =====
-- kernel/common/bsfs/bsfs.c: one round of the loop of `bsfs_fread` puts the bytes of a block into the
-- buffer, and writes nothing else there.
use pristine.Bitmap.{uint32_max}
use pristine.Bsfs.Image.{
  Served, Geometry, block_of, reach, Addressable, little_endian_ext, lba_of_block-byte, fill_inside,
  fill_outside, fill_start,
}
use pristine.Bsfs.{u32, max_directblocks, BsfsError, little_endian, BsfsContext, BsfsFile, fill}
use pristine.Bsfs.Read.{lba_of_block, fread_data, load_l1, fread_indirect, fread_block}
use pristine.Strings.{Bytes}
use pristine.Common.{
  ℕ, ◌+◌, ◌-◌, ◌*◌, ◌/◌, ◌^◌, ◌≤◌, ◌<◌, ◌≡◌, refl, sym, ap, ◌∙◌, ◌≢◌, ◌⊎◌, inl, inr, true, false,
  Option, none, some, arith, dec_lt, ℕ_discrete, ltb, ◌==◌, lt→ltb, ==-ne,
}

-- The cached table of indirect blocks is the one on the disk.
abbrev pub Loaded : BsfsContext → Bytes → BsfsFile → Type 0
Loaded ctx image file =
    (file.cached_l1 ≡ uint32_max)
    ⊎ ((k : ℕ)
        → k < ctx.header.block_size
        → file.l1_table k ≡ image (file.inode.blocks_l1indirect * ctx.header.block_size + k))

-- The blocks from `i` on and below `limit` are not cached.
abbrev pub Ahead : BsfsFile → ℕ → ℕ → Type 0
Ahead file i limit = (j : ℕ) → i ≤ j → j < limit → j ≢ file.cached_block

-- Where block `i` is the cached one, the buffer holds it at `offset`.
abbrev pub Held : BsfsContext → Bytes → BsfsFile → ℕ → ℕ → Type 0
Held ctx image file i offset =
    i ≡ file.cached_block
    → (k : ℕ) → k < ctx.header.block_size
    → file.buf (offset + k) ≡ image (block_of ctx image file.inode i * ctx.header.block_size + k)

-- What the reads of blocks leave as it is.
abbrev pub SameFile : BsfsFile → BsfsFile → Type 0
SameFile before after =
    (after.inode ≡ before.inode)
    × (after.bufsize ≡ before.bufsize)
    × (after.position ≡ before.position)
    × (after.eof ≡ before.eof)

-- A read of data that begin at `block` for block `i` into the buffer at `offset`.
abbrev pub BlockIn :
    BsfsContext → Bytes → ℕ → ℕ → ℕ → BsfsFile → BsfsFile × Option BsfsError → Type 0
BlockIn ctx image block i offset before result =
    (result.1 ≡ none)
    × SameFile before result.0
    × (result.0.cached_block ≡ i)
    × Loaded ctx image result.0
    × ((k : ℕ)
        → k < ctx.header.block_size
        → result.0.buf (offset + k) ≡ image (block * ctx.header.block_size + k))
    × ((k : ℕ)
        → (k < offset) ⊎ (offset + ctx.header.block_size ≤ k)
        → result.0.buf k ≡ before.buf k)

module _ (ctx : BsfsContext) (image : Bytes) (geometry : Geometry ctx)
    (served : Served ctx image) where
  fread_data-BlockIn :
      (block i offset : ℕ) (file : BsfsFile)
      → block * ctx.header.block_size < 2 ^ 32
      → Loaded ctx image file
      → BlockIn ctx image block i offset file (fread_data ctx block i offset file)
  unfolding fread_data
  fread_data-BlockIn block i offset file fits loaded =
      let sectors = ctx.header.block_size / ctx.phys_sector_size in
      let (ok, same) = served (lba_of_block ctx block) sectors in
      let src = (ctx.disk_read (lba_of_block ctx block) sectors).1 in
      rw (ok, geometry.2)
        (
          refl,
          (refl, refl, refl, refl),
          refl,
          loaded,
          (λ k lt.
              fill_inside file.buf offset ctx.header.block_size src k lt
              ∙ same k (rw geometry.2 lt)
              ∙ ap (λ b. image (b + k)) (lba_of_block-byte ctx block geometry fits)),
          λ k out. fill_outside file.buf offset ctx.header.block_size src k out,
        )

  -- The table is in memory after `load_l1`, and the buffer is as it was.
  abbrev TableIn : BsfsFile → BsfsFile × Option BsfsError → Type 0
  TableIn before result =
      (result.1 ≡ none)
      × SameFile before result.0
      × (result.0.cached_block ≡ before.cached_block)
      × (result.0.buf ≡ before.buf)
      × Loaded ctx image result.0
      × ((k : ℕ)
          → k < ctx.header.block_size
          → result.0.l1_table k
            ≡ image (before.inode.blocks_l1indirect * ctx.header.block_size + k))

  load_l1-TableIn :
      (file : BsfsFile)
      → file.inode.blocks_l1indirect * ctx.header.block_size < 2 ^ 32
      → Loaded ctx image file
      → TableIn file (load_l1 ctx file)
  unfolding load_l1
  load_l1-TableIn file fits loaded =
      let sectors = ctx.header.block_size / ctx.phys_sector_size in
      let l1 = file.inode.blocks_l1indirect in
      let (ok, same) = served (lba_of_block ctx l1) sectors in
      let src = (ctx.disk_read (lba_of_block ctx l1) sectors).1 in
      let table : (k : ℕ)
          → k < ctx.header.block_size
          → fill file.l1_table 0 ctx.header.block_size src k
            ≡ image (l1 * ctx.header.block_size + k) =
        λ k lt.
          fill_start file.l1_table ctx.header.block_size src k lt
          ∙ same k (rw geometry.2 lt)
          ∙ ap (λ b. image (b + k)) (lba_of_block-byte ctx l1 geometry fits) in
      elim (ℕ_discrete file.cached_l1 uint32_max) [
        | yes fresh ↦
            rw (fresh, ok, geometry.2)
              (refl, (refl, refl, refl, refl), refl, refl, inr table, table)
        | no cached ↦ rw (==-ne file.cached_l1 uint32_max cached) (
          refl,
          (refl, refl, refl, refl),
          refl,
          refl,
          loaded,
          elim loaded [ inl e ↦ absurd (cached e) | inr known ↦ known ],
        )
      ]

  fread_indirect-BlockIn :
      (i offset : ℕ) (file : BsfsFile) (step : BsfsFile × Option BsfsError)
      → TableIn file step
      → max_directblocks ≤ i
      → i < reach ctx
      → block_of ctx image file.inode i * ctx.header.block_size < 2 ^ 32
      → BlockIn ctx image
          (block_of ctx image file.inode i)
          i
          offset
          file
          (fread_indirect i offset ctx step)
  unfolding fread_indirect
  fread_indirect-BlockIn i offset file (after, some e) table past inside fits =
      absurd (cc (table.0))
  fread_indirect-BlockIn i offset file (after, none) table past inside fits =
      let direct : ltb i max_directblocks ≡ false = ground arith in
      let block : little_endian 4 after.l1_table (4 * (i - max_directblocks))
          ≡ block_of ctx image file.inode i =
        rw direct (
          little_endian_ext 4 after.l1_table image _ _ λ k lt.
            let place : file.inode.blocks_l1indirect * ctx.header.block_size
                  + 4 * (i - max_directblocks)
                  + k
                ≡ file.inode.blocks_l1indirect * ctx.header.block_size
                  + (4 * (i - max_directblocks) + k) =
              omega arith in
            rw place (table.5 (4 * (i - max_directblocks) + k) (omega arith))) in
      let (done, (i0, i1, i2, i3), cached, loaded, now, other) =
        fread_data-BlockIn (block_of ctx image file.inode i) i offset after fits table.4 in
      let (same, size, position, eof) = table.1 in
      rw block (
        done,
        (i0 ∙ same, i1 ∙ size, i2 ∙ position, i3 ∙ eof),
        cached,
        loaded,
        now,
        λ k out. other k out ∙ ap (λ (b : Bytes). b k) table.3,
      )

  -- A block that is not cached.
  fread_block-fresh :
      (i offset : ℕ) (file : BsfsFile)
      → i < reach ctx
      → reach ctx < 2 ^ 32
      → i ≢ file.cached_block
      → Addressable ctx image file.inode (i + 1)
      → Loaded ctx image file
      → BlockIn ctx image
          (block_of ctx image file.inode i)
          i
          offset
          file
          (fread_block ctx i offset file)
  unfolding fread_block
  fread_block-fresh i offset file inside small fresh fits loaded =
      let limit : u32 (reach ctx) ≡ reach ctx = omega arith in
      elim (dec_lt i max_directblocks) [
        | yes direct ↦
            let test = lt→ltb i max_directblocks direct in
            let block : file.inode.blocks_direct i ≡ block_of ctx image file.inode i =
              rw test refl in
            let step : fread_block ctx i offset file
                ≡ fread_data ctx (file.inode.blocks_direct i) i offset file =
              rw (==-ne i file.cached_block fresh, test) refl in
            rw (step ∙ ap (λ b. fread_data ctx b i offset file) block) (
              fread_data-BlockIn (block_of ctx image file.inode i) i offset file
                (fits.1 i (omega arith)) loaded)
        | no indirect ↦
            let test : ltb i max_directblocks ≡ false = ground arith in
            let step : fread_block ctx i offset file
                ≡ fread_indirect i offset ctx (load_l1 ctx file) =
              rw (==-ne i file.cached_block fresh, test, limit, lt→ltb i (reach ctx) inside) refl in
            rw step (
              fread_indirect-BlockIn i offset file (load_l1 ctx file)
                (load_l1-TableIn file (fits.0 (omega arith)) loaded) (omega arith) inside
                (fits.1 i (omega arith)))
      ]

  pub fread_block-BlockIn :
      (i offset : ℕ) (file : BsfsFile)
      → i < reach ctx
      → reach ctx < 2 ^ 32
      → Held ctx image file i offset
      → Addressable ctx image file.inode (i + 1)
      → Loaded ctx image file
      → BlockIn ctx image
          (block_of ctx image file.inode i)
          i
          offset
          file
          (fread_block ctx i offset file)
  unfolding fread_block
  fread_block-BlockIn i offset file inside small held fits loaded =
      elim (ℕ_discrete i file.cached_block) [
        | yes cached ↦
            let test : (i == file.cached_block) ≡ true = ground (arith, cached) in
            let step : fread_block ctx i offset file ≡ (file, none) = rw test refl in
            rw step (refl, (refl, refl, refl, refl), sym cached, loaded, held cached, λ k out. refl)
        | no fresh ↦ fread_block-fresh i offset file inside small fresh fits loaded
      ]
