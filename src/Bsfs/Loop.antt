-- ===== src/Bsfs/Loop.antt =====
-- kernel/common/bsfs/bsfs.c: the loop of `bsfs_fread` over blocks puts the bytes of the file into the
-- buffer, and writes nothing else there.
use pristine.Bsfs.Image.{Served, Geometry, block_of, reach, Addressable}
use pristine.Bsfs.Read.{fread_block, fread_blocks}
use pristine.Bsfs.{BsfsError, BsfsContext, BsfsFile}
use native.Mathlib.Nat.{suc-mul}
use pristine.Bsfs.Blocks.{Loaded, Ahead, Held, SameFile, BlockIn, fread_block-BlockIn}
use pristine.Strings.{Bytes}
use pristine.Common.{
  ℕ, zero, suc, ◌+◌, ◌*◌, ◌^◌, ◌≤◌, ◌<◌, ◌≡◌, refl, ap, ◌∙◌, ◌⊎◌, inl, inr, Option, none, arith,
}

module _ (ctx : BsfsContext) (image : Bytes) (geometry : Geometry ctx)
    (served : Served ctx image) where
  -- After `left` rounds from block `i`: the blocks are in the buffer, one after the other.
  abbrev pub BlocksIn : ℕ → ℕ → ℕ → BsfsFile → BsfsFile × Option BsfsError → Type 0
  BlocksIn left i offset before result =
      (result.1 ≡ none)
      × SameFile before result.0
      × ((0 < left) ⊎ Ahead before i (reach ctx) → Ahead result.0 (i + left) (reach ctx))
      × Loaded ctx image result.0
      × ((j k : ℕ)
          → j < left
          → k < ctx.header.block_size
          → result.0.buf (offset + j * ctx.header.block_size + k)
            ≡ image (block_of ctx image before.inode (i + j) * ctx.header.block_size + k))
      × ((k : ℕ)
          → (k < offset) ⊎ (offset + left * ctx.header.block_size ≤ k)
          → result.0.buf k ≡ before.buf k)

  -- One block, and the others after it.
  BlocksIn-first :
      (left i offset : ℕ) (file : BsfsFile) (step : BsfsFile × Option BsfsError)
      (rest : BsfsFile × Option BsfsError)
      → BlockIn ctx image (block_of ctx image file.inode i) i offset file step
      → BlocksIn left (i + 1) (offset + ctx.header.block_size) step.0 rest
      → BlocksIn (suc left) i offset file rest
  BlocksIn-first left i offset file step rest one others =
      let (i0, i1, i2, i3) = others.1 in
      let (j0, j1, j2, j3) = one.1 in
      let size = ctx.header.block_size in
      let grown : suc left * size ≡ size + left * size = omega (arith, suc-mul left size) in
      (
        others.0,
        (i0 ∙ j0, i1 ∙ j1, i2 ∙ j2, i3 ∙ j3),
        (λ h j from below.
            others.2 (inr (λ j' from' below' e. absurd (omega (arith, e, one.2, from')))) j
              (omega arith) below),
        others.3,
        bytes,
        λ k out. others.5 k (omega (arith, out, grown)) ∙ one.5 k (omega (arith, out, grown)),
      )
    where
      bytes :
          (j k : ℕ)
          → j < suc left
          → k < ctx.header.block_size
          → rest.0.buf (offset + j * ctx.header.block_size + k)
            ≡ image (block_of ctx image file.inode (i + j) * ctx.header.block_size + k)
      bytes zero k lt inside =
          let place : offset + 0 * ctx.header.block_size + k ≡ offset + k = omega arith in
          let same : i + 0 ≡ i = omega arith in
          rw (place, same) (others.5 (offset + k) (omega arith) ∙ one.4 k inside)
      bytes (suc j) k lt inside =
          let size = ctx.header.block_size in
          let place : offset + suc j * size + k ≡ offset + size + j * size + k =
            omega (arith, suc-mul j size) in
          let same : i + suc j ≡ i + 1 + j = omega arith in
          rw (place, same)
            (others.4 j k (omega arith) inside
              ∙ ap (λ f. image (block_of ctx image f (i + 1 + j) * size + k)) one.1.0)

  -- A run of the loop over blocks that the table reaches, of which the first may be cached if the
  -- buffer holds it.
  pub fread_blocks-BlocksIn :
      (left i offset : ℕ) (file : BsfsFile)
      → i + left ≤ reach ctx
      → reach ctx < 2 ^ 32
      → Held ctx image file i offset
      → Addressable ctx image file.inode (i + left)
      → Loaded ctx image file
      → BlocksIn left i offset file (fread_blocks ctx left i offset file)
  unfolding fread_blocks
  fread_blocks-BlocksIn zero i offset file inside small held fits loaded = (
    refl,
    (refl, refl, refl, refl),
    (λ h j from below. elim h [
      | inl some_left ↦ absurd (omega (arith, some_left))
      | inr ahead ↦ ahead j (omega arith) below
    ]),
    loaded,
    (λ j k lt. absurd (omega arith)),
    λ k out. refl,
  )
  fread_blocks-BlocksIn (suc left) i offset file inside small held fits loaded =
      let step = fread_block ctx i offset file in
      let one =
        fread_block-BlockIn ctx image geometry served i offset file (omega arith) small held
          ((λ far. fits.0 (omega arith)), λ j lt. fits.1 j (omega arith)) loaded in
      let rest =
        fread_blocks-BlocksIn left (i + 1) (offset + ctx.header.block_size) step.0 (omega arith)
          small (λ e k lt. absurd (omega (arith, e, one.2)))
          (rw one.1.0 ((λ far. fits.0 (omega arith)), λ j lt. fits.1 j (omega arith))) one.3 in
      rw (fread_blocks, one.0)
        (BlocksIn-first left i offset file step
          (fread_blocks ctx left (i + 1) (offset + ctx.header.block_size) step.0) one rest)
