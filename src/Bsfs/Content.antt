-- ===== src/Bsfs/Content.antt =====
-- kernel/common/bsfs/bsfs.c: the bytes that `bsfs_fread` gives, and those that it writes.
use pristine.Bsfs.Image.{Served, Geometry, block_of, byte_of, reach}
use pristine.Bsfs.Blocks.{Loaded, Ahead}
use pristine.Bsfs.Read.{fread_blocks, fread_finish, fread}
use pristine.Bsfs.Fread.{
  fread_total, Readable, first_block_of, end_block_of, blocks_ordered, fread-run, run-BlocksIn,
}
use pristine.Bsfs.{u32, BsfsInode, BsfsContext, BsfsFile, bytes_of, BsfsResult, success}
use native.Mathlib.Nat.{
  mul-le-mul_right, add-mul, div-add-mod, mod-lt, div-mul-le_self, div-lt_iff_lt-mul,
  le-div_iff_mul-le, mul_comm,
}
use pristine.Strings.{Bytes}
use pristine.Common.{
  ℕ, zero, suc, ◌+◌, ◌-◌, ◌*◌, ◌/◌, ◌%◌, ◌≤◌, ◌<◌, ◌≡◌, refl, sym, ap, ◌∙◌, inl, inr, List, arith,
  leb,
}

bytes_of_ext :
    (n : ℕ) (f g : Bytes) (p q : ℕ)
    → ((k : ℕ) → k < n → f (p + k) ≡ g (q + k))
    → bytes_of f p n ≡ bytes_of g q n
unfolding bytes_of
bytes_of_ext zero f g p q same = refl
bytes_of_ext (suc n) f g p q same =
    let first : p + 0 ≡ p = omega arith in
    let first' : q + 0 ≡ q = omega arith in
    let here : f p ≡ g q = cc (ap f first, ap g first', same 0 (omega arith)) in
    let rest = bytes_of_ext n f g (p + 1) (q + 1) λ k lt.
      let e : p + 1 + k ≡ p + suc k = omega arith in
      let e' : q + 1 + k ≡ q + suc k = omega arith in rw (e, e') (same (suc k) (omega arith)) in
    rw (here, rest) refl

-- The bytes given are those of the file from the position on, and the file stands after them.
pub record FreadOut (ctx : BsfsContext) (image : Bytes) (total : ℕ) (file : BsfsFile)
    (result : BsfsFile × BsfsResult (List ℕ)) : Type 0 where
  pub bytes : result.1 ≡ success (bytes_of (byte_of ctx image file.inode) file.position total)
  pub same_inode : result.0.inode ≡ file.inode
  pub same_bufsize : result.0.bufsize ≡ file.bufsize
  pub moved : result.0.position ≡ file.position + total
  pub at_end : result.0.eof ≡ leb file.inode.size (file.position + total)
  pub ahead :
      0 < total
      → Ahead result.0
          ((file.position + total + ctx.header.block_size - 1) / ctx.header.block_size)
          (reach ctx)
  pub loaded : Loaded ctx image result.0

module _ (ctx : BsfsContext) (image : Bytes) (geometry : Geometry ctx) where
  -- Block `start + j` of the file holds the byte that stands `j` blocks into the buffer.
  in_buffer :
      (start position k : ℕ) (inode : BsfsInode) (buf : Bytes) (left : ℕ)
      → position / ctx.header.block_size ≡ start
      → (position + k) / ctx.header.block_size < start + left
      → ((j m : ℕ)
          → j < left
          → m < ctx.header.block_size
          → buf (0 + j * ctx.header.block_size + m)
            ≡ image (block_of ctx image inode (start + j) * ctx.header.block_size + m))
      → buf (position % ctx.header.block_size + k) ≡ byte_of ctx image inode (position + k)
  in_buffer start position k inode buf left at inside filled =
      let size = ctx.header.block_size in
      let block = (position + k) / size in
      let whole = div-add-mod (position + k) size in
      let parts : size * start + position % size ≡ position =
        ap (λ s. size * s + position % size) (sym at) ∙ div-add-mod position size in
      let not_before : start ≤ block =
        (le-div_iff_mul-le geometry.0).1 (omega (arith, parts, mul_comm size start)) in
      let split : start + (block - start) ≡ block = omega (arith, not_before) in
      let apart : block * size ≡ start * size + (block - start) * size =
        ap (λ n. n * size) (sym split) ∙ add-mul start (block - start) size in
      let place : position % size + k ≡ 0 + (block - start) * size + (position + k) % size =
        omega (arith, whole, parts, apart, mul_comm size block, mul_comm size start) in
      ap buf place
      ∙ filled (block - start) ((position + k) % size) (omega (arith, inside, not_before))
          (mod-lt (position + k) geometry.0)
      ∙ ap (λ b. image (block_of ctx image inode b * size + (position + k) % size)) split

  -- A byte of the range stands in one of these blocks.
  block_before :
      (position total k : ℕ)
      → k < total
      → (position + k) / ctx.header.block_size
        < (position + total + ctx.header.block_size - 1) / ctx.header.block_size
  block_before position total k lt =
      let size = ctx.header.block_size in
      let block = (position + k) / size in
      let one_more : (block + 1) * size ≡ block * size + size =
        omega (arith, add-mul block 1 size) in
      let next : block + 1 ≤ (position + total + size - 1) / size =
        (le-div_iff_mul-le geometry.0).1
          (omega (arith, div-mul-le_self (position + k) size, one_more, lt)) in
      omega (arith, next)

  -- Whole blocks from a block boundary on take no more than the buffer.
  buffer_blocks :
      (position total bufsize : ℕ)
      → position % ctx.header.block_size ≡ 0
      → bufsize % ctx.header.block_size ≡ 0
      → total ≤ bufsize
      → ((position + total + ctx.header.block_size - 1) / ctx.header.block_size
            - position / ctx.header.block_size)
          * ctx.header.block_size
        ≤ bufsize
  buffer_blocks position total bufsize aligned whole within =
      let size = ctx.header.block_size in
      let first = position / size in
      let room = bufsize / size in
      let sum : (first + room + 1) * size ≡ first * size + room * size + size =
        add-mul (first + room) 1 size ∙ omega (arith, add-mul first room size) in
      let parts = div-add-mod position size in
      let parts' = div-add-mod bufsize size in
      let below : (position + total + size - 1) / size < first + room + 1 =
        (div-lt_iff_lt-mul geometry.0).1 (
          omega (
            arith,
            sum,
            parts,
            parts',
            aligned,
            whole,
            within,
            geometry.0,
            mul_comm size first,
            mul_comm size room,
          )) in
      let fewer : (position + total + size - 1) / size - first ≤ room = omega (arith, below) in
      omega (arith, mul-le-mul_right size fewer, parts', whole, mul_comm size room)

  module _ (served : Served ctx image) where
    -- On a disk that answers every read, `bsfs_fread` gives the bytes of the file from the position
    -- on: as many as are asked for, as fit into the buffer and as the file has; the file then
    -- stands after them. The file is to be within the reach of the direct blocks and the first
    -- table, its own blocks and, where it has more than the direct ones, its table are to begin
    -- below 2^32 bytes, the end of the request and the size of the file with a block are to be
    -- below 2^32, and the bytes not more than one read of the disk, which is below 2^32 bytes, as
    -- is the number of blocks within reach. The position is to lie in the file, and a block to be
    -- of whole sectors. If the block of the position is the cached one, it is to stand at the start
    -- of the buffer, and a cached table is to be that of the file.
    pub fread-FreadOut :
        (size count : ℕ) (file : BsfsFile)
        → Readable ctx image size count file
        → FreadOut ctx image (fread_total size count file) file (fread ctx size count file)
    unfolding fread_finish
    fread-FreadOut size count file readable =
        let block_size = ctx.header.block_size in
        let total = fread_total size count file in
        let position = file.position in
        let start : u32 position ≡ position = omega (arith, readable.request) in
        let first = first_block_of ctx file in
        let last = end_block_of ctx total file in
        let (ordered, reached) = blocks_ordered ctx image geometry size count file readable in
        let here : (position + 0) / block_size ≡ first = ap (λ p. p / block_size) (omega arith) in
        let span : first + (last - first) ≡ last = omega (arith, ordered) in
        let run = run-BlocksIn ctx image geometry size count file served readable in
        let after = (fread_blocks ctx (last - first) first 0 file).0 in
        let offset : u32 after.position % block_size ≡ position % block_size =
          ap (λ p. u32 p % block_size) run.1.2 ∙ ap (λ p. p % block_size) start in
        let same : bytes_of after.buf (position % block_size) total
            ≡ bytes_of (byte_of ctx image file.inode) position total =
          bytes_of_ext total after.buf (byte_of ctx image file.inode) (position % block_size)
            position
            λ k lt.
              in_buffer first position k file.inode after.buf (last - first) refl
                (omega (arith, block_before position total k lt, span)) run.4 in
        rw (fread-run ctx image geometry size count file readable, run.0)
          record {
            bytes = ap (λ o. success (bytes_of after.buf o total)) offset ∙ ap success same;
            same_inode = run.1.0;
            same_bufsize = run.1.1;
            moved = refl;
            at_end = ap (λ (i : BsfsInode). leb i.size (position + total)) run.1.0;
            ahead = λ some_bytes j from below.
                run.2 (inl (omega (arith, block_before position total 0 some_bytes, here))) j
                  (omega (arith, from, span)) below;
            loaded = run.3;
          }

    -- From a block boundary, and with a buffer of whole blocks, `bsfs_fread` writes nothing past
    -- the end of the buffer. The disk is to answer every read, and the file and the request are to
    -- be as for the bytes that are given: within the reach of the first table, with own blocks and,
    -- if needed, a table that begin below 2^32, with a position in the file, an end below 2^32 and,
    -- with a block, a size below 2^32, of not more bytes than one read of the disk, which is below
    -- 2^32 bytes, as is the number of blocks within reach, with blocks of whole sectors, and with
    -- the block of the position, if it is cached, at the start of the buffer.
    pub fread_in_buffer :
        (size count : ℕ) (file : BsfsFile)
        → Readable ctx image size count file
        → file.position % ctx.header.block_size ≡ 0
        → file.bufsize % ctx.header.block_size ≡ 0
        → (k : ℕ) → file.bufsize ≤ k
        → (fread ctx size count file).0.buf k ≡ file.buf k
    unfolding fread_finish
    fread_in_buffer size count file readable aligned whole k past =
        let block_size = ctx.header.block_size in
        let run = run-BlocksIn ctx image geometry size count file served readable in
        let total = fread_total size count file in
        let within : total ≤ file.bufsize = ground arith in
        let bound = buffer_blocks file.position total file.bufsize aligned whole within in
        rw (fread-run ctx image geometry size count file readable, run.0)
          (run.5 k (inr (omega (arith, bound, past))))
