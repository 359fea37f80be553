-- ===== src/Bsfs/Verify.antt =====
-- kernel/common/bsfs/bsfs.c: the loop of `bsfs_verify_checksum` sums the whole file.
use pristine.Checksum.Laws.{crc32_loop-append}
use pristine.Checksum.{crc32_loop, crc32_update}
use pristine.Bsfs.Read.{fread, checksum_loop}
use pristine.Bsfs.Blocks.{Loaded, Held}
use pristine.Bsfs.{disk_read_max_blocks, BsfsContext, BsfsFile, bytes_of, BsfsResult, success}
use pristine.Bsfs.Fread.{fread_total, Readable}
use pristine.Bsfs.Image.{Served, Geometry, byte_of, reach, file_blocks, Addressable}
use native.Mathlib.Nat.{
  suc-mul, add-mul, add-mod, zero-mod, div-add-mod, div-lt_iff_lt-mul, mul_comm,
}
use pristine.Bsfs.Content.{FreadOut, fread-FreadOut}
use pristine.Strings.{Bytes}
use pristine.Common.{
  ℕ, zero, suc, ◌+◌, ◌-◌, ◌*◌, ◌/◌, ◌%◌, ◌^◌, ◌≤◌, ◌<◌, ◌≡◌, refl, sym, ap, ◌∙◌, true, false,
  Option, none, some, List, ◌++◌, arith, dec_lt,
}

bytes_of-append :
    (f : Bytes) (a p b : ℕ) → bytes_of f p (a + b) ≡ bytes_of f p a ++ bytes_of f (p + a) b
unfolding bytes_of
bytes_of-append f zero p b =
    let count : 0 + b ≡ b = omega arith in
    let place : p + 0 ≡ p = omega arith in rw (count, place) refl
bytes_of-append f (suc a) p b =
    let count : suc a + b ≡ suc (a + b) = omega arith in
    let place : p + suc a ≡ p + 1 + a = omega arith in
    rw (count, place, bytes_of-append f a (p + 1) b) refl

-- A file and a buffer of whole blocks for `bsfs_verify_checksum`: the block at which the file stands
-- is not cached, or stands at the start of the buffer.
pub record Verifiable (ctx : BsfsContext) (image : Bytes) (bufsize : ℕ) (file : BsfsFile)
    : Type 0 where
  pub inside : file.position ≤ file.inode.size
  pub aligned : file.position % ctx.header.block_size ≡ 0
  pub whole : bufsize % ctx.header.block_size ≡ 0
  pub some_bytes : 0 < bufsize
  pub holds : bufsize ≤ file.bufsize
  pub sectors : bufsize ≤ disk_read_max_blocks * ctx.phys_sector_size
  pub sector : disk_read_max_blocks * ctx.phys_sector_size < 2 ^ 32
  pub rounding : file.inode.size + bufsize + ctx.header.block_size < 2 ^ 32
  pub reached : file.inode.size ≤ reach ctx * ctx.header.block_size
  pub small : reach ctx < 2 ^ 32
  pub held : Held ctx image file (file.position / ctx.header.block_size) 0
  pub fits : Addressable ctx image file.inode (file_blocks ctx file.inode)
  pub loaded : Loaded ctx image file

Verifiable-Readable :
    (ctx : BsfsContext) (image : Bytes) (bufsize : ℕ) (file : BsfsFile)
    → Verifiable ctx image bufsize file
    → Readable ctx image 1 bufsize file
Verifiable-Readable ctx image bufsize file v = record {
  inside = v.inside;
  request = omega (arith, v.rounding, v.inside);
  rounding = omega (arith, v.rounding);
  sectors = ground (arith, v.sectors);
  sector = v.sector;
  reached = v.reached;
  small = v.small;
  held = v.held;
  fits = v.fits;
  loaded = v.loaded;
}

whole_sum : (a b n : ℕ) → a % n ≡ 0 → b % n ≡ 0 → (a + b) % n ≡ 0
whole_sum a b n p q = add-mod a b n ∙ rw (p, q) (zero-mod n)

-- At a block boundary the next block is the one that begins there.
round_whole : (x n : ℕ) → 0 < n → x % n ≡ 0 → (x + n - 1) / n ≤ x / n
round_whole x n pos exact =
    let one_more : (x / n + 1) * n ≡ x / n * n + n = omega (arith, add-mul (x / n) 1 n) in
    let parts = div-add-mod x n in
    let below : (x + n - 1) / n < x / n + 1 =
      (div-lt_iff_lt-mul pos).1 (omega (arith, one_more, parts, exact, pos, mul_comm n (x / n))) in
    omega (arith, below)

module _ (ctx : BsfsContext) (image : Bytes) (geometry : Geometry ctx) where
  -- A full buffer is read, and the file is ready for the next.
  Verifiable-next :
      (bufsize : ℕ) (file : BsfsFile) (result : BsfsFile × BsfsResult (List ℕ))
      → Verifiable ctx image bufsize file
      → FreadOut ctx image bufsize file result
      → file.position + bufsize < file.inode.size
      → Verifiable ctx image bufsize result.0
  Verifiable-next bufsize file result v out more =
      let size = ctx.header.block_size in
      let moved = out.moved in
      let inode = out.same_inode in
      let aligned = whole_sum file.position bufsize size v.aligned v.whole in
      let next = round_whole (file.position + bufsize) size geometry.0 aligned in
      record {
        inside = rw (moved, inode) (omega arith);
        aligned = rw moved aligned;
        whole = v.whole;
        some_bytes = v.some_bytes;
        holds = rw (out.same_bufsize) v.holds;
        sectors = v.sectors;
        sector = v.sector;
        rounding = rw inode v.rounding;
        reached = rw inode v.reached;
        small = v.small;
        held = λ e k lt.
            let here : (file.position + bufsize) / size ≡ result.0.cached_block = rw moved at e in
            let below : (file.position + bufsize) / size < reach ctx =
              (div-lt_iff_lt-mul geometry.0).1 (omega (arith, more, v.reached)) in
            absurd (out.ahead v.some_bytes ((file.position + bufsize) / size) next below here);
        fits = rw inode v.fits;
        loaded = out.loaded;
      }

  -- The loop ends with the checksum of all that is left of the file.
  abbrev pub Sums : BsfsFile → ℕ → Option (BsfsFile × BsfsResult ℕ) → Type 0
  Sums file total none = ⊥
  Sums file total (some (after, result)) = (after.inode ≡ file.inode) × (result ≡ success total)

  abbrev pub rest_of : BsfsFile → List ℕ
  rest_of file =
      bytes_of (byte_of ctx image file.inode) file.position (file.inode.size - file.position)

  Sums-same :
      (before file : BsfsFile) (sum total : ℕ) (o : Option (BsfsFile × BsfsResult ℕ))
      → before.inode ≡ file.inode
      → sum ≡ total
      → Sums before sum o
      → Sums file total o
  Sums-same before file sum total none same e s = s
  Sums-same before file sum total (some (after, result)) same e s = (s.0 ∙ same, s.1 ∙ ap success e)

  module _ (served : Served ctx image) where
    -- Where the file is at its end the loop gives the sum that it has.
    checksum_loop_done :
        (fuel bufsize sum : ℕ) (file : BsfsFile)
        → file.eof ≡ true
        → checksum_loop (suc fuel) ctx bufsize sum file ≡ some (file, success sum)
    unfolding checksum_loop
    checksum_loop_done fuel bufsize sum file ended = rw (ended) refl

    -- One round: a chunk is added, and the loop goes on.
    checksum_loop_step :
        (fuel bufsize sum : ℕ) (file : BsfsFile) (chunk : List ℕ)
        → file.eof ≡ false
        → (fread ctx 1 bufsize file).1 ≡ success chunk
        → checksum_loop (suc fuel) ctx bufsize sum file
          ≡ checksum_loop fuel ctx bufsize (crc32_update sum chunk) (fread ctx 1 bufsize file).0
    unfolding checksum_loop
    checksum_loop_step fuel bufsize sum file chunk running got =
        simp (checksum_loop, running, got) refl

    -- The chunk that reaches the end of the file.
    last_round :
        (fuel bufsize sum : ℕ) (file : BsfsFile)
        → file.eof ≡ false
        → Verifiable ctx image bufsize file
        → file.inode.size ≤ file.position + bufsize
        → Sums file
            (crc32_update sum (rest_of file))
            (checksum_loop (suc (suc fuel)) ctx bufsize sum file)
    last_round fuel bufsize sum file running v last =
        let step = fread ctx 1 bufsize file in
        let out =
          fread-FreadOut ctx image geometry served 1 bufsize file
            (Verifiable-Readable ctx image bufsize file v) in
        let total : fread_total 1 bufsize file ≡ file.inode.size - file.position =
          ground (arith, v.inside, v.holds) in
        let ended : step.0.eof ≡ true = out.at_end ∙ rw total (ground (arith, v.inside)) in
        let done =
          checksum_loop_step (suc fuel) bufsize sum file _ running out.bytes
          ∙ checksum_loop_done fuel bufsize _ step.0 ended in
        rw (done, total) (out.same_inode, refl)

    two_chunks :
        (bufsize sum : ℕ) (file after : BsfsFile)
        → after.inode ≡ file.inode
        → after.position ≡ file.position + bufsize
        → file.position + bufsize < file.inode.size
        → crc32_update
            (crc32_update sum (bytes_of (byte_of ctx image file.inode) file.position bufsize))
            (rest_of after)
          ≡ crc32_update sum (rest_of file)
    unfolding crc32_update
    two_chunks bufsize sum file after same moved more =
        let left = file.inode.size - (file.position + bufsize) in
        let count : file.inode.size - file.position ≡ bufsize + left = omega (arith, more) in
        let content = byte_of ctx image file.inode in
        let later : rest_of after ≡ bytes_of content (file.position + bufsize) left =
          rw (same, moved) refl in
        let whole : rest_of file ≡ bytes_of content file.position bufsize ++ rest_of after =
          ap (bytes_of content file.position) count
          ∙ bytes_of-append content bufsize file.position left
          ∙ ap (λ l. bytes_of content file.position bufsize ++ l) (sym later) in
        sym (
          crc32_loop-append 0xEDB8_8320 (bytes_of content file.position bufsize) (rest_of after)
            sum)
        ∙ ap (crc32_loop 0xEDB8_8320 sum) (sym whole)

    pub checksum_loop-Sums :
        (rounds bufsize sum : ℕ) (file : BsfsFile)
        → file.eof ≡ false
        → Verifiable ctx image bufsize file
        → file.inode.size - file.position ≤ rounds * bufsize
        → Sums file
            (crc32_update sum (rest_of file))
            (checksum_loop (suc (suc rounds)) ctx bufsize sum file)
    unfolding crc32_update
    checksum_loop-Sums zero bufsize sum file running v enough =
        last_round 0 bufsize sum file running v (omega arith)
    checksum_loop-Sums (suc rounds) bufsize sum file running v enough =
        let step = fread ctx 1 bufsize file in
        elim (dec_lt (file.position + bufsize) file.inode.size) [
          | no last ↦ last_round (suc rounds) bufsize sum file running v (omega arith)
          | yes more ↦
              let total : fread_total 1 bufsize file ≡ bufsize =
                ground (arith, v.inside, v.holds, more) in
              let out = rw total at (
                fread-FreadOut ctx image geometry served 1 bufsize file
                  (Verifiable-Readable ctx image bufsize file v)) in
              let not_ended : step.0.eof ≡ false = out.at_end ∙ ground (arith, more) in
              let round =
                checksum_loop_step (suc (suc rounds)) bufsize sum file _ running out.bytes in
              let rest =
                checksum_loop-Sums rounds bufsize _ step.0 not_ended
                  (Verifiable-next bufsize file step v out (omega arith))
                  (rw (out.moved, out.same_inode)
                    (omega (arith, enough, suc-mul rounds bufsize))) in
              rw round (
                Sums-same step.0 file _ _ _ out.same_inode
                  (two_chunks bufsize sum file step.0 out.same_inode out.moved more) rest)
        ]
