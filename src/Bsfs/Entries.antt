-- ===== src/Bsfs/Entries.antt =====
-- kernel/common/bsfs/bsfs.c: `bsfs_read_inode` and one step of `bsfs_resolve_path`, against the
-- inodes and the entries on the disk.
use pristine.Bsfs.Names.{strcmp-has_name, has_name_ext, IsText-moved}
use pristine.Bsfs.Image.{Served, Geometry, little_endian_ext, lba_of_block-byte}
use pristine.Bsfs.Read.{lba_of_block}
use pristine.Bsfs.{
  max_directblocks, max_direntname, sizeof_inode, sizeof_dirent, little_endian, BsfsInode, inode_at,
  dirent_at, BsfsContext, BsfsResult, success,
}
use pristine.Bsfs.Open.{read_inode, beside, same_name, find_dirent, find_in_blocks, step_into}
use pristine.Bsfs.Tree.{
  offset_of_inode, inode_of, has_name, first_named, first_in, Placed, IsDirectory,
}
use native.Mathlib.Nat.{div-add-mod, mod-lt, mul_assoc, mul_comm}
use pristine.Strings.{Bytes}
use pristine.Strings.Text.{IsText}
use pristine.Common.{
  ℕ, zero, suc, ◌+◌, ◌-◌, ◌*◌, ◌/◌, ◌%◌, ◌≤◌, ◌<◌, ◌≡◌, refl, sym, ap, ◌∙◌, fun_ext, Bool, true,
  false, ◌&&◌, Option, none, some, List, [], ◌∷◌, arith, dec_lt, ℕ_discrete, ltb, ◌==◌, ◌!=◌,
  if◌then◌else◌, lt→ltb, ==-ne, length,
}

rest_whole :
    (sector q r : ℕ)
    → sector % sizeof_inode ≡ 0
    → (sector * q + r) % sizeof_inode ≡ 0
    → r % sizeof_inode ≡ 0
rest_whole sector q r multiple sum =
    let times : sector ≡ sizeof_inode * (sector / sizeof_inode) = omega (arith, multiple) in
    let product : sector * q ≡ sizeof_inode * (sector / sizeof_inode * q) =
      ap (λ n. n * q) times ∙ mul_assoc sizeof_inode (sector / sizeof_inode) q in
    omega (arith, product, sum)

and_true : (b : Bool) → b ≡ (b && true)
and_true true = refl
and_true false = refl

-- A slot without a name is not taken for an entry.
has_name-used :
    (image : Bytes) (p inode : ℕ) (name : Bytes) (xs : List ℕ)
    → IsText name 0 xs
    → 0 < length xs
    → (inode ≡ 0 → image p ≡ 0)
    → has_name image p xs ≡ (has_name image p xs && (inode != 0))
has_name-used image p inode name [] text some_name nameless = absurd (omega arith)
has_name-used image p inode name (x ∷ xs) text some_name nameless = elim (ℕ_discrete inode 0) [
  | yes free ↦
      let other : (image p == x) ≡ false =
        ap (λ c. c == x) (nameless free) ∙ ==-ne 0 x (λ e. text.1 (sym e)) in
      rw other refl
  | no used ↦ let test : (inode != 0) ≡ true = ground (arith, used) in rw test (and_true _)
]

first_success :
    (skip : Bool) (found : Option ℕ) (tail : BsfsResult (Option ℕ)) (rest : Option ℕ)
    → tail ≡ success rest
    → (if skip then tail else elim found [ some k ↦ success (some k) | none ↦ tail ])
      ≡ success (if skip then rest else elim found [ some k ↦ some k | none ↦ rest ])
first_success true found tail rest e = e
first_success false none tail rest e = e
first_success false (some k) tail rest e = refl

module _ (ctx : BsfsContext) (image : Bytes) (placed : Placed ctx image) where
  -- An entry of a block in memory, against the same entry on the disk.
  same_name-has_name :
      (scratch : Bytes) (base d : ℕ) (name : Bytes) (xs : List ℕ)
      → ((k : ℕ) → k < ctx.header.block_size → scratch k ≡ image (base + k))
      → d * sizeof_dirent + sizeof_dirent ≤ ctx.header.block_size
      → IsText name 0 xs
      → length xs < max_direntname
      → same_name (dirent_at scratch (d * sizeof_dirent)) name
        ≡ has_name image (base + d * sizeof_dirent + 4) xs
  unfolding same_name dirent_at beside
  same_name-has_name scratch base d name xs read inside text short =
      let entry = dirent_at scratch (d * sizeof_dirent) in
      let mem = beside entry.name name in
      let at_disk : (k : ℕ)
          → k < max_direntname
          → mem (0 + k) ≡ image (base + d * sizeof_dirent + 4 + k) =
        λ k lt.
          let place : base + d * sizeof_dirent + 4 + k ≡ base + (d * sizeof_dirent + 4 + k) =
            omega arith in
          let zero_plus : 0 + k ≡ k = omega arith in
          rw (zero_plus, lt→ltb k max_direntname lt, place)
            (read (d * sizeof_dirent + 4 + k) (omega arith)) in
      let second : IsText mem max_direntname xs =
        IsText-moved name mem 0 max_direntname xs
          (λ k.
            let test : ltb (max_direntname + k) max_direntname ≡ false = ground arith in
            let back : max_direntname + k - max_direntname ≡ 0 + k = omega arith in
            rw (test, back) refl)
          text in
      strcmp-has_name max_direntname mem 0 max_direntname xs
        (λ i lt. rw (at_disk i lt) (placed.byte _)) second short
      ∙ has_name_ext mem image 0 (base + d * sizeof_dirent + 4) xs
          (λ k lt. at_disk k (omega (arith, short, lt)))

  find_dirent-first_named :
      (left d base : ℕ) (scratch name : Bytes) (xs : List ℕ)
      → ((k : ℕ) → k < ctx.header.block_size → scratch k ≡ image (base + k))
      → (d + left) * sizeof_dirent ≤ ctx.header.block_size
      → IsText name 0 xs
      → length xs < max_direntname
      → 0 < length xs
      → ((k : ℕ)
          → k < d + left
          → little_endian 4 image (base + k * sizeof_dirent) ≡ 0
          → image (base + k * sizeof_dirent + 4) ≡ 0)
      → find_dirent left scratch d name ≡ first_named left image (base + d * sizeof_dirent) xs
  unfolding find_dirent dirent_at
  find_dirent-first_named zero d base scratch name xs read inside text short some_name nameless =
      refl
  find_dirent-first_named (suc left) d base scratch name xs read inside text short some_name
        nameless =
      let here =
        same_name-has_name scratch base d name xs read (omega arith) text short
        ∙ has_name-used image (base + d * sizeof_dirent + 4)
            (little_endian 4 image (base + d * sizeof_dirent)) name xs text some_name
            (nameless d (omega arith)) in
      let rest =
        find_dirent-first_named left (d + 1) base scratch name xs read (omega arith) text short
          some_name (λ k lt. nameless k (omega arith)) in
      let next : base + (d + 1) * sizeof_dirent ≡ base + d * sizeof_dirent + sizeof_dirent =
        omega arith in
      let number : (dirent_at scratch (d * sizeof_dirent)).inode
          ≡ little_endian 4 image (base + d * sizeof_dirent) =
        (little_endian_ext 4 scratch image (d * sizeof_dirent) (base + d * sizeof_dirent) λ k lt.
          let place : base + d * sizeof_dirent + k ≡ base + (d * sizeof_dirent + k) = omega arith in
          rw place (read (d * sizeof_dirent + k) (omega arith))) in
      rw (here, number, rest, next) refl

  module _ (geometry : Geometry ctx) (served : Served ctx image) where
    find_in_blocks-first_in :
        (left b : ℕ) (inode : BsfsInode) (name : Bytes) (xs : List ℕ)
        → IsDirectory ctx image inode
        → IsText name 0 xs
        → length xs < max_direntname
        → 0 < length xs
        → find_in_blocks left ctx inode b name ≡ success (first_in left ctx image inode b xs)
    unfolding find_in_blocks
    find_in_blocks-first_in zero b inode name xs directory text short some_name = refl
    find_in_blocks-first_in (suc left) b inode name xs directory text short some_name =
        let block = inode.blocks_direct b in
        let block_size = ctx.header.block_size in
        let sectors = block_size / ctx.phys_sector_size in
        let (ok, same) = served (lba_of_block ctx block) sectors in
        let scratch = (ctx.disk_read (lba_of_block ctx block) sectors).1 in
        let rest =
          find_in_blocks-first_in left (b + 1) inode name xs directory text short some_name in
        elim (ℕ_discrete block 0) [
          | yes nothing ↦ let test : (block == 0) ≡ true = ground (arith, nothing) in rw test rest
          | no used ↦
              let found =
                find_dirent-first_named (block_size / sizeof_dirent) 0 (block * block_size) scratch
                  name xs
                  (λ k lt.
                    same k (rw geometry.2 lt)
                    ∙ ap (λ a. image (a + k))
                        (lba_of_block-byte ctx block geometry (directory.0 b)))
                  (omega arith) text short some_name
                  (λ k lt. directory.1 b k used (omega (arith, lt))) in
              let start : block * block_size + 0 * sizeof_dirent ≡ block * block_size =
                omega arith in
              rw (ok, found ∙ ap (λ p. first_named (block_size / sizeof_dirent) image p xs) start)
                (first_success (block == 0) _ _ _ rest)
        ]

    -- The fields of an inode are in its first bytes.
    inode_at_ext :
        (f g : Bytes) (p q : ℕ)
        → ((k : ℕ) → k < sizeof_inode → f (p + k) ≡ g (q + k))
        → inode_at f p ≡ inode_at g q
    unfolding inode_at
    inode_at_ext f g p q same =
        let first : p + 0 ≡ p = omega arith in
        let first' : q + 0 ≡ q = omega arith in
        let kind : f p ≡ g q = cc (ap f first, ap g first', same 0 (omega arith)) in
        let blocks : (λ b. if ltb b max_directblocks then little_endian 4 f (p + 51 + 4 * b) else 0)
            ≡ (λ b. if ltb b max_directblocks then little_endian 4 g (q + 51 + 4 * b) else 0) =
          fun_ext λ b. direct b in
        rw
          (
            kind,
            field 2 1 (omega arith),
            field 4 3 (omega arith),
            field 4 7 (omega arith),
            field 8 11 (omega arith),
            field 4 19 (omega arith),
            field 8 23 (omega arith),
            field 8 31 (omega arith),
            field 8 39 (omega arith),
            field 4 47 (omega arith),
            blocks,
            field 4 91 (omega arith),
            field 4 95 (omega arith),
            field 4 99 (omega arith),
            field 4 103 (omega arith),
          )
          refl
      where
        field :
            (n at : ℕ)
            → at + n ≤ sizeof_inode
            → little_endian n f (p + at) ≡ little_endian n g (q + at)
        field n at inside = little_endian_ext n f g (p + at) (q + at) λ k lt.
            let e : p + at + k ≡ p + (at + k) = omega arith in
            let e' : q + at + k ≡ q + (at + k) = omega arith in
            rw (e, e') (same (at + k) (omega arith))

        direct :
            (b : ℕ)
            → (if ltb b max_directblocks then little_endian 4 f (p + 51 + 4 * b) else 0)
              ≡ (if ltb b max_directblocks then little_endian 4 g (q + 51 + 4 * b) else 0)
        direct b = elim (dec_lt b max_directblocks) [
          | yes below ↦
              let e : p + 51 + 4 * b ≡ p + (51 + 4 * b) = omega arith in
              let e' : q + 51 + 4 * b ≡ q + (51 + 4 * b) = omega arith in
              rw (lt→ltb b max_directblocks below, e, e') (field 4 (51 + 4 * b) (omega arith))
          | no above ↦ let test : ltb b max_directblocks ≡ false = ground arith in rw test refl
        ]

    pub read_inode-inode_of : (idx : ℕ) → read_inode ctx idx ≡ success (inode_of ctx image idx)
    unfolding read_inode
    read_inode-inode_of idx =
        let offset = offset_of_inode ctx idx in
        let sector = ctx.phys_sector_size in
        let got = (ctx.disk_read (offset / sector) 1).1 in
        let (ok, same) = served (offset / sector) 1 in
        let parts = div-add-mod offset sector in
        let whole : offset % sizeof_inode ≡ 0 = omega (arith, placed.table) in
        let rest : offset % sector % sizeof_inode ≡ 0 =
          rest_whole sector (offset / sector) (offset % sector) placed.sectors (rw parts whole) in
        let below = mod-lt offset geometry.1 in
        rw ok (
          ap success (
            inode_at_ext got image _ _ λ k lt.
              let place : offset % sector / sizeof_inode * sizeof_inode + k ≡ offset % sector + k =
                omega (arith, rest) in
              let there : offset / sector * sector + (offset % sector + k) ≡ offset + k =
                omega (arith, parts, mul_comm sector (offset / sector)) in
              ap got place
              ∙ same (offset % sector + k) (omega (arith, rest, below, placed.sectors))
              ∙ ap image there))

    -- One name of a path.
    pub step_into-first_in :
        (current : ℕ) (name : Bytes) (xs : List ℕ)
        → IsText name 0 xs
        → length xs < max_direntname
        → 0 < length xs
        → IsDirectory ctx image (inode_of ctx image current)
        → step_into ctx current name
          ≡ first_in max_directblocks ctx image (inode_of ctx image current) 0 xs
    unfolding step_into
    step_into-first_in current name xs text short some_name directory =
        rw
          (
            step_into,
            read_inode-inode_of current,
            find_in_blocks-first_in max_directblocks 0 (inode_of ctx image current) name xs
                directory text short some_name,
          )
          refl
