-- ===== src/Vmm/Unmap.antt =====
-- kernel/kernel/vmm.c: `vmm_unmap` takes one page away, and `vmm_init` starts with none.
use pristine.Address.{phys_to_virt}
use pristine.Vmm.Walk.{debug_quiet, lookup-table}
use pristine.Pmm.Frames.{and_false, IsPmm, FrameUsed, FrameFree}
use pristine.Vmm.Leaf.{written-IsTree, written-lookup, lookup-root}
use pristine.Pmm.Count.{free_pages, Allocated-IsPmm, pmm_alloc_total}
use pristine.Vmm.Hang.{InPage}
use pristine.Pmm.{pmm_alloc}
use pristine.Address.Laws.{phys_to_virt-small, is_aligned_iff}
use pristine.Bitmap.Bits.{bit}
use pristine.Common.{
  ℕ, ◌*◌, ◌%◌, ◌<◌, ◌≡◌, refl, sym, ap, ◌∙◌, ◌≢◌, Bool, true, false, none, some, List, [], ◌∷◌,
  arith, ℕ_discrete, ==-ne, length, update, update_self, update-ne,
}
use pristine.Machine.{Machine, ok, zeroed, Returns, bind-Returns}
use pristine.Vmm.{pml4_idx, pdpt_idx, pd_idx, pt_idx, slot, vmm_init, old_table, vmm_unmap}
use pristine.Vmm.Tables.{
  frame_addr, unmapped, leaf, large_bit, lookup, Owners, IsTree, lookup-zeroed,
}
use pristine.Vmm.Map.{path_of, translate, page_of, path_small, path-page}

-- A walk that ends at a page of the last level goes through a table.
through_table :
    (mem : ℕ → ℕ) (t i j : ℕ) (r : List ℕ) (e : ℕ)
    → lookup mem t (i ∷ j ∷ r) ≡ leaf 0 e
    → (mem (slot t i) ≢ 0) × (large_bit (mem (slot t i)) ≡ 0)
unfolding lookup
through_table mem t i j r e found = elim (ℕ_discrete (mem (slot t i)) 0) [
  | yes z ↦ cc (rw z at found)
  | no ne ↦ elim (ℕ_discrete (large_bit (mem (slot t i))) 0) [
    | yes table ↦ (ne, table)
    | no large ↦ absurd (upper_leaf (rw (==-ne _ _ ne, ==-ne _ _ large) at found))
  ]
]
  where
    upper_leaf : leaf (length (j ∷ r)) (mem (slot t i)) ≡ leaf 0 e → ⊥
    upper_leaf h = let levels : length (j ∷ r) ≡ 0 = cc in absurd (omega arith)

last_entry : (mem : ℕ → ℕ) (t i e : ℕ) → lookup mem t (i ∷ []) ≡ leaf 0 e → mem (slot t i) ≢ 0
unfolding lookup
last_entry mem t i e found z = cc (rw z at found)

cleared_entry : (mem : ℕ → ℕ) (t i : ℕ) → mem (slot t i) ≡ 0 → lookup mem t (i ∷ []) ≡ unmapped
unfolding lookup
cleared_entry mem t i z = rw z

module _ {m : Machine} {root : ℕ} {own : Owners} (tree : IsTree m root own) where
  old_table-ok :
      (debug no_ps : Bool) {f : ℕ} {p : List ℕ} (i j : ℕ) (r : List ℕ) (e : ℕ)
      → own f ≡ some p
      → length p < 3
      → i < 512
      → lookup m.mem (frame_addr f) (i ∷ j ∷ r) ≡ leaf 0 e
      → (g : ℕ) × (own g ≡ some (i ∷ p))
        × (old_table debug no_ps (frame_addr f) i m ≡ ok (frame_addr g) m)
        × (lookup m.mem (frame_addr g) (j ∷ r) ≡ leaf 0 e)
  unfolding old_table
  old_table-ok debug no_ps {f} {p} i j r e owned above small found =
      let (present, table) = through_table m.mem (frame_addr f) i j r e found in
      let (g, eg, leads) = tree.child f p i owned above small present table in
      (
        g,
        eg,
        rw (==-ne _ _ present, table, debug_quiet debug no_ps, leads),
        ap (λ t. lookup m.mem t (j ∷ r)) (sym leads)
            ∙ sym (lookup-table m.mem (frame_addr f) i j r present table)
            ∙ found,
      )

-- The page of `virt` is gone, and nothing else has changed.
pub record Unmapped (m : Machine) (root : ℕ) (own : Owners) (virt : ℕ) (m' : Machine) : Type 0 where
  pub tree : IsTree m' root own
  pub here : translate m' root virt ≡ unmapped
  pub elsewhere : (w : ℕ) → page_of w ≢ page_of virt → translate m' root w ≡ translate m root w
  pub contents : (h a : ℕ) → own h ≡ none → InPage h a → m'.mem a ≡ m.mem a
  pub frames : m'.pmm_bitmap ≡ m.pmm_bitmap

-- `vmm_unmap` of a page-aligned address that a well-formed tree maps at the last level: it returns,
-- the walk finds nothing there any more, every other page is found as before, the tree is
-- well-formed, and no frame is given back or taken.
pub vmm_unmap-Unmapped :
    (debug : Bool) {m : Machine} {root : ℕ} {own : Owners} (virt entry : ℕ)
    → IsTree m root own
    → virt % 4096 ≡ 0
    → translate m root virt ≡ leaf 0 entry
    → Returns (λ _ m'. Unmapped m root own virt m') (vmm_unmap debug (frame_addr root) virt m)
unfolding vmm_unmap
vmm_unmap-Unmapped debug {m} {root} {own} virt entry tree virt_page found =
    let small = path_small virt in
    let (f1, e1, s1, l1) =
      old_table-ok tree debug false (pml4_idx virt) (pdpt_idx virt) (pd_idx virt ∷ pt_idx virt ∷ [])
        entry tree.at_root (omega arith) small.0 found in
    let (f2, e2, s2, l2) =
      old_table-ok tree debug true (pdpt_idx virt) (pd_idx virt) (pt_idx virt ∷ []) entry e1
        (omega arith) small.1.0 l1 in
    let (f3, e3, s3, l3) =
      old_table-ok tree debug true (pd_idx virt) (pt_idx virt) [] entry e2 (omega arith) small.1.1.0
        l2 in
    rw
      (
        (is_aligned_iff virt 12).1 virt_page,
        and_false debug,
        s1,
        s2,
        s3,
        ==-ne _ 0 (last_entry m.mem (frame_addr f3) (pt_idx virt) entry l3),
        and_false debug,
      )
      (record {
        tree = written-IsTree tree e3 refl small.1.1.1.0 0;
        here =
            lookup-root (written-IsTree tree e3 refl small.1.1.1.0 0) f3 (pml4_idx virt)
              (pdpt_idx virt) (pd_idx virt) (pt_idx virt) e3
            ∙ cleared_entry _ (frame_addr f3) (pt_idx virt)
                (update_self m.mem (slot (frame_addr f3) (pt_idx virt)) 0);
        elsewhere = λ w apart.
            written-lookup tree e3 refl small.1.1.1.0 0 root [] (path_of w) tree.at_root refl
              (path_small w) (λ same. apart (path-page w virt (cc) (cc) (cc) (cc)));
        contents = λ h a data_frame inside.
            let other : h ≢ f3 = λ e. cc in
            update-ne m.mem (slot (frame_addr f3) (pt_idx virt)) 0 a
              (λ e. other (omega (arith, small)));
        frames = refl;
      })

abbrev pub one_table : ℕ → Owners
one_table g = update (λ _. none) g (some [])

-- Memory with a frame of zeros, and the table in it as the root.
module _ (m : Machine) (g : ℕ) where
  abbrev pub cleared : Machine
  cleared = record m { mem = zeroed m.mem (frame_addr g) 4096 }

  pub cleared_slot : (i : ℕ) → i < 512 → cleared.mem (slot (frame_addr g) i) ≡ 0
  unfolding zeroed
  cleared_slot i lt = ground arith

  only_table : (h : ℕ) (q : List ℕ) → one_table g h ≡ some q → (h ≡ g) × (q ≡ [])
  only_table h q e = ground arith

pub empty_root-IsTree :
    {m : Machine} {g : ℕ}
    → IsPmm m
    → FrameUsed m g
    → g < m.pmm_bitmap_size * 8
    → IsTree (cleared m g) g (one_table g)
empty_root-IsTree {m} {g} inv in_use in_map = record {
  pmm = record { bytes = inv.bytes; counted = inv.counted };
  at_root = update_self (λ _. none) g (some []);
  only_root = λ h e. (only_table m g h [] e).0;
  short = λ h q e. omega (arith, ap length (only_table m g h q e).1);
  used = λ h q e.
      let (at, _) = only_table m g h q e in
      (ap (bit m.pmm_bitmap) at ∙ in_use, omega (arith, at, in_map));
  child = λ h q i e above lt ne table.
      let (at, _) = only_table m g h q e in
      absurd (ne (ap (λ t. (cleared m g).mem (slot (frame_addr t) i)) at ∙ cleared_slot m g i lt));
  present = λ h q i e above lt ne.
      let (at, _) = only_table m g h q e in
      absurd (ne (ap (λ t. (cleared m g).mem (slot (frame_addr t) i)) at ∙ cleared_slot m g i lt));
  parent = λ k q i e.
      let (_, path) = only_table m g k (i ∷ q) e in absurd (omega (arith, ap length path));
}

-- `vmm_init` on a well-formed bitmap with a free page returns the address of a frame that was free,
-- which is the root of a well-formed tree under which nothing is mapped.
pub vmm_init_lem :
    (debug : Bool) (m : Machine)
    → IsPmm m
    → 0 < free_pages m
    → Returns
        (λ pml4 m'.
          (g : ℕ) × (pml4 ≡ frame_addr g)
          × FrameFree m g
          × IsTree m' g (one_table g)
          × ((virt : ℕ) → translate m' g virt ≡ unmapped))
        (vmm_init debug m)
unfolding vmm_init
vmm_init_lem debug m inv some_free =
    bind-Returns _ _ (pmm_alloc debug m) _ (pmm_alloc_total debug m inv some_free)
      λ page m' (a, fewer).
        let addr : phys_to_virt page ≡ frame_addr a.frame =
          ap phys_to_virt a.address
          ∙ phys_to_virt-small (a.frame * 4096) (omega (arith, a.in_map, inv.counted)) in
        (
          a.frame,
          addr,
          a.was_free,
          rw addr (
              empty_root-IsTree (Allocated-IsPmm inv a) (ground (arith, a.now a.frame))
                (omega (arith, a.in_map, ap (λ s. s.pmm_bitmap_size) a.state))),
          λ virt.
              rw addr (
                lookup-zeroed _ a.frame (path_of virt) (cleared_slot m' a.frame) (path_small virt)),
        )
