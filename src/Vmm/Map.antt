-- ===== src/Vmm/Map.antt =====
-- kernel/kernel/vmm.c: `vmm_map` makes the walk find its entry, and changes no other page.
use pristine.Address.Laws.{is_aligned_iff}
use pristine.Vmm.Leaf.{onto, written-IsTree, written-lookup, lookup-root}
use pristine.Pmm.Count.{free_pages}
use pristine.Vmm.Hang.{InPage}
use pristine.Pmm.Frames.{and_false, FrameUsed}
use pristine.Common.{
  ℕ, ◌+◌, ◌/◌, ◌%◌, ◌^◌, ◌≤◌, ◌<◌, bit_or, ◌≡◌, refl, ap, ◌∙◌, ◌≢◌, inl, inr, Bool, false, none,
  some, List, [], ◌∷◌, arith, ==-ne, length, All, update_self, update-ne,
}
use pristine.Common.Bits.{bit_and_mask}
use pristine.Common.Digits.{digit, digit-bit_or}
use pristine.Machine.{Machine, Returns, bind-Returns}
use pristine.Vmm.{pml4_idx, pdpt_idx, pd_idx, pt_idx, slot, next_table, set_entry, vmm_map}
use pristine.Vmm.Tables.{frame_addr, Mapping, unmapped, leaf, lookup, Owners, IsTree, slot-ne}
use pristine.Vmm.Walk.{TableRights, Grows, Grows-trans, next_table-Stepped}

-- The four indices of a virtual address, the first one first.
abbrev pub path_of : ℕ → List ℕ
path_of virt = pml4_idx virt ∷ pdpt_idx virt ∷ pd_idx virt ∷ pt_idx virt ∷ []

-- What the walk finds for a virtual address under the root table in a frame.
abbrev pub translate : Machine → ℕ → ℕ → Mapping
translate m root virt = lookup m.mem (frame_addr root) (path_of virt)

-- The number of the page that an address lies in, in the 48 bits that are translated.
abbrev pub page_of : ℕ → ℕ
page_of virt = virt / 2 ^ 12 % 2 ^ 36

path_arith :
    (virt : ℕ)
    → (pml4_idx virt ≡ virt / 2 ^ 39 % 512)
      × (pdpt_idx virt ≡ virt / 2 ^ 30 % 512)
      × (pd_idx virt ≡ virt / 2 ^ 21 % 512)
      × (pt_idx virt ≡ virt / 2 ^ 12 % 512)
unfolding pml4_idx pdpt_idx pd_idx pt_idx
path_arith virt = (
  bit_and_mask 9 (virt / 2 ^ 39),
  bit_and_mask 9 (virt / 2 ^ 30),
  bit_and_mask 9 (virt / 2 ^ 21),
  bit_and_mask 9 (virt / 2 ^ 12),
)

pub path_small : (virt : ℕ) → All (λ i. i < 512) (path_of virt)
path_small virt = omega (arith, path_arith virt)

-- Addresses in different pages have different paths.
pub path-page :
    (v w : ℕ)
    → pml4_idx v ≡ pml4_idx w
    → pdpt_idx v ≡ pdpt_idx w
    → pd_idx v ≡ pd_idx w
    → pt_idx v ≡ pt_idx w
    → page_of v ≡ page_of w
path-page v w a b c d = omega (arith, path_arith v, path_arith w)

-- The page of `virt` is mapped by `entry`, the entries above the last level are what they were or have
-- exactly the rights of tables for `flags`, and nothing else has changed.
pub record Mapped (m : Machine) (root : ℕ) (own : Owners) (virt entry flags : ℕ) (m' : Machine)
    : Type 0 where
  pub own' : Owners
  pub tree : IsTree m' root own'
  pub here : translate m' root virt ≡ leaf 0 entry
  pub elsewhere : (w : ℕ) → page_of w ≢ page_of virt → translate m' root w ≡ translate m root w
  pub contents : (h a : ℕ) → FrameUsed m h → own h ≡ none → InPage h a → m'.mem a ≡ m.mem a
  pub rights : TableRights flags m own m' own'
  pub kept : (h : ℕ) → FrameUsed m h → own h ≡ none → FrameUsed m' h × (own' h ≡ none)
  pub still : (h : ℕ) → FrameUsed m h → FrameUsed m' h
  pub taken : free_pages m ≤ free_pages m' + 3

present-entry : (phys flags : ℕ) → flags % 2 ≡ 1 → bit_or phys flags ≢ 0
unfolding digit
present-entry phys flags odd e =
    absurd (omega (arith, digit-bit_or phys flags 0, ap (λ t. t % 2) e))

missing_entry : (mem : ℕ → ℕ) (t i : ℕ) → lookup mem t (i ∷ []) ≡ unmapped → mem (slot t i) ≡ 0
unfolding lookup
missing_entry mem t i none_yet = ground arith

found_entry :
    (mem : ℕ → ℕ) (t i v : ℕ) → mem (slot t i) ≡ v → v ≢ 0 → lookup mem t (i ∷ []) ≡ leaf 0 v
unfolding lookup
found_entry mem t i v e ne = rw (e, ==-ne v 0 ne)

module _ {m : Machine} {root : ℕ} {own : Owners} {m' : Machine} {own' : Owners}
    (virt entry flags : ℕ) (grows : Grows root flags m own 3 m' own')
    (tree : IsTree m' root own') where
  onto_page :
      (w : ℕ)
      → onto (path_of w) [] ≡ pt_idx virt ∷ pd_idx virt ∷ pdpt_idx virt ∷ pml4_idx virt ∷ []
      → page_of w ≡ page_of virt
  onto_page w e = path-page w virt (cc) (cc) (cc) (cc)

  -- The last step of `vmm_map`, in the table that the walk has come to.
  set_entry-Mapped :
      (debug : Bool) (f : ℕ)
      → own' f ≡ some (pd_idx virt ∷ pdpt_idx virt ∷ pml4_idx virt ∷ [])
      → lookup m'.mem (frame_addr f) (pt_idx virt ∷ []) ≡ unmapped
      → entry ≢ 0
      → Returns
          (λ _ n. Mapped m root own virt entry flags n)
          (set_entry debug (frame_addr f) (pt_idx virt) entry m')
  unfolding set_entry
  set_entry-Mapped debug f owned none_yet ne =
      let empty = missing_entry m'.mem (frame_addr f) (pt_idx virt) none_yet in
      let small = path_small virt in
      rw (empty, and_false debug)
        (record {
          own' = own';
          tree = written-IsTree tree owned refl small.1.1.1.0 entry;
          here =
              lookup-root (written-IsTree tree owned refl small.1.1.1.0 entry) f (pml4_idx virt)
                (pdpt_idx virt) (pd_idx virt) (pt_idx virt) owned
              ∙ found_entry _ (frame_addr f) (pt_idx virt) entry
                  (update_self m'.mem (slot (frame_addr f) (pt_idx virt)) entry) ne;
          elsewhere = λ w apart.
              written-lookup tree owned refl small.1.1.1.0 entry root [] (path_of w) tree.at_root
                refl (path_small w) (λ same. apart (onto_page w same))
              ∙ grows.walks (path_of w) refl (path_small w);
          contents = λ h a used data_frame inside.
              let (_, data_frame', same) = grows.contents h a used data_frame inside in
              let other : h ≢ f = λ e. cc in
              update-ne m'.mem (slot (frame_addr f) (pt_idx virt)) entry a
                (λ e. other (omega (arith, small)))
              ∙ same;
          rights = λ h q i e above lt at_entry.
              let other : h ≢ f = λ here.
                let paths : q ≡ pd_idx virt ∷ pdpt_idx virt ∷ pml4_idx virt ∷ [] = cc in
                absurd (omega (arith, ap length paths, above)) in
              let same =
                update-ne m'.mem (slot (frame_addr f) (pt_idx virt)) entry (slot (frame_addr h) i)
                  (slot-ne h i f (pt_idx virt) lt small.1.1.1.0 (inl other)) in
              elim (grows.entries h q i e above lt (λ z. at_entry (same ∙ z))) [
                | inl new ↦ inl (rw same new)
                | inr (old, before) ↦ inr (old, same ∙ before)
              ];
          kept = λ h used data_frame.
              let (used', data_frame', _) =
                grows.contents h (frame_addr h) used data_frame (omega arith) in
              (used', data_frame');
          still = grows.still;
          taken = grows.taken;
        })

-- `vmm_map` of an unmapped page to a page-aligned frame, with a present flag, under a well-formed
-- tree and with at least three pages free for tables: it returns, the page is mapped by
-- `phys | flags`, the walk finds for every other page what it found before, the tree is well-formed,
-- so that all entries above the last level are present, each of these is what it was before or new and
-- then present, writable, and for the user exactly where `flags` are, and no frame in use is changed
-- that holds no table.
pub vmm_map-Mapped :
    (debug : Bool) {m : Machine} {root : ℕ} {own : Owners} (phys virt flags : ℕ)
    → IsTree m root own
    → phys % 4096 ≡ 0
    → virt % 4096 ≡ 0
    → flags % 2 ≡ 1
    → translate m root virt ≡ unmapped
    → 3 ≤ free_pages m
    → Returns
        (λ _ n. Mapped m root own virt (bit_or phys flags) flags n)
        (vmm_map debug (frame_addr root) phys virt flags m)
unfolding vmm_map
vmm_map-Mapped debug {m} {root} {own} phys virt flags tree phys_page virt_page present none_yet
      room =
    rw
      (
        (is_aligned_iff phys 12).1 phys_page,
        and_false debug,
        (is_aligned_iff virt 12).1 virt_page,
        and_false debug,
      )
      (bind-Returns _ _ (next_table debug false (frame_addr root) _ _ m) _
        (next_table-Stepped tree debug false (pml4_idx virt) (pdpt_idx virt)
          (pd_idx virt ∷ pt_idx virt ∷ []) flags tree.at_root (omega arith) small none_yet
          (omega arith))
        λ t1 m1 s1. rw s1.address (
          bind-Returns _ _ (next_table debug false (frame_addr s1.g) _ _ m1) _
            (next_table-Stepped s1.tree debug false (pdpt_idx virt) (pd_idx virt) (pt_idx virt ∷ [])
              flags s1.owned (omega arith) small.1 s1.missing (omega (arith, s1.grows.taken)))
            λ t2 m2 s2. rw s2.address (
              bind-Returns _ _ (next_table debug false (frame_addr s2.g) _ _ m2) _
                (next_table-Stepped s2.tree debug false (pd_idx virt) (pt_idx virt) [] flags
                  s2.owned (omega arith) small.1.1 s2.missing
                  (omega (arith, s1.grows.taken, s2.grows.taken)))
                λ t3 m3 s3. rw s3.address (
                  set_entry-Mapped virt (bit_or phys flags) flags
                    (Grows-trans (Grows-trans s1.grows s2.grows) s3.grows) s3.tree debug s3.g
                    s3.owned s3.missing (present-entry phys flags present)))))
  where
    small : All (λ i. i < 512) (path_of virt)
    small = path_small virt
