-- ===== src/Vmm/Leaf.antt =====
-- kernel/kernel/vmm.c: writing an entry of a table of the last level.
use pristine.Vmm.{slot, table_of}
use pristine.Vmm.Walk.{lookup-table}
use pristine.Common.{
  ℕ, ◌+◌, ◌<◌, ◌≡◌, refl, sym, ap, ◌∙◌, ◌≢◌, ◌⊎◌, inl, inr, some, List, [], ◌∷◌, arith, ℕ_discrete,
  ==-ne, length, All, update, update-ne,
}
use pristine.Machine.{Machine}
use pristine.Vmm.Tables.{frame_addr, large_bit, lookup, Owners, IsTree, slot-ne}

-- The indices that lead to an entry, the last one first.
abbrev pub onto : List ℕ → List ℕ → List ℕ
onto [] q = q
onto (i ∷ r) q = onto r (i ∷ q)

module _ {m : Machine} {root : ℕ} {own : Owners} (tree : IsTree m root own) {f idx : ℕ} {p : List ℕ}
    (owned : own f ≡ some p) (last : length p ≡ 3) (in_table : idx < 512) (v : ℕ) where
  abbrev written : Machine
  written = record m { mem = update m.mem (slot (frame_addr f) idx) v }

  same_entry :
      (h i : ℕ)
      → i < 512
      → (h ≢ f) ⊎ (i ≢ idx)
      → update m.mem (slot (frame_addr f) idx) v (slot (frame_addr h) i)
        ≡ m.mem (slot (frame_addr h) i)
  same_entry h i lt apart =
      update-ne m.mem (slot (frame_addr f) idx) v (slot (frame_addr h) i)
        (slot-ne h i f idx lt in_table apart)

  -- A table above the last level is another table.
  not_last : (h : ℕ) (q : List ℕ) → own h ≡ some q → length q < 3 → h ≢ f
  not_last h q e above here = let paths : q ≡ p = cc in absurd (omega (arith, ap length paths))

  pub written-IsTree : IsTree written root own
  written-IsTree = record {
    pmm = record { bytes = tree.pmm.bytes; counted = tree.pmm.counted };
    at_root = tree.at_root;
    only_root = tree.only_root;
    short = tree.short;
    used = tree.used;
    child = λ h q i e above lt ne table.
        let same = same_entry h i lt (inl (not_last h q e above)) in
        let (k, ek, leads) =
          tree.child h q i e above lt (λ z. ne (same ∙ z)) (ap large_bit (sym same) ∙ table) in
        (k, ek, ap table_of same ∙ leads);
    present = λ h q i e above lt ne.
        let same = same_entry h i lt (inl (not_last h q e above)) in
        rw same (tree.present h q i e above lt (λ z. ne (same ∙ z)));
    parent = λ k q i e.
        let (h, eh, lt, ne, table, leads) = tree.parent k q i e in
        let same =
          same_entry h i lt (inl (not_last h q eh (omega (arith, tree.short k (i ∷ q) e)))) in
        (h, eh, lt, (λ z. ne (sym same ∙ z)), ap large_bit same ∙ table, ap table_of same ∙ leads);
  }

  -- A walk to any other entry finds what it found before.
  pub written-lookup :
      (h : ℕ) (q r : List ℕ)
      → own h ≡ some q
      → length q + length r ≡ 4
      → All (λ i. i < 512) r
      → onto r q ≢ idx ∷ p
      → lookup written.mem (frame_addr h) r ≡ lookup m.mem (frame_addr h) r
  unfolding lookup
  written-lookup h q [] e deep small other = refl
  written-lookup h q (i ∷ []) e deep small other = rw (
      same_entry h i small.0
        (elim (ℕ_discrete h f) [ no away ↦ inl away | yes here ↦ inr λ at. other cc ]))
  written-lookup h q (i ∷ j ∷ r) e deep small other =
      let same = same_entry h i small.0 (inl (not_last h q e (omega arith))) in
      rw same (elim (ℕ_discrete (m.mem (slot (frame_addr h) i)) 0) [
        | yes z ↦ rw z
        | no ne ↦ elim (ℕ_discrete (large_bit (m.mem (slot (frame_addr h) i))) 0) [
          | no large ↦ rw (==-ne _ _ ne, ==-ne _ _ large)
          | yes table ↦
              let (k, ek, leads) = tree.child h q i e (omega arith) small.0 ne table in
              rw (==-ne _ _ ne, table, leads)
                (written-lookup k (i ∷ q) (j ∷ r) ek (omega arith) small.1 other)
        ]
      ])

-- The table that stands at the end of three indices is met on the walk along them.
module _ {m : Machine} {root : ℕ} {own : Owners} (tree : IsTree m root own) where
  down :
      (h i : ℕ) (q : List ℕ) (j : ℕ) (r : List ℕ)
      → own h ≡ some (i ∷ q)
      → (f : ℕ) × (own f ≡ some q)
        × (lookup m.mem (frame_addr f) (i ∷ j ∷ r) ≡ lookup m.mem (frame_addr h) (j ∷ r))
  down h i q j r e =
      let (f, ef, lt, ne, table, leads) = tree.parent h q i e in
      (
        f,
        ef,
        lookup-table m.mem (frame_addr f) i j r ne table ∙ ap (λ t. lookup m.mem t (j ∷ r)) leads,
      )

  pub lookup-root :
      (h a b c d : ℕ)
      → own h ≡ some (c ∷ b ∷ a ∷ [])
      → lookup m.mem (frame_addr root) (a ∷ b ∷ c ∷ d ∷ []) ≡ lookup m.mem (frame_addr h) (d ∷ [])
  lookup-root h a b c d e =
      let (g, eg, third) = down h c (b ∷ a ∷ []) d [] e in
      let (f, ef, second) = down g b (a ∷ []) c (d ∷ []) eg in
      let (r, er, first) = down f a [] b (c ∷ d ∷ []) ef in
      ap (λ t. lookup m.mem (frame_addr t) (a ∷ b ∷ c ∷ d ∷ [])) (sym (tree.only_root r er))
      ∙ first
      ∙ second
      ∙ third
