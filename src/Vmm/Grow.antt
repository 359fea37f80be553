-- ===== src/Vmm/Grow.antt =====
-- Hanging a table keeps the tree and what every full walk finds.
use pristine.Vmm.{slot, table_of}
use pristine.Bitmap.Bits.{bit}
use pristine.Common.{
  ℕ, ◌+◌, ◌%◌, ◌<◌, ◌≡◌, refl, sym, ap, ◌∙◌, ◌≢◌, ◌⊎◌, inl, inr, some, List, [], ◌∷◌, arith,
  ℕ_discrete, ◌==◌, if◌then◌else◌, ==-ne, length, All, update, update_self, update-ne,
}
use pristine.Machine.{Machine}
use pristine.Vmm.Tables.{
  frame_addr, Mapping, unmapped, leaf, large_bit, lookup, Owners, IsTree, slot-ne, lookup-zeroed,
}
use pristine.Vmm.Hang.{Hung}

module _ {m : Machine} {root : ℕ} {own : Owners} (tree : IsTree m root own) {f idx g iflags : ℕ}
    {p : List ℕ} {m' : Machine} (owned : own f ≡ some p) (above : length p < 3)
    (in_table : idx < 512) (missing : m.mem (slot (frame_addr f) idx) ≡ 0) (odd : iflags % 2 ≡ 1)
    (hung : Hung m f idx g iflags m') where
  -- The new frame held no table.
  fresh : (h : ℕ) (q : List ℕ) → own h ≡ some q → h ≢ g
  fresh h q e same =
      absurd (omega (arith, (tree.used h q e).0, hung.was_free, ap (bit m.pmm_bitmap) same))

  same_slot :
      (h : ℕ) (q : List ℕ) (i : ℕ)
      → own h ≡ some q
      → i < 512
      → (h ≢ f) ⊎ (i ≢ idx)
      → m'.mem (slot (frame_addr h) i) ≡ m.mem (slot (frame_addr h) i)
  same_slot h q i e lt apart =
      hung.same (slot (frame_addr h) i) (slot-ne h i f idx lt in_table apart)
        (λ (lo, hi). fresh h q e (omega arith))

  abbrev grown : Owners
  grown = update own g (some (idx ∷ p))

  grown_old : (h : ℕ) (q : List ℕ) → own h ≡ some q → grown h ≡ some q
  grown_old h q e = update-ne own g (some (idx ∷ p)) h (fresh h q e) ∙ e

  -- A table of the grown tree is the new one or an old one.
  grown_cases :
      (h : ℕ) (q : List ℕ)
      → grown h ≡ some q
      → ((h ≡ g) × (q ≡ idx ∷ p)) ⊎ ((h ≢ g) × (own h ≡ some q))
  grown_cases h q e = ground arith

  -- An entry of the grown tree is the new one, or one that was there before.
  pub grown_entry :
      (h : ℕ) (q : List ℕ) (i : ℕ)
      → grown h ≡ some q
      → i < 512
      → m'.mem (slot (frame_addr h) i) ≢ 0
      → (m'.mem (slot (frame_addr h) i) % 4096 ≡ iflags)
        ⊎ ((own h ≡ some q) × (m'.mem (slot (frame_addr h) i) ≡ m.mem (slot (frame_addr h) i)))
  grown_entry h q i e lt ne = elim (grown_cases h q e) [
    | inl (new, _) ↦ absurd (ne (ap (λ t. m'.mem (slot (frame_addr t) i)) new ∙ hung.empty i lt))
    | inr (old, eo) ↦ elim (ℕ_discrete h f) [
      | yes here ↦ elim (ℕ_discrete i idx) [
        | yes at ↦ inl (rw (here, at) hung.low)
        | no away ↦ inr (eo, same_slot h q i eo lt (inr away))
      ]
      | no away ↦ inr (eo, same_slot h q i eo lt (inl away))
    ]
  ]

  grown_child :
      (h : ℕ) (q : List ℕ) (i : ℕ)
      → grown h ≡ some q
      → length q < 3
      → i < 512
      → m'.mem (slot (frame_addr h) i) ≢ 0
      → large_bit (m'.mem (slot (frame_addr h) i)) ≡ 0
      → (k : ℕ) × (grown k ≡ some (i ∷ q))
        × (table_of (m'.mem (slot (frame_addr h) i)) ≡ frame_addr k)
  grown_child h q i e short lt ne table = elim (grown_cases h q e) [
    | inl (new, _) ↦ absurd (ne (ap (λ t. m'.mem (slot (frame_addr t) i)) new ∙ hung.empty i lt))
    | inr (old, eo) ↦ elim (ℕ_discrete h f) [
      | yes here ↦ elim (ℕ_discrete i idx) [
        | yes at ↦ (
          g,
          update_self own g (some (idx ∷ p)) ∙ ground (arith, ap own here),
          ap (λ t. table_of (m'.mem (slot (frame_addr t) i))) here
              ∙ ap (λ t. table_of (m'.mem (slot (frame_addr f) t))) at
              ∙ hung.leads,
        )
        | no away ↦ kept h q i eo short lt ne table (inr away)
      ]
      | no away ↦ kept h q i eo short lt ne table (inl away)
    ]
  ]
    where
      kept :
          (h : ℕ) (q : List ℕ) (i : ℕ)
          → own h ≡ some q
          → length q < 3
          → i < 512
          → m'.mem (slot (frame_addr h) i) ≢ 0
          → large_bit (m'.mem (slot (frame_addr h) i)) ≡ 0
          → (h ≢ f) ⊎ (i ≢ idx)
          → (k : ℕ) × (grown k ≡ some (i ∷ q))
            × (table_of (m'.mem (slot (frame_addr h) i)) ≡ frame_addr k)
      kept h q i e short lt ne table apart =
          let same = same_slot h q i e lt apart in
          let (k, ek, leads) =
            tree.child h q i e short lt (λ z. ne (same ∙ z)) (ap large_bit (sym same) ∙ table) in
          (k, grown_old k (i ∷ q) ek, ap table_of same ∙ leads)

  grown_present :
      (h : ℕ) (q : List ℕ) (i : ℕ)
      → grown h ≡ some q
      → length q < 3
      → i < 512
      → m'.mem (slot (frame_addr h) i) ≢ 0
      → m'.mem (slot (frame_addr h) i) % 2 ≡ 1
  grown_present h q i e short lt ne = elim (grown_entry h q i e lt ne) [
    | inl new ↦ omega (arith, new, odd)
    | inr (eo, same) ↦ rw same (tree.present h q i eo short lt (λ z. ne (same ∙ z)))
  ]

  grown_parent :
      (k : ℕ) (q : List ℕ) (i : ℕ)
      → grown k ≡ some (i ∷ q)
      → (h : ℕ) × (grown h ≡ some q)
        × (i < 512)
        × (m'.mem (slot (frame_addr h) i) ≢ 0)
        × (large_bit (m'.mem (slot (frame_addr h) i)) ≡ 0)
        × (table_of (m'.mem (slot (frame_addr h) i)) ≡ frame_addr k)
  grown_parent k q i e = elim (grown_cases k (i ∷ q) e) [
    | inl (new, path) ↦
        let at : i ≡ idx = cc in
        let rest : q ≡ p = cc in
        (
          f,
          grown_old f p owned ∙ ap some (sym rest),
          rw at in_table,
          rw at hung.present,
          rw at hung.not_large,
          rw (at, new) hung.leads,
        )
    | inr (old, ek) ↦
        let (h, eh, lt, ne, table, leads) = tree.parent k q i ek in
        let same = same_slot h q i eh lt (parent_apart h i ne) in
        (
          h,
          grown_old h q eh,
          lt,
          (λ z. ne (sym same ∙ z)),
          ap large_bit same ∙ table,
          ap table_of same ∙ leads,
        )
  ]
    where
      parent_apart : (h i : ℕ) → m.mem (slot (frame_addr h) i) ≢ 0 → (h ≢ f) ⊎ (i ≢ idx)
      parent_apart h i ne = elim (ℕ_discrete h f) [
        | no away ↦ inl away
        | yes here ↦ inr λ at. ne (rw (here, at) missing)
      ]

  pub Hung-IsTree : IsTree m' root grown
  Hung-IsTree = record {
    pmm = hung.pmm;
    at_root = grown_old root [] tree.at_root;
    only_root = λ h e. elim (grown_cases h [] e) [
      | inl (_, path) ↦ cc
      | inr (_, old) ↦ tree.only_root h old
    ];
    short = λ h q e. elim (grown_cases h q e) [
      | inl (_, path) ↦ omega (arith, ap length path)
      | inr (_, old) ↦ tree.short h q old
    ];
    used = λ h q e. elim (grown_cases h q e) [
      | inl (new, _) ↦ (ground (arith, hung.now h), omega (arith, hung.in_map, hung.size))
      | inr (_, old) ↦ (
        ground (arith, hung.now h, (tree.used h q old).0),
        omega (arith, hung.size, (tree.used h q old).1),
      )
    ];
    child = grown_child;
    present = grown_present;
    parent = grown_parent;
  }

  same_path : (h : ℕ) (q : List ℕ) → own h ≡ some q → h ≡ f → q ≡ p
  same_path h q e here = cc

  same_last :
      {a b : ℕ}
      → a ≡ b
      → ◌≡◌ {A = Mapping}
          (if a == 0 then unmapped else leaf 0 a)
          (if b == 0 then unmapped else leaf 0 b)
  same_last e = rw e

  -- One step of a walk above the last level, given the rest of it.
  lookup_step :
      (h : ℕ) (q : List ℕ) (i j : ℕ) (r : List ℕ)
      → own h ≡ some q
      → length q < 3
      → All (λ i. i < 512) (i ∷ j ∷ r)
      → ((k : ℕ)
          → own k ≡ some (i ∷ q)
          → lookup m'.mem (frame_addr k) (j ∷ r) ≡ lookup m.mem (frame_addr k) (j ∷ r))
      → lookup m'.mem (frame_addr h) (i ∷ j ∷ r) ≡ lookup m.mem (frame_addr h) (i ∷ j ∷ r)
  unfolding lookup
  lookup_step h q i j r e short small rest = elim (ℕ_discrete h f) [
    | yes here ↦ elim (ℕ_discrete i idx) [
      | yes at ↦
          rw (here, at, missing, ==-ne _ _ hung.present, hung.not_large, hung.leads)
            (lookup-zeroed m'.mem g (j ∷ r) hung.empty small.1)
      | no away ↦ elsewhere (inr away)
    ]
    | no away ↦ elsewhere (inl away)
  ]
    where
      elsewhere :
          (h ≢ f) ⊎ (i ≢ idx)
          → lookup m'.mem (frame_addr h) (i ∷ j ∷ r) ≡ lookup m.mem (frame_addr h) (i ∷ j ∷ r)
      elsewhere apart =
          rw (same_slot h q i e small.0 apart)
            (elim (ℕ_discrete (m.mem (slot (frame_addr h) i)) 0) [
              | yes z ↦ rw z
              | no ne ↦ elim (ℕ_discrete (large_bit (m.mem (slot (frame_addr h) i))) 0) [
                | no large ↦ rw (==-ne _ _ ne, ==-ne _ _ large)
                | yes table ↦
                    let (k, ek, leads) = tree.child h q i e short small.0 ne table in
                    rw (==-ne _ _ ne, table, leads) (rest k ek)
              ]
            ])

  -- A walk that ends in a table of the last level finds what it found before.
  pub Hung-lookup :
      (h : ℕ) (q r : List ℕ)
      → own h ≡ some q
      → length q + length r ≡ 4
      → All (λ i. i < 512) r
      → lookup m'.mem (frame_addr h) r ≡ lookup m.mem (frame_addr h) r
  unfolding lookup
  Hung-lookup h q [] e deep small = refl
  Hung-lookup h q (i ∷ []) e deep small = same_last (
      same_slot h q i e small.0
        (inl λ here. absurd (omega (arith, ap length (same_path h q e here)))))
  Hung-lookup h q (i ∷ j ∷ r) e deep small =
      lookup_step h q i j r e (omega arith) small
        λ k ek. Hung-lookup k (i ∷ q) (j ∷ r) ek (omega arith) small.1
