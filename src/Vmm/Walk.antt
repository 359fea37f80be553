-- ===== src/Vmm/Walk.antt =====
-- kernel/kernel/vmm.c: one level of the walk in the mapping functions, and what the whole walk
-- leaves alone.
use pristine.Pmm.Count.{free_pages}
use pristine.Common.{
  ℕ, ◌+◌, ◌%◌, ◌≤◌, ◌<◌, ◌≡◌, refl, sym, ap, ◌∙◌, ◌≢◌, ◌⊎◌, inl, inr, Bool, true, false, ◌&&◌, none,
  some, List, [], ◌∷◌, arith, ℕ_discrete, ==-ne, length, All, update, update_self, update-ne,
}
use pristine.Machine.{Machine, Returns, Returns-mono}
use pristine.Vmm.{slot, table_of, table_flags, new_table, next_table}
use pristine.Vmm.Tables.{
  frame_addr, unmapped, large_bit, lookup, Owners, rights_of, IsTree, table_flags-rights,
  table_flags-bounds, lookup-zeroed,
}
use pristine.Vmm.Hang.{InPage, Hung, new_table-Hung}
use pristine.Vmm.Grow.{grown_entry, Hung-IsTree, Hung-lookup}
use pristine.Pmm.Frames.{FrameUsed}
use pristine.Bitmap.Bits.{bit}

-- A non-zero entry of a table above the last level has the rights of tables for `flags`, or stood in
-- the same table before.
abbrev pub TableRights : ℕ → Machine → Owners → Machine → Owners → Type 0
TableRights flags m own m' own' =
    (f : ℕ) (p : List ℕ) (i : ℕ)
    → own' f ≡ some p
    → length p < 3
    → i < 512
    → m'.mem (slot (frame_addr f) i) ≢ 0
    → (m'.mem (slot (frame_addr f) i) % 4096 ≡ rights_of flags)
      ⊎ ((own f ≡ some p) × (m'.mem (slot (frame_addr f) i) ≡ m.mem (slot (frame_addr f) i)))

-- From one state to another: full walks find the same, data in used frames that hold no table is
-- unchanged, at most `n` frames were taken, used frames stay used, and an entry above the last level is
-- what it was, or has exactly the rights of tables for `flags`.
pub record Grows (root flags : ℕ) (m : Machine) (own : Owners) (n : ℕ) (m' : Machine)
    (own' : Owners) : Type 0 where
  pub walks :
      (s : List ℕ)
      → length s ≡ 4
      → All (λ i. i < 512) s
      → lookup m'.mem (frame_addr root) s ≡ lookup m.mem (frame_addr root) s
  pub contents :
      (h a : ℕ)
      → FrameUsed m h
      → own h ≡ none
      → InPage h a
      → FrameUsed m' h × (own' h ≡ none) × (m'.mem a ≡ m.mem a)
  pub taken : free_pages m ≤ free_pages m' + n
  pub still : (h : ℕ) → FrameUsed m h → FrameUsed m' h
  pub entries : TableRights flags m own m' own'

pub Grows-trans :
    {root flags : ℕ} {m : Machine} {own : Owners} {n : ℕ} {m' : Machine} {own' : Owners} {n' : ℕ}
    {m'' : Machine} {own'' : Owners}
    → Grows root flags m own n m' own'
    → Grows root flags m' own' n' m'' own''
    → Grows root flags m own (n + n') m'' own''
Grows-trans first next = record {
  walks = λ s len small. next.walks s len small ∙ first.walks s len small;
  contents = λ h a used data_frame inside.
      let (used', data', same) = first.contents h a used data_frame inside in
      let (used'', data'', same') = next.contents h a used' data' inside in
      (used'', data'', same' ∙ same);
  taken = omega (arith, first.taken, next.taken);
  still = λ h used. next.still h (first.still h used);
  entries = λ f p i e above lt ne. elim (next.entries f p i e above lt ne) [
    | inl new ↦ inl new
    | inr (e', same) ↦ elim (first.entries f p i e' above lt (λ z. ne (same ∙ z))) [
      | inl new ↦ inl (rw same new)
      | inr (e'', same') ↦ inr (e'', same ∙ same')
    ]
  ];
}

-- The walk came to the table in frame `g`, below entry `i`, and the rest `r` of the path leads
-- nowhere from there.
pub record Stepped (root flags : ℕ) (m : Machine) (own : Owners) (i : ℕ) (p r : List ℕ) (t : ℕ)
    (m' : Machine) : Type 0 where
  pub own' : Owners
  pub g : ℕ
  pub address : t ≡ frame_addr g
  pub tree : IsTree m' root own'
  pub owned : own' g ≡ some (i ∷ p)
  pub missing : lookup m'.mem (frame_addr g) r ≡ unmapped
  pub grows : Grows root flags m own 1 m' own'

pub debug_quiet : (debug no_ps : Bool) → (debug && (no_ps && false)) ≡ false
debug_quiet true true = refl
debug_quiet true false = refl
debug_quiet false no_ps = refl

pub lookup-table :
    (mem : ℕ → ℕ) (t i j : ℕ) (r : List ℕ)
    → mem (slot t i) ≢ 0
    → large_bit (mem (slot t i)) ≡ 0
    → lookup mem t (i ∷ j ∷ r) ≡ lookup mem (table_of (mem (slot t i))) (j ∷ r)
unfolding lookup
lookup-table mem t i j r present table = rw (==-ne _ _ present, table)

large_found :
    (mem : ℕ → ℕ) (t i j : ℕ) (r : List ℕ)
    → mem (slot t i) ≢ 0
    → large_bit (mem (slot t i)) ≢ 0
    → lookup mem t (i ∷ j ∷ r) ≡ unmapped
    → ⊥
unfolding lookup
large_found mem t i j r present large none_yet =
    cc (rw (==-ne _ _ present, ==-ne _ _ large) at none_yet)

module _ {root : ℕ} {m : Machine} {own : Owners} (tree : IsTree m root own) where
  Hung-Grows :
      {f idx g flags : ℕ} {p : List ℕ} {m' : Machine}
      → own f ≡ some p
      → length p < 3
      → idx < 512
      → m.mem (slot (frame_addr f) idx) ≡ 0
      → Hung m f idx g (table_flags flags) m'
      → Grows root flags m own 1 m' (update own g (some (idx ∷ p)))
  Hung-Grows {f} {idx} {g} {flags} {p} owned above in_table missing hung = record {
    walks = λ s len small.
        Hung-lookup tree owned above in_table missing (table_flags-bounds flags).2 hung root [] s
          tree.at_root (omega arith) small;
    contents = λ h a used data_frame inside.
        let other : h ≢ g =
          λ e. absurd (omega (arith, used, hung.was_free, ap (bit m.pmm_bitmap) e)) in
        let table_page : h ≢ f = λ e. cc in
        (
          ground (arith, hung.now h, used),
          update-ne own g (some (idx ∷ p)) h other ∙ data_frame,
          hung.same a (λ e. table_page (omega arith)) (λ within. other (omega arith)),
        );
    taken = omega (arith, hung.fewer);
    still = λ h used. ground (arith, hung.now h, used);
    entries = λ h q i e above' lt ne.
        elim (grown_entry tree owned above in_table missing (table_flags-bounds flags).2 hung h q i
          e lt ne) [ inl new ↦ inl (new ∙ table_flags-rights flags) | inr old ↦ inr old ];
  }

  -- Where the walk leads nowhere from a table, a non-zero entry on it leads to a table from where
  -- the rest leads nowhere.
  walk_on :
      {f : ℕ} {p : List ℕ} (i j : ℕ) (r : List ℕ)
      → own f ≡ some p
      → length p < 3
      → i < 512
      → m.mem (slot (frame_addr f) i) ≢ 0
      → lookup m.mem (frame_addr f) (i ∷ j ∷ r) ≡ unmapped
      → (large_bit (m.mem (slot (frame_addr f) i)) ≡ 0)
        × (k : ℕ) × (own k ≡ some (i ∷ p))
        × (table_of (m.mem (slot (frame_addr f) i)) ≡ frame_addr k)
        × (lookup m.mem (frame_addr k) (j ∷ r) ≡ unmapped)
  walk_on {f} {p} i j r owned above small present none_yet =
      let table = not_large in
      let (k, ek, leads) = tree.child f p i owned above small present table in
      (table, k, ek, leads, ap (λ t. lookup m.mem t (j ∷ r)) (sym leads) ∙ deeper table)
    where
      not_large : large_bit (m.mem (slot (frame_addr f) i)) ≡ 0
      not_large = elim (ℕ_discrete (large_bit (m.mem (slot (frame_addr f) i))) 0) [
        | yes table ↦ table
        | no large ↦ absurd (large_found m.mem (frame_addr f) i j r present large none_yet)
      ]

      deeper :
          large_bit (m.mem (slot (frame_addr f) i)) ≡ 0
          → lookup m.mem (table_of (m.mem (slot (frame_addr f) i))) (j ∷ r) ≡ unmapped
      deeper table = sym (lookup-table m.mem (frame_addr f) i j r present table) ∙ none_yet

  -- Where the path leads nowhere, a step of the walk succeeds if a page is free, and hangs a new
  -- table where there was none.
  pub next_table-Stepped :
      (debug no_ps : Bool) {f : ℕ} {p : List ℕ} (i j : ℕ) (r : List ℕ) (flags : ℕ)
      → own f ≡ some p
      → length p < 3
      → All (λ i. i < 512) (i ∷ j ∷ r)
      → lookup m.mem (frame_addr f) (i ∷ j ∷ r) ≡ unmapped
      → 0 < free_pages m
      → Returns
          (Stepped root flags m own i p (j ∷ r))
          (next_table debug no_ps (frame_addr f) i (table_flags flags) m)
  unfolding next_table
  next_table-Stepped debug no_ps {f} {p} i j r flags owned above small none_yet some_free =
      elim (ℕ_discrete (m.mem (slot (frame_addr f) i)) 0) [
        | yes empty ↦ rw empty (
            Returns-mono _ _ (new_table debug (frame_addr f) i (table_flags flags) m)
              (λ t m' (g, address, hung). record {
                own' = update own g (some (i ∷ p));
                g = g;
                address = address;
                tree = Hung-IsTree tree owned above small.0 empty (table_flags-bounds flags).2 hung;
                owned = update_self own g (some (i ∷ p));
                missing = lookup-zeroed m'.mem g (j ∷ r) hung.empty small.1;
                grows = Hung-Grows owned above small.0 empty hung;
              })
              (new_table-Hung debug m f i (table_flags flags) tree.pmm (tree.used f p owned).0
                small.0 (table_flags-bounds flags).0 (table_flags-bounds flags).1 some_free))
        | no present ↦
            let (table, g, eg, leads, none_below) =
              walk_on i j r owned above small.0 present none_yet in
            rw (==-ne _ _ present, table, debug_quiet debug no_ps)
              (record {
                own' = own;
                g = g;
                address = leads;
                tree = tree;
                owned = eg;
                missing = none_below;
                grows = record {
                  walks = λ s len fits. refl;
                  contents = λ h a used data_frame inside. (used, data_frame, refl);
                  taken = omega arith;
                  still = λ h used. used;
                  entries = λ h q k e above' lt ne. inr (e, refl);
                };
              })
      ]
