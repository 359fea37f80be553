-- ===== src/Kmalloc.antt =====
-- kernel/kernel/kmalloc.c: the choice of a bin.
use pristine.Slab.{total_bins, object_size, bin_alloc}
use pristine.Slab.Free.{bin_free}
use pristine.Machine.{Cmd, pure, kpanic, ◌>>◌}
use pristine.Common.{
  ℕ, zero, suc, ◌+◌, ◌≤◌, ◌<◌, ◌≡◌, refl, ap, ◌∙◌, ◌≢◌, ◌⊎◌, inl, inr, Bool, true, false, List, [],
  ◌∷◌, arith, dec_lt, ℕ_discrete, leb, ◌==◌, if◌then◌else◌, ==-ne, length, get_or,
}

-- The chain of tests from the bin `bin` on, against the bounds that are left.
unfoldable pub kmalloc_from : List ℕ → ℕ → Bool → ℕ → Cmd ℕ
kmalloc_from [] bin debug num_bytes = kpanic
kmalloc_from (bound ∷ bounds) bin debug num_bytes =
    let rest = kmalloc_from bounds (bin + 1) debug num_bytes in
    if leb num_bytes bound then bin_alloc debug bin else rest

abbrev pub kmalloc_bounds : List ℕ
kmalloc_bounds =
    8 ∷ 16 ∷ 24 ∷ 32 ∷ 40 ∷ 48 ∷ 56 ∷ 64 ∷ 80 ∷ 96 ∷ 112 ∷ 128 ∷ 160 ∷ 192 ∷ 224 ∷ 256 ∷ 320 ∷ 384
    ∷ 448 ∷ 512 ∷ 640 ∷ 768 ∷ 896 ∷ 1024 ∷ []

unfoldable pub kmalloc : Bool → ℕ → Cmd ℕ
kmalloc debug num_bytes =
    let chosen = kmalloc_from kmalloc_bounds 0 debug num_bytes in
    if num_bytes == 0 then kpanic else chosen

unfoldable pub kfree : Bool → ℕ → Cmd (Unit {0})
kfree debug ptr = do bin_free debug ptr; pure tt

-- What `kmalloc` does with a number of bytes.
pub data Served (debug : Bool) (num_bytes : ℕ) (call : Cmd ℕ) : Type 0 where
  served :
      (bin : ℕ)
      → 0 < num_bytes
      → bin < total_bins
      → num_bytes ≤ object_size bin
      → ((smaller : ℕ) → smaller < bin → object_size smaller < num_bytes)
      → call ≡ bin_alloc debug bin
      → Served debug num_bytes call
  refused : (num_bytes ≡ 0) ⊎ (1024 < num_bytes) → call ≡ kpanic → Served debug num_bytes call

-- The first bound that fits, and what came before it.
data Chosen (debug : Bool) (num_bytes : ℕ) (bounds : List ℕ) (bin : ℕ) (call : Cmd ℕ) : Type 0 where
  chosen :
      (i : ℕ)
      → i < length bounds
      → num_bytes ≤ get_or bounds i 0
      → ((j : ℕ) → j < i → get_or bounds j 0 < num_bytes)
      → call ≡ bin_alloc debug (bin + i)
      → Chosen debug num_bytes bounds bin call
  none_fits :
      ((j : ℕ) → j < length bounds → get_or bounds j 0 < num_bytes)
      → call ≡ kpanic
      → Chosen debug num_bytes bounds bin call

before_suc :
    (bound : ℕ) (bounds : List ℕ) (num_bytes i : ℕ)
    → bound < num_bytes
    → ((j : ℕ) → j < i → get_or bounds j 0 < num_bytes)
    → (j : ℕ) → j < suc i
    → get_or (bound ∷ bounds) j 0 < num_bytes
before_suc bound bounds num_bytes i less rest zero lt = less
before_suc bound bounds num_bytes i less rest (suc j) lt = rest j (omega arith)

kmalloc_from-Chosen :
    (debug : Bool) (num_bytes : ℕ) (bounds : List ℕ) (bin : ℕ)
    → Chosen debug num_bytes bounds bin (kmalloc_from bounds bin debug num_bytes)
unfolding kmalloc_from
kmalloc_from-Chosen debug num_bytes [] bin = none_fits (λ j lt. absurd (omega arith)) refl
kmalloc_from-Chosen debug num_bytes (bound ∷ bounds) bin = elim (dec_lt bound num_bytes) [
  | no fits ↦
      let test : leb num_bytes bound ≡ true = ground arith in
      rw test (
        chosen 0 (omega arith) (omega arith) (λ j lt. absurd (omega arith))
          (ap (bin_alloc debug) (omega arith)))
  | yes small ↦
      let test : leb num_bytes bound ≡ false = ground arith in
      rw test (later small (kmalloc_from-Chosen debug num_bytes bounds (bin + 1)))
]
  where
    later :
        {call : Cmd ℕ}
        → bound < num_bytes
        → Chosen debug num_bytes bounds (bin + 1) call
        → Chosen debug num_bytes (bound ∷ bounds) bin call
    later small (chosen i lt fits before call_eq) =
        chosen (suc i) (omega arith) fits (before_suc bound bounds num_bytes i small before)
          (call_eq ∙ ap (bin_alloc debug) (omega arith))
    later small (none_fits too_small call_eq) =
        none_fits (before_suc bound bounds num_bytes (length bounds) small too_small) call_eq

-- `kmalloc` of 1 to 1024 bytes is `bin_alloc` of the bin with the smallest objects that hold them;
-- for 0 bytes and for more it panics.
pub kmalloc-Served :
    (debug : Bool) (num_bytes : ℕ) → Served debug num_bytes (kmalloc debug num_bytes)
unfolding kmalloc
kmalloc-Served debug num_bytes = elim (ℕ_discrete num_bytes 0) [
  | yes none_asked ↦ rw none_asked (refused (inl refl) refl)
  | no some_bytes ↦
      rw (==-ne _ _ some_bytes)
        (from_chosen some_bytes (kmalloc_from-Chosen debug num_bytes kmalloc_bounds 0))
]
  where
    from_chosen :
        {call : Cmd ℕ}
        → num_bytes ≢ 0
        → Chosen debug num_bytes kmalloc_bounds 0 call
        → Served debug num_bytes call
    from_chosen some_bytes (chosen i lt fits before call_eq) =
        served i (omega (arith, some_bytes)) lt fits before
          (call_eq ∙ ap (bin_alloc debug) (omega arith))
    from_chosen some_bytes (none_fits too_small call_eq) =
        refused (inr (too_small 23 (omega arith))) call_eq
