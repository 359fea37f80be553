-- ===== src/Pmm/Count.antt =====
-- kernel/kernel/pmm.c: what allocation and release do to the count of free pages, and that they
-- undo each other.
use pristine.Bitmap.{Bitmap, bitmap_test}
use pristine.Bitmap.Bits.{bit, Free-bit, bitmap_set-IsBytes}
use pristine.Common.{
  ℕ, zero, suc, ◌+◌, ◌≤◌, ◌<◌, ◌≡◌, refl, sym, ap, ◌∙◌, subst, ◌≢◌, ◌⊎◌, inl, inr, Bool, arith,
  ℕ_discrete, ◌==◌, if◌then◌else◌, Bool-cases,
}
use pristine.Machine.{Machine, Outcome, ok, Returns, Returns-mono}
use pristine.Pmm.{bit_count, pmm_alloc, pmm_free, count_free, pmm_get_free_page_count}
use pristine.Pmm.Frames.{
  IsPmm, FrameUsed, FrameFree, Allocated, AllocOutcome, allocated, exhausted, pmm_alloc_lem,
  frame_of, pmm_free_lem,
}

test_bit : (b : Bitmap) (i : ℕ) → (bitmap_test b i == 0) ≡ (bit b i == 0)
test_bit b i = ground (arith, (Free-bit b i).0, (Free-bit b i).1)

count_free-suc : (n : ℕ) (b : Bitmap) (i c : ℕ) → count_free n b i (c + 1) ≡ count_free n b i c + 1
unfolding count_free
count_free-suc zero b i c = refl
count_free-suc (suc n) b i c = elim (Bool-cases (bitmap_test b i == 0)) [
  | inl free ↦ rw free (count_free-suc n b (i + 1) (c + 1))
  | inr used ↦ rw used (count_free-suc n b (i + 1) c)
]

-- Two maps that differ at most in bit `k`.
module _ (b b' : Bitmap) (k : ℕ) (same : (j : ℕ) → j ≢ k → bit b' j ≡ bit b j) where
  count_free-same : (n i c : ℕ) → (k < i) ⊎ (i + n ≤ k) → count_free n b' i c ≡ count_free n b i c
  unfolding count_free
  count_free-same zero i c out = refl
  count_free-same (suc n) i c out =
      rw (test_bit b i, test_bit b' i, same i (ground arith))
        (count_free-same n (i + 1) (if bit b i == 0 then c + 1 else c) (ground arith))

  -- If the bit is clear in the one and set in the other, the counts differ by one.
  count_free-differ :
      (n i c : ℕ)
      → bit b k ≡ 0
      → bit b' k ≡ 1
      → i ≤ k
      → k < i + n
      → count_free n b i c ≡ count_free n b' i c + 1
  unfolding count_free
  count_free-differ zero i c clear taken lo hi = absurd (omega arith)
  count_free-differ (suc n) i c clear taken lo hi = elim (ℕ_discrete i k) [
    | yes here ↦
        rw (test_bit b i, test_bit b' i, here, clear, taken)
          (count_free-suc n b (k + 1) c
            ∙ ap (λ t. t + 1) (sym (count_free-same n (k + 1) c (inl (omega arith)))))
    | no away ↦
        rw (test_bit b i, test_bit b' i, same i away)
          (count_free-differ n (i + 1) (if bit b i == 0 then c + 1 else c) clear taken (omega arith)
            (omega arith))
  ]

-- The number that `pmm_get_free_page_count` returns.
abbrev pub free_pages : Machine → ℕ
free_pages m = count_free (bit_count m) m.pmm_bitmap 0 0

pub pmm_get_free_page_count-eq : (m : Machine) → pmm_get_free_page_count m ≡ ok (free_pages m) m
unfolding pmm_get_free_page_count
pmm_get_free_page_count-eq m = refl

-- A page that `pmm_alloc` returns can be given back by `pmm_free`: the count of free pages falls
-- by one and rises again, every bit is as before, and neither call panics.
pub record Borrowed (debug : Bool) (m : Machine) (page : ℕ) (m' : Machine) : Type 0 where
  pub fewer : free_pages m ≡ free_pages m' + 1
  pub kept : IsPmm m'
  pub given_back :
      Returns
        (λ _ back.
          (free_pages back ≡ free_pages m) × ((j : ℕ) → bit back.pmm_bitmap j ≡ bit m.pmm_bitmap j))
        (pmm_free debug page m')

-- Where a frame that was free is in use, one page fewer is free.
free_pages_taken :
    (m m' : Machine) (k : ℕ)
    → m'.pmm_bitmap_size ≡ m.pmm_bitmap_size
    → ((j : ℕ) → bit m'.pmm_bitmap j ≡ (if k == j then 1 else bit m.pmm_bitmap j))
    → FrameFree m k
    → k < bit_count m
    → free_pages m ≡ free_pages m' + 1
free_pages_taken m m' k size now free below = rw size (
    count_free-differ m.pmm_bitmap m'.pmm_bitmap k (λ j ne. ground (arith, now j)) (bit_count m) 0 0
      free (ground (arith, now k)) (omega arith) (omega arith))

Allocated-of_ok :
    {m : Machine} {o : Outcome ℕ} {page : ℕ} {m' : Machine}
    → AllocOutcome m o
    → o ≡ ok page m'
    → Allocated m page m'
Allocated-of_ok {m} {page = q} {m' = k} (allocated {page = p} {m' = n} a) e =
    let pages : p ≡ q = cc in
    let states : n ≡ k = cc in
    subst (λ x. Allocated m x k) pages (subst (λ s. Allocated m p s) states a)
Allocated-of_ok (exhausted full) e = cc

pub Allocated-of_alloc :
    (debug : Bool) {m : Machine} {page : ℕ} {m' : Machine}
    → IsPmm m
    → pmm_alloc debug m ≡ ok page m'
    → Allocated m page m'
Allocated-of_alloc debug {m} inv e = Allocated-of_ok (pmm_alloc_lem debug m inv) e

pub Allocated-IsPmm :
    {m : Machine} {page : ℕ} {m' : Machine} → IsPmm m → Allocated m page m' → IsPmm m'
Allocated-IsPmm {m} inv a =
    rw a.state
      (record { bytes = bitmap_set-IsBytes m.pmm_bitmap a.frame inv.bytes; counted = inv.counted })

pub Allocated-fewer :
    {m : Machine} {page : ℕ} {m' : Machine}
    → IsPmm m
    → Allocated m page m'
    → free_pages m ≡ free_pages m' + 1
Allocated-fewer {m} {m'} inv a =
    free_pages_taken m m' a.frame (ap (λ s. s.pmm_bitmap_size) a.state) a.now a.was_free
      (omega (arith, a.in_map, inv.counted))

-- A page that `pmm_alloc` returns can be given back by `pmm_free`: the count of free pages falls
-- by one and rises again, every bit is as before, and no call panics.
pub pmm_free-pmm_alloc :
    (debug : Bool) (m : Machine) {page : ℕ} {m' : Machine}
    → IsPmm m
    → pmm_alloc debug m ≡ ok page m'
    → Borrowed debug m page m'
pmm_free-pmm_alloc debug m {page} {m'} inv e = record {
  fewer = fewer;
  kept = Allocated-IsPmm inv a;
  given_back =
      Returns-mono _ _ (pmm_free debug page m')
        (λ _ back (state, bits).
          let restored : (j : ℕ) → bit back.pmm_bitmap j ≡ bit m.pmm_bitmap j =
            λ j. ground (arith, bits j, number, a.was_free, a.now j) in
          let more : free_pages back ≡ free_pages m' + 1 =
            free_pages_taken back m' a.frame (sym (ap (λ s. s.pmm_bitmap_size) state))
              (λ j. a.now j ∙ ap (if_taken j) (sym (restored j))) (restored a.frame ∙ a.was_free)
              (omega (arith, below, size, ap (λ s. s.pmm_bitmap_size) state)) in
          (more ∙ sym fewer, restored))
        (pmm_free_lem debug m' page (omega (arith, a.address)) (rw number now_used));
}
  where
    a : Allocated m page m'
    a = Allocated-of_alloc debug inv e

    number : frame_of page ≡ a.frame
    number = omega (arith, a.address, a.in_map, inv.counted)

    size : m'.pmm_bitmap_size ≡ m.pmm_bitmap_size
    size = ap (λ s. s.pmm_bitmap_size) a.state

    below : a.frame < bit_count m
    below = omega (arith, a.in_map, inv.counted)

    fewer : free_pages m ≡ free_pages m' + 1
    fewer = Allocated-fewer inv a

    now_used : FrameUsed m' a.frame
    now_used = ground (arith, a.now a.frame)

    if_taken : ℕ → ℕ → ℕ
    if_taken j v = if a.frame == j then 1 else v

-- Where every bit is set nothing is counted.
count_free-full :
    (n : ℕ) (b : Bitmap) (i c : ℕ) → ((j : ℕ) → j < i + n → bit b j ≡ 1) → count_free n b i c ≡ c
unfolding count_free
count_free-full zero b i c used = refl
count_free-full (suc n) b i c used =
    rw (test_bit b i, used i (omega arith))
      (count_free-full n b (i + 1) c λ j lt. used j (omega arith))

alloc_total :
    {m : Machine} {o : Outcome ℕ}
    → IsPmm m
    → 0 < free_pages m
    → AllocOutcome m o
    → Returns (λ page m'. Allocated m page m') o
alloc_total inv some_free (allocated a) = a
alloc_total {m} inv some_free (exhausted full) = absurd (
    omega (
      arith,
      count_free-full (bit_count m) m.pmm_bitmap 0 0 (λ j lt. full j (omega (arith, inv.counted))),
    ))

-- As long as a page is free, `pmm_alloc` returns one, and one fewer is free then.
pub pmm_alloc_total :
    (debug : Bool) (m : Machine)
    → IsPmm m
    → 0 < free_pages m
    → Returns
        (λ page m'. Allocated m page m' × (free_pages m ≡ free_pages m' + 1))
        (pmm_alloc debug m)
pmm_alloc_total debug m inv some_free =
    Returns-mono _ _ (pmm_alloc debug m) (λ page m' a. (a, Allocated-fewer inv a))
      (alloc_total inv some_free (pmm_alloc_lem debug m inv))
