-- ===== src/Pages/Fresh.antt =====
-- Consecutive pages mapped to fresh frames.
use pristine.Vmm.Tables.{frame_addr, unmapped, leaf, Owners, IsTree}
use pristine.Machine.{Machine, Returns, Returns-mono, bind-Returns}
use pristine.Pmm.Count.{free_pages, pmm_alloc_total}
use pristine.Vmm.{vmm_map}
use pristine.Vmm.Map.{translate, page_of, Mapped, vmm_map-Mapped}
use pristine.Pmm.{page_size, pmm_alloc}
use pristine.Common.{
  ℕ, zero, suc, ◌+◌, ◌*◌, ◌%◌, ◌^◌, ◌≤◌, ◌<◌, bit_or, ◌≡◌, refl, sym, ap, ◌∙◌, subst, ◌≢◌, inl, inr,
  Bool, none, arith, ℕ_discrete, Option-cases,
}
use pristine.Pmm.Frames.{FrameUsed, FrameFree, Allocated}
use pristine.Pages.{map_fresh}
use pristine.Bitmap.Bits.{bit, bit-le, bit-set, bitmap_set-IsBytes}

Allocated-IsTree :
    {m : Machine} {page : ℕ} {m' : Machine} {root : ℕ} {own : Owners}
    → IsTree m root own
    → Allocated m page m'
    → IsTree m' root own
Allocated-IsTree {m} {page} {m'} {root} {own} tree a =
    subst (λ s. IsTree s root own) (sym a.state)
      (record {
        pmm = record {
          bytes = bitmap_set-IsBytes m.pmm_bitmap a.frame tree.pmm.bytes;
          counted = tree.pmm.counted;
        };
        at_root = tree.at_root;
        only_root = tree.only_root;
        short = tree.short;
        used = λ f p e.
            let (now, in_map) = tree.used f p e in
            (ground (arith, bit-set m.pmm_bitmap a.frame f, now), in_map);
        child = tree.child;
        present = tree.present;
        parent = tree.parent;
      })

-- The page `i` after the one of `s`.
abbrev pub page_after : ℕ → ℕ → ℕ
page_after s i = s + i * page_size

-- `n` pages from `s` on are mapped with these flags, each to a frame of its own that was free, is in
-- use now and holds no table; the walk finds for every other page what it found before, used frames
-- stay used, and those that held no table hold none now.
pub record Extended (m : Machine) (root : ℕ) (own : Owners) (s n flags : ℕ) (m' : Machine)
    : Type 0 where
  pub own' : Owners
  pub tree : IsTree m' root own'
  pub frame_of : ℕ → ℕ
  pub mapped :
      (i : ℕ)
      → i < n
      → translate m' root (page_after s i) ≡ leaf 0 (bit_or (frame_of i * page_size) flags)
  pub was_free : (i : ℕ) → i < n → FrameFree m (frame_of i)
  pub taken : (i : ℕ) → i < n → FrameUsed m' (frame_of i) × (own' (frame_of i) ≡ none)
  pub distinct : (i j : ℕ) → i < n → j < n → i ≢ j → frame_of i ≢ frame_of j
  pub elsewhere :
      (w : ℕ)
      → ((i : ℕ) → i < n → page_of w ≢ page_of (page_after s i))
      → translate m' root w ≡ translate m root w
  pub still : (h : ℕ) → FrameUsed m h → FrameUsed m' h
  pub kept : (h : ℕ) → FrameUsed m h → own h ≡ none → FrameUsed m' h × (own' h ≡ none)

other_page :
    (s i j : ℕ)
    → s % page_size ≡ 0
    → i ≢ j
    → page_after s i < 2 ^ 48
    → page_after s j < 2 ^ 48
    → page_of (page_after s i) ≢ page_of (page_after s j)
other_page s i j aligned ne a b = omega arith

Allocated-translate :
    {m : Machine} {page : ℕ} {m' : Machine} (root w : ℕ)
    → Allocated m page m'
    → translate m' root w ≡ translate m root w
Allocated-translate root w a = ap (λ t. translate t root w) a.state

after_suc : (s i : ℕ) → page_after (s + page_size) i ≡ page_after s (suc i)
after_suc s i = omega arith

after_zero : (s : ℕ) → page_after s 0 ≡ s
after_zero s = omega arith

-- The frame of the first page, and those of the others.
abbrev frames_from : ℕ → (ℕ → ℕ) → ℕ → ℕ
frames_from first rest zero = first
frames_from first rest (suc i) = rest i

-- A frame that is free holds no table.
free_frame :
    {m : Machine} {root : ℕ} {own : Owners} (f : ℕ)
    → IsTree m root own
    → FrameFree m f
    → own f ≡ none
free_frame {m} {root} {own} f tree free = elim (Option-cases (own f)) [
  | inl none_there ↦ none_there
  | inr (p, there) ↦ absurd (omega (arith, free, (tree.used f p there).0))
]

-- One page, then `n` more.
module _ {m m1 m2 m3 : Machine} {root : ℕ} {own : Owners} {page : ℕ} (s n flags : ℕ)
    (aligned : s % page_size ≡ 0) (small : page_after s (suc n) ≤ 2 ^ 48) (tree : IsTree m root own)
    (a : Allocated m page m1) (p : Mapped m1 root own s (bit_or page flags) flags m2)
    (e : Extended m2 root p.own' (s + page_size) n flags m3) where
  abbrev frames : ℕ → ℕ
  frames = frames_from a.frame e.frame_of

  first_still : (h : ℕ) → FrameUsed m h → FrameUsed m2 h
  first_still h used = p.still h (ground (arith, a.now h, used))

  first_taken : FrameUsed m2 a.frame × (p.own' a.frame ≡ none)
  first_taken = p.kept a.frame (ground (arith, a.now a.frame)) (free_frame a.frame tree a.was_free)

  step_mapped :
      (i : ℕ)
      → i < suc n
      → translate m3 root (page_after s i) ≡ leaf 0 (bit_or (frames i * page_size) flags)
  step_mapped zero lt =
      ap (translate m3 root) (after_zero s)
      ∙ e.elsewhere s (λ i lt eq.
        other_page s 0 (suc i) aligned (λ z. absurd (omega arith)) (omega arith) (omega arith)
          (ap page_of (after_zero s) ∙ eq ∙ ap page_of (after_suc s i)))
      ∙ p.here
      ∙ ap (λ f. leaf 0 (bit_or f flags)) a.address
  step_mapped (suc i) lt = ap (translate m3 root) (sym (after_suc s i)) ∙ e.mapped i (omega arith)

  step_free : (i : ℕ) → i < suc n → FrameFree m (frames i)
  step_free zero lt = a.was_free
  step_free (suc i) lt =
      let f = e.frame_of i in
      let free = e.was_free i (omega arith) in
      elim (ℕ_discrete (bit m.pmm_bitmap f) 1) [
        | yes used ↦ absurd (omega (arith, free, first_still f used))
        | no unused ↦ omega (arith, unused, bit-le m.pmm_bitmap f)
      ]

  step_taken : (i : ℕ) → i < suc n → FrameUsed m3 (frames i) × (e.own' (frames i) ≡ none)
  step_taken zero lt = e.kept a.frame first_taken.0 first_taken.1
  step_taken (suc i) lt = e.taken i (omega arith)

  first_apart : (i : ℕ) → i < n → a.frame ≢ e.frame_of i
  first_apart i lt same =
      absurd (omega (arith, e.was_free i lt, first_taken.0, ap (bit m2.pmm_bitmap) same))

  step_distinct : (i j : ℕ) → i < suc n → j < suc n → i ≢ j → frames i ≢ frames j
  step_distinct zero zero lt lt' ne same = ne refl
  step_distinct zero (suc j) lt lt' ne same = first_apart j (omega arith) same
  step_distinct (suc i) zero lt lt' ne same = first_apart i (omega arith) (sym same)
  step_distinct (suc i) (suc j) lt lt' ne same =
      e.distinct i j (omega arith) (omega arith) (λ z. ne (ap suc z)) same

  Extended-step : Extended m root own s (suc n) flags m3
  Extended-step = record {
    own' = e.own';
    tree = e.tree;
    frame_of = frames;
    mapped = step_mapped;
    was_free = step_free;
    taken = step_taken;
    distinct = step_distinct;
    elsewhere = λ w away.
        e.elsewhere w (λ i lt eq. away (suc i) (omega arith) (eq ∙ ap page_of (after_suc s i)))
        ∙ p.elsewhere w (λ eq. away 0 (omega arith) (eq ∙ ap page_of (sym (after_zero s))))
        ∙ Allocated-translate root w a;
    still = λ h used. e.still h (first_still h used);
    kept = λ h used data_frame.
        let (used', data') = p.kept h (ground (arith, a.now h, used)) data_frame in
        e.kept h used' data';
  }

-- With four free frames for each page, the loop maps `n` unmapped pages in the lower half of the
-- address space, each to a frame of its own that was free before and holds no table; every other page
-- is found as before, and the well-formed tree stays one.
pub map_fresh-Extended :
    (debug : Bool) (n : ℕ) {m : Machine} {root : ℕ} {own : Owners} (s flags : ℕ)
    → IsTree m root own
    → s % page_size ≡ 0
    → page_after s n ≤ 2 ^ 48
    → flags % 2 ≡ 1
    → ((i : ℕ) → i < n → translate m root (page_after s i) ≡ unmapped)
    → 4 * n ≤ free_pages m
    → Returns
        (λ _ m'. Extended m root own s n flags m')
        (map_fresh debug (frame_addr root) n s flags m)
unfolding map_fresh
map_fresh-Extended debug zero {m} {root} {own} s flags tree aligned small present none_yet room =
    record {
      own' = own;
      tree = tree;
      frame_of = λ i. 0;
      mapped = λ i lt. absurd (omega arith);
      was_free = λ i lt. absurd (omega arith);
      taken = λ i lt. absurd (omega arith);
      distinct = λ i j lt. absurd (omega arith);
      elsewhere = λ w h. refl;
      still = λ h used. used;
      kept = λ h used data_frame. (used, data_frame);
    }
map_fresh-Extended debug (suc n) {m} {root} {own} s flags tree aligned small present none_yet room =
    bind-Returns _ _ (pmm_alloc debug m) _ (pmm_alloc_total debug m tree.pmm (omega arith))
      λ page m1 (a, fewer).
        bind-Returns _ _ (vmm_map debug (frame_addr root) page s flags m1) _
          (vmm_map-Mapped debug page s flags (Allocated-IsTree tree a) (omega (arith, a.address))
            aligned present (Allocated-translate root s a ∙ first) (omega arith))
          λ _ m2 p. rw next (
            Returns-mono _ _ (map_fresh debug (frame_addr root) n (s + page_size) flags m2)
              (λ _ m3 e. Extended-step s n flags aligned small tree a p e)
              (map_fresh-Extended debug n (s + page_size) flags p.tree (omega arith) (omega arith)
                present
                (λ i lt.
                  p.elsewhere (page_after (s + page_size) i) (λ eq. apart i lt (sym eq))
                  ∙ Allocated-translate root (page_after (s + page_size) i) a
                  ∙ ap (translate m root) (after_suc s i)
                  ∙ none_yet (suc i) (omega arith))
                (omega (arith, p.taken))))
  where
    first : translate m root s ≡ unmapped
    first = ap (translate m root) (sym (after_zero s)) ∙ none_yet 0 (omega arith)

    next : (s + page_size) % 2 ^ 64 ≡ s + page_size
    next = omega arith

    apart : (i : ℕ) → i < n → page_of s ≢ page_of (page_after (s + page_size) i)
    apart i lt eq =
        other_page s 0 (suc i) aligned (λ z. absurd (omega arith)) (omega arith) (omega arith)
          (ap page_of (after_zero s) ∙ eq ∙ ap page_of (after_suc s i))
