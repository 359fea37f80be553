-- ===== src/Slab/Objects.antt =====
-- kernel/kernel/slab.c: `bin_alloc` and `bin_free` on a slab that stays in the list of its bin.
use pristine.Pmm.{page_size}
use pristine.Machine.{Machine, ok, ◌>>=◌, Returns, Returns-mono, bind-Returns}
use pristine.Slab.Stack.{
  Linked, Absent, InSlab, IsSlab, Touched, slab_of-object, max_objects-lt, Linked-update,
  with_header, with_header-IsSlab, with_header-Touched,
}
use pristine.Pmm.Frames.{and_false}
use pristine.Slab.{
  slab_virt_start, slab_virt_end, total_bins, max_objects, count_at, next_free_at, take_object,
  bin_alloc,
}
use pristine.Slab.Free.{put_object, bin_free}
use pristine.Common.{
  ℕ, ◌+◌, ◌-◌, ◌*◌, ◌/◌, ◌%◌, ◌^◌, ◌≤◌, ◌<◌, ◌≡◌, refl, sym, ap, ◌∙◌, subst, Bool, true, false,
  ◌||◌, List, ◌∷◌, arith, ltb, leb, ◌==◌, ==-refl, ==-ne, length, update, update_self, update-ne,
}

take_object-eq :
    (m : Machine) (bin slab a b : ℕ) (rest : List ℕ)
    → m.free_slabs bin ≡ slab
    → IsSlab m bin slab (a ∷ b ∷ rest)
    → take_object bin m
      ≡ ok a
          (record m { mem = with_header m.mem slab (m.mem a) (m.mem (count_at slab) % 2 ^ 32 + 1) })
unfolding take_object
take_object-eq m bin slab a b rest listed s =
    rw
      (
        listed,
        s.linked.0,
        slab_of-object slab a s.in_memory s.aligned s.inside.0,
        ==-refl slab,
        ==-ne slab (slab + 8) (omega arith),
        more,
      )
      refl
  where
    more :
        ((m.mem slab / 2 ^ 32 * 2 ^ 32 + (m.mem slab % 2 ^ 32 + 1) % 2 ^ 32) % 2 ^ 32
          == max_objects bin)
        ≡ false
    more = ground (arith, s.counted, max_objects-lt bin)

-- `bin_alloc` with a slab that has at least two free objects returns the first of them; the slab
-- has the others free then, and no word but two of its header is written, the object neither.
pub bin_alloc-IsSlab :
    (debug : Bool) (m : Machine) (bin slab a b : ℕ) (rest : List ℕ)
    → bin < total_bins
    → m.slab_top < slab_virt_end - page_size
    → m.free_slabs bin ≡ slab
    → IsSlab m bin slab (a ∷ b ∷ rest)
    → Returns
        (λ addr m'. (addr ≡ a) × IsSlab m' bin slab (b ∷ rest) × Touched slab slab m m')
        (bin_alloc debug bin m)
unfolding bin_alloc
bin_alloc-IsSlab debug m bin slab a b rest in_range room listed s =
    rw
      (
        too_high,
        and_false debug,
        full,
        and_false debug,
        listed,
        ==-ne slab 0 s.not_null,
        take_object-eq m bin slab a b rest listed s,
      )
      (
        refl,
        with_header-IsSlab m bin slab (m.mem a) _ (b ∷ rest) _ m s s.tagged s.linked.1 s.inside.1
            s.distinct.1 (omega (arith, s.counted, max_objects-lt bin)),
        with_header-Touched m slab slab _ _,
      )
  where
    too_high : leb total_bins bin ≡ false
    too_high = ground arith

    full : leb (slab_virt_end - page_size) m.slab_top ≡ false
    full = ground arith

put_object-eq :
    (m : Machine) (slab a : ℕ)
    → InSlab slab a
    → put_object slab a m
      ≡ ok tt (record m {
        mem =
            with_header
              (update m.mem a (m.mem (next_free_at slab)))
              slab
              a
              (m.mem (count_at slab) % 2 ^ 32 + 2 ^ 32 - 1);
      })
unfolding put_object
put_object-eq m slab a inside =
    rw (==-ne slab (slab + 8) (omega arith), ==-ne slab a (omega (arith, inside))) refl

-- `bin_free` of an object in use of a slab with free objects and with others in use: the object is
-- the first free one then, and no other word but two of the header is written.
pub bin_free-IsSlab :
    (debug : Bool) (m : Machine) (bin slab a : ℕ) (free : List ℕ)
    → bin < total_bins
    → slab_virt_start ≤ slab
    → slab + page_size ≤ slab_virt_end
    → IsSlab m bin slab free
    → InSlab slab a
    → Absent a free
    → 0 < length free
    → length free + 1 < max_objects bin
    → Returns
        (λ done m'. (done ≡ true) × IsSlab m' bin slab (a ∷ free) × Touched slab a m m')
        (bin_free debug a m)
unfolding bin_free
bin_free-IsSlab debug m bin slab a free in_range low high s inside away some_free some_used =
    rw
      (
        out_of_range,
        and_false debug,
        slab_of-object slab a s.in_memory s.aligned inside,
        s.tagged,
        bad_bin,
        and_false debug,
      )
      (rw (put_object-eq m slab a inside, not_full, in_use) (refl, slab_after, touched))
  where
    out_of_range : (ltb a slab_virt_start || ltb slab_virt_end a) ≡ false
    out_of_range = ground (arith, inside)

    bad_bin : leb total_bins bin ≡ false
    bad_bin = ground arith

    not_full : (m.mem slab % 2 ^ 32 == max_objects bin) ≡ false
    not_full = ground (arith, s.counted)

    now : ℕ
    now = m.mem slab % 2 ^ 32 + 2 ^ 32 - 1

    written : ℕ → ℕ
    written = update m.mem a (m.mem (slab + 8))

    in_use : (with_header written slab a now slab % 2 ^ 32 == 0) ≡ false
    in_use =
        rw
          (update_self (update written (slab + 8) a) slab
            (written slab / 2 ^ 32 * 2 ^ 32 + now % 2 ^ 32))
          (ground (arith, s.counted))

    slab_after : IsSlab (record m { mem = with_header written slab a now }) bin slab (a ∷ free)
    slab_after =
        with_header-IsSlab (record m { mem = written }) bin slab a now (a ∷ free) free m s
          (ap (λ w. w % 2 ^ 16) (update-ne m.mem a _ (slab + 40) (omega (arith, inside)))
            ∙ s.tagged)
          (
            refl,
            subst (λ w. Linked written w free) (sym (update_self m.mem a _))
                (Linked-update m.mem a _ _ free away s.linked),
          )
          (inside, s.inside) (away, s.distinct) (ground (arith, s.counted, max_objects-lt bin))

    touched : Touched slab a m (record m { mem = with_header written slab a now })
    touched = record {
      elsewhere = λ x c n o.
          (with_header-Touched (record m { mem = written }) slab a a now).elsewhere x c n o
          ∙ update-ne m.mem a _ x o;
      free_lists = λ bin. refl;
      full_lists = λ bin. refl;
      frames = refl;
    }

-- The first word of the header is exempt already.
Touched-more : {slab : ℕ} {m n : Machine} (a : ℕ) → Touched slab slab m n → Touched slab a m n
Touched-more a t = record {
  elsewhere = λ x c f o. t.elsewhere x c f c;
  free_lists = t.free_lists;
  full_lists = t.full_lists;
  frames = t.frames;
}

Touched-trans :
    {slab a : ℕ} {m n o : Machine} → Touched slab a m n → Touched slab a n o → Touched slab a m o
Touched-trans s t = record {
  elsewhere = λ x c f o. t.elsewhere x c f o ∙ s.elsewhere x c f o;
  free_lists = λ bin. t.free_lists bin ∙ s.free_lists bin;
  full_lists = λ bin. t.full_lists bin ∙ s.full_lists bin;
  frames = t.frames ∙ s.frames;
}

-- An object that `bin_alloc` takes from a slab with another object in use can be given back by
-- `bin_free`: the slab has the same free objects in the same order, the lists of slabs are the same,
-- and no word outside of the header and the object has changed.
pub bin_free-bin_alloc :
    (debug : Bool) (m : Machine) (bin slab a b : ℕ) (rest : List ℕ)
    → bin < total_bins
    → m.slab_top < slab_virt_end - page_size
    → m.free_slabs bin ≡ slab
    → slab_virt_start ≤ slab
    → slab + page_size ≤ slab_virt_end
    → IsSlab m bin slab (a ∷ b ∷ rest)
    → 0 < m.mem (count_at slab) % 2 ^ 32
    → Returns
        (λ done m'. (done ≡ true) × IsSlab m' bin slab (a ∷ b ∷ rest) × Touched slab a m m')
        ((bin_alloc debug bin >>= λ addr. bin_free debug addr) m)
bin_free-bin_alloc debug m bin slab a b rest in_range room listed low high s others =
    bind-Returns _ _ (bin_alloc debug bin m) _
      (bin_alloc-IsSlab debug m bin slab a b rest in_range room listed s)
      λ addr m' (is_a, s', t'). rw is_a (
        Returns-mono _ _ (bin_free debug a m')
          (λ done n (yes_done, s'', t''). (yes_done, s'', Touched-trans (Touched-more a t') t''))
          (bin_free-IsSlab debug m' bin slab a (b ∷ rest) in_range low high s' s.inside.0
            s.distinct.0 (omega arith) (omega (arith, s.counted, others))))
