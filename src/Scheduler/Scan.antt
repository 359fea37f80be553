-- ===== src/Scheduler/Scan.antt =====
-- kernel/kernel/scheduler.c: the loop finds the first live slot in cyclic order.
use pristine.Common.{
  ℕ, zero, suc, ◌+◌, ◌%◌, ◌<◌, ◌≡◌, refl, sym, ap, ◌∙◌, ◌≢◌, ◌⊎◌, inl, inr, Bool, true, false, not,
  some, arith, ℕ_discrete, ◌==◌, if◌then◌else◌, ==-ne, Bool-cases, Option-cases, update_self,
  update-ne,
}
use pristine.Process.{is_dead}
use pristine.Scheduler.{
  max_processes, Sched, add_process, reaper_add_process, set_next, cursor, bury, scan,
}

-- A slot that holds a process which is not dead.
abbrev pub live : Sched → ℕ → Bool
live s k = let p = s.process_list k in if p == 0 then false else not (is_dead ((s.store p).state))

abbrev pub slot_at : ℕ → ℕ → ℕ
slot_at start i = (start + i) % max_processes

-- What burying a slot leaves alone.
pub record Buried (s : Sched) (k : ℕ) (s' : Sched) : Type 0 where
  pub store : s'.store ≡ s.store
  pub cpu : s'.cpu ≡ s.cpu
  pub reaper : s'.reaper_cursor ≡ s.reaper_cursor
  pub self : (s'.process_list k ≡ 0) ⊎ (s'.process_list k ≡ s.process_list k)
  pub others : (j : ℕ) → j ≢ k → s'.process_list j ≡ s.process_list j

-- The two outcomes of `reaper_add_process`.
pub reaper_add-cases :
    (p : ℕ) (s : Sched)
    → (reaper_add_process p s ≡ (s, false))
      ⊎ ((slots : ℕ → ℕ) × (add_process s.process_list_reap p ≡ some slots)
          × (reaper_add_process p s ≡ (record s { process_list_reap = slots }, true)))
unfolding reaper_add_process
reaper_add-cases p s = elim (Option-cases (add_process s.process_list_reap p)) [
  | inl full ↦ inl (rw (full, reaper_add_process))
  | inr (slots, done) ↦ inr (slots, done, rw (done, reaper_add_process))
]

pub bury-Buried : (k : ℕ) (s : Sched) → Buried s k (bury k s)
unfolding bury
bury-Buried k s = elim (reaper_add-cases (s.process_list k) s) [
  | inl full ↦
      rw full
        (record { store = refl; cpu = refl; reaper = refl; self = inr refl; others = λ j ne. refl })
  | inr (slots, _, done) ↦ rw done (record {
    store = refl;
    cpu = refl;
    reaper = refl;
    self = inl (update_self s.process_list k 0);
    others = λ j ne. update-ne s.process_list k 0 j ne;
  })
]

-- A round of the loop that goes on: the cursor moves one slot on, and the live slots stay.
pub record Advanced (s t : Sched) : Type 0 where
  pub store : t.store ≡ s.store
  pub alive : (j : ℕ) → live t j ≡ live s j
  pub slots : (j : ℕ) → live s j ≡ true → t.process_list j ≡ s.process_list j
  pub current : t.cpu.current_process ≡ s.cpu.current_process
  pub idle : t.cpu.idle_process ≡ s.cpu.idle_process
  pub next : cursor t ≡ slot_at (cursor s) 1

abbrev skipped : Sched → Sched
skipped s = set_next (cursor s + 1) (set_next (cursor s) s)

abbrev buried : Sched → Sched
buried s = set_next (cursor s + 1) (bury (cursor s) (set_next (cursor s) s))

skipped-Advanced : (s : Sched) → Advanced s (skipped s)
skipped-Advanced s = record {
  store = refl;
  alive = λ j. refl;
  slots = λ j h. refl;
  current = refl;
  idle = refl;
  next = ground arith;
}

buried-Advanced : (s : Sched) → live s (cursor s) ≡ false → Advanced s (buried s)
buried-Advanced s gone = record {
  store = b.store;
  alive = alive;
  slots = λ j h. b.others j (λ e. cc (sym h ∙ ap (live s) e ∙ gone));
  current = ap (λ c. c.current_process) b.cpu;
  idle = ap (λ c. c.idle_process) b.cpu;
  next = ground arith;
}
  where
    b : Buried (set_next (cursor s) s) (cursor s) (bury (cursor s) (set_next (cursor s) s))
    b = bury-Buried (cursor s) (set_next (cursor s) s)

    alive : (j : ℕ) → live (buried s) j ≡ live s j
    alive j = elim (ℕ_discrete j (cursor s)) [
      | no away ↦ rw (b.others j away, b.store)
      | yes here ↦ elim (b.self) [
        | inl null ↦ rw (here, null) (sym gone)
        | inr same ↦ rw (here, same, b.store)
      ]
    ]

-- What the loop gives from slot `start` on: the first live slot, with the cursor on it, or 0 where
-- none of the slots that it looked at is live. The store and the live slots are as before.
pub data Found (s : Sched) (start left : ℕ) (s' : Sched) (proc : ℕ) : Type 0 where
  picked :
      (d : ℕ)
      → d < left
      → live s (slot_at start d) ≡ true
      → ((i : ℕ) → i < d → live s (slot_at start i) ≡ false)
      → proc ≡ s.process_list (slot_at start d)
      → s'.cpu.scheduler_next ≡ slot_at start d
      → Found s start left s' proc
  nothing :
      ((i : ℕ) → i < left → live s (slot_at start i) ≡ false)
      → proc ≡ 0
      → Found s start left s' proc

-- What the loop leaves alone.
pub record Kept (s s' : Sched) : Type 0 where
  pub store : s'.store ≡ s.store
  pub slots : (j : ℕ) → live s j ≡ true → s'.process_list j ≡ s.process_list j
  pub current : s'.cpu.current_process ≡ s.cpu.current_process
  pub idle : s'.cpu.idle_process ≡ s.cpu.idle_process

Kept-after : {s t u : Sched} → Advanced s t → Kept t u → Kept s u
Kept-after a k = record {
  store = k.store ∙ a.store;
  slots = λ j h. k.slots j (a.alive j ∙ h) ∙ a.slots j h;
  current = k.current ∙ a.current;
  idle = k.idle ∙ a.idle;
}

pub scan-Kept : (left : ℕ) (s : Sched) → Kept s (scan left s).0
unfolding scan
scan-Kept zero s = record { store = refl; slots = λ j h. refl; current = refl; idle = refl }
scan-Kept (suc left) s = elim (ℕ_discrete (s.process_list (cursor s)) 0) [
  | yes null ↦ rw null (Kept-after (skipped-Advanced s) (scan-Kept left (skipped s)))
  | no some_process ↦ elim (Bool-cases (is_dead ((s.store (s.process_list (cursor s))).state))) [
    | inl gone ↦
        rw (==-ne _ _ some_process, gone)
          (Kept-after (buried-Advanced s (rw (==-ne _ _ some_process, gone)))
            (scan-Kept left (buried s)))
    | inr alive ↦
        rw (==-ne _ _ some_process, alive)
          (record { store = refl; slots = λ j h. refl; current = refl; idle = refl })
  ]
]

slot_shift : (start d : ℕ) → start < 32 → slot_at (slot_at start 1) d ≡ slot_at start (d + 1)
slot_shift start d h = omega arith

pub cursor-lt : (s : Sched) → cursor s < 32
cursor-lt s = ground arith

slot_zero : (s : Sched) → slot_at (cursor s) 0 ≡ cursor s
slot_zero s = omega (arith, cursor-lt s)

-- Slots that are not live before the cursor of the next round are not live, seen from this one.
Found_before :
    {s t : Sched}
    → Advanced s t
    → live s (cursor s) ≡ false
    → (d : ℕ) → ((i : ℕ) → i < d → live t (slot_at (cursor t) i) ≡ false)
    → (i : ℕ) → i < d + 1
    → live s (slot_at (cursor s) i) ≡ false
Found_before {s} {t} a gone d before zero lt = ap (live s) (slot_zero s) ∙ gone
Found_before {s} {t} a gone d before (suc i) lt =
    let place : slot_at (cursor t) i ≡ slot_at (cursor s) (suc i) =
      ap (λ c. slot_at c i) a.next ∙ omega (arith, cursor-lt s) in
    ap (live s) (sym place) ∙ sym (a.alive (slot_at (cursor t) i)) ∙ before i (omega arith)

Found-after :
    {s t u : Sched} {left proc : ℕ}
    → Advanced s t
    → live s (cursor s) ≡ false
    → Found t (cursor t) left u proc
    → Found s (cursor s) (suc left) u proc
Found-after {s} {t} a gone (picked d lt alive before proc at) =
    let place = λ (i : ℕ). ap (λ c. slot_at c i) a.next ∙ slot_shift (cursor s) i (cursor-lt s) in
    let was_live : live s (slot_at (cursor s) (d + 1)) ≡ true =
      ap (live s) (sym (place d)) ∙ sym (a.alive (slot_at (cursor t) d)) ∙ alive in
    picked (d + 1) (omega arith) was_live (Found_before a gone d before)
      (proc ∙ ap (t.process_list) (place d) ∙ a.slots _ was_live) (at ∙ place d)
Found-after {s} {t} {left = n} a gone (nothing none_live zero_proc) =
    nothing (λ i lt. Found_before a gone n none_live i (omega arith)) zero_proc

pub scan-Found : (left : ℕ) (s : Sched) → Found s (cursor s) left (scan left s).0 (scan left s).1
unfolding scan
scan-Found zero s = nothing (λ i lt. absurd (omega arith)) refl
scan-Found (suc left) s = elim (ℕ_discrete (s.process_list (cursor s)) 0) [
  | yes null ↦ rw null (Found-after (skipped-Advanced s) (rw null) (scan-Found left (skipped s)))
  | no some_process ↦ elim (Bool-cases (is_dead ((s.store (s.process_list (cursor s))).state))) [
    | inl gone ↦
        rw (==-ne _ _ some_process, gone)
          (Found-after (buried-Advanced s (rw (==-ne _ _ some_process, gone)))
            (rw (==-ne _ _ some_process, gone)) (scan-Found left (buried s)))
    | inr alive ↦
        rw (==-ne _ _ some_process, alive)
          (picked 0 (omega arith) (ap (live s) (slot_zero s) ∙ rw (==-ne _ _ some_process, alive))
            (λ i lt. absurd (omega arith)) (ap (s.process_list) (sym (slot_zero s)))
            (sym (slot_zero s)))
  ]
]
