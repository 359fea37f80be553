-- ===== src/Scheduler/Fair.antt =====
-- kernel/kernel/scheduler.c: every live process is entered within 32 turns.
use pristine.Scheduler.Turns.{
  next_live, idle_turn, scanned, chosen, save_current-list, scheduler_loop-eq, scheduler_loop-Turn,
}
use pristine.Scheduler.Switch.{scheduler_loop-others}
use pristine.Process.{InterruptFrame}
use pristine.Scheduler.{max_processes, Sched, cursor, enter, scheduler_loop}
use pristine.Scheduler.Resume.{Event, tick, exits, run_event, exited, syscall_exit-eq}
use pristine.Scheduler.Scan.{live, slot_at, scan-Kept, cursor-lt}
use pristine.Common.{
  ℕ, ◌+◌, ◌-◌, ◌%◌, ◌<◌, ◌≡◌, refl, sym, ap, ◌∙◌, ◌≢◌, ◌⊎◌, inl, inr, true, List, [], ◌∷◌, arith,
  dec_lt, ℕ_discrete, length, update-ne,
}

-- One of the turns that the events make enters the process `p`.
abbrev pub EntersIn : ℕ → List Event → Sched → Type 0
EntersIn p [] s = ⊥
EntersIn p (e ∷ rest) s =
    ((run_event e s).cpu.current_process ≡ p) ⊎ EntersIn p rest (run_event e s)

-- The slots from the cursor on before slot `j`.
abbrev distance : Sched → ℕ → ℕ
distance s j = (j + max_processes - cursor s) % max_processes

slot-distance : (s : Sched) (j : ℕ) → j < 32 → slot_at (cursor s) (distance s j) ≡ j
slot-distance s j h = omega (arith, cursor-lt s)

distance-less :
    (s t : Sched) (j d : ℕ)
    → j < 32
    → d < distance s j
    → cursor t ≡ slot_at (cursor s) (d + 1)
    → distance t j < distance s j
distance-less s t j d h less next = rw next (omega (arith, cursor-lt s))

enter-list : (p : ℕ) (u : Sched) (i : ℕ) → (enter p u).process_list i ≡ u.process_list i
unfolding enter
enter-list p u i = refl

loop-list :
    (frame : InterruptFrame) (s : Sched) (j : ℕ)
    → live s j ≡ true
    → (scheduler_loop frame s).process_list j ≡ s.process_list j
loop-list frame s j alive =
    ap (λ t. t.process_list j) (scheduler_loop-eq frame s)
    ∙ enter-list (chosen s) _ j
    ∙ ap (λ f. f j) (save_current-list frame (scanned s))
    ∙ (scan-Kept max_processes s).slots j alive

-- A live process that waits stays in its slot and stays live.
tick-live :
    (frame : InterruptFrame) (s : Sched) (j : ℕ)
    → live s j ≡ true
    → s.cpu.current_process ≢ s.process_list j
    → (scheduler_loop frame s).cpu.current_process ≢ s.process_list j
    → live (scheduler_loop frame s) j ≡ true
tick-live frame s j alive away after =
    rw
      (
        loop-list frame s j alive,
        scheduler_loop-others frame s (s.process_list j) (λ e. after (sym e)) (λ h. away (h.1)),
      )
      alive

-- A turn enters the process of a live slot or comes nearer to it.
data Nearer (s : Sched) (j p : ℕ) (s' : Sched) : Type 0 where
  entered : s'.cpu.current_process ≡ p → Nearer s j p s'
  nearer :
      s'.cpu.current_process ≢ p
      → s'.process_list j ≡ p
      → live s' j ≡ true
      → distance s' j < distance s j
      → Nearer s j p s'

tick-Nearer :
    (frame : InterruptFrame) (s : Sched) (j : ℕ)
    → j < 32
    → live s j ≡ true
    → s.cpu.current_process ≢ s.process_list j
    → Nearer s j (s.process_list j) (scheduler_loop frame s)
tick-Nearer frame s j lt alive away = elim (scheduler_loop-Turn frame s) [
  | idle_turn none_live _ ↦
      absurd
        (cc (none_live (distance s j) (omega arith), ap (live s) (slot-distance s j lt) ∙ alive))
  | next_live d _ _ before chosen next ↦ elim (dec_lt (distance s j) d) [
    | yes passed ↦
        absurd (cc (before (distance s j) passed, ap (live s) (slot-distance s j lt) ∙ alive))
    | no reached ↦ elim (ℕ_discrete d (distance s j)) [
      | yes here ↦ entered (
          chosen ∙ ap (λ i. s.process_list i) (ap (slot_at (cursor s)) here ∙ slot-distance s j lt))
      | no more ↦ waiting (distance-less s (scheduler_loop frame s) j d lt (omega arith) next)
    ]
  ]
]
  where
    waiting :
        distance (scheduler_loop frame s) j < distance s j
        → Nearer s j (s.process_list j) (scheduler_loop frame s)
    waiting less =
        elim (ℕ_discrete ((scheduler_loop frame s).cpu.current_process) (s.process_list j)) [
          | yes here ↦ entered here
          | no after ↦
              nearer after (loop-list frame s j alive) (tick-live frame s j alive away after) less
        ]

exited-live :
    (arg : ℕ) (s : Sched) (j : ℕ)
    → live s j ≡ true
    → s.cpu.current_process ≢ s.process_list j
    → live (exited arg s) j ≡ true
exited-live arg s j alive away =
    rw (update-ne s.store _ _ (s.process_list j) (λ e. away (sym e))) alive

event-Nearer :
    (e : Event) (s : Sched) (j : ℕ)
    → j < 32
    → live s j ≡ true
    → s.cpu.current_process ≢ s.process_list j
    → Nearer s j (s.process_list j) (run_event e s)
event-Nearer (tick frame) s j lt alive away = tick-Nearer frame s j lt alive away
event-Nearer (exits arg frame) s j lt alive away =
    rw (syscall_exit-eq arg frame s)
      (after_exit (tick-Nearer frame (exited arg s) j lt (exited-live arg s j alive away) away))
  where
    after_exit :
        {s' : Sched}
        → Nearer (exited arg s) j (s.process_list j) s'
        → Nearer s j (s.process_list j) s'
    after_exit (entered here) = entered here
    after_exit (nearer after same live less) = nearer after same live less

enters_by :
    (events : List Event) (s : Sched) (j p : ℕ)
    → j < 32
    → s.process_list j ≡ p
    → live s j ≡ true
    → s.cpu.current_process ≢ p
    → distance s j < length events
    → EntersIn p events s
enters_by [] s j p lt slot alive away near = absurd (omega arith)
enters_by (e ∷ rest) s j p lt slot alive away near =
    go (event-Nearer e s j lt alive (λ z. away (z ∙ slot))) (enters_by rest (run_event e s) j p lt)
  where
    go :
        Nearer s j (s.process_list j) (run_event e s)
        → ((run_event e s).process_list j ≡ p
            → live (run_event e s) j ≡ true
            → (run_event e s).cpu.current_process ≢ p
            → distance (run_event e s) j < length rest
            → EntersIn p rest (run_event e s))
        → EntersIn p (e ∷ rest) s
    go (entered here) next = inl (here ∙ slot)
    go (nearer after same alive less) next =
        inr (next (same ∙ slot) alive (λ z. after (z ∙ sym slot)) (omega arith))

-- A live process in the list that does not run is entered by one of the next 32 turns, whichever
-- of them are ticks and whichever are exits of other processes.
pub live-EntersIn :
    (events : List Event) (s : Sched) (j : ℕ)
    → j < 32
    → live s j ≡ true
    → s.cpu.current_process ≢ s.process_list j
    → length events ≡ 32
    → EntersIn (s.process_list j) events s
live-EntersIn events s j lt alive away enough =
    enters_by events s j (s.process_list j) lt refl alive away (omega arith)
