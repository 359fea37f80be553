-- ===== src/Scheduler/Turns.antt =====
-- kernel/kernel/scheduler.c: what one turn of `scheduler_loop` does.
use pristine.Process.{InterruptFrame, is_dead, process_jump}
use pristine.Scheduler.{
  max_processes, Sched, set_next, cursor, scan, save_current, enter, scheduler_loop,
}
use pristine.Scheduler.Scan.{live, slot_at, picked, nothing, scan-Kept, scan-Found}
use pristine.Common.{
  ℕ, ◌+◌, ◌<◌, ◌≡◌, refl, sym, ap, ◌∙◌, ◌≢◌, inl, inr, true, false, arith, leb, ◌==◌, if◌then◌else◌,
  ==-ne, Bool-cases,
}

-- Who runs next, and the slot where the turn after this one starts to look: the first live slot
-- from the cursor on gets the CPU, and with none the idle process does.
pub data Turn (s : Sched) (frame : InterruptFrame) (s' : Sched) : Type 0 where
  next_live :
      (d : ℕ)
      → d < max_processes
      → live s (slot_at (cursor s) d) ≡ true
      → ((i : ℕ) → i < d → live s (slot_at (cursor s) i) ≡ false)
      → s'.cpu.current_process ≡ s.process_list (slot_at (cursor s) d)
      → cursor s' ≡ slot_at (cursor s) (d + 1)
      → Turn s frame s'
  idle_turn :
      ((i : ℕ) → i < max_processes → live s (slot_at (cursor s) i) ≡ false)
      → s'.cpu.current_process ≡ s.cpu.idle_process
      → Turn s frame s'

-- The states before the chosen process is entered.
abbrev pub scanned : Sched → Sched
scanned s = let t = (scan max_processes s).0 in set_next (t.cpu.scheduler_next + 1) t

abbrev pub chosen : Sched → ℕ
chosen s =
    let found = (scan max_processes s).1 in
    if found == 0 then (scanned s).cpu.idle_process else found

pub save_current-cpu : (frame : InterruptFrame) (s : Sched) → (save_current frame s).cpu ≡ s.cpu
unfolding save_current
save_current-cpu frame s = elim (Bool-cases (s.cpu.current_process == 0)) [
  | inl none_yet ↦ rw none_yet
  | inr some_current ↦ elim (Bool-cases (is_dead ((s.store s.cpu.current_process).state))) [
    | inl gone ↦ rw (some_current, gone)
    | inr alive ↦ rw (some_current, alive)
  ]
]

pub save_current-list :
    (frame : InterruptFrame) (s : Sched) → (save_current frame s).process_list ≡ s.process_list
unfolding save_current
save_current-list frame s = elim (Bool-cases (s.cpu.current_process == 0)) [
  | inl none_yet ↦ rw none_yet
  | inr some_current ↦ elim (Bool-cases (is_dead ((s.store s.cpu.current_process).state))) [
    | inl gone ↦ rw (some_current, gone)
    | inr alive ↦ rw (some_current, alive)
  ]
]

pub scheduler_loop-eq :
    (frame : InterruptFrame) (s : Sched)
    → scheduler_loop frame s ≡ enter (chosen s) (save_current frame (scanned s))
unfolding scheduler_loop
scheduler_loop-eq frame s = refl

pub enter-current : (p : ℕ) (s : Sched) → (enter p s).cpu.current_process ≡ p
unfolding enter process_jump
enter-current p s = refl

pub enter-next : (p : ℕ) (s : Sched) → (enter p s).cpu.scheduler_next ≡ s.cpu.scheduler_next
unfolding enter process_jump
enter-next p s = refl

pub loop-current :
    (frame : InterruptFrame) (s : Sched) → (scheduler_loop frame s).cpu.current_process ≡ chosen s
loop-current frame s =
    ap (λ t. t.cpu.current_process) (scheduler_loop-eq frame s) ∙ enter-current _ _

loop-next :
    (frame : InterruptFrame) (s : Sched)
    → (scheduler_loop frame s).cpu.scheduler_next ≡ (scan max_processes s).0.cpu.scheduler_next + 1
loop-next frame s =
    ap (λ t. t.cpu.scheduler_next) (scheduler_loop-eq frame s)
    ∙ enter-next _ _
    ∙ ap (λ c. c.scheduler_next) (save_current-cpu frame (scanned s))

pub live-ptr : (s : Sched) (j : ℕ) → live s j ≡ true → s.process_list j ≢ 0
live-ptr s j h null = let empty : live s j ≡ false = rw null in cc (sym h ∙ empty)

abbrev wrapped : ℕ → ℕ
wrapped n = if leb max_processes n then 0 else n

wrapped-slot : (c d : ℕ) → wrapped (slot_at c d + 1) ≡ slot_at c (d + 1)
wrapped-slot c d = ground arith

-- One turn gives the CPU to the first live slot in cyclic order, and the next turn starts one slot
-- further; with no live slot the idle process runs.
pub scheduler_loop-Turn :
    (frame : InterruptFrame) (s : Sched) → Turn s frame (scheduler_loop frame s)
scheduler_loop-Turn frame s = elim (scan-Found max_processes s) [
  | picked d lt alive before proc at ↦
      next_live d lt alive before (loop-current frame s ∙ rw (proc, ==-ne _ _ (live-ptr s _ alive)))
        (ap wrapped (loop-next frame s ∙ ap (λ n. n + 1) at) ∙ wrapped-slot (cursor s) d)
  | nothing none_live null ↦
      idle_turn none_live (loop-current frame s ∙ rw null ((scan-Kept max_processes s).idle))
]
