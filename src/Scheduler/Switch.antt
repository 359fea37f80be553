-- ===== src/Scheduler/Switch.antt =====
-- kernel/kernel/scheduler.c: what a turn saves of the process that it interrupts, and what the CPU has
-- of the process that it enters.
use pristine.Process.{
  ready, running, InterruptFrame, ProcessContext, Process, is_dead, process_save_state, CpuState,
  process_jump,
}
use pristine.Scheduler.{max_processes, Sched, save_current, enter, scheduler_loop}
use pristine.Scheduler.Scan.{scan-Kept}
use pristine.Scheduler.Turns.{scanned, chosen, scheduler_loop-eq, loop-current}
use pristine.Common.{
  ℕ, ◌≡◌, sym, ap, ◌∙◌, subst, ◌≢◌, inl, inr, true, false, arith, ℕ_discrete, ◌==◌, ==-ne,
  Bool-cases, update_self, update-ne,
}

scanned-store : (s : Sched) → (scanned s).store ≡ s.store
scanned-store s = (scan-Kept max_processes s).store

scanned-current : (s : Sched) → (scanned s).cpu.current_process ≡ s.cpu.current_process
scanned-current s = (scan-Kept max_processes s).current

-- The process whose registers a turn saves.
abbrev pub Interrupted : Sched → ℕ → Type 0
Interrupted s q = (q ≢ 0) × (s.cpu.current_process ≡ q) × (is_dead ((s.store q).state) ≡ false)

abbrev pub saved : Process → InterruptFrame → Process
saved p frame = record (process_save_state p frame) { state = ready }

save_current_self :
    (frame : InterruptFrame) (s : Sched) (q : ℕ)
    → Interrupted s q
    → (save_current frame s).store q ≡ saved (s.store q) frame
unfolding save_current
save_current_self frame s q (ne, here, alive) =
    rw (here, ==-ne _ _ ne, alive) (update_self s.store q _)

==-eq : (a b : ℕ) → (a == b) ≡ true → a ≡ b
==-eq a b h = ground arith

save_current-other :
    (frame : InterruptFrame) (s : Sched) (q : ℕ)
    → ¬ (Interrupted s q)
    → (save_current frame s).store q ≡ s.store q
unfolding save_current
save_current-other frame s q away = elim (ℕ_discrete (s.cpu.current_process) 0) [
  | yes none_yet ↦ rw none_yet
  | no some_current ↦ elim (Bool-cases (is_dead ((s.store s.cpu.current_process).state))) [
    | inl gone ↦ rw (==-ne _ _ some_current, gone)
    | inr alive ↦
        rw (==-ne _ _ some_current, alive)
          (update-ne s.store _ _ q (λ e. away (
            (λ z. some_current (sym e ∙ z)),
            sym e,
            ap (λ i. is_dead ((s.store i).state)) e ∙ alive,
          )))
  ]
]

scanned-Interrupted : (s : Sched) (q : ℕ) → Interrupted (scanned s) q ≡ Interrupted s q
scanned-Interrupted s q =
    ap (λ c. (q ≢ 0) × (c ≡ q) × (is_dead (((scanned s).store q).state) ≡ false))
      (scanned-current s)
    ∙ ap (λ f. (q ≢ 0) × (s.cpu.current_process ≡ q) × (is_dead ((f q).state) ≡ false))
        (scanned-store s)

pub scanned_self :
    (frame : InterruptFrame) (s : Sched) (q : ℕ)
    → Interrupted s q
    → (save_current frame (scanned s)).store q ≡ saved (s.store q) frame
scanned_self frame s q here =
    save_current_self frame (scanned s) q (subst (λ A. A) (sym (scanned-Interrupted s q)) here)
    ∙ ap (λ f. saved (f q) frame) (scanned-store s)

pub scanned-other :
    (frame : InterruptFrame) (s : Sched) (q : ℕ)
    → ¬ (Interrupted s q)
    → (save_current frame (scanned s)).store q ≡ s.store q
scanned-other frame s q away =
    save_current-other frame (scanned s) q (λ h. away (subst (λ A. A) (scanned-Interrupted s q) h))
    ∙ ap (λ f. f q) (scanned-store s)

enter_self : (p : ℕ) (s : Sched) → (enter p s).store p ≡ record (s.store p) { state = running }
unfolding enter
enter_self p s = update_self s.store p _

enter-other : (p : ℕ) (s : Sched) (q : ℕ) → q ≢ p → (enter p s).store q ≡ s.store q
unfolding enter
enter-other p s q ne = update-ne s.store p _ q ne

-- The CPU after a turn, for the process `p` that runs: its kernel stack, its address space and its
-- registers.
pub record OnCpu (p : Process) (context : ProcessContext) (c : CpuState) : Type 0 where
  pub stack : c.kernel_stack_top ≡ p.kernel_stack_top
  pub interrupt_stack : c.tss_rsp0 ≡ p.kernel_stack_top
  pub space : c.cr3 ≡ p.pml4_phys
  pub loads : c.loaded ≡ context

-- The two kinds of process that a turn can enter: the one that it interrupts, which goes on with the
-- registers of the interrupt frame, and one that waited, which goes on with those that it had saved.
pub data Entered (frame : InterruptFrame) (s s' : Sched) : Type 0 where
  goes_on :
      Interrupted s s'.cpu.current_process
      → OnCpu
          (s.store s'.cpu.current_process)
          (process_save_state (s.store s'.cpu.current_process) frame).context
          s'.cpu
      → Entered frame s s'
  comes_back :
      ¬ (Interrupted s s'.cpu.current_process)
      → OnCpu (s.store s'.cpu.current_process) (s.store s'.cpu.current_process).context s'.cpu
      → Entered frame s s'

pub Interrupted? : (s : Sched) (q : ℕ) → Dec (Interrupted s q)
Interrupted? s q = elim (ℕ_discrete q 0) [
  | yes null ↦ no (λ h. h.0 null)
  | no ne ↦ elim (ℕ_discrete (s.cpu.current_process) q) [
    | no away ↦ no (λ h. away (h.1))
    | yes here ↦ elim (Bool-cases (is_dead ((s.store q).state))) [
      | inl gone ↦ no (λ h. cc (gone, h.2))
      | inr alive ↦ yes (ne, here, alive)
    ]
  ]
]

Entered-same :
    (frame : InterruptFrame) (s : Sched) (p : ℕ) (u : Sched)
    → Interrupted s p
    → u.store p ≡ saved (s.store p) frame
    → Entered frame s (enter p u)
unfolding enter process_jump process_save_state
Entered-same frame s p u here e = goes_on here (record {
  stack = ap (λ q. q.kernel_stack_top) e;
  interrupt_stack = ap (λ q. q.kernel_stack_top) e;
  space = ap (λ q. q.pml4_phys) e;
  loads = ap (λ q. q.context) e;
})

Entered-other :
    (frame : InterruptFrame) (s : Sched) (p : ℕ) (u : Sched)
    → ¬ (Interrupted s p)
    → u.store p ≡ s.store p
    → Entered frame s (enter p u)
unfolding enter process_jump
Entered-other frame s p u away e = comes_back away (record {
  stack = ap (λ q. q.kernel_stack_top) e;
  interrupt_stack = ap (λ q. q.kernel_stack_top) e;
  space = ap (λ q. q.pml4_phys) e;
  loads = ap (λ q. q.context) e;
})

pub scheduler_loop-Entered :
    (frame : InterruptFrame) (s : Sched) → Entered frame s (scheduler_loop frame s)
scheduler_loop-Entered frame s =
    subst (Entered frame s) (sym (scheduler_loop-eq frame s)) (elim (Interrupted? s (chosen s)) [
      | yes here ↦ Entered-same frame s (chosen s) _ here (scanned_self frame s _ here)
      | no away ↦ Entered-other frame s (chosen s) _ away (scanned-other frame s _ away)
    ])

-- A process that is neither entered nor interrupted is as before.
pub scheduler_loop-others :
    (frame : InterruptFrame) (s : Sched) (q : ℕ)
    → q ≢ (scheduler_loop frame s).cpu.current_process
    → ¬ (Interrupted s q)
    → (scheduler_loop frame s).store q ≡ s.store q
scheduler_loop-others frame s q ne away =
    ap (λ t. t.store q) (scheduler_loop-eq frame s)
    ∙ enter-other _ _ q (λ e. ne (e ∙ sym (loop-current frame s)))
    ∙ scanned-other frame s q away

-- The process that was interrupted has its registers saved, and is READY where another is entered.
pub scheduler_loop-Interrupted :
    (frame : InterruptFrame) (s : Sched) (q : ℕ)
    → q ≢ (scheduler_loop frame s).cpu.current_process
    → Interrupted s q
    → (scheduler_loop frame s).store q ≡ saved (s.store q) frame
scheduler_loop-Interrupted frame s q ne here =
    ap (λ t. t.store q) (scheduler_loop-eq frame s)
    ∙ enter-other _ _ q (λ e. ne (e ∙ sym (loop-current frame s)))
    ∙ scanned_self frame s q here

pub scheduler_loop-running :
    (frame : InterruptFrame) (s : Sched)
    → ((scheduler_loop frame s).store (scheduler_loop frame s).cpu.current_process).state ≡ running
scheduler_loop-running frame s = rw (loop-current frame s) (
    ap (λ t. (t.store (chosen s)).state) (scheduler_loop-eq frame s)
    ∙ ap (λ p. p.state) (enter_self (chosen s) (save_current frame (scanned s))))

-- No process but the current one is RUNNING.
abbrev pub OneRunning : Sched → Type 0
OneRunning s = (q : ℕ) → q ≢ 0 → (s.store q).state ≡ running → q ≡ s.cpu.current_process

-- A turn keeps the RUNNING state for the current process alone, and the current process has it.
pub scheduler_loop-OneRunning :
    (frame : InterruptFrame) (s : Sched)
    → OneRunning s
    → OneRunning (scheduler_loop frame s)
      × (((scheduler_loop frame s).store (scheduler_loop frame s).cpu.current_process).state
          ≡ running)
scheduler_loop-OneRunning frame s one = (only, scheduler_loop-running frame s)
  where
    only : OneRunning (scheduler_loop frame s)
    only q ne run = elim (ℕ_discrete q ((scheduler_loop frame s).cpu.current_process)) [
      | yes here ↦ here
      | no away ↦ elim (Interrupted? s q) [
        | yes h ↦ cc (sym run ∙ ap (λ p. p.state) (scheduler_loop-Interrupted frame s q away h))
        | no h ↦
            let before = sym (ap (λ p. p.state) (scheduler_loop-others frame s q away h)) ∙ run in
            absurd (h (ne, sym (one q ne before), ap is_dead before))
      ]
    ]
