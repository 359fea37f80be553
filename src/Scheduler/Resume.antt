-- ===== src/Scheduler/Resume.antt =====
-- kernel/kernel/scheduler.c and `syscall_exit` of kernel/kernel/syscall.c: sequences of turns, and a
-- process that is interrupted and later entered again.
use pristine.Process.{dead, InterruptFrame, ProcessContext, Process, process_save_state}
use pristine.Scheduler.Switch.{
  Interrupted, saved, Entered, goes_on, comes_back, scheduler_loop-Entered, scheduler_loop-others,
  scheduler_loop-Interrupted,
}
use pristine.Scheduler.{Sched, scheduler_loop, syscall_exit}
use pristine.Common.{ℕ, ◌%◌, ◌^◌, ◌≡◌, refl, sym, ap, ◌∙◌, ◌≢◌, update, update-ne}

-- What makes the scheduler run: the timer or a yield, and an exit of the current process.
pub data Event : Type 0 where
  tick : InterruptFrame → Event
  exits : ℕ → InterruptFrame → Event

abbrev pub run_event : Event → Sched → Sched
run_event (tick frame) s = scheduler_loop frame s
run_event (exits arg frame) s = syscall_exit arg frame s

-- The turns from one state to another in which the process `p` is not entered.
pub data Waits (p : ℕ) : Sched → Sched → Type 0 where
  start : {s : Sched} → Waits p s s
  turn :
      {s t : Sched} (e : Event)
      → (run_event e s).cpu.current_process ≢ p
      → Waits p (run_event e s) t
      → Waits p s t

abbrev pub exited : ℕ → Sched → Sched
exited arg s = record s {
  store =
      update s.store (s.cpu.current_process)
        (record (s.store (s.cpu.current_process)) { state = dead; exit_code = arg % 2 ^ 32 });
}

pub syscall_exit-eq :
    (arg : ℕ) (frame : InterruptFrame) (s : Sched)
    → syscall_exit arg frame s ≡ scheduler_loop frame (exited arg s)
unfolding syscall_exit
syscall_exit-eq arg frame s = refl

waits-store :
    (e : Event) (s : Sched) (p : ℕ)
    → s.cpu.current_process ≢ p
    → (run_event e s).cpu.current_process ≢ p
    → (run_event e s).store p ≡ s.store p
waits-store (tick frame) s p away after =
    scheduler_loop-others frame s p (λ e. after (sym e)) (λ h. away (h.1))
waits-store (exits arg frame) s p away after = rw (syscall_exit-eq arg frame s) (
    scheduler_loop-others frame (exited arg s) p
      (λ e. after (ap (λ t. t.cpu.current_process) (syscall_exit-eq arg frame s) ∙ sym e))
      (λ h. away (h.1))
    ∙ update-ne s.store _ _ p (λ e. away (sym e)))

Waits-store :
    (p : ℕ) {s t : Sched}
    → s.cpu.current_process ≢ p
    → Waits p s t
    → (t.store p ≡ s.store p) × (t.cpu.current_process ≢ p)
Waits-store p away start = (refl, away)
Waits-store p {s} {t} away (turn e after rest) =
    let (same, last) = Waits-store p after rest in (same ∙ waits-store e s p away after, last)

Entered-loads :
    (frame : InterruptFrame) (s s' : Sched) (p : ℕ)
    → s.cpu.current_process ≢ p
    → s'.cpu.current_process ≡ p
    → Entered frame s s'
    → s'.cpu.loaded ≡ (s.store p).context
Entered-loads frame s s' p away here (goes_on h on) = absurd (away (h.1 ∙ here))
Entered-loads frame s s' p away here (comes_back h on) =
    on.loads ∙ ap (λ q. (s.store q).context) here

enters-loads :
    (e : Event) (s : Sched) (p : ℕ)
    → s.cpu.current_process ≢ p
    → (run_event e s).cpu.current_process ≡ p
    → (run_event e s).cpu.loaded ≡ (s.store p).context
enters-loads (tick frame) s p away here =
    Entered-loads frame s _ p away here (scheduler_loop-Entered frame s)
enters-loads (exits arg frame) s p away here = rw (syscall_exit-eq arg frame s) (
    Entered-loads frame (exited arg s) _ p away
      (ap (λ t. t.cpu.current_process) (sym (syscall_exit-eq arg frame s)) ∙ here)
      (scheduler_loop-Entered frame (exited arg s))
    ∙ ap (λ q. q.context) (update-ne s.store _ _ p (λ e. away (sym e))))

-- The registers that an interrupt frame holds.
abbrev pub context_of : InterruptFrame → ProcessContext
context_of f = record {
  rax = f.registers.rax;
  rbx = f.registers.rbx;
  rcx = f.registers.rcx;
  rdx = f.registers.rdx;
  rsi = f.registers.rsi;
  rdi = f.registers.rdi;
  rbp = f.registers.rbp;
  r8 = f.registers.r8;
  r9 = f.registers.r9;
  r10 = f.registers.r10;
  r11 = f.registers.r11;
  r12 = f.registers.r12;
  r13 = f.registers.r13;
  r14 = f.registers.r14;
  r15 = f.registers.r15;
  rip = f.iret_frame.rip;
  cs = f.iret_frame.cs;
  rflags = f.iret_frame.rflags;
  rsp = f.iret_frame.rsp;
  ss = f.iret_frame.ss;
}

saved-context : (p : Process) (frame : InterruptFrame) → (saved p frame).context ≡ context_of frame
unfolding process_save_state
saved-context p frame = refl

-- A live process that is interrupted with a frame, and entered again after any number of turns in
-- which it only waited, goes on with the very registers of that frame.
pub resume-registers :
    (frame : InterruptFrame) (s t : Sched) (p : ℕ) (e : Event)
    → Interrupted s p
    → (scheduler_loop frame s).cpu.current_process ≢ p
    → Waits p (scheduler_loop frame s) t
    → (run_event e t).cpu.current_process ≡ p
    → (run_event e t).cpu.loaded ≡ context_of frame
resume-registers frame s t p e here away waits back =
    let (same, last) = Waits-store p away waits in
    enters-loads e t p last back
    ∙ ap (λ q. q.context) same
    ∙ ap (λ q. q.context) (scheduler_loop-Interrupted frame s p (λ z. away (sym z)) here)
    ∙ saved-context (s.store p) frame
