-- ===== src/Tests/Scheduling.antt =====
-- A list of two live processes and a dead one, at the addresses 1, 2 and 3; the idle process is at 4.
use pristine.Scheduler.Slots.{Added, scheduler_add_process-Added}
use pristine.Scheduler.{
  Sched, first_null, add_process, scheduler_add_process, reaper_add_process, bury, scan,
  save_current, enter, scheduler_loop,
}
use pristine.Scheduler.Turns.{Turn, scheduler_loop-Turn}
use pristine.Scheduler.Resume.{tick, run_event, start, context_of, resume-registers}
use pristine.Process.{
  ProcessState, ready, running, dead, Registers, InterruptFrame, Process, process_save_state,
  process_jump,
}
use pristine.Scheduler.Switch.{Interrupted, OneRunning, scheduler_loop-OneRunning}
use pristine.Scheduler.Fair.{EntersIn, live-EntersIn}
use pristine.Common.{
  ℕ, ◌≡◌, refl, sym, ◌∙◌, arith, ℕ_discrete, ◌==◌, if◌then◌else◌, ==-ne, replicate,
}

abbrev no_registers : Registers
no_registers = record {
  rax = 0;
  rbx = 0;
  rcx = 0;
  rdx = 0;
  rsi = 0;
  rdi = 0;
  rbp = 0;
  r8 = 0;
  r9 = 0;
  r10 = 0;
  r11 = 0;
  r12 = 0;
  r13 = 0;
  r14 = 0;
  r15 = 0;
}

-- An interrupt at an address.
abbrev interrupt_at : ℕ → InterruptFrame
interrupt_at address = record {
  registers = record no_registers { rax = 7 };
  iret_frame = record { rip = address; cs = 8; rflags = 0x202; rsp = 0x9000; ss = 16 };
}

abbrev pub process_in : ProcessState → Process
process_in state = record {
  pml4 = 0x1000;
  pml4_phys = 0x1000;
  pid = 1;
  entry = 0x40_0000;
  stack_top = 0x8000;
  kernel_stack_top = 0x7000;
  stack_size = 4096;
  kernel_stack_size = 4096;
  brk_start = 0;
  brk = 0;
  exit_code = 0;
  context = context_of (interrupt_at 0x40_0000);
  state = state;
}

abbrev state_of : ℕ → ProcessState
state_of p = if p == 1 then running else if p == 3 then dead else ready

abbrev slots : ℕ → ℕ
slots i = if i == 0 then 1 else if i == 4 then 3 else if i == 7 then 2 else 0

abbrev two : Sched
two = record {
  store = λ p. process_in (state_of p);
  process_list = slots;
  process_list_reap = λ _. 0;
  reaper_cursor = 0;
  cpu = record {
    kernel_stack_top = 0x7000;
    current_process = 1;
    scheduler_next = 1;
    idle_process = 4;
    tss_rsp0 = 0x7000;
    cr3 = 0x1000;
    loaded = context_of (interrupt_at 0x40_0000);
  };
}

abbrev at_a : InterruptFrame
at_a = interrupt_at 0x40_1000

abbrev at_b : InterruptFrame
at_b = interrupt_at 0x40_2000

two-OneRunning : OneRunning two
two-OneRunning q ne run = elim (ℕ_discrete q 1) [
  | yes first ↦ first
  | no other ↦ elim (ℕ_discrete q 3) [
    | yes third ↦ let gone : state_of q ≡ dead = rw (third) in cc (sym run ∙ gone)
    | no rest ↦
        let waits : state_of q ≡ ready = rw (==-ne q 1 other, ==-ne q 3 rest) in
        cc (sym run ∙ waits)
  ]
]

-- The dead process of slot 4 is buried on the way to slot 7.
turn_to_second :
    ((scheduler_loop at_a two).cpu.current_process ≡ 2)
    × ((scheduler_loop at_a two).process_list 4 ≡ 0)
    × ((scheduler_loop at_a two).process_list_reap 0 ≡ 3)
unfolding scheduler_loop scan bury reaper_add_process add_process first_null enter process_jump
    save_current
turn_to_second = (refl, refl, refl)

turn_back : (scheduler_loop at_b (scheduler_loop at_a two)).cpu.current_process ≡ 1
unfolding scheduler_loop scan bury reaper_add_process add_process first_null enter process_jump
    save_current process_save_state
turn_back = refl

scheduler_loop-Turn_example : Turn two at_a (scheduler_loop at_a two)
scheduler_loop-Turn_example = scheduler_loop-Turn at_a two

scheduler_loop-OneRunning_example :
    OneRunning (scheduler_loop at_a two)
    × (((scheduler_loop at_a two).store (scheduler_loop at_a two).cpu.current_process).state
        ≡ running)
scheduler_loop-OneRunning_example = scheduler_loop-OneRunning at_a two two-OneRunning

two-Interrupted : Interrupted two 1
two-Interrupted = ((λ e. absurd (omega arith)), refl, refl)

resume-registers_example :
    (run_event (tick at_b) (scheduler_loop at_a two)).cpu.loaded ≡ context_of at_a
resume-registers_example =
    resume-registers at_a two (scheduler_loop at_a two) 1 (tick at_b) two-Interrupted
      (λ e. absurd (omega (arith, turn_to_second.0))) start turn_back

live-EntersIn_example : EntersIn 2 (replicate 32 (tick at_a)) two
live-EntersIn_example =
    live-EntersIn (replicate 32 (tick at_a)) two 7 (omega arith) refl (λ e. absurd (omega arith))
      refl

scheduler_add_process-Added_example : Added 9 two (scheduler_add_process 9 two)
scheduler_add_process-Added_example = scheduler_add_process-Added 9 two
