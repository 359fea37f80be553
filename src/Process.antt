-- ===== src/Process.antt =====
-- include/kernel/process.h, include/kernel/state.h: processes and what a CPU keeps of them. A pointer to a process is a
-- number, 0 for NULL, and the processes stand in a store by their pointers.
pub mod Create
use pristine.Common.{ℕ, Bool, true, false}

pub data ProcessState : Type 0 where
  ready running dead : ProcessState

-- The general registers of an interrupt frame.
pub record Registers : Type 0 where
  pub rax : ℕ
  pub rbx : ℕ
  pub rcx : ℕ
  pub rdx : ℕ
  pub rsi : ℕ
  pub rdi : ℕ
  pub rbp : ℕ
  pub r8 : ℕ
  pub r9 : ℕ
  pub r10 : ℕ
  pub r11 : ℕ
  pub r12 : ℕ
  pub r13 : ℕ
  pub r14 : ℕ
  pub r15 : ℕ

-- What `iretq` restores.
pub record IretFrame : Type 0 where
  pub rip : ℕ
  pub cs : ℕ
  pub rflags : ℕ
  pub rsp : ℕ
  pub ss : ℕ

pub record InterruptFrame : Type 0 where
  pub registers : Registers
  pub iret_frame : IretFrame

pub record ProcessContext : Type 0 where
  pub rax : ℕ
  pub rbx : ℕ
  pub rcx : ℕ
  pub rdx : ℕ
  pub rsi : ℕ
  pub rdi : ℕ
  pub rbp : ℕ
  pub r8 : ℕ
  pub r9 : ℕ
  pub r10 : ℕ
  pub r11 : ℕ
  pub r12 : ℕ
  pub r13 : ℕ
  pub r14 : ℕ
  pub r15 : ℕ
  pub rip : ℕ
  pub cs : ℕ
  pub rflags : ℕ
  pub rsp : ℕ
  pub ss : ℕ

pub record Process : Type 0 where
  pub pml4 : ℕ
  pub pml4_phys : ℕ
  pub pid : ℕ
  pub entry : ℕ
  pub stack_top : ℕ
  pub kernel_stack_top : ℕ
  pub stack_size : ℕ
  pub kernel_stack_size : ℕ
  pub brk_start : ℕ
  pub brk : ℕ
  pub exit_code : ℕ
  pub context : ProcessContext
  pub state : ProcessState

abbrev pub is_dead : ProcessState → Bool
is_dead dead = true
is_dead _ = false

unfoldable pub process_save_state : Process → InterruptFrame → Process
process_save_state process frame = record process {
  context = record {
    rax = frame.registers.rax;
    rbx = frame.registers.rbx;
    rcx = frame.registers.rcx;
    rdx = frame.registers.rdx;
    rsi = frame.registers.rsi;
    rdi = frame.registers.rdi;
    rbp = frame.registers.rbp;
    r8 = frame.registers.r8;
    r9 = frame.registers.r9;
    r10 = frame.registers.r10;
    r11 = frame.registers.r11;
    r12 = frame.registers.r12;
    r13 = frame.registers.r13;
    r14 = frame.registers.r14;
    r15 = frame.registers.r15;
    rip = frame.iret_frame.rip;
    cs = frame.iret_frame.cs;
    rflags = frame.iret_frame.rflags;
    rsp = frame.iret_frame.rsp;
    ss = frame.iret_frame.ss;
  };
}

-- The fields of `CpuState` that scheduling uses, with what `process_jump` loads: the stack pointer
-- for interrupts in the TSS, CR3, and the registers.
pub record CpuState : Type 0 where
  pub kernel_stack_top : ℕ
  pub current_process : ℕ
  pub scheduler_next : ℕ
  pub idle_process : ℕ
  pub tss_rsp0 : ℕ
  pub cr3 : ℕ
  pub loaded : ProcessContext

unfoldable pub process_jump : Process → CpuState → CpuState
process_jump process cpu = record cpu {
  tss_rsp0 = process.kernel_stack_top;
  cr3 = process.pml4_phys;
  loaded = process.context;
}
