-- ===== src/Scheduler.antt =====
-- kernel/kernel/scheduler.c and kernel/kernel/reaper.c: round robin over 32 slots, and the list of
-- dead processes that wait to be destroyed. The end-of-interrupt write to the LAPIC is left out.
pub mod Scan
pub mod Turns
pub mod Switch
pub mod Fair
pub mod Resume
pub mod Slots
use pristine.Common.{
  ℕ, zero, suc, ◌+◌, ◌%◌, ◌^◌, Bool, true, false, Option, none, some, leb, ◌==◌, if◌then◌else◌,
  update,
}
use pristine.Process.{
  ready, running, dead, InterruptFrame, Process, is_dead, process_save_state, CpuState,
  process_jump,
}

abbrev pub max_processes : ℕ
max_processes = 32

pub record Sched : Type 0 where
  pub store : ℕ → Process
  pub process_list : ℕ → ℕ
  pub process_list_reap : ℕ → ℕ
  pub reaper_cursor : ℕ
  pub cpu : CpuState

-- The first NULL slot from `i` on, with `left` slots to go.
unfoldable pub first_null : ℕ → (ℕ → ℕ) → ℕ → Option ℕ
first_null zero slots i = none
first_null (suc left) slots i =
    let rest = first_null left slots (i + 1) in if slots i == 0 then some i else rest

-- The loop that `scheduler_add_process` and `reaper_add_process` share, over their own lists.
unfoldable pub add_process : (ℕ → ℕ) → ℕ → Option (ℕ → ℕ)
add_process slots process = elim (first_null max_processes slots 0) [
  | none ↦ none
  | some i ↦ some (update slots i process)
]

unfoldable pub scheduler_add_process : ℕ → Sched → Sched × Bool
scheduler_add_process process s = elim (add_process s.process_list process) [
  | none ↦ (s, false)
  | some slots ↦ (record s { process_list = slots }, true)
]

unfoldable pub reaper_add_process : ℕ → Sched → Sched × Bool
reaper_add_process process s = elim (add_process s.process_list_reap process) [
  | none ↦ (s, false)
  | some slots ↦ (record s { process_list_reap = slots }, true)
]

abbrev pub set_next : ℕ → Sched → Sched
set_next n s = record s { cpu = record (s.cpu) { scheduler_next = n } }

-- The slot that the loop looks at: the cursor is taken back to 0 at the end of the list.
abbrev pub cursor : Sched → ℕ
cursor s = if leb max_processes s.cpu.scheduler_next then 0 else s.cpu.scheduler_next

-- A dead process moves to the reaper's list; if that is full it stays where it is.
unfoldable pub bury : ℕ → Sched → Sched
bury slot s =
    let (s', added) = reaper_add_process (s.process_list slot) s in
    if added then record s' { process_list = update s'.process_list slot 0 } else s'

-- The loop of `scheduler_loop` with `left` rounds to go. The result is the process to continue,
-- 0 where there is none.
unfoldable pub scan : ℕ → Sched → Sched × ℕ
scan zero s = (s, 0)
scan (suc left) s =
    let i = cursor s in
    let s = set_next i s in
    let proc = s.process_list i in
    let skip = scan left (set_next (i + 1) s) in
    let dead = scan left (set_next (i + 1) (bury i s)) in
    if proc == 0 then skip else if is_dead ((s.store proc).state) then dead else (s, proc)

-- The part after the loop: the process that was interrupted is saved, unless it is dead, and the
-- chosen one is entered.
unfoldable pub save_current : InterruptFrame → Sched → Sched
save_current frame s =
    let current = s.cpu.current_process in
    let process = s.store current in
    if current == 0 then s else if is_dead (process.state) then s else record s {
      store = update s.store current (record (process_save_state process frame) { state = ready });
    }

unfoldable pub enter : ℕ → Sched → Sched
enter process s =
    let p = record (s.store process) { state = running } in
    record s {
      store = update s.store process p;
      cpu =
          process_jump p
            (record (s.cpu) { current_process = process; kernel_stack_top = p.kernel_stack_top });
    }

unfoldable pub scheduler_loop : InterruptFrame → Sched → Sched
scheduler_loop frame s =
    let (s, found) = scan max_processes s in
    let s = set_next (s.cpu.scheduler_next + 1) s in
    let process_to_continue = if found == 0 then s.cpu.idle_process else found in
    enter process_to_continue (save_current frame s)

-- `syscall_exit` of kernel/kernel/syscall.c up to its `scheduler_yield`, whose interrupt runs the
-- scheduler. `(int)arg` keeps 32 bits.
unfoldable pub syscall_exit : ℕ → InterruptFrame → Sched → Sched
syscall_exit arg frame s =
    let current = s.cpu.current_process in
    scheduler_loop frame (record s {
      store =
          update s.store current
            (record (s.store current) { state = dead; exit_code = arg % 2 ^ 32 });
    })

unfoldable pub syscall_yield : InterruptFrame → Sched → Sched
syscall_yield frame s = scheduler_loop frame s

-- One round of `reaper_run` up to the test: the process to destroy and free, or 0 to halt.
unfoldable pub reaper_take : Sched → Sched × ℕ
reaper_take s =
    let i = if leb max_processes s.reaper_cursor then 0 else s.reaper_cursor in
    (
      record s { process_list_reap = update s.process_list_reap i 0; reaper_cursor = i + 1 },
      s.process_list_reap i,
    )
