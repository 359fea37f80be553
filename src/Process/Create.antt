-- ===== src/Process/Create.antt =====
-- kernel/kernel/process.c: a new process and the end of one. Registers that `process_create` does not
-- set keep what the memory of the process held.
use pristine.Vmm.Release.{for_idx, vmm_destroy}
use pristine.Process.{ready, Process}
use pristine.Pmm.{page_size, pmm_free}
use pristine.Pages.{map_fresh, free_mapped}
use pristine.Common.{ℕ, ◌+◌, ◌-◌, ◌/◌, ◌%◌, ◌^◌, Bool, ◌&&◌, ◌!=◌, if◌then◌else◌}
use pristine.Machine.{Cmd, pure, ◌>>=◌, ◌>>◌, load, store}
use pristine.Vmm.{flags_kernel_data, flags_user_data, slot}

-- The rounds of `for (s = top - size; s < top; s += VMM_DEFAULT_PAGE_SIZE)` on 64-bit numbers.
abbrev pub stack_start : ℕ → ℕ → ℕ
stack_start top size = (top + 2 ^ 64 - size) % 2 ^ 64

abbrev pub stack_rounds : ℕ → ℕ → ℕ
stack_rounds top size = (top - stack_start top size + page_size - 1) / page_size

unfoldable pub copy_upper_half : ℕ → ℕ → Cmd (Unit {0})
copy_upper_half pml4 kernel_pml4 =
    for_idx 256 256 λ i. (do entry ← load (slot kernel_pml4 i); store (slot pml4 i) entry)

unfoldable pub map_stack : Bool → ℕ → ℕ → ℕ → ℕ → Cmd (Unit {0})
map_stack debug pml4 top size flags =
    map_fresh debug pml4 (stack_rounds top size) (stack_start top size) flags

unfoldable pub process_create :
    Bool → Process → ℕ → ℕ → ℕ → ℕ → ℕ → ℕ → ℕ → ℕ → ℕ → ℕ → ℕ → ℕ → Cmd Process
process_create debug process pid entry cs ss rflags stack_top stack_size kernel_stack_top
      kernel_stack_size pml4 pml4_phys kernel_pml4 =
    do
      let user = (stack_top != 0) && (stack_size != 0)
      copy_upper_half pml4 kernel_pml4
      if user then map_stack debug pml4 stack_top stack_size flags_user_data else pure tt
      map_stack debug pml4 kernel_stack_top kernel_stack_size flags_kernel_data
      pure (record process {
        pml4 = pml4;
        pml4_phys = pml4_phys;
        pid = pid;
        stack_top = if user then stack_top else kernel_stack_top;
        stack_size = if user then stack_size else kernel_stack_size;
        context = record (process.context) {
          cs = cs;
          ss = ss;
          rip = entry;
          rflags = rflags;
          rsp = if user then stack_top else kernel_stack_top;
        };
        entry = entry;
        kernel_stack_top = kernel_stack_top;
        kernel_stack_size = kernel_stack_size;
        state = ready;
      })

unfoldable pub process_destroy : Bool → Process → Cmd (Unit {0})
process_destroy debug process = do
  free_mapped debug process.pml4 (stack_rounds process.kernel_stack_top process.kernel_stack_size)
      (stack_start process.kernel_stack_top process.kernel_stack_size)
  vmm_destroy debug process.pml4
  pmm_free debug process.pml4_phys
