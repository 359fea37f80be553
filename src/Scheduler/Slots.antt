-- ===== src/Scheduler/Slots.antt =====
-- kernel/kernel/scheduler.c and kernel/kernel/reaper.c: a process is added to a list of slots.
use pristine.Scheduler.{max_processes, Sched, first_null, add_process, scheduler_add_process}
use pristine.Common.{
  ℕ, zero, suc, ◌+◌, ◌≤◌, ◌<◌, ◌≡◌, refl, sym, ap, ◌∙◌, ◌≢◌, Bool, true, false, Option, none, some,
  arith, ℕ_discrete, ==-ne, update,
}

-- The search from slot `i` on.
data FirstNull (slots : ℕ → ℕ) (i left : ℕ) : Option ℕ → Type 0 where
  at_slot :
      (k : ℕ)
      → i ≤ k
      → k < i + left
      → slots k ≡ 0
      → ((j : ℕ) → i ≤ j → j < k → slots j ≢ 0)
      → FirstNull slots i left (some k)
  all_taken : ((j : ℕ) → i ≤ j → j < i + left → slots j ≢ 0) → FirstNull slots i left none

FirstNull-after :
    (slots : ℕ → ℕ) (i left : ℕ) (o : Option ℕ)
    → slots i ≢ 0
    → FirstNull slots (i + 1) left o
    → FirstNull slots i (suc left) o
FirstNull-after slots i left _ taken (at_slot k from to null before) =
    at_slot k (omega arith) (omega arith) null (later taken before)
  where
    later :
        {k : ℕ}
        → slots i ≢ 0
        → ((j : ℕ) → i + 1 ≤ j → j < k → slots j ≢ 0)
        → (j : ℕ) → i ≤ j
        → j < k
        → slots j ≢ 0
    later taken before j from to = elim (ℕ_discrete j i) [
      | yes here ↦ λ z. taken (ap slots (sym here) ∙ z)
      | no away ↦ before j (omega arith) to
    ]
FirstNull-after slots i left _ taken (all_taken before) = all_taken λ j from to.
    elim (ℕ_discrete j i) [
      | yes here ↦ λ z. taken (ap slots (sym here) ∙ z)
      | no away ↦ before j (omega arith) (omega arith)
    ]

first_null-FirstNull :
    (left : ℕ) (slots : ℕ → ℕ) (i : ℕ) → FirstNull slots i left (first_null left slots i)
unfolding first_null
first_null-FirstNull zero slots i = all_taken (λ j from to. absurd (omega arith))
first_null-FirstNull (suc left) slots i = elim (ℕ_discrete (slots i) 0) [
  | yes null ↦
      rw null (at_slot i (omega arith) (omega arith) null (λ j from to. absurd (omega arith)))
  | no taken ↦
      rw (==-ne _ _ taken)
        (FirstNull-after slots i left _ taken (first_null-FirstNull left slots (i + 1)))
]

-- What adding a process to the scheduler does: it takes the first free slot and nothing else changes,
-- or all 32 slots are taken and the answer is false.
pub data Added (process : ℕ) (s : Sched) (answer : Sched × Bool) : Type 0 where
  added :
      (k : ℕ)
      → k < max_processes
      → s.process_list k ≡ 0
      → ((j : ℕ) → j < k → s.process_list j ≢ 0)
      → answer ≡ (record s { process_list = update s.process_list k process }, true)
      → Added process s answer
  slots_full :
      ((j : ℕ) → j < max_processes → s.process_list j ≢ 0)
      → answer ≡ (s, false)
      → Added process s answer

-- `scheduler_add_process` puts the process in the first free slot and changes nothing else; it
-- refuses, and changes nothing, only where all slots are taken.
pub scheduler_add_process-Added :
    (process : ℕ) (s : Sched) → Added process s (scheduler_add_process process s)
unfolding scheduler_add_process add_process
scheduler_add_process-Added process s =
    by_search (first_null max_processes s.process_list 0) refl
      (first_null-FirstNull max_processes s.process_list 0)
  where
    by_search :
        (o : Option ℕ)
        → first_null max_processes s.process_list 0 ≡ o
        → FirstNull s.process_list 0 max_processes o
        → Added process s (scheduler_add_process process s)
    by_search _ e (at_slot k from to null before) =
        added k (omega arith) null (λ j lt. before j (omega arith) lt)
          (rw (e, scheduler_add_process, add_process) refl)
    by_search _ e (all_taken taken) =
        slots_full (λ j lt. taken j (omega arith) (omega arith))
          (rw (e, scheduler_add_process, add_process) refl)
