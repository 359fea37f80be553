-- ===== src/Machine.antt =====
-- The state that the memory managers share, and commands over it: the physical page bitmap
-- (kernel/kernel/pmm.c), the 64-bit words of memory at their virtual addresses, CR3, the root table
-- of the kernel (include/kernel/state.h), and the bins of the slab allocator (kernel/kernel/slab.c).
-- A command that meets KPANIC (include/kernel/panic.h) halts the machine.
use pristine.Common.{ℕ, ◌+◌, Bool, true, false, ◌&&◌, ltb, leb, if◌then◌else◌, update}
use pristine.Bitmap.{Bitmap}

pub record Machine : Type 0 where
  pub pmm_bitmap : Bitmap
  pub pmm_bitmap_size : ℕ
  pub mem : ℕ → ℕ
  pub cr3 : ℕ
  pub kernel_pml4 : ℕ
  pub slab_top : ℕ
  pub free_slabs : ℕ → ℕ
  pub full_slabs : ℕ → ℕ

pub data Outcome (A : Type 0) : Type 0 where
  ok : A → Machine → Outcome A
  panic : Outcome A

abbrev pub Cmd : Type 0 → Type 0
Cmd A = Machine → Outcome A

abbrev pub pure : {A : Type 0} → A → Cmd A
pure = ok

abbrev pub kpanic : {A : Type 0} → Cmd A
kpanic m = panic

module _ {A B : Type 0} where
  abbrev pub and_then : Outcome A → (A → Cmd B) → Outcome B
  and_then (ok a m) k = k a m
  and_then panic k = panic

  infixl 5 ◌>>=◌ ◌>>◌
  abbrev pub ◌>>=◌ : Cmd A → (A → Cmd B) → Cmd B
  c >>= k = λ m. and_then (c m) k

  abbrev pub ◌>>◌ : Cmd A → Cmd B → Cmd B
  c >> d = c >>= λ _. d

-- `if (test) KPANIC(...)`, and the same under `#ifdef PRISTINE_DEBUG`.
abbrev pub panic_if : Bool → Cmd (Unit {0})
panic_if true m = panic
panic_if false m = ok tt m

abbrev pub debug_panic_if : Bool → Bool → Cmd (Unit {0})
debug_panic_if debug test = panic_if (debug && test)

-- `*p` and `*p = v` for a pointer to a 64-bit word.
abbrev pub load : ℕ → Cmd ℕ
load p m = ok (m.mem p) m

abbrev pub store : ℕ → ℕ → Cmd (Unit {0})
store p v m = ok tt (record m { mem = update m.mem p v })

-- `memset(p, 0, size)` over whole words
unfoldable pub zeroed : (ℕ → ℕ) → ℕ → ℕ → ℕ → ℕ
zeroed mem p size a = if leb p a && ltb a (p + size) then 0 else mem a

abbrev pub memset_zero : ℕ → ℕ → Cmd (Unit {0})
memset_zero p size m = ok tt (record m { mem = zeroed m.mem p size })

-- The condition under which a command ends without a panic, with what then holds.
abbrev pub Returns : {A : Type 0} → (A → Machine → Type 0) → Outcome A → Type 0
Returns P (ok a m) = P a m
Returns P panic = ⊥

pub Returns-mono :
    {A : Type 0} (P Q : A → Machine → Type 0) (o : Outcome A)
    → ((a : A) (m : Machine) → P a m → Q a m)
    → Returns P o
    → Returns Q o
Returns-mono P Q (ok a m) weaken r = weaken a m r
Returns-mono P Q panic weaken r = r

pub bind-Returns :
    {A B : Type 0} (P : A → Machine → Type 0) (Q : B → Machine → Type 0) (o : Outcome A)
    (k : A → Cmd B)
    → Returns P o
    → ((a : A) (m : Machine) → P a m → Returns Q (k a m))
    → Returns Q (and_then o k)
bind-Returns P Q (ok a m) k r next = next a m r
bind-Returns P Q panic k r next = r

-- The machine after a command, or the given one where it panics.
abbrev pub state_after : {A : Type 0} → Outcome A → Machine → Machine
state_after (ok a m) fallback = m
state_after panic fallback = fallback

pub Returns-after :
    (P : Machine → Type 0) (o : Outcome (Unit {0})) (fallback : Machine)
    → Returns (λ _ m. P m) o
    → P (state_after o fallback)
Returns-after P (ok a m) fallback r = r
Returns-after P panic fallback r = absurd r
