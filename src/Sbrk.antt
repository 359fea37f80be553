-- ===== src/Sbrk.antt =====
-- kernel/kernel/syscall.c: `syscall_sbrk` on the current process. The argument is a 64-bit number
-- that is read as signed.
use pristine.Pages.Fresh.{page_after, Extended, map_fresh-Extended}
use pristine.Vmm.Tables.{frame_addr, unmapped, Owners, IsTree}
use pristine.Address.{align_up}
use pristine.Pmm.{page_size}
use pristine.Vmm.{flags_user_data}
use pristine.Pages.{map_fresh, free_mapped}
use pristine.Pmm.Count.{free_pages}
use pristine.Common.{
  ℕ, ◌+◌, ◌-◌, ◌*◌, ◌/◌, ◌%◌, ◌^◌, ◌≤◌, ◌<◌, ◌≡◌, refl, sym, Bool, false, arith, ltb, leb,
  if◌then◌else◌,
}
use pristine.Machine.{Machine, Cmd, pure, ◌>>◌, Returns, bind-Returns}
use pristine.Vmm.Map.{translate}
use pristine.Address.Laws.{align_page}
use pristine.Process.{Process}

abbrev pub is_negative : ℕ → Bool
is_negative request = leb (2 ^ 63) request

-- `ALIGN_UP(brk, VMM_DEFAULT_PAGE_SIZE) / VMM_DEFAULT_PAGE_SIZE`
abbrev pub page_above : ℕ → ℕ
page_above brk = align_up brk page_size / page_size

-- `required_pages`, a `size_t`
abbrev pub required_pages : ℕ → ℕ → ℕ
required_pages brk new_brk = (page_above new_brk + 2 ^ 64 - page_above brk) % 2 ^ 64

unfoldable pub syscall_sbrk : Bool → Process → ℕ → Cmd (Process × ℕ)
syscall_sbrk debug process request = do
  let new_brk = (process.brk + request) % 2 ^ 64
  let moved = record process { brk = new_brk }
  if is_negative request
      then (if ltb new_brk process.brk_start then pure (process, 0) else (do
        free_mapped debug process.pml4 (page_above process.brk - page_above new_brk)
            (page_above new_brk * page_size % 2 ^ 64)
        pure (moved, process.brk)))
      else (do
        map_fresh debug process.pml4 (required_pages process.brk new_brk)
            (align_up process.brk page_size) flags_user_data
        pure (moved, process.brk))

-- The break has moved up: the pages from the first one that is not in use up to the new break are
-- mapped, each to a fresh frame of its own, they reach over the new break by less than a page, and the old break is returned.
pub record Grown (m : Machine) (root : ℕ) (own : Owners) (process : Process) (request : ℕ)
    (answer : Process × ℕ) (m' : Machine) : Type 0 where
  pub returned : answer.1 ≡ process.brk
  pub moved : answer.0.brk ≡ process.brk + request
  pub pages : ℕ
  pub covers : process.brk + request ≤ page_after (align_up process.brk page_size) pages
  pub no_more :
      page_after (align_up process.brk page_size) pages < process.brk + request + page_size
  pub extended : Extended m root own (align_up process.brk page_size) pages flags_user_data m'

-- The next page boundary.
abbrev RoundsUp : ℕ → Type 0
RoundsUp v =
    (align_up v page_size % page_size ≡ 0)
    × (v ≤ align_up v page_size)
    × (align_up v page_size < v + page_size)

rounds_up : (v : ℕ) → v + 4095 < 2 ^ 64 → RoundsUp v
rounds_up v h = let (a, b, c, _, _, _) = align_page v h in (a, b, c)

-- `syscall_sbrk` of a request that is not negative, in the lower half of the address space: with
-- four free frames for each page, and the pages above the break unmapped, it maps the pages up to
-- the new break, each to a frame of its own that was free before and holds no table, and returns the
-- old one.
pub syscall_sbrk-Grown :
    (debug : Bool) {m : Machine} {root : ℕ} {own : Owners} (process : Process) (request n : ℕ)
    → IsTree m root own
    → process.pml4 ≡ frame_addr root
    → process.brk + request + page_size ≤ 2 ^ 47
    → n ≡ required_pages process.brk (process.brk + request)
    → ((i : ℕ)
        → i < n
        → translate m root (page_after (align_up process.brk page_size) i) ≡ unmapped)
    → 4 * n ≤ free_pages m
    → Returns
        (λ answer m'. Grown m root own process request answer m')
        (syscall_sbrk debug process request m)
unfolding syscall_sbrk
syscall_sbrk-Grown debug {m} {root} {own} process request n tree at_root small pages none_yet room =
    rw (no_wrap, positive, at_root, sym pages)
      (bind-Returns _ _ (map_fresh debug (frame_addr root) n start flags_user_data m) _
        (map_fresh-Extended debug n start flags_user_data tree (up.0) reach refl none_yet room)
        λ _ m' e. record {
          returned = refl;
          moved = refl;
          pages = n;
          covers = covers;
          no_more = no_more;
          extended = e;
        })
  where
    start : ℕ
    start = align_up process.brk page_size

    no_wrap : (process.brk + request) % 2 ^ 64 ≡ process.brk + request
    no_wrap = omega arith

    positive : is_negative request ≡ false
    positive = ground arith

    up : RoundsUp process.brk
    up = rounds_up process.brk (omega arith)

    top : RoundsUp (process.brk + request)
    top = rounds_up (process.brk + request) (omega arith)

    count : n ≡ (align_up (process.brk + request) page_size / page_size) - start / page_size
    count = omega (arith, pages, up, top)

    covers : process.brk + request ≤ page_after start n
    covers = omega (arith, count, up, top)

    no_more : page_after start n < process.brk + request + page_size
    no_more = omega (arith, count, up, top)

    reach : page_after start n ≤ 2 ^ 48
    reach = omega (arith, no_more)
