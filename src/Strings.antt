-- ===== src/Strings.antt =====
-- kernel/common/string.c and userspace/libc/string.c: functions on bytes and on texts that end in a
-- zero byte. Memory is a function from addresses to bytes, and an object does not reach over the end
-- of the address space. A function that writes gives the memory and the pointer that it returns.
-- The loops that look for the end of a text have fuel, which is to be more than its length.
pub mod Copy
pub mod Text
pub mod Padded
use pristine.Common.{
  ℕ, zero, suc, ◌+◌, ◌-◌, ◌%◌, ◌^◌, ◌&&◌, ◌||◌, ltb, ◌==◌, ◌!=◌, if◌then◌else◌, update,
}

abbrev pub Bytes : Type 0
Bytes = ℕ → ℕ

-- `rep movsb` with the direction flag clear, and with it set
unfoldable pub rep_movsb : ℕ → ℕ → ℕ → Bytes → Bytes
rep_movsb zero dst src mem = mem
rep_movsb (suc n) dst src mem = rep_movsb n (dst + 1) (src + 1) (update mem dst (mem src))

unfoldable pub rep_movsb_down : ℕ → ℕ → ℕ → Bytes → Bytes
rep_movsb_down zero dst src mem = mem
rep_movsb_down (suc n) dst src mem = rep_movsb_down n (dst - 1) (src - 1) (update mem dst (mem src))

unfoldable pub rep_stosb : ℕ → ℕ → ℕ → Bytes → Bytes
rep_stosb zero dst value mem = mem
rep_stosb (suc n) dst value mem = rep_stosb n (dst + 1) value (update mem dst value)

-- The instruction advances `dst`, which is what is returned.
unfoldable pub memcpy : Bytes → ℕ → ℕ → ℕ → Bytes × ℕ
memcpy mem dst src count = (rep_movsb count dst src mem, dst + count)

unfoldable pub memset : Bytes → ℕ → ℕ → ℕ → Bytes × ℕ
memset mem dst value count = (rep_stosb count dst (value % 2 ^ 8) mem, dst + count)

-- The copy backwards moves pointers of its own.
unfoldable pub memmove : Bytes → ℕ → ℕ → ℕ → Bytes × ℕ
memmove mem dst src count =
    if ltb dst src
    then (rep_movsb count dst src mem, dst + count)
    else (rep_movsb_down count (dst + count - 1) (src + count - 1) mem, dst)

unfoldable pub strlen_from : ℕ → Bytes → ℕ → ℕ → ℕ
strlen_from zero mem str len = len
strlen_from (suc fuel) mem str len =
    let rest = strlen_from fuel mem str (len + 1) in if mem (str + len) == 0 then len else rest

unfoldable pub strlen : ℕ → Bytes → ℕ → ℕ
strlen fuel mem str = strlen_from fuel mem str 0

-- The result is an `int`, here in two's complement.
unfoldable pub strcmp : ℕ → Bytes → ℕ → ℕ → ℕ
strcmp zero mem lhs rhs = (mem lhs + 2 ^ 32 - mem rhs) % 2 ^ 32
strcmp (suc fuel) mem lhs rhs =
    let rest = strcmp fuel mem (lhs + 1) (rhs + 1) in
    if (mem lhs != 0) && (mem lhs == mem rhs) then rest else (mem lhs + 2 ^ 32 - mem rhs) % 2 ^ 32

unfoldable pub strcpy : ℕ → Bytes → ℕ → ℕ → Bytes × ℕ
strcpy fuel mem dst src = let len = strlen fuel mem src + 1 in ((memcpy mem dst src len).0, dst)

unfoldable pub strncpy : ℕ → Bytes → ℕ → ℕ → ℕ → Bytes × ℕ
strncpy fuel mem dst src count =
    let len = strlen fuel mem src in
    let copy_len = if ltb len count then len else count in
    let pad_len = if copy_len == count then 0 else count - len in
    let copied = (memcpy mem dst src copy_len).0 in
    ((memset copied (dst + copy_len) 0 pad_len).0, dst)

-- The loops of `strchr` and `strrchr` at `ptr`, with `left` rounds to go; 0 is NULL.
unfoldable pub strchr_from : ℕ → Bytes → ℕ → ℕ → ℕ
strchr_from zero mem ptr chr = 0
strchr_from (suc left) mem ptr chr =
    let rest = strchr_from left mem (ptr + 1) chr in if mem ptr == chr then ptr else rest

unfoldable pub strchr : ℕ → Bytes → ℕ → ℕ → ℕ
strchr fuel mem str chr = strchr_from (strlen fuel mem str) mem str chr

unfoldable pub strrchr_from : ℕ → Bytes → ℕ → ℕ → ℕ → ℕ
strrchr_from zero mem ptr chr found = found
strrchr_from (suc left) mem ptr chr found =
    strrchr_from left mem (ptr + 1) chr (if mem ptr == chr then ptr else found)

unfoldable pub strrchr : ℕ → Bytes → ℕ → ℕ → ℕ
strrchr fuel mem str chr = strrchr_from (strlen fuel mem str) mem str chr 0

-- The loop of `strrev` between two pointers; half of the distance is enough fuel.
unfoldable pub swap_between : ℕ → Bytes → ℕ → ℕ → Bytes
swap_between zero mem start end = mem
swap_between (suc fuel) mem start end =
    let rest =
      swap_between fuel (update (update mem end (mem start)) start (mem end)) (start + 1)
        (end - 1) in
    if ltb start end then rest else mem

unfoldable pub strrev : ℕ → Bytes → ℕ → Bytes
strrev fuel mem str =
    let end = str + strlen fuel mem str - 1 in
    if (str == 0) || (mem str == 0) then mem else swap_between fuel mem str end
