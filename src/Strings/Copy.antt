-- ===== src/Strings/Copy.antt =====
-- kernel/common/string.c and userspace/libc/string.c: what the copies leave in memory.
use pristine.Strings.{Bytes, rep_movsb, rep_movsb_down, rep_stosb, memmove}
use pristine.Common.{
  ℕ, zero, suc, ◌+◌, ◌-◌, ◌≤◌, ◌<◌, ◌≡◌, refl, ◌∙◌, ◌⊎◌, false, arith, dec_lt, ℕ_discrete, ltb,
  lt→ltb, update, update_self, update-ne,
}

-- `count` bytes from `src` on stand at `dst` now, and no other byte has changed.
pub record Copied (mem : Bytes) (dst src count : ℕ) (mem' : Bytes) : Type 0 where
  pub inside : (i : ℕ) → i < count → mem' (dst + i) ≡ mem (src + i)
  pub outside : (x : ℕ) → (x < dst) ⊎ (dst + count ≤ x) → mem' x ≡ mem x

-- A first byte, and the others after it.
Copied-first :
    {mem mem' : Bytes} (dst src n : ℕ)
    → (dst ≤ src) ⊎ (src + suc n ≤ dst)
    → Copied (update mem dst (mem src)) (dst + 1) (src + 1) n mem'
    → Copied mem dst src (suc n) mem'
Copied-first {mem} {mem'} dst src n apart rest = record {
  inside = inside;
  outside = λ x out. rest.outside x (omega arith) ∙ update-ne mem dst (mem src) x (omega arith);
}
  where
    inside : (i : ℕ) → i < suc n → mem' (dst + i) ≡ mem (src + i)
    inside zero lt =
        let here : dst + 0 ≡ dst = omega arith in
        let there : src + 0 ≡ src = omega arith in
        rw (here, there) (rest.outside dst (omega arith) ∙ update_self mem dst (mem src))
    inside (suc i) lt =
        let here : dst + suc i ≡ dst + 1 + i = omega arith in
        let there : src + suc i ≡ src + 1 + i = omega arith in
        rw (here, there)
          (rest.inside i (omega arith) ∙ update-ne mem dst (mem src) (src + 1 + i) (omega arith))

-- A last byte, and the others before it.
Copied-last :
    {mem mem' : Bytes} (dst src n : ℕ)
    → src ≤ dst
    → Copied (update mem (dst + n) (mem (src + n))) dst src n mem'
    → Copied mem dst src (suc n) mem'
Copied-last {mem} {mem'} dst src n apart rest = record {
  inside = inside;
  outside = λ x out.
      rest.outside x (omega arith) ∙ update-ne mem (dst + n) (mem (src + n)) x (omega arith);
}
  where
    inside : (i : ℕ) → i < suc n → mem' (dst + i) ≡ mem (src + i)
    inside i lt = elim (ℕ_discrete i n) [
      | yes at_end ↦
          rw at_end
            (rest.outside (dst + n) (omega arith) ∙ update_self mem (dst + n) (mem (src + n)))
      | no before ↦
          rest.inside i (omega arith)
          ∙ update-ne mem (dst + n) (mem (src + n)) (src + i) (omega arith)
    ]

-- Forwards, where no byte is written before it is read.
pub rep_movsb-Copied :
    (count dst src : ℕ) (mem : Bytes)
    → (dst ≤ src) ⊎ (src + count ≤ dst)
    → Copied mem dst src count (rep_movsb count dst src mem)
unfolding rep_movsb
rep_movsb-Copied zero dst src mem apart = record {
  inside = λ i lt. absurd (omega arith);
  outside = λ x out. refl;
}
rep_movsb-Copied (suc n) dst src mem apart =
    Copied-first dst src n apart
      (rep_movsb-Copied n (dst + 1) (src + 1) (update mem dst (mem src)) (omega arith))

-- Backwards, from the last byte on.
pub rep_movsb_down-Copied :
    (count dst src : ℕ) (mem : Bytes)
    → src ≤ dst
    → Copied mem dst src count (rep_movsb_down count (dst + count - 1) (src + count - 1) mem)
unfolding rep_movsb_down
rep_movsb_down-Copied zero dst src mem apart = record {
  inside = λ i lt. absurd (omega arith);
  outside = λ x out. refl;
}
rep_movsb_down-Copied (suc n) dst src mem apart =
    let last : dst + suc n - 1 ≡ dst + n = omega arith in
    let from : src + suc n - 1 ≡ src + n = omega arith in
    rw (last, from)
      (Copied-last dst src n apart
        (rep_movsb_down-Copied n dst src (update mem (dst + n) (mem (src + n))) apart))

-- `memmove` copies the bytes as they were, whether or not the two places overlap.
pub memmove-Copied :
    (mem : Bytes) (dst src count : ℕ) → Copied mem dst src count (memmove mem dst src count).0
unfolding memmove
memmove-Copied mem dst src count = elim (dec_lt dst src) [
  | yes before ↦ rw (lt→ltb dst src before) (rep_movsb-Copied count dst src mem (omega arith))
  | no after ↦
      let test : ltb dst src ≡ false = ground arith in
      rw test (rep_movsb_down-Copied count dst src mem (omega arith))
]

-- `count` bytes from `dst` on hold a value.
pub record Filled (mem : Bytes) (dst value count : ℕ) (mem' : Bytes) : Type 0 where
  pub inside : (x : ℕ) → dst ≤ x → x < dst + count → mem' x ≡ value
  pub outside : (x : ℕ) → (x < dst) ⊎ (dst + count ≤ x) → mem' x ≡ mem x

Filled-first :
    {mem mem' : Bytes} (dst value n : ℕ)
    → Filled (update mem dst value) (dst + 1) value n mem'
    → Filled mem dst value (suc n) mem'
Filled-first {mem} {mem'} dst value n rest = record {
  inside = inside;
  outside = λ x out. rest.outside x (omega arith) ∙ update-ne mem dst value x (omega arith);
}
  where
    inside : (x : ℕ) → dst ≤ x → x < dst + suc n → mem' x ≡ value
    inside x from to = elim (ℕ_discrete x dst) [
      | yes first ↦ rw first (rest.outside dst (omega arith) ∙ update_self mem dst value)
      | no later ↦ rest.inside x (omega arith) (omega arith)
    ]

pub rep_stosb-Filled :
    (count dst value : ℕ) (mem : Bytes) → Filled mem dst value count (rep_stosb count dst value mem)
unfolding rep_stosb
rep_stosb-Filled zero dst value mem = record {
  inside = λ x from to. absurd (omega arith);
  outside = λ x out. refl;
}
rep_stosb-Filled (suc n) dst value mem =
    Filled-first dst value n (rep_stosb-Filled n (dst + 1) value (update mem dst value))
