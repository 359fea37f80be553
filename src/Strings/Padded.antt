-- ===== src/Strings/Padded.antt =====
-- userspace/libc/string.c: `strncpy`.
use pristine.Strings.{Bytes, rep_movsb, memcpy, memset, strncpy}
use pristine.Strings.Copy.{Copied, rep_movsb-Copied, Filled, rep_stosb-Filled}
use pristine.Strings.Text.{IsText, strlen-length}
use pristine.Common.{
  ℕ, ◌+◌, ◌-◌, ◌≤◌, ◌<◌, min, ◌≡◌, ◌∙◌, ◌⊎◌, List, arith, ltb, ◌==◌, if◌then◌else◌, length,
}

-- The first `count` bytes of a text of `len` bytes, with zeros after its end.
pub record Padded (mem : Bytes) (dst src len count : ℕ) (mem' : Bytes) : Type 0 where
  pub text : (i : ℕ) → i < count → i < len → mem' (dst + i) ≡ mem (src + i)
  pub zeros : (i : ℕ) → i < count → len ≤ i → mem' (dst + i) ≡ 0
  pub outside : (x : ℕ) → (x < dst) ⊎ (dst + count ≤ x) → mem' x ≡ mem x

Copied-Filled :
    {mem mid mem' : Bytes} (dst src len count copy pad : ℕ)
    → copy ≡ min len count
    → pad ≡ count - copy
    → Copied mem dst src copy mid
    → Filled mid (dst + copy) 0 pad mem'
    → Padded mem dst src len count mem'
Copied-Filled dst src len count copy pad e f c z = record {
  text = λ i below lt. z.outside (dst + i) (omega arith) ∙ c.inside i (omega arith);
  zeros = λ i below ge. z.inside (dst + i) (omega arith) (omega arith);
  outside = λ x out. z.outside x (omega arith) ∙ c.outside x (omega arith);
}

-- `strncpy` of a text writes exactly `count` bytes: the bytes of the text, cut off or with zeros
-- after them; the places do not overlap.
pub strncpy-Padded :
    (fuel : ℕ) (mem : Bytes) (dst src count : ℕ) (xs : List ℕ)
    → IsText mem src xs
    → length xs < fuel
    → (dst ≤ src) ⊎ (src + length xs ≤ dst)
    → Padded mem dst src (length xs) count (strncpy fuel mem dst src count).0
unfolding strncpy memcpy memset
strncpy-Padded fuel mem dst src count xs text enough apart =
    rw (strlen-length fuel mem src xs text enough) (
      Copied-Filled dst src (length xs) count copy pad (ground arith) (ground arith)
        (rep_movsb-Copied copy dst src mem (ground arith))
        (rep_stosb-Filled pad (dst + copy) 0 (rep_movsb copy dst src mem)))
  where
    copy : ℕ
    copy = if ltb (length xs) count then length xs else count

    pad : ℕ
    pad = if copy == count then 0 else count - length xs
