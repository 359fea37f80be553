-- ===== src/Bsfs/Names.antt =====
-- kernel/common/string.c and kernel/common/bsfs/bsfs.c: names in arrays, as `strcmp` compares them.
use pristine.Strings.{Bytes, strcmp}
use pristine.Strings.Text.{IsText}
use pristine.Bsfs.Tree.{has_name}
use pristine.Common.{
  ℕ, zero, suc, ◌+◌, ◌≤◌, ◌<◌, ◌≡◌, refl, sym, ap, List, [], ◌∷◌, arith, ℕ_discrete, ◌==◌, ==-refl,
  ==-ne, length,
}

-- `strcmp` with a name, where the other array may have no end.
pub strcmp-has_name :
    (fuel : ℕ) (mem : Bytes) (lhs rhs : ℕ) (ys : List ℕ)
    → ((i : ℕ) → i < fuel → mem (lhs + i) < 256)
    → IsText mem rhs ys
    → length ys < fuel
    → (strcmp fuel mem lhs rhs == 0) ≡ has_name mem lhs ys
unfolding strcmp
strcmp-has_name zero mem lhs rhs ys bytes text enough = absurd (omega arith)
strcmp-has_name (suc fuel) mem lhs rhs [] bytes text enough =
    let place : lhs + 0 ≡ lhs = omega arith in
    let small : mem lhs < 256 = rw (sym place) (bytes 0 (omega arith)) in
    rw text (ground (arith, small))
strcmp-has_name (suc fuel) mem lhs rhs (y ∷ ys) bytes text enough =
    let place : lhs + 0 ≡ lhs = omega arith in
    let small : mem lhs < 256 = rw (sym place) (bytes 0 (omega arith)) in
    elim (ℕ_discrete (mem lhs) y) [
      | yes same ↦
          let rest =
            strcmp-has_name fuel mem (lhs + 1) (rhs + 1) ys (λ i lt. shifted i lt) text.3
              (omega arith) in
          rw (text.0, same, ==-refl y) (ground (arith, text.1, rest))
      | no other ↦ rw (text.0, ==-ne (mem lhs) y other) (ground (arith, other, text.2, small))
    ]
  where
    shifted : (i : ℕ) → i < fuel → mem (lhs + 1 + i) < 256
    shifted i lt =
        let place : lhs + 1 + i ≡ lhs + suc i = omega arith in
        rw place (bytes (suc i) (omega arith))

pub has_name_ext :
    (f g : Bytes) (p q : ℕ) (xs : List ℕ)
    → ((k : ℕ) → k ≤ length xs → f (p + k) ≡ g (q + k))
    → has_name f p xs ≡ has_name g q xs
has_name_ext f g p q [] same =
    let first : p + 0 ≡ p = omega arith in
    let first' : q + 0 ≡ q = omega arith in
    let here : f p ≡ g q = cc (ap f first, ap g first', same 0 (omega arith)) in rw here refl
has_name_ext f g p q (x ∷ xs) same =
    let first : p + 0 ≡ p = omega arith in
    let first' : q + 0 ≡ q = omega arith in
    let here : f p ≡ g q = cc (ap f first, ap g first', same 0 (omega arith)) in
    let rest = has_name_ext f g (p + 1) (q + 1) xs λ k lt.
      let e : p + 1 + k ≡ p + suc k = omega arith in
      let e' : q + 1 + k ≡ q + suc k = omega arith in rw (e, e') (same (suc k) (omega arith)) in
    rw (here, rest) refl

pub IsText-moved :
    (f g : Bytes) (p q : ℕ) (xs : List ℕ)
    → ((k : ℕ) → g (q + k) ≡ f (p + k))
    → IsText f p xs
    → IsText g q xs
IsText-moved f g p q [] same text =
    let first : p + 0 ≡ p = omega arith in
    let first' : q + 0 ≡ q = omega arith in cc (ap f first, ap g first', same 0, text)
IsText-moved f g p q (x ∷ xs) same text =
    let first : p + 0 ≡ p = omega arith in
    let first' : q + 0 ≡ q = omega arith in
    let rest =
      IsText-moved f g (p + 1) (q + 1) xs
        (λ k.
          let e : p + 1 + k ≡ p + suc k = omega arith in
          let e' : q + 1 + k ≡ q + suc k = omega arith in rw (e, e') (same (suc k)))
        text.3 in
    ((cc (ap f first, ap g first', same 0, text.0)), text.1, text.2, rest)
