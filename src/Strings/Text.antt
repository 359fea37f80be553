-- ===== src/Strings/Text.antt =====
-- kernel/common/string.c and userspace/libc/string.c: texts, which end in a zero byte.
use pristine.Strings.{Bytes, strlen_from, strlen, strcmp}
use pristine.Common.{
  ℕ, zero, suc, ◌+◌, ◌-◌, ◌%◌, ◌^◌, ◌<◌, ◌≡◌, refl, sym, ap, ◌∙◌, subst, ◌≢◌, ◌↔◌, true, List, [],
  ◌∷◌, arith, ℕ_discrete, ◌!=◌, ==-refl, ==-ne, length,
}

-- The bytes of a text at an address, with the zero after them.
abbrev pub IsText : Bytes → ℕ → List ℕ → Type 0
IsText mem p [] = mem p ≡ 0
IsText mem p (x ∷ xs) = (mem p ≡ x) × (x ≢ 0) × (x < 256) × IsText mem (p + 1) xs

strlen_from-length :
    (fuel : ℕ) (mem : Bytes) (str len : ℕ) (xs : List ℕ)
    → IsText mem (str + len) xs
    → length xs < fuel
    → strlen_from fuel mem str len ≡ len + length xs
unfolding strlen_from
strlen_from-length zero mem str len xs text enough = absurd (omega arith)
strlen_from-length (suc fuel) mem str len [] text enough = rw text (omega arith)
strlen_from-length (suc fuel) mem str len (x ∷ xs) text enough =
    let next : str + len + 1 ≡ str + (len + 1) = omega arith in
    rw (text.0, ==-ne x 0 text.1)
      (strlen_from-length fuel mem str (len + 1) xs (subst (λ p. IsText mem p xs) next text.3)
          (omega arith)
        ∙ omega arith)

-- `strlen` of a text is the number of its bytes, with fuel for one round more.
pub strlen-length :
    (fuel : ℕ) (mem : Bytes) (str : ℕ) (xs : List ℕ)
    → IsText mem str xs
    → length xs < fuel
    → strlen fuel mem str ≡ length xs
unfolding strlen
strlen-length fuel mem str xs text enough =
    let start : str ≡ str + 0 = omega arith in
    strlen_from-length fuel mem str 0 xs (subst (λ p. IsText mem p xs) start text) enough
    ∙ omega arith

-- Where the bytes at two places differ the result is not 0.
differ-ne : (a b : ℕ) → a < 256 → b < 256 → a ≢ b → (a + 2 ^ 32 - b) % 2 ^ 32 ≢ 0
differ-ne a b p q ne e = ne (omega arith)

nonzero : (x : ℕ) → x ≢ 0 → (x != 0) ≡ true
nonzero x h = ground arith

-- `strcmp` of two texts is 0 exactly where they are the same.
pub strcmp_iff :
    (fuel : ℕ) (mem : Bytes) (lhs rhs : ℕ) (xs ys : List ℕ)
    → IsText mem lhs xs
    → IsText mem rhs ys
    → length xs < fuel
    → (strcmp fuel mem lhs rhs ≡ 0) ↔ (xs ≡ ys)
unfolding strcmp
strcmp_iff zero mem lhs rhs xs ys left right enough = absurd (omega arith)
strcmp_iff (suc fuel) mem lhs rhs [] [] left right enough =
    rw (left, right) ((λ e. refl), λ e. refl)
strcmp_iff (suc fuel) mem lhs rhs [] (y ∷ ys) left right enough =
    rw (left, right.0)
      ((λ e. absurd (differ-ne 0 y (omega arith) (right.2) (λ z. right.1 (sym z)) e)), λ e. cc)
strcmp_iff (suc fuel) mem lhs rhs (x ∷ xs) [] left right enough =
    rw (left.0, right, nonzero x left.1, ==-ne x 0 left.1)
      ((λ e. absurd (differ-ne x 0 left.2 (omega arith) left.1 e)), λ e. cc)
strcmp_iff (suc fuel) mem lhs rhs (x ∷ xs) (y ∷ ys) left right enough = elim (ℕ_discrete x y) [
  | yes same ↦
      let (there, back) =
        strcmp_iff fuel mem (lhs + 1) (rhs + 1) xs ys left.3 right.3 (omega arith) in
      rw (left.0, right.0, same, nonzero y right.1, ==-refl y)
        ((λ e. ap (λ l. y ∷ l) (there e)), λ e. back (cc))
  | no other ↦
      rw (left.0, right.0, nonzero x left.1, ==-ne x y other)
        ((λ e. absurd (differ-ne x y left.2 right.2 other e)), λ e. absurd (other (cc)))
]
