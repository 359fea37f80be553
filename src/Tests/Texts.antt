-- ===== src/Tests/Texts.antt =====
-- Two texts of two bytes, at 100 and at 200.
use pristine.Strings.{
  Bytes, memmove, strlen_from, strlen, strcmp, strncpy, strchr_from, strchr, strrchr_from, strrchr,
  swap_between, strrev,
}
use pristine.Strings.Text.{IsText, strcmp_iff}
use pristine.Strings.Padded.{Padded, strncpy-Padded}
use pristine.Strings.Copy.{Copied, memmove-Copied}
use pristine.Common.{ℕ, ◌≡◌, refl, ◌↔◌, inr, List, [], ◌∷◌, arith, ◌==◌, if◌then◌else◌}

abbrev texts : Bytes
texts x =
    if x == 100
    then 97
    else if x == 101
    then 98
    else if x == 200
    then 97
    else if x == 201
    then 99
    else 0

abbrev ab : List ℕ
ab = 97 ∷ 98 ∷ []

abbrev ac : List ℕ
ac = 97 ∷ 99 ∷ []

ab-IsText : IsText texts 100 ab
ab-IsText = (
  refl,
  (λ e. absurd (omega arith)),
  omega arith,
  (refl, (λ e. absurd (omega arith)), omega arith, refl),
)

ac-IsText : IsText texts 200 ac
ac-IsText = (
  refl,
  (λ e. absurd (omega arith)),
  omega arith,
  (refl, (λ e. absurd (omega arith)), omega arith, refl),
)

memmove-Copied_example : Copied texts 101 100 3 (memmove texts 101 100 3).0
memmove-Copied_example = memmove-Copied texts 101 100 3

strcmp_iff_example : (strcmp 10 texts 100 200 ≡ 0) ↔ (ab ≡ ac)
strcmp_iff_example = strcmp_iff 10 texts 100 200 ab ac ab-IsText ac-IsText (omega arith)

strncpy-Padded_example : Padded texts 300 100 2 8 (strncpy 10 texts 300 100 8).0
strncpy-Padded_example =
    strncpy-Padded 10 texts 300 100 8 ab ab-IsText (omega arith) (inr (omega arith))

strrev_test : (strrev 10 texts 200 200 ≡ 99) × (strrev 10 texts 200 201 ≡ 97)
unfolding strrev strlen strlen_from swap_between
strrev_test = (refl, refl)

strrchr_test : (strrchr 10 texts 100 98 ≡ 101) × (strchr 10 texts 100 99 ≡ 0)
unfolding strrchr strrchr_from strchr strchr_from strlen strlen_from
strrchr_test = (refl, refl)
