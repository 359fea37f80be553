-- ===== src/Printf/Reverse.antt =====
-- kernel/common/string.c and kernel/printf.c: `strrev` on the buffer of digits.
use pristine.Strings.Text.{IsText, strlen-length}
use pristine.Strings.{Bytes, swap_between, strrev}
use pristine.Common.{
  ℕ, zero, suc, ◌+◌, ◌-◌, ◌*◌, ◌≤◌, ◌<◌, ◌≡◌, refl, sym, ap, ◌∙◌, ◌≢◌, ◌⊎◌, true, false, ◌&&◌, ◌||◌,
  List, [], ◌∷◌, arith, dec_lt, ℕ_discrete, ltb, leb, ◌==◌, if◌then◌else◌, lt→ltb, ==-ne, length,
  update, update_self, update-ne,
}

abbrev mirror : Bytes → ℕ → ℕ → Bytes
mirror mem start end x = if leb start x && leb x end then mem (start + end - x) else mem x

mirror_inside :
    (mem : Bytes) (start end x : ℕ)
    → start ≤ x
    → x ≤ end
    → mirror mem start end x ≡ mem (start + end - x)
mirror_inside mem start end x from to =
    let test : (leb start x && leb x end) ≡ true = ground (arith, from, to) in rw test refl

mirror_outside :
    (mem : Bytes) (start end x : ℕ) → (x < start) ⊎ (end < x) → mirror mem start end x ≡ mem x
mirror_outside mem start end x out =
    let test : (leb start x && leb x end) ≡ false = ground (arith, out) in rw test refl

-- A range of one place or none.
mirror_short : (mem : Bytes) (start end x : ℕ) → end ≤ start → mirror mem start end x ≡ mem x
mirror_short mem start end x short = elim (ℕ_discrete x start) [
  | yes here ↦ elim (ℕ_discrete end start) [
    | yes one ↦ mirror_inside mem start end x (omega arith) (omega arith) ∙ ap mem (omega arith)
    | no none' ↦ mirror_outside mem start end x (omega arith)
  ]
  | no other ↦ mirror_outside mem start end x (omega arith)
]

-- The ends are swapped, and what is between them is reversed.
mirror_step :
    (mem : Bytes) (start end x : ℕ)
    → start < end
    → mirror (update (update mem end (mem start)) start (mem end)) (start + 1) (end - 1) x
      ≡ mirror mem start end x
mirror_step mem start end x apart =
    let swapped = update (update mem end (mem start)) start (mem end) in
    let inner : (y : ℕ) → y ≢ start → y ≢ end → swapped y ≡ mem y = λ y p q.
      update-ne (update mem end (mem start)) start (mem end) y p
      ∙ update-ne mem end (mem start) y q in
    elim (ℕ_discrete x start) [
      | yes first ↦
          mirror_outside swapped (start + 1) (end - 1) x (omega arith)
          ∙ ap swapped first
          ∙ update_self (update mem end (mem start)) start (mem end)
          ∙ sym (mirror_inside mem start end x (omega arith) (omega arith) ∙ ap mem (omega arith))
      | no not_first ↦ elim (ℕ_discrete x end) [
        | yes last ↦
            mirror_outside swapped (start + 1) (end - 1) x (omega arith)
            ∙ ap swapped last
            ∙ update-ne (update mem end (mem start)) start (mem end) end (omega arith)
            ∙ update_self mem end (mem start)
            ∙ sym (mirror_inside mem start end x (omega arith) (omega arith) ∙ ap mem (omega arith))
        | no not_last ↦ elim (dec_lt x start) [
          | yes before ↦
              mirror_outside swapped (start + 1) (end - 1) x (omega arith)
              ∙ inner x not_first not_last
              ∙ sym (mirror_outside mem start end x (omega arith))
          | no from ↦ elim (dec_lt end x) [
            | yes after ↦
                mirror_outside swapped (start + 1) (end - 1) x (omega arith)
                ∙ inner x not_first not_last
                ∙ sym (mirror_outside mem start end x (omega arith))
            | no between ↦
                mirror_inside swapped (start + 1) (end - 1) x (omega arith) (omega arith)
                ∙ inner (start + 1 + (end - 1) - x) (omega arith) (omega arith)
                ∙ ap mem (omega arith)
                ∙ sym (mirror_inside mem start end x (omega arith) (omega arith))
          ]
        ]
      ]
    ]

swap_between-mirror :
    (fuel : ℕ) (mem : Bytes) (start end : ℕ)
    → end < start + 2 * fuel
    → start ≤ end + 1
    → (x : ℕ) → swap_between fuel mem start end x ≡ mirror mem start end x
unfolding swap_between
swap_between-mirror zero mem start end enough ordered x =
    sym (mirror_short mem start end x (omega arith))
swap_between-mirror (suc fuel) mem start end enough ordered x = elim (dec_lt start end) [
  | no short ↦
      let stop : ltb start end ≡ false = ground (arith, short) in
      rw stop (sym (mirror_short mem start end x (omega arith)))
  | yes apart ↦ rw (lt→ltb start end apart) (
      swap_between-mirror fuel (update (update mem end (mem start)) start (mem end)) (start + 1)
        (end - 1) (omega arith) (omega arith) x
      ∙ mirror_step mem start end x apart)
]

-- `strrev` of a text of one byte or more turns its bytes round and leaves the rest.
pub strrev-bytes :
    (fuel : ℕ) (mem : Bytes) (str : ℕ) (xs : List ℕ)
    → IsText mem str xs
    → 0 < length xs
    → length xs < fuel
    → 0 < str
    → (k : ℕ) → k < length xs
    → strrev fuel mem str (str + k) ≡ mem (str + (length xs - 1 - k))
unfolding strrev
strrev-bytes fuel mem str [] text some_bytes enough place k inside = absurd (omega arith)
strrev-bytes fuel mem str (y ∷ ys) text some_bytes enough place k inside =
    let len = strlen-length fuel mem str (y ∷ ys) text enough in
    let nonzero : ((str == 0) || (mem str == 0)) ≡ false =
      rw (text.0, ==-ne str 0 (λ e. absurd (omega arith)), ==-ne y 0 text.1) refl in
    let last : str + suc (length ys) - 1 ≡ str + length ys = omega arith in
    let swapped =
      swap_between-mirror fuel mem str (str + length ys) (omega arith) (omega arith) (str + k) in
    rw (nonzero, len, last)
      (swapped
        ∙ mirror_inside mem str (str + length ys) (str + k) (omega arith) (omega arith)
        ∙ ap mem (omega arith))
