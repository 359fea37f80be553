-- ===== src/Bsfs/Pieces.antt =====
-- kernel/common/bsfs/bsfs.c: the inner loop of `bsfs_resolve_path` cuts the next name off a path.
use pristine.Bsfs.{max_direntname}
use pristine.Strings.{Bytes}
use pristine.Strings.Text.{IsText}
use pristine.Bsfs.Tree.{with_first, names_of}
use pristine.Bsfs.Open.{slash, next_name}
use pristine.Common.{
  ℕ, suc, ◌+◌, ◌-◌, ◌≤◌, ◌<◌, ◌≡◌, refl, ap, ◌∙◌, ◌⊎◌, inl, inr, true, false, Option, none, some,
  List, [], ◌∷◌, arith, dec_lt, ℕ_discrete, leb, ◌==◌, if◌then◌else◌, ==-ne, length, update,
  update_self, update-ne,
}

-- The first name of what is left of a path, and what comes after its slash.
abbrev pub piece_of : List ℕ → List ℕ
piece_of [] = []
piece_of (x ∷ xs) = if x == slash then [] else x ∷ piece_of xs

abbrev pub after_of : List ℕ → List ℕ
after_of [] = []
after_of (x ∷ xs) = if x == slash then xs else after_of xs

with_first_names :
    (ys : List ℕ) (x : ℕ) → with_first x (names_of ys) ≡ (x ∷ piece_of ys) ∷ names_of (after_of ys)
with_first_names [] x = refl
with_first_names (y ∷ ys) x = elim (ℕ_discrete y slash) [
  | yes cut ↦ rw cut refl
  | no other ↦ rw (==-ne y slash other, with_first_names ys y) refl
]

pub names_of_first :
    (x : ℕ) (xs : List ℕ) → names_of (x ∷ xs) ≡ piece_of (x ∷ xs) ∷ names_of (after_of (x ∷ xs))
names_of_first x xs = elim (ℕ_discrete x slash) [
  | yes cut ↦ rw cut refl
  | no other ↦ rw (==-ne x slash other) (with_first_names xs x)
]

pub length-after_of : (xs : List ℕ) → length (after_of xs) ≤ length xs
length-after_of [] = omega arith
length-after_of (x ∷ xs) = ground (arith, length-after_of xs)

-- The name that `next_name` leaves, in an array that is zero from its end on.
pub record Named (path : Bytes) (i len : ℕ) (name : Bytes) (xs : List ℕ)
    (result : Option (ℕ × ℕ × Bytes)) : Type 0 where
  pub array : Bytes
  pub given : result ≡ some (i + length (piece_of xs), len + length (piece_of xs), array)
  pub before : (k : ℕ) → k < len → array k ≡ name k
  pub text : IsText (update array (len + length (piece_of xs)) 0) len (piece_of xs)

pub next_name-Named :
    (xs : List ℕ) (path : Bytes) (i len : ℕ) (name : Bytes)
    → IsText path i xs
    → len + length (piece_of xs) < max_direntname
    → Named path i len name xs (next_name (length xs) path i len name)
unfolding next_name
next_name-Named [] path i len name text short =
    let here : i + 0 ≡ i = omega arith in
    let there : len + 0 ≡ len = omega arith in
    record {
      array = name;
      given = rw (here, there) refl;
      before = λ k lt. refl;
      text = rw there (update_self name len 0);
    }
next_name-Named (x ∷ xs) path i len name text short = elim (ℕ_discrete x slash) [
  | yes cut ↦
      let here : i + 0 ≡ i = omega arith in
      let there : len + 0 ≡ len = omega arith in
      let nothing : piece_of (x ∷ xs) ≡ [] = rw cut refl in
      let stop : (path i == slash) ≡ true = rw (text.0, cut) refl in
      rw stop record {
        array = name;
        given = rw (nothing, here, there) refl;
        before = λ k lt. refl;
        text = rw (nothing, there) (update_self name len 0);
      }
  | no other ↦
      let piece : piece_of (x ∷ xs) ≡ x ∷ piece_of xs = rw (==-ne x slash other) refl in
      let n = length (piece_of xs) in
      let count : length (piece_of (x ∷ xs)) ≡ suc n = ap length piece in
      let go : (path i == slash) ≡ false = rw text.0 (==-ne x slash other) in
      let fits : leb (max_direntname - 1) len ≡ false = ground (arith, count, short) in
      let r =
        next_name-Named xs path (i + 1) (len + 1) (update name len (path i)) text.3
          (omega (arith, count, short)) in
      let ends : i + 1 + n ≡ i + suc n = omega arith in
      let length' : len + 1 + n ≡ len + suc n = omega arith in
      let letter : update r.array (len + suc n) 0 len ≡ x =
        update-ne r.array (len + suc n) 0 len (omega arith)
        ∙ r.before len (omega arith)
        ∙ update_self name len (path i)
        ∙ text.0 in
      rw (go, fits)
        record {
          array = r.array;
          given = r.given ∙ rw (count, ends, length') refl;
          before = λ k lt. r.before k (omega arith) ∙ update-ne name len (path i) k (omega arith);
          text = rw piece (letter, text.1, text.2, rw length' at r.text);
        }
]

-- A name that does not fit.
pub next_name-none :
    (xs : List ℕ) (path : Bytes) (i len : ℕ) (name : Bytes)
    → IsText path i xs
    → len < max_direntname
    → max_direntname ≤ len + length (piece_of xs)
    → next_name (length xs) path i len name ≡ none
unfolding next_name
next_name-none [] path i len name text small long = absurd (omega arith)
next_name-none (x ∷ xs) path i len name text small long = elim (ℕ_discrete x slash) [
  | yes cut ↦
      let nothing : length (piece_of (x ∷ xs)) ≡ 0 = rw cut refl in
      absurd (omega (arith, nothing, small, long))
  | no other ↦
      let count : length (piece_of (x ∷ xs)) ≡ suc (length (piece_of xs)) =
        rw (==-ne x slash other) refl in
      let go : (path i == slash) ≡ false = rw text.0 (==-ne x slash other) in
      elim (dec_lt len (max_direntname - 1)) [
        | yes room ↦
            let fits : leb (max_direntname - 1) len ≡ false = ground (arith, room) in
            rw (go, fits)
              (next_name-none xs path (i + 1) (len + 1) (update name len (path i)) text.3
                (omega (arith, room)) (omega (arith, count, long)))
        | no full ↦
            let over : leb (max_direntname - 1) len ≡ true = ground (arith, full) in
            rw (go, over) refl
      ]
]

-- Where the loop stands in the path: before the bytes `xs`, or past the end.
abbrev pub Standing : Bytes → ℕ → ℕ → List ℕ → Type 0
Standing path total i xs = (IsText path i xs × (i + length xs ≡ total)) ⊎ ((xs ≡ []) × (total ≤ i))

-- Past the slash that ends a name, or past the end of the path.
pub Standing-after :
    (xs : List ℕ) (path : Bytes) (i total : ℕ)
    → IsText path i xs
    → i + length xs ≡ total
    → Standing path total (i + length (piece_of xs) + 1) (after_of xs)
Standing-after [] path i total text whole = inr (refl, omega arith)
Standing-after (x ∷ xs) path i total text whole = elim (ℕ_discrete x slash) [
  | yes cut ↦
      let nothing : length (piece_of (x ∷ xs)) ≡ 0 = rw cut refl in
      let rest : after_of (x ∷ xs) ≡ xs = rw cut refl in
      let next : i + 0 + 1 ≡ i + 1 = omega arith in
      rw (nothing, rest, next) (inl (text.3, omega (arith, whole)))
  | no other ↦
      let count : length (piece_of (x ∷ xs)) ≡ suc (length (piece_of xs)) =
        rw (==-ne x slash other) refl in
      let rest : after_of (x ∷ xs) ≡ after_of xs = rw (==-ne x slash other) refl in
      let next : i + suc (length (piece_of xs)) + 1 ≡ i + 1 + length (piece_of xs) + 1 =
        omega arith in
      rw (count, rest, next) (Standing-after xs path (i + 1) total text.3 (omega (arith, whole)))
]
