-- ===== src/Common/Bits.antt =====
-- Laws of the bit operations at variables: digit steps, masks, and disjoint fields.
use Prim.Native.Nat.{
  ℕ, zero, suc, ◌+◌, ◌-◌, ◌*◌, ◌/◌, ◌%◌, ◌^◌, ◌≤◌, ◌<◌, min, max, bit_and, bit_or, digits, bitwise,
  bit_and-bitwise, bit_or-bitwise,
}
use mathlib.Core.Path.{◌≡◌, refl, ap}
use native.Mathlib.Omega.{arith}
use native.Mathlib.Nat.{pow-suc, one-le-pow}

-- The fuel of `digits` does not matter once it is at least the first number, which halves.
module _ (last : ℕ → ℕ) (op : ℕ → ℕ → ℕ) where
  fuel_enough : (x y k n : ℕ) → x ≤ min k n → digits last op k x y ≡ digits last op n x y
  fuel_enough zero y zero zero le = refl
  fuel_enough zero y zero (suc n) le = refl
  fuel_enough zero y (suc k) zero le = refl
  fuel_enough zero y (suc k) (suc n) le = refl
  fuel_enough (suc x) y zero n le = absurd (omega arith)
  fuel_enough (suc x) y (suc k) zero le = absurd (omega arith)
  fuel_enough (suc x) y (suc k) (suc n) le =
      ap (λ rest. rest * 2 + op (suc x % 2) (y % 2))
        (fuel_enough (suc x / 2) (y / 2) k n (omega arith))

  pub lowest_digit :
      (x y : ℕ)
      → op (suc x % 2) (y % 2) + 2 * bitwise last op (suc x / 2) (y / 2) ≡ bitwise last op (suc x) y
  lowest_digit x y =
      let same = fuel_enough (suc x / 2) (y / 2) (suc x / 2) x (omega arith) in omega (arith, same)

pub bit_and_step : (x y : ℕ) → bit_and x y ≡ bit_and (x / 2) (y / 2) * 2 + min (x % 2) (y % 2)
bit_and_step zero y = simp bit_and-bitwise (omega arith)
bit_and_step (suc x) y = simp bit_and-bitwise (omega (arith, lowest_digit (λ d. 0) min x y))

pub bit_or_step : (x y : ℕ) → bit_or x y ≡ bit_or (x / 2) (y / 2) * 2 + max (x % 2) (y % 2)
bit_or_step zero y = simp bit_or-bitwise (omega arith)
bit_or_step (suc x) y = simp bit_or-bitwise (omega (arith, lowest_digit (λ d. d) max x y))

-- Nothing is added by a 0, and nothing is left by it.
zero_below : (x n : ℕ) → x ≤ n → (bit_or x 0 ≡ x) × (bit_and x 0 ≡ 0)
zero_below zero n h = (refl, refl)
zero_below (suc x) zero h = absurd (omega arith)
zero_below (suc x) (suc n) h =
    let (kept, gone) = zero_below (suc x / 2) n (omega arith) in
    (omega (arith, kept, bit_or_step (suc x) 0), omega (arith, gone, bit_and_step (suc x) 0))

pub bit_or-zero : (x : ℕ) → bit_or x 0 ≡ x
bit_or-zero x = (zero_below x x (omega arith)).0

pub bit_and-zero : (x : ℕ) → bit_and x 0 ≡ 0
bit_and-zero x = (zero_below x x (omega arith)).1

mul-two-pow : (q k : ℕ) → q * 2 ^ suc k ≡ 2 * (q * 2 ^ k)
mul-two-pow q k = omega (arith, ap (λ (t : ℕ). q * t) (pow-suc 2 k))

-- Both operations act on the low `k` digits and on the others separately.
pub bit_or_split :
    (k a b c d : ℕ)
    → b < 2 ^ k
    → d < 2 ^ k
    → (bit_or (a * 2 ^ k + b) (c * 2 ^ k + d) ≡ bit_or a c * 2 ^ k + bit_or b d)
      × (bit_or b d < 2 ^ k)
bit_or_split zero a b c d p q = ground (arith, bit_or-zero 0)
bit_or_split (suc k) a b c d p q = ground (
  arith,
  bit_or_step (a * 2 ^ suc k + b) (c * 2 ^ suc k + d),
  bit_or_step b d,
  mul-two-pow a k,
  mul-two-pow c k,
  mul-two-pow (bit_or a c) k,
  pow-suc 2 k,
  bit_or_split k a (b / 2) c (d / 2) (omega (arith, pow-suc 2 k)) (omega (arith, pow-suc 2 k)),
)

pub bit_and_split :
    (k a b c d : ℕ)
    → b < 2 ^ k
    → d < 2 ^ k
    → (bit_and (a * 2 ^ k + b) (c * 2 ^ k + d) ≡ bit_and a c * 2 ^ k + bit_and b d)
      × (bit_and b d < 2 ^ k)
bit_and_split zero a b c d p q = ground (arith, bit_and-zero 0)
bit_and_split (suc k) a b c d p q = ground (
  arith,
  bit_and_step (a * 2 ^ suc k + b) (c * 2 ^ suc k + d),
  bit_and_step b d,
  mul-two-pow a k,
  mul-two-pow c k,
  mul-two-pow (bit_and a c) k,
  pow-suc 2 k,
  bit_and_split k a (b / 2) c (d / 2) (omega (arith, pow-suc 2 k)) (omega (arith, pow-suc 2 k)),
)

bit_and_ones : (k q r : ℕ) → r < 2 ^ k → bit_and (q * 2 ^ k + r) (2 ^ k - 1) ≡ r
bit_and_ones zero q r h = rw bit_and-zero (omega arith)
bit_and_ones (suc k) q r h = ground (
  arith,
  bit_and_step (q * 2 ^ suc k + r) (2 ^ suc k - 1),
  mul-two-pow q k,
  pow-suc 2 k,
  bit_and_ones k q (r / 2) (omega arith),
)

-- A mask of `k` low bits is the remainder by `2 ^ k`.
pub bit_and_mask : (k a : ℕ) → bit_and a (2 ^ k - 1) ≡ a % 2 ^ k
bit_and_mask k a = ground (arith, one-le-pow k 2, bit_and_ones k (a / 2 ^ k) (a % 2 ^ k))

-- A mask of `n` bits above `k` lower ones: the field of the argument, in place.
pub bit_and_field : (n k a : ℕ) → bit_and a ((2 ^ n - 1) * 2 ^ k) ≡ a / 2 ^ k % 2 ^ n * 2 ^ k
bit_and_field n k a = ground (
  arith,
  one-le-pow k 2,
  bit_and_split k (a / 2 ^ k) (a % 2 ^ k) (2 ^ n - 1) 0,
  bit_and_mask n (a / 2 ^ k),
  bit_and-zero (a % 2 ^ k),
)

-- `|` of disjoint fields is their sum.
pub bit_or_fields : (k q r : ℕ) → r < 2 ^ k → bit_or (q * 2 ^ k) r ≡ q * 2 ^ k + r
bit_or_fields zero q r h = ground (arith, bit_or-zero q)
bit_or_fields (suc k) q r h =
    ground (
      arith,
      bit_or_step (q * 2 ^ suc k) r,
      mul-two-pow q k,
      bit_or_fields k q (r / 2) (omega arith),
    )
