-- ===== src/Prelude/Bits.antt =====
-- `bit_and` and `bit_or` at variables. Both are digit-wise, so one section proves the law for the
-- lowest bit and for a block of k bits, and the masks and disjoint unions follow from it.
pub mod Masks
use Prim.Native.Nat.{
  ℕ, zero, suc, ◌+◌, ◌*◌, ◌/◌, ◌%◌, ◌^◌, ◌≤◌, ◌<◌, min, max, bit_and, bit_or, digits,
  bit_and-bitwise, bit_or-bitwise,
}
use mathlib.Core.Path.{◌≡◌, refl, ap, ap₂, ◌∙◌}
use native.Mathlib.Omega.{arith}
use native.Mathlib.Nat.{pow-suc, one-le-pow}

-- The count of digits to go does not matter once it is large enough.
module _ (z : ℕ → ℕ) (f : ℕ → ℕ → ℕ) where
  digits-fuel : (n m a b : ℕ) → a ≤ n → a ≤ m → digits z f n a b ≡ digits z f m a b
  digits-fuel zero zero _ b p q = refl
  digits-fuel (suc n) zero zero b p q = refl
  digits-fuel (suc n) zero (suc a) b p q = absurd (omega arith)
  digits-fuel zero (suc m) zero b p q = refl
  digits-fuel zero (suc m) (suc a) b p q = absurd (omega arith)
  digits-fuel (suc n) (suc m) zero b p q = refl
  digits-fuel (suc n) (suc m) (suc a) b p q =
      ap (λ (t : ℕ). t * 2 + f (suc a % 2) (b % 2))
        (digits-fuel n m (suc a / 2) (b / 2) (omega arith) (omega arith))

  -- The recursion for the lowest digit, for an operation that `digits` describes.
  digits-step :
      (op : ℕ → ℕ → ℕ)
      → ((a b : ℕ) → op a b ≡ digits z f a a b)
      → ((b : ℕ) → z b ≡ z (b / 2) * 2 + f 0 (b % 2))
      → (a b : ℕ) → op a b ≡ op (a / 2) (b / 2) * 2 + f (a % 2) (b % 2)
  digits-step op e ez zero b = rw (e 0 b, e 0 (b / 2)) (ez b)
  digits-step op e ez (suc a) b =
      rw (e (suc a) b, e (suc a / 2) (b / 2))
        (ap (λ (t : ℕ). t * 2 + f (suc a % 2) (b % 2))
          (digits-fuel a (suc a / 2) (suc a / 2) (b / 2) (omega arith) (omega arith)))

pub bit_and_step : (a b : ℕ) → bit_and a b ≡ bit_and (a / 2) (b / 2) * 2 + min (a % 2) (b % 2)
bit_and_step = digits-step (λ b. 0) min bit_and bit_and-bitwise (λ b. omega arith)

pub bit_or_step : (a b : ℕ) → bit_or a b ≡ bit_or (a / 2) (b / 2) * 2 + max (a % 2) (b % 2)
bit_or_step = digits-step (λ b. b) max bit_or bit_or-bitwise (λ b. omega arith)

half_block : (k x w : ℕ) → (x * 2 ^ suc k + w) / 2 ≡ x * 2 ^ k + w / 2
half_block k x w = omega (arith, ap (λ (t : ℕ). x * t) (pow-suc 2 k))

parity_block : (k x w : ℕ) → (x * 2 ^ suc k + w) % 2 ≡ w % 2
parity_block k x w = omega (arith, ap (λ (t : ℕ). x * t) (pow-suc 2 k))

module _ (op f : ℕ → ℕ → ℕ) (none_set : op 0 0 ≡ 0)
    (step : (a b : ℕ) → op a b ≡ op (a / 2) (b / 2) * 2 + f (a % 2) (b % 2)) where
  split_half :
      (k x y w z : ℕ)
      → op (x * 2 ^ suc k + w) (y * 2 ^ suc k + z)
        ≡ op (x * 2 ^ k + w / 2) (y * 2 ^ k + z / 2) * 2 + f (w % 2) (z % 2)
  split_half k x y w z =
      step _ _ ∙ rw (half_block k x w, half_block k y z, parity_block k x w, parity_block k y z)

  split_block :
      (k x y w z : ℕ)
      → w < 2 ^ k
      → z < 2 ^ k
      → op (x * 2 ^ k + w) (y * 2 ^ k + z) ≡ op x y * 2 ^ k + op w z
  split_block zero x y zero zero hw hz = omega (arith, none_set, ap₂ op (same x) (same y))
    where
      same : (t : ℕ) → t * 2 ^ 0 + 0 ≡ t
      same t = omega arith
  split_block zero x y (suc w) z hw hz = absurd (omega arith)
  split_block zero x y zero (suc z) hw hz = absurd (omega arith)
  split_block (suc k) x y w z hw hz = omega (
    arith,
    split_half k x y w z,
    split_block k x y (w / 2) (z / 2) (omega (arith, pow-suc 2 k)) (omega (arith, pow-suc 2 k)),
    step w z,
    ap (λ (t : ℕ). op x y * t) (pow-suc 2 k),
  )

-- The laws for a block of k low bits.
pub bit_and-split :
    (k x y w z : ℕ)
    → w < 2 ^ k
    → z < 2 ^ k
    → bit_and (x * 2 ^ k + w) (y * 2 ^ k + z) ≡ bit_and x y * 2 ^ k + bit_and w z
bit_and-split = split_block bit_and min refl bit_and_step

pub bit_or-split :
    (k x y w z : ℕ)
    → w < 2 ^ k
    → z < 2 ^ k
    → bit_or (x * 2 ^ k + w) (y * 2 ^ k + z) ≡ bit_or x y * 2 ^ k + bit_or w z
bit_or-split = split_block bit_or max refl bit_or_step

pub zero-bit_or : (b : ℕ) → bit_or 0 b ≡ b
zero-bit_or b = bit_or-bitwise 0 b

pub zero-bit_and : (b : ℕ) → bit_and 0 b ≡ 0
zero-bit_and b = bit_and-bitwise 0 b

bit_and-zero_below : (n a : ℕ) → a ≤ n → bit_and a 0 ≡ 0
bit_and-zero_below n zero h = refl
bit_and-zero_below zero (suc a) h = absurd (omega arith)
bit_and-zero_below (suc n) (suc a) h =
    omega (arith, bit_and_step (suc a) 0, bit_and-zero_below n (suc a / 2) (omega arith))

pub bit_and-zero : (a : ℕ) → bit_and a 0 ≡ 0
bit_and-zero a = bit_and-zero_below a a (omega arith)

bit_or-zero_below : (n a : ℕ) → a ≤ n → bit_or a 0 ≡ a
bit_or-zero_below n zero h = refl
bit_or-zero_below zero (suc a) h = absurd (omega arith)
bit_or-zero_below (suc n) (suc a) h =
    omega (arith, bit_or_step (suc a) 0, bit_or-zero_below n (suc a / 2) (omega arith))

pub bit_or-zero : (a : ℕ) → bit_or a 0 ≡ a
bit_or-zero a = bit_or-zero_below a a (omega arith)

-- A number above k bits and one within them have no bit in common.
pub bit_or-add : (k x z : ℕ) → z < 2 ^ k → bit_or (x * 2 ^ k) z ≡ x * 2 ^ k + z
bit_or-add k x z h = omega (
  arith,
  ap₂ bit_or (plus_zero (x * 2 ^ k)) (zero_times k z),
  bit_or-split k x 0 0 z (one-le-pow k 2 (omega arith)) h,
  ap (λ (t : ℕ). t * 2 ^ k) (bit_or-zero x),
  zero-bit_or z,
)
  where
    plus_zero : (t : ℕ) → t ≡ t + 0
    plus_zero t = omega arith

    zero_times : (k t : ℕ) → t ≡ 0 * 2 ^ k + t
    zero_times k t = omega arith

bit_or-comm_below : (n a b : ℕ) → a ≤ n → bit_or a b ≡ bit_or b a
bit_or-comm_below n zero b h = omega (arith, zero-bit_or b, bit_or-zero b)
bit_or-comm_below zero (suc a) b h = absurd (omega arith)
bit_or-comm_below (suc n) (suc a) b h = omega (
  arith,
  bit_or_step (suc a) b,
  bit_or_step b (suc a),
  bit_or-comm_below n (suc a / 2) (b / 2) (omega arith),
)

pub bit_or_comm : (a b : ℕ) → bit_or a b ≡ bit_or b a
bit_or_comm a b = bit_or-comm_below a a b (omega arith)
