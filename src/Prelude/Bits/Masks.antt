-- ===== src/Prelude/Bits/Masks.antt =====
-- Masks over bit fields of fixed width, read at the values that the program's constants have.
use Prim.Native.Nat.{ℕ, ◌+◌, ◌*◌, ◌/◌, ◌%◌, ◌^◌, ◌<◌, bit_and, bit_or}
use mathlib.Core.Path.{◌≡◌, ap, ap₂, ◌∙◌}
use native.Mathlib.Omega.{arith}
use hs.Prelude.Bits.{
  bit_and_step, bit_and-split, bit_and-zero, bit_or-split, bit_or-zero, zero-bit_or, bit_or-add,
  bit_or_comm,
}

pub bit_and-1 : (x : ℕ) → bit_and x 1 ≡ x % 2
bit_and-1 x = omega (arith, bit_and_step x 1, bit_and-zero (x / 2))

pub bit_and-15 : (x : ℕ) → bit_and x 0xf ≡ x % 16
bit_and-15 x = omega (
  arith,
  bit_and_step x 15,
  bit_and_step (x / 2) 7,
  bit_and_step (x / 2 / 2) 3,
  bit_and-1 (x / 2 / 2 / 2),
)

pub bit_and-127 : (x : ℕ) → bit_and x 0x7f ≡ x % 128
bit_and-127 x = omega (
  arith,
  bit_and_step x 127,
  bit_and_step (x / 2) 63,
  bit_and_step (x / 2 / 2) 31,
  bit_and-15 (x / 2 / 2 / 2),
)

-- The parts of a number below and above bit k, for the widths in use.
module _ (x : ℕ) where
  at_7 : x ≡ x / 2 ^ 7 * 2 ^ 7 + x % 2 ^ 7
  at_7 = omega arith

  at_14 : x ≡ x / 2 ^ 14 * 2 ^ 14 + x % 2 ^ 14
  at_14 = omega arith

  at_28 : x ≡ x / 2 ^ 28 * 2 ^ 28 + x % 2 ^ 28
  at_28 = omega arith

pub bit_and-128 : (x : ℕ) → bit_and x 0x80 ≡ x / 128 % 2 * 128
bit_and-128 x = omega (
  arith,
  ap (λ t. bit_and t 0x80) (at_7 x),
  bit_and-split 7 (x / 2 ^ 7) 1 (x % 2 ^ 7) 0 (omega arith) (omega arith),
  bit_and-1 (x / 2 ^ 7),
  bit_and-zero (x % 2 ^ 7),
)

-- The mask of the bits 0 to 6 and 14 to 20.
pub bit_and-two_slots : (x : ℕ) → bit_and x 0x1fc07f ≡ x / 2 ^ 14 % 128 * 2 ^ 14 + x % 128
bit_and-two_slots x = omega (
  arith,
  ap (λ t. bit_and t 0x1fc07f) (at_14 x),
  bit_and-split 14 (x / 2 ^ 14) 0x7f (x % 2 ^ 14) 0x7f (omega arith) (omega arith),
  bit_and-127 (x / 2 ^ 14),
  bit_and-127 (x % 2 ^ 14),
)

-- The same mask, and the bits 28 to 31.
pub bit_and-three_slots :
    (x : ℕ) → bit_and x 0xf01fc07f ≡ x / 2 ^ 28 % 16 * 2 ^ 28 + x / 2 ^ 14 % 128 * 2 ^ 14 + x % 128
bit_and-three_slots x = omega (
  arith,
  ap (λ t. bit_and t 0xf01fc07f) (at_28 x),
  bit_and-split 28 (x / 2 ^ 28) 0xf (x % 2 ^ 28) 0x1fc07f (omega arith) (omega arith),
  bit_and-15 (x / 2 ^ 28),
  bit_and-two_slots (x % 2 ^ 28),
)

-- Two numbers whose groups of seven bits take turns have no bit in common.
pub bit_or-interleave :
    (h u w y v : ℕ)
    → u < 128
    → w < 128
    → v < 128
    → y < 128
    → bit_or (h * 2 ^ 28 + u * 2 ^ 14 + w) (y * 2 ^ 21 + v * 2 ^ 7)
      ≡ h * 2 ^ 28 + y * 2 ^ 21 + u * 2 ^ 14 + v * 2 ^ 7 + w
bit_or-interleave h u w y v hu hw hv hy = omega (
  arith,
  ap₂ bit_or (low h u w) (high y v),
  bit_or-split 7 (h * 2 ^ 21 + u * 2 ^ 7) (y * 2 ^ 14 + v) w 0 (omega arith) (omega arith),
  bit_or-zero w,
  ap₂ bit_or (middle h u) (plain y v),
  bit_or-split 7 (h * 2 ^ 14 + u) (y * 2 ^ 7) 0 v (omega arith) (omega arith),
  zero-bit_or v,
  ap₂ bit_or (top h u) (single y),
  bit_or-split 7 (h * 2 ^ 7) y u 0 (omega arith) (omega arith),
  bit_or-zero u,
  bit_or-add 7 h y (omega arith),
)
  where
    low : (h u w : ℕ) → h * 2 ^ 28 + u * 2 ^ 14 + w ≡ (h * 2 ^ 21 + u * 2 ^ 7) * 2 ^ 7 + w
    low h u w = omega arith

    high : (y v : ℕ) → y * 2 ^ 21 + v * 2 ^ 7 ≡ (y * 2 ^ 14 + v) * 2 ^ 7 + 0
    high y v = omega arith

    middle : (h u : ℕ) → h * 2 ^ 21 + u * 2 ^ 7 ≡ (h * 2 ^ 14 + u) * 2 ^ 7 + 0
    middle h u = omega arith

    plain : (y v : ℕ) → y * 2 ^ 14 + v ≡ y * 2 ^ 7 * 2 ^ 7 + v
    plain y v = omega arith

    top : (h u : ℕ) → h * 2 ^ 14 + u ≡ h * 2 ^ 7 * 2 ^ 7 + u
    top h u = omega arith

    single : (y : ℕ) → y * 2 ^ 7 ≡ y * 2 ^ 7 + 0
    single y = omega arith

-- The same, for two numbers that equal such sums.
pub bit_or-join :
    (h u w y v a b : ℕ)
    → u < 128
    → w < 128
    → v < 128
    → y < 128
    → a ≡ h * 2 ^ 28 + u * 2 ^ 14 + w
    → b ≡ y * 2 ^ 21 + v * 2 ^ 7
    → bit_or a b ≡ h * 2 ^ 28 + y * 2 ^ 21 + u * 2 ^ 14 + v * 2 ^ 7 + w
bit_or-join h u w y v a b hu hw hv hy p q = ap₂ bit_or p q ∙ bit_or-interleave h u w y v hu hw hv hy

pub bit_or-join_swapped :
    (h u w y v a b : ℕ)
    → u < 128
    → w < 128
    → v < 128
    → y < 128
    → a ≡ y * 2 ^ 21 + v * 2 ^ 7
    → b ≡ h * 2 ^ 28 + u * 2 ^ 14 + w
    → bit_or a b ≡ h * 2 ^ 28 + y * 2 ^ 21 + u * 2 ^ 14 + v * 2 ^ 7 + w
bit_or-join_swapped h u w y v a b hu hw hv hy p q =
    bit_or_comm a b ∙ bit_or-join h u w y v b a hu hw hv hy q p

-- A number at bit k joined with one below it.
pub bit_or-below : (k x z a : ℕ) → z < 2 ^ k → a ≡ x * 2 ^ k → bit_or a z ≡ x * 2 ^ k + z
bit_or-below k x z a h p = ap (λ t. bit_or t z) p ∙ bit_or-add k x z h
