-- ===== src/Data/Memory/Swap.antt =====
-- Memory images, and what the byte order conversions do to them.
use hs.Prelude.{ℕ, zero, suc, ◌/◌, ◌^◌, ◌<◌, ◌≡◌, refl, ap, List, ◌++◌, length, arith}
use native.Mathlib.Nat.{pow-suc}
use hs.Data.Memory.{
  to_memory, from_memory, is_big_endian, little_endian_16, little_endian_32, little_endian_64,
}

pub length-to_memory : (n x : ℕ) → length (to_memory n x) ≡ n
unfolding to_memory
length-to_memory zero x = refl
length-to_memory (suc n) x = ap suc (length-to_memory n (x / 256))

pub from_memory-to_memory :
    (n x : ℕ) (rest : List ℕ) → x < 256 ^ n → from_memory n (to_memory n x ++ rest) ≡ x
unfolding to_memory from_memory
from_memory-to_memory zero x rest h = omega arith
from_memory-to_memory (suc n) x rest h =
    omega (arith, from_memory-to_memory n (x / 256) rest (omega (arith, pow-suc 256 n)))

pub little_endian_16_lem : (x : ℕ) → little_endian_16 x ≡ x
unfolding little_endian_16 is_big_endian
little_endian_16_lem x = refl

pub little_endian_32_lem : (x : ℕ) → little_endian_32 x ≡ x
unfolding little_endian_32 is_big_endian
little_endian_32_lem x = refl

pub little_endian_64_lem : (x : ℕ) → little_endian_64 x ≡ x
unfolding little_endian_64 is_big_endian
little_endian_64_lem x = refl
