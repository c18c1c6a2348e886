-- ===== src/Data/Memory.antt =====
-- src/data.cpp: integers as the machine stores them, and the byte order conversions. The program is
-- built for x86-64 and arm64, which store the lowest byte first; `is_big_endian` finds that out the
-- way the source does. Values of every signed type and of `float` and `double` are bit patterns.
pub mod Swap
use hs.Prelude.{
  ℕ, zero, suc, ◌+◌, ◌*◌, ◌/◌, ◌%◌, ◌^◌, bit_and, bit_or, Bool, List, [], ◌∷◌, get_or, ◌==◌,
  if◌then◌else◌,
}

-- The `n` bytes of an object that holds the bit pattern `x`.
unfoldable pub to_memory : ℕ → ℕ → List ℕ
to_memory zero x = []
to_memory (suc n) x = x % 256 ∷ to_memory n (x / 256)

-- The bit pattern that `memcpy` of `n` bytes makes.
unfoldable pub from_memory : ℕ → List ℕ → ℕ
from_memory zero bs = 0
from_memory (suc n) [] = 0
from_memory (suc n) (b ∷ bs) = b + 256 * from_memory n bs

-- The first byte of the union's `i`.
unfoldable pub is_big_endian : Bool
unfolding to_memory
is_big_endian = get_or (to_memory 4 0x01020304) 0 0 == 1

-- `endian_swap` of an `unsigned short`, an `unsigned int` and a `uint64_t`.
unfoldable pub endian_swap_16 : ℕ → ℕ
endian_swap_16 x = bit_or (x / 2 ^ 8) (x * 2 ^ 8) % 2 ^ 16

unfoldable pub endian_swap_32 : ℕ → ℕ
endian_swap_32 x =
    bit_or
      (bit_or (bit_or (x / 2 ^ 24) (bit_and (x * 2 ^ 8 % 2 ^ 32) 0x00FF0000))
        (bit_and (x / 2 ^ 8) 0x0000FF00))
      (x * 2 ^ 24 % 2 ^ 32)

unfoldable pub endian_swap_64 : ℕ → ℕ
endian_swap_64 x =
    bit_or
      (bit_or
        (bit_or
          (bit_or
            (bit_or
              (bit_or (bit_or (x / 2 ^ 56) (bit_and (x * 2 ^ 40 % 2 ^ 64) 0x00FF000000000000))
                (bit_and (x * 2 ^ 24 % 2 ^ 64) 0x0000FF0000000000))
              (bit_and (x * 2 ^ 8 % 2 ^ 64) 0x000000FF00000000))
            (bit_and (x / 2 ^ 8) 0x00000000FF000000))
          (bit_and (x / 2 ^ 24) 0x0000000000FF0000))
        (bit_and (x / 2 ^ 40) 0x000000000000FF00))
      (x * 2 ^ 56 % 2 ^ 64)

-- `little_endian` of the types of 2, 4 and 8 bytes.
unfoldable pub little_endian_16 : ℕ → ℕ
little_endian_16 x = if is_big_endian then endian_swap_16 x else x

unfoldable pub little_endian_32 : ℕ → ℕ
little_endian_32 x = if is_big_endian then endian_swap_32 x else x

unfoldable pub little_endian_64 : ℕ → ℕ
little_endian_64 x = if is_big_endian then endian_swap_64 x else x
