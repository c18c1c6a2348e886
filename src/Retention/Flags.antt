-- ===== src/Retention/Flags.antt =====
-- The three flags of a lock as digits, and what setting `lockinfo_flag_retain_until` does to them.
use hs.Prelude.{ℕ, ◌+◌, ◌*◌, ◌/◌, ◌%◌, ◌<◌, ◌≡◌, true, not, ◌==◌, arith, bit_and, bit_or}
use hs.Prelude.Bits.{bit_and_step, bit_or_step, bit_or-zero}
use hs.Prelude.Bits.Masks.{bit_and-1}
use hs.Metadata.Object.{has_flag}

bit_and-2 : (x : ℕ) → bit_and x 2 ≡ x / 2 % 2 * 2
bit_and-2 x = omega (arith, bit_and_step x 2, bit_and-1 (x / 2))

bit_or-2 : (x : ℕ) → bit_or x 2 ≡ x / 4 * 4 + 2 + x % 2
bit_or-2 x = omega (arith, bit_or_step x 2, bit_or_step (x / 2) 1, bit_or-zero (x / 2 / 2))

pub has_flag-set : (f : ℕ) → has_flag (bit_or f 2) 2 ≡ true
has_flag-set f = rw (bit_and-2 (bit_or f 2), bit_or-2 f) (digit (f / 4) (f % 2) (omega arith))
  where
    digit : (q r : ℕ) → r < 2 → not ((q * 4 + 2 + r) / 2 % 2 * 2 == 0) ≡ true
    digit q r h = ground arith
