-- ===== src/Data/Varint.antt =====
-- src/data.cpp: the variable-length integers taken from SQLite. A `u64` is a number below 2 ^ 64 and
-- a `u32` one below 2 ^ 32; a left shift wraps. The bytes that a writer stores from `p[0]` on are the
-- list that it returns, and the number of bytes that the C function returns is its length.
pub mod Get
pub mod Put
pub mod RoundTrip
pub mod Bounds
use hs.Prelude.{
  ℕ, zero, suc, ◌+◌, ◌*◌, ◌/◌, ◌%◌, ◌^◌, ◌<◌, bit_and, bit_or, Bool, List, [], ◌∷◌, reverse, get_or,
  leb, ◌==◌, if◌then◌else◌, arith,
}
use hs.Prelude.Order.{lt_wf}
use mathlib.Core.Logic.{dite}
use mathlib.Core.WellFounded.{Acc}
use native.Mathlib.Decide.{dec_lt}

pub shift_shrinks : (v : ℕ) → 0 < v / 128 → v / 128 < v
shift_shrinks v h = omega arith

-- `for (i = 1; (v >>= 7) != 0; i++)`
unfoldable pub varint_len_loop : (i v : ℕ) → Acc ◌<◌ v → ℕ
varint_len_loop i v (Acc.intro _ smaller) =
    dite (dec_lt 0 (v / 128))
      (λ more. varint_len_loop (i + 1) (v / 128) (smaller _ (shift_shrinks v more))) (λ _. i)

-- `sqlite3VarintLen`
unfoldable pub varint_len : ℕ → ℕ
varint_len v = let i = varint_len_loop 1 v (lt_wf.apply v) in if i == 10 then 9 else i

-- `(u8)((v & 0x7f) | 0x80)`
abbrev pub group_byte : ℕ → ℕ
group_byte v = bit_or (bit_and v 0x7f) 0x80 % 256

-- The loop of the nine-byte form, `i` rounds from `p[i - 1]` down to `p[0]`, before the bytes `p`.
unfoldable pub high_groups : ℕ → ℕ → List ℕ → List ℕ
high_groups zero v p = p
high_groups (suc i) v p = high_groups i (v / 128) (group_byte v ∷ p)

-- The `do … while (v != 0)` loop, which fills `buf` with the lowest group first.
unfoldable pub low_groups : (v : ℕ) → Acc ◌<◌ v → List ℕ
low_groups v (Acc.intro _ smaller) =
    group_byte v
    ∷ dite (dec_lt 0 (v / 128)) (λ more. low_groups (v / 128) (smaller _ (shift_shrinks v more)))
        (λ _. [])

-- `buf[0] &= 0x7f`
abbrev pub clear_first : List ℕ → List ℕ
clear_first [] = []
clear_first (g ∷ gs) = bit_and g 0x7f ∷ gs

-- `putVarint64`; the last loop copies `buf` backwards.
unfoldable pub put_varint64 : ℕ → List ℕ
put_varint64 v =
    if bit_and v (0xff000000 * 2 ^ 32) == 0
    then reverse (clear_first (low_groups v (lt_wf.apply v)))
    else high_groups 8 (v / 2 ^ 8) (v % 256 ∷ [])

-- `sqlite3PutVarint`
unfoldable pub put_varint : ℕ → List ℕ
put_varint v =
    if leb v 0x7f
    then bit_and v 0x7f ∷ []
    else if leb v 0x3fff
    then bit_or (bit_and (v / 2 ^ 7) 0x7f) 0x80 ∷ bit_and v 0x7f ∷ []
    else put_varint64 v

-- `x << k` on a `u32`.
abbrev pub shl32 : ℕ → ℕ → ℕ
shl32 x k = x * 2 ^ k % 2 ^ 32

-- `((u64)s) << 32 | a`
abbrev pub words : ℕ → ℕ → ℕ
words s a = bit_or (s * 2 ^ 32 % 2 ^ 64) a

abbrev pub slot_2_0 : ℕ
slot_2_0 = 0x001fc07f

abbrev pub slot_4_2_0 : ℕ
slot_4_2_0 = 0xf01fc07f

-- `!(x & 0x80)`: the byte read last ends the number.
abbrev pub is_last : ℕ → Bool
is_last x = bit_and x 0x80 == 0

-- `sqlite3GetVarint` from the byte `p[k]` on is `get_k`; the words `a`, `b` and `s` are those of the
-- source there. The result is the number of bytes read and the value of `*v` afterwards, which is
-- the old one, `v`, when no number is read.
module _ (p : List ℕ) (v max_length : ℕ) where
  unfoldable pub get_8 : ℕ → ℕ → ℕ → ℕ × ℕ
  get_8 a b s =
      let a1 = bit_or (shl32 a 15) (get_or p 8 0) in
      let b1 = shl32 (bit_and b slot_2_0) 8 in
      let a2 = bit_or a1 b1 in
      let s1 = bit_or (shl32 s 4) (bit_and (get_or p 4 0) 0x7f / 2 ^ 3) in (9, words s1 a2)

  unfoldable pub get_7 : ℕ → ℕ → ℕ → ℕ × ℕ
  get_7 a b s =
      let b1 = bit_or (shl32 b 14) (get_or p 7 0) in
      if is_last b1
      then (8, words (s / 2 ^ 4) (bit_or (shl32 a 7) (bit_and b1 slot_4_2_0)))
      else if leb max_length 8
      then (0, v)
      else get_8 a b1 s

  unfoldable pub get_6 : ℕ → ℕ → ℕ → ℕ × ℕ
  get_6 a b s =
      let a1 = bit_or (shl32 a 14) (get_or p 6 0) in
      if is_last a1
      then (7, words (s / 2 ^ 11) (bit_or (bit_and a1 slot_4_2_0) (shl32 (bit_and b slot_2_0) 7)))
      else if leb max_length 7
      then (0, v)
      else get_7 (bit_and a1 slot_2_0) b s

  unfoldable pub get_5 : ℕ → ℕ → ℕ → ℕ × ℕ
  get_5 a b s =
      let b1 = bit_or (shl32 b 14) (get_or p 5 0) in
      if is_last b1
      then (6, words (s / 2 ^ 18) (bit_or (shl32 (bit_and a slot_2_0) 7) b1))
      else if leb max_length 6
      then (0, v)
      else get_6 a b1 s

  unfoldable pub get_4 : ℕ → ℕ → ℕ → ℕ × ℕ
  get_4 a b s =
      let a1 = bit_or (shl32 a 14) (get_or p 4 0) in
      if is_last a1
      then (5, words (s / 2 ^ 18) (bit_or a1 (shl32 b 7)))
      else if leb max_length 5
      then (0, v)
      else get_5 a1 b (bit_or (shl32 s 7) b)

  unfoldable pub get_3 : ℕ → ℕ → ℕ × ℕ
  get_3 a b =
      let b1 = bit_or (shl32 b 14) (get_or p 3 0) in
      if is_last b1
      then (4, bit_or (shl32 a 7) (bit_and b1 slot_2_0))
      else if leb max_length 4
      then (0, v)
      else get_4 a (bit_and b1 slot_2_0) a

  unfoldable pub get_2 : ℕ → ℕ → ℕ × ℕ
  get_2 a b =
      let a1 = bit_or (shl32 a 14) (get_or p 2 0) in
      if is_last a1
      then (3, bit_or (bit_and a1 slot_2_0) (shl32 (bit_and b 0x7f) 7))
      else if leb max_length 3
      then (0, v)
      else get_3 (bit_and a1 slot_2_0) b

  unfoldable pub get_1 : ℕ → ℕ × ℕ
  get_1 a =
      let b = get_or p 1 0 in
      if is_last b
      then (2, bit_or (shl32 (bit_and a 0x7f) 7) b)
      else if leb max_length 2
      then (0, v)
      else get_2 a b

  -- `sqlite3GetVarint`
  unfoldable pub get_varint : ℕ × ℕ
  get_varint =
      let a = get_or p 0 0 in
      if max_length == 0
      then (0, v)
      else if is_last a
      then (1, a)
      else if leb max_length 1
      then (0, v)
      else get_1 a
