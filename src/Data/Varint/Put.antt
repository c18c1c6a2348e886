-- ===== src/Data/Varint/Put.antt =====
-- What `sqlite3PutVarint` writes, in plain arithmetic, and how much.
use hs.Prelude.{
  ℕ, zero, suc, ◌+◌, ◌*◌, ◌/◌, ◌%◌, ◌^◌, ◌≤◌, ◌<◌, ◌≡◌, refl, ap, ◌∙◌, bit_and, bit_or, List, [],
  ◌∷◌, ◌++◌, reverse, append_assoc, ◌==◌, true, false, ap₂, gt_not_leb, le_leb, arith,
}
use hs.Prelude.Order.{lt_wf}
use hs.Prelude.Bits.{bit_and-split, bit_and-zero, bit_or-add, bit_or_comm}
use hs.Prelude.Bits.Masks.{bit_and-1, bit_and-127}
use hs.Data.Varint.{
  varint_len_loop, varint_len, group_byte, high_groups, low_groups, clear_first, put_varint64,
  put_varint, shift_shrinks,
}
use mathlib.Core.List.{reverse-cons}
use mathlib.Core.Logic.{dif_pos, dif_neg}
use mathlib.Core.WellFounded.{Acc}
use native.Mathlib.Decide.{dec_lt}
use native.Mathlib.Nat.{pow-suc, one-le-pow, pow-le-pow_right, lt_of_lt_of_le}
use native.Mathlib.Bridge.{le_prop}

-- The lowest `k` groups of `v`, the highest first, each with the bit that says that more follow.
unfoldable pub groups : ℕ → ℕ → List ℕ → List ℕ
groups zero v t = t
groups (suc k) v t = groups k (v / 128) ((v % 128 + 128) ∷ t)

-- The encoding in `k + 1` bytes.
unfoldable pub encoding : ℕ → ℕ → List ℕ
unfolding groups
encoding k v = groups k (v / 128) (v % 128 ∷ [])

-- The encoding in nine bytes, whose last byte counts with eight bits.
unfoldable pub encoding_9 : ℕ → List ℕ
unfolding groups
encoding_9 v = groups 8 (v / 256) (v % 256 ∷ [])

or_top : (v : ℕ) → bit_or (bit_and v 0x7f) 0x80 ≡ v % 128 + 128
or_top v =
    bit_or_comm (bit_and v 0x7f) 0x80
    ∙ omega (arith, bit_and-127 v, bit_or-add 7 1 (bit_and v 0x7f) (omega (arith, bit_and-127 v)))

group_byte_lem : (v : ℕ) → group_byte v ≡ v % 128 + 128
group_byte_lem v = omega (arith, or_top v)

high_groups-groups : (k v : ℕ) (t : List ℕ) → high_groups k v t ≡ groups k v t
unfolding high_groups groups
high_groups-groups zero v t = refl
high_groups-groups (suc k) v t =
    high_groups-groups k (v / 128) (group_byte v ∷ t)
    ∙ ap (λ b. groups k (v / 128) (b ∷ t)) (group_byte_lem v)

low_groups_last : (v : ℕ) (w : Acc ◌<◌ v) → ¬ (0 < v / 128) → low_groups v w ≡ (v % 128 + 128) ∷ []
unfolding low_groups
low_groups_last v (Acc.intro _ smaller) h = rw (dif_neg _ h, group_byte_lem v)

low_groups_more :
    (v : ℕ) (w : Acc ◌<◌ v)
    → 0 < v / 128
    → (w' : Acc ◌<◌ (v / 128)) × (low_groups v w ≡ (v % 128 + 128) ∷ low_groups (v / 128) w')
unfolding low_groups
low_groups_more v (Acc.intro _ smaller) h =
    (smaller (v / 128) (shift_shrinks v h), rw (dif_pos _ le_prop h, group_byte_lem v))

-- `v` has exactly `k + 1` groups.
abbrev pub HasGroups : ℕ → ℕ → Type 0
HasGroups zero v = v < 128
HasGroups (suc k) v = (128 ^ suc k ≤ v) × (v < 128 ^ suc (suc k))

HasGroups-pos : (k v : ℕ) → HasGroups (suc k) v → 0 < v / 128
HasGroups-pos k v h = grind (arith, pow-suc 128 k, one-le-pow k 128 (omega arith))

HasGroups-next : (k v : ℕ) → HasGroups (suc k) v → HasGroups k (v / 128)
HasGroups-next zero v h = omega arith
HasGroups-next (suc k) v (lo, hi) = omega (arith, pow-suc 128 (suc k), pow-suc 128 (suc (suc k)))

-- `buf` read backwards is the groups, the highest first.
low_groups-groups :
    (k v : ℕ) (w : Acc ◌<◌ v) (t : List ℕ)
    → HasGroups k v
    → reverse (low_groups v w) ++ t ≡ groups (suc k) v t
unfolding groups
low_groups-groups zero v w t h = rw (low_groups_last v w (omega arith))
low_groups-groups (suc k) v w t h =
    let (w', e) = low_groups_more v w (HasGroups-pos k v h) in
    rw (e, reverse-cons, append_assoc) (low_groups-groups k (v / 128) w' _ (HasGroups-next k v h))

cleared : (v : ℕ) → bit_and (v % 128 + 128) 0x7f ≡ v % 128
cleared v = omega (arith, bit_and-127 (v % 128 + 128))

-- `putVarint64` below 2 ^ 56.
small_form :
    (k v : ℕ) (w : Acc ◌<◌ v)
    → HasGroups k v
    → reverse (clear_first (low_groups v w)) ≡ encoding k v
unfolding encoding groups
small_form zero v w h = rw (low_groups_last v w (omega arith), cleared v)
small_form (suc k) v w h =
    let (w', e) = low_groups_more v w (HasGroups-pos k v h) in
    rw (e, clear_first, cleared v, reverse-cons)
      (low_groups-groups k (v / 128) w' _ (HasGroups-next k v h))

high_bits : (x : ℕ) → x < 256 → bit_and x 0xff ≡ x
high_bits x h = omega (
  arith,
  ap₂ bit_and (halves x) twofold,
  bit_and-split 7 (x / 2 ^ 7) 1 (x % 2 ^ 7) 127 (omega arith) (omega arith),
  bit_and-127 (x % 2 ^ 7),
  bit_and-1 (x / 2 ^ 7),
)
  where
    halves : (x : ℕ) → x ≡ x / 2 ^ 7 * 2 ^ 7 + x % 2 ^ 7
    halves x = omega arith

    twofold : 0xff ≡ 1 * 2 ^ 7 + 127
    twofold = omega arith

-- The test for the nine-byte form sees the top byte.
top_byte : (v : ℕ) → v < 2 ^ 64 → bit_and v (0xff000000 * 2 ^ 32) ≡ v / 2 ^ 56 * 2 ^ 56
top_byte v h = omega (
  arith,
  ap (λ t. bit_and t (0xff000000 * 2 ^ 32)) (parts v),
  bit_and-split 56 (v / 2 ^ 56) 0xff (v % 2 ^ 56) 0 (omega arith) (omega arith),
  high_bits (v / 2 ^ 56) (omega arith),
  bit_and-zero (v % 2 ^ 56),
)
  where
    parts : (v : ℕ) → v ≡ v / 2 ^ 56 * 2 ^ 56 + v % 2 ^ 56
    parts v = omega arith

HasGroups-bounds : (k v : ℕ) → k < 8 → HasGroups k v → v < 2 ^ 56
HasGroups-bounds zero v hk h = omega arith
HasGroups-bounds (suc k) v hk (lo, hi) =
    lt_of_lt_of_le hi (pow-le-pow_right {n = 128} (omega arith) {i = suc (suc k)} {j = 8} hk)

at_least_two : (k v : ℕ) → HasGroups (suc (suc k)) v → 0x3fff < v
at_least_two k v (lo, hi) =
    lt_of_lt_of_le
      (pow-le-pow_right {n = 128} (omega arith) {i = 2} {j = suc (suc k)} (omega arith)) lo

pub put_varint-encoding : (k v : ℕ) → k < 8 → HasGroups k v → put_varint v ≡ encoding k v
unfolding put_varint put_varint64
put_varint-encoding zero v hk h =
    unfold encoding groups in rw (le_leb v 0x7f (omega arith)) (ap (λ b. b ∷ []) (bit_and-127 v))
put_varint-encoding (suc zero) v hk h =
    unfold encoding groups in
    rw (gt_not_leb v 0x7f (omega arith), le_leb v 0x3fff (omega arith), or_top (v / 2 ^ 7))
      (ap₂ (λ a b. a ∷ b ∷ []) (omega arith) (bit_and-127 v))
put_varint-encoding (suc (suc k)) v hk h =
    let big = at_least_two k v h in
    rw (gt_not_leb v 0x7f (omega arith), gt_not_leb v 0x3fff big, small)
      (small_form (suc (suc k)) v _ h)
  where
    below : v < 2 ^ 56
    below = HasGroups-bounds (suc (suc k)) v hk h

    small : (bit_and v (0xff000000 * 2 ^ 32) == 0) ≡ true
    small = ground (arith, below, top_byte v (omega (arith, below)))

pub put_varint-encoding_9 : (v : ℕ) → 2 ^ 56 ≤ v → v < 2 ^ 64 → put_varint v ≡ encoding_9 v
unfolding put_varint put_varint64 encoding_9
put_varint-encoding_9 v lo hi =
    rw (gt_not_leb v 0x7f (omega arith), gt_not_leb v 0x3fff (omega arith), large)
      (high_groups-groups 8 (v / 2 ^ 8) (v % 256 ∷ []))
  where
    large : (bit_and v (0xff000000 * 2 ^ 32) == 0) ≡ false
    large = ground (arith, top_byte v hi)

varint_len_loop_last : (i v : ℕ) (w : Acc ◌<◌ v) → ¬ (0 < v / 128) → varint_len_loop i v w ≡ i
unfolding varint_len_loop
varint_len_loop_last i v (Acc.intro _ smaller) h = rw (dif_neg _ h)

varint_len_loop_more :
    (i v : ℕ) (w : Acc ◌<◌ v)
    → 0 < v / 128
    → (w' : Acc ◌<◌ (v / 128)) × (varint_len_loop i v w ≡ varint_len_loop (i + 1) (v / 128) w')
unfolding varint_len_loop
varint_len_loop_more i v (Acc.intro _ smaller) h =
    (smaller (v / 128) (shift_shrinks v h), rw (dif_pos _ le_prop h))

varint_len_loop_lem : (k i v : ℕ) (w : Acc ◌<◌ v) → HasGroups k v → varint_len_loop i v w ≡ i + k
varint_len_loop_lem zero i v w h = varint_len_loop_last i v w (omega arith) ∙ omega arith
varint_len_loop_lem (suc k) i v w h =
    let (w', e) = varint_len_loop_more i v w (HasGroups-pos k v h) in
    e ∙ varint_len_loop_lem k (i + 1) (v / 128) w' (HasGroups-next k v h) ∙ omega arith

pub varint_len_small : (k v : ℕ) → k < 8 → HasGroups k v → varint_len v ≡ suc k
unfolding varint_len
varint_len_small k v hk h = ground (arith, varint_len_loop_lem k 1 v (lt_wf.apply v) h)

pub varint_len_large : (v : ℕ) → 2 ^ 56 ≤ v → v < 2 ^ 64 → varint_len v ≡ 9
unfolding varint_len
varint_len_large v lo hi = elim (dec_lt v (2 ^ 63)) [
  | yes h ↦ ground (arith, varint_len_loop_lem 8 1 v (lt_wf.apply v) (lo, h))
  | no h ↦ ground (arith, varint_len_loop_lem 9 1 v (lt_wf.apply v) (omega arith, omega arith))
]

-- Every 64-bit number has one to eight groups of seven bits, or takes the nine-byte form.
pub data Shape (v : ℕ) : Type 0 where
  small : (k : ℕ) → k < 8 → HasGroups k v → Shape v
  large : 2 ^ 56 ≤ v → Shape v

Shape-from : (k v : ℕ) → k < 8 → v < 128 ^ suc k → Shape v
Shape-from zero v hk h = small 0 (omega arith) (omega arith)
Shape-from (suc k) v hk h = elim (dec_lt v (128 ^ suc k)) [
  | yes lower ↦ Shape-from k v (omega arith) lower
  | no higher ↦ small (suc k) hk (omega arith, h)
]

pub shape : (v : ℕ) → Shape v
shape v = elim (dec_lt v (2 ^ 56)) [
  | yes h ↦ Shape-from 7 v (omega arith) h
  | no h ↦ large (omega arith)
]
