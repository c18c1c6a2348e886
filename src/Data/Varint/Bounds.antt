-- ===== src/Data/Varint/Bounds.antt =====
-- What `sqlite3GetVarint` may look at and report, on any input, well formed or not.
use hs.Prelude.{
  ℕ, ◌≤◌, ◌<◌, ◌≡◌, Bool, true, false, List, get_or, leb, ◌==◌, le_leb, gt_not_leb, if◌then◌else◌,
  arith,
}
use hs.Data.Varint.{get_1, get_2, get_3, get_4, get_5, get_6, get_7, get_8, get_varint}
use native.Mathlib.Decide.{dec_lt}

-- The test of the length, and what stands behind it.
zero_test : {m : ℕ} → m ≤ 0 → (m == 0) ≡ true
zero_test h = ground arith

nonzero_test : {m : ℕ} → 0 < m → (m == 0) ≡ false
nonzero_test h = ground arith

count_behind_test :
    (m k c z v : ℕ) (t : Bool) (x : ℕ × ℕ)
    → c ≤ m
    → (k < m → x.0 ≤ m)
    → (if t then (c, z) else if leb m k then (0, v) else x).0 ≤ m
count_behind_test m k c z v true x h e = h
count_behind_test m k c z v false x h e = elim (dec_lt k m) [
  | yes more ↦ rw (gt_not_leb m k more) (e more)
  | no less ↦ rw (le_leb m k (omega arith)) (omega arith)
]

module _ (p q : List ℕ) (v m : ℕ) (agree : (i : ℕ) → i < m → get_or p i 0 ≡ get_or q i 0) where
  get_8-local : (a b s : ℕ) → 8 < m → get_8 p v m a b s ≡ get_8 q v m a b s
  unfolding get_8
  get_8-local a b s h = rw (agree 4 (omega arith), agree 8 h)

  get_7-local : (a b s : ℕ) → 7 < m → get_7 p v m a b s ≡ get_7 q v m a b s
  unfolding get_7
  get_7-local a b s h = elim (dec_lt 8 m) [
    | yes more ↦ rw (agree 7 h, get_8-local, more)
    | no less ↦ rw (agree 7 h, le_leb m 8 (omega arith))
  ]

  get_6-local : (a b s : ℕ) → 6 < m → get_6 p v m a b s ≡ get_6 q v m a b s
  unfolding get_6
  get_6-local a b s h = elim (dec_lt 7 m) [
    | yes more ↦ rw (agree 6 h, get_7-local, more)
    | no less ↦ rw (agree 6 h, le_leb m 7 (omega arith))
  ]

  get_5-local : (a b s : ℕ) → 5 < m → get_5 p v m a b s ≡ get_5 q v m a b s
  unfolding get_5
  get_5-local a b s h = elim (dec_lt 6 m) [
    | yes more ↦ rw (agree 5 h, get_6-local, more)
    | no less ↦ rw (agree 5 h, le_leb m 6 (omega arith))
  ]

  get_4-local : (a b s : ℕ) → 4 < m → get_4 p v m a b s ≡ get_4 q v m a b s
  unfolding get_4
  get_4-local a b s h = elim (dec_lt 5 m) [
    | yes more ↦ rw (agree 4 h, get_5-local, more)
    | no less ↦ rw (agree 4 h, le_leb m 5 (omega arith))
  ]

  get_3-local : (a b : ℕ) → 3 < m → get_3 p v m a b ≡ get_3 q v m a b
  unfolding get_3
  get_3-local a b h = elim (dec_lt 4 m) [
    | yes more ↦ rw (agree 3 h, get_4-local, more)
    | no less ↦ rw (agree 3 h, le_leb m 4 (omega arith))
  ]

  get_2-local : (a b : ℕ) → 2 < m → get_2 p v m a b ≡ get_2 q v m a b
  unfolding get_2
  get_2-local a b h = elim (dec_lt 3 m) [
    | yes more ↦ rw (agree 2 h, get_3-local, more)
    | no less ↦ rw (agree 2 h, le_leb m 3 (omega arith))
  ]

  get_1-local : (a : ℕ) → 1 < m → get_1 p v m a ≡ get_1 q v m a
  unfolding get_1
  get_1-local a h = elim (dec_lt 2 m) [
    | yes more ↦ rw (agree 1 h, get_2-local, more)
    | no less ↦ rw (agree 1 h, le_leb m 2 (omega arith))
  ]

  -- `sqlite3GetVarint` looks at no byte at or behind `max_length`: buffers that agree on the bytes
  -- before it give the same count and the same value.
  pub get_varint-local : get_varint p v m ≡ get_varint q v m
  unfolding get_varint
  get_varint-local = elim (dec_lt 1 m) [
    | yes more ↦ rw (agree 0 (omega arith), get_1-local, more)
    | no less ↦ few (omega arith)
  ]
    where
      few : m ≤ 1 → get_varint p v m ≡ get_varint q v m
      few h = elim (dec_lt 0 m) [
        | yes one ↦ rw (agree 0 one, le_leb m 1 h)
        | no none ↦ rw (zero_test {m = m} (omega arith))
      ]

module _ (p : List ℕ) (v m : ℕ) where
  get_8-count : (a b s : ℕ) → 8 < m → (get_8 p v m a b s).0 ≤ m
  unfolding get_8
  get_8-count a b s h = h

  get_7-count : (a b s : ℕ) → 7 < m → (get_7 p v m a b s).0 ≤ m
  unfolding get_7
  get_7-count a b s h = count_behind_test m 8 8 _ v _ _ h (get_8-count _ _ _)

  get_6-count : (a b s : ℕ) → 6 < m → (get_6 p v m a b s).0 ≤ m
  unfolding get_6
  get_6-count a b s h = count_behind_test m 7 7 _ v _ _ h (get_7-count _ _ _)

  get_5-count : (a b s : ℕ) → 5 < m → (get_5 p v m a b s).0 ≤ m
  unfolding get_5
  get_5-count a b s h = count_behind_test m 6 6 _ v _ _ h (get_6-count _ _ _)

  get_4-count : (a b s : ℕ) → 4 < m → (get_4 p v m a b s).0 ≤ m
  unfolding get_4
  get_4-count a b s h = count_behind_test m 5 5 _ v _ _ h (get_5-count _ _ _)

  get_3-count : (a b : ℕ) → 3 < m → (get_3 p v m a b).0 ≤ m
  unfolding get_3
  get_3-count a b h = count_behind_test m 4 4 _ v _ _ h (get_4-count _ _ _)

  get_2-count : (a b : ℕ) → 2 < m → (get_2 p v m a b).0 ≤ m
  unfolding get_2
  get_2-count a b h = count_behind_test m 3 3 _ v _ _ h (get_3-count _ _)

  get_1-count : (a : ℕ) → 1 < m → (get_1 p v m a).0 ≤ m
  unfolding get_1
  get_1-count a h = count_behind_test m 2 2 _ v _ _ h (get_2-count _ _)

  -- It never reports more bytes than there are.
  pub get_varint-count : (get_varint p v m).0 ≤ m
  unfolding get_varint
  get_varint-count = elim (dec_lt 0 m) [
    | yes h ↦ rw (nonzero_test h) (count_behind_test m 1 1 _ v _ _ h (get_1-count _))
    | no h ↦ rw (zero_test {m = m} (omega arith)) (omega arith)
  ]
