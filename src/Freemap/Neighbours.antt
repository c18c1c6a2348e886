-- ===== src/Freemap/Neighbours.antt =====
-- src/SingleFileStorage.cpp: what `add_freemap_ext` finds around the extent that it adds.
use hs.Prelude.{
  ℕ, ◌+◌, ◌≤◌, ◌<◌, ◌≡◌, inl, inr, sym, ◌∙◌, ◌&&◌, none, some, ltb, leb, ◌==◌, arith, Bool-cases,
  Option-cases,
}
use hs.Freemap.{
  Next, overlaps, meets, no_next, look_next, Prev, contains, ends_at, no_prev, look_prev,
}
use hs.Freemap.Db.{OrderedDb}
use hs.Freemap.Shape.{Extents, Apart, lt_or_le, same_len}

-- An extent that begins at the end of the new one, or none that begins up to there
pub data Beside (f : Extents) (offset end : ℕ) : Next → Type 0 where
  found_next :
      (o l : ℕ)
      → o ≡ end
      → f o ≡ some l
      → ((p k : ℕ) → f p ≡ some k → offset ≤ p → end ≤ p)
      → Beside f offset end (meets o l)
  found_no_next : ((o l : ℕ) → f o ≡ some l → offset ≤ o → end < o) → Beside f offset end no_next

-- What the search behind the offset tells of the map
pub data Behind (f : Extents) (offset end : ℕ) : Next → Type 0 where
  found_overlap : (o l : ℕ) → f o ≡ some l → offset ≤ o → o < end → Behind f offset end overlaps
  found_clear : {n : Next} → Beside f offset end n → Behind f offset end n

-- An extent that ends at the offset, or none that reaches it
pub data Before (f : Extents) (offset : ℕ) : Prev → Type 0 where
  found_prev :
      (o l : ℕ) → f o ≡ some l → o < offset → o + l ≡ offset → Before f offset (ends_at o l)
  found_no_prev : ((o l : ℕ) → f o ≡ some l → o < offset → o + l < offset) → Before f offset no_prev

-- What the search in front of the offset tells
pub data Front (f : Extents) (offset : ℕ) : Prev → Type 0 where
  found_around : (o l : ℕ) → f o ≡ some l → o < offset → offset < o + l → Front f offset contains
  found_free : {p : Prev} → Before f offset p → Front f offset p

module _ (f : Extents) (offset len : ℕ) (hlen : 0 < len) where
  none-Behind : ((j : ℕ) → offset ≤ j → f j ≡ none) → Behind f offset (offset + len) no_next
  none-Behind h = found_clear (found_no_next (λ o l e le. ground (arith, e, h o le)))

  at_least :
      (o : ℕ)
      → ((j : ℕ) → offset ≤ j → j < o → f j ≡ none)
      → (p k : ℕ) → f p ≡ some k
      → offset ≤ p
      → o ≤ p
  at_least o h p k e le = elim (lt_or_le p o) [
    | inl lt ↦ ground (arith, e, h p le lt)
    | inr le' ↦ le'
  ]

  -- No extent begins between the offset and `o`.
  first-Behind :
      (o l : ℕ)
      → f o ≡ some l
      → offset ≤ o
      → ((j : ℕ) → offset ≤ j → j < o → f j ≡ none)
      → Behind f offset (offset + len) (look_next offset len (some (o, l)))
  unfolding look_next
  first-Behind o l e le h = elim (Bool-cases (ltb o (offset + len))) [
    | inl t ↦ rw t (found_overlap o l e le (ground (arith, t)))
    | inr t ↦ elim (Bool-cases (offset + len == o)) [
      | inl u ↦
          rw (t, u)
            (found_clear (
              found_next o l (ground (arith, u)) e
                (λ p k e' le'. let least = at_least o h p k e' le' in ground (arith, t))))
      | inr u ↦
          rw (t, u)
            (found_clear (
              found_no_next
                (λ p k e' le'. let least = at_least o h p k e' le' in ground (arith, t, u))))
    ]
  ]

  none-Front : ((j : ℕ) → j < offset → f j ≡ none) → Front f offset no_prev
  none-Front h = found_free (found_no_prev (λ o l e lt. ground (arith, e, h o lt)))

  last-Front :
      (o l : ℕ)
      → Apart f
      → f o ≡ some l
      → o < offset
      → ((j : ℕ) → o < j → j < offset → f j ≡ none)
      → Front f offset (look_prev offset (some (o, l)))
  unfolding look_prev
  last-Front o l a e le h = elim (Bool-cases (ltb offset (o + l) && leb o offset)) [
    | inl t ↦ rw t (found_around o l e le (ground (arith, t)))
    | inr t ↦ elim (Bool-cases (offset == o + l)) [
      | inl u ↦ rw (t, u) (found_free (found_prev o l e le (ground (arith, u))))
      | inr u ↦
          rw (t, u)
            (found_free (
              found_no_prev (λ p k e' lt. elim (lt_or_le p o) [
                | inl before ↦ let gap = a.apart p k o l e' e before in omega arith
                | inr le' ↦ elim (lt_or_le o p) [
                  | inl between ↦ ground (arith, e', h p between lt)
                  | inr ge ↦
                      let same = same_len f p o k l e' e (omega arith) in ground (arith, t, u)
                ]
              ])))
    ]
  ]

module _ {D : Type 0} (db : OrderedDb D) (offset len : ℕ) (hlen : 0 < len) where
  pub look_next-Behind :
      (d : D)
      → Behind (db.find d) offset (offset + len) (look_next offset len (db.at_or_after d offset))
  unfolding look_next
  look_next-Behind d = elim (Option-cases (db.at_or_after d offset)) [
    | inl e ↦ rw e (none-Behind (db.find d) offset len hlen (db.at_or_after_none d offset e))
    | inr ((o, l), e) ↦
        let (at_o, le, gap) = db.at_or_after_some d offset o l e in
        rw e (first-Behind (db.find d) offset len hlen o l at_o le gap)
  ]

  pub look_prev-Front :
      (d : D) → Apart (db.find d) → Front (db.find d) offset (look_prev offset (db.before d offset))
  unfolding look_prev
  look_prev-Front d a = elim (Option-cases (db.before d offset)) [
    | inl e ↦ rw e (none-Front (db.find d) offset len hlen (db.before_none d offset e))
    | inr ((o, l), e) ↦
        let (at_o, lt, gap) = db.before_some d offset o l e in
        rw e (last-Front (db.find d) offset len hlen o l a at_o lt gap)
  ]

-- Two maps that agree in front of the offset
pub Front-agree :
    (f f' : Extents) (offset : ℕ) (p : Prev)
    → ((j : ℕ) → j < offset → f' j ≡ f j)
    → Front f offset p
    → Front f' offset p
Front-agree f f' offset _ h (found_around o l e lt le) = found_around o l (h o lt ∙ e) lt le
Front-agree f f' offset _ h (found_free (found_prev o l e lt le)) =
    found_free (found_prev o l (h o lt ∙ e) lt le)
Front-agree f f' offset _ h (found_free (found_no_prev g)) =
    found_free (found_no_prev (λ o l e lt. g o l (sym (h o lt) ∙ e) lt))
