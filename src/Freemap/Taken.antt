-- ===== src/Freemap/Taken.antt =====
-- src/SingleFileStorage.cpp: the map of free extents while an extent is merged with the next one.
use native.Mathlib.Numerals.{unary_clauses}
use hs.Prelude.{
  ℕ, ◌+◌, ◌≤◌, ◌<◌, ◌≡◌, ◌≢◌, inl, inr, refl, sym, ap, ◌∙◌, none, some, arith, Option-cases,
}
use hs.Freemap.{Next, overlaps, meets, no_next, next_len}
use hs.Freemap.Shape.{Extents, eq_or_ne, Left, Right, right_alone, right_joined, Merging}
use hs.Freemap.Mirror.{without, with_ext}
use hs.Freemap.Neighbours.{Beside, found_next, found_no_next}

-- The map from which the next extent is taken, if it is to be merged
abbrev pub taken : Next → Extents → Extents
taken overlaps f = f
taken (meets o l) f = without o f
taken no_next f = f

module _ (f : Extents) (offset len : ℕ) (hlen : 0 < len) where
  pub taken-end : (n : Next) → Beside f offset (offset + len) n → taken n f (offset + len) ≡ none
  taken-end _ (found_next o l same e bound) = ground arith
  taken-end _ (found_no_next h) = elim (Option-cases (f (offset + len))) [
    | inl e ↦ e
    | inr (l, e) ↦ let bad = h (offset + len) l e (omega arith) in ground arith
  ]

  pub taken-elsewhere :
      (n : Next) (j : ℕ) → Beside f offset (offset + len) n → j ≢ offset + len → taken n f j ≡ f j
  taken-elsewhere _ j (found_next o l same e bound) n = ground arith
  taken-elsewhere _ j (found_no_next h) n = refl

  Right-next :
      (n : Next)
      → Beside f offset (offset + len) n
      → Right f offset (offset + len) (offset + len + next_len n)
  Right-next _ (found_next o l same e bound) = right_joined l (ap f (sym same) ∙ e) bound
  Right-next _ (found_no_next h) = simp unary_clauses (right_alone h)

  pub with_ext-Merging :
      (n : Next) (lo v : ℕ)
      → Beside f offset (offset + len) n
      → Left f offset lo
      → lo ≤ offset
      → lo + v ≡ offset + len + next_len n
      → Merging f (with_ext lo v (taken n f)) offset len
  with_ext-Merging n lo v b left le whole = record {
    lo = lo;
    hi = offset + len + next_len n;
    size = v;
    left = left;
    right = Right-next n b;
    whole = whole;
    at_lo = ground arith;
    at_end = ground (arith, taken-end n b);
    elsewhere = λ j p q. ground (arith, p, taken-elsewhere n j b q);
  }

  pub taken-sub :
      (n : Next) (j l : ℕ) → Beside f offset (offset + len) n → taken n f j ≡ some l → f j ≡ some l
  taken-sub n j l b e = elim (eq_or_ne j (offset + len)) [
    | inl same ↦ ground (arith, e, same, taken-end n b)
    | inr other ↦ sym (taken-elsewhere n j b other) ∙ e
  ]

  -- The extent in front is not the next one, and the place of the merged extent is free by then.
  pub taken-Before :
      (n : Next) (o l : ℕ)
      → Beside f offset (offset + len) n
      → o < offset
      → taken n (without o f) o ≡ none
  taken-Before _ o l (found_next p k same e bound) lt = ground arith
  taken-Before _ o l (found_no_next h) lt = ground arith

  pub taken-offset : (n : Next) → Beside f offset (offset + len) n → taken n f offset ≡ none
  taken-offset n b = taken-elsewhere n offset b (omega arith) ∙ free_offset n b
    where
      free_offset : (n : Next) → Beside f offset (offset + len) n → f offset ≡ none
      free_offset n b = elim (Option-cases (f offset)) [
        | inl e ↦ e
        | inr (l, e) ↦ absurd_extent n l b e
      ]
        where
          absurd_extent :
              (n : Next) (l : ℕ)
              → Beside f offset (offset + len) n
              → f offset ≡ some l
              → f offset ≡ none
          absurd_extent _ l (found_next o k same e' bound) e =
              let bad = bound offset l e (omega arith) in ground arith
          absurd_extent _ l (found_no_next h) e =
              let bad = h offset l e (omega arith) in ground arith

  -- Both databases hold the same in the end.
  pub taken-same :
      (n : Next) (o v j : ℕ) → with_ext o v (taken n f) j ≡ with_ext o v (taken n (without o f)) j
  taken-same overlaps o v j = ground arith
  taken-same (meets p k) o v j = ground arith
  taken-same no_next o v j = ground arith
