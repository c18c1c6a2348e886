-- ===== src/Freemap/Shape.antt =====
-- src/SingleFileStorage.cpp: the map of free extents as a function from offsets to lengths, and
-- what becomes of it when an extent is added and merged with its neighbours.
use mathlib.Core.Option.{some-injective}
use hs.Prelude.{
  ℕ, ◌+◌, ◌≤◌, ◌<◌, ◌≡◌, ◌≢◌, ◌↔◌, ◌⊎◌, inl, inr, sym, ap, ◌∙◌, Option, none, some, arith,
}

abbrev pub Extents : Type 0
Extents = ℕ → Option ℕ

-- Extents are not empty, and between two of them lies a byte that is not free.
pub record Apart (f : Extents) : Type 0 where
  pub positive : (o l : ℕ) → f o ≡ some l → 0 < l
  pub apart : (o l o' l' : ℕ) → f o ≡ some l → f o' ≡ some l' → o < o' → o + l < o'

-- The byte `x` is in an extent.
abbrev pub IsFree : Extents → ℕ → Type 0
IsFree f x = (o : ℕ) × (l : ℕ) × (f o ≡ some l) × (o ≤ x) × (x < o + l)

-- What lies in front of the offset: an extent that ends there, or none that reaches it. The last
-- argument is where the merged extent begins.
pub data Left (f : Extents) (offset : ℕ) : ℕ → Type 0 where
  left_alone : ((o l : ℕ) → f o ≡ some l → o < offset → o + l < offset) → Left f offset offset
  left_joined : (o l : ℕ) → f o ≡ some l → o + l ≡ offset → Left f offset o

-- What lies behind: an extent that begins at the end of the new one, or none up to there. The last
-- argument is where the merged extent ends.
pub data Right (f : Extents) (offset end : ℕ) : ℕ → Type 0 where
  right_alone : ((o l : ℕ) → f o ≡ some l → offset ≤ o → end < o) → Right f offset end end
  right_joined :
      (l : ℕ)
      → f end ≡ some l
      → ((o l' : ℕ) → f o ≡ some l' → offset ≤ o → end ≤ o)
      → Right f offset end (end + l)

pub lt_or_le : (a b : ℕ) → (a < b) ⊎ (b ≤ a)
lt_or_le a b = ground arith

pub eq_or_ne : (a b : ℕ) → (a ≡ b) ⊎ (a ≢ b)
eq_or_ne a b = ground arith

pub same_len : (f : Extents) (o o' l l' : ℕ) → f o ≡ some l → f o' ≡ some l' → o ≡ o' → l ≡ l'
same_len f o o' l l' e e' same = some-injective _ _ (sym e ∙ ap f same ∙ e')

lo_le : (f : Extents) (offset lo : ℕ) → Left f offset lo → lo ≤ offset
lo_le f offset _ (left_alone h) = omega arith
lo_le f offset _ (left_joined o l e h) = omega arith

end_le : (f : Extents) (offset end hi : ℕ) → Right f offset end hi → end ≤ hi
end_le f offset end _ (right_alone h) = omega arith
end_le f offset end _ (right_joined l e h) = omega arith

-- An extent of the map that begins in front of the offset, and one that does not
side-Left :
    (f : Extents) (offset lo o l : ℕ)
    → Apart f
    → Left f offset lo
    → f o ≡ some l
    → o < offset
    → ((o ≡ lo) × (o + l ≡ offset)) ⊎ (o + l < lo)
side-Left f offset _ o l a (left_alone h) e lt = inr (h o l e lt)
side-Left f offset _ o l a (left_joined p k e' h) e lt = elim (lt_or_le o p) [
  | inl before ↦ inr (a.apart o l p k e e' before)
  | inr le ↦ elim (lt_or_le p o) [
    | inl behind ↦ let bad = a.apart p k o l e' e behind in omega arith
    | inr ge ↦ let same = same_len f o p l k e e' (omega arith) in inl (omega arith, omega arith)
  ]
]

side-Right :
    (f : Extents) (offset end hi o l : ℕ)
    → Apart f
    → Right f offset end hi
    → f o ≡ some l
    → offset ≤ o
    → ((o ≡ end) × (o + l ≡ hi)) ⊎ (hi < o)
side-Right f offset end _ o l a (right_alone h) e le = inr (h o l e le)
side-Right f offset end _ o l a (right_joined k e' h) e le =
    let bound = h o l e le in
    elim (lt_or_le end o) [
      | inl behind ↦ inr (a.apart end k o l e' e behind)
      | inr ge ↦
          let same = same_len f o end l k e e' (omega arith) in inl (omega arith, omega arith)
    ]

-- The bytes that a neighbour brings to the merged extent were free.
IsFree-Left : (f : Extents) (offset lo x : ℕ) → Left f offset lo → lo ≤ x → x < offset → IsFree f x
IsFree-Left f offset _ x (left_alone h) le lt = ground arith
IsFree-Left f offset _ x (left_joined o l e h) le lt = (o, l, e, le, omega arith)

IsFree-Right :
    (f : Extents) (offset end hi x : ℕ) → Right f offset end hi → end ≤ x → x < hi → IsFree f x
IsFree-Right f offset end _ x (right_alone h) le lt = ground arith
IsFree-Right f offset end _ x (right_joined l e h) le lt = (end, l, e, le, lt)

module _ (f f' : Extents) (offset len lo hi v : ℕ) (old : Apart f) (hlen : 0 < len)
    (left : Left f offset lo) (right : Right f offset (offset + len) hi) (hv : lo + v ≡ hi)
    (at_lo : f' lo ≡ some v) (at_end : f' (offset + len) ≡ none)
    (elsewhere : (j : ℕ) → j ≢ lo → j ≢ offset + len → f' j ≡ f j) where
  -- Where an extent of the old map lies
  data Place (o l : ℕ) : Type 0 where
    is_left : o ≡ lo → o + l ≡ offset → Place o l
    is_right : o ≡ offset + len → o + l ≡ hi → Place o l
    lower : o + l < lo → Place o l
    higher : hi < o → Place o l

  place : (o l : ℕ) → f o ≡ some l → Place o l
  place o l e = elim (lt_or_le o offset) [
    | inl lt ↦ elim (side-Left f offset lo o l old left e lt) [
      | inl (p, q) ↦ is_left p q
      | inr p ↦ lower p
    ]
    | inr le ↦ elim (side-Right f offset (offset + len) hi o l old right e le) [
      | inl (p, q) ↦ is_right p q
      | inr p ↦ higher p
    ]
  ]

  -- An extent of the new map is the merged one, or an old one apart from it.
  data Origin (o l : ℕ) : Type 0 where
    merged : o ≡ lo → l ≡ v → Origin o l
    kept : f o ≡ some l → (o + l < lo) ⊎ (hi < o) → Origin o l

  origin : (o l : ℕ) → f' o ≡ some l → Origin o l
  origin o l e = elim (eq_or_ne o lo) [
    | inl same ↦ merged same (same_len f' o lo l v e at_lo same)
    | inr other ↦ elim (eq_or_ne o (offset + len)) [
      | inl same ↦ absurd-none (sym at_end ∙ ap f' (sym same) ∙ e)
      | inr other' ↦ old_one (sym (elsewhere o other other') ∙ e)
    ]
  ]
    where
      absurd-none : none ≡ some l → Origin o l
      absurd-none bad = ground (arith, bad)

      old_one : f o ≡ some l → Origin o l
      old_one e' = elim (place o l e') [
        | is_left p q ↦ ground arith
        | is_right p q ↦ ground arith
        | lower p ↦ kept e' (inl p)
        | higher p ↦ kept e' (inr p)
      ]

  begin_le : lo ≤ offset
  begin_le = lo_le f offset lo left

  le_finish : offset + len ≤ hi
  le_finish = end_le f offset (offset + len) hi right

  Apart-merged : Apart f'
  Apart-merged = record { positive = positive; apart = apart }
    where
      positive : (o l : ℕ) → f' o ≡ some l → 0 < l
      positive o l e = elim (origin o l e) [
        | merged p q ↦ omega (arith, begin_le, le_finish)
        | kept e' p ↦ old.positive o l e'
      ]

      apart : (o l o' l' : ℕ) → f' o ≡ some l → f' o' ≡ some l' → o < o' → o + l < o'
      apart o l o' l' e e' lt = elim (origin o l e) [
        | merged p q ↦ elim (origin o' l' e') [
          | merged p' q' ↦ omega arith
          | kept k r ↦ ground (arith, begin_le, le_finish)
        ]
        | kept k r ↦ elim (origin o' l' e') [
          | merged p' q' ↦ ground (arith, begin_le, le_finish)
          | kept k' r' ↦ old.apart o l o' l' k k' lt
        ]
      ]

  IsFree-merged : (x : ℕ) → IsFree f' x ↔ (IsFree f x ⊎ ((offset ≤ x) × (x < offset + len)))
  IsFree-merged x = (forth, back)
    where
      forth : IsFree f' x → IsFree f x ⊎ ((offset ≤ x) × (x < offset + len))
      forth (o, l, e, p, q) = elim (origin o l e) [
        | merged m n ↦ elim (lt_or_le x offset) [
          | inl before ↦ inl (IsFree-Left f offset lo x left (omega arith) before)
          | inr after ↦ elim (lt_or_le x (offset + len)) [
            | inl within ↦ inr (after, within)
            | inr behind ↦
                inl (IsFree-Right f offset (offset + len) hi x right behind (omega arith))
          ]
        ]
        | kept e' r ↦ inl (o, l, e', p, q)
      ]

      back : IsFree f x ⊎ ((offset ≤ x) × (x < offset + len)) → IsFree f' x
      back (inr (p, q)) = (lo, v, at_lo, omega (arith, begin_le), omega (arith, le_finish))
      back (inl (o, l, e, p, q)) = elim (place o l e) [
        | is_left m n ↦ (lo, v, at_lo, omega arith, omega (arith, le_finish))
        | is_right m n ↦ (lo, v, at_lo, omega (arith, begin_le), omega arith)
        | lower m ↦ (o, l, elsewhere o (omega arith) (omega (arith, begin_le)) ∙ e, p, q)
        | higher m ↦ (
          o,
          l,
          elsewhere o (omega (arith, begin_le, le_finish)) (omega (arith, le_finish)) ∙ e,
          p,
          q,
        )
      ]

-- The map `f'` is `f` with the extent of `len` bytes at the offset, merged with its neighbours.
pub record Merging (f f' : Extents) (offset len : ℕ) : Type 0 where
  pub lo : ℕ
  pub hi : ℕ
  pub size : ℕ
  pub left : Left f offset lo
  pub right : Right f offset (offset + len) hi
  pub whole : lo + size ≡ hi
  pub at_lo : f' lo ≡ some size
  pub at_end : f' (offset + len) ≡ none
  pub elsewhere : (j : ℕ) → j ≢ lo → j ≢ offset + len → f' j ≡ f j

module _ (f f' : Extents) (offset len : ℕ) (old : Apart f) (hlen : 0 < len)
    (m : Merging f f' offset len) where
  pub Apart-Merging : Apart f'
  Apart-Merging =
      Apart-merged f f' offset len m.lo m.hi m.size old hlen m.left m.right m.whole m.at_lo m.at_end
        m.elsewhere

  pub IsFree-Merging : (x : ℕ) → IsFree f' x ↔ (IsFree f x ⊎ ((offset ≤ x) × (x < offset + len)))
  IsFree-Merging =
      IsFree-merged f f' offset len m.lo m.hi m.size old hlen m.left m.right m.whole m.at_lo
        m.at_end m.elsewhere

pub Merging-agree :
    (f f' f'' : Extents) (offset len : ℕ)
    → ((j : ℕ) → f'' j ≡ f' j)
    → Merging f f' offset len
    → Merging f f'' offset len
Merging-agree f f' f'' offset len h m = record {
  lo = m.lo;
  hi = m.hi;
  size = m.size;
  left = m.left;
  right = m.right;
  whole = m.whole;
  at_lo = h m.lo ∙ m.at_lo;
  at_end = h (offset + len) ∙ m.at_end;
  elsewhere = λ j n n'. h j ∙ m.elsewhere j n n';
}
