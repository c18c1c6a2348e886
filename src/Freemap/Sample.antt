-- ===== src/Freemap/Sample.antt =====
-- Databases as lists of pairs, for runs of the free map's operations.
use mathlib.Core.Option.{some-injective}
use mathlib.Core.Path.{subst}
use hs.Prelude.{
  ℕ, ◌≤◌, ◌<◌, ◌≡◌, inl, inr, refl, sym, ap, ◌∙◌, Bool, false, not, ◌&&◌, ◌||◌, Option, none, some,
  List, [], ◌∷◌, ltb, leb, ◌==◌, if◌then◌else◌, arith, Bool-cases,
}
use hs.Freemap.Db.{OrderedDb, PairDb}

abbrev pub Pairs : Type 0
Pairs = List (ℕ × ℕ)

unfoldable pub find : Pairs → ℕ → Option ℕ
find [] j = none
find ((k, v) ∷ d) j = if j == k then some v else find d j

unfoldable pub remove : Pairs → ℕ → Pairs
remove [] k = []
remove ((o, v) ∷ d) k = if o == k then remove d k else (o, v) ∷ remove d k

abbrev lower : ℕ × ℕ → Option (ℕ × ℕ) → Option (ℕ × ℕ)
lower p none = some p
lower (o, l) (some (o', l')) = if leb o o' then some (o, l) else some (o', l')

abbrev higher : ℕ × ℕ → Option (ℕ × ℕ) → Option (ℕ × ℕ)
higher p none = some p
higher (o, l) (some (o', l')) = if leb o' o then some (o, l) else some (o', l')

unfoldable pub at_or_after : Pairs → ℕ → Option (ℕ × ℕ)
at_or_after [] k = none
at_or_after ((o, l) ∷ d) k =
    let rest = at_or_after d k in if leb k o then lower (o, l) rest else rest

unfoldable pub before : Pairs → ℕ → Option (ℕ × ℕ)
before [] k = none
before ((o, l) ∷ d) k = let rest = before d k in if ltb o k then higher (o, l) rest else rest

pub data First (f : ℕ → Option ℕ) (k : ℕ) : Option (ℕ × ℕ) → Type 0 where
  no_first : ((j : ℕ) → k ≤ j → f j ≡ none) → First f k none
  some_first :
      {o l : ℕ}
      → f o ≡ some l
      → k ≤ o
      → ((j : ℕ) → k ≤ j → j < o → f j ≡ none)
      → First f k (some (o, l))

pub data Last (f : ℕ → Option ℕ) (k : ℕ) : Option (ℕ × ℕ) → Type 0 where
  no_last : ((j : ℕ) → j < k → f j ≡ none) → Last f k none
  some_last :
      {o l : ℕ}
      → f o ≡ some l
      → o < k
      → ((j : ℕ) → o < j → j < k → f j ≡ none)
      → Last f k (some (o, l))

First-cons :
    (d : Pairs) (o l k : ℕ) (r : Option (ℕ × ℕ))
    → First (find d) k r
    → First (find ((o, l) ∷ d)) k (if leb k o then lower (o, l) r else r)
unfolding find
First-cons d o l k _ (no_first h) = elim (Bool-cases (leb k o)) [
  | inl t ↦ rw t (some_first (ground arith) (ground (arith, t)) (λ j a b. ground (arith, h j a)))
  | inr t ↦ rw t (no_first (λ j a. ground (arith, t, h j a)))
]
First-cons d o l k _ (some_first {o = p} {l = m} e a g) = elim (Bool-cases (leb k o)) [
  | inl t ↦ elim (Bool-cases (leb o p)) [
    | inl u ↦
        rw (t, u)
          (some_first (ground arith) (ground (arith, t)) (λ j b c. ground (arith, u, g j b)))
    | inr u ↦ rw (t, u) (some_first (ground (arith, u, e)) a (λ j b c. ground (arith, u, g j b c)))
  ]
  | inr t ↦ rw t (some_first (ground (arith, t, e)) a (λ j b c. ground (arith, t, g j b c)))
]

Last-cons :
    (d : Pairs) (o l k : ℕ) (r : Option (ℕ × ℕ))
    → Last (find d) k r
    → Last (find ((o, l) ∷ d)) k (if ltb o k then higher (o, l) r else r)
unfolding find
Last-cons d o l k _ (no_last h) = elim (Bool-cases (ltb o k)) [
  | inl t ↦ rw t (some_last (ground arith) (ground (arith, t)) (λ j a b. ground (arith, h j b)))
  | inr t ↦ rw t (no_last (λ j a. ground (arith, t, h j a)))
]
Last-cons d o l k _ (some_last {o = p} {l = m} e a g) = elim (Bool-cases (ltb o k)) [
  | inl t ↦ elim (Bool-cases (leb p o)) [
    | inl u ↦
        rw (t, u) (some_last (ground arith) (ground (arith, t)) (λ j b c. ground (arith, u, g j)))
    | inr u ↦ rw (t, u) (some_last (ground (arith, u, e)) a (λ j b c. ground (arith, u, g j b c)))
  ]
  | inr t ↦ rw t (some_last (ground (arith, t, e)) a (λ j b c. ground (arith, t, g j b c)))
]

pub at_or_after-First : (d : Pairs) (k : ℕ) → First (find d) k (at_or_after d k)
unfolding find at_or_after
at_or_after-First [] k = no_first (λ j a. refl)
at_or_after-First ((o, l) ∷ d) k = First-cons d o l k (at_or_after d k) (at_or_after-First d k)

pub before-Last : (d : Pairs) (k : ℕ) → Last (find d) k (before d k)
unfolding find before
before-Last [] k = no_last (λ j a. refl)
before-Last ((o, l) ∷ d) k = Last-cons d o l k (before d k) (before-Last d k)

pub find-remove : (d : Pairs) (k j : ℕ) → find (remove d k) j ≡ (if j == k then none else find d j)
unfolding find remove
find-remove [] k j = ground arith
find-remove ((o, v) ∷ d) k j = let rest = find-remove d k j in ground arith

pub First-some :
    (f : ℕ → Option ℕ) (k o l : ℕ)
    → First f k (some (o, l))
    → (f o ≡ some l) × (k ≤ o) × ((j : ℕ) → k ≤ j → j < o → f j ≡ none)
First-some f k o l (some_first a b g) = (a, b, g)

pub First-none : (f : ℕ → Option ℕ) (k : ℕ) → First f k none → (j : ℕ) → k ≤ j → f j ≡ none
First-none f k (no_first h) = h

pub Last-some :
    (f : ℕ → Option ℕ) (k o l : ℕ)
    → Last f k (some (o, l))
    → (f o ≡ some l) × (o < k) × ((j : ℕ) → o < j → j < k → f j ≡ none)
Last-some f k o l (some_last a b g) = (a, b, g)

pub Last-none : (f : ℕ → Option ℕ) (k : ℕ) → Last f k none → (j : ℕ) → j < k → f j ≡ none
Last-none f k (no_last h) = h

pub find_cons :
    (d d' : Pairs) (k v : ℕ)
    → some ((k, v) ∷ d) ≡ some d'
    → (j : ℕ) → find d' j ≡ (if j == k then some v else find d j)
unfolding find
find_cons d d' k v e j = ap (λ x. find x j) (sym (some-injective _ _ e))

abbrev pub pairs_free : OrderedDb Pairs
pairs_free = record {
  find = find;
  at_or_after = at_or_after;
  before = before;
  put = λ d k v. some ((k, v) ∷ d);
  del = λ d k. some (remove d k);
  at_or_after_some =
      λ d k o l e. First-some (find d) k o l (subst (First (find d) k) e (at_or_after-First d k));
  at_or_after_none =
      λ d k e. First-none (find d) k (subst (First (find d) k) e (at_or_after-First d k));
  before_some = λ d k o l e. Last-some (find d) k o l (subst (Last (find d) k) e (before-Last d k));
  before_none = λ d k e. Last-none (find d) k (subst (Last (find d) k) e (before-Last d k));
  find-put = find_cons;
  find-del = λ d d' k e j. ap (λ x. find x j) (sym (some-injective _ _ e)) ∙ find-remove d k j;
}

unfoldable pub holds : Pairs → ℕ → ℕ → Bool
holds [] a b = false
holds ((k, v) ∷ d) a b = ((a == k) && (b == v)) || holds d a b

unfoldable pub remove_pair : Pairs → ℕ → ℕ → Pairs
remove_pair [] k v = []
remove_pair ((a, b) ∷ d) k v =
    if (a == k) && (b == v) then remove_pair d k v else (a, b) ∷ remove_pair d k v

pub holds-remove_pair :
    (d : Pairs) (k v a b : ℕ)
    → holds (remove_pair d k v) a b ≡ (not ((a == k) && (b == v)) && holds d a b)
unfolding holds remove_pair
holds-remove_pair [] k v a b = ground arith
holds-remove_pair ((x, y) ∷ d) k v a b = let rest = holds-remove_pair d k v a b in ground arith

pub holds_cons :
    (d d' : Pairs) (k v : ℕ)
    → some ((k, v) ∷ d) ≡ some d'
    → (a b : ℕ) → holds d' a b ≡ (((a == k) && (b == v)) || holds d a b)
unfolding holds
holds_cons d d' k v e a b = ap (λ x. holds x a b) (sym (some-injective _ _ e))

abbrev pub pairs_len : PairDb Pairs
pairs_len = record {
  has = holds;
  put = λ d k v. some ((k, v) ∷ d);
  del = λ d k v. some (remove_pair d k v);
  has-put = holds_cons;
  has-del = λ d d' k v e a b.
      ap (λ x. holds x a b) (sym (some-injective _ _ e)) ∙ holds-remove_pair d k v a b;
}
