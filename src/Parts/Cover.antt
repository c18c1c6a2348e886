-- ===== src/Parts/Cover.antt =====
-- src/s3handler.cpp: the part numbers that the runs of an upload stand for, before and after
-- `addPartExt`.
use hs.Prelude.{
  ℕ, ◌+◌, ◌^◌, ◌<◌, ◌≡◌, refl, ap, ◌∙◌, inl, inr, Bool, true, false, ◌&&◌, ◌||◌, List, [], ◌∷◌,
  ◌++◌, append-nil, ◌==◌, arith, Bool-cases,
}
use hs.Parts.{
  PartExt, add_int, sub_int, lt_int, le_int, end_of, extends, splits, cut, Looped, extended,
  finished, with_part, add_loop, finish_parts, add_part_ext,
}

-- The run stands for the part `x`, and some run does.
abbrev pub inside : ℕ → PartExt → Bool
inside x p = le_int p.start x && lt_int x (end_of p)

abbrev pub covers : ℕ → List PartExt → Bool
covers x [] = false
covers x (p ∷ parts) = inside x p || covers x parts

-- Both ends of a run are numbers of 30 bits; the length may be 0 or below.
pub record Fits (p : PartExt) : Type 0 where
  pub start : p.start < 2 ^ 30
  pub len : p.len < 2 ^ 32
  pub end : end_of p < 2 ^ 30

pub data AllFit : List PartExt → Type 0 where
  none_left : AllFit []
  one_more : {p : PartExt} {parts : List PartExt} → Fits p → AllFit parts → AllFit (p ∷ parts)

covers-append : (x : ℕ) (a b : List PartExt) → covers x (a ++ b) ≡ (covers x a || covers x b)
covers-append x [] b = refl
covers-append x (p ∷ a) b =
    rw (covers-append x a b) (or_assoc (inside x p) (covers x a) (covers x b))
  where
    or_assoc : (a b c : Bool) → (a || (b || c)) ≡ ((a || b) || c)
    or_assoc true b c = refl
    or_assoc false b c = refl

-- Every run begins before the part `n`.
pub data AllBefore (n : ℕ) : List PartExt → Type 0 where
  no_runs : AllBefore n []
  one_before :
      {p : PartExt} {parts : List PartExt}
      → lt_int p.start n ≡ true
      → AllBefore n parts
      → AllBefore n (p ∷ parts)

module _ (part_size n : ℕ) (hn : n + 1 < 2 ^ 30) where
  abbrev new_part : PartExt
  new_part = record { size = part_size; start = n; len = 1 }

  abbrev covers_looped : ℕ → Looped → Bool
  covers_looped x (extended parts) = covers x parts
  covers_looped x (finished parts new_parts d) = covers x parts || (x == n)

  no_split : (p : PartExt) → lt_int p.start n ≡ true → splits n p ≡ false
  no_split p h = ground arith

  inside-new_part : (x : ℕ) → x < 2 ^ 30 → inside x new_part ≡ (x == n)
  inside-new_part x hx = ground arith

  inside-extended :
      (x : ℕ) (p : PartExt)
      → x < 2 ^ 30
      → Fits p
      → lt_int p.start n ≡ true
      → extends part_size n p ≡ true
      → inside x (record p { len = add_int p.len 1 }) ≡ (inside x p || (x == n))
  inside-extended x p hx f h e = ground (arith, f.start, f.len, f.end)

  -- No run is split, so the loop extends one or goes through all.
  data Outcome (x : ℕ) (parts : List PartExt) : Looped → Type 0 where
    one_extended :
        {parts' : List PartExt}
        → covers x parts' ≡ (covers x parts || (x == n))
        → Outcome x parts (extended parts')
    none_extended : Outcome x parts (finished parts [] false)

  or_last : (a b c d : Bool) → c ≡ (b || d) → (a || c) ≡ ((a || b) || d)
  or_last true b c d e = refl
  or_last false b c d e = e

  or_middle : (a b d : Bool) → ((a || d) || b) ≡ ((a || b) || d)
  or_middle true b d = refl
  or_middle false true true = refl
  or_middle false true false = refl
  or_middle false false true = refl
  or_middle false false false = refl

  Outcome-with_part :
      (x : ℕ) (p : PartExt) (parts : List PartExt) (l : Looped)
      → Outcome x parts l
      → Outcome x (p ∷ parts) (with_part p [] false l)
  Outcome-with_part x p parts _ (one_extended e) =
      one_extended (or_last (inside x p) (covers x parts) _ (x == n) e)
  Outcome-with_part x p parts _ none_extended = none_extended

  add_loop-Outcome :
      (x : ℕ) (parts : List PartExt)
      → x < 2 ^ 30
      → AllFit parts
      → AllBefore n parts
      → Outcome x parts (add_loop part_size n parts)
  unfolding add_loop
  add_loop-Outcome x _ hx none_left h = none_extended
  add_loop-Outcome x _ hx (one_more {p} {parts} f fs) (one_before h hs) =
      let rest = add_loop-Outcome x parts hx fs hs in
      elim (Bool-cases (extends part_size n p)) [
        | inl e ↦ rw e (
            one_extended (
              ap (λ t. t || covers x parts) (inside-extended x p hx f h e)
              ∙ or_middle (inside x p) (covers x parts) (x == n)))
        | inr e ↦
            rw (e, no_split p h) (Outcome-with_part x p parts (add_loop part_size n parts) rest)
      ]

  finish-Outcome :
      (x : ℕ) (parts : List PartExt) (l : Looped)
      → x < 2 ^ 30
      → Outcome x parts l
      → covers x (finish_parts part_size n l) ≡ (covers x parts || (x == n))
  unfolding finish_parts
  finish-Outcome x parts _ hx (one_extended e) = e
  finish-Outcome x parts _ hx none_extended =
      ap (covers x) (ap (λ ps. ps ++ new_part ∷ []) (append-nil parts))
      ∙ covers-append x parts (new_part ∷ [])
      ∙ ap (λ t. covers x parts || t) (or_false (inside x new_part) ∙ inside-new_part x hx)
    where
      or_false : (a : Bool) → (a || false) ≡ a
      or_false true = refl
      or_false false = refl

-- If every run begins before the part `n`, then after `addPartExt` the runs stand for `n` and for
-- exactly the parts for which they stood before. The part numbers have 30 bits.
pub covers-add_part_ext :
    (part_size n x : ℕ) (parts : List PartExt)
    → n + 1 < 2 ^ 30
    → x < 2 ^ 30
    → AllFit parts
    → AllBefore n parts
    → covers x (add_part_ext parts part_size n) ≡ (covers x parts || (x == n))
unfolding add_part_ext
covers-add_part_ext part_size n x parts hn hx fs hs =
    finish-Outcome part_size n hn x parts (add_loop part_size n parts) hx
      (add_loop-Outcome part_size n hn x parts hx fs hs)

-- If the first of two runs is split at the part `n` and the second is extended by `n`, no part behind
-- `n` is in a run afterwards. The part numbers have 30 bits.
pub add_part_ext-lost :
    (part_size n x : ℕ) (p q : PartExt)
    → n + 1 < 2 ^ 30
    → x < 2 ^ 30
    → n < x
    → Fits p
    → Fits q
    → extends part_size n p ≡ false
    → splits n p ≡ true
    → extends part_size n q ≡ true
    → covers x (add_part_ext (p ∷ q ∷ []) part_size n) ≡ false
unfolding add_part_ext add_loop finish_parts
add_part_ext-lost part_size n x p q hn hx later f g e1 e2 e3 =
    rw (e1, e2, e3) (ground (arith, f.start, f.len, f.end, g.start, g.len, g.end))

-- If the only run begins at the part `n + 1` or later and its end is above `n + 1`, the part `n + 1` is in
-- a run afterwards, whether or not it was uploaded. The part numbers have 30 bits.
pub add_part_ext-invented :
    (part_size n : ℕ) (p : PartExt)
    → n + 1 < 2 ^ 30
    → Fits p
    → n + 1 < end_of p
    → n < p.start
    → covers (n + 1) (add_part_ext (p ∷ []) part_size n) ≡ true
unfolding add_part_ext add_loop finish_parts
add_part_ext-invented part_size n p hn f long after =
    rw (not_next, split, kept, more) (ground (arith, f.start, f.len, f.end))
  where
    not_next : extends part_size n p ≡ false
    not_next = ground (arith, long)

    split : splits n p ≡ true
    split = ground (arith, f.start, f.end, long, after)

    kept : ((cut n p).len == 0) ≡ false
    kept = ground (arith, f.start, after)

    more : lt_int 0 (sub_int (sub_int (end_of p) n) 1) ≡ true
    more = ground (arith, f.end, long)
