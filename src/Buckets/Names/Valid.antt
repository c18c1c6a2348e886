-- ===== src/Buckets/Names/Valid.antt =====
-- src/Buckets.cpp: the names that `isValidBucketName` accepts.
use hs.Prelude.{
  ==_iff, ℕ, ◌+◌, ◌-◌, ◌≤◌, ◌<◌, ◌≡◌, ◌↔◌, ◌⊎◌, inl, inr, refl, sym, ap, ◌∙◌, Bool, true, false,
  ◌&&◌, ◌||◌, Option, none, some, List, [], ◌∷◌, length, ltb, ◌==◌, arith, Bool-cases,
  if◌then◌else◌,
}
use hs.Buckets.Names.Reserved.{Reserved, is_reserved-Reserved}
use hs.Buckets.Names.{
  is_reserved, is_alnum, is_dash, is_period, follows, name_loop, is_valid_bucket_name,
}

-- A lower-case letter or a digit of ASCII
abbrev pub LowerOrDigit : ℕ → Type 0
LowerOrDigit c = ((b'a' ≤ c) × (c ≤ b'z')) ⊎ ((b'0' ≤ c) × (c ≤ b'9'))

alnum_iff : (c : ℕ) → (is_alnum c ≡ true) ↔ LowerOrDigit c
unfolding is_alnum
alnum_iff c = ground arith

-- The rest of a name behind its first byte: lower-case letters, digits, dashes and periods, no two
-- periods in a row, with a letter or digit at its end. The flag tells whether a period stands in front.
pub data Tail : Bool → List ℕ → Type 0 where
  last_byte : {b : Bool} {c : ℕ} → LowerOrDigit c → Tail b (c ∷ [])
  letter : {b : Bool} {c : ℕ} {name : List ℕ} → LowerOrDigit c → Tail false name → Tail b (c ∷ name)
  dash : {b : Bool} {c : ℕ} {name : List ℕ} → c ≡ b'-' → Tail false name → Tail b (c ∷ name)
  period : {c : ℕ} {name : List ℕ} → c ≡ b'.' → Tail true name → Tail false (c ∷ name)

pub data Label : List ℕ → Type 0 where
  label : {c : ℕ} {name : List ℕ} → LowerOrDigit c → Tail false name → Label (c ∷ name)

-- No period was seen at `i` or later.
data Seen (i : ℕ) : Option ℕ → Type 0 where
  never : Seen i none
  at : {p : ℕ} → p < i → Seen i (some p)

module _ (n : ℕ) where
  Seen-next : (i : ℕ) (lp : Option ℕ) → Seen i lp → Seen (i + 1) lp
  Seen-next i _ never = never
  Seen-next i _ (at lt) = at (omega arith)

  follows-next : (i : ℕ) (lp : Option ℕ) → Seen i lp → follows (i + 1) lp ≡ false
  follows-next i _ never = refl
  follows-next i _ (at lt) = ground arith

  follows-here : (i : ℕ) → follows (i + 1) (some i) ≡ true
  follows-here i = ground arith

  alnum_no_period : (c : ℕ) → is_alnum c ≡ true → is_period c ≡ false
  unfolding is_alnum
  alnum_no_period c h = ground (arith, h)

  alnum_no_dash : (c : ℕ) → is_alnum c ≡ true → is_dash c ≡ false
  unfolding is_alnum
  alnum_no_dash c h = ground (arith, h)

  dash_no_period : (c : ℕ) → is_dash c ≡ true → is_period c ≡ false
  dash_no_period c h = ground (arith, h)

  -- One round of the loop, at the last byte
  loop_last : (i : ℕ) (lp : Option ℕ) (c : ℕ) → i + 1 ≡ n → name_loop n i lp (c ∷ []) ≡ is_alnum c
  unfolding name_loop
  loop_last i lp c hn = rw (at_end, name_loop) (and_true (is_alnum c))
    where
      at_end : ((i == 0) || (i == n - 1)) ≡ true
      at_end = ground arith

      and_true : (b : Bool) → (b && true) ≡ b
      and_true true = refl
      and_true false = refl

  -- and in front of it
  module _ (i : ℕ) (lp : Option ℕ) (c d : ℕ) (name : List ℕ) (hi : 0 < i)
      (hn : i + length (c ∷ d ∷ name) ≡ n) where
    middle : ((i == 0) || (i == n - 1)) ≡ false
    middle = ground arith

    loop_alnum :
        is_alnum c ≡ true → name_loop n i lp (c ∷ d ∷ name) ≡ name_loop n (i + 1) lp (d ∷ name)
    unfolding name_loop
    loop_alnum a = rw (middle, a, alnum_no_period c a) refl

    loop_dash :
        is_dash c ≡ true → name_loop n i lp (c ∷ d ∷ name) ≡ name_loop n (i + 1) lp (d ∷ name)
    unfolding name_loop
    loop_dash b = elim (Bool-cases (is_alnum c)) [
      | inl a ↦ loop_alnum a
      | inr a ↦ rw (middle, a, b, dash_no_period c b) refl
    ]

    loop_period :
        is_period c ≡ true
        → name_loop n i lp (c ∷ d ∷ name)
          ≡ (if follows i lp then false else name_loop n (i + 1) (some i) (d ∷ name))
    unfolding name_loop
    loop_period p = elim (Bool-cases (is_alnum c)) [
      | inl a ↦ let bad = sym p ∙ alnum_no_period c a in ground (arith, bad)
      | inr a ↦ elim (Bool-cases (is_dash c)) [
        | inl b ↦ let bad = sym p ∙ dash_no_period c b in ground (arith, bad)
        | inr b ↦ rw (middle, a, b, p) refl
      ]
    ]

    loop_other :
        is_alnum c ≡ false
        → is_dash c ≡ false
        → is_period c ≡ false
        → name_loop n i lp (c ∷ d ∷ name) ≡ false
    unfolding name_loop
    loop_other a b p = rw (middle, a, b, p) refl

    next_place : (i + 1) + length (d ∷ name) ≡ n
    next_place = omega arith

  -- The loop behind the first byte
  loop-Tail :
      (i : ℕ) (lp : Option ℕ) (c : ℕ) (name : List ℕ)
      → 0 < i
      → i + length (c ∷ name) ≡ n
      → Seen i lp
      → name_loop n i lp (c ∷ name) ≡ true
      → Tail (follows i lp) (c ∷ name)
  loop-Tail i lp c [] hi hn seen h = last_byte ((alnum_iff c).0 (sym (loop_last i lp c hn) ∙ h))
  loop-Tail i lp c (d ∷ name) hi hn seen h =
      let same =
        loop-Tail (i + 1) lp d name (omega arith) (next_place i lp c d name hi hn)
          (Seen-next i lp seen) in
      let moved =
        loop-Tail (i + 1) (some i) d name (omega arith) (next_place i lp c d name hi hn)
          (at (omega arith)) in
      elim (Bool-cases (is_alnum c)) [
        | inl a ↦
            letter ((alnum_iff c).0 a)
              (rw (follows-next i lp seen) at (same (sym (loop_alnum i lp c d name hi hn a) ∙ h)))
        | inr a ↦ elim (Bool-cases (is_dash c)) [
          | inl b ↦
              dash ((==_iff c b'-').0 b)
                (rw (follows-next i lp seen) at (same (sym (loop_dash i lp c d name hi hn b) ∙ h)))
          | inr b ↦ elim (Bool-cases (is_period c)) [
            | inl p ↦ elim (Bool-cases (follows i lp)) [
              | inl f ↦
                  let bad =
                    sym (
                      loop_period i lp c d name hi hn p
                      ∙ ap (λ x. if x then false else name_loop n (i + 1) (some i) (d ∷ name)) f)
                    ∙ h in
                  ground (arith, bad)
              | inr f ↦ rw f (
                  period ((==_iff c b'.').0 p) (
                    rw (follows-here i) at (
                      moved (
                        sym (
                          loop_period i lp c d name hi hn p
                          ∙ ap (λ x. if x then false else name_loop n (i + 1) (some i) (d ∷ name))
                              f)
                        ∙ h))))
            ]
            | inr p ↦ ground (arith, sym (loop_other i lp c d name hi hn a b p) ∙ h)
          ]
        ]
      ]

  Tail-loop :
      (i : ℕ) (lp : Option ℕ) (b : Bool) (c : ℕ) (name : List ℕ)
      → 0 < i
      → i + length (c ∷ name) ≡ n
      → Seen i lp
      → follows i lp ≡ b
      → Tail b (c ∷ name)
      → name_loop n i lp (c ∷ name) ≡ true
  Tail-loop i lp _ c _ hi hn seen f (last_byte a) = loop_last i lp c hn ∙ (alnum_iff c).1 a
  Tail-loop i lp _ c [] hi hn seen f (letter a t) = elim t [ ]
  Tail-loop i lp _ c [] hi hn seen f (dash a t) = elim t [ ]
  Tail-loop i lp _ c [] hi hn seen f (period a t) = elim t [ ]
  Tail-loop i lp _ c (d ∷ name) hi hn seen f (letter a t) =
      loop_alnum i lp c d name hi hn ((alnum_iff c).1 a)
      ∙ Tail-loop (i + 1) lp false d name (omega arith) (next_place i lp c d name hi hn)
          (Seen-next i lp seen) (follows-next i lp seen) t
  Tail-loop i lp _ c (d ∷ name) hi hn seen f (dash a t) =
      loop_dash i lp c d name hi hn ((==_iff c b'-').1 a)
      ∙ Tail-loop (i + 1) lp false d name (omega arith) (next_place i lp c d name hi hn)
          (Seen-next i lp seen) (follows-next i lp seen) t
  Tail-loop i lp _ c (d ∷ name) hi hn seen f (period a t) =
      loop_period i lp c d name hi hn ((==_iff c b'.').1 a)
      ∙ ap (λ x. if x then false else name_loop n (i + 1) (some i) (d ∷ name)) f
      ∙ Tail-loop (i + 1) (some i) true d name (omega arith) (next_place i lp c d name hi hn)
          (at (omega arith)) (follows-here i) t

both : (a b : Bool) → (a && b) ≡ true → (a ≡ true) × (b ≡ true)
both true b h = (refl, h)
both false b h = ground (arith, h)

loop-Label :
    (name : List ℕ) → 3 ≤ length name → name_loop (length name) 0 none name ≡ true → Label name
unfolding name_loop
loop-Label [] h e = ground arith
loop-Label (c ∷ []) h e = ground arith
loop-Label (c ∷ d ∷ name) h e =
    let (a, rest) = both (is_alnum c) (name_loop (length (c ∷ d ∷ name)) 1 none (d ∷ name)) e in
    label ((alnum_iff c).0 a)
      (loop-Tail (length (c ∷ d ∷ name)) 1 none d name (omega arith) (omega arith) never rest)

Label-loop :
    (name : List ℕ) → 3 ≤ length name → Label name → name_loop (length name) 0 none name ≡ true
unfolding name_loop
Label-loop _ h (label {name = []} a t) = elim t [ ]
Label-loop _ h (label {c = c} {name = d ∷ name} a t) =
    rw ((alnum_iff c).1 a) (
      Tail-loop (length (c ∷ d ∷ name)) 1 none false d name (omega arith) (omega arith) never refl
        t)

-- `isValidBucketName` accepts exactly the names of 3 to 63 bytes that do not begin with `xn--`,
-- `sthree-` or `amzn-s3-demo-`, do not end in `-s3alias`, `--ol-s3`, `.mrap`, `--x-s3` or
-- `--table-s3`, are made of the lower-case letters a to z, the digits 0 to 9, dashes and periods, begin
-- and end with such a letter or digit, and have no two periods in a row.
pub is_valid_bucket_name_iff :
    (name : List ℕ)
    → (is_valid_bucket_name name ≡ true)
      ↔ ((3 ≤ length name) × (length name ≤ 63) × (¬ Reserved name) × Label name)
unfolding is_valid_bucket_name
is_valid_bucket_name_iff name = (forth, back)
  where
    forth :
        is_valid_bucket_name name ≡ true
        → (3 ≤ length name) × (length name ≤ 63) × (¬ Reserved name) × Label name
    forth h = elim (Bool-cases (ltb (length name) 3 || ltb 63 (length name))) [
      | inl t ↦ let bad : false ≡ true = rw (t, is_valid_bucket_name) at h in ground (arith, bad)
      | inr t ↦ elim (Bool-cases (is_reserved name)) [
        | inl r ↦
            let bad : false ≡ true = rw (t, r, is_valid_bucket_name) at h in ground (arith, bad)
        | inr r ↦ (
          ground (arith, t),
          ground (arith, t),
          (is_reserved-Reserved name).0 r,
          loop-Label name (ground (arith, t)) (rw (t, r, is_valid_bucket_name) at h),
        )
      ]
    ]

    back :
        (3 ≤ length name) × (length name ≤ 63) × (¬ Reserved name) × Label name
        → is_valid_bucket_name name ≡ true
    back (least, most, r, l) =
        rw (fits, (is_reserved-Reserved name).1 r, is_valid_bucket_name) (Label-loop name least l)
      where
        fits : (ltb (length name) 3 || ltb 63 (length name)) ≡ false
        fits = ground arith
