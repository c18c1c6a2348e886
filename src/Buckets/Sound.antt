-- ===== src/Buckets/Sound.antt =====
-- src/Buckets.cpp: the two maps of the cache and the identifiers, over the changes of the cache.
use mathlib.Core.Option.{some-injective}
use mathlib.Core.Path.{subst}
use hs.Prelude.{
  ==_iff, ℕ, ◌%◌, ◌<◌, ◌≡◌, ◌⊎◌, inl, inr, refl, sym, ap, ◌∙◌, true, false, Option, none, some,
  List, ◌==◌, bytes_eq, bytes_eq_refl, bytes_eq→eq, arith, Bool-cases, Option-cases,
}
use hs.Buckets.{
  enabled, BucketInfo, State, start, put, erase, put_name, erase_name, add_new, remove, with_info,
}

-- What holds of every bucket of the cache: it is found by its identifier, which `nextId` has given,
-- and with object lock it has versioning.
pub record Good (s : State) (name : List ℕ) (info : BucketInfo) : Type 0 where
  pub points : s.bucket_names info.id ≡ some name
  pub below : info.id < s.curr_max_id
  pub first_of_four : info.id % 4 ≡ 1
  pub lock_versioned : info.object_lock_enabled ≡ true → info.versioning ≡ enabled

pub record IsSound (s : State) : Type 0 where
  pub named_bucket :
      (id : ℕ) (name : List ℕ)
      → s.bucket_names id ≡ some name
      → (info : BucketInfo) × (s.buckets name ≡ some info) × (info.id ≡ id)
  pub good : (name : List ℕ) (info : BucketInfo) → s.buckets name ≡ some info → Good s name info
  pub next_of_four : s.curr_max_id % 4 ≡ 1

pub start-IsSound : IsSound start
start-IsSound = record {
  named_bucket = λ id name e. ground (arith, e);
  good = λ name info e. ground (arith, e);
  next_of_four = refl;
}

-- Names that are not the same
pub not_same : (n name : List ℕ) → (n ≡ name → ⊥) → bytes_eq n name ≡ false
not_same n name h = elim (Bool-cases (bytes_eq n name)) [
  | inl same ↦ elim (h (bytes_eq→eq n name same)) [ ]
  | inr other ↦ other
]

pub same_info :
    (s : State) (n name : List ℕ) (i info : BucketInfo)
    → s.buckets n ≡ some i
    → s.buckets name ≡ some info
    → n ≡ name
    → i ≡ info
same_info s n name i info e e' same = some-injective _ _ (sym e ∙ ap s.buckets same ∙ e')

-- What a map holds after a change
pub put-cases :
    (m : List ℕ → Option BucketInfo) (name n : List ℕ) (v i : BucketInfo)
    → put name v m n ≡ some i
    → ((n ≡ name) × (v ≡ i)) ⊎ ((bytes_eq n name ≡ false) × (m n ≡ some i))
put-cases m name n v i e = elim (Bool-cases (bytes_eq n name)) [
  | inl same ↦ inl (bytes_eq→eq n name same, some-injective _ _ (rw same at e))
  | inr other ↦ inr (other, rw other at e)
]

pub erase-cases :
    (m : List ℕ → Option BucketInfo) (name n : List ℕ) (i : BucketInfo)
    → erase name m n ≡ some i
    → (bytes_eq n name ≡ false) × (m n ≡ some i)
erase-cases m name n i e = elim (Bool-cases (bytes_eq n name)) [
  | inl same ↦ ground (arith, rw same at e)
  | inr other ↦ (other, rw other at e)
]

pub put-same :
    (m : List ℕ → Option BucketInfo) (name : List ℕ) (v : BucketInfo) → put name v m name ≡ some v
put-same m name v = rw (bytes_eq_refl name) refl

module _ (s : State) (sound : IsSound s) (name : List ℕ) (info : BucketInfo)
    (at_name : s.buckets name ≡ some info) where
  -- A change of a bucket that keeps its identifier
  pub with_info-IsSound :
      (new : BucketInfo)
      → new.id ≡ info.id
      → (new.object_lock_enabled ≡ true → new.versioning ≡ enabled)
      → IsSound (with_info s name new)
  with_info-IsSound new same_id versioned = record {
    named_bucket = find_named;
    good = λ n i e. elim (put-cases s.buckets name n new i e) [
      | inl (same, v) ↦
          subst (Good (with_info s name new) n) v
            (subst (λ x. Good (with_info s name new) x new) (sym same) good_new)
      | inr (other, e') ↦
          let g = sound.good n i e' in
          record {
            points = g.points;
            below = g.below;
            first_of_four = g.first_of_four;
            lock_versioned = g.lock_versioned;
          }
    ];
    next_of_four = sound.next_of_four;
  }
    where
      old : Good s name info
      old = sound.good name info at_name

      good_new : Good (with_info s name new) name new
      good_new = record {
        points = ap s.bucket_names same_id ∙ old.points;
        below = ground (arith, same_id, old.below);
        first_of_four = ap (λ x. x % 4) same_id ∙ old.first_of_four;
        lock_versioned = versioned;
      }

      find_named :
          (id : ℕ) (n : List ℕ)
          → s.bucket_names id ≡ some n
          → (i : BucketInfo) × (put name new s.buckets n ≡ some i) × (i.id ≡ id)
      find_named id n e =
          let (i, at_n, same) = sound.named_bucket id n e in
          elim (Bool-cases (bytes_eq n name)) [
            | inl t ↦ (
              new,
              rw t refl,
              same_id
                  ∙ ap BucketInfo.id
                      (sym (same_info s n name i info at_n at_name (bytes_eq→eq n name t)))
                  ∙ same,
            )
            | inr t ↦ (i, rw t at_n, same)
          ]

  pub remove-IsSound : IsSound (remove s info.id name)
  remove-IsSound = record {
    named_bucket = find_named;
    good = λ n i e. kept n i (erase-cases s.buckets name n i e);
    next_of_four = sound.next_of_four;
  }
    where
      find_named :
          (id : ℕ) (n : List ℕ)
          → erase_name info.id s.bucket_names id ≡ some n
          → (i : BucketInfo) × (erase name s.buckets n ≡ some i) × (i.id ≡ id)
      find_named id n e = elim (Bool-cases (id == info.id)) [
        | inl t ↦ ground (arith, rw t at e)
        | inr t ↦
            let (i, at_n, same) = sound.named_bucket id n (rw t at e) in
            (
              i,
              rw
                  (not_same n name
                    (λ eq. other id i t same (same_info s n name i info at_n at_name eq)))
                  at_n,
              same,
            )
      ]
        where
          other : (id : ℕ) (i : BucketInfo) → (id == info.id) ≡ false → i.id ≡ id → i ≡ info → ⊥
          other id i t same eq = let same' = ap BucketInfo.id eq in ground arith

      kept :
          (n : List ℕ) (i : BucketInfo)
          → (bytes_eq n name ≡ false) × (s.buckets n ≡ some i)
          → Good (remove s info.id name) n i
      kept n i (t, e) =
          let g = sound.good n i e in
          record {
            points = rw (different g.points) g.points;
            below = g.below;
            first_of_four = g.first_of_four;
            lock_versioned = g.lock_versioned;
          }
        where
          different : s.bucket_names i.id ≡ some n → (i.id == info.id) ≡ false
          different p = elim (Bool-cases (i.id == info.id)) [
            | inl same ↦
                let eq = some-injective _ _ (
                  sym p
                  ∙ ap s.bucket_names ((==_iff i.id info.id).0 same)
                  ∙ (sound.good name info at_name).points) in
                let bad : bytes_eq n name ≡ true = rw eq (bytes_eq_refl name) in
                ground (arith, t, bad)
            | inr other ↦ other
          ]

pub add_new-IsSound :
    (s : State) (name : List ℕ) (info : BucketInfo)
    → IsSound s
    → s.buckets name ≡ none
    → info.id ≡ s.curr_max_id
    → (info.object_lock_enabled ≡ true → info.versioning ≡ enabled)
    → IsSound (add_new s name info)
add_new-IsSound s name info sound absent fresh versioned = record {
  named_bucket = find_named;
  good = λ n i e. elim (put-cases s.buckets name n info i e) [
    | inl (same, v) ↦
        subst (Good (add_new s name info) n) v
          (subst (λ x. Good (add_new s name info) x info) (sym same) good_new)
    | inr (other, e') ↦
        let g = sound.good n i e' in
        record {
          points = rw (g.points, put_name) refl;
          below = ground (arith, g.below);
          first_of_four = g.first_of_four;
          lock_versioned = g.lock_versioned;
        }
  ];
  next_of_four = ground (arith, sound.next_of_four);
}
  where
    -- The identifier has not been given to a bucket before.
    unused : s.bucket_names info.id ≡ none
    unused = elim (Option-cases (s.bucket_names info.id)) [
      | inl e ↦ e
      | inr (n, e) ↦
          let (i, at_n, same) = sound.named_bucket info.id n e in
          let below = (sound.good n i at_n).below in absurd (omega (arith, below, same, fresh))
    ]

    good_new : Good (add_new s name info) name info
    good_new = record {
      points = rw (unused, put_name) (ground arith);
      below = ground arith;
      first_of_four = ap (λ x. x % 4) fresh ∙ sound.next_of_four;
      lock_versioned = versioned;
    }

    find_named :
        (id : ℕ) (n : List ℕ)
        → put_name info.id name s.bucket_names id ≡ some n
        → (i : BucketInfo) × (put name info s.buckets n ≡ some i) × (i.id ≡ id)
    find_named id n e = elim (Option-cases (s.bucket_names id)) [
      | inr (old, at_id) ↦
          let (i, at_n, same) = sound.named_bucket id n (at_id ∙ (rw (at_id, put_name) at e)) in
          (i, rw (not_same n name (λ eq. present i at_n eq)) at_n, same)
      | inl absent_id ↦ elim (Bool-cases (id == info.id)) [
        | inl t ↦ (
          info,
          subst (λ x. put name info s.buckets x ≡ some info)
              (some-injective _ _ (rw (absent_id, put_name, t) at e))
              (put-same s.buckets name info),
          ground (arith, t),
        )
        | inr t ↦ let bad = rw (absent_id, put_name, t) at e in cc
      ]
    ]
      where
        present : (i : BucketInfo) → s.buckets n ≡ some i → n ≡ name → ⊥
        present i at_n eq =
            let bad = sym absent ∙ sym (ap s.buckets eq) ∙ at_n in ground (arith, bad)
