-- ===== src/Buckets/History.antt =====
-- src/Buckets.cpp: the cache over sequences of calls.
use mathlib.Core.Option.{some-injective}
use mathlib.Core.Path.{subst}
use hs.Prelude.{
  ℕ, ◌≡◌, inl, inr, refl, sym, ap, ◌∙◌, Bool, true, false, not, ◌&&◌, none, some, List, ◌==◌, arith,
  Bool-cases, Option-cases, if◌then◌else◌,
}
use hs.Buckets.{
  VersioningState, disabled, enabled, suspended, is_enabled, BucketInfo, BucketCorsRule, State,
  named, by_id, new_info, add_new, add_bucket, remove, delete_bucket, with_info, lock_bucket,
  enable_object_lock, set_state, set_versioning, replace_cors_rules,
}
use hs.Buckets.Sound.{IsSound, same_info, with_info-IsSound, remove-IsSound, add_new-IsSound}

-- A call that may change the cache, with any arguments and any answer of the database
pub data Step (s : State) : State → Type 0 where
  adds : (name : List ℕ) (fail lock : Bool) (now : ℕ) → Step s (add_bucket s name fail lock now).1
  deletes : (id : ℕ) → Step s (delete_bucket s id).1
  sets :
      (name : List ℕ) (v : VersioningState) (changes : ℕ)
      → Step s (set_versioning s name v changes).1
  locks : (id changes : ℕ) → Step s (enable_object_lock s id changes).1
  replaces :
      (id : ℕ) (rules : List BucketCorsRule) (all_added : Bool)
      → Step s (replace_cors_rules s id rules all_added).1

pub data Reaches (s : State) : State → Type 0 where
  at_start : Reaches s s
  and_step : {s1 s2 : State} → Reaches s s1 → Step s1 s2 → Reaches s s2

-- What a call does to the maps: nothing, or one change of one bucket
pub data Change (s : State) : State → Type 0 where
  unchanged : Change s s
  updated :
      (name : List ℕ) (info new : BucketInfo)
      → s.buckets name ≡ some info
      → new.id ≡ info.id
      → (new.object_lock_enabled ≡ true → new.versioning ≡ enabled)
      → (info.object_lock_enabled ≡ true → new.object_lock_enabled ≡ true)
      → Change s (with_info s name new)
  removed :
      (name : List ℕ) (info : BucketInfo)
      → s.buckets name ≡ some info
      → Change s (remove s info.id name)
  added :
      (name : List ℕ) (info : BucketInfo)
      → s.buckets name ≡ none
      → info.id ≡ s.curr_max_id
      → (info.object_lock_enabled ≡ true → info.versioning ≡ enabled)
      → Change s (add_new s name info)

is_enabled_lem : (v : VersioningState) → is_enabled v ≡ true → v ≡ enabled
is_enabled_lem disabled e = ground (arith, e)
is_enabled_lem enabled e = refl
is_enabled_lem suspended e = ground (arith, e)

-- An identifier that is found belongs to the bucket that is found.
pub found :
    (s : State) (id : ℕ) (name : List ℕ) (info : BucketInfo)
    → IsSound s
    → by_id s id ≡ some (name, info)
    → (s.bucket_names id ≡ some name) × (s.buckets name ≡ some info) × (info.id ≡ id)
unfolding named
found s id name info sound e = elim (Option-cases (s.bucket_names id)) [
  | inl none_here ↦
      let bad : none ≡ some (name, info) = rw (none_here, named) at e in ground (arith, bad)
  | inr (n, at_id) ↦ elim (Option-cases (s.buckets n)) [
    | inl none_here ↦
        let bad : none ≡ some (name, info) = rw (at_id, none_here, named) at e in
        ground (arith, bad)
    | inr (i, at_n) ↦
        let whole : some (n, i) ≡ some (name, info) = rw (at_id, at_n, named) at e in
        let same_pair = some-injective _ _ whole in
        let (j, at_n', same) = sound.named_bucket id n at_id in
        (
          at_id ∙ ap (λ p. some p.0) same_pair,
          ap (λ p. s.buckets p.0) (sym same_pair) ∙ at_n ∙ ap (λ p. some p.1) same_pair,
          ap (λ p. BucketInfo.id p.1) (sym same_pair)
              ∙ ap BucketInfo.id (same_info s n n i j at_n at_n' refl)
              ∙ same,
        )
  ]
]

module _ (s : State) (sound : IsSound s) where
  add-Change :
      (name : List ℕ) (fail lock : Bool) (now : ℕ) → Change s (add_bucket s name fail lock now).1
  unfolding add_bucket
  add-Change name fail lock now = elim (Option-cases (s.buckets name)) [
    | inl e ↦ rw (e, add_bucket) (added name (new_info s lock now) e refl (versioned lock))
    | inr (info, e) ↦ rw (e, add_bucket) unchanged
  ]
    where
      versioned : (lock : Bool) → lock ≡ true → (if lock then enabled else disabled) ≡ enabled
      versioned lock e = rw (e, add_bucket) refl

  delete-Change : (id : ℕ) → Change s (delete_bucket s id).1
  unfolding delete_bucket
  delete-Change id = elim (Option-cases (by_id s id)) [
    | inl e ↦ rw (e, delete_bucket) unchanged
    | inr ((name, info), e) ↦
        let (at_id, at_name, same) = found s id name info sound e in
        rw (e, delete_bucket)
          (subst (λ i. Change s (remove s i name)) same (removed name info at_name))
  ]

  set-Change :
      (name : List ℕ) (v : VersioningState) (changes : ℕ)
      → Change s (set_versioning s name v changes).1
  unfolding set_versioning
  set-Change name v changes = elim (Option-cases (s.buckets name)) [
    | inl e ↦ rw (e, set_versioning) unchanged
    | inr (info, e) ↦ rw (e, set_versioning) (set_state-Change info e)
  ]
    where
      set_state-Change :
          (info : BucketInfo)
          → s.buckets name ≡ some info
          → Change s (set_state s name info v changes).1
      set_state-Change info e = elim (Bool-cases (info.object_lock_enabled && not (is_enabled v))) [
        | inl t ↦ simp t unchanged
        | inr t ↦ elim (Bool-cases (changes == 1)) [
          | inl u ↦
              simp (t, u)
                (updated name info (record info { versioning = v }) e refl
                  (λ l. is_enabled_lem v (ground (arith, t, l))) (λ l. l))
          | inr u ↦ simp (t, u) unchanged
        ]
      ]

  lock-Change : (id changes : ℕ) → Change s (enable_object_lock s id changes).1
  unfolding enable_object_lock
  lock-Change id changes = elim (Option-cases (by_id s id)) [
    | inl e ↦ rw (e, enable_object_lock) unchanged
    | inr ((name, info), e) ↦
        let (at_id, at_name, same) = found s id name info sound e in
        rw (e, enable_object_lock) (lock_bucket-Change name info at_name)
  ]
    where
      lock_bucket-Change :
          (name : List ℕ) (info : BucketInfo)
          → s.buckets name ≡ some info
          → Change s (lock_bucket s name info changes).1
      lock_bucket-Change name info e = elim (Bool-cases info.object_lock_enabled) [
        | inl t ↦ simp t unchanged
        | inr t ↦ elim (Bool-cases (is_enabled info.versioning)) [
          | inl u ↦ elim (Bool-cases (changes == 1)) [
            | inl w ↦
                simp (t, u, w)
                  (updated name info (record info { object_lock_enabled = true }) e refl
                    (λ l. is_enabled_lem info.versioning u) (λ l. refl))
            | inr w ↦ simp (t, u, w) unchanged
          ]
          | inr u ↦ simp (t, u) unchanged
        ]
      ]

  replace-Change :
      (id : ℕ) (rules : List BucketCorsRule) (all_added : Bool)
      → Change s (replace_cors_rules s id rules all_added).1
  unfolding replace_cors_rules
  replace-Change id rules false = unchanged
  replace-Change id rules true = elim (Option-cases (by_id s id)) [
    | inl e ↦ rw (e, replace_cors_rules) unchanged
    | inr ((name, info), e) ↦
        let (at_id, at_name, same) = found s id name info sound e in
        rw (e, replace_cors_rules)
          (updated name info _ at_name refl (sound.good name info at_name).lock_versioned (λ l. l))
  ]

  pub Step-Change : (s' : State) → Step s s' → Change s s'
  Step-Change _ (adds name fail lock now) = add-Change name fail lock now
  Step-Change _ (deletes id) = delete-Change id
  Step-Change _ (sets name v changes) = set-Change name v changes
  Step-Change _ (locks id changes) = lock-Change id changes
  Step-Change _ (replaces id rules all_added) = replace-Change id rules all_added

  Change-IsSound : (s' : State) → Change s s' → IsSound s'
  Change-IsSound _ unchanged = sound
  Change-IsSound _ (updated name info new e same versioned kept) =
      with_info-IsSound s sound name info e new same versioned
  Change-IsSound _ (removed name info e) = remove-IsSound s sound name info e
  Change-IsSound _ (added name info e fresh versioned) =
      add_new-IsSound s name info sound e fresh versioned

-- Whatever calls are made, from a sound cache on: the two maps point to each other, every identifier
-- was given by `nextId`, and a bucket with object lock has versioning.
pub Reaches-IsSound : (s s' : State) → IsSound s → Reaches s s' → IsSound s'
Reaches-IsSound s _ sound at_start = sound
Reaches-IsSound s _ sound (and_step {s1} {s2} r step) =
    let before = Reaches-IsSound s s1 sound r in
    Change-IsSound s1 before s2 (Step-Change s1 before s2 step)
