-- ===== src/Auth/Locks/Deadlock.antt =====
-- src/Auth.cpp and src/Session.cpp: the end of a session while a request with a session's key is decided.
use hs.Prelude.{
  ℕ, suc, ◌++◌, ◌≡◌, ◌≢◌, refl, sym, ap, ◌∙◌, Bool, true, false, Option, none, some, List, [], ◌∷◌,
  ◌==◌, Bool-cases, inl, inr, if◌then◌else◌, arith,
}
use mathlib.Core.Path.{subst}
use mathlib.Core.Option.{some-ne-none, some-injective}
use hs.Auth.Locks.{
  Op, lock_session, unlock_session, lock_auth, unlock_auth, share_auth, unshare_auth, Locks,
  all_free, has, leave, try_op, System, after, Step, makes, Steps, no_step, one_step,
  under_lock_ops, remove_sessions_ops, is_authorized_ops,
}

module _ (i j n : ℕ) where
  -- One thread has the sessions, the other one reads the cache.
  pub record Held (l : Locks) : Type 0 where
    pub session : l.session ≡ some i
    pub writer : l.writer ≡ none
    pub reader : has j l.readers ≡ true

  leave-has : (t : ℕ) (us : List ℕ) → j ≢ t → has j us ≡ true → has j (leave t us) ≡ true
  unfolding has leave
  leave-has t [] other h = h
  leave-has t (u ∷ us) other h = ground (arith, other, h, leave-has t us other)

  not_same : (t u : ℕ) → t ≢ u → t == u ≡ false
  not_same t u different = ground (arith, different)

  -- The cache is not free for a writer while somebody reads.
  not_free :
      (l : Locks) (t : ℕ) (us : List ℕ)
      → has j us ≡ true
      → elim us as (λ x. Option Locks) [ [] ↦ some (record l { writer = some t }) | u ∷ us' ↦ none ]
        ≡ none
  unfolding has
  not_free l t [] h = cc
  not_free l t (u ∷ us) h = refl

  chosen : (b : Bool) → b ≡ true → (x : Option Locks) → (if b then x else none) ≡ x
  chosen b e x = rw e refl

  refused : (b : Bool) → b ≡ false → (x : Option Locks) → (if b then x else none) ≡ none
  refused b e x = rw e refl

  -- What the others do leaves it so.
  try_op-Held :
      (op : Op) (t : ℕ) (l l' : Locks) → i ≢ t → j ≢ t → Held l → try_op op t l ≡ some l' → Held l'
  unfolding try_op has
  try_op-Held lock_session t l l' ni nj h e = absurd (some-ne-none _ (sym e ∙ (rw h.session refl)))
  try_op-Held unlock_session t l l' ni nj h e =
      absurd (some-ne-none _ (sym e ∙ (rw (h.session, not_same t i (λ e. ni (sym e))) refl)))
  try_op-Held lock_auth t l l' ni nj h e =
      absurd (some-ne-none _ (sym e ∙ (rw h.writer (not_free l t l.readers h.reader))))
  try_op-Held unlock_auth t l l' ni nj h e = absurd (some-ne-none _ (sym e ∙ (rw h.writer refl)))
  try_op-Held share_auth t l l' ni nj h e =
      subst Held (some-injective _ _ ((sym shared) ∙ e))
        record { session = h.session; writer = h.writer; reader = ground (arith, h.reader) }
    where
      shared : try_op share_auth t l ≡ some (record l { readers = t ∷ l.readers })
      shared = rw h.writer refl
  try_op-Held unshare_auth t l l' ni nj h e = elim (Bool-cases (has t l.readers)) [
    | inl has_it ↦
        subst Held (some-injective _ _ (sym (chosen (has t l.readers) has_it _) ∙ e)) record {
          session = h.session;
          writer = h.writer;
          reader = leave-has t l.readers nj h.reader;
        }
    | inr not_it ↦ absurd (some-ne-none _ (sym e ∙ refused (has t l.readers) not_it _))
  ]

  -- Both threads wait: the one that ends a session for the cache, the other for the sessions.
  pub record Waiting (s : System) : Type 0 where
    pub locks : Held s.locks
    pub first : s.threads i ≡ remove_sessions_ops (suc n) ++ unlock_session ∷ []
    pub second : s.threads j ≡ lock_session ∷ unlock_session ∷ unshare_auth ∷ []

  first_op : List Op → Op
  first_op [] = unlock_session
  first_op (op ∷ rest) = op

  -- Neither of the two can go on.
  waits :
      (s s' : Locks) (t u : ℕ) (op op' : Op) (ops rest rest' : List Op)
      → try_op op t s ≡ none
      → ops ≡ op ∷ rest
      → ops ≡ op' ∷ rest'
      → try_op op' t s ≡ some s'
      → t ≢ u
  unfolding first_op
  waits s s' t u op op' ops rest rest' blocked at_op at_op' tried same = absurd (
      some-ne-none _
        (sym tried ∙ ap (λ o. try_op o t s) (ap first_op (sym at_op' ∙ at_op)) ∙ blocked))

  Step-Waiting : (s s' : System) → Waiting s → Step s s' → Waiting s'
  unfolding try_op
  Step-Waiting s _ w (makes t op rest locks at_op tried) = record {
    locks = try_op-Held op t s.locks locks not_first not_second w.locks tried;
    first = rw (not_same i t not_first) w.first;
    second = rw (not_same j t not_second) w.second;
  }
    where
      for_cache : try_op lock_auth t s.locks ≡ none
      for_cache = rw w.locks.writer (not_free s.locks t s.locks.readers w.locks.reader)

      for_sessions : try_op lock_session t s.locks ≡ none
      for_sessions = rw w.locks.session refl

      not_first : i ≢ t
      not_first same =
          waits s.locks locks t t lock_auth op (s.threads i) _ rest for_cache w.first
            (ap s.threads same ∙ at_op) tried refl

      not_second : j ≢ t
      not_second same =
          waits s.locks locks t t lock_session op (s.threads j) _ rest for_sessions w.second
            (ap s.threads same ∙ at_op) tried refl

  Steps-Waiting : (s s' : System) → Waiting s → Steps s s' → Waiting s'
  Steps-Waiting s _ w no_step = w
  Steps-Waiting s s' w (one_step {s' = s1} step steps) =
      Steps-Waiting s1 s' (Step-Waiting s s1 w step) steps

  -- The state after the first operation of each of the two
  abbrev pub after_first : System → System
  after_first s =
      after s i (remove_sessions_ops (suc n) ++ unlock_session ∷ [])
        (record all_free { session = some i })

  abbrev pub after_both : System → System
  after_both s =
      after (after_first s) j (lock_session ∷ unlock_session ∷ unshare_auth ∷ [])
        (record { session = some i; writer = none; readers = j ∷ [] })

  -- If one thread is about to lock the sessions to remove at least one of them that has a key, as
  -- `invalidateSession` does, `getSession` of an expired session, and `newSession` where it finds expired
  -- ones, and another one to decide on a request with a session's key, and no mutex is locked, then the
  -- first operation of each leads to a state from which, whatever the threads do, both wait for ever: in
  -- each state that follows, the first still has to lock the cache, of which the second is a reader, and
  -- the second the sessions, which the first has.
  pub after_both-Waiting :
      (s s' : System)
      → i ≢ j
      → s.locks ≡ all_free
      → s.threads i ≡ under_lock_ops (suc n)
      → s.threads j ≡ is_authorized_ops
      → Steps (after_both s) s'
      → Steps s (after_both s) × Waiting s'
  unfolding try_op has
  after_both-Waiting s s' different free at_i at_j later = (
    one_step (makes i lock_session _ _ at_i begins)
        (one_step (makes j share_auth _ _ other refl) no_step),
    Steps-Waiting (after_both s) s' waiting later,
  )
    where
      begins : try_op lock_session i s.locks ≡ some (record all_free { session = some i })
      begins = rw free refl

      other : (after_first s).threads j ≡ is_authorized_ops
      other = rw (not_same j i (λ e. different (sym e))) at_j

      itself : (t : ℕ) → t == t ≡ true
      itself t = ground arith

      waiting : Waiting (after_both s)
      waiting = record {
        locks = record { session = refl; writer = refl; reader = ground arith };
        first = rw (not_same i j different, itself i) refl;
        second = rw (itself j) refl;
      }
