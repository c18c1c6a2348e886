-- ===== src/Retention/Extension.antt =====
-- src/s3handler.cpp: the lock before and after `applyRetention`.
use hs.Prelude.{
  ℕ, ◌+◌, ◌%◌, ◌^◌, ◌≡◌, ◌≢◌, refl, sym, ap, ◌∙◌, ◌⊎◌, inl, inr, Bool, true, false, not, ◌&&◌, ◌||◌,
  Option, none, some, ltb, arith, Bool-cases,
}
use hs.Data.Reader.{CrData}
use hs.Metadata.Object.{LockInfo, compliance_mode, retain_until_set, event_hold}
use hs.Retention.{
  Request, eacces, einval, erange, signed_lt, event_hold_duration, read_request, release_until,
  keep_until, after_release, is_restricted, weakens, weakens_lock, change_lock, apply_retention,
}
use hs.Retention.Flags.{has_flag-set}

-- The lock `n` protects, from the time `now` on, no less than the lock `l`: the mode stays, an end
-- in the future is not brought forward, and an event hold goes on with no shorter duration or is
-- released with its whole duration ahead.
pub record Extends (now : ℕ) (l n : LockInfo) : Type 0 where
  pub mode : compliance_mode l ≡ true → compliance_mode n ≡ true
  pub until :
      retain_until_set l ≡ true
      → signed_lt now l.retain_until ≡ true
      → (retain_until_set n ≡ true) × (signed_lt n.retain_until l.retain_until ≡ false)
  pub hold :
      event_hold l ≡ true
      → ((event_hold n ≡ true) × (ltb (event_hold_duration n) (event_hold_duration l) ≡ false))
        ⊎ ((retain_until_set n ≡ true) × (signed_lt n.retain_until (release_until l now) ≡ false))

lt_irrefl : (a : ℕ) → ltb a a ≡ false
lt_irrefl a = ground arith

signed_lt_irrefl : (a : ℕ) → signed_lt a a ≡ false
unfolding signed_lt
signed_lt_irrefl a = lt_irrefl ((a + 2 ^ 63) % 2 ^ 64)

-- After `keep_until`, the end is set and not before `u`.
keep_until-late :
    (u : ℕ) (n : LockInfo)
    → (retain_until_set (keep_until u n) ≡ true)
      × (signed_lt (keep_until u n).retain_until u ≡ false)
unfolding keep_until
keep_until-late u n = elim (Bool-cases (not (retain_until_set n) || signed_lt n.retain_until u)) [
  | inl e ↦ rw (e, has_flag-set) (refl, signed_lt_irrefl u)
  | inr e ↦ rw e (kept (retain_until_set n) (signed_lt n.retain_until u) e)
]
  where
    kept : (a b : Bool) → (not a || b) ≡ false → (a ≡ true) × (b ≡ false)
    kept true b e = (refl, e)
    kept false b e = cc

-- The tests of `weakens`.
not_weakened :
    (a b c d e f g h i : Bool)
    → ((a && not b) || (((c && d) && (not e || f)) || ((g && h) && i))) ≡ false
    → (a ≡ true → b ≡ true)
      × (c ≡ true → d ≡ true → (e ≡ true) × (f ≡ false))
      × (g ≡ true → h ≡ true → i ≡ false)
not_weakened a b c d e f g h i w =
    (ground arith, λ p q. (ground arith, ground arith), λ p q. ground arith)

module _ (l : LockInfo) (now : ℕ) (asked : LockInfo) where
  abbrev changed : LockInfo
  changed = after_release (some l) now asked

  released :
      event_hold l ≡ true
      → event_hold changed ≡ false
      → (retain_until_set changed ≡ true)
        × (signed_lt changed.retain_until (release_until l now) ≡ false)
  unfolding after_release
  released on off = elim (Bool-cases (event_hold asked)) [
    | inl e ↦
        let same : changed ≡ asked = rw (on, e) in
        let off' : event_hold asked ≡ false = ap event_hold (sym same) ∙ off in cc
    | inr e ↦ rw (on, e) (keep_until-late (release_until l now) asked)
  ]

  changed-Extends : weakens l now changed ≡ false → Extends now l changed
  unfolding weakens
  changed-Extends w =
      let (m, u, h) = not_weakened _ _ _ _ _ _ _ _ _ w in
      record {
        mode = m;
        until = u;
        hold = λ on. elim (Bool-cases (event_hold changed)) [
          | inl e ↦ inl (e, h on e)
          | inr e ↦ inr (released on e)
        ];
      }

-- What a restricted change that succeeds does, by the lock that was asked for.
module _ (l : LockInfo) (now : ℕ) (bypass : Bool)
    (restricted : is_restricted (some l) now bypass ≡ true) where
  abbrev asking : Option LockInfo → Request
  asking o = record { now = now; bypass_governance = bypass; new_lock_info = o }

  change_lock-Extends :
      (o : Option LockInfo)
      → (change_lock (some l) (asking o)).0 ≡ 0
      → (n : LockInfo) × ((change_lock (some l) (asking o)).1 ≡ some n) × Extends now l n
  unfolding change_lock weakens_lock
  change_lock-Extends none ok = absurd (refused (rw restricted at ok))
    where
      refused : ¬ (eacces ≡ 0)
      refused e = omega (arith, e)
  change_lock-Extends (some asked) ok =
      let n = changed l now asked in
      elim (Bool-cases (not (retain_until_set n) && not (event_hold n))) [
        | inl e ↦ absurd (unprotected (rw e at ok))
        | inr e ↦ elim (Bool-cases (weakens l now n)) [
          | inl w ↦ absurd (refused (rw (e, restricted, w) at ok))
          | inr w ↦ (n, rw (e, restricted, w), changed-Extends l now asked w)
        ]
      ]
    where
      unprotected : ¬ (erange ≡ 0)
      unprotected e = omega (arith, e)

      refused : ¬ (eacces ≡ 0)
      refused e = omega (arith, e)

apply_read :
    (lock_info : Option LockInfo) (rparam : CrData) (q : Request)
    → (read_request rparam).0 ≡ some q
    → apply_retention lock_info rparam ≡ change_lock lock_info q
unfolding apply_retention
apply_read lock_info rparam q e =
    ap (λ o. elim o [ none ↦ (einval, lock_info) | some q ↦ change_lock lock_info q ]) e

-- If a modification of a lock that is active, and that the request may not bypass, succeeds, then
-- the object has a lock afterwards, and that lock protects it no less.
pub apply_retention-Extends :
    (l : LockInfo) (rparam : CrData) (q : Request)
    → (read_request rparam).0 ≡ some q
    → is_restricted (some l) q.now q.bypass_governance ≡ true
    → (apply_retention (some l) rparam).0 ≡ 0
    → (n : LockInfo) × ((apply_retention (some l) rparam).1 ≡ some n) × Extends q.now l n
apply_retention-Extends l rparam q e restricted ok = rw (apply_read (some l) rparam q e) (
    change_lock-Extends l q.now q.bypass_governance restricted q.new_lock_info
      (rw (apply_read (some l) rparam q e) at ok))

change_lock-refused :
    (lock_info : Option LockInfo) (now : ℕ) (bypass : Bool) (asked : Option LockInfo)
    → (change_lock lock_info
        record { now = now; bypass_governance = bypass; new_lock_info = asked }).0
      ≢ 0
    → (change_lock lock_info
        record { now = now; bypass_governance = bypass; new_lock_info = asked }).1
      ≡ lock_info
unfolding change_lock
change_lock-refused lock_info now bypass none bad =
    elim (Bool-cases (is_restricted lock_info now bypass)) [
      | inl e ↦ rw e
      | inr e ↦ absurd (bad (rw e))
    ]
change_lock-refused lock_info now bypass (some asked) bad =
    let n = after_release lock_info now asked in
    elim (Bool-cases (not (retain_until_set n) && not (event_hold n))) [
      | inl e ↦ rw e
      | inr e ↦
          elim (Bool-cases (is_restricted lock_info now bypass && weakens_lock lock_info now n)) [
            | inl w ↦ rw (e, w)
            | inr w ↦ absurd (bad (rw (e, w)))
          ]
    ]

-- A modification that is refused leaves the lock as it was.
pub apply_retention-refused :
    (lock_info : Option LockInfo) (rparam : CrData)
    → (apply_retention lock_info rparam).0 ≢ 0
    → (apply_retention lock_info rparam).1 ≡ lock_info
unfolding apply_retention
apply_retention-refused lock_info rparam bad = kept (read_request rparam).0 bad
  where
    kept :
        (o : Option Request)
        → (elim o as (λ x. ℕ × Option LockInfo) [
          | none ↦ (einval, lock_info)
          | some q ↦ change_lock lock_info q
        ]).0
          ≢ 0
        → (elim o as (λ x. ℕ × Option LockInfo) [
          | none ↦ (einval, lock_info)
          | some q ↦ change_lock lock_info q
        ]).1
          ≡ lock_info
    kept none bad = refl
    kept (some q) bad = change_lock-refused lock_info q.now q.bypass_governance q.new_lock_info bad
