-- ===== src/Retention/History.antt =====
-- src/s3handler.cpp: `applyRetention` over sequences of modifications, for locks in compliance mode.
use hs.Prelude.{
  ℕ, ◌≡◌, ◌≢◌, refl, sym, ap, ◌∙◌, inl, inr, Bool, true, false, ◌&&◌, ◌||◌, Option, none, some,
  List, [], ◌∷◌, ltb, arith, Option-cases,
}
use native.Mathlib.Decide.{ℕ_discrete}
use hs.Data.Reader.{CrData}
use hs.Metadata.Object.{LockInfo, compliance_mode, retain_until_set, event_hold}
use hs.Retention.{
  Request, signed_lt, is_active, read_request, is_restricted, einval, change_lock, apply_retention,
  apply_all,
}
use hs.Retention.Extension.{Extends, apply_retention-Extends, apply_retention-refused}

-- Compliance mode, with an end that is not before `u`.
pub record Locked (u : ℕ) (l : LockInfo) : Type 0 where
  pub mode : compliance_mode l ≡ true
  pub set : retain_until_set l ≡ true
  pub late : signed_lt l.retain_until u ≡ false

-- Every modification of the list that can be read has a time before `u`.
pub data AllBefore (u : ℕ) : List CrData → Type 0 where
  none_left : AllBefore u []
  one_more :
      {rparam : CrData} {params : List CrData}
      → ((q : Request) → (read_request rparam).0 ≡ some q → signed_lt q.now u ≡ true)
      → AllBefore u params
      → AllBefore u (rparam ∷ params)

before_late : (a b c : ℕ) → signed_lt a c ≡ true → signed_lt b c ≡ false → signed_lt a b ≡ true
unfolding signed_lt
before_late a b c p q = order _ _ _ p q
  where
    order : (a b c : ℕ) → ltb a c ≡ true → ltb b c ≡ false → ltb a b ≡ true
    order a b c p q = ground arith

late_trans : (a b c : ℕ) → signed_lt a b ≡ false → signed_lt b c ≡ false → signed_lt a c ≡ false
unfolding signed_lt
late_trans a b c p q = order _ _ _ p q
  where
    order : (a b c : ℕ) → ltb a b ≡ false → ltb b c ≡ false → ltb a c ≡ false
    order a b c p q = ground arith

-- Until `u`, such a lock is active, and no request may bypass it.
Locked-restricted :
    (u now : ℕ) (bypass : Bool) (l : LockInfo)
    → Locked u l
    → signed_lt now u ≡ true
    → is_restricted (some l) now bypass ≡ true
unfolding is_restricted is_active
Locked-restricted u now bypass l k before =
    rw (k.mode, k.set, before_late now l.retain_until u before k.late) (always (event_hold l))
  where
    always : (b : Bool) → ((b || true) && true) ≡ true
    always true = refl
    always false = refl

Extends-Locked :
    (u now : ℕ) (l n : LockInfo)
    → Locked u l
    → signed_lt now u ≡ true
    → Extends now l n
    → Locked u n
Extends-Locked u now l n k before e =
    let (set, late) = e.until k.set (before_late now l.retain_until u before k.late) in
    record {
      mode = e.mode k.mode;
      set = set;
      late = late_trans n.retain_until l.retain_until u late k.late;
    }

module _ (u : ℕ) (l : LockInfo) (k : Locked u l) (rparam : CrData) where
  abbrev StillLocked : Type 0
  StillLocked = (n : LockInfo) × ((apply_retention (some l) rparam).1 ≡ some n) × Locked u n

  apply_retention-Locked :
      ((q : Request) → (read_request rparam).0 ≡ some q → signed_lt q.now u ≡ true) → StillLocked
  unfolding apply_retention
  apply_retention-Locked before = elim (Option-cases (read_request rparam).0) [
    | inl unread ↦ (l, apply_retention-refused (some l) rparam (not_ok unread), k)
    | inr (q, e) ↦ elim (ℕ_discrete (apply_retention (some l) rparam).0 0) [
      | yes ok ↦
          let (n, same, ext) =
            apply_retention-Extends l rparam q e
              (Locked-restricted u q.now q.bypass_governance l k (before q e)) ok in
          (n, same, Extends-Locked u q.now l n k (before q e) ext)
      | no bad ↦ (l, apply_retention-refused (some l) rparam bad, k)
    ]
  ]
    where
      not_ok : (read_request rparam).0 ≡ none → (apply_retention (some l) rparam).0 ≢ 0
      not_ok unread ok = unequal (rc unread ok)
        where
          unequal : ¬ (einval ≡ 0)
          unequal e = omega (arith, e)

          rc : (read_request rparam).0 ≡ none → (apply_retention (some l) rparam).0 ≡ 0 → einval ≡ 0
          rc unread ok =
              sym (
                ap
                  (λ o.
                    (elim o as (λ x. ℕ × Option LockInfo) [
                      | none ↦ (einval, some l)
                      | some q ↦ change_lock (some l) q
                    ]).0)
                  unread)
              ∙ ok

-- An object that is locked in compliance mode until `u` or later is so after any sequence of
-- modifications that are made before `u`, whatever they ask for and whoever may bypass governance.
pub apply_all-Locked :
    (u : ℕ) (params : List CrData) (l : LockInfo)
    → Locked u l
    → AllBefore u params
    → (n : LockInfo) × (apply_all (some l) params ≡ some n) × Locked u n
unfolding apply_all
apply_all-Locked u [] l k none_left = (l, refl, k)
apply_all-Locked u (rparam ∷ params) l k (one_more before rest) =
    let (n, same, k') = apply_retention-Locked u l k rparam before in
    let (m, e, k'') = apply_all-Locked u params n k' rest in
    (m, ap (λ o. apply_all o params) same ∙ e, k'')
