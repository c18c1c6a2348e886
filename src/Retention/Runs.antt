-- ===== src/Retention/Runs.antt =====
-- Requests as bytes, and the theorems about locks at concrete inputs.
use hs.Prelude.{◌≡◌, ◌≢◌, refl, ap, ◌∙◌, sym, true, none, some, [], ◌∷◌, arith}
use mathlib.Core.Option.{some-injective}
use hs.Data.Varint.{get_varint}
use hs.Data.Reader.{CrData, of_string, set_data, get_var_int, get_char}
use hs.Metadata.Object.{LockInfo}
use hs.Retention.{
  Request, signed_lt, event_hold_duration, is_active, read_request, read_new_lock, after_release,
  is_restricted, weakens, weakens_lock, change_lock, apply_retention, apply_all, eacces,
}
use hs.Retention.Extension.{Extends, apply_retention-Extends}
use hs.Retention.History.{Locked, AllBefore, none_left, one_more, apply_all-Locked}

-- Compliance mode until the time 100
abbrev until_100 : LockInfo
until_100 = record {
  flags = 3;
  retain_until = 100;
  event_duration_days = 0;
  event_duration_years = 0;
}

-- At the time 50 and with the bypass: no lock, and the same mode until the time 120.
abbrev remove : CrData
remove = of_string (50 ∷ 1 ∷ 0 ∷ [])

abbrev extend : CrData
extend = of_string (50 ∷ 1 ∷ 1 ∷ 3 ∷ 120 ∷ 0 ∷ 0 ∷ [])

abbrev removing : Request
removing = record { now = 50; bypass_governance = true; new_lock_info = none }

abbrev extending : Request
extending = record {
  now = 50;
  bypass_governance = true;
  new_lock_info =
      some
        record { flags = 3; retain_until = 120; event_duration_days = 0; event_duration_years = 0 };
}

read_remove : (read_request remove).0 ≡ some removing
unfolding read_request get_var_int get_char get_varint of_string set_data
read_remove = refl

read_extend : (read_request extend).0 ≡ some extending
unfolding read_request read_new_lock get_var_int get_char get_varint of_string set_data
read_extend = refl

removed : apply_retention (some until_100) remove ≡ (eacces, some until_100)
unfolding apply_retention change_lock is_restricted is_active signed_lt read_request get_var_int
    get_char get_varint of_string set_data
removed = refl

extended : (apply_retention (some until_100) extend).0 ≡ 0
unfolding apply_retention change_lock is_restricted is_active signed_lt read_request read_new_lock
    get_var_int get_char get_varint of_string set_data weakens_lock weakens after_release
    event_hold_duration
extended = refl

extend-restricted : is_restricted (some until_100) 50 true ≡ true
unfolding is_restricted is_active signed_lt
extend-restricted = refl

apply_retention-Extends_example :
    (n : LockInfo) × ((apply_retention (some until_100) extend).1 ≡ some n) × Extends 50 until_100 n
apply_retention-Extends_example =
    apply_retention-Extends until_100 extend extending read_extend extend-restricted extended

denied : (apply_retention (some until_100) remove).0 ≢ 0
denied ok = nonzero (sym (ap (λ p. p.0) removed) ∙ ok)
  where
    nonzero : ¬ (eacces ≡ 0)
    nonzero e = omega (arith, e)

until_100-Locked : Locked 90 until_100
unfolding signed_lt
until_100-Locked = record { mode = refl; set = refl; late = refl }

at_50 : signed_lt 50 90 ≡ true
unfolding signed_lt
at_50 = refl

both_before : AllBefore 90 (remove ∷ extend ∷ [])
both_before =
    one_more (early remove removing read_remove at_50)
      (one_more (early extend extending read_extend at_50) none_left)
  where
    early :
        (r : CrData) (p : Request)
        → (read_request r).0 ≡ some p
        → signed_lt p.now 90 ≡ true
        → (q : Request) → (read_request r).0 ≡ some q
        → signed_lt q.now 90 ≡ true
    early r p e before q e' = rw (some-injective _ _ (sym e ∙ e')) at before

apply_all-Locked_example :
    (n : LockInfo) × (apply_all (some until_100) (remove ∷ extend ∷ []) ≡ some n) × Locked 90 n
apply_all-Locked_example =
    apply_all-Locked 90 (remove ∷ extend ∷ []) until_100 until_100-Locked both_before
