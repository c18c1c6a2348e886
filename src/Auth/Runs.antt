-- ===== src/Auth/Runs.antt =====
-- A user with two policies, a session, and two threads, with the theorems about them.
use hs.Prelude.{
  ℕ, ◌≡◌, refl, true, false, not, ◌&&◌, ◌||◌, none, some, List, [], ◌∷◌, codes, if◌then◌else◌, ◌==◌,
  arith,
}
use hs.Action.{get_object}
use hs.Policy.{deny, allow}
use hs.Buckets.{start}
use hs.Auth.{
  Cache, Rows, Role, add_access_key, get_secret_key, is_authorized, is_authorized_no_lock,
  is_public, bucket_info, is_negative_id, refresh,
}
use hs.Auth.Decision.{user_may, is_authorized_no_lock_lem}
use hs.Auth.Keys.{same, added, refreshed, get_secret_key-session}
use hs.Auth.Locks.{System, all_free, end_session_ops, is_authorized_ops, Steps, no_step}
use hs.Auth.Locks.Deadlock.{Waiting, after_both, after_both-Waiting}

abbrev resource : List ℕ
resource = codes "arn:aws:s3:::b/k"

-- All may be read, and the object may not be.
abbrev some_role : Role
some_role = record {
  policies =
      (record { sid = []; effect = allow; actions = get_object ∷ []; resources = codes "*" ∷ [] }
        ∷ [])
      ∷ (record { sid = []; effect = deny; actions = get_object ∷ []; resources = resource ∷ [] }
          ∷ [])
      ∷ [];
}

abbrev cache : Cache
cache = record {
  access_keys = λ key. none;
  users = λ id.
      if id == 5
      then some (record { roles = some_role ∷ []; bucket_permissions = λ bucket. none })
      else none;
}

is_authorized_no_lock_lem_example : is_authorized_no_lock cache start resource get_object 5 ≡ (
    is_public (bucket_info start resource) get_object
    || (not (is_negative_id 5)
        && user_may get_object resource (bucket_info start resource) (cache.users 5)))
is_authorized_no_lock_lem_example = is_authorized_no_lock_lem get_object resource cache start 5

abbrev rows : Rows
rows = record { keys = []; policies = []; roles = []; users = [] }

abbrev later_cache : Cache
later_cache =
    refresh (add_access_key (add_access_key cache (codes "k") (codes "s")) (codes "l") (codes "t"))
      rows

get_secret_key-session_example :
    (get_secret_key later_cache true (codes "k") ≡ codes "s")
    × (is_authorized later_cache start none resource get_object (codes "k") ≡ false)
    × (is_authorized later_cache start (some 5) resource get_object (codes "k")
        ≡ is_authorized_no_lock later_cache start resource get_object 5)
get_secret_key-session_example =
    get_secret_key-session cache later_cache (codes "k") (codes "s") resource start get_object true
      5 refl (λ e. omega (arith, e)) (refreshed rows (added (codes "l") (codes "t") same))

abbrev system : System
system = record {
  locks = all_free;
  threads = λ t. if t == 0 then end_session_ops else if t == 1 then is_authorized_ops else [];
}

after_both-Waiting_example :
    Steps system (after_both 0 1 0 system) × Waiting 0 1 0 (after_both 0 1 0 system)
after_both-Waiting_example =
    after_both-Waiting 0 1 0 system (after_both 0 1 0 system) (λ e. omega (arith, e)) refl refl refl
      no_step
