-- ===== src/Auth/Keys.antt =====
-- src/Auth.cpp: the keys of sessions.
use hs.Prelude.{
  ℕ, ◌≡◌, ◌≢◌, refl, ap, ◌∙◌, Bool, false, Option, none, some, List, [], ◌∷◌, length, bytes_eq,
  bytes_eq_refl, ◌==◌, arith, if◌then◌else◌,
}
use hs.Action.{Action}
use hs.Buckets.{State}
use hs.Auth.{
  AccessKey, session_id, Cache, Rows, insert_key, add_access_key, remove_access_key, get_secret_key,
  secret_of, is_authorized, is_authorized_no_lock, by_key, insert_keys, keep_session, refresh,
}

session_key : List ℕ → AccessKey
session_key secret_key = record { id = session_id; user_id = 0; secret_key = secret_key }

insert_key-kept :
    (n key : List ℕ) (k old : AccessKey) (m : List ℕ → Option AccessKey)
    → m n ≡ some old
    → insert_key key k m n ≡ some old
insert_key-kept n key k old m e = rw (e, insert_key) refl

insert_keys-kept :
    (rows : List (List ℕ × AccessKey)) (n : List ℕ) (old : AccessKey)
    (m : List ℕ → Option AccessKey)
    → m n ≡ some old
    → insert_keys rows m n ≡ some old
unfolding insert_keys
insert_keys-kept [] n old m e = e
insert_keys-kept ((key, k) ∷ rest) n old m e =
    insert_keys-kept rest n old (insert_key key k m) (insert_key-kept n key k old m e)

added_key :
    (s : Cache) (key secret : List ℕ)
    → s.access_keys key ≡ none
    → (add_access_key s key secret).access_keys key ≡ some (session_key secret)
unfolding add_access_key session_key
added_key s key secret fresh = rw (fresh, insert_key, bytes_eq_refl key) refl

otherwise : {b : Bool} → b ≡ false → (x y : Bool) → (if b then x else y) ≡ y
otherwise e x y = rw e refl

-- The caches that come of one by adding keys of other sessions and by reading the database again
pub data Later : Cache → List ℕ → Cache → Type 0 where
  same : {s : Cache} {key : List ℕ} → Later s key s
  added :
      {s s' : Cache} {key : List ℕ} (other secret_key : List ℕ)
      → Later s key s'
      → Later s key (add_access_key s' other secret_key)
  removed :
      {s s' : Cache} {key : List ℕ} (other : List ℕ)
      → bytes_eq key other ≡ false
      → Later s key s'
      → Later s key (remove_access_key s' other)
  refreshed :
      {s s' : Cache} {key : List ℕ} (rows : Rows) → Later s key s' → Later s key (refresh s' rows)

Later-kept :
    (s s' : Cache) (key secret : List ℕ)
    → s.access_keys key ≡ some (session_key secret)
    → Later s key s'
    → s'.access_keys key ≡ some (session_key secret)
unfolding add_access_key remove_access_key refresh session_key
Later-kept s _ key secret e same = e
Later-kept s _ key secret e (added {s'} other secret' later) =
    insert_key-kept key other _ _ s'.access_keys (Later-kept s s' key secret e later)
Later-kept s _ key secret e (removed other different later) =
    rw different (Later-kept s _ key secret e later)
Later-kept s _ key secret e (refreshed {s'} rows later) =
    insert_keys-kept rows.keys key (session_key secret) (λ n. keep_session (s'.access_keys n))
      (ap keep_session (Later-kept s s' key secret e later))

-- The key of a session, which no other key was equal to when it was added, gives its secret as long as
-- it is not removed, whatever other keys are added and removed, however often the cache is read
-- again, and whether or not the key has a session that has not expired. A request with it is decided as
-- one of the session's user, and refused where there is no such session. The key is not empty.
pub get_secret_key-session :
    (s s' : Cache) (key secret resource : List ℕ) (buckets : State) (action : Action)
    (has_session : Bool) (user_id : ℕ)
    → s.access_keys key ≡ none
    → length key ≢ 0
    → Later (add_access_key s key secret) key s'
    → (get_secret_key s' has_session key ≡ secret)
      × (is_authorized s' buckets none resource action key ≡ false)
      × (is_authorized s' buckets (some user_id) resource action key
          ≡ is_authorized_no_lock s' buckets resource action user_id)
unfolding get_secret_key is_authorized session_key
get_secret_key-session s s' key secret resource buckets action has_session user_id fresh some_key
      later =
    (ap (secret_of has_session) kept, decided none, decided (some user_id))
  where
    kept : s'.access_keys key ≡ some (session_key secret)
    kept =
        Later-kept (add_access_key s key secret) s' key secret (added_key s key secret fresh) later

    not_empty : length key == 0 ≡ false
    not_empty = ground (arith, some_key)

    decided :
        (user : Option ℕ)
        → is_authorized s' buckets user resource action key
          ≡ by_key s' buckets user resource action (some (session_key secret))
    decided user = otherwise not_empty _ _ ∙ ap (by_key s' buckets user resource action) kept
