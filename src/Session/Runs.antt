-- ===== src/Session/Runs.antt =====
-- A session, and the theorems about it.
use hs.Prelude.{◌≡◌, refl, false, true, none, some, [], codes, arith}
use hs.Action.{get_object}
use hs.Buckets
use hs.Auth.{Cache, get_secret_key, is_authorized}
use hs.Session.{
  State, SessionStorage, find_session, insert_session, erase_session, assign, new_session, prune,
  remove_session, invalidate_session, get_session, get_session_user_id, given,
}
use hs.Session.Sound.{Points}
use hs.Session.History.{
  start, at_start, and_step, made, got, Reaches-Points, invalidate_session-ends,
}

abbrev no_cache : Cache
no_cache = record { access_keys = λ key. none; users = λ id. none }

abbrev with_one : State
with_one = new_session (start no_cache) (codes "id") (codes "key") (codes "secret") 5 1000 1001

-- It is used after a second.
abbrev used : State
used = (get_session with_one (codes "id") 1000001000).1

abbrev storage : SessionStorage
storage = record { user_id = 5; access_key = codes "key"; used_at = 1000001000; locked = false }

used_there : find_session (codes "id") used.sessions ≡ some storage
unfolding find_session insert_session assign new_session prune get_session
used_there = refl

used_key : used.by_key (codes "key") ≡ some (codes "id")
unfolding find_session insert_session assign new_session prune get_session
used_key = refl

-- After 16 minutes the next call removes it.
removed : find_session (codes "id") (get_session used (codes "id") 961000001000).1.sessions ≡ none
unfolding find_session insert_session assign erase_session new_session prune get_session
    remove_session
removed = refl

not_used : find_session (codes "id") (start no_cache).sessions ≡ none
unfolding find_session
not_used = refl

Reaches-Points_example : Points used (codes "key") (codes "id")
Reaches-Points_example =
    Reaches-Points no_cache used (codes "key") (codes "id")
      (and_step
        (and_step at_start (made (codes "id") (codes "key") (codes "secret") 5 1000 1001 not_used))
        (got (codes "id") 1000001000))
      used_key

invalidate_session-ends_example :
    ((invalidate_session used (codes "id")).0 ≡ given)
    × (find_session (codes "id") (invalidate_session used (codes "id")).1.sessions ≡ none)
    × ((get_session_user_id (invalidate_session used (codes "id")).1 (codes "key") 2000001000).0
        ≡ none)
    × (get_secret_key (invalidate_session used (codes "id")).1.cache true (codes "key") ≡ [])
    × (is_authorized
          (invalidate_session used (codes "id")).1.cache
          Buckets.start
          (some 5)
          (codes "arn:aws:s3:::b")
          get_object
          (codes "key")
        ≡ false)
invalidate_session-ends_example =
    invalidate_session-ends used (codes "id") storage 2000001000 5 true Buckets.start
      (codes "arn:aws:s3:::b") get_object used_there refl (λ e. omega (arith, e))
