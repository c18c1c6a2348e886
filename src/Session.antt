-- ===== src/Session.antt =====
-- src/Session.cpp and src/Session.h: the sessions, with the cache of access keys that they change. The map
-- is a list of its pairs, and an iterator into it the identifier of the session; `now` is what the
-- clock says, in nanoseconds. A caller that has to wait is told so; it then calls again.
pub mod Sound
pub mod History
mod Runs
use hs.Prelude.{
  ℕ, ◌-◌, ◌*◌, ◌^◌, Bool, true, false, not, ◌&&◌, Option, none, some, List, [], ◌∷◌, ◌++◌, map,
  length, ltb, ◌==◌, bytes_eq, if◌then◌else◌,
}
use hs.Auth.{Cache, add_access_key, remove_access_key}

-- `SessionStorage`
pub record SessionStorage : Type 0 where
  pub user_id : ℕ
  pub access_key : List ℕ
  pub used_at : ℕ
  pub locked : Bool

-- `sessionData` and `accessKeyToSession`, with the cache of src/Auth.cpp
pub record State : Type 0 where
  pub sessions : List (List ℕ × SessionStorage)
  pub by_key : List ℕ → Option (List ℕ)
  pub cache : Cache

abbrev pub timeout : ℕ
timeout = 15 * 60 * 10 ^ 9

abbrev pub is_expired : ℕ → SessionStorage → Bool
is_expired now st = ltb timeout (now - st.used_at)

-- `find`, `insert`, `erase` and the assignment to what an iterator points to
unfoldable pub find_session : List ℕ → List (List ℕ × SessionStorage) → Option SessionStorage
find_session id [] = none
find_session id ((i, st) ∷ rest) = if bytes_eq i id then some st else find_session id rest

unfoldable pub insert_session :
    List ℕ → SessionStorage → List (List ℕ × SessionStorage) → List (List ℕ × SessionStorage)
insert_session id st [] = (id, st) ∷ []
insert_session id st ((i, old) ∷ rest) =
    let later = insert_session id st rest in
    if bytes_eq i id then (i, old) ∷ rest else (i, old) ∷ later

unfoldable pub erase_session :
    List ℕ → List (List ℕ × SessionStorage) → List (List ℕ × SessionStorage)
erase_session id [] = []
erase_session id ((i, st) ∷ rest) =
    let later = erase_session id rest in if bytes_eq i id then later else (i, st) ∷ later

unfoldable pub assign :
    List ℕ → SessionStorage → List (List ℕ × SessionStorage) → List (List ℕ × SessionStorage)
assign id st [] = []
assign id st ((i, old) ∷ rest) =
    let later = assign id st rest in if bytes_eq i id then (i, st) ∷ later else (i, old) ∷ later

-- `removeSession`
unfoldable pub remove_session : State → List ℕ → SessionStorage → State
remove_session s id st = record {
  sessions = erase_session id s.sessions;
  by_key = λ k. if bytes_eq k st.access_key then none else s.by_key k;
  cache = if length st.access_key == 0 then s.cache else remove_access_key s.cache st.access_key;
}

-- The loop of `newSession` over these sessions, each as it is when the loop comes to it
abbrev pub prune_one : State → ℕ → List ℕ → Option SessionStorage → State
prune_one s now id none = s
prune_one s now id (some st) =
    if not st.locked && is_expired now st then remove_session s id st else s

unfoldable pub prune : State → ℕ → List (List ℕ) → State
prune s now [] = s
prune s now (id ∷ ids) = prune (prune_one s now id (find_session id s.sessions)) now ids

abbrev pub ids_of : List (List ℕ × SessionStorage) → List (List ℕ)
ids_of [] = []
ids_of ((id, st) ∷ rest) = id ∷ ids_of rest

-- `newSession`, of which `id` is both parts of the identifier
abbrev pub with_session : State → List ℕ → List ℕ → List ℕ → ℕ → ℕ → State
with_session s id access_key secret_access_key user_id now = record {
  sessions =
      insert_session id
        (record { user_id = user_id; access_key = access_key; used_at = now; locked = false })
        s.sessions;
  by_key = λ k. if bytes_eq k access_key then some id else s.by_key k;
  cache = add_access_key s.cache access_key secret_access_key;
}

unfoldable pub new_session : State → List ℕ → List ℕ → List ℕ → ℕ → ℕ → ℕ → State
new_session s id access_key secret_access_key user_id made_at now =
    let s' = with_session s id access_key secret_access_key user_id made_at in
    prune s' now (ids_of s'.sessions)

-- What `getSession` and `invalidateSession` come to
pub data Answer : Type 0 where
  given : Answer
  nothing : Answer
  waits : Answer

abbrev pub set_storage : State → List ℕ → SessionStorage → State
set_storage s id st = record s { sessions = assign id st s.sessions }

-- `getSession`: the tests behind the wait, and the first call, which waits for a locked session
abbrev pub get_found : State → List ℕ → ℕ → Option SessionStorage → Answer × State
get_found s id now none = (nothing, s)
get_found s id now (some st) =
    if is_expired now st
    then (nothing, remove_session s id st)
    else if not st.locked
    then (given, set_storage s id (record st { used_at = now }))
    else (waits, s)

unfoldable pub get_woken : State → List ℕ → ℕ → Answer × State
get_woken s id now = get_found s id now (find_session id s.sessions)

abbrev pub get_first : State → List ℕ → ℕ → Option SessionStorage → Answer × State
get_first s id now none = (nothing, s)
get_first s id now (some st) = if st.locked then (waits, s) else get_found s id now (some st)

unfoldable pub get_session : State → List ℕ → ℕ → Answer × State
get_session s id now = get_first s id now (find_session id s.sessions)

-- `invalidateSession`: true is `given`. The first call knows no session that is not there.
abbrev pub end_found : State → List ℕ → Answer → Option SessionStorage → Answer × State
end_found s id missing none = (missing, s)
end_found s id missing (some st) = if st.locked then (waits, s) else (given, remove_session s id st)

unfoldable pub end_woken : State → List ℕ → Answer × State
end_woken s id = end_found s id given (find_session id s.sessions)

unfoldable pub invalidate_session : State → List ℕ → Answer × State
invalidate_session s id = end_found s id nothing (find_session id s.sessions)

-- `unlockSession`, of the storage of a session
abbrev pub unlock_found : State → List ℕ → Option SessionStorage → State
unlock_found s id none = s
unlock_found s id (some st) = set_storage s id (record st { locked = false })

unfoldable pub unlock_session : State → List ℕ → State
unlock_session s id = unlock_found s id (find_session id s.sessions)

-- `getSessionStorage`. An iterator into the map that is no longer valid gives nothing here.
abbrev pub storage_found :
    State → List ℕ → ℕ → Option SessionStorage → Option SessionStorage × State
storage_found s id now none = (none, s)
storage_found s id now (some st) =
    if is_expired now st
    then (none, s)
    else (some (record st { used_at = now }), set_storage s id (record st { used_at = now }))

abbrev pub storage_at : State → ℕ → Option (List ℕ) → Option SessionStorage × State
storage_at s now none = (none, s)
storage_at s now (some id) = storage_found s id now (find_session id s.sessions)

unfoldable pub get_session_storage : State → List ℕ → ℕ → Option SessionStorage × State
get_session_storage s access_key now = storage_at s now (s.by_key access_key)

-- `hasSession` and `getSessionUserId`
abbrev pub is_there : Option SessionStorage → Bool
is_there none = false
is_there (some st) = true

abbrev pub user_of : Option SessionStorage → Option ℕ
user_of none = none
user_of (some st) = some st.user_id

unfoldable pub has_session : State → List ℕ → ℕ → Bool × State
has_session s access_key now =
    let (st, s') = get_session_storage s access_key now in (is_there st, s')

unfoldable pub get_session_user_id : State → List ℕ → ℕ → Option ℕ × State
get_session_user_id s access_key now =
    let (st, s') = get_session_storage s access_key now in (user_of st, s')
