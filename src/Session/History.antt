-- ===== src/Session/History.antt =====
-- src/Session.cpp: the sessions over sequences of calls, and what is left of one that has ended.
use hs.Prelude.{
  ℕ, ◌≡◌, ◌≢◌, refl, Bool, true, false, not, ◌&&◌, Option, none, some, List, [], ◌∷◌, length, ◌==◌,
  bytes_eq_refl, if◌then◌else◌, arith,
}
use hs.Action.{Action}
use hs.Buckets
use hs.Auth.{Cache, remove_access_key, get_secret_key, is_authorized}
use hs.Session.{
  SessionStorage, State, is_expired, find_session, remove_session, prune_one, prune, ids_of,
  with_session, new_session, Answer, given, nothing, waits, set_storage, get_found, get_woken,
  get_first, get_session, end_found, end_woken, invalidate_session, unlock_found, unlock_session,
  storage_found, storage_at, get_session_storage, get_session_user_id,
}
use hs.Session.Sound.{
  IsSound, Points, remove_session-IsSound, set_storage-IsSound, with_session-IsSound,
  find_session-erase_self,
}

-- A call, or a change of the cache by others. A new session has an identifier that is not in use.
pub data Step : State → State → Type 0 where
  made :
      {s : State} (id access_key secret_access_key : List ℕ) (user_id made_at now : ℕ)
      → find_session id s.sessions ≡ none
      → Step s (new_session s id access_key secret_access_key user_id made_at now)
  got : {s : State} (id : List ℕ) (now : ℕ) → Step s (get_session s id now).1
  woken : {s : State} (id : List ℕ) (now : ℕ) → Step s (get_woken s id now).1
  ended : {s : State} (id : List ℕ) → Step s (invalidate_session s id).1
  woken_to_end : {s : State} (id : List ℕ) → Step s (end_woken s id).1
  unlocked : {s : State} (id : List ℕ) → Step s (unlock_session s id)
  looked_up :
      {s : State} (access_key : List ℕ) (now : ℕ) → Step s (get_session_storage s access_key now).1
  cache_changed : {s : State} (cache : Cache) → Step s (record s { cache = cache })

pub data Reaches : State → State → Type 0 where
  at_start : {s : State} → Reaches s s
  and_step : {s s' s'' : State} → Reaches s s' → Step s' s'' → Reaches s s''

abbrev pub start : Cache → State
start cache = record { sessions = []; by_key = λ key. none; cache = cache }

-- One of two states
either :
    {A : Type 0} (b : Bool) (s t : A × State)
    → IsSound s.1
    → IsSound t.1
    → IsSound (if b then s else t).1
either true s t hs ht = hs
either false s t hs ht = ht

either_state : (b : Bool) (s t : State) → IsSound s → IsSound t → IsSound (if b then s else t)
either_state true s t hs ht = hs
either_state false s t hs ht = ht

module _ (s : State) (sound : IsSound s) where
  get_found-IsSound :
      (id : List ℕ) (now : ℕ) (o : Option SessionStorage)
      → find_session id s.sessions ≡ o
      → IsSound (get_found s id now o).1
  get_found-IsSound id now none e = sound
  get_found-IsSound id now (some st) e =
      either (is_expired now st) (nothing, remove_session s id st) _
        (remove_session-IsSound s sound id st e)
        (either (not st.locked) (given, set_storage s id (record st { used_at = now })) (waits, s)
          (set_storage-IsSound s sound id st (record st { used_at = now }) e refl) sound)

  get_first-IsSound :
      (id : List ℕ) (now : ℕ) (o : Option SessionStorage)
      → find_session id s.sessions ≡ o
      → IsSound (get_first s id now o).1
  get_first-IsSound id now none e = sound
  get_first-IsSound id now (some st) e =
      either st.locked (waits, s) (get_found s id now (some st)) sound
        (get_found-IsSound id now (some st) e)

  end_found-IsSound :
      (id : List ℕ) (missing : Answer) (o : Option SessionStorage)
      → find_session id s.sessions ≡ o
      → IsSound (end_found s id missing o).1
  end_found-IsSound id missing none e = sound
  end_found-IsSound id missing (some st) e =
      either st.locked (waits, s) (given, remove_session s id st) sound
        (remove_session-IsSound s sound id st e)

  unlock_found-IsSound :
      (id : List ℕ) (o : Option SessionStorage)
      → find_session id s.sessions ≡ o
      → IsSound (unlock_found s id o)
  unlock_found-IsSound id none e = sound
  unlock_found-IsSound id (some st) e =
      set_storage-IsSound s sound id st (record st { locked = false }) e refl

  storage_found-IsSound :
      (id : List ℕ) (now : ℕ) (o : Option SessionStorage)
      → find_session id s.sessions ≡ o
      → IsSound (storage_found s id now o).1
  storage_found-IsSound id now none e = sound
  storage_found-IsSound id now (some st) e =
      either (is_expired now st) (none, s)
        (some (record st { used_at = now }), set_storage s id (record st { used_at = now })) sound
        (set_storage-IsSound s sound id st (record st { used_at = now }) e refl)

  storage_at-IsSound : (now : ℕ) (o : Option (List ℕ)) → IsSound (storage_at s now o).1
  storage_at-IsSound now none = sound
  storage_at-IsSound now (some id) = storage_found-IsSound id now (find_session id s.sessions) refl

  prune_one-IsSound :
      (now : ℕ) (id : List ℕ) (o : Option SessionStorage)
      → find_session id s.sessions ≡ o
      → IsSound (prune_one s now id o)
  prune_one-IsSound now id none e = sound
  prune_one-IsSound now id (some st) e =
      either_state (not st.locked && is_expired now st) (remove_session s id st) s
        (remove_session-IsSound s sound id st e) sound

prune-IsSound : (s : State) (now : ℕ) (ids : List (List ℕ)) → IsSound s → IsSound (prune s now ids)
unfolding prune
prune-IsSound s now [] sound = sound
prune-IsSound s now (id ∷ ids) sound =
    prune-IsSound (prune_one s now id (find_session id s.sessions)) now ids
      (prune_one-IsSound s sound now id (find_session id s.sessions) refl)

Step-IsSound : (s s' : State) → IsSound s → Step s s' → IsSound s'
unfolding new_session get_session get_woken invalidate_session end_woken unlock_session
    get_session_storage
Step-IsSound s _ sound (made id access_key secret_access_key user_id made_at now fresh) =
    prune-IsSound _ now
      (ids_of (with_session s id access_key secret_access_key user_id made_at).sessions)
      (with_session-IsSound s sound id access_key secret_access_key user_id made_at fresh)
Step-IsSound s _ sound (got id now) =
    get_first-IsSound s sound id now (find_session id s.sessions) refl
Step-IsSound s _ sound (woken id now) =
    get_found-IsSound s sound id now (find_session id s.sessions) refl
Step-IsSound s _ sound (ended id) =
    end_found-IsSound s sound id nothing (find_session id s.sessions) refl
Step-IsSound s _ sound (woken_to_end id) =
    end_found-IsSound s sound id given (find_session id s.sessions) refl
Step-IsSound s _ sound (unlocked id) =
    unlock_found-IsSound s sound id (find_session id s.sessions) refl
Step-IsSound s _ sound (looked_up access_key now) =
    storage_at-IsSound s sound now (s.by_key access_key)
Step-IsSound s _ sound (cache_changed cache) = λ key id e.
    let p = sound key id e in record { storage = p.storage; there = p.there; its_key = p.its_key }

Reaches-IsSound : (s s' : State) → IsSound s → Reaches s s' → IsSound s'
Reaches-IsSound s _ sound at_start = sound
Reaches-IsSound s s'' sound (and_step {s' = s'} before step) =
    Step-IsSound s' s'' (Reaches-IsSound s s' sound before) step

start-IsSound : (cache : Cache) → IsSound (start cache)
start-IsSound cache key id e = cc

-- After any sequence of calls from the start, among changes of the cache by others, each entry of
-- `accessKeyToSession` is for a session that is there and that has the key of the entry, if a session is
-- only made with an identifier that is not in use.
pub Reaches-Points :
    (cache : Cache) (s : State) (key id : List ℕ)
    → Reaches (start cache) s
    → s.by_key key ≡ some id
    → Points s key id
Reaches-Points cache s key id before =
    Reaches-IsSound (start cache) s (start-IsSound cache) before key id

-- A session that is there, and that nobody has locked, is ended by `invalidateSession`: it is gone, its
-- key has no session and no secret any more, and no request with it is authorized. The key is not empty.
pub invalidate_session-ends :
    (s : State) (id : List ℕ) (st : SessionStorage) (now user_id : ℕ) (has_one : Bool)
    (buckets : Buckets.State) (resource : List ℕ) (action : Action)
    → find_session id s.sessions ≡ some st
    → st.locked ≡ false
    → length st.access_key ≢ 0
    → ((invalidate_session s id).0 ≡ given)
      × (find_session id (invalidate_session s id).1.sessions ≡ none)
      × ((get_session_user_id (invalidate_session s id).1 st.access_key now).0 ≡ none)
      × (get_secret_key (invalidate_session s id).1.cache has_one st.access_key ≡ [])
      × (is_authorized
            (invalidate_session s id).1.cache
            buckets
            (some user_id)
            resource
            action
            st.access_key
          ≡ false)
unfolding invalidate_session remove_session get_session_user_id get_session_storage get_secret_key
    is_authorized remove_access_key
invalidate_session-ends s id st now user_id has_one buckets resource action there free some_key =
    rw (there, free, not_empty, bytes_eq_refl st.access_key)
      (refl, find_session-erase_self id s.sessions, refl, refl, refl)
  where
    not_empty : length st.access_key == 0 ≡ false
    not_empty = ground (arith, some_key)
