-- ===== src/Auth/Locks.antt =====
-- src/Auth.cpp and src/Session.cpp: the two mutexes and the order in which the functions lock them. A
-- thread is the list of the operations on them that it has still to make; a lock is released only
-- by the thread that has it, as the scopes of the source do.
pub mod Deadlock
use hs.Prelude.{
  ℕ, zero, suc, Bool, true, false, ◌||◌, Option, none, some, List, [], ◌∷◌, ◌++◌, ◌≡◌, ◌==◌,
  if◌then◌else◌,
}

-- `session` is the mutex of the sessions, `auth` the shared one of the cache.
pub data Op : Type 0 where
  lock_session unlock_session lock_auth unlock_auth share_auth unshare_auth : Op

-- Who has the mutexes
pub record Locks : Type 0 where
  pub session : Option ℕ
  pub writer : Option ℕ
  pub readers : List ℕ

abbrev pub all_free : Locks
all_free = record { session = none; writer = none; readers = [] }

abbrev pub is_owner : ℕ → Option ℕ → Bool
is_owner t none = false
is_owner t (some u) = t == u

unfoldable pub has : ℕ → List ℕ → Bool
has t [] = false
has t (u ∷ us) = (t == u) || has t us

unfoldable pub leave : ℕ → List ℕ → List ℕ
leave t [] = []
leave t (u ∷ us) = let rest = leave t us in if t == u then us else u ∷ rest

-- The operation of a thread; `none` where it has to wait.
unfoldable pub try_op : Op → ℕ → Locks → Option Locks
try_op lock_session t l = elim l.session [
  | none ↦ some (record l { session = some t })
  | some u ↦ none
]
try_op unlock_session t l =
    if is_owner t l.session then some (record l { session = none }) else none
try_op lock_auth t l = elim l.writer [
  | none ↦ elim l.readers [ [] ↦ some (record l { writer = some t }) | u ∷ us ↦ none ]
  | some u ↦ none
]
try_op unlock_auth t l = if is_owner t l.writer then some (record l { writer = none }) else none
try_op share_auth t l = elim l.writer [
  | none ↦ some (record l { readers = t ∷ l.readers })
  | some u ↦ none
]
try_op unshare_auth t l =
    if has t l.readers then some (record l { readers = leave t l.readers }) else none

pub record System : Type 0 where
  pub locks : Locks
  pub threads : ℕ → List Op

abbrev pub after : System → ℕ → List Op → Locks → System
after s t rest locks = record { locks = locks; threads = λ u. if u == t then rest else s.threads u }

-- A thread makes its next operation.
pub data Step : System → System → Type 0 where
  makes :
      {s : System} (t : ℕ) (op : Op) (rest : List Op) (locks : Locks)
      → s.threads t ≡ op ∷ rest
      → try_op op t s.locks ≡ some locks
      → Step s (after s t rest locks)

pub data Steps : System → System → Type 0 where
  no_step : {s : System} → Steps s s
  one_step : {s s' s'' : System} → Step s s' → Steps s' s'' → Steps s s''

-- `removeSession` by a caller that has the mutex of the sessions, for so many sessions that have a key;
-- for the others it locks nothing.
abbrev pub remove_sessions_ops : ℕ → List Op
remove_sessions_ops zero = []
remove_sessions_ops (suc n) = lock_auth ∷ unlock_auth ∷ remove_sessions_ops n

-- What removes so many sessions that have a key under the mutex of the sessions
abbrev pub under_lock_ops : ℕ → List Op
under_lock_ops removed = lock_session ∷ (remove_sessions_ops removed ++ unlock_session ∷ [])

-- `newSession`, with the sessions with a key that it finds expired; `getSession` of an expired session
-- and `invalidateSession` of one that is there, if it has a key
abbrev pub new_session_ops : ℕ → List Op
new_session_ops expired = lock_auth ∷ unlock_auth ∷ under_lock_ops expired

abbrev pub end_session_ops : List Op
end_session_ops = under_lock_ops 1

-- `isAuthorized` of the key of a session
abbrev pub is_authorized_ops : List Op
is_authorized_ops = share_auth ∷ lock_session ∷ unlock_session ∷ unshare_auth ∷ []
