-- ===== src/Retention.antt =====
-- Object lock, src/s3handler.cpp and src/ObjMetadata.h: `applyRetention`, which changes the lock of
-- an object, and whether a lock is active. Times are the bit patterns of whole seconds.
pub mod Flags
pub mod Extension
pub mod History
mod Runs
use hs.Prelude.{
  ℕ, ◌+◌, ◌-◌, ◌*◌, ◌%◌, ◌^◌, Bool, true, false, not, ◌&&◌, ◌||◌, Option, none, some, List, [], ◌∷◌,
  ◌==◌, ltb, if◌then◌else◌, bit_or,
}
use hs.Data.Reader.{CrData, ◌>>=◌, give, get_char, get_var_int}
use hs.Metadata.Object.{
  LockInfo, no_lock, retain_until_flag, compliance_mode, retain_until_set, event_hold,
}

-- `a < b` for an `int64_t`
unfoldable pub signed_lt : ℕ → ℕ → Bool
signed_lt a b = ltb ((a + 2 ^ 63) % 2 ^ 64) ((b + 2 ^ 63) % 2 ^ 64)

-- `eventHoldDuration`: a day has 86400 seconds, and a year of `std::chrono` has 31556952.
unfoldable pub event_hold_duration : LockInfo → ℕ
event_hold_duration l = (l.event_duration_days * 86400 + l.event_duration_years * 31556952) % 2 ^ 64

-- `isActive`
unfoldable pub is_active : LockInfo → ℕ → Bool
is_active l now = event_hold l || (retain_until_set l && signed_lt now l.retain_until)

-- The error codes EACCES, EINVAL and ERANGE
abbrev pub eacces : ℕ
eacces = 13

abbrev pub einval : ℕ
einval = 22

abbrev pub erange : ℕ
erange = 34

-- What the parameter of a modification holds: the time, the bypass and the new lock.
pub record Request : Type 0 where
  pub now : ℕ
  pub bypass_governance : Bool
  pub new_lock_info : Option LockInfo

unfoldable pub read_new_lock : CrData → Option LockInfo × CrData
read_new_lock = do
  flags ← get_var_int
  retain_until_sec ← get_var_int
  days ← get_var_int
  years ← get_var_int
  give record {
    flags = flags % 2 ^ 32;
    retain_until = retain_until_sec;
    event_duration_days = days % 2 ^ 32;
    event_duration_years = years % 2 ^ 16;
  }

unfoldable pub read_request : CrData → Option Request × CrData
read_request = do
  now_sec ← get_var_int
  bypass ← get_char
  has_lock_info ← get_char
  if has_lock_info == 0
      then give
          (record { now = now_sec; bypass_governance = not (bypass == 0); new_lock_info = none })
      else (do
        l ← read_new_lock
        give
            record { now = now_sec; bypass_governance = not (bypass == 0); new_lock_info = some l })

-- The time until which a lock is kept after its event hold is released
abbrev pub release_until : LockInfo → ℕ → ℕ
release_until l now = (now + event_hold_duration l) % 2 ^ 64

unfoldable pub keep_until : ℕ → LockInfo → LockInfo
keep_until until n =
    if not (retain_until_set n) || signed_lt n.retain_until until
    then record n { flags = bit_or n.flags retain_until_flag; retain_until = until }
    else n

-- The block that runs when an event hold is released
unfoldable pub after_release : Option LockInfo → ℕ → LockInfo → LockInfo
after_release none now n = n
after_release (some l) now n =
    if event_hold l && not (event_hold n) then keep_until (release_until l now) n else n

-- `restricted`
unfoldable pub is_restricted : Option LockInfo → ℕ → Bool → Bool
is_restricted none now bypass = false
is_restricted (some l) now bypass = is_active l now && (compliance_mode l || not bypass)

-- The last three tests of a restricted change from the lock `l` to the lock `n`
unfoldable pub weakens : LockInfo → ℕ → LockInfo → Bool
weakens l now n =
    (compliance_mode l && not (compliance_mode n))
    || (((retain_until_set l && signed_lt now l.retain_until)
          && (not (retain_until_set n) || signed_lt n.retain_until l.retain_until))
        || ((event_hold l && event_hold n) && ltb (event_hold_duration n) (event_hold_duration l)))

unfoldable pub weakens_lock : Option LockInfo → ℕ → LockInfo → Bool
weakens_lock none now n = false
weakens_lock (some l) now n = weakens l now n

-- The part of `applyRetention` behind the reading: its result, and the lock afterwards.
unfoldable pub change_lock : Option LockInfo → Request → ℕ × Option LockInfo
change_lock lock_info q =
    let restricted = is_restricted lock_info q.now q.bypass_governance in
    elim q.new_lock_info [
      | none ↦ if restricted then (eacces, lock_info) else (0, none)
      | some asked ↦
          let n = after_release lock_info q.now asked in
          if not (retain_until_set n) && not (event_hold n)
          then (erange, lock_info)
          else if restricted && weakens_lock lock_info q.now n
          then (eacces, lock_info)
          else (0, some n)
    ]

-- `applyRetention`
unfoldable pub apply_retention : Option LockInfo → CrData → ℕ × Option LockInfo
apply_retention lock_info rparam = elim (read_request rparam).0 [
  | none ↦ (einval, lock_info)
  | some q ↦ change_lock lock_info q
]

-- Modifications one after the other
unfoldable pub apply_all : Option LockInfo → List CrData → Option LockInfo
apply_all lock_info [] = lock_info
apply_all lock_info (rparam ∷ params) = apply_all (apply_retention lock_info rparam).1 params
