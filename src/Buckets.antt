-- ===== src/Buckets.antt =====
-- src/Buckets.cpp and src/Buckets.h: the cache of buckets. The two maps are functions; an iterator
-- that `bucketNames` holds is the name to which it points. What the database answers is an argument:
-- the rows, the number of rows that a statement changed, and whether all rules were added.
pub mod Affixes
pub mod Names
pub mod Sound
pub mod History
pub mod Lock
mod Runs
use hs.Prelude.{
  ℕ, ◌+◌, ◌%◌, Bool, true, false, not, ◌&&◌, ◌||◌, Option, none, some, List, [], ◌∷◌, ◌==◌,
  bytes_eq, codes, if◌then◌else◌,
}

-- `VersioningState`
pub data VersioningState : Type 0 where
  disabled : VersioningState
  enabled : VersioningState
  suspended : VersioningState

abbrev pub is_enabled : VersioningState → Bool
is_enabled disabled = false
is_enabled enabled = true
is_enabled suspended = false

-- `versioningStateFromStr` and `versioningStateToStr`
unfoldable pub versioning_state_from_str : List ℕ → Option VersioningState
versioning_state_from_str str =
    if bytes_eq str (codes "Enabled")
    then some enabled
    else if bytes_eq str (codes "Suspended")
    then some suspended
    else if bytes_eq str []
    then some disabled
    else none

unfoldable pub versioning_state_to_str : VersioningState → List ℕ
versioning_state_to_str disabled = codes "Disabled"
versioning_state_to_str enabled = codes "Enabled"
versioning_state_to_str suspended = codes "Suspended"

-- `BucketCorsRule` and `BucketInfo`
pub record BucketCorsRule : Type 0 where
  pub allowed_origins : List (List ℕ)
  pub allowed_methods : List (List ℕ)
  pub allowed_headers : List (List ℕ)
  pub expose_headers : List (List ℕ)
  pub max_age_seconds : List ℕ
  pub id : List ℕ

pub record BucketInfo : Type 0 where
  pub id : ℕ
  pub created : ℕ
  pub public_perms : ℕ
  pub versioning : VersioningState
  pub cors_rules : List BucketCorsRule
  pub object_lock_enabled : Bool

-- `buckets`, `bucketNames` and `currMaxId`
pub record State : Type 0 where
  pub buckets : List ℕ → Option BucketInfo
  pub bucket_names : ℕ → Option (List ℕ)
  pub curr_max_id : ℕ

abbrev pub start : State
start = record { buckets = λ name. none; bucket_names = λ id. none; curr_max_id = 1 }

-- A value is put into a map, or taken out of it; `insert` into `bucketNames` keeps what is there.
abbrev pub put : List ℕ → BucketInfo → (List ℕ → Option BucketInfo) → List ℕ → Option BucketInfo
put name info m n = if bytes_eq n name then some info else m n

abbrev pub erase : List ℕ → (List ℕ → Option BucketInfo) → List ℕ → Option BucketInfo
erase name m n = if bytes_eq n name then none else m n

abbrev pub put_name : ℕ → List ℕ → (ℕ → Option (List ℕ)) → ℕ → Option (List ℕ)
put_name id name m i = elim (m i) [
  | some old ↦ some old
  | none ↦ if i == id then some name else none
]

abbrev pub erase_name : ℕ → (ℕ → Option (List ℕ)) → ℕ → Option (List ℕ)
erase_name id m i = if i == id then none else m i

-- What `bucketNames.find(id)` points to
unfoldable pub named : State → Option (List ℕ) → Option (List ℕ × BucketInfo)
named s none = none
named s (some name) = elim (s.buckets name) [ none ↦ none | some info ↦ some (name, info) ]

abbrev pub by_id : State → ℕ → Option (List ℕ × BucketInfo)
by_id s id = named s (s.bucket_names id)

-- `addBucket`; -1 is `none`.
abbrev pub new_info : State → Bool → ℕ → BucketInfo
new_info s object_lock_enabled now = record {
  id = s.curr_max_id;
  created = now;
  public_perms = 0;
  versioning = if object_lock_enabled then enabled else disabled;
  cors_rules = [];
  object_lock_enabled = object_lock_enabled;
}

abbrev pub add_new : State → List ℕ → BucketInfo → State
add_new s name info = record {
  buckets = put name info s.buckets;
  bucket_names = put_name info.id name s.bucket_names;
  curr_max_id = s.curr_max_id + 4;
}

unfoldable pub add_bucket : State → List ℕ → Bool → Bool → ℕ → Option ℕ × State
add_bucket s name fail_if_already_exists object_lock_enabled now = elim (s.buckets name) [
  | some info ↦ (if fail_if_already_exists then none else some info.id, s)
  | none ↦ (some s.curr_max_id, add_new s name (new_info s object_lock_enabled now))
]

-- `getBucket` and `getBucketName`, which gives the empty name for an unknown bucket
unfoldable pub get_bucket : State → List ℕ → Option ℕ
get_bucket s name = elim (s.buckets name) [ none ↦ none | some info ↦ some info.id ]

unfoldable pub get_bucket_name : State → ℕ → List ℕ
get_bucket_name s id = elim (by_id s id) [ none ↦ [] | some (name, info) ↦ name ]

-- `deleteBucket`
abbrev pub remove : State → ℕ → List ℕ → State
remove s id name = record s {
  buckets = erase name s.buckets;
  bucket_names = erase_name id s.bucket_names;
}

unfoldable pub delete_bucket : State → ℕ → Bool × State
delete_bucket s id = elim (by_id s id) [
  | none ↦ (false, s)
  | some (name, info) ↦ (true, remove s id name)
]

-- The buckets of partial uploads and of parts
unfoldable pub get_partial_uploads_bucket : ℕ → ℕ
get_partial_uploads_bucket id = id + 1

unfoldable pub is_partial_uploads_bucket : ℕ → Bool
is_partial_uploads_bucket id = id % 4 == 2

unfoldable pub get_parts_bucket : ℕ → ℕ
get_parts_bucket id = id + 2

unfoldable pub is_parts_bucket : ℕ → Bool
is_parts_bucket id = id % 4 == 3

-- `isObjectLockEnabled`
unfoldable pub is_object_lock_enabled : State → ℕ → Bool
is_object_lock_enabled s id = elim (by_id s id) [
  | none ↦ false
  | some (name, info) ↦ info.object_lock_enabled
]

-- `EnableObjectLockResult` and `enableObjectLock`
pub data EnableResult : Type 0 where
  lock_ok : EnableResult
  lock_not_found : EnableResult
  versioning_not_enabled : EnableResult
  lock_error : EnableResult

abbrev pub with_info : State → List ℕ → BucketInfo → State
with_info s name info = record s { buckets = put name info s.buckets }

abbrev pub lock_bucket : State → List ℕ → BucketInfo → ℕ → EnableResult × State
lock_bucket s name info changes =
    if info.object_lock_enabled
    then (lock_ok, s)
    else if not (is_enabled info.versioning)
    then (versioning_not_enabled, s)
    else if not (changes == 1)
    then (lock_error, s)
    else (lock_ok, with_info s name (record info { object_lock_enabled = true }))

unfoldable pub enable_object_lock : State → ℕ → ℕ → EnableResult × State
enable_object_lock s id changes = elim (by_id s id) [
  | none ↦ (lock_not_found, s)
  | some (name, info) ↦ lock_bucket s name info changes
]

-- `SetVersioningResult` and `setVersioning`
pub data VersioningResult : Type 0 where
  versioning_ok : VersioningResult
  versioning_not_found : VersioningResult
  versioning_locked : VersioningResult
  versioning_error : VersioningResult

abbrev pub set_state : State → List ℕ → BucketInfo → VersioningState → ℕ → VersioningResult × State
set_state s name info v changes =
    if info.object_lock_enabled && not (is_enabled v)
    then (versioning_locked, s)
    else if not (changes == 1)
    then (versioning_error, s)
    else (versioning_ok, with_info s name (record info { versioning = v }))

unfoldable pub set_versioning : State → List ℕ → VersioningState → ℕ → VersioningResult × State
set_versioning s name v changes = elim (s.buckets name) [
  | none ↦ (versioning_not_found, s)
  | some info ↦ set_state s name info v changes
]

-- `replaceCorsRules`
unfoldable pub replace_cors_rules : State → ℕ → List BucketCorsRule → Bool → Bool × State
replace_cors_rules s id rules all_added = if not all_added then (false, s) else elim (by_id s id) [
  | none ↦ (false, s)
  | some (name, info) ↦ (true, with_info s name (record info { cors_rules = rules }))
]
