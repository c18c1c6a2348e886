-- ===== src/Buckets/Runs.antt =====
-- Calls that add, lock and delete buckets, and names of buckets.
use hs.Prelude.{◌≤◌, ◌≡◌, ◌≢◌, ◌↔◌, refl, true, false, none, some, length, codes}
use hs.Buckets.{
  State, start, BucketInfo, disabled, suspended, add_bucket, set_versioning, enable_object_lock,
  named, get_bucket, get_partial_uploads_bucket, is_partial_uploads_bucket, get_parts_bucket,
  is_parts_bucket, new_info, versioning_not_enabled, versioning_locked, versioning_state_from_str,
  versioning_state_to_str,
}
use hs.Buckets.Affixes.{starts_with, ends_with}
use hs.Buckets.Names.{is_valid_bucket_name, is_reserved, is_alnum, name_loop}
use hs.Buckets.Names.Reserved.{Reserved}
use hs.Buckets.Names.Valid.{Label, is_valid_bucket_name_iff}
use hs.Buckets.Sound.{IsSound, start-IsSound}
use hs.Buckets.History.{Reaches, at_start, and_step, adds, Reaches-IsSound}
use hs.Buckets.Lock.{bucket_ids-apart}

abbrev one_bucket : State
one_bucket = (add_bucket start (codes "logs") true false 7).1

abbrev two_buckets : State
two_buckets = (add_bucket one_bucket (codes "kept") true true 8).1

abbrev refused : State
refused = (set_versioning two_buckets (codes "kept") suspended 1).1

two_added : Reaches start two_buckets
two_added = and_step (and_step at_start (adds _ true false 7)) (adds _ true true 8)

kept_found : get_bucket two_buckets (codes "kept") ≡ some 5
unfolding add_bucket get_bucket
kept_found = refl

not_suspended : (set_versioning two_buckets (codes "kept") suspended 1).0 ≡ versioning_locked
unfolding add_bucket set_versioning
not_suspended = refl

needs_versioning : (enable_object_lock two_buckets 1 1).0 ≡ versioning_not_enabled
unfolding add_bucket enable_object_lock named
needs_versioning = refl

disabled_read : versioning_state_from_str (versioning_state_to_str disabled) ≡ none
unfolding versioning_state_from_str versioning_state_to_str
disabled_read = refl

Reaches-IsSound_example : IsSound two_buckets
Reaches-IsSound_example = Reaches-IsSound start two_buckets start-IsSound two_added

abbrev logs : BucketInfo
logs = new_info start false 7

abbrev kept : BucketInfo
kept = new_info one_bucket true 8

bucket_ids-apart_example :
    (logs.id ≡ kept.id → codes "logs" ≡ codes "kept")
    × (get_partial_uploads_bucket logs.id ≢ kept.id)
    × (get_parts_bucket logs.id ≢ kept.id)
    × (get_partial_uploads_bucket logs.id ≢ get_parts_bucket kept.id)
    × (is_partial_uploads_bucket (get_partial_uploads_bucket logs.id) ≡ true)
    × (is_parts_bucket (get_parts_bucket logs.id) ≡ true)
unfolding add_bucket
bucket_ids-apart_example =
    bucket_ids-apart start two_buckets (codes "logs") (codes "kept") logs kept start-IsSound
      two_added refl refl

is_valid_bucket_name_iff_example : (is_valid_bucket_name (codes "my.logs") ≡ true) ↔ (
    (3 ≤ length (codes "my.logs"))
    × (length (codes "my.logs") ≤ 63)
    × (¬ Reserved (codes "my.logs"))
    × Label (codes "my.logs"))
is_valid_bucket_name_iff_example = is_valid_bucket_name_iff (codes "my.logs")

valid_name : is_valid_bucket_name (codes "my.logs") ≡ true
unfolding is_valid_bucket_name is_reserved is_alnum name_loop starts_with ends_with
valid_name = refl
