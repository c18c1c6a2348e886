-- ===== src/Buckets/Lock.antt =====
-- src/Buckets.cpp: identifiers and object locks of buckets over sequences of calls.
use mathlib.Core.Option.{some-injective}
use hs.Prelude.{ℕ, ◌<◌, ◌≡◌, ◌≢◌, ◌⊎◌, sym, ap, ◌∙◌, true, none, some, List, arith}
use hs.Buckets.{
  BucketInfo, State, get_partial_uploads_bucket, is_partial_uploads_bucket, get_parts_bucket,
  is_parts_bucket,
}
use hs.Buckets.Sound.{IsSound, Good}
use hs.Buckets.History.{Reaches, Reaches-IsSound}

-- In a cache that any calls have made from a sound one on, two buckets of different names have
-- different identifiers, and none of the identifiers of their partial uploads and parts is one of
-- the other kind or that of a bucket.
pub bucket_ids-apart :
    (first s : State) (a b : List ℕ) (i j : BucketInfo)
    → IsSound first
    → Reaches first s
    → s.buckets a ≡ some i
    → s.buckets b ≡ some j
    → (i.id ≡ j.id → a ≡ b)
      × (get_partial_uploads_bucket i.id ≢ j.id)
      × (get_parts_bucket i.id ≢ j.id)
      × (get_partial_uploads_bucket i.id ≢ get_parts_bucket j.id)
      × (is_partial_uploads_bucket (get_partial_uploads_bucket i.id) ≡ true)
      × (is_parts_bucket (get_parts_bucket i.id) ≡ true)
unfolding get_partial_uploads_bucket is_partial_uploads_bucket get_parts_bucket is_parts_bucket
bucket_ids-apart first s a b i j begun r e e' = (
  λ same. some-injective _ _ (sym g.points ∙ ap s.bucket_names same ∙ h.points),
  λ same. omega (arith, g.first_of_four, h.first_of_four),
  λ same. omega (arith, g.first_of_four, h.first_of_four),
  λ same. omega (arith, g.first_of_four, h.first_of_four),
  ground (arith, g.first_of_four),
  ground (arith, g.first_of_four),
)
  where
    sound : IsSound s
    sound = Reaches-IsSound first s begun r

    g : Good s a i
    g = sound.good a i e

    h : Good s b j
    h = sound.good b j e'

-- The bucket with the identifier is there and has object lock.
record Locked (s : State) (id : ℕ) : Type 0 where
  name : List ℕ
  info : BucketInfo
  at_id : s.bucket_names id ≡ some name
  at_name : s.buckets name ≡ some info
  locked : info.object_lock_enabled ≡ true

-- The identifier was given, and its bucket is gone or locked.
record Kept (s : State) (id : ℕ) : Type 0 where
  below : id < s.curr_max_id
  kept : (s.bucket_names id ≡ none) ⊎ Locked s id
