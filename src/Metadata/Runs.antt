-- ===== src/Metadata/Runs.antt =====
-- Metadata with a content type, a user's value, a disposition and a lock, and the theorem about it.
use hs.Prelude.{
  ℕ, ◌+◌, ◌≡◌, ◌≤◌, ap, length, length-append, refl, true, none, some, List, [], ◌∷◌, ◌++◌, arith,
  codes,
}
use mathlib.Core.Option.{some-injective}
use hs.Data.Memory.{to_memory}
use hs.Data.Varint.{put_varint}
use hs.Data.Writer.{empty, add_buffer, add_varint, add_int64, add_string_2}
use hs.Data.Reader.{CrData, of_string, max_string}
use hs.Data.Reader.Stream.{Holds, of_string-Holds}
use hs.Metadata.Content.{write_content_type, has_content_type, is_empty}
use hs.Metadata.User.{write_user_metadata, write_pairs, has_user_metadata}
use hs.Metadata.RoundTrip.{in_table, none_left, one_more}
use hs.Metadata.Object.{
  LockInfo, ObjMetadata, fresh, has_value, flags_of, metadata_flags, write_value, write_lock_info,
  write_metadata, read_metadata,
}
use hs.Metadata.Object.Lock.{LockFits}
use hs.Metadata.Object.RoundTrip.{AllFit}
use hs.Metadata.Object.Stored.{read_metadata-write_metadata}

abbrev sample_lock : LockInfo
sample_lock = record {
  flags = 5;
  retain_until = 0;
  event_duration_days = 30;
  event_duration_years = 0;
}

abbrev sample : ObjMetadata
sample = record {
  content_type = record { number = 7; name = [] };
  user_metadata = (codes "a", codes "b") ∷ [];
  disposition = some (codes "x");
  cache_control = none;
  encoding = none;
  language = none;
  expires = none;
  lock_info = some sample_lock;
  legal_hold = true;
}

sample-flags : metadata_flags sample ≡ 4 + 8 + 1024 + 2048 + 4096
unfolding metadata_flags flags_of has_content_type has_user_metadata has_value is_empty
sample-flags = refl

sample_lock-LockFits : LockFits sample_lock
sample_lock-LockFits = record {
  flags = omega arith;
  until = omega arith;
  years = omega arith;
  duration = omega arith;
  no_until = λ e. refl;
  no_days = λ e. cc;
  no_years = λ e. refl;
}

sample-AllFit : AllFit sample
sample-AllFit = record {
  content = in_table (omega arith) (omega arith);
  count = omega arith;
  user = one_more (omega arith) (omega arith) none_left;
  disposition = λ s e. short s e;
  cache_control = λ s e. absurd (none_is_some e);
  encoding = λ s e. absurd (none_is_some e);
  language = λ s e. absurd (none_is_some e);
  expires = λ s e. absurd (none_is_some e);
  lock = λ l e. rw (some-injective _ _ e) at sample_lock-LockFits;
}
  where
    none_is_some : {s : List ℕ} → ¬ (none ≡ some s)
    none_is_some e = cc

    short : (s : List ℕ) → some (codes "x") ≡ some s → length s ≤ max_string
    short s e = let same : codes "x" ≡ s = some-injective _ _ e in omega (arith, ap length same)

sample_code-length : length (write_metadata sample empty).bytes + 1 ≡ 25
unfolding write_metadata write_content_type write_user_metadata write_pairs write_value
    write_lock_info add_string_2 add_varint add_int64 add_buffer put_varint has_content_type
    has_user_metadata is_empty to_memory
sample_code-length = refl

-- The reader that holds the metadata and one byte more
abbrev sample_reader : CrData
sample_reader = of_string ((write_metadata sample empty).bytes ++ 9 ∷ [])

sample-Holds : Holds sample_reader ((write_metadata sample empty).bytes ++ 9 ∷ [])
sample-Holds =
    of_string-Holds _ (
      omega (arith, length-append (write_metadata sample empty).bytes (9 ∷ []), sample_code-length))

read_metadata-write_metadata_example :
    (r' : CrData) × (read_metadata fresh (metadata_flags sample) sample_reader ≡ (some sample, r'))
    × Holds r' (9 ∷ [])
read_metadata-write_metadata_example =
    read_metadata-write_metadata sample sample_reader (9 ∷ []) sample-AllFit sample-Holds
