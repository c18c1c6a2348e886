-- ===== src/Metadata/RoundTrip.antt =====
-- src/ContentType.cpp and src/UserMetadata.cpp: reading what was written.
use hs.Prelude.{
  ℕ, ◌%◌, ◌^◌, ◌≤◌, ◌<◌, ◌≡◌, true, false, ◌||◌, List, [], ◌∷◌, ◌++◌, append-nil, append_assoc,
  length, ltb, ◌==◌, arith,
}
use hs.Data.Writer.{◌>>◌, add_varint, add_string_2}
use hs.Data.Reader.{get_var_int, get_str_2, max_string}
use hs.Data.Restore.{
  Restores, >>-Restores, give-Restores, Restores-map, add_varint-Restores, add_string_2-Restores,
}
use hs.Metadata.Content.{
  ContentType, num_content_types, is_positive, is_negative, write_content_type, read_type_number,
  read_content_type,
}
use hs.Metadata.User.{
  UserMetadata, write_pairs, write_user_metadata, read_pairs, read_user_metadata,
}

-- A number of the table without a name, or 0 and a name that `getStr2` takes.
pub data Storable : ContentType → Type 0 where
  in_table : {n : ℕ} → 1 ≤ n → n ≤ num_content_types → Storable (record { number = n; name = [] })
  named : {s : List ℕ} → length s ≤ max_string → Storable (record { number = 0; name = s })

table_tests :
    (n : ℕ)
    → 1 ≤ n
    → n ≤ num_content_types
    → (is_positive n ≡ true)
      × (n % 2 ^ 32 ≡ n)
      × ((n == 0) ≡ false)
      × ((is_negative n || ltb num_content_types n) ≡ false)
table_tests n h1 h2 = (ground arith, omega arith, ground arith, ground arith)

-- A content type is read back as it was written.
pub write_content_type-Restores :
    (c : ContentType)
    → Storable c
    → Restores (write_content_type c) (read_content_type (record { number = 0; name = [] })) c
unfolding write_content_type read_content_type read_type_number
write_content_type-Restores _ (in_table {n} h1 h2) =
    let (e1, e2, e3, e4) = table_tests n h1 h2 in
    let c : ContentType = record { number = n; name = [] } in
    rw e1 (
      >>-Restores (add_varint n) (λ w. w) get_var_int _ n c (add_varint-Restores n (omega arith))
        (rw (e2, e3, e4) (give-Restores c)))
write_content_type-Restores _ (named {s} h) =
    >>-Restores (add_varint 0) (add_string_2 s) get_var_int _ 0 _
      (add_varint-Restores 0 (omega arith))
      (Restores-map (add_string_2 s) get_str_2 (λ name. record { number = 0; name = name }) s
        (add_string_2-Restores s h))

-- Every key and every value is a string that `getStr2` takes.
pub data AllShort : UserMetadata → Type 0 where
  none_left : AllShort []
  one_more :
      {k v : List ℕ} {kvs : UserMetadata}
      → length k ≤ max_string
      → length v ≤ max_string
      → AllShort kvs
      → AllShort ((k, v) ∷ kvs)

pairs_restored :
    (kvs : UserMetadata) (before : UserMetadata)
    → AllShort kvs
    → Restores (write_pairs kvs) (read_pairs (length kvs) before) (before ++ kvs)
unfolding write_pairs read_pairs
pairs_restored _ before none_left = rw append-nil (give-Restores before)
pairs_restored _ before (one_more {k} {v} {kvs} hk hv h) =
    >>-Restores (add_string_2 k) (add_string_2 v >> write_pairs kvs) get_str_2 _ k _
      (add_string_2-Restores k hk)
      (>>-Restores (add_string_2 v) (write_pairs kvs) get_str_2 _ v _ (add_string_2-Restores v hv)
        (rw append_assoc at (pairs_restored kvs (before ++ (k, v) ∷ []) h)))

-- The user's metadata is read back as it was written.
pub write_user_metadata-Restores :
    (kvs : UserMetadata)
    → length kvs < 2 ^ 63
    → AllShort kvs
    → Restores (write_user_metadata kvs) (read_user_metadata []) kvs
unfolding write_user_metadata read_user_metadata
write_user_metadata-Restores kvs small h =
    let positive : ltb (length kvs) (2 ^ 63) ≡ true = ground arith in
    >>-Restores (add_varint (length kvs)) (write_pairs kvs) get_var_int _ (length kvs) kvs
      (add_varint-Restores (length kvs) (omega arith)) (rw positive (pairs_restored kvs [] h))
