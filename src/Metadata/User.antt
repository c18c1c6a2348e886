-- ===== src/Metadata/User.antt =====
-- src/UserMetadata.h and src/UserMetadata.cpp: the keys and values that the user gave.
use hs.Prelude.{
  ℕ, zero, suc, ◌^◌, Bool, true, false, Option, List, [], ◌∷◌, ◌++◌, length, ltb, if◌then◌else◌,
}
use hs.Data.Writer.{CwData, ◌>>◌, add_varint, add_string_2}
use hs.Data.Reader.{CrData, ◌>>=◌, give, get_var_int, get_str_2}

-- The member `metadata`
abbrev pub UserMetadata : Type 0
UserMetadata = List (List ℕ × List ℕ)

-- `hasUserMetadata`
unfoldable pub has_user_metadata : UserMetadata → Bool
has_user_metadata [] = false
has_user_metadata (kv ∷ metadata) = true

-- The loop of `serialize`
unfoldable pub write_pairs : UserMetadata → CwData → CwData
write_pairs [] = λ w. w
write_pairs ((k, v) ∷ metadata) = add_string_2 k >> add_string_2 v >> write_pairs metadata

-- `UserMetadata::serialize`
unfoldable pub write_user_metadata : UserMetadata → CwData → CwData
write_user_metadata metadata = add_varint (length metadata) >> write_pairs metadata

-- The loop of `deserialize`, with the rounds that are left
unfoldable pub read_pairs : ℕ → UserMetadata → CrData → Option UserMetadata × CrData
read_pairs zero metadata = give metadata
read_pairs (suc n) metadata = do
  key ← get_str_2
  value ← get_str_2
  read_pairs n (metadata ++ (key, value) ∷ [])

-- `UserMetadata::deserialize`, on the object `metadata`; a count below 0 ends the loop at once.
unfoldable pub read_user_metadata : UserMetadata → CrData → Option UserMetadata × CrData
read_user_metadata metadata = do
  cvals ← get_var_int
  read_pairs (if ltb cvals (2 ^ 63) then cvals else 0) metadata
