-- ===== src/Key.antt =====
-- src/s3handler.cpp and src/s3handler.h: the keys under which objects are stored, and the order in
-- which the database keeps them. Numbers of the type `int64_t` are bit patterns.
pub mod RoundTrip
pub mod Order
mod Runs
use Prim.Native.Nat.{compare, Ordering}
use Prim.Native.Nat.Ordering.{lt, eq, gt}
use hs.Prelude.{ℕ, ◌+◌, ◌%◌, ◌^◌, Option, none, some, List, [], ◌∷◌, take, ◌==◌, if◌then◌else◌}
use hs.Data.Writer.{CwData, empty, add_char, add_varint, add_buffer, ◌>>◌, when_set}
use hs.Data.Reader.{CrData, of_string, current, get_left, ◌>>=◌, give, fail, get_char, get_var_int}

-- `KeyInfoView`, and `KeyInfo` without the state of versioning
pub record KeyInfo : Type 0 where
  pub key : List ℕ
  pub version : ℕ
  pub bucket_id : ℕ

-- `make_key`
unfoldable pub write_key : KeyInfo → CwData → CwData
write_key info =
    if info.version == 0
    then add_char 0 >> add_varint info.bucket_id >> add_buffer info.key
    else add_char 1 >> add_varint info.bucket_id >> add_varint info.version >> add_buffer info.key

unfoldable pub make_key : KeyInfo → List ℕ
make_key info = (write_key info empty).bytes

-- `std::string_view(rdata.getCurrDataPtr(), rdata.getLeft())`
unfoldable pub rest_of : CrData → List ℕ
rest_of r = take (get_left r) (current r)

unfoldable pub give_info : ℕ → ℕ → CrData → Option KeyInfo × CrData
give_info version bucket_id r =
    (some record { key = rest_of r; version = version; bucket_id = bucket_id }, r)

-- What `extractKeyInfoView` reads; it fails where the function says that the key is corrupted.
unfoldable pub read_key_info : CrData → Option KeyInfo × CrData
read_key_info = do
  version ← get_char
  bucket_id ← get_var_int
  if version == 0
      then give_info 0 bucket_id
      else if version == 1
      then (do object_version ← get_var_int; give_info object_version bucket_id)
      else fail

-- `extractKeyInfoView`; a corrupted key is returned whole, as one of the bucket 0. (The source
-- asserts that this does not happen; the assertions are not in release builds.)
unfoldable pub extract_key_info : List ℕ → KeyInfo
extract_key_info key = elim (read_key_info (of_string key)).0 [
  | some info ↦ info
  | none ↦ record { key = key; version = 0; bucket_id = 0 }
]

-- `s3key_common_prefix`
unfoldable pub common_prefix : List ℕ → List ℕ
common_prefix key = make_key (record (extract_key_info key) { version = 0 })

-- The sign of `std::string_view::compare`, which compares bytes
unfoldable pub compare_bytes : List ℕ → List ℕ → Ordering
compare_bytes [] [] = eq
compare_bytes [] (b ∷ bs) = lt
compare_bytes (a ∷ as') [] = gt
compare_bytes (a ∷ as') (b ∷ bs) = elim (compare a b) [
  | lt ↦ lt
  | eq ↦ compare_bytes as' bs
  | gt ↦ gt
]

-- The order of two `int64_t`
unfoldable pub compare_signed : ℕ → ℕ → Ordering
compare_signed a b = compare ((a + 2 ^ 63) % 2 ^ 64) ((b + 2 ^ 63) % 2 ^ 64)

unfoldable pub then_by : Ordering → Ordering → Ordering
then_by lt o = lt
then_by eq o = o
then_by gt o = gt

-- The sign of `mdb_cmp_s3key` for what was read of the keys: a larger bucket and a later version
-- come first.
unfoldable pub compare_info : KeyInfo → KeyInfo → Ordering
compare_info a b =
    then_by (compare_signed b.bucket_id a.bucket_id)
      (then_by (compare_bytes a.key b.key) (compare_signed b.version a.version))

-- `mdb_cmp_s3key`
unfoldable pub cmp_s3key : List ℕ → List ℕ → Ordering
cmp_s3key a b = compare_info (extract_key_info a) (extract_key_info b)
