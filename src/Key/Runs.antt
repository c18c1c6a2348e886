-- ===== src/Key/Runs.antt =====
-- Keys of two versions of an object, and the theorems about them.
use Prim.Native.Nat.Ordering.{eq}
use hs.Prelude.{◌≡◌, ◌↔◌, refl, [], ◌∷◌, arith, codes}
use hs.Data.Varint.{put_varint}
use hs.Data.Writer.{add_buffer, add_char, add_varint}
use hs.Key.{KeyInfo, write_key, make_key, extract_key_info, cmp_s3key, common_prefix}
use hs.Key.RoundTrip.{extract_key_info-make_key, common_prefix-make_key}
use hs.Key.Order.{IsStorable, cmp_s3key-make_key}

abbrev current : KeyInfo
current = record { key = codes "a/b"; version = 300; bucket_id = 5 }

abbrev older : KeyInfo
older = record { key = codes "a/b"; version = 0; bucket_id = 5 }

made : make_key current ≡ 1 ∷ 5 ∷ 0x82 ∷ 0x2c ∷ b'a' ∷ b'/' ∷ b'b' ∷ []
unfolding make_key write_key add_buffer add_char add_varint put_varint
made = refl

extract_key_info-make_key_example : extract_key_info (make_key current) ≡ current
extract_key_info-make_key_example =
    extract_key_info-make_key current (omega arith) (omega arith) (omega arith)

current-IsStorable : IsStorable current
current-IsStorable = record { bucket = omega arith; version = omega arith; key = omega arith }

older-IsStorable : IsStorable older
older-IsStorable = record { bucket = omega arith; version = omega arith; key = omega arith }

cmp_s3key-make_key_example :
    (cmp_s3key (make_key current) (make_key older) ≡ eq) ↔ (current ≡ older)
cmp_s3key-make_key_example = cmp_s3key-make_key current older current-IsStorable older-IsStorable

common_prefix-made : common_prefix (make_key current) ≡ make_key older
common_prefix-made = common_prefix-make_key current (omega arith) (omega arith) (omega arith)
