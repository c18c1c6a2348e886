-- ===== src/Metadata/Content.antt =====
-- src/ContentType.h and src/ContentType.cpp: a content type is a number in the table
-- `kContentTypes`, or 0 and its name.
use hs.Prelude.{
  ℕ, ◌%◌, ◌^◌, Bool, true, false, not, ◌&&◌, ◌||◌, Option, List, [], ◌∷◌, ltb, leb, ◌==◌,
  if◌then◌else◌,
}
use hs.Data.Writer.{CwData, ◌>>◌, add_varint, add_string_2}
use hs.Data.Reader.{CrData, ◌>>=◌, give, fail, get_var_int, get_str_2}

-- `contentType` is an `int`.
pub record ContentType : Type 0 where
  pub number : ℕ
  pub name : List ℕ

-- `kNumContentTypes`, the length of the table
abbrev pub num_content_types : ℕ
num_content_types = 2250

-- `std::string::empty`
unfoldable pub is_empty : List ℕ → Bool
is_empty [] = true
is_empty (c ∷ s) = false

-- `ContentType::hasContentType`
unfoldable pub has_content_type : ContentType → Bool
has_content_type c = not (c.number == 0) || not (is_empty c.name)

-- `n > 0` and `n < 0` for an `int`
abbrev pub is_positive : ℕ → Bool
is_positive n = ltb 0 n && ltb n (2 ^ 31)

abbrev pub is_negative : ℕ → Bool
is_negative n = leb (2 ^ 31) n

-- `ContentType::serialize`
unfoldable pub write_content_type : ContentType → CwData → CwData
write_content_type c =
    if is_positive c.number then add_varint c.number else add_varint 0 >> add_string_2 c.name

-- What `ContentType::deserialize` does with the number that it read.
unfoldable pub read_type_number : ContentType → ℕ → CrData → Option ContentType × CrData
read_type_number c number =
    if number == 0
    then (do name ← get_str_2; give (record { number = number; name = name }))
    else if is_negative number || ltb num_content_types number
    then fail
    else give (record c { number = number })

-- `ContentType::deserialize`, on the object `c`. After a failure, the callers drop the object.
unfoldable pub read_content_type : ContentType → CrData → Option ContentType × CrData
read_content_type c = do
  content_type_read ← get_var_int
  read_type_number c (content_type_read % 2 ^ 32)
