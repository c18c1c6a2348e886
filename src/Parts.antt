-- ===== src/Parts.antt =====
-- src/s3handler.cpp and src/s3handler.h: the parts of a multi-part upload. The upload's record holds
-- them as runs of parts of one size, and their data is kept under keys made of two identifiers.
-- Numbers of the types `int` and `int64_t` are bit patterns.
pub mod Ids
pub mod Cover
mod Runs
use hs.Prelude.{
  ℕ, ◌+◌, ◌-◌, ◌%◌, ◌^◌, Bool, true, false, ◌&&◌, ◌||◌, Option, none, some, List, [], ◌∷◌, ◌++◌,
  length, take, drop, reverse, ltb, leb, ◌==◌, if◌then◌else◌,
}
use hs.Data.Memory.{to_memory, from_memory}

-- The memory of a number in `folly::Endian::big`, and back
abbrev pub to_big : ℕ → ℕ → List ℕ
to_big n x = reverse (to_memory n x)

abbrev pub from_big : ℕ → List ℕ → ℕ
from_big n bs = from_memory n (reverse bs)

-- `uploadIdToStr`: a byte 0, and the identifier in the smallest of four sizes; a number below 0 is
-- cut to one byte.
unfoldable pub upload_id_to_str : ℕ → List ℕ
upload_id_to_str id =
    if leb (2 ^ 63) id || ltb id 255
    then 0 ∷ to_big 1 (id % 2 ^ 8)
    else if ltb id 65535
    then 0 ∷ to_big 2 (id % 2 ^ 16)
    else if ltb id 4294967295
    then 0 ∷ to_big 4 (id % 2 ^ 32)
    else 0 ∷ to_big 8 id

-- -1
abbrev pub no_id : ℕ
no_id = 2 ^ 64 - 1

-- `uploadIdFromStr`; the assertion at its end is not in release builds.
unfoldable pub upload_id_from_str : List ℕ → ℕ
upload_id_from_str key =
    if length key == 2
    then from_big 1 (drop 1 key)
    else if length key == 3
    then from_big 2 (drop 1 key)
    else if length key == 5
    then from_big 4 (drop 1 key)
    else if length key == 9
    then from_big 8 (drop 1 key)
    else no_id

-- `key.find(".")`, with what stands before and behind the dot
abbrev pub dot : ℕ
dot = b'.'

unfoldable pub split_dot : List ℕ → Option (List ℕ × List ℕ)
split_dot [] = none
split_dot (c ∷ key) = if c == dot then some ([], key) else before c (split_dot key)
  where
    before : ℕ → Option (List ℕ × List ℕ) → Option (List ℕ × List ℕ)
    before c none = none
    before c (some (a, b)) = some (c ∷ a, b)

-- `uploadIdFromStrDot`
unfoldable pub upload_id_from_str_dot : List ℕ → ℕ × ℕ
upload_id_from_str_dot key = elim (split_dot key) [
  | none ↦ (no_id, no_id)
  | some (a, b) ↦ (upload_id_from_str a, upload_id_from_str b)
]

-- The key of a part's data, as `putObjectPart`, `onDeleteCallback` and others write it
unfoldable pub part_key : ℕ → ℕ → List ℕ
part_key upload_id part_number = upload_id_to_str upload_id ++ (dot ∷ upload_id_to_str part_number)

-- `PartExt`: `len` parts from `start` on, each of the size `size`
pub record PartExt : Type 0 where
  pub size : ℕ
  pub start : ℕ
  pub len : ℕ

-- The arithmetic and the order of `int`
abbrev pub add_int : ℕ → ℕ → ℕ
add_int a b = (a + b) % 2 ^ 32

abbrev pub sub_int : ℕ → ℕ → ℕ
sub_int a b = (a + (2 ^ 32 - b)) % 2 ^ 32

abbrev pub lt_int : ℕ → ℕ → Bool
lt_int a b = ltb ((a + 2 ^ 31) % 2 ^ 32) ((b + 2 ^ 31) % 2 ^ 32)

abbrev pub le_int : ℕ → ℕ → Bool
le_int a b = leb ((a + 2 ^ 31) % 2 ^ 32) ((b + 2 ^ 31) % 2 ^ 32)

abbrev pub end_of : PartExt → ℕ
end_of p = add_int p.start p.len

-- The test of the first branch of the loop of `addPartExt`, and that of the second
abbrev pub extends : ℕ → ℕ → PartExt → Bool
extends part_size part_num p = (p.size == part_size) && (end_of p == part_num)

abbrev pub splits : ℕ → PartExt → Bool
splits part_num p = le_int part_num p.start && lt_int part_num (end_of p)

-- The run in front of a split, and the one behind it if it is not empty
abbrev pub cut : ℕ → PartExt → PartExt
cut part_num p = record p { len = sub_int part_num p.start }

abbrev pub behind : ℕ → ℕ → PartExt → List PartExt
behind part_size part_num p =
    let new_part_len = sub_int (sub_int (end_of p) part_num) 1 in
    if lt_int 0 new_part_len
    then record { size = part_size; start = add_int part_num 1; len = new_part_len } ∷ []
    else []

-- What the loop leaves: the parts with the one extended, at which the function returns, or the
-- parts, the new parts and whether one is empty.
pub data Looped : Type 0 where
  extended : List PartExt → Looped
  finished : List PartExt → List PartExt → Bool → Looped

abbrev pub with_part : PartExt → List PartExt → Bool → Looped → Looped
with_part p ps d (extended parts) = extended (p ∷ parts)
with_part p ps d (finished parts new_parts del_parts) =
    finished (p ∷ parts) (ps ++ new_parts) (d || del_parts)

-- The loop of `addPartExt`
unfoldable pub add_loop : ℕ → ℕ → List PartExt → Looped
add_loop part_size part_num [] = finished [] [] false
add_loop part_size part_num (p ∷ parts) =
    let rest = add_loop part_size part_num parts in
    if extends part_size part_num p
    then extended (record p { len = add_int p.len 1 } ∷ parts)
    else if splits part_num p
    then with_part (cut part_num p) (behind part_size part_num p) ((cut part_num p).len == 0) rest
    else with_part p [] false rest

-- The loop that drops the runs without parts
unfoldable pub filter_parts : List PartExt → List PartExt
filter_parts [] = []
filter_parts (p ∷ parts) = if lt_int 0 p.len then p ∷ filter_parts parts else filter_parts parts

unfoldable pub finish_parts : ℕ → ℕ → Looped → List PartExt
finish_parts part_size part_num (extended parts) = parts
finish_parts part_size part_num (finished parts new_parts del_parts) =
    let all = (parts ++ new_parts) ++ record { size = part_size; start = part_num; len = 1 } ∷ [] in
    if del_parts then filter_parts all else all

-- `addPartExt`
unfoldable pub add_part_ext : List PartExt → ℕ → ℕ → List PartExt
add_part_ext parts part_size part_num =
    finish_parts part_size part_num (add_loop part_size part_num parts)
