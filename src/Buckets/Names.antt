-- ===== src/Buckets/Names.antt =====
-- src/Buckets.cpp: `isValidBucketName`.
pub mod Reserved
pub mod Valid
use hs.Prelude.{
  ℕ, ◌+◌, ◌-◌, ◌≤◌, ◌<◌, ◌≡◌, ◌↔◌, inl, inr, refl, sym, ap, ◌∙◌, Bool, true, false, ◌&&◌, ◌||◌,
  Option, none, some, List, [], ◌∷◌, length, drop, leb, ltb, ◌==◌, bytes_eq, codes, arith,
  Bool-cases, if◌then◌else◌,
}
use hs.Buckets.Affixes.{starts_with, ends_with}

unfoldable pub is_reserved : List ℕ → Bool
is_reserved name =
    starts_with name (codes "xn--")
    || starts_with name (codes "sthree-")
    || starts_with name (codes "amzn-s3-demo-")
    || ends_with name (codes "-s3alias")
    || ends_with name (codes "--ol-s3")
    || ends_with name (codes ".mrap")
    || ends_with name (codes "--x-s3")
    || ends_with name (codes "--table-s3")

-- The tests of a byte
unfoldable pub is_alnum : ℕ → Bool
is_alnum c = (leb b'a' c && leb c b'z') || (leb b'0' c && leb c b'9')

abbrev pub is_dash : ℕ → Bool
is_dash c = c == b'-'

abbrev pub is_period : ℕ → Bool
is_period c = c == b'.'

-- `lastPeriod != npos && i - 1 == lastPeriod`
abbrev pub follows : ℕ → Option ℕ → Bool
follows i none = false
follows i (some last_period) = (i - 1) == last_period

-- The loop, from the place `i` of a name of `n` bytes on
unfoldable pub name_loop : ℕ → ℕ → Option ℕ → List ℕ → Bool
name_loop n i last_period [] = true
name_loop n i last_period (c ∷ name) =
    let rest = name_loop n (i + 1) last_period name in
    let rest_of_period = name_loop n (i + 1) (some i) name in
    if (i == 0) || (i == n - 1)
    then is_alnum c && rest
    else if is_alnum c || is_dash c || is_period c
    then (if is_period c then (if follows i last_period then false else rest_of_period) else rest)
    else false

-- `isValidBucketName`
unfoldable pub is_valid_bucket_name : List ℕ → Bool
is_valid_bucket_name name =
    if ltb (length name) 3 || ltb 63 (length name)
    then false
    else if is_reserved name
    then false
    else name_loop (length name) 0 none name
