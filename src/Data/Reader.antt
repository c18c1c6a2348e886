-- ===== src/Data/Reader.antt =====
-- src/data.cpp: `CRData`, which reads from a buffer. `memory` is the buffer from `data` on. A getter
-- returns the reader afterwards, and `none` where the source returns false; the target of its
-- pointer argument then keeps its value. In a well-formed reader `streampos` is at most `datalen`,
-- which is at most 100 MiB, so that no sum of the source wraps.
pub mod Stream
pub mod RoundTrip
use hs.Prelude.{
  ℕ, ◌+◌, ◌-◌, ◌*◌, ◌%◌, ◌^◌, Bool, true, false, ◌&&◌, ◌||◌, Option, none, some, List, [], length,
  take, drop, get_or, ltb, leb, ◌==◌, if◌then◌else◌, min,
}
use hs.Data.Memory.{from_memory, little_endian_16, little_endian_32, little_endian_64}
use hs.Data.Varint.{get_varint}

pub record CrData : Type 0 where
  pub memory : List ℕ
  pub streampos : ℕ
  pub datalen : ℕ
  pub copy : Bool

-- `CRData(void)`; the source leaves `copy` as it is there.
abbrev pub no_data : Bool → CrData
no_data copy = record { memory = []; streampos = 0; datalen = 0; copy = copy }

-- `set`, which the two other constructors call.
unfoldable pub set_data : List ℕ → ℕ → Bool → CrData
set_data c datalength p_copy =
    let len = min (100 * 1024 * 1024) datalength in
    record {
      memory = if p_copy then take len c else c;
      streampos = 0;
      datalen = len;
      copy = p_copy;
    }

-- `CRData(const std::string*)`
unfoldable pub of_string : List ℕ → CrData
of_string str = set_data str (length str) false

-- `streampos += n`
abbrev pub advance : ℕ → CrData → CrData
advance n r = record r { streampos = r.streampos + n }

-- `&data[streampos]`
abbrev pub current : CrData → List ℕ
current r = drop r.streampos r.memory

-- `getSize`, `getLeft` and `getStreampos`, which return an `unsigned int`
abbrev pub get_size : CrData → ℕ
get_size r = r.datalen % 2 ^ 32

abbrev pub get_left : CrData → ℕ
get_left r = (r.datalen - r.streampos) % 2 ^ 32

abbrev pub get_streampos : CrData → ℕ
get_streampos r = r.streampos % 2 ^ 32

-- The test and the `memcpy` of the getters of a fixed size `n`; `convert` is the last step.
unfoldable pub get_fixed : ℕ → (ℕ → ℕ) → CrData → Option ℕ × CrData
get_fixed n convert r =
    if ltb r.datalen (r.streampos + n)
    then (none, r)
    else (some (convert (from_memory n (current r))), advance n r)

-- `getInt` and `getUInt`
unfoldable pub get_uint : CrData → Option ℕ × CrData
get_uint = get_fixed 4 little_endian_32

unfoldable pub get_int64 : CrData → Option ℕ × CrData
get_int64 = get_fixed 8 little_endian_64

unfoldable pub get_float : CrData → Option ℕ × CrData
get_float = get_fixed 4 little_endian_32

unfoldable pub get_double : CrData → Option ℕ × CrData
get_double = get_fixed 8 little_endian_64

unfoldable pub get_ushort : CrData → Option ℕ × CrData
get_ushort = get_fixed 2 little_endian_16

unfoldable pub get_void_ptr : CrData → Option ℕ × CrData
get_void_ptr = get_fixed 8 (λ x. x)

-- `getChar` and `getUChar`: `data[streampos]`
unfoldable pub get_char : CrData → Option ℕ × CrData
get_char r =
    if ltb r.datalen (r.streampos + 1)
    then (none, r)
    else (some (get_or (current r) 0 0), advance 1 r)

-- `getVarInt`; a count of 0 bytes says that no number was read.
unfoldable pub get_var_int : CrData → Option ℕ × CrData
get_var_int r =
    let (b, value) = get_varint (current r) 0 (get_left r) in
    (if b == 0 then none else some value, advance b r)

-- The last part of the string getters, for the length `strlen`.
unfoldable pub get_bytes : ℕ → CrData → Option (List ℕ) × CrData
get_bytes strlen r =
    if ltb r.datalen (r.streampos + strlen)
    then (none, r)
    else (some (take strlen (current r)), advance strlen r)

abbrev pub max_string : ℕ
max_string = 10 * 1024 * 1024

-- `if (!getA(&a)) return false; …`: the later getters run where the earlier one left the reader.
module _ {ℓ κ} {A : Type ℓ} {B : Type κ} where
  abbrev pub go_on : (A → CrData → Option B × CrData) → Option A × CrData → Option B × CrData
  go_on f (none, r) = (none, r)
  go_on f (some a, r) = f a r

  infixl 5 ◌>>=◌
  abbrev pub ◌>>=◌ :
      (CrData → Option A × CrData) → (A → CrData → Option B × CrData) → CrData → Option B × CrData
  ◌>>=◌ m f r = go_on f (m r)

-- `return true` with the value `a`, and `return false`.
abbrev pub give {ℓ} : {A : Type ℓ} → A → CrData → Option A × CrData
give a r = (some a, r)

abbrev pub fail {ℓ} : {A : Type ℓ} → CrData → Option A × CrData
fail r = (none, r)

-- `getStr`
unfoldable pub get_str : CrData → Option (List ℕ) × CrData
get_str = do strlen ← get_uint; if ltb max_string strlen then fail else get_bytes strlen

-- `getStr2`; a `strlen` with the sign bit is below 0.
unfoldable pub get_str_2 : CrData → Option (List ℕ) × CrData
get_str_2 = do
  strlen ← get_var_int
  if (leb strlen (2 ^ 63 - 1) && ltb max_string strlen) || leb (2 ^ 63) strlen
      then fail
      else get_bytes strlen

-- `setStreampos`
unfoldable pub set_streampos : ℕ → CrData → CrData
set_streampos spos r = if leb spos r.datalen then record r { streampos = spos } else r

-- `incrementPtr`
unfoldable pub increment_ptr : ℕ → CrData → Bool × CrData
increment_ptr amount r = if ltb (get_left r) amount then (false, r) else (true, advance amount r)
