-- ===== src/Data/Writer.antt =====
-- src/data.cpp: `CWData`, which appends to a byte string. `reserve` and `capacity` only manage the
-- string's storage. An empty string's bytes are appended like any others.
use hs.Prelude.{
  ℕ, ◌%◌, ◌^◌, List, [], ◌∷◌, ◌++◌, length, take, replicate, leb, ◌-◌, Bool, if◌then◌else◌,
}
use hs.Data.Memory.{to_memory, little_endian_16, little_endian_32, little_endian_64}
use hs.Data.Varint.{put_varint}

pub record CwData : Type 0 where
  pub bytes : List ℕ

-- A new writer, which is also what `clear` leaves.
abbrev pub empty : CwData
empty = record { bytes = [] }

abbrev pub get_data_size : CwData → ℕ
get_data_size w = length w.bytes

-- `data.insert(data.end(), …)`, and `addBuffer`.
unfoldable pub add_buffer : List ℕ → CwData → CwData
add_buffer bs w = record w { bytes = w.bytes ++ bs }

-- `addInt` and `addUInt`
unfoldable pub add_uint : ℕ → CwData → CwData
add_uint ta w = add_buffer (to_memory 4 (little_endian_32 ta)) w

-- `addInt64` and `addUInt64`
unfoldable pub add_int64 : ℕ → CwData → CwData
add_int64 ta w = add_buffer (to_memory 8 (little_endian_64 ta)) w

-- `addFloat` and `addDouble`, on bit patterns
unfoldable pub add_float : ℕ → CwData → CwData
add_float ta w = add_buffer (to_memory 4 (little_endian_32 ta)) w

unfoldable pub add_double : ℕ → CwData → CwData
add_double ta w = add_buffer (to_memory 8 (little_endian_64 ta)) w

unfoldable pub add_ushort : ℕ → CwData → CwData
add_ushort ta w = add_buffer (to_memory 2 (little_endian_16 ta)) w

-- `addChar` and `addUChar`
unfoldable pub add_char : ℕ → CwData → CwData
add_char ta w = add_buffer (ta ∷ []) w

-- `addVoidPtr`
unfoldable pub add_void_ptr : ℕ → CwData → CwData
add_void_ptr ta w = add_buffer (to_memory 8 ta) w

-- `addVarInt`: the string grows by `needed_bytes`, and `sqlite3PutVarint` fills them.
unfoldable pub add_varint : ℕ → CwData → CwData
add_varint ta w = add_buffer (put_varint ta) w

-- `addString`: the size is cut to an `unsigned int`.
unfoldable pub add_string : List ℕ → CwData → CwData
add_string ta w = add_buffer ta (add_uint (length ta % 2 ^ 32) w)

-- `addString2`
unfoldable pub add_string_2 : List ℕ → CwData → CwData
add_string_2 ta w = add_buffer ta (add_varint (length ta) w)

-- `resize`: shorter, or longer by zero bytes.
unfoldable pub resize : ℕ → CwData → CwData
resize count w =
    if leb count (length w.bytes)
    then record w { bytes = take count w.bytes }
    else record w { bytes = w.bytes ++ replicate (count - length w.bytes) 0 }

-- Writing functions run one after the other, and one that runs under an `if`.
infixl 5 ◌>>◌
abbrev pub ◌>>◌ : (CwData → CwData) → (CwData → CwData) → CwData → CwData
◌>>◌ f g w = g (f w)

abbrev pub when_set : Bool → (CwData → CwData) → CwData → CwData
when_set b f w = if b then f w else w
