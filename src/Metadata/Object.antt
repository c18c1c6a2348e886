-- ===== src/Metadata/Object.antt =====
-- src/ObjMetadata.h and src/ObjMetadata.cpp, with the flags of src/s3handler.h.
-- A `time_point` is the bit pattern of its whole seconds: all the times that a `LockInfo` gets are
-- made of seconds, and they are written as seconds.
pub mod Flags
pub mod Lock
pub mod RoundTrip
pub mod Stored
use hs.Prelude.{
  ℕ, ◌+◌, ◌-◌, ◌*◌, ◌/◌, ◌%◌, ◌^◌, Bool, true, false, not, Option, none, some, List, [], ◌==◌, ltb,
  if◌then◌else◌, bit_and, bit_or,
}
use hs.Data.Writer.{CwData, ◌>>◌, when_set, add_int64, add_string_2}
use hs.Data.Reader.{CrData, ◌>>=◌, give, get_int64, get_str_2}
use hs.Metadata.Content.{ContentType, has_content_type, write_content_type, read_content_type}
use hs.Metadata.User.{UserMetadata, has_user_metadata, write_user_metadata, read_user_metadata}

-- `lockinfo_flag_…`
abbrev pub lock_mode_compliance : ℕ
lock_mode_compliance = 1

abbrev pub retain_until_flag : ℕ
retain_until_flag = 2

abbrev pub event_hold_flag : ℕ
event_hold_flag = 4

-- `flags & flag`, as a condition
abbrev pub has_flag : ℕ → ℕ → Bool
has_flag flags flag = not (bit_and flags flag == 0)

-- `flags` and `eventDurationDays` have 32 bits, `eventDurationYears` has 16.
pub record LockInfo : Type 0 where
  pub flags : ℕ
  pub retain_until : ℕ
  pub event_duration_days : ℕ
  pub event_duration_years : ℕ

abbrev pub no_lock : LockInfo
no_lock = record { flags = 0; retain_until = 0; event_duration_days = 0; event_duration_years = 0 }

-- `complianceMode`, `retainUntilSet` and `eventHold`
abbrev pub compliance_mode : LockInfo → Bool
compliance_mode l = has_flag l.flags lock_mode_compliance

abbrev pub retain_until_set : LockInfo → Bool
retain_until_set l = has_flag l.flags retain_until_flag

abbrev pub event_hold : LockInfo → Bool
event_hold l = has_flag l.flags event_hold_flag

pub record ObjMetadata : Type 0 where
  pub content_type : ContentType
  pub user_metadata : UserMetadata
  pub disposition : Option (List ℕ)
  pub cache_control : Option (List ℕ)
  pub encoding : Option (List ℕ)
  pub language : Option (List ℕ)
  pub expires : Option (List ℕ)
  pub lock_info : Option LockInfo
  pub legal_hold : Bool

-- The object that a declaration makes
abbrev pub fresh : ObjMetadata
fresh = record {
  content_type = record { number = 0; name = [] };
  user_metadata = [];
  disposition = none;
  cache_control = none;
  encoding = none;
  language = none;
  expires = none;
  lock_info = none;
  legal_hold = false;
}

-- `has_value`
unfoldable pub has_value {ℓ} : {A : Type ℓ} → Option A → Bool
has_value none = false
has_value (some a) = true

-- `metadata_flag_…`
abbrev pub with_content_type : ℕ
with_content_type = 2 ^ 2

abbrev pub with_meta : ℕ
with_meta = 2 ^ 3

abbrev pub with_cache_control : ℕ
with_cache_control = 2 ^ 6

abbrev pub with_encoding : ℕ
with_encoding = 2 ^ 7

abbrev pub with_expires : ℕ
with_expires = 2 ^ 8

abbrev pub with_language : ℕ
with_language = 2 ^ 9

abbrev pub with_disposition : ℕ
with_disposition = 2 ^ 10

abbrev pub with_lock_info : ℕ
with_lock_info = 2 ^ 11

abbrev pub with_legal_hold : ℕ
with_legal_hold = 2 ^ 12

-- `if (b) f |= flag;`
abbrev pub set_flag : Bool → ℕ → ℕ → ℕ
set_flag b flag f = if b then bit_or f flag else f

-- The body of `flags`, for the conditions of its tests in their order
unfoldable pub flags_of : (ct um di cc en la ex li lh : Bool) → ℕ
flags_of ct um di cc en la ex li lh =
    let f = set_flag ct with_content_type 0 in
    let f = set_flag um with_meta f in
    let f = set_flag di with_disposition f in
    let f = set_flag cc with_cache_control f in
    let f = set_flag en with_encoding f in
    let f = set_flag la with_language f in
    let f = set_flag ex with_expires f in
    let f = set_flag li with_lock_info f in set_flag lh with_legal_hold f

-- `ObjMetadata::flags`
unfoldable pub metadata_flags : ObjMetadata → ℕ
metadata_flags m =
    flags_of (has_content_type m.content_type) (has_user_metadata m.user_metadata)
      (has_value m.disposition) (has_value m.cache_control) (has_value m.encoding)
      (has_value m.language) (has_value m.expires) (has_value m.lock_info) m.legal_hold

-- `if (val.has_value()) wdata.addString2(*val);`
unfoldable pub write_value : Option (List ℕ) → CwData → CwData
write_value none = λ w. w
write_value (some val) = add_string_2 val

-- `eventDurationDays * 1000 + eventDurationYears`, which is computed with 32 bits
abbrev pub event_duration : LockInfo → ℕ
event_duration l = (l.event_duration_days * 1000 + l.event_duration_years) % 2 ^ 32

unfoldable pub write_lock_info : Option LockInfo → CwData → CwData
write_lock_info none = λ w. w
write_lock_info (some l) =
    add_int64 l.flags
    >> when_set (retain_until_set l) (add_int64 l.retain_until)
    >> when_set (event_hold l) (add_int64 (event_duration l))

-- `ObjMetadata::serialize`
unfoldable pub write_metadata : ObjMetadata → CwData → CwData
write_metadata m =
    when_set (has_content_type m.content_type) (write_content_type m.content_type)
    >> when_set (has_user_metadata m.user_metadata) (write_user_metadata m.user_metadata)
    >> write_value m.disposition
    >> write_value m.cache_control
    >> write_value m.encoding
    >> write_value m.language
    >> write_value m.expires
    >> write_lock_info m.lock_info

-- `if (b) { … if (!get(&value)) return false; … }` on an object `a`
unfoldable pub read_if {ℓ} :
    {A : Type ℓ} → Bool → (A → CrData → Option A × CrData) → A → CrData → Option A × CrData
read_if b get a = if b then get a else give a

-- The parts of `ObjMetadata::deserialize` on the object `m`
unfoldable pub read_type : ObjMetadata → CrData → Option ObjMetadata × CrData
read_type m = do c ← read_content_type m.content_type; give (record m { content_type = c })

unfoldable pub read_user : ObjMetadata → CrData → Option ObjMetadata × CrData
read_user m = do u ← read_user_metadata m.user_metadata; give (record m { user_metadata = u })

unfoldable pub read_disposition : ObjMetadata → CrData → Option ObjMetadata × CrData
read_disposition m = do val ← get_str_2; give (record m { disposition = some val })

unfoldable pub read_cache_control : ObjMetadata → CrData → Option ObjMetadata × CrData
read_cache_control m = do val ← get_str_2; give (record m { cache_control = some val })

unfoldable pub read_encoding : ObjMetadata → CrData → Option ObjMetadata × CrData
read_encoding m = do val ← get_str_2; give (record m { encoding = some val })

unfoldable pub read_language : ObjMetadata → CrData → Option ObjMetadata × CrData
read_language m = do val ← get_str_2; give (record m { language = some val })

unfoldable pub read_expires : ObjMetadata → CrData → Option ObjMetadata × CrData
read_expires m = do val ← get_str_2; give (record m { expires = some val })

-- The division and the remainder of the source are those of an `int64_t`, towards 0; the results are
-- cut to 32 and 16 bits.
abbrev pub days_of : ℕ → ℕ
days_of d = if ltb d (2 ^ 63) then d / 1000 % 2 ^ 32 else (2 ^ 64 - (2 ^ 64 - d) / 1000) % 2 ^ 32

abbrev pub years_of : ℕ → ℕ
years_of d = if ltb d (2 ^ 63) then d % 1000 % 2 ^ 16 else (2 ^ 64 - (2 ^ 64 - d) % 1000) % 2 ^ 16

unfoldable pub read_retain_until : LockInfo → CrData → Option LockInfo × CrData
read_retain_until l = do sec ← get_int64; give (record l { retain_until = sec })

unfoldable pub read_event_duration : LockInfo → CrData → Option LockInfo × CrData
read_event_duration l = do
  d ← get_int64
  give (record l { event_duration_days = days_of d; event_duration_years = years_of d })

-- The tests look at the flags that were just read.
unfoldable pub read_lock : CrData → Option LockInfo × CrData
read_lock = do
  lock_info_flags ← get_int64
  let l = record no_lock { flags = lock_info_flags % 2 ^ 32 }
  l1 ← read_if (retain_until_set l) read_retain_until l
  read_if (event_hold l) read_event_duration l1

unfoldable pub read_lock_info : ObjMetadata → CrData → Option ObjMetadata × CrData
read_lock_info m = do l ← read_lock; give (record m { lock_info = some l })

-- `ObjMetadata::deserialize`, on the object `m`
unfoldable pub read_metadata : ObjMetadata → ℕ → CrData → Option ObjMetadata × CrData
read_metadata m flags = do
  m ← read_if (has_flag flags with_content_type) read_type m
  m ← read_if (has_flag flags with_meta) read_user m
  m ← read_if (has_flag flags with_disposition) read_disposition m
  m ← read_if (has_flag flags with_cache_control) read_cache_control m
  m ← read_if (has_flag flags with_encoding) read_encoding m
  m ← read_if (has_flag flags with_language) read_language m
  m ← read_if (has_flag flags with_expires) read_expires m
  m ← read_if (has_flag flags with_lock_info) read_lock_info m
  give (if has_flag flags with_legal_hold then record m { legal_hold = true } else m)
