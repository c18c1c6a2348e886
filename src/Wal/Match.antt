-- ===== src/Wal/Match.antt =====
-- src/WalFile.cpp: the conditions of a change, in the records.
use hs.Prelude.{
  ℕ, ◌^◌, ◌≤◌, ◌<◌, ◌≡◌, refl, Bool, true, false, not, Option, none, some, List, [], length, ◌==◌,
  if◌then◌else◌, bit_and, bit_or, Bool-cases, inl, inr, ==_iff,
}
use hs.Data.Writer.{CwData, ◌>>◌, when_set, add_char, add_varint, add_string_2}
use hs.Data.Reader.{get_char, get_var_int, get_str_2, max_string}
use hs.Data.Restore.{add_char-Restores}
use hs.Data.Scan.{Scanner, ◌>>=◌, give, scan, Scans, scan-Scans, >>-Scans, give-Scans}
use hs.Wal.{MatchInfo}
use hs.Wal.Extents.{
  write_strings, read_strings, number_scanned, string_scanned, StringsFit, strings_scanned,
}

-- `matchInfoFlag…`
abbrev pub match_read_newest : ℕ
match_read_newest = 1

abbrev pub match_check_protected : ℕ
match_check_protected = 2

abbrev pub match_bypass_governance : ℕ
match_bypass_governance = 4

abbrev pub match_with_check_time : ℕ
match_with_check_time = 8

-- `if (b) flags |= flag;`
abbrev set_flag : Bool → ℕ → ℕ → ℕ
set_flag b flag flags = if b then bit_or flags flag else flags

-- `flags` in `serializeMatchInfo`, for the conditions of its tests
unfoldable pub match_flags : (newest protected bypass time : Bool) → ℕ
match_flags newest protected bypass time =
    let flags = set_flag newest match_read_newest 0 in
    let flags = set_flag protected match_check_protected flags in
    let flags = set_flag bypass match_bypass_governance flags in
    set_flag time match_with_check_time flags

abbrev test_flag : ℕ → ℕ → Bool
test_flag flags flag = not (bit_and flags flag == 0)

abbrev has_check_time : MatchInfo → Bool
has_check_time i = not (i.protected_check_time == 0)

-- `if (x) { data.addChar(1); data.add(*x); } else { data.addChar(0); }`
unfoldable pub write_optional {ℓ} :
    {A : Type ℓ} → (A → CwData → CwData) → Option A → CwData → CwData
write_optional add none = add_char 0
write_optional add (some a) = add_char 1 >> add a

-- The reader of the same: a `char` and, unless it is 0, the value
unfoldable pub read_optional {ℓ} : {A : Type ℓ} → ℕ → Scanner A → Scanner (Option A)
read_optional junk get = do
  has ← scan get_char junk
  if has == 0 then give none else (do a ← get; give (some a))

-- `serializeMatchInfo` behind the flags
unfoldable pub write_conditions : MatchInfo → CwData → CwData
write_conditions i =
    when_set (has_check_time i) (add_varint i.protected_check_time)
    >> add_varint (length i.if_match)
    >> write_strings i.if_match
    >> add_varint (length i.if_none_match)
    >> write_strings i.if_none_match
    >> write_optional add_varint i.if_modified_since
    >> write_optional add_varint i.if_unmodified_since

-- `serializeMatchInfo`, which always returns true
unfoldable pub write_match_info : MatchInfo → CwData → CwData
write_match_info i =
    write_optional add_string_2 i.read_fn
    >> add_char (match_flags i.read_newest i.check_protected i.bypass_governance (has_check_time i))
    >> write_conditions i

unfoldable pub read_check_time : Bool → Scanner ℕ
read_check_time b = if b then scan get_var_int 0 else give 0

-- `deserializeMatchInfo` behind the flags, for what the flags say
unfoldable pub read_conditions :
    ℕ → Option (List ℕ) → (newest protected bypass with_time : Bool) → Scanner MatchInfo
read_conditions junk read_fn newest protected bypass with_time = do
  time ← read_check_time with_time
  if_match_size ← scan get_var_int 0
  if_match ← read_strings if_match_size []
  if_none_match_size ← scan get_var_int 0
  if_none_match ← read_strings if_none_match_size []
  modified ← read_optional junk (scan get_var_int junk)
  unmodified ← read_optional junk (scan get_var_int junk)
  give record {
    read_fn = read_fn;
    if_match = if_match;
    if_none_match = if_none_match;
    if_modified_since = modified;
    if_unmodified_since = unmodified;
    protected_check_time = time;
    read_newest = newest;
    check_protected = protected;
    bypass_governance = bypass;
  }

-- `deserializeMatchInfo`, on a new object
unfoldable pub read_match_info : ℕ → Scanner MatchInfo
read_match_info junk = do
  read_fn ← read_optional junk (scan get_str_2 [])
  flags ← scan get_char junk
  read_conditions junk read_fn (test_flag flags match_read_newest)
      (test_flag flags match_check_protected) (test_flag flags match_bypass_governance)
      (test_flag flags match_with_check_time)

pub char_scanned : (junk c : ℕ) → Scans (add_char c) (scan get_char junk) c
char_scanned junk c = scan-Scans (add_char c) get_char junk c (add_char-Restores c)

-- An optional value, of which the reader restores what is there.
pub optional_scanned {ℓ} :
    {A : Type ℓ} (junk : ℕ) (add : A → CwData → CwData) (get : Scanner A) (o : Option A)
    → ((a : A) → o ≡ some a → Scans (add a) get a)
    → Scans (write_optional add o) (read_optional junk get) o
unfolding write_optional read_optional
optional_scanned junk add get none there =
    >>-Scans (add_char 0) (λ w. w) _ _ 0 none (char_scanned junk 0) (give-Scans none)
optional_scanned junk add get (some a) there =
    >>-Scans (add_char 1) (add a) _ _ 1 (some a) (char_scanned junk 1)
      (>>-Scans (add a) (λ w. w) get _ a (some a) (there a refl) (give-Scans (some a)))

time_scanned :
    (v : ℕ)
    → v < 2 ^ 64
    → Scans (when_set (not (v == 0)) (add_varint v)) (read_check_time (not (v == 0))) v
unfolding read_check_time
time_scanned v hv = elim (Bool-cases (v == 0)) [
  | inl e ↦ let zero_v : v ≡ 0 = (==_iff v 0).0 e in rw zero_v (give-Scans {A = ℕ} 0)
  | inr e ↦ rw e (number_scanned 0 v hv)
]

-- The conditions fit the records.
pub record MatchFits (i : MatchInfo) : Type 0 where
  pub read_fn : (s : List ℕ) → i.read_fn ≡ some s → length s ≤ max_string
  pub if_match : StringsFit i.if_match
  pub if_match_size : length i.if_match < 2 ^ 64
  pub if_none_match : StringsFit i.if_none_match
  pub if_none_match_size : length i.if_none_match < 2 ^ 64
  pub modified : (t : ℕ) → i.if_modified_since ≡ some t → t < 2 ^ 64
  pub unmodified : (t : ℕ) → i.if_unmodified_since ≡ some t → t < 2 ^ 64
  pub time : i.protected_check_time < 2 ^ 64

-- The flags are read back, and fit into a `char`.
flags_read :
    (newest protected bypass time : Bool)
    → let flags = match_flags newest protected bypass time in
      (test_flag flags match_read_newest ≡ newest)
      × (test_flag flags match_check_protected ≡ protected)
      × (test_flag flags match_bypass_governance ≡ bypass)
      × (test_flag flags match_with_check_time ≡ time)
unfolding match_flags
flags_read false false false false = (refl, refl, refl, refl)
flags_read true false false false = (refl, refl, refl, refl)
flags_read false true false false = (refl, refl, refl, refl)
flags_read true true false false = (refl, refl, refl, refl)
flags_read false false true false = (refl, refl, refl, refl)
flags_read true false true false = (refl, refl, refl, refl)
flags_read false true true false = (refl, refl, refl, refl)
flags_read true true true false = (refl, refl, refl, refl)
flags_read false false false true = (refl, refl, refl, refl)
flags_read true false false true = (refl, refl, refl, refl)
flags_read false true false true = (refl, refl, refl, refl)
flags_read true true false true = (refl, refl, refl, refl)
flags_read false false true true = (refl, refl, refl, refl)
flags_read true false true true = (refl, refl, refl, refl)
flags_read false true true true = (refl, refl, refl, refl)
flags_read true true true true = (refl, refl, refl, refl)

conditions_scanned :
    (junk : ℕ) (i : MatchInfo)
    → MatchFits i
    → Scans
        (write_conditions i)
        (read_conditions junk i.read_fn i.read_newest i.check_protected i.bypass_governance
          (has_check_time i))
        i
unfolding write_conditions read_conditions
conditions_scanned junk i fits =
    >>-Scans _ _ _ _ _ i (time_scanned i.protected_check_time fits.time) (
      >>-Scans _ _ _ _ _ i (number_scanned 0 _ fits.if_match_size) (
        >>-Scans _ _ _ _ _ i (strings_scanned i.if_match [] fits.if_match) (
          >>-Scans _ _ _ _ _ i (number_scanned 0 _ fits.if_none_match_size) (
            >>-Scans _ _ _ _ _ i (strings_scanned i.if_none_match [] fits.if_none_match) (
              >>-Scans _ _ _ _ _ i
                (optional_scanned junk add_varint (scan get_var_int junk) i.if_modified_since
                  (λ t e. number_scanned junk t (fits.modified t e)))
                (>>-Scans _ (λ w. w) _ _ _ i
                  (optional_scanned junk add_varint (scan get_var_int junk) i.if_unmodified_since
                    (λ t e. number_scanned junk t (fits.unmodified t e)))
                  (give-Scans i)))))))

pub match_info_scanned :
    (junk : ℕ) (i : MatchInfo) → MatchFits i → Scans (write_match_info i) (read_match_info junk) i
unfolding write_match_info read_match_info
match_info_scanned junk i fits =
    let flags =
      match_flags i.read_newest i.check_protected i.bypass_governance (has_check_time i) in
    let (e1, e2, e3, e4) =
      flags_read i.read_newest i.check_protected i.bypass_governance (has_check_time i) in
    >>-Scans (write_optional add_string_2 i.read_fn) (add_char flags >> write_conditions i) _ _
      i.read_fn i
      (optional_scanned junk add_string_2 (scan get_str_2 []) i.read_fn
        (λ s e. string_scanned [] s (fits.read_fn s e)))
      (>>-Scans (add_char flags) (write_conditions i) _ _ flags i (char_scanned junk flags)
        (rw (e1, e2, e3, e4) (conditions_scanned junk i fits)))
