-- ===== src/Wal/Read.antt =====
-- src/WalFile.cpp: `WalFile::read`, which reads the log after a start. The writes to the data file
-- are given in their order; the tracking of dirty blocks is not modelled. `junk` is what a variable without an initial value holds.
use hs.Prelude.{
  ℕ, Bool, true, false, not, ◌&&◌, Option, none, some, List, [], ◌∷◌, ◌++◌, length, take, ◌==◌,
  bytes_eq, if◌then◌else◌,
}
use hs.Data.Reader.{CrData, get_char, get_var_int, get_str_2, get_left, current, ◌>>=◌, give}
use hs.Data.Scan.{Scan}
use hs.Wal.{FragInfo, CommitInfo}
use hs.Wal.Extents.{read_commit_info}
use hs.Wal.Frag.{read_frag_info}
use hs.Wal.Frame.{find_records}
use hs.Wal.Log.{type_frag_info, type_data, type_init, type_sync, init_string}

-- What the function is called with: `initOnly`, whether there is a data file, whether a write to it
-- with its offset and bytes succeeds, and the identifiers
pub record ReadArgs : Type 0 where
  pub transid : ℕ
  pub has_data_file : Bool
  pub write_ok : ℕ → List ℕ → Bool
  pub init_only : Bool
  pub wal_uuid : List ℕ
  pub junk : ℕ
  pub fuel : ℕ

-- `hasInit`, `seqNo`, the writes so far, and `ReadResult` without `itemCommitInfos` and
-- `itemMatchInfos`, which own what the items point to
pub record ReadState : Type 0 where
  pub has_init : Bool
  pub seq_no : ℕ
  pub writes : List (ℕ × List ℕ)
  pub items : List (FragInfo × List FragInfo)
  pub commit_info : Option CommitInfo

-- A round of the loop goes on, returns, throws an exception or aborts the program.
pub data Round : Type 0 where
  goes_on : ReadState → Round
  returns : ReadState → Round
  throws : Round
  aborts : Round

-- Two strings read one after the other
unfoldable pub read_texts : CrData → Option (List ℕ × List ℕ) × CrData
read_texts = do init ← get_str_2; uuid ← get_str_2; give (init, uuid)

-- The value that a getter gives, or what the variable held
abbrev pub value_or : ℕ → Option ℕ → ℕ
value_or junk none = junk
value_or junk (some x) = x

abbrev pub was_read : Option ℕ → Bool
was_read none = false
was_read (some x) = true

module _ (args : ReadArgs) where
  -- The header of the file
  abbrev pub check_texts : ReadState → ℕ → Option (List ℕ × List ℕ) → Round
  check_texts s msg_seq_no none = throws
  check_texts s msg_seq_no (some (init, uuid)) =
      if not (bytes_eq init init_string)
      then throws
      else if not (bytes_eq uuid args.wal_uuid)
      then throws
      else if args.init_only
      then returns (record s { has_init = true; seq_no = msg_seq_no })
      else goes_on (record s { has_init = true; seq_no = msg_seq_no })

  unfoldable pub read_header : ReadState → ℕ → CrData → Round
  read_header s msg_seq_no r =
      if s.has_init then throws else check_texts s msg_seq_no (read_texts r).0

  -- A record of `write`
  abbrev pub add_item : ReadState → Option ((FragInfo × List FragInfo) × Scan) → Round
  add_item s none = aborts
  add_item s (some (item, scan)) =
      if scan.b then goes_on (record s { items = s.items ++ item ∷ [] }) else throws

  unfoldable pub read_item : ReadState → CrData → Round
  read_item s r =
      let (ctransid, rest) = get_var_int r in
      if value_or args.junk ctransid == args.transid
      then add_item s (
          read_frag_info args.fuel args.junk true (record { b = was_read ctransid; reader = rest }))
      else goes_on s

  -- A record of `writeData`
  abbrev pub write_back : ReadState → ℕ → List ℕ → Round
  write_back s data_off bytes =
      if not args.has_data_file
      then throws
      else if not (args.write_ok data_off bytes)
      then throws
      else goes_on (record s { writes = s.writes ++ (data_off, bytes) ∷ [] })

  unfoldable pub read_data : ReadState → CrData → Round
  read_data s r =
      let (data_off, rest) = get_var_int r in
      write_back s (value_or args.junk data_off) (take (get_left rest) (current rest))

  -- A record of `sync`
  abbrev pub set_commit : ReadState → Option (CommitInfo × Scan) → Round
  set_commit s none = aborts
  set_commit s (some (c, scan)) =
      if scan.b then goes_on (record s { commit_info = some c }) else throws

  unfoldable pub read_sync : ReadState → CrData → Round
  read_sync s r = set_commit s (read_commit_info args.junk (record { b = true; reader = r }))

  -- The rest of a round, by the type
  unfoldable pub read_by_type : ReadState → ℕ → CrData → Round
  read_by_type s type r =
      if type == type_frag_info
      then read_item s r
      else if type == type_data
      then read_data s r
      else if type == type_sync
      then read_sync s r
      else throws

  abbrev pub after_number : ReadState → ℕ → Option ℕ × CrData → Round
  after_number s type (none, r) = throws
  after_number s type (some msg_seq_no, r) =
      if not s.has_init && not (type == type_init)
      then throws
      else if type == type_init
      then read_header s msg_seq_no r
      else if s.seq_no == msg_seq_no
      then read_by_type s type r
      else aborts

  abbrev pub after_type : ReadState → Option ℕ × CrData → Round
  after_type s (none, r) = throws
  after_type s (some type, r) = after_number s type (get_var_int r)

  -- A round of the loop, on the reader of its record
  unfoldable pub read_record : ReadState → CrData → Round
  read_record s r = after_type s (get_char r)

  unfoldable pub read_records : ReadState → List CrData → Round
  read_records s [] = returns s
  read_records s (r ∷ rs) = elim (read_record s r) [
    | goes_on s' ↦ read_records s' rs
    | returns s' ↦ returns s'
    | throws ↦ throws
    | aborts ↦ aborts
  ]

-- `read`, of a file with these bytes; `seqNo` is that of the object.
unfoldable pub read_log : (List ℕ → ℕ) → ReadArgs → ℕ → List ℕ → Round
read_log crc32c args seq_no all_data =
    read_records args
      (record { has_init = false; seq_no = seq_no; writes = []; items = []; commit_info = none })
      (find_records crc32c (length all_data) all_data 0)
