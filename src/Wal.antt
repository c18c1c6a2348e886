-- ===== src/Wal.antt =====
-- src/WalFile.cpp: the records of the write-ahead log, with the types of src/SingleFileStorage.h and
-- src/WalFile.h. Numbers of the type `int64_t` are bit patterns. `junk` is what a variable without
-- an initial value holds, which matters only where a getter fails.
pub mod Extents
pub mod Match
pub mod Frag
pub mod RoundTrip
pub mod Frame
pub mod Recovery
pub mod Log
pub mod Read
pub mod Append
pub mod Replay
pub mod Logged
pub mod Recovered
pub mod Open
pub mod Opening
mod Runs
mod LogRuns
mod OpenRuns
use hs.Prelude.{ℕ, ◌-◌, ◌^◌, Bool, Option, none, List, []}

-- `SPunchItem`, and the one that the constructor makes
pub record PunchItem : Type 0 where
  pub offset : ℕ
  pub len : ℕ

abbrev pub no_item : PunchItem
no_item = record { offset = 2 ^ 64 - 1; len = 0 }

-- `MatchInfo`, without the bits of the result, which are not in the records
pub record MatchInfo : Type 0 where
  pub read_fn : Option (List ℕ)
  pub if_match : List (List ℕ)
  pub if_none_match : List (List ℕ)
  pub if_modified_since : Option ℕ
  pub if_unmodified_since : Option ℕ
  pub protected_check_time : ℕ
  pub read_newest : Bool
  pub check_protected : Bool
  pub bypass_governance : Bool

-- `SFragInfo` without `linked`: with the ones it is linked to, it is a list that is not empty.
-- `action` is the number of the `FragAction`, as the records hold it. `match_info` is
-- `commit_info->match_info`, the only part of the commit information that is in the records.
pub record FragInfo : Type 0 where
  pub action : ℕ
  pub fn : List ℕ
  pub offset : ℕ
  pub len : ℕ
  pub last_modified : ℕ
  pub md5sum : List ℕ
  pub extra_exts : List PunchItem
  pub match_info : Option MatchInfo

-- `WalFile::CommitInfo`
pub record CommitInfo : Type 0 where
  pub data_file_max_size : ℕ
  pub curr_write_ext_start : ℕ
  pub curr_write_ext_end : ℕ
  pub data_file_free : ℕ
  pub curr_transid : ℕ
  pub local_curr_partid : ℕ
  pub local_curr_version : ℕ
  pub reserved_extents : List PunchItem
