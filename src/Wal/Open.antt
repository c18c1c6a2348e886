-- ===== src/Wal/Open.antt =====
-- src/WalFile.cpp: the constructor `WalFile::WalFile`, which chooses one of the two files of the log by
-- their numbers. The reset of a chosen file that is empty is said by the result.
use hs.Prelude.{ℕ, Bool, true, false, not, ◌&&◌, List, length, ◌==◌, if◌then◌else◌}
use hs.Retention.{signed_lt}
use hs.Wal.Read.{ReadArgs, Round, goes_on, returns, throws, aborts, read_log}

-- `useAltFile`, `seqNo`, and whether the file in use is empty; an exception; the end of the program
pub data Opening : Type 0 where
  opened : Bool → ℕ → Bool → Opening
  open_throws : Opening
  open_aborts : Opening

-- The call `read(0, nullptr, true, …)`
abbrev pub init_args : ReadArgs → ReadArgs
init_args args = record args { transid = 0; has_data_file = false; init_only = true }

module _ (crc32c : List ℕ → ℕ) (args : ReadArgs) (primary alt : List ℕ) where
  -- What follows the reading of both files
  unfoldable pub finish : Bool → ℕ → ℕ → ℕ → Opening
  finish use_alt primary_seq_no alt_seq_no seq_no =
      if not (primary_seq_no == 0) && (primary_seq_no == alt_seq_no)
      then open_aborts
      else opened use_alt seq_no (length (if use_alt then alt else primary) == 0)

  -- Behind the reading of the second file; `read` never goes on to more rounds.
  abbrev pub after_alt : ℕ → Round → Opening
  after_alt primary_seq_no (goes_on s) =
      finish (signed_lt primary_seq_no s.seq_no) primary_seq_no s.seq_no s.seq_no
  after_alt primary_seq_no (returns s) =
      finish (signed_lt primary_seq_no s.seq_no) primary_seq_no s.seq_no s.seq_no
  after_alt primary_seq_no throws = open_throws
  after_alt primary_seq_no aborts = open_aborts

  unfoldable pub open_alt : ℕ → ℕ → Opening
  open_alt primary_seq_no seq_no =
      if length alt == 0
      then finish false primary_seq_no 0 seq_no
      else after_alt primary_seq_no (read_log crc32c (init_args args) seq_no alt)

  abbrev pub after_primary : Round → Opening
  after_primary (goes_on s) = open_alt s.seq_no s.seq_no
  after_primary (returns s) = open_alt s.seq_no s.seq_no
  after_primary throws = open_throws
  after_primary aborts = open_aborts

  unfoldable pub open_files : Opening
  open_files =
      if length primary == 0
      then open_alt 0 1
      else after_primary (read_log crc32c (init_args args) 1 primary)
