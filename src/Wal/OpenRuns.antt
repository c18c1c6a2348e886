-- ===== src/Wal/OpenRuns.antt =====
-- Two files of a log, and the theorems about opening them.
use hs.Prelude.{ℕ, ◌≡◌, ◌≢◌, refl, true, false, List, [], ◌∷◌, ◌++◌, length, take, arith, codes}
use hs.Data.Writer.{add_buffer, add_char, add_varint, add_string_2, add_uint}
use hs.Data.Varint.{put_varint}
use hs.Data.Memory.{to_memory, little_endian_32, is_big_endian}
use hs.Wal.Frame.{write_data_header, set_checksum_and_size, put_uint}
use hs.Wal.Recovery.{written}
use hs.Wal.Log.{LogFile, file_data, header_data, reset}
use hs.Wal.Append.{data_fits}
use hs.Wal.Replay.{one_fits, no_entries}
use hs.Wal.Logged.{entry_logged, nothing_logged}
use hs.Wal.Open.{opened, open_aborts, open_files}
use hs.Wal.Opening.{IsLog, open_files-newest, open_files-torn}
use hs.Wal.Runs.{sum_of, sum_of-word}
use hs.Wal.LogRuns.{
  append_file, append_file-appends, new_log, args, after_reset, reset_done, next, logs, data_code,
}

-- The first file holds some bytes of the data file, and its last record is cut.
abbrev primary : List ℕ
primary =
    (next after_reset (file_data 4096 (7 ∷ 8 ∷ []))).contents
    ++ take 9 (written sum_of sum_of-word (0 ∷ 5 ∷ 1 ∷ []))

primary-IsLog :
    IsLog args (omega arith) sum_of sum_of-word append_file append_file-appends 5 primary
primary-IsLog = record {
  before = new_log;
  at_reset = after_reset;
  behind = next after_reset (file_data 4096 (7 ∷ 8 ∷ []));
  entries = file_data 4096 (7 ∷ 8 ∷ []) ∷ [];
  cut = 0 ∷ 5 ∷ 1 ∷ [];
  kept = 9;
  reset_to = reset_done;
  steps =
      entry_logged {seq_no = 5} (omega arith)
        (logs _ 5 _ (omega arith) (data_fits (omega arith)) (omega (arith, data_code)) refl)
        nothing_logged;
  fits = one_fits (data_fits (omega arith)) (omega (arith, data_code)) no_entries;
  number = refl;
  number_fits = omega arith;
  small = omega arith;
  torn = omega arith;
  content = refl;
}

-- The second one was reset.
abbrev after_switch : LogFile
after_switch = record {
  contents = (header_data sum_of 6 (codes "u")).bytes;
  offset = length (header_data sum_of 6 (codes "u")).bytes;
  items = 0;
  seq_no = 6;
}

abbrev alt : List ℕ
alt = after_switch.contents ++ take 0 (written sum_of sum_of-word [])

alt-IsLog : IsLog args (omega arith) sum_of sum_of-word append_file append_file-appends 6 alt
unfolding reset
alt-IsLog = record {
  before = after_reset;
  at_reset = after_switch;
  behind = after_switch;
  entries = [];
  cut = [];
  kept = 0;
  reset_to = refl;
  steps = nothing_logged;
  fits = no_entries;
  number = refl;
  number_fits = omega arith;
  small = omega arith;
  torn = omega arith;
  content = refl;
}

other_number : ◌≢◌ {A = ℕ} 5 6
other_number e = omega (arith, e)

header_size : length (header_data sum_of 6 (codes "u")).bytes ≡ 25
unfolding header_data write_data_header set_checksum_and_size put_uint add_uint add_char add_varint
    add_buffer add_string_2 put_varint to_memory little_endian_32 is_big_endian
header_size = refl

open_files-newest_example : open_files sum_of args primary alt ≡ opened true 6 false
open_files-newest_example =
    open_files-newest args (omega arith) sum_of sum_of-word append_file append_file-appends 5 6
      primary alt primary-IsLog alt-IsLog other_number

open_files-torn_example :
    open_files sum_of args primary (take 20 (header_data sum_of 6 (codes "u")).bytes) ≡ open_aborts
open_files-torn_example =
    open_files-torn args (omega arith) sum_of sum_of-word append_file append_file-appends 5 6 20
      primary primary-IsLog (omega arith) (omega arith) (omega arith) (omega (arith, header_size))
