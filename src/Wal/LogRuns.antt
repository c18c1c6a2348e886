-- ===== src/Wal/LogRuns.antt =====
-- A log with an item, bytes of the data file and a commit, and the theorems about it.
use hs.Prelude.{
  ℕ, ◌+◌, ◌*◌, ◌^◌, ◌≤◌, ◌<◌, ◌≡◌, refl, ap, ◌∙◌, true, false, Bool, some, List, [], ◌∷◌, ◌++◌,
  length, take, arith, codes,
}
use hs.Data.Varint.{put_varint}
use hs.Data.Writer.{add_char, add_varint, add_string_2, add_buffer}
use hs.Wal.{FragInfo}
use hs.Wal.Extents.{write_exts, write_strings, write_commit_info}
use hs.Wal.Match.{write_optional, write_conditions, write_match_info, match_flags}
use hs.Wal.Frag.{write_own, write_frag_info, last, linked}
use hs.Wal.Recovery.{written}
use hs.Wal.Log.{
  is_logged, needs_write, Entry, frag, file_data, sync, LogFile, write_record, log_entry,
  header_data, reset,
}
use hs.Wal.Read.{ReadArgs, read_log, returns}
use hs.Wal.Append.{
  EntryFits, when, code_of, frag_fits, data_fits, sync_fits, record_of, log_entry_lem,
}
use hs.Wal.Replay.{AllFit, one_fits, no_entries}
use hs.Wal.Logged.{logged, Logs, entry_logged, nothing_logged, WriteAppends}
use hs.Wal.Recovered.{read_log-log_entry}
use hs.Wal.Runs.{
  item, other, commit, sum_of, item-FragFits, other-FragFits, commit-CommitFits, sum_of-word,
}

-- Writing at the end appends and succeeds.
abbrev pub append_file : List ℕ → ℕ → List ℕ → List ℕ × Bool
append_file bs off ws = (bs ++ ws, true)

pub append_file-appends : WriteAppends sum_of append_file
append_file-appends bs ws e = refl

abbrev pub new_log : LogFile
new_log = record { contents = []; offset = 0; items = 0; seq_no = 4 }

abbrev pub args : ReadArgs
args = record {
  transid = 12;
  has_data_file = true;
  write_ok = λ off bytes. true;
  init_only = false;
  wal_uuid = codes "u";
  junk = 77;
  fuel = 2;
}

-- The action of the second item is `Commit`, which is not logged; the third is of another transaction.
abbrev commit_item : FragInfo
commit_item = record item { action = 3 }

abbrev entries : List Entry
entries =
    frag 12 item (other ∷ [])
    ∷ frag 12 commit_item []
    ∷ frag 11 other []
    ∷ file_data 4096 (7 ∷ 8 ∷ [])
    ∷ sync commit
    ∷ []

item_code : length (code_of (frag 12 item (other ∷ []))) ≡ 35
unfolding write_frag_info write_own write_exts write_strings write_optional write_match_info
    write_conditions match_flags add_char add_string_2 add_varint add_buffer put_varint
item_code = refl

other_code : length (code_of (frag 11 other [])) ≡ 11
unfolding write_frag_info write_own write_exts write_strings write_optional write_match_info
    write_conditions match_flags add_char add_string_2 add_varint add_buffer put_varint
other_code = refl

commit_code : length (code_of (sync commit)) ≡ 16
unfolding write_commit_info write_exts add_varint add_buffer put_varint
commit_code = refl

pub data_code : length (code_of (file_data 4096 (7 ∷ 8 ∷ []))) ≡ 4
unfolding put_varint
data_code = refl

item-EntryFits : EntryFits 2 (frag 12 item (other ∷ []))
item-EntryFits =
    frag_fits (omega arith) (omega arith) item-FragFits (linked (other-FragFits false) last)

other-EntryFits : EntryFits 2 (frag 11 other [])
other-EntryFits = frag_fits (omega arith) (omega arith) (other-FragFits true) last

entries-AllFit : AllFit args (logged entries)
unfolding needs_write
entries-AllFit = one_fits item-EntryFits (omega (arith, item_code)) (
    one_fits other-EntryFits (omega (arith, other_code)) (
      one_fits (data_fits (omega arith)) (omega (arith, data_code))
        (one_fits (sync_fits commit-CommitFits) (omega (arith, commit_code)) no_entries)))

abbrev pub after_reset : LogFile
after_reset = record {
  contents = (header_data sum_of 5 (codes "u")).bytes;
  offset = length (header_data sum_of 5 (codes "u")).bytes;
  items = 0;
  seq_no = 5;
}

pub reset_done : reset sum_of append_file new_log (codes "u") ≡ some after_reset
unfolding reset
reset_done = refl

-- The log behind the record of an entry
pub next : LogFile → Entry → LogFile
next s e = (write_record sum_of append_file s (record_of sum_of sum_of-word s e)).0

pub logs :
    (s : LogFile) (seq_no : ℕ) (e : Entry)
    → seq_no < 2 ^ 64
    → EntryFits 2 e
    → 18 + length (code_of e) ≤ 100 * 1024 * 1024
    → is_logged e ≡ true
    → log_entry sum_of append_file s seq_no e ≡ some (next s e, true)
unfolding write_record next
logs s seq_no e hs fits small is =
    log_entry_lem sum_of sum_of-word append_file 2 s seq_no e hs fits small
    ∙ ap some (when is _ (s, true))

skips :
    (s : LogFile) (seq_no : ℕ)
    → log_entry sum_of append_file s seq_no (frag 12 commit_item []) ≡ some (s, true)
unfolding log_entry needs_write
skips s seq_no = refl

-- The log behind all of them; the first record is made with the number that the file had before.
abbrev after_item : LogFile
after_item = next after_reset (frag 12 item (other ∷ []))

abbrev after_entries : LogFile
after_entries =
    next (next (next after_item (frag 11 other [])) (file_data 4096 (7 ∷ 8 ∷ []))) (sync commit)

entries-Logs : Logs sum_of append_file after_reset entries after_entries
unfolding needs_write
entries-Logs =
    entry_logged {seq_no = 4} (omega arith)
      (logs _ 4 _ (omega arith) item-EntryFits (omega (arith, item_code)) refl)
      (entry_logged {seq_no = 5} (omega arith) (skips _ 5) (
        entry_logged {seq_no = 5} (omega arith)
          (logs _ 5 _ (omega arith) other-EntryFits (omega (arith, other_code)) refl)
          (entry_logged {seq_no = 5} (omega arith)
            (logs _ 5 _ (omega arith) (data_fits (omega arith)) (omega (arith, data_code)) refl)
            (entry_logged {seq_no = 5} (omega arith)
              (logs _ 5 _ (omega arith) (sync_fits commit-CommitFits) (omega (arith, commit_code))
                refl)
              nothing_logged))))

log_entry_lem_example :
    log_entry sum_of append_file after_reset 4 (sync commit)
    ≡ some (
        write_record sum_of append_file after_reset
          (record_of sum_of sum_of-word after_reset (sync commit)))
log_entry_lem_example =
    log_entry_lem sum_of sum_of-word append_file 2 after_reset 4 (sync commit) (omega arith)
      (sync_fits commit-CommitFits) (omega (arith, commit_code))

read_log-log_entry_example :
    read_log sum_of args 0
      (after_entries.contents ++ take 9 (written sum_of sum_of-word (0 ∷ 5 ∷ 1 ∷ [])))
    ≡ returns (record {
      has_init = true;
      seq_no = 5;
      writes = (4096, 7 ∷ 8 ∷ []) ∷ [];
      items = (item, other ∷ []) ∷ [];
      commit_info = some commit;
    })
unfolding needs_write
read_log-log_entry_example =
    read_log-log_entry args (omega arith) sum_of sum_of-word append_file append_file-appends new_log
      after_reset after_entries entries (0 ∷ 5 ∷ 1 ∷ []) 9 0 reset_done entries-Logs entries-AllFit
      (omega arith) refl (record { has_data_file = refl; write_ok = λ off bytes. refl })
      (omega arith) (omega arith)
