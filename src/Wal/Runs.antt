-- ===== src/Wal/Runs.antt =====
-- An item with a condition that is linked to another one, a commit, and the theorems about them.
use hs.Prelude.{
  ◌%◌, ◌^◌, ◌<◌, map, take, ℕ, ◌≡◌, refl, Bool, true, false, none, some, List, [], ◌∷◌, ◌++◌,
  length, arith, codes,
}
use mathlib.Core.Option.{some-injective}
use hs.Data.Varint.{put_varint}
use hs.Data.Writer.{add_uint, empty, add_buffer, add_char, add_varint, add_string_2}
use hs.Data.Reader.{of_string}
use hs.Data.Memory.{to_memory, little_endian_32, is_big_endian}
use hs.Data.Reader.Stream.{remaining, of_string-Holds}
use hs.Data.Scan.{Scan, Good}
use hs.Wal.{MatchInfo, FragInfo, CommitInfo}
use hs.Wal.Extents.{
  write_exts, write_strings, write_commit_info, no_exts, one_more_ext, no_strings, one_more_string,
  CommitFits,
}
use hs.Wal.Match.{write_optional, write_conditions, write_match_info, match_flags, MatchFits}
use hs.Wal.Frag.{write_own, write_frag_info, read_frag_info, FragFits, last, linked}
use hs.Wal.Frame.{write_data_header, find_records}
use hs.Wal.Recovery.{zeros, written, all_written, no_records, one_record, find_records-written}
use hs.Wal.RoundTrip.{read_frag_info-write_frag_info}

abbrev pub condition : MatchInfo
condition = record {
  read_fn = none;
  if_match = codes "e" ∷ [];
  if_none_match = [];
  if_modified_since = none;
  if_unmodified_since = none;
  protected_check_time = 9;
  read_newest = true;
  check_protected = true;
  bypass_governance = false;
}

abbrev pub item : FragInfo
item = record {
  action = 0;
  fn = codes "k";
  offset = 4096;
  len = 100;
  last_modified = 7;
  md5sum = codes "m";
  extra_exts = record { offset = 8192; len = 5 } ∷ [];
  match_info = some condition;
}

abbrev pub other : FragInfo
other = record {
  action = 1;
  fn = codes "l";
  offset = 0;
  len = 1;
  last_modified = 7;
  md5sum = [];
  extra_exts = [];
  match_info = none;
}

none_is_some : {s : List ℕ} → ¬ (none ≡ some s)
none_is_some e = cc

no_time : {t : ℕ} → ¬ (none ≡ some t)
no_time e = cc

condition-MatchFits : MatchFits condition
condition-MatchFits = record {
  read_fn = λ s e. absurd (none_is_some e);
  if_match = one_more_string (omega arith) no_strings;
  if_match_size = omega arith;
  if_none_match = no_strings;
  if_none_match_size = omega arith;
  modified = λ t e. absurd (no_time e);
  unmodified = λ t e. absurd (no_time e);
  time = omega arith;
}

pub item-FragFits : FragFits true item
item-FragFits = record {
  fn = omega arith;
  offset = omega arith;
  len = omega arith;
  last_modified = omega arith;
  md5sum = omega arith;
  count = omega arith;
  exts = one_more_ext (omega arith) (omega arith) no_exts;
  match = λ i e. (refl, rw (some-injective _ _ e) at condition-MatchFits);
}

pub other-FragFits : (is_first : Bool) → FragFits is_first other
other-FragFits is_first = record {
  fn = omega arith;
  offset = omega arith;
  len = omega arith;
  last_modified = omega arith;
  md5sum = omega arith;
  count = omega arith;
  exts = no_exts;
  match = λ i e. absurd (no_match e);
}
  where
    no_match : {i : MatchInfo} → ¬ (none ≡ some i)
    no_match e = cc

abbrev item_bytes : List ℕ
item_bytes = (write_frag_info item (other ∷ []) empty).bytes ++ 9 ∷ []

item_written : length item_bytes ≡ 35
unfolding write_frag_info write_own write_exts write_strings write_optional write_match_info
    write_conditions match_flags add_char add_string_2 add_varint add_buffer put_varint
item_written = refl

abbrev scan_of : List ℕ → Scan
scan_of bs = record { b = true; reader = of_string bs }

item-Good : Good (scan_of item_bytes) item_bytes
item-Good = record {
  so_far = refl;
  held = of_string-Holds item_bytes (omega (arith, item_written));
}

read_frag_info-write_frag_info_example :
    (s' : Scan) × (read_frag_info 2 77 true (scan_of item_bytes) ≡ some ((item, other ∷ []), s'))
    × Good s' (9 ∷ [])
read_frag_info-write_frag_info_example =
    read_frag_info-write_frag_info 2 77 item (other ∷ []) (scan_of item_bytes) (9 ∷ [])
      (omega arith) item-FragFits (linked (other-FragFits false) last) item-Good

abbrev pub commit : CommitInfo
commit = record {
  data_file_max_size = 10000;
  curr_write_ext_start = 4096;
  curr_write_ext_end = 8192;
  data_file_free = 300;
  curr_transid = 12;
  local_curr_partid = 3;
  local_curr_version = 4;
  reserved_extents = record { offset = 4096; len = 4096 } ∷ [];
}

pub commit-CommitFits : CommitFits commit
commit-CommitFits = record {
  max_size = omega arith;
  start = omega arith;
  end = omega arith;
  free = omega arith;
  transid = omega arith;
  partid = omega arith;
  version = omega arith;
  count = omega arith;
  exts = one_more_ext (omega arith) (omega arith) no_exts;
}

abbrev commit_bytes : List ℕ
commit_bytes = (write_commit_info commit empty).bytes ++ 9 ∷ []

commit_written : length commit_bytes ≡ 17
unfolding write_commit_info write_exts add_varint add_buffer put_varint
commit_written = refl

commit-Good : Good (scan_of commit_bytes) commit_bytes
commit-Good = record {
  so_far = refl;
  held = of_string-Holds commit_bytes (omega (arith, commit_written));
}

-- A stand-in for the checksum
abbrev pub sum_of : List ℕ → ℕ
sum_of bs = length bs % 2 ^ 32

pub sum_of-word : (bs : List ℕ) → sum_of bs < 2 ^ 32
sum_of-word bs = omega arith

header_written : (write_data_header 3 5 empty).bytes ≡ zeros ++ 3 ∷ 5 ∷ []
unfolding write_data_header add_uint little_endian_32 is_big_endian to_memory add_char add_varint
    add_buffer put_varint
header_written = refl

find_records-written_example :
    map remaining (
      find_records sum_of 3
        (all_written sum_of sum_of-word ((2 ∷ 1 ∷ []) ∷ (0 ∷ 1 ∷ 7 ∷ []) ∷ [])
          ++ take 9 (written sum_of sum_of-word (0 ∷ 1 ∷ 8 ∷ [])))
        0)
    ≡ (2 ∷ 1 ∷ []) ∷ (0 ∷ 1 ∷ 7 ∷ []) ∷ []
find_records-written_example =
    find_records-written sum_of sum_of-word 3 9 ((2 ∷ 1 ∷ []) ∷ (0 ∷ 1 ∷ 7 ∷ []) ∷ [])
      (0 ∷ 1 ∷ 8 ∷ []) (omega arith)
      (one_record (omega arith) (omega arith) (one_record (omega arith) (omega arith) no_records))
      (omega arith) (omega arith)
