-- ===== src/Wal/Log.antt =====
-- src/WalFile.cpp: writing to the log, with one of its files. `pwriteFull` and `crc32c` are
-- arguments: the first gives the content of the file after a write and whether all was written.
-- `truncate` and the synchronization of a file are not modelled, but for the empty file.
use hs.Prelude.{
  ℕ, ◌+◌, ◌-◌, Bool, true, false, ◌||◌, Option, none, some, List, [], ◌∷◌, length, drop, take,
  get_or, ◌==◌, codes, if◌then◌else◌,
}
use hs.Data.Writer.{CwData, empty, ◌>>◌, add_buffer, add_varint, add_string_2}
use hs.Data.Reader.{CrData, set_data, get_var_int, get_left, current}
use hs.Wal.{FragInfo, CommitInfo}
use hs.Wal.Extents.{write_commit_info}
use hs.Wal.Frag.{write_frag_info}
use hs.Wal.Frame.{write_data_header, set_checksum_and_size}

-- `dataType…` and the text of the header
abbrev pub type_frag_info : ℕ
type_frag_info = 0

abbrev pub type_data : ℕ
type_data = 1

abbrev pub type_init : ℕ
type_init = 2

abbrev pub type_sync : ℕ
type_sync = 3

abbrev pub init_string : List ℕ
init_string = codes "WALFILE_INIT"

-- The numbers of the `FragAction` that `needsWrite` lists, in its order
abbrev pub one_of : ℕ → List ℕ → Bool
one_of a [] = false
one_of a (x ∷ xs) = (a == x) || one_of a xs

abbrev pub written_actions : List ℕ
written_actions = 0 ∷ 1 ∷ 6 ∷ 16 ∷ 14 ∷ 15 ∷ 7 ∷ 11 ∷ 19 ∷ 20 ∷ 22 ∷ []

unfoldable pub needs_write : FragInfo → Bool
needs_write info = one_of info.action written_actions

-- `AddFreemapWal` and `DelFreemapWal`, as `writeAddFreemapExt` and `writeDelFreemapExt` make them
abbrev pub freemap_info : ℕ → ℕ → ℕ → FragInfo
freemap_info action off len = record {
  action = action;
  fn = [];
  offset = off;
  len = len;
  last_modified = 0;
  md5sum = [];
  extra_exts = [];
  match_info = none;
}

-- The current file with `offset`, `_items` and `seqNo`
pub record LogFile : Type 0 where
  pub contents : List ℕ
  pub offset : ℕ
  pub items : ℕ
  pub seq_no : ℕ

-- What is logged: `write` with the item and those it is linked to, the public `writeData`, `sync`
pub data Entry : Type 0 where
  frag : ℕ → FragInfo → List FragInfo → Entry
  file_data : ℕ → List ℕ → Entry
  sync : CommitInfo → Entry

-- Its type, and what is written behind the header of the record
abbrev pub entry_type : Entry → ℕ
entry_type (frag transid info others) = type_frag_info
entry_type (file_data off bytes) = type_data
entry_type (sync c) = type_sync

abbrev pub entry_body : Entry → CwData → CwData
entry_body (frag transid info others) = add_varint transid >> write_frag_info info others
entry_body (file_data off bytes) = add_varint off >> add_buffer bytes
entry_body (sync c) = write_commit_info c

-- The first test of `write`
abbrev pub is_logged : Entry → Bool
is_logged (frag transid info others) = needs_write info
is_logged (file_data off bytes) = true
is_logged (sync c) = true

-- The record again, with the number of the file
unfoldable pub rewritten : (List ℕ → ℕ) → ℕ → ℕ → CrData → CwData
rewritten crc32c type seq_no check =
    set_checksum_and_size crc32c
      ((write_data_header type seq_no >> add_buffer (take (get_left check) (current check))) empty)

-- The header that `reset` writes
unfoldable pub header_data : (List ℕ → ℕ) → ℕ → List ℕ → CwData
header_data crc32c seq_no wal_uuid = set_checksum_and_size crc32c (
    (write_data_header type_init seq_no >> add_string_2 init_string >> add_string_2 wal_uuid) empty)

module _ (crc32c : List ℕ → ℕ) (pwrite_full : List ℕ → ℕ → List ℕ → List ℕ × Bool) where
  -- `pwriteFull` to the end of the log, and `++_items`; the second component is what is returned.
  unfoldable pub write_record : LogFile → CwData → LogFile × Bool
  write_record s w =
      let (contents, ok) = pwrite_full s.contents s.offset w.bytes in
      if ok
      then (
        record s { contents = contents; offset = s.offset + length w.bytes; items = s.items + 1 },
        true,
      )
      else (record s { contents = contents }, false)

  -- The first half of the private `writeData`, from the number of the record on; `none` where the
  -- program is aborted.
  abbrev pub write_numbered : LogFile → CwData → Option ℕ × CrData → Option (LogFile × Bool)
  write_numbered s d (none, check) = none
  write_numbered s d (some msg_seq_no, check) = some (
      write_record s (
        if msg_seq_no == s.seq_no then d else rewritten crc32c (get_or d.bytes 8 0) s.seq_no check))

  abbrev pub write_framed : LogFile → CwData → Option (LogFile × Bool)
  write_framed s d =
      write_numbered s d (get_var_int (set_data (drop 9 d.bytes) (length d.bytes - 9) false))

  unfoldable pub write_data : LogFile → CwData → Option (LogFile × Bool)
  write_data s w = write_framed s (set_checksum_and_size crc32c w)

  -- The record is made with the number `seq_no`, which is read before the lock is taken.
  unfoldable pub log_entry : LogFile → ℕ → Entry → Option (LogFile × Bool)
  log_entry s seq_no e =
      if is_logged e
      then write_data s ((write_data_header (entry_type e) seq_no >> entry_body e) empty)
      else some (s, true)

  -- `reset` of the current file: `truncate`, and the header of the file; `none` where the program
  -- is aborted.
  unfoldable pub reset : LogFile → List ℕ → Option LogFile
  reset s wal_uuid =
      let header = header_data crc32c (s.seq_no + 1) wal_uuid in
      let (contents, ok) = pwrite_full [] 0 header.bytes in
      if ok
      then some (record {
        contents = contents;
        offset = length header.bytes;
        items = 0;
        seq_no = s.seq_no + 1;
      })
      else none
