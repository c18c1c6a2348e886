-- ===== src/Wal/Extents.antt =====
-- src/WalFile.cpp: the lists of extents and of strings in the records, and `CommitInfo`.
use hs.Prelude.{ℕ, zero, suc, ◌^◌, ◌≤◌, ◌<◌, append-nil, append_assoc, List, [], ◌∷◌, ◌++◌, length}
use hs.Data.Writer.{CwData, ◌>>◌, add_varint, add_string_2}
use hs.Data.Reader.{get_var_int, get_str_2, max_string}
use hs.Data.Restore.{add_varint-Restores, add_string_2-Restores}
use hs.Data.Scan.{Scanner, ◌>>=◌, give, scan, Scans, scan-Scans, >>-Scans, give-Scans}
use hs.Wal.{PunchItem, no_item, CommitInfo}

-- The loops that write extents and strings
unfoldable pub write_exts : List PunchItem → CwData → CwData
write_exts [] = λ w. w
write_exts (ext ∷ exts) = add_varint ext.offset >> add_varint ext.len >> write_exts exts

unfoldable pub write_strings : List (List ℕ) → CwData → CwData
write_strings [] = λ w. w
write_strings (s ∷ ss) = add_string_2 s >> write_strings ss

-- `b &= data.getVarInt(&ext.offset); b &= data.getVarInt(&ext.len);`
unfoldable pub read_ext : Scanner PunchItem
read_ext = do
  offset ← scan get_var_int no_item.offset
  len ← scan get_var_int no_item.len
  give record { offset = offset; len = len }

-- The loops that read `n` of them behind those that are there. A size below 0 is compared as a
-- `size_t`, so that `n` is its bit pattern.
unfoldable pub read_exts : ℕ → List PunchItem → Scanner (List PunchItem)
read_exts zero exts = give exts
read_exts (suc n) exts = do ext ← read_ext; read_exts n (exts ++ ext ∷ [])

unfoldable pub read_strings : ℕ → List (List ℕ) → Scanner (List (List ℕ))
read_strings zero ss = give ss
read_strings (suc n) ss = do s ← scan get_str_2 []; read_strings n (ss ++ s ∷ [])

-- `serializeCommitInfo`
unfoldable pub write_commit_info : CommitInfo → CwData → CwData
write_commit_info c =
    add_varint c.data_file_max_size
    >> add_varint c.curr_write_ext_start
    >> add_varint c.curr_write_ext_end
    >> add_varint c.data_file_free
    >> add_varint c.curr_transid
    >> add_varint c.local_curr_partid
    >> add_varint c.local_curr_version
    >> add_varint (length c.reserved_extents)
    >> write_exts c.reserved_extents

-- `deserializeCommitInfo`
unfoldable pub read_commit_info : ℕ → Scanner CommitInfo
read_commit_info junk = do
  max_size ← scan get_var_int junk
  start ← scan get_var_int junk
  end ← scan get_var_int junk
  free ← scan get_var_int junk
  transid ← scan get_var_int junk
  partid ← scan get_var_int junk
  version ← scan get_var_int junk
  reserved_extents_size ← scan get_var_int 0
  exts ← read_exts reserved_extents_size []
  give record {
    data_file_max_size = max_size;
    curr_write_ext_start = start;
    curr_write_ext_end = end;
    data_file_free = free;
    curr_transid = transid;
    local_curr_partid = partid;
    local_curr_version = version;
    reserved_extents = exts;
  }

-- One number, and one string
pub number_scanned : (old v : ℕ) → v < 2 ^ 64 → Scans (add_varint v) (scan get_var_int old) v
number_scanned old v hv = scan-Scans (add_varint v) get_var_int old v (add_varint-Restores v hv)

pub string_scanned :
    (old s : List ℕ) → length s ≤ max_string → Scans (add_string_2 s) (scan get_str_2 old) s
string_scanned old s hs = scan-Scans (add_string_2 s) get_str_2 old s (add_string_2-Restores s hs)

-- Numbers of 64 bits, and strings that `getStr2` takes
pub data ExtsFit : List PunchItem → Type 0 where
  no_exts : ExtsFit []
  one_more_ext :
      {ext : PunchItem} {exts : List PunchItem}
      → ext.offset < 2 ^ 64
      → ext.len < 2 ^ 64
      → ExtsFit exts
      → ExtsFit (ext ∷ exts)

pub data StringsFit : List (List ℕ) → Type 0 where
  no_strings : StringsFit []
  one_more_string :
      {s : List ℕ} {ss : List (List ℕ)}
      → length s ≤ max_string
      → StringsFit ss
      → StringsFit (s ∷ ss)

pub exts_scanned :
    (exts before : List PunchItem)
    → ExtsFit exts
    → Scans (write_exts exts) (read_exts (length exts) before) (before ++ exts)
unfolding write_exts read_exts read_ext
exts_scanned _ before no_exts = rw append-nil (give-Scans before)
exts_scanned _ before (one_more_ext {ext} {exts} ho hl h) =
    >>-Scans (add_varint ext.offset >> add_varint ext.len) (write_exts exts) read_ext _ ext _
      (>>-Scans (add_varint ext.offset) (add_varint ext.len) _ _ ext.offset ext
        (number_scanned no_item.offset ext.offset ho)
        (>>-Scans (add_varint ext.len) (λ w. w) _ _ ext.len ext
          (number_scanned no_item.len ext.len hl) (give-Scans ext)))
      (rw append_assoc at (exts_scanned exts (before ++ ext ∷ []) h))

pub strings_scanned :
    (ss before : List (List ℕ))
    → StringsFit ss
    → Scans (write_strings ss) (read_strings (length ss) before) (before ++ ss)
unfolding write_strings read_strings
strings_scanned _ before no_strings = rw append-nil (give-Scans before)
strings_scanned _ before (one_more_string {s} {ss} hs h) =
    >>-Scans (add_string_2 s) (write_strings ss) _ _ s _ (string_scanned [] s hs)
      (rw append_assoc at (strings_scanned ss (before ++ s ∷ []) h))

-- The information fits the records.
pub record CommitFits (c : CommitInfo) : Type 0 where
  pub max_size : c.data_file_max_size < 2 ^ 64
  pub start : c.curr_write_ext_start < 2 ^ 64
  pub end : c.curr_write_ext_end < 2 ^ 64
  pub free : c.data_file_free < 2 ^ 64
  pub transid : c.curr_transid < 2 ^ 64
  pub partid : c.local_curr_partid < 2 ^ 64
  pub version : c.local_curr_version < 2 ^ 64
  pub count : length c.reserved_extents < 2 ^ 64
  pub exts : ExtsFit c.reserved_extents

pub commit_info_scanned :
    (junk : ℕ) (c : CommitInfo)
    → CommitFits c
    → Scans (write_commit_info c) (read_commit_info junk) c
unfolding write_commit_info read_commit_info
commit_info_scanned junk c fits = >>-Scans _ _ _ _ _ c (number_scanned junk _ fits.max_size) (
    >>-Scans _ _ _ _ _ c (number_scanned junk _ fits.start) (
      >>-Scans _ _ _ _ _ c (number_scanned junk _ fits.end) (
        >>-Scans _ _ _ _ _ c (number_scanned junk _ fits.free) (
          >>-Scans _ _ _ _ _ c (number_scanned junk _ fits.transid) (
            >>-Scans _ _ _ _ _ c (number_scanned junk _ fits.partid) (
              >>-Scans _ _ _ _ _ c (number_scanned junk _ fits.version) (
                >>-Scans _ _ _ _ _ c (number_scanned 0 _ fits.count) (
                  >>-Scans _ (λ w. w) _ _ _ c (exts_scanned c.reserved_extents [] fits.exts)
                    (give-Scans c)))))))))
