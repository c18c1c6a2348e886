-- ===== src/Wal/Recovered.antt =====
-- src/WalFile.cpp: what `WalFile::read` makes of a log that was reset and written to.
use hs.Prelude.{
  ℕ, ◌+◌, ◌*◌, ◌^◌, ◌≤◌, ◌<◌, ◌≡◌, refl, sym, ap, ◌∙◌, Bool, false, some, List, ◌∷◌, ◌++◌, length,
  length-append, take, arith,
}
use mathlib.Core.Path.{subst}
use hs.Data.Varint.{put_varint}
use hs.Data.Varint.RoundTrip.{length-put_varint}
use hs.Data.Reader.{max_string}
use hs.Data.Writer.{add_string_2, add_varint, add_buffer}
use hs.Wal.Frame.{find_records}
use hs.Wal.Recovery.{
  AllHold, AllFramed, no_records, one_record, written, all_written, length-all_written,
  find_records-AllHold,
}
use hs.Wal.Log.{Entry, LogFile, type_init, init_string, reset}
use hs.Wal.Read.{ReadArgs, read_log, returns}
use hs.Wal.Append.{payload, code_of}
use hs.Wal.Replay.{
  payloads, header_code, WritesBack, AllFit, no_entries, one_fits, started, replay_all,
  read_records_lem,
}
use hs.Wal.Logged.{logged, Logs, WriteAppends, Logs-contents, reset-IsReset}

module _ (args : ReadArgs) (short : length args.wal_uuid ≤ max_string) (crc32c : List ℕ → ℕ)
    (word : (bs : List ℕ) → crc32c bs < 2 ^ 32) where
  pub header_framed :
      (q : ℕ)
      → q < 2 ^ 64
      → length (payload type_init q (header_code args.wal_uuid)) ≤ 100 * 1024 * 1024
  unfolding add_string_2 add_varint add_buffer
  header_framed q hq = omega (
    arith,
    length-append (put_varint q) (header_code args.wal_uuid),
    length-append (put_varint (length init_string) ++ init_string)
        (put_varint (length args.wal_uuid)),
    length-append
        ((put_varint (length init_string) ++ init_string) ++ put_varint (length args.wal_uuid))
        args.wal_uuid,
    length-append (put_varint (length init_string)) init_string,
    length-put_varint q hq,
    length-put_varint (length init_string) (omega arith),
    length-put_varint (length args.wal_uuid) (omega (arith, short)),
    short,
  )

  payloads-AllFramed :
      (q : ℕ) (es : List Entry)
      → q < 2 ^ 64
      → AllFit args es
      → AllFramed crc32c word (payloads q es)
  payloads-AllFramed q _ hq no_entries = no_records
  payloads-AllFramed q _ hq (one_fits {e} {es} fit small fits) =
      one_record (omega arith)
        (omega (arith, length-append (put_varint q) (code_of e), length-put_varint q hq, small))
        (payloads-AllFramed q es hq fits)

  -- The header and the records behind it
  unfoldable pub file_payloads : ℕ → List Entry → List (List ℕ)
  file_payloads q es = payload type_init q (header_code args.wal_uuid) ∷ payloads q es

  -- The loop has enough rounds, one for each byte.
  pub found :
      (q : ℕ) (es : List Entry) (contents p : List ℕ) (n : ℕ)
      → q < 2 ^ 64
      → AllFit args es
      → 8 + length p < 2 ^ 32
      → n < 8 + length p
      → contents ≡ all_written crc32c word (file_payloads q es)
      → AllHold
          (find_records crc32c
            (length (contents ++ take n (written crc32c word p)))
            (contents ++ take n (written crc32c word p))
            0)
          (file_payloads q es)
  unfolding file_payloads
  found q es contents p n hq fits small torn e =
      let framed : AllFramed crc32c word (file_payloads q es) =
        one_record (omega arith) (header_framed q hq) (payloads-AllFramed q es hq fits) in
      subst
        (λ bs.
          AllHold
            (find_records crc32c (length (contents ++ take n (written crc32c word p)))
              (bs ++ take n (written crc32c word p)) 0)
            (file_payloads q es))
        (sym e)
        (find_records-AllHold crc32c word _ n (file_payloads q es) p
          (omega (
            arith,
            length-append contents (take n (written crc32c word p)),
            ap length e,
            length-all_written crc32c word (file_payloads q es) framed,
          ))
          framed small torn)

  module _ (pwrite_full : List ℕ → ℕ → List ℕ → List ℕ × Bool)
      (appends : WriteAppends crc32c pwrite_full) where
    pub contents_lem :
        (s0 s1 s2 : LogFile) (es : List Entry)
        → reset crc32c pwrite_full s0 args.wal_uuid ≡ some s1
        → Logs crc32c pwrite_full s1 es s2
        → AllFit args (logged es)
        → s2.contents ≡ all_written crc32c word (file_payloads s1.seq_no (logged es))
    unfolding file_payloads
    contents_lem s0 s1 s2 es started_as steps fits =
        let at_start = reset-IsReset crc32c pwrite_full appends word args short s0 s1 started_as in
        Logs-contents crc32c pwrite_full appends word args s1.seq_no s1 s2 es refl at_start.offset
          fits steps
        ∙ ap (λ bs. bs ++ all_written crc32c word (payloads s1.seq_no (logged es)))
            at_start.contents

    -- If a log is reset with the identifier that `read` is called with, then entries are logged
    -- with success, their records made with any numbers, and then a part of one more record is
    -- written, of which the end is missing, then `read` returns what the entries that `needsWrite`
    -- lets through stand for, in their order: the items of the transaction it is called with, the
    -- writes to the data file and the information of the last commit, with the number of the log.
    -- The entries fit their records, the number of the log has 64 bits, the identifier has up to
    -- 10 MiB, `read` is not called for the header only, there is a data file of which no write
    -- fails, the checksum has 32 bits, and a write to the end of the log that succeeds appends.
    pub read_log-log_entry :
        (s0 s1 s2 : LogFile) (es : List Entry) (p : List ℕ) (n seq_no : ℕ)
        → reset crc32c pwrite_full s0 args.wal_uuid ≡ some s1
        → Logs crc32c pwrite_full s1 es s2
        → AllFit args (logged es)
        → s1.seq_no < 2 ^ 64
        → args.init_only ≡ false
        → WritesBack args
        → 8 + length p < 2 ^ 32
        → n < 8 + length p
        → read_log crc32c args seq_no (s2.contents ++ take n (written crc32c word p))
          ≡ returns (replay_all args (started args s1.seq_no) (logged es))
    unfolding read_log file_payloads
    read_log-log_entry s0 s1 s2 es p n seq_no started_as steps fits hq whole file small torn =
        read_records_lem args seq_no s1.seq_no (logged es) _ hq whole file short fits (
          found s1.seq_no (logged es) s2.contents p n hq fits small torn
            (contents_lem s0 s1 s2 es started_as steps fits))
