-- ===== src/Wal/Opening.antt =====
-- src/WalFile.cpp: which of its two files a log uses after a start.
use hs.Prelude.{
  ℕ, ◌+◌, ◌^◌, ◌≤◌, ◌<◌, ◌≡◌, ◌≢◌, refl, sym, ap, ap₂, ◌∙◌, Bool, true, false, some, List, [], ◌++◌,
  length, length-append, take, length-take, ltb, ◌==◌, if◌then◌else◌, arith,
}
use mathlib.Core.Path.{subst}
use hs.Data.Reader.{max_string}
use hs.Retention.{signed_lt}
use hs.Wal.Frame.{find_records}
use hs.Wal.Recovery.{
  AllHold, no_records, written, length-written, all_written, find_records-AllHold,
}
use hs.Wal.Log.{type_init, Entry, LogFile, header_data, reset}
use hs.Wal.Read.{ReadArgs, returns, read_log}
use hs.Wal.Append.{payload, otherwise}
use hs.Wal.Replay.{
  header_code, payloads, AllFit, started, not_started, header_lem, read_records-init_only,
  read_records-nothing,
}
use hs.Wal.Logged.{logged, Logs, WriteAppends}
use hs.Wal.Recovered.{file_payloads, found, contents_lem, header_framed}
use hs.Wal.Open.{
  opened, open_aborts, init_args, finish, after_alt, open_alt, after_primary, open_files,
}

module _ (args : ReadArgs) (short : length args.wal_uuid ≤ max_string) (crc32c : List ℕ → ℕ)
    (word : (bs : List ℕ) → crc32c bs < 2 ^ 32) (pwrite_full : List ℕ → ℕ → List ℕ → List ℕ × Bool)
    (appends : WriteAppends crc32c pwrite_full) where
  -- The content of a log with the number `q`: the log was reset with `args.wal_uuid`, entries were
  -- logged, and a part of one more record was written.
  pub record IsLog (q : ℕ) (contents : List ℕ) : Type 0 where
    pub before : LogFile
    pub at_reset : LogFile
    pub behind : LogFile
    pub entries : List Entry
    pub cut : List ℕ
    pub kept : ℕ
    pub reset_to : reset crc32c pwrite_full before args.wal_uuid ≡ some at_reset
    pub steps : Logs crc32c pwrite_full at_reset entries behind
    pub fits : AllFit (init_args args) (logged entries)
    pub number : at_reset.seq_no ≡ q
    pub number_fits : q < 2 ^ 63
    pub small : 8 + length cut < 2 ^ 32
    pub torn : kept < 8 + length cut
    pub content : contents ≡ behind.contents ++ take kept (written crc32c word cut)

  module _ (q : ℕ) (contents : List ℕ) (log : IsLog q contents) where
    records :
        log.behind.contents
        ≡ all_written crc32c word
            (file_payloads (init_args args) short crc32c word q (logged log.entries))
    records =
        contents_lem (init_args args) short crc32c word pwrite_full appends log.before log.at_reset
          log.behind log.entries log.reset_to log.steps log.fits
        ∙ ap
            (λ n.
              all_written crc32c word
                (file_payloads (init_args args) short crc32c word n (logged log.entries)))
            log.number

    IsLog-read :
        (seq_no : ℕ)
        → read_log crc32c (init_args args) seq_no contents ≡ returns (started (init_args args) q)
    unfolding read_log file_payloads
    IsLog-read seq_no =
        ap (λ bs. read_log crc32c (init_args args) seq_no bs) log.content
        ∙ read_records-init_only (init_args args) seq_no q (payloads q (logged log.entries)) _
            (omega (arith, log.number_fits)) refl short
            (found (init_args args) short crc32c word q (logged log.entries) log.behind.contents
              log.cut log.kept (omega (arith, log.number_fits)) log.fits log.small log.torn records)

    IsLog-length : length contents == 0 ≡ false
    unfolding file_payloads
    IsLog-length =
        let header = payload type_init q (header_code args.wal_uuid) in
        let others = all_written crc32c word (payloads q (logged log.entries)) in
        let size =
          header_framed (init_args args) short crc32c word q (omega (arith, log.number_fits)) in
        ground (
          arith,
          ap length log.content,
          length-append log.behind.contents (take log.kept (written crc32c word log.cut)),
          ap length records,
          length-append (written crc32c word header) others,
          length-written crc32c word header (omega (arith, size)),
        )

  -- A header of which the end is missing
  torn_header-read :
      (seq_no q n : ℕ)
      → q < 2 ^ 64
      → 0 < n
      → n < length (header_data crc32c q args.wal_uuid).bytes
      → read_log crc32c (init_args args) seq_no (take n (header_data crc32c q args.wal_uuid).bytes)
        ≡ returns (not_started (init_args args) seq_no)
  unfolding read_log
  torn_header-read seq_no q n hq some_n torn =
      let whole = header_lem args crc32c word short q in
      let size = header_framed args short crc32c word q hq in
      let len =
        length-written crc32c word (payload type_init q (header_code args.wal_uuid))
          (omega (arith, size)) in
      read_records-nothing (init_args args) seq_no _ (
        subst (λ bs. AllHold (find_records crc32c (length (take n bs)) (take n bs) 0) [])
          (sym whole)
          (find_records-AllHold crc32c word _ n [] (payload type_init q (header_code args.wal_uuid))
            (omega (
              arith,
              length-take n (written crc32c word (payload type_init q (header_code args.wal_uuid))),
              some_n,
              len,
              size,
            ))
            no_records (omega (arith, size)) (omega (arith, torn, len, ap length whole))))

  signed_lt_lem : (a b : ℕ) → a < 2 ^ 63 → b < 2 ^ 63 → signed_lt a b ≡ ltb a b
  unfolding signed_lt
  signed_lt_lem a b ha hb = ap₂ ltb (omega (arith, ha)) (omega (arith, hb)) ∙ shifted
    where
      shifted : ltb (a + 2 ^ 63) (b + 2 ^ 63) ≡ ltb a b
      shifted = ground arith

  module _ (primary alt : List ℕ) (b : Bool) (seq_no : ℕ) where
    finish-opened :
        (q1 q2 : ℕ)
        → q1 ≢ q2
        → length (if b then alt else primary) == 0 ≡ false
        → finish crc32c args primary alt b q1 q2 seq_no ≡ opened b seq_no false
    unfolding finish
    finish-opened q1 q2 different some_bytes = rw some_bytes (ground (arith, different))

    finish-aborts : (q : ℕ) → 0 < q → finish crc32c args primary alt b q q seq_no ≡ open_aborts
    unfolding finish
    finish-aborts q some_q = ground (arith, some_q)

  -- The first file is a log.
  open_files-primary :
      (q : ℕ) (primary alt : List ℕ)
      → IsLog q primary
      → open_files crc32c args primary alt ≡ open_alt crc32c args primary alt q q
  unfolding open_files
  open_files-primary q primary alt log =
      otherwise (IsLog-length q primary log) _ _
      ∙ ap (after_primary crc32c args primary alt) (IsLog-read q primary log 1)

  -- If the two files are logs with different numbers below 2^63, each reset with the identifier that the
  -- log is opened with, then written to, and each possibly with a part of one more record at its end,
  -- then the constructor takes the file with the greater number, which it does not reset, and leaves
  -- the number of the second file. The entries fit their records, the identifier has up to 10 MiB,
  -- the checksum has 32 bits, and a write to the end of a file that succeeds appends.
  pub open_files-newest :
      (q1 q2 : ℕ) (primary alt : List ℕ)
      → IsLog q1 primary
      → IsLog q2 alt
      → q1 ≢ q2
      → open_files crc32c args primary alt ≡ opened (ltb q1 q2) q2 false
  unfolding open_alt
  open_files-newest q1 q2 primary alt first second different =
      open_files-primary q1 primary alt first
      ∙ otherwise (IsLog-length q2 alt second) _ _
      ∙ ap (after_alt crc32c args primary alt q1) (IsLog-read q2 alt second q1)
      ∙ finished
    where
      in_use : (b : Bool) → length (if b then alt else primary) == 0 ≡ false
      in_use true = IsLog-length q2 alt second
      in_use false = IsLog-length q1 primary first

      finished :
          finish crc32c args primary alt (signed_lt q1 q2) q1 q2 q2 ≡ opened (ltb q1 q2) q2 false
      finished =
          finish-opened primary alt (signed_lt q1 q2) q2 q1 q2 different (in_use (signed_lt q1 q2))
          ∙ ap (λ b. opened b q2 false) (signed_lt_lem q1 q2 first.number_fits second.number_fits)

  -- If the first file is such a log, with a number above 0 and below 2^63, and the second holds only the
  -- beginning of a header, at least one byte and not all of it, then the constructor aborts the program.
  -- The number of that header has 64 bits, and else the conditions are the same.
  pub open_files-torn :
      (q q' n : ℕ) (primary : List ℕ)
      → IsLog q primary
      → 0 < q
      → q' < 2 ^ 64
      → 0 < n
      → n < length (header_data crc32c q' args.wal_uuid).bytes
      → open_files crc32c args primary (take n (header_data crc32c q' args.wal_uuid).bytes)
        ≡ open_aborts
  unfolding open_alt
  open_files-torn q q' n primary log some_q hq' some_n torn =
      open_files-primary q primary _ log
      ∙ otherwise some_bytes _ _
      ∙ ap (after_alt crc32c args primary _ q) (torn_header-read q q' n hq' some_n torn)
      ∙ finish-aborts primary _ _ q q some_q
    where
      some_bytes : length (take n (header_data crc32c q' args.wal_uuid).bytes) == 0 ≡ false
      some_bytes = ground (arith, length-take n (header_data crc32c q' args.wal_uuid).bytes)
