-- ===== src/Wal/Replay.antt =====
-- src/WalFile.cpp: what `WalFile::read` makes of a record that was written.
use hs.Prelude.{
  ℕ, ◌+◌, ◌*◌, ◌^◌, ◌≤◌, ◌<◌, ◌≡◌, refl, sym, ap, ◌∙◌, Bool, true, false, none, some, List, [], ◌∷◌,
  ◌++◌, length, append-nil, ◌==◌, ==_iff, bytes_eq_refl, if◌then◌else◌, arith,
}
use hs.Data.Varint.{put_varint}
use hs.Data.Writer.{CwData, empty, ◌>>◌, add_string_2}
use hs.Data.Reader.{CrData, get_str_2, max_string}
use hs.Data.Reader.Stream.{Holds}
use hs.Data.Reader.RoundTrip.{get_char-Decodes, get_var_int-Decodes}
use hs.Data.Restore.{Restores, >>-Restores, Restores-map, Restores-read, add_string_2-Restores}
use hs.Wal.{FragInfo, CommitInfo}
use hs.Wal.Extents.{CommitFits}
use hs.Wal.Frag.{FragFits, LinkedFit}
use hs.Wal.RoundTrip.{read_frag_info-write_frag_info, read_commit_info-write_commit_info}
use hs.Wal.Log.{header_data, Entry, frag, file_data, sync, entry_type, type_init, init_string}
use hs.Wal.Read.{
  ReadArgs, ReadState, Round, goes_on, read_item, read_data, write_back, set_commit, read_sync,
  read_by_type, after_number, after_type, read_record, read_header, read_texts, check_texts,
  read_records, returns, throws, aborts,
}
use hs.Wal.Recovery.{written, AllHold, none_held, one_held}
use hs.Wal.Append.{
  checked, header-bytes, Appends-self, when, otherwise, payload, code_of, EntryFits, frag_fits,
  data_fits, sync_fits, rest_read,
}

-- What the header of the file holds behind its number
abbrev pub header_code : List ℕ → List ℕ
header_code wal_uuid = ((add_string_2 init_string >> add_string_2 wal_uuid) empty).bytes

-- The payloads of entries in a file with this number
abbrev pub payloads : ℕ → List Entry → List (List ℕ)
payloads q [] = []
payloads q (e ∷ es) = payload (entry_type e) q (code_of e) ∷ payloads q es

module _ (args : ReadArgs) where
  -- What an entry of the log stands for: an item of the transaction that is looked for, bytes of the
  -- data file, or the information of a commit.
  abbrev pub replay : ReadState → Entry → ReadState
  replay s (frag transid info others) =
      if transid == args.transid then record s { items = s.items ++ (info, others) ∷ [] } else s
  replay s (file_data off bytes) = record s { writes = s.writes ++ (off, bytes) ∷ [] }
  replay s (sync c) = record s { commit_info = some c }

  whole_code : (r : CrData) (code : List ℕ) → Holds r code → Holds r (code ++ [])
  whole_code r code h = record { valid = h.valid; content = h.content ∙ sym (append-nil code) }

  chosen :
      (b : Bool) (x y : ReadState)
      → (if b then goes_on x else goes_on y) ≡ goes_on (if b then x else y)
  chosen true x y = refl
  chosen false x y = refl

  -- There is a data file, and the writes to it succeed.
  pub record WritesBack : Type 0 where
    pub has_data_file : args.has_data_file ≡ true
    pub write_ok : (off : ℕ) (bytes : List ℕ) → args.write_ok off bytes ≡ true

  module _ (s : ReadState) (r : CrData) where
    written_back :
        (off : ℕ) (bytes : List ℕ)
        → WritesBack
        → write_back args s off bytes ≡ goes_on (replay s (file_data off bytes))
    written_back off bytes file = rw (file.has_data_file, file.write_ok off bytes) refl

    read_item_lem :
        (transid : ℕ) (info : FragInfo) (others : List FragInfo)
        → transid < 2 ^ 64
        → length others < args.fuel
        → FragFits true info
        → LinkedFit others
        → Holds r (code_of (frag transid info others))
        → read_item args s r ≡ goes_on (replay s (frag transid info others))
    unfolding read_item
    read_item_lem transid info others ht enough fits links h =
        let (r1, e1, h1) = get_var_int-Decodes transid ht r _ h in
        let (s', e, good) =
          read_frag_info-write_frag_info args.fuel args.junk info others
            (record { b = true; reader = r1 }) [] enough fits links
            (record { so_far = refl; held = whole_code r1 _ h1 }) in
        rw (e1, e, good.so_far)
          (chosen (transid == args.transid) (record s { items = s.items ++ (info, others) ∷ [] }) s)

    read_data_lem :
        (off : ℕ) (bytes : List ℕ)
        → off < 2 ^ 64
        → WritesBack
        → Holds r (code_of (file_data off bytes))
        → read_data args s r ≡ goes_on (replay s (file_data off bytes))
    unfolding read_data
    read_data_lem off bytes ho file h =
        let (r1, e1, h1) = get_var_int-Decodes off ho r bytes h in
        rw (e1, rest_read r1 bytes h1) (written_back off bytes file)

    read_sync_lem :
        (c : CommitInfo)
        → CommitFits c
        → Holds r (code_of (sync c))
        → read_sync args s r ≡ goes_on (replay s (sync c))
    unfolding read_sync
    read_sync_lem c fits h =
        let (s', e, good) =
          read_commit_info-write_commit_info args.junk c (record { b = true; reader = r }) [] fits
            (record { so_far = refl; held = whole_code r _ h }) in
        ap (set_commit args s) e ∙ (rw good.so_far refl)

    -- A record that is not the first, with the number of the file
    accepted :
        (type q : ℕ)
        → type == type_init ≡ false
        → s.has_init ≡ true
        → s.seq_no == q ≡ true
        → after_number args s type (some q, r) ≡ read_by_type args s type r
    accepted type q other init same = rw (init, other, same) refl

    by_type :
        (e : Entry)
        → EntryFits args.fuel e
        → WritesBack
        → Holds r (code_of e)
        → read_by_type args s (entry_type e) r ≡ goes_on (replay s e)
    unfolding read_by_type
    by_type _ (frag_fits {transid} {info} {others} ht enough fits links) file h =
        read_item_lem transid info others ht enough fits links h
    by_type _ (data_fits {off} {bytes} ho) file h = read_data_lem off bytes ho file h
    by_type _ (sync_fits {c} fits) file h = read_sync_lem c fits h

    not_header : (e : Entry) → entry_type e == type_init ≡ false
    not_header (frag transid info others) = refl
    not_header (file_data off bytes) = refl
    not_header (sync c) = refl

  -- A round on the record of an entry does what the entry stands for.
  read_record_lem :
      (s : ReadState) (r : CrData) (q : ℕ) (e : Entry)
      → q < 2 ^ 64
      → s.has_init ≡ true
      → s.seq_no ≡ q
      → WritesBack
      → EntryFits args.fuel e
      → Holds r (payload (entry_type e) q (code_of e))
      → read_record args s r ≡ goes_on (replay s e)
  unfolding read_record
  read_record_lem s r q e hq init same file fits h =
      let (r1, e1, h1) = get_char-Decodes (entry_type e) r (put_varint q ++ code_of e) h in
      let (r2, e2, h2) = get_var_int-Decodes q hq r1 (code_of e) h1 in
      ap (after_type args s) e1
      ∙ ap (after_number args s (entry_type e)) e2
      ∙ accepted s r2 (entry_type e) q (not_header s r2 e) init ((==_iff s.seq_no q).1 same)
      ∙ by_type s r2 e fits file h2

  pub texts_restored :
      length args.wal_uuid ≤ max_string
      → Restores
          (add_string_2 init_string >> add_string_2 args.wal_uuid)
          read_texts
          (init_string, args.wal_uuid)
  unfolding read_texts
  texts_restored short =
      >>-Restores (add_string_2 init_string) (add_string_2 args.wal_uuid) get_str_2 _ init_string
        (init_string, args.wal_uuid) (add_string_2-Restores init_string (omega arith))
        (Restores-map (add_string_2 args.wal_uuid) get_str_2
          (λ (uuid : List ℕ). (init_string, uuid)) args.wal_uuid
          (add_string_2-Restores args.wal_uuid short))

  -- The state behind the header
  abbrev pub started : ℕ → ReadState
  started q = record { has_init = true; seq_no = q; writes = []; items = []; commit_info = none }

  abbrev pub not_started : ℕ → ReadState
  not_started seq_no = record {
    has_init = false;
    seq_no = seq_no;
    writes = [];
    items = [];
    commit_info = none;
  }

  -- The first record is the header.
  header_round :
      (seq_no q : ℕ) (r : CrData)
      → q < 2 ^ 64
      → length args.wal_uuid ≤ max_string
      → Holds r (payload type_init q (header_code args.wal_uuid))
      → read_record args (not_started seq_no) r
        ≡ (if args.init_only then returns (started q) else goes_on (started q))
  unfolding read_record read_header
  header_round seq_no q r hq short h =
      let (r1, e1, h1) =
        get_char-Decodes type_init r (put_varint q ++ header_code args.wal_uuid) h in
      let (r2, e2, h2) = get_var_int-Decodes q hq r1 (header_code args.wal_uuid) h1 in
      let (r3, e3, h3) =
        Restores-read (add_string_2 init_string >> add_string_2 args.wal_uuid) read_texts
          (init_string, args.wal_uuid) r2 [] (texts_restored short) (whole_code r2 _ h2) in
      ap (after_type args (not_started seq_no)) e1
      ∙ ap (after_number args (not_started seq_no) type_init) e2
      ∙ ap (λ o. check_texts args (not_started seq_no) q o.0) e3
      ∙ rw (bytes_eq_refl init_string, bytes_eq_refl args.wal_uuid) refl

  -- What the logged entries stand for together, in their order
  abbrev pub replay_all : ReadState → List Entry → ReadState
  replay_all s [] = s
  replay_all s (e ∷ es) = replay_all (replay s e) es

  pub data AllFit : List Entry → Type 0 where
    no_entries : AllFit []
    one_fits :
        {e : Entry} {es : List Entry}
        → EntryFits args.fuel e
        → 18 + length (code_of e) ≤ 100 * 1024 * 1024
        → AllFit es
        → AllFit (e ∷ es)

  kept_init :
      (b : Bool) (x s : ReadState)
      → x.has_init ≡ s.has_init
      → (if b then x else s).has_init ≡ s.has_init
  kept_init true x s e = e
  kept_init false x s e = refl

  kept_seq_no :
      (b : Bool) (x s : ReadState) → x.seq_no ≡ s.seq_no → (if b then x else s).seq_no ≡ s.seq_no
  kept_seq_no true x s e = e
  kept_seq_no false x s e = refl

  replay-has_init : (s : ReadState) (e : Entry) → (replay s e).has_init ≡ s.has_init
  replay-has_init s (frag transid info others) = kept_init (transid == args.transid) _ s refl
  replay-has_init s (file_data off bytes) = refl
  replay-has_init s (sync c) = refl

  replay-seq_no : (s : ReadState) (e : Entry) → (replay s e).seq_no ≡ s.seq_no
  replay-seq_no s (frag transid info others) = kept_seq_no (transid == args.transid) _ s refl
  replay-seq_no s (file_data off bytes) = refl
  replay-seq_no s (sync c) = refl

  -- The loop on what a round on the first record gives
  abbrev after_round : List CrData → Round → Round
  after_round rs o = elim o as (λ x. Round) [
    | goes_on s' ↦ read_records args s' rs
    | returns s' ↦ returns s'
    | throws ↦ throws
    | aborts ↦ aborts
  ]

  read_on :
      (s : ReadState) (o : Round) (r : CrData) (rs : List CrData)
      → read_record args s r ≡ o
      → read_records args s (r ∷ rs) ≡ after_round rs o
  unfolding read_records
  read_on s o r rs e = ap (after_round rs) e

  -- The loop on the records of entries
  read_entries :
      (s : ReadState) (q : ℕ) (es : List Entry) (rs : List CrData)
      → q < 2 ^ 64
      → s.has_init ≡ true
      → s.seq_no ≡ q
      → WritesBack
      → AllFit es
      → AllHold rs (payloads q es)
      → read_records args s rs ≡ returns (replay_all s es)
  unfolding read_records
  read_entries s q [] _ hq init same file fits none_held = refl
  read_entries s q (e ∷ es) _ hq init same file (one_fits fit small fits) (one_held {r} {rs} h hs) =
      read_on s (goes_on (replay s e)) r rs (read_record_lem s r q e hq init same file fit h)
      ∙ read_entries (replay s e) q es rs hq (replay-has_init s e ∙ init) (replay-seq_no s e ∙ same)
          file fits hs

  -- The loop on the readers of a header and of the entries behind it
  pub read_records_lem :
      (seq_no q : ℕ) (es : List Entry) (rs : List CrData)
      → q < 2 ^ 64
      → args.init_only ≡ false
      → WritesBack
      → length args.wal_uuid ≤ max_string
      → AllFit es
      → AllHold rs (payload type_init q (header_code args.wal_uuid) ∷ payloads q es)
      → read_records args (not_started seq_no) rs ≡ returns (replay_all (started q) es)
  read_records_lem seq_no q es _ hq whole file short fits (one_held {r} {rs} h hs) =
      read_on (not_started seq_no) (goes_on (started q)) r rs
        (header_round seq_no q r hq short h ∙ otherwise whole _ _)
      ∙ read_entries (started q) q es rs hq refl refl file fits hs

  -- The loop when only the number is asked for, and where no record was found
  pub read_records-init_only :
      (seq_no q : ℕ) (ps : List (List ℕ)) (rs : List CrData)
      → q < 2 ^ 64
      → args.init_only ≡ true
      → length args.wal_uuid ≤ max_string
      → AllHold rs (payload type_init q (header_code args.wal_uuid) ∷ ps)
      → read_records args (not_started seq_no) rs ≡ returns (started q)
  read_records-init_only seq_no q ps _ hq only short (one_held {r} {rs} h hs) =
      read_on (not_started seq_no) (returns (started q)) r rs
        (header_round seq_no q r hq short h ∙ when only _ _)

  pub read_records-nothing :
      (seq_no : ℕ) (rs : List CrData)
      → AllHold rs []
      → read_records args (not_started seq_no) rs ≡ returns (not_started seq_no)
  unfolding read_records
  read_records-nothing seq_no _ none_held = refl

  -- What `reset` writes is the record of the header.
  pub header_lem :
      (crc32c : List ℕ → ℕ) (word : (bs : List ℕ) → crc32c bs < 2 ^ 32)
      → length args.wal_uuid ≤ max_string
      → (q : ℕ)
      → (header_data crc32c q args.wal_uuid).bytes
        ≡ written crc32c word (payload type_init q (header_code args.wal_uuid))
  unfolding header_data
  header_lem crc32c word short q =
      ap (λ (d : CwData). d.bytes)
        (checked crc32c word _ _ (
          header-bytes type_init q (add_string_2 init_string >> add_string_2 args.wal_uuid)
            (header_code args.wal_uuid) (Appends-self _ _ (texts_restored short).1)))
