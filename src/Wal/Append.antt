-- ===== src/Wal/Append.antt =====
-- src/WalFile.cpp: the bytes that the writing functions append to the log.
use hs.Prelude.{
  ℕ, ◌+◌, ◌-◌, ◌*◌, ◌^◌, ◌≤◌, ◌<◌, ◌≡◌, refl, sym, ap, ap₂, ==_iff, ◌∙◌, Bool, true, false, some,
  List, [], ◌∷◌, ◌++◌, length, length-append, append_assoc, append-nil, take, drop, get_or, ◌==◌,
  Bool-cases, inl, inr, if◌then◌else◌, arith,
}
use hs.Data.Memory.{to_memory, little_endian_32, is_big_endian}
use hs.Data.Varint.{put_varint}
use hs.Data.Varint.RoundTrip.{length-put_varint}
use hs.Data.Writer.{CwData, empty, ◌>>◌, add_buffer, add_char, add_uint, add_varint}
use hs.Data.Reader.{CrData, set_data, get_var_int, get_left, current}
use hs.Data.Reader.Stream.{Holds}
use hs.Data.Reader.RoundTrip.{get_var_int-Decodes, get_left_lem}
use hs.Data.Restore.{Appends}
use hs.Wal.{FragInfo, CommitInfo}
use hs.Wal.Extents.{write_commit_info, CommitFits, commit_info_scanned}
use hs.Wal.Frag.{write_frag_info, FragFits, LinkedFit, frag_info_scanned}
use hs.Wal.Frame.{write_data_header, set_checksum_and_size}
use hs.Wal.Recovery.{length-written, zeros, written, written_lem, set_data-Holds}
use hs.Wal.Log.{
  Entry, frag, file_data, sync, entry_type, entry_body, LogFile, write_record, rewritten,
  write_numbered, write_framed, write_data, log_entry, is_logged,
}

-- A record behind its checksum and size
abbrev pub payload : ℕ → ℕ → List ℕ → List ℕ
payload type seq_no code = type ∷ (put_varint seq_no ++ code)

-- What is written of an entry behind the number of the file
abbrev pub code_of : Entry → List ℕ
code_of (frag transid info others) = put_varint transid ++ (write_frag_info info others empty).bytes
code_of (file_data off bytes) = put_varint off ++ bytes
code_of (sync c) = (write_commit_info c empty).bytes

-- The entry fits its record; `fuel` is above the number of linked items.
pub data EntryFits (fuel : ℕ) : Entry → Type 0 where
  frag_fits :
      {transid : ℕ} {info : FragInfo} {others : List FragInfo}
      → transid < 2 ^ 64
      → length others < fuel
      → FragFits true info
      → LinkedFit others
      → EntryFits fuel (frag transid info others)
  data_fits : {off : ℕ} {bytes : List ℕ} → off < 2 ^ 64 → EntryFits fuel (file_data off bytes)
  sync_fits : {c : CommitInfo} → CommitFits c → EntryFits fuel (sync c)

-- A writing function that appends some code appends what it writes to a new writer.
pub Appends-self :
    (f : CwData → CwData) (code : List ℕ) → Appends f code → Appends f (f empty).bytes
Appends-self f code wrote w = wrote w ∙ ap (λ c. w.bytes ++ c) (sym (wrote empty))

pub entry_body-Appends :
    (fuel : ℕ) (e : Entry) → EntryFits fuel e → Appends (entry_body e) (code_of e)
unfolding add_varint add_buffer
entry_body-Appends fuel _ (frag_fits {transid} {info} {others} ht enough fits links) w =
    Appends-self (write_frag_info info others) _
      (frag_info_scanned fuel 0 true info others enough fits links).1 (add_varint transid w)
    ∙ append_assoc w.bytes (put_varint transid) _
entry_body-Appends fuel _ (data_fits {off} {bytes} ho) w =
    append_assoc w.bytes (put_varint off) bytes
entry_body-Appends fuel _ (sync_fits {c} fits) w =
    Appends-self (write_commit_info c) _ (commit_info_scanned 0 c fits).1 w

pub header-bytes :
    (type seq_no : ℕ) (body : CwData → CwData) (code : List ℕ)
    → Appends body code
    → ((write_data_header type seq_no >> body) empty).bytes ≡ zeros ++ payload type seq_no code
unfolding write_data_header add_uint add_char add_varint add_buffer to_memory little_endian_32
    is_big_endian
header-bytes type seq_no body code wrote = wrote (write_data_header type seq_no empty)

pub when : {b : Bool} {A : Type 0} → b ≡ true → (x y : A) → (if b then x else y) ≡ x
when e x y = rw e refl

pub otherwise : {b : Bool} {A : Type 0} → b ≡ false → (x y : A) → (if b then x else y) ≡ y
otherwise e x y = rw e refl

under_some :
    {A : Type 0} (b : Bool) (x y : A) → (if b then some x else some y) ≡ some (if b then x else y)
under_some true x y = refl
under_some false x y = refl

-- What is left behind the number of a record
pub rest_read : (r : CrData) (code : List ℕ) → Holds r code → take (get_left r) (current r) ≡ code
rest_read r code h = ap (λ n. take n (current r)) (get_left_lem r h.valid) ∙ h.content

module _ (crc32c : List ℕ → ℕ) (word : (bs : List ℕ) → crc32c bs < 2 ^ 32) where
  -- A record behind its frame, byte by byte
  written-drop :
      (type : ℕ) (bs : List ℕ)
      → 9 + length bs < 2 ^ 32
      → drop 9 (written crc32c word (type ∷ bs)) ≡ bs
  unfolding to_memory
  written-drop type bs small = rw (written_lem crc32c word (type ∷ bs) (omega arith)) refl

  written-type :
      (type : ℕ) (bs : List ℕ)
      → 9 + length bs < 2 ^ 32
      → get_or (written crc32c word (type ∷ bs)) 8 0 ≡ type
  unfolding to_memory
  written-type type bs small = rw (written_lem crc32c word (type ∷ bs) (omega arith)) refl

  -- The bytes of a record decide what `setChecksumAndSize` makes of it.
  pub checked :
      (w : CwData) (p : List ℕ)
      → w.bytes ≡ zeros ++ p
      → set_checksum_and_size crc32c w ≡ record { bytes = written crc32c word p }
  checked w p e = ap (λ bs. set_checksum_and_size crc32c (record { bytes = bs })) e

  rewritten_lem :
      (type seq_no : ℕ) (r : CrData) (code : List ℕ)
      → Holds r code
      → rewritten crc32c type seq_no r
        ≡ record { bytes = written crc32c word (payload type seq_no code) }
  unfolding rewritten add_buffer
  rewritten_lem type seq_no r code h = checked _ (payload type seq_no code) (
      header-bytes type seq_no (add_buffer (take (get_left r) (current r))) code
        (λ w. ap (λ c. w.bytes ++ c) (rest_read r code h)))

  -- The record of an entry in this file
  abbrev pub record_of : LogFile → Entry → CwData
  record_of s e = record {
    bytes = written crc32c word (payload (entry_type e) s.seq_no (code_of e));
  }

  module _ (pwrite_full : List ℕ → ℕ → List ℕ → List ℕ × Bool) where
    -- Whatever number the record was made with, the record that is written has the number of the file.
    write_data_lem :
        (s : LogFile) (type seq_no : ℕ) (body : CwData → CwData) (code : List ℕ)
        → Appends body code
        → seq_no < 2 ^ 64
        → 18 + length code ≤ 100 * 1024 * 1024
        → write_data crc32c pwrite_full s ((write_data_header type seq_no >> body) empty)
          ≡ some (
              write_record crc32c pwrite_full s
                (record { bytes = written crc32c word (payload type s.seq_no code) }))
    unfolding write_data
    write_data_lem s type seq_no body code wrote hs small =
        ap (write_framed crc32c pwrite_full s)
          (checked _ _ (header-bytes type seq_no body code wrote))
        ∙ framed_read
      where
        bs : List ℕ
        bs = put_varint seq_no ++ code

        short : 9 + length bs ≤ 100 * 1024 * 1024
        short = omega (arith, length-append (put_varint seq_no) code, length-put_varint seq_no hs)

        held : Holds (set_data (bs ++ []) (length bs) false) bs
        held = set_data-Holds bs [] (omega (arith, short))

        read :
            (r' : CrData) × (get_var_int (set_data (bs ++ []) (length bs) false)
              ≡ (some seq_no, r'))
            × Holds r' code
        read = get_var_int-Decodes seq_no hs _ code held

        framed : CwData
        framed = record { bytes = written crc32c word (type ∷ bs) }

        framed_read :
            write_framed crc32c pwrite_full s framed
            ≡ some (
                write_record crc32c pwrite_full s
                  (record { bytes = written crc32c word (payload type s.seq_no code) }))
        framed_read =
            ap (λ r. write_numbered crc32c pwrite_full s framed (get_var_int r)) same_reader
            ∙ ap (write_numbered crc32c pwrite_full s framed) read.1
            ∙ numbered
          where
            same_reader :
                set_data (drop 9 framed.bytes) (length framed.bytes - 9) false
                ≡ set_data (bs ++ []) (length bs) false
            same_reader =
                ap₂ (λ a n. set_data a n false)
                  (written-drop type bs (omega (arith, short)) ∙ sym (append-nil bs))
                  (omega
                    (arith, short, length-written crc32c word (type ∷ bs) (omega (arith, short))))

            numbered :
                write_numbered crc32c pwrite_full s framed (some seq_no, read.0)
                ≡ some (
                    write_record crc32c pwrite_full s
                      (record { bytes = written crc32c word (payload type s.seq_no code) }))
            numbered = elim (Bool-cases (seq_no == s.seq_no)) [
              | inl e ↦
                  ap (λ d. some (write_record crc32c pwrite_full s d))
                    (when e framed _
                      ∙ ap (λ n. record { bytes = written crc32c word (payload type n code) })
                          ((==_iff seq_no s.seq_no).0 e))
              | inr e ↦
                  ap (λ d. some (write_record crc32c pwrite_full s d))
                    (otherwise e framed _
                      ∙ ap (λ ty. rewritten crc32c ty s.seq_no read.0)
                          (written-type type bs (omega (arith, short)))
                      ∙ rewritten_lem type s.seq_no read.0 code read.2)
            ]

    -- Logging an entry never aborts the program. An entry that is logged is written as a record with the
    -- number of the file, whatever number its record was made with, and one that is not logged leaves
    -- the file as it is and succeeds; a failed write is what is returned. The entry fits its record, of
    -- up to 100 MiB, the number it is made with has 64 bits, and the checksum has 32.
    pub log_entry_lem :
        (fuel : ℕ) (s : LogFile) (seq_no : ℕ) (e : Entry)
        → seq_no < 2 ^ 64
        → EntryFits fuel e
        → 18 + length (code_of e) ≤ 100 * 1024 * 1024
        → log_entry crc32c pwrite_full s seq_no e
          ≡ some
              (if is_logged e then write_record crc32c pwrite_full s (record_of s e) else (s, true))
    unfolding log_entry
    log_entry_lem fuel s seq_no e hs fits small =
        ap (λ o. if is_logged e then o else some (s, true))
          (write_data_lem s (entry_type e) seq_no (entry_body e) (code_of e)
            (entry_body-Appends fuel e fits) hs small)
        ∙ under_some (is_logged e) _ (s, true)
