-- ===== src/Wal/Logged.antt =====
-- src/WalFile.cpp: what a log holds after it was reset and entries were written to it, and what
-- `WalFile::read` makes of it.
use hs.Prelude.{
  ℕ, ◌+◌, ◌*◌, ◌^◌, ◌≤◌, ◌<◌, ◌≡◌, refl, sym, ap, ◌∙◌, Bool, true, false, Option, none, some, List,
  [], ◌∷◌, ◌++◌, length, length-append, append_assoc, append-nil, Bool-cases, inl, inr,
  if◌then◌else◌, arith,
}
use mathlib.Core.Option.{some-injective, some-ne-none}
use mathlib.Core.Path.{subst}
use hs.Data.Reader.{max_string}
use hs.Data.Writer.{CwData}
use hs.Wal.Recovery.{written, all_written}
use hs.Wal.Log.{
  Entry, LogFile, is_logged, entry_type, type_init, write_record, log_entry, header_data, reset,
}
use hs.Wal.Read.{ReadArgs}
use hs.Wal.Append.{payload, code_of, EntryFits, when, otherwise, record_of, log_entry_lem}
use hs.Wal.Replay.{payloads, header_code, header_lem, AllFit, one_fits}

-- The entries that are written, of those that are logged
abbrev pub logged : List Entry → List Entry
logged [] = []
logged (e ∷ es) = let rest = logged es in if is_logged e then e ∷ rest else rest

module _ (crc32c : List ℕ → ℕ) (pwrite_full : List ℕ → ℕ → List ℕ → List ℕ × Bool) where
  -- Entries logged one after the other, all with success; each record is made with some number.
  pub data Logs : LogFile → List Entry → LogFile → Type 0 where
    nothing_logged : {s : LogFile} → Logs s [] s
    entry_logged :
        {s s' s'' : LogFile} {seq_no : ℕ} {e : Entry} {es : List Entry}
        → seq_no < 2 ^ 64
        → log_entry crc32c pwrite_full s seq_no e ≡ some (s', true)
        → Logs s' es s''
        → Logs s (e ∷ es) s''

  -- A write to the end of a file that succeeds appends.
  abbrev pub WriteAppends : Type 0
  WriteAppends =
      (bs ws : List ℕ)
      → (pwrite_full bs (length bs) ws).1 ≡ true
      → (pwrite_full bs (length bs) ws).0 ≡ bs ++ ws

  -- What a step that succeeds does to the file
  record Extends (s s' : LogFile) (bytes : List ℕ) : Type 0 where
    contents : s'.contents ≡ s.contents ++ bytes
    offset : s'.offset ≡ length s'.contents
    seq_no : s'.seq_no ≡ s.seq_no

  module _ (appends : WriteAppends) where
    -- `pwriteFull` with what it returned
    abbrev after_write : LogFile → List ℕ → List ℕ × Bool → LogFile × Bool
    after_write s ws (contents, ok) =
        if ok
        then (
          record s { contents = contents; offset = s.offset + length ws; items = s.items + 1 },
          true,
        )
        else (record s { contents = contents }, false)

    after_write-Extends :
        (s s' : LogFile) (ws contents : List ℕ) (ok : Bool)
        → s.offset ≡ length s.contents
        → (ok ≡ true → contents ≡ s.contents ++ ws)
        → after_write s ws (contents, ok) ≡ (s', true)
        → Extends s s' ws
    after_write-Extends s s' ws contents false at_end appended e =
        let h = ap (λ (p : LogFile × Bool). p.1) e in cc
    after_write-Extends s s' ws contents true at_end appended e =
        subst (λ x. Extends s x ws) (ap (λ p. p.0) e)
          record {
            contents = appended refl;
            offset = omega (arith, at_end, ap length (appended refl), length-append s.contents ws);
            seq_no = refl;
          }

    write_record-Extends :
        (s s' : LogFile) (w : CwData)
        → s.offset ≡ length s.contents
        → write_record crc32c pwrite_full s w ≡ (s', true)
        → Extends s s' w.bytes
    unfolding write_record
    write_record-Extends s s' w at_end e =
        after_write-Extends s s' w.bytes (pwrite_full s.contents s.offset w.bytes).0
          (pwrite_full s.contents s.offset w.bytes).1 at_end
          (subst
            (λ n.
              (pwrite_full s.contents n w.bytes).1 ≡ true
              → (pwrite_full s.contents n w.bytes).0 ≡ s.contents ++ w.bytes)
            (sym at_end) (appends s.contents w.bytes))
          e

    module _ (word : (bs : List ℕ) → crc32c bs < 2 ^ 32) where
      log_entry-Extends :
          (fuel : ℕ) (s s' : LogFile) (seq_no : ℕ) (e : Entry)
          → seq_no < 2 ^ 64
          → EntryFits fuel e
          → 18 + length (code_of e) ≤ 100 * 1024 * 1024
          → s.offset ≡ length s.contents
          → is_logged e ≡ true
          → log_entry crc32c pwrite_full s seq_no e ≡ some (s', true)
          → Extends s s' (record_of crc32c word s e).bytes
      log_entry-Extends fuel s s' seq_no e hs fits small at_end is eq =
          write_record-Extends s s' _ at_end (
            sym (when is _ (s, true))
            ∙ some-injective _ _
                (sym (log_entry_lem crc32c word pwrite_full fuel s seq_no e hs fits small) ∙ eq))

      not_logged :
          (s s' : LogFile) (seq_no : ℕ) (e : Entry)
          → is_logged e ≡ false
          → log_entry crc32c pwrite_full s seq_no e ≡ some (s', true)
          → s ≡ s'
      unfolding log_entry
      not_logged s s' seq_no e is eq =
          ap (λ p. p.0) (some-injective _ _ (sym (otherwise is _ _) ∙ eq))

      -- The content behind one more record, and then behind the others
      behind :
          (q : ℕ) (s s1 s2 : LogFile) (e : Entry) (es : List Entry)
          → s.seq_no ≡ q
          → Extends s s1 (written crc32c word (payload (entry_type e) q (code_of e)))
          → s2.contents ≡ s1.contents ++ all_written crc32c word (payloads q es)
          → s2.contents ≡ s.contents ++ all_written crc32c word (payloads q (e ∷ es))
      behind q s s1 s2 e es eq ext rest =
          rest
          ∙ ap (λ bs. bs ++ all_written crc32c word (payloads q es)) ext.contents
          ∙ append_assoc s.contents _ (all_written crc32c word (payloads q es))

      module _ (args : ReadArgs) where
        -- Entries that are logged with success put the records of those that are written behind the
        -- content, each with the number of the file.
        pub Logs-contents :
            (q : ℕ) (s s2 : LogFile) (es : List Entry)
            → s.seq_no ≡ q
            → s.offset ≡ length s.contents
            → AllFit args (logged es)
            → Logs s es s2
            → s2.contents ≡ s.contents ++ all_written crc32c word (payloads q (logged es))
        Logs-contents q s _ _ same at_end fits nothing_logged = sym (append-nil s.contents)
        Logs-contents q s s2 _ same at_end fits (entry_logged {s'} {seq_no} {e} {es} hs step rest) =
            elim (Bool-cases (is_logged e)) [
              | inl is ↦
                  subst (λ l. s2.contents ≡ s.contents ++ all_written crc32c word (payloads q l))
                    (sym (when is (e ∷ logged es) (logged es)))
                    (one_more
                      (λ same' at_end' fits'. Logs-contents q s' s2 es same' at_end' fits' rest) is
                      (subst (AllFit args) (when is (e ∷ logged es) (logged es)) fits))
              | inr is ↦
                  subst (λ l. s2.contents ≡ s.contents ++ all_written crc32c word (payloads q l))
                    (sym (otherwise is (e ∷ logged es) (logged es)))
                    (subst
                      (λ (t : LogFile).
                        t.seq_no ≡ q
                        → t.offset ≡ length t.contents
                        → s2.contents
                          ≡ t.contents ++ all_written crc32c word (payloads q (logged es)))
                      (sym (not_logged s s' seq_no e is step))
                      (λ same' at_end'.
                        Logs-contents q s' s2 es same' at_end'
                          (subst (AllFit args) (otherwise is (e ∷ logged es) (logged es)) fits)
                          rest)
                      same at_end)
            ]
          where
            one_more :
                (s'.seq_no ≡ q
                  → s'.offset ≡ length s'.contents
                  → AllFit args (logged es)
                  → s2.contents ≡ s'.contents ++ all_written crc32c word (payloads q (logged es)))
                → is_logged e ≡ true
                → AllFit args (e ∷ logged es)
                → s2.contents ≡ s.contents ++ all_written crc32c word (payloads q (e ∷ logged es))
            one_more next is (one_fits fit small fits') =
                let ext =
                  subst
                    (λ n. Extends s s' (written crc32c word (payload (entry_type e) n (code_of e))))
                    same (log_entry-Extends args.fuel s s' seq_no e hs fit small at_end is step) in
                behind q s s' s2 e (logged es) same ext (next (ext.seq_no ∙ same) ext.offset fits')

        module _ (short : length args.wal_uuid ≤ max_string) where
          -- The file with the header alone
          pub record IsReset (s : LogFile) : Type 0 where
            pub contents :
                s.contents
                ≡ written crc32c word (payload type_init s.seq_no (header_code args.wal_uuid))
            pub offset : s.offset ≡ length s.contents

          -- `reset` with what `pwriteFull` returned
          abbrev after_header : LogFile → List ℕ → List ℕ × Bool → Option LogFile
          after_header s ws (contents, ok) =
              if ok
              then some (record {
                contents = contents;
                offset = length ws;
                items = 0;
                seq_no = s.seq_no + 1;
              })
              else none

          after_header-IsReset :
              (s s' : LogFile) (contents : List ℕ) (ok : Bool)
              → (ok ≡ true → contents ≡ (header_data crc32c (s.seq_no + 1) args.wal_uuid).bytes)
              → after_header s
                  (header_data crc32c (s.seq_no + 1) args.wal_uuid).bytes
                  (contents, ok)
                ≡ some s'
              → IsReset s'
          after_header-IsReset s s' contents false appended e = absurd (some-ne-none _ (sym e))
          after_header-IsReset s s' contents true appended e =
              subst IsReset (some-injective _ _ e) record {
                contents = appended refl ∙ header_lem args crc32c word short (s.seq_no + 1);
                offset = ap length (sym (appended refl));
              }

          pub reset-IsReset :
              (s s' : LogFile) → reset crc32c pwrite_full s args.wal_uuid ≡ some s' → IsReset s'
          unfolding reset
          reset-IsReset s s' e =
              after_header-IsReset s s' _ _
                (appends [] (header_data crc32c (s.seq_no + 1) args.wal_uuid).bytes) e
