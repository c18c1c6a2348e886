-- ===== src/Wal/Recovery.antt =====
-- src/WalFile.cpp: the loop of `WalFile::read` on the bytes of records, the last of which may be cut.
use hs.Prelude.{
  ℕ, zero, suc, ◌+◌, ◌-◌, ◌*◌, ◌%◌, ◌^◌, ◌≤◌, ◌<◌, ◌≡◌, refl, sym, ap, ap₂, ◌∙◌, none, some, List,
  [], ◌∷◌, ◌++◌, map, length, length-append, append_assoc, take, drop, take-length, take-append,
  drop-append, drop-take, take-take, drop-drop, length-take, ltb, ◌==◌, ==_iff, ltb→lt, Bool-cases,
  inl, inr, false, true, arith,
}
use hs.Data.Memory.{to_memory, from_memory}
use hs.Data.Memory.Swap.{length-to_memory, from_memory-to_memory}
use hs.Data.Reader.{CrData, set_data}
use hs.Data.Reader.Stream.{remaining, Holds}
use mathlib.Core.Path.{subst}
use hs.Data.Reader.RoundTrip.{from_memory-take}
use hs.Wal.Frame.{wrap_sub, put_uint, set_checksum_and_size, next_record, find_records}

abbrev pub zeros : List ℕ
zeros = 0 ∷ 0 ∷ 0 ∷ 0 ∷ 0 ∷ 0 ∷ 0 ∷ 0 ∷ []

remaining-set_data :
    (p rest : List ℕ)
    → length p ≤ 100 * 1024 * 1024
    → remaining (set_data (p ++ rest) (length p) false) ≡ p
unfolding set_data
remaining-set_data p rest h = ap (λ n. take n (p ++ rest)) (omega arith) ∙ take-append p rest

-- Each reader holds its payload.
pub data AllHold : List CrData → List (List ℕ) → Type 0 where
  none_held : AllHold [] []
  one_held :
      {r : CrData} {rs : List CrData} {p : List ℕ} {ps : List (List ℕ)}
      → Holds r p
      → AllHold rs ps
      → AllHold (r ∷ rs) (p ∷ ps)

remaining-AllHold : (rs : List CrData) (ps : List (List ℕ)) → AllHold rs ps → map remaining rs ≡ ps
remaining-AllHold _ _ none_held = refl
remaining-AllHold _ _ (one_held h hs) = ap₂ (λ a b. a ∷ b) h.content (remaining-AllHold _ _ hs)

pub set_data-Holds :
    (p rest : List ℕ)
    → length p ≤ 100 * 1024 * 1024
    → Holds (set_data (p ++ rest) (length p) false) p
unfolding set_data
set_data-Holds p rest h = record {
  valid = record {
    position = omega arith;
    buffer = omega (arith, length-append p rest);
    limit = omega arith;
  };
  content = remaining-set_data p rest h;
}

module _ (crc32c : List ℕ → ℕ) (word : (bs : List ℕ) → crc32c bs < 2 ^ 32) where
  -- The size and what follows it
  abbrev sized : List ℕ → List ℕ
  sized p = to_memory 4 (8 + length p) ++ p

  abbrev framed : List ℕ → List ℕ
  framed p = to_memory 4 (crc32c (sized p)) ++ sized p

  length-sized : (p : List ℕ) → length (sized p) ≡ 4 + length p
  length-sized p =
      omega (arith, length-append (to_memory 4 (8 + length p)) p, length-to_memory 4 (8 + length p))

  length-framed : (p : List ℕ) → length (framed p) ≡ 8 + length p
  length-framed p = omega (
    arith,
    length-append (to_memory 4 (crc32c (sized p))) (sized p),
    length-to_memory 4 (crc32c (sized p)),
    length-sized p,
  )

  drop_word : (x : ℕ) (bs : List ℕ) → drop 4 (to_memory 4 x ++ bs) ≡ bs
  drop_word x bs =
      ap (λ n. drop n (to_memory 4 x ++ bs)) (sym (length-to_memory 4 x))
      ∙ drop-append (to_memory 4 x) bs

  length-behind :
      (pre p rest : List ℕ)
      → length (pre ++ (framed p ++ rest)) ≡ length pre + (8 + length p) + length rest
  length-behind pre p rest =
      omega (
        arith,
        length-append pre (framed p ++ rest),
        length-append (framed p) rest,
        length-framed p,
      )

  sized_behind : (p rest : List ℕ) → drop 4 (framed p ++ rest) ≡ sized p ++ rest
  sized_behind p rest =
      ap (drop 4) (append_assoc (to_memory 4 (crc32c (sized p))) (sized p) rest)
      ∙ drop_word (crc32c (sized p)) (sized p ++ rest)

  payload_behind : (p rest : List ℕ) → drop 8 (framed p ++ rest) ≡ p ++ rest
  payload_behind p rest =
      sym (drop-drop 4 4 (framed p ++ rest))
      ∙ ap (drop 4) (sized_behind p rest)
      ∙ ap (drop 4) (append_assoc (to_memory 4 (8 + length p)) p rest)
      ∙ drop_word (8 + length p) (p ++ rest)

  crc_read : (p rest : List ℕ) → from_memory 4 (framed p ++ rest) ≡ crc32c (sized p)
  crc_read p rest =
      ap (from_memory 4) (append_assoc (to_memory 4 (crc32c (sized p))) (sized p) rest)
      ∙ from_memory-to_memory 4 (crc32c (sized p)) (sized p ++ rest) (word (sized p))

  size_read :
      (p rest : List ℕ) → 8 + length p < 2 ^ 32 → from_memory 4 (sized p ++ rest) ≡ 8 + length p
  size_read p rest small =
      ap (from_memory 4) (append_assoc (to_memory 4 (8 + length p)) p rest)
      ∙ from_memory-to_memory 4 (8 + length p) (p ++ rest) small

  checked :
      (p rest : List ℕ)
      → 8 + length p < 2 ^ 32
      → take (wrap_sub (8 + length p) 4) (sized p ++ rest) ≡ sized p
  checked p rest small =
      ap (λ n. take n (sized p ++ rest)) (omega (arith, length-sized p))
      ∙ take-append (sized p) rest

  same_crc : (x : ℕ) → (x == x) ≡ true
  same_crc x = (==_iff x x).1 refl

  -- One record, behind others and in front of anything
  next_record-framed :
      (pre p rest : List ℕ)
      → 1 ≤ length p
      → 8 + length p < 2 ^ 32
      → next_record crc32c (pre ++ (framed p ++ rest)) (length pre)
        ≡ some (set_data (p ++ rest) (length p) false, length pre + (8 + length p))
  unfolding next_record
  next_record-framed pre p rest some_p small = rw (
    drop-append,
    sized_behind p rest,
    payload_behind p rest,
    crc_read p rest,
    size_read p rest small,
    checked p rest small,
    same_crc,
    more,
    whole,
    payload,
  )
    where
      more : ltb (length pre + 8) (length (pre ++ (framed p ++ rest))) ≡ true
      more = ground (arith, length-behind pre p rest)

      whole : ltb (length (pre ++ (framed p ++ rest))) (length pre + (8 + length p)) ≡ false
      whole = ground (arith, length-behind pre p rest)

      payload : wrap_sub (8 + length p) 8 ≡ length p
      payload = omega (arith)

  -- A record of which a part only was written, behind others
  next_record-torn :
      (pre p : List ℕ) (n : ℕ)
      → 8 + length p < 2 ^ 32
      → n < 8 + length p
      → next_record crc32c (pre ++ take n (framed p)) (length pre) ≡ none
  unfolding next_record
  next_record-torn pre p n small torn =
      elim (Bool-cases (ltb (length pre + 8) (length (pre ++ take n (framed p))))) [
        | inl e ↦ rw (e, drop-append, size (long e), beyond)
        | inr e ↦ rw e
      ]
    where
      len : length (pre ++ take n (framed p)) ≡ length pre + n
      len =
          omega (
            arith,
            length-append pre (take n (framed p)),
            length-take n (framed p),
            length-framed p,
          )

      long : ltb (length pre + 8) (length (pre ++ take n (framed p))) ≡ true → 8 < n
      long e = omega (arith, ltb→lt _ _ e, len)

      size : 8 < n → from_memory 4 (drop 4 (take n (framed p))) ≡ 8 + length p
      size h =
          ap (from_memory 4)
            (drop-take 4 n (framed p) ∙ ap (take (n - 4)) (drop_word (crc32c (sized p)) (sized p)))
          ∙ sym (from_memory-take 4 (take (n - 4) (sized p)))
          ∙ ap (from_memory 4) (take-take 4 (n - 4) (sized p) (omega arith))
          ∙ from_memory-take 4 (sized p)
          ∙ from_memory-to_memory 4 (8 + length p) p small

      beyond : ltb (length (pre ++ take n (framed p))) (length pre + (8 + length p)) ≡ true
      beyond = ground (arith, len)

  -- The bytes of whole records one after the other
  abbrev file_of : List (List ℕ) → List ℕ
  file_of [] = []
  file_of (p ∷ ps) = framed p ++ file_of ps

  -- Payloads that are not empty and that `CRData` takes whole
  pub data AllFramed : List (List ℕ) → Type 0 where
    no_records : AllFramed []
    one_record :
        {p : List ℕ} {ps : List (List ℕ)}
        → 1 ≤ length p
        → length p ≤ 100 * 1024 * 1024
        → AllFramed ps
        → AllFramed (p ∷ ps)

  found_none :
      (fuel : ℕ) (bs : List ℕ) (off : ℕ)
      → next_record crc32c bs off ≡ none
      → find_records crc32c (suc fuel) bs off ≡ []
  unfolding find_records
  found_none fuel bs off e =
      ap
        (λ o. elim o as (λ x. List CrData) [
          | none ↦ []
          | some (r, next) ↦ r ∷ find_records crc32c fuel bs next
        ])
        e

  found_some :
      (fuel : ℕ) (bs : List ℕ) (off next : ℕ) (r : CrData)
      → next_record crc32c bs off ≡ some (r, next)
      → find_records crc32c (suc fuel) bs off ≡ r ∷ find_records crc32c fuel bs next
  unfolding find_records
  found_some fuel bs off next r e =
      ap
        (λ o. elim o as (λ x. List CrData) [
          | none ↦ []
          | some (r, next) ↦ r ∷ find_records crc32c fuel bs next
        ])
        e

  records-AllHold :
      (fuel : ℕ) (pre : List ℕ) (ps : List (List ℕ)) (tail : List ℕ)
      → length ps < fuel
      → AllFramed ps
      → ((pre : List ℕ) → next_record crc32c (pre ++ tail) (length pre) ≡ none)
      → AllHold (find_records crc32c fuel (pre ++ (file_of ps ++ tail)) (length pre)) ps
  records-AllHold zero pre ps tail enough all torn = absurd (omega (arith, enough))
  records-AllHold (suc fuel) pre _ tail enough no_records torn =
      rw (found_none fuel _ _ (torn pre)) none_held
  records-AllHold (suc fuel) pre _ tail enough (one_record {p} {ps} some_p fits all) torn =
      let behind : length (pre ++ framed p) ≡ length pre + (8 + length p) =
        omega (arith, length-append pre (framed p), length-framed p) in
      rw
        (
          append_assoc,
          found_some fuel _ _ _ _
              (next_record-framed pre p (file_of ps ++ tail) some_p (omega (arith, fits))),
        )
        (one_held (set_data-Holds p (file_of ps ++ tail) fits) (
          subst
            (λ off.
              AllHold (find_records crc32c fuel (pre ++ (framed p ++ (file_of ps ++ tail))) off) ps)
            behind
            (subst (λ bs. AllHold (find_records crc32c fuel bs (length (pre ++ framed p))) ps)
              (append_assoc pre (framed p) (file_of ps ++ tail))
              (records-AllHold fuel (pre ++ framed p) ps tail (omega (arith, enough)) all torn))))

  -- What `setChecksumAndSize` makes of 8 bytes for the checksum and the size and the rest of a record
  abbrev pub written : List ℕ → List ℕ
  written p = (set_checksum_and_size crc32c (record { bytes = zeros ++ p })).bytes

  pub written_lem : (p : List ℕ) → 8 + length p < 2 ^ 32 → written p ≡ framed p
  unfolding set_checksum_and_size put_uint
  written_lem p small = shape (length (zeros ++ p) % 2 ^ 32) (omega arith)
    where
      whole : take (wrap_sub (8 + length p) 4) (sized p) ≡ sized p
      whole = take-length _ (sized p) (omega (arith, length-sized p))

      shape :
          (d : ℕ)
          → d ≡ 8 + length p
          → to_memory 4 (crc32c (take (wrap_sub d 4) (to_memory 4 d ++ p))) ++ (to_memory 4 d ++ p)
            ≡ framed p
      shape d e = rw e (ap (λ t. to_memory 4 (crc32c t) ++ sized p) whole)

  pub length-written : (p : List ℕ) → 8 + length p < 2 ^ 32 → length (written p) ≡ 8 + length p
  length-written p small = ap length (written_lem p small) ∙ length-framed p

  -- The bytes of whole records one after the other
  abbrev pub all_written : List (List ℕ) → List ℕ
  all_written [] = []
  all_written (p ∷ ps) = written p ++ all_written ps

  all_written_lem : (ps : List (List ℕ)) → AllFramed ps → all_written ps ≡ file_of ps
  all_written_lem _ no_records = refl
  all_written_lem _ (one_record {p} {ps} some_p fits all) =
      ap₂ (λ a b. a ++ b) (written_lem p (omega (arith, fits))) (all_written_lem ps all)

  pub length-all_written :
      (ps : List (List ℕ)) → AllFramed ps → 9 * length ps ≤ length (all_written ps)
  length-all_written _ no_records = omega arith
  length-all_written _ (one_record {p} {ps} some_p fits all) = omega (
    arith,
    length-append (written p) (all_written ps),
    ap length (written_lem p (omega (arith, fits))),
    length-framed p,
    length-all_written ps all,
    some_p,
  )

  pub find_records-AllHold :
      (fuel n : ℕ) (ps : List (List ℕ)) (p : List ℕ)
      → length ps < fuel
      → AllFramed ps
      → 8 + length p < 2 ^ 32
      → n < 8 + length p
      → AllHold (find_records crc32c fuel (all_written ps ++ take n (written p)) 0) ps
  find_records-AllHold fuel n ps p enough all small torn =
      rw (all_written_lem ps all, written_lem p small)
        (records-AllHold fuel [] ps (take n (framed p)) enough all
          (λ pre. next_record-torn pre p n small torn))

  -- From a file of whole records and a part of one more record, of which the end is missing, the loop
  -- of `WalFile::read` finds exactly the whole records, and the reader of each holds its payload. The
  -- payloads of the whole records have 1 byte to 100 MiB, that of the part has less than 2^32 - 8
  -- bytes, the checksum has 32 bits, and the loop has more rounds than there are whole records.
  pub find_records-written :
      (fuel n : ℕ) (ps : List (List ℕ)) (p : List ℕ)
      → length ps < fuel
      → AllFramed ps
      → 8 + length p < 2 ^ 32
      → n < 8 + length p
      → map remaining (find_records crc32c fuel (all_written ps ++ take n (written p)) 0) ≡ ps
  find_records-written fuel n ps p enough all small torn =
      remaining-AllHold _ ps (find_records-AllHold fuel n ps p enough all small torn)
