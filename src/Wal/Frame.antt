-- ===== src/Wal/Frame.antt =====
-- src/WalFile.cpp: the frame of a record, with its checksum and its size in front, and the loop that
-- finds the records of a file. `crc32c` is folly's checksum. Numbers of 4 bytes are copied as they
-- stand in memory. A checksum over bytes behind the end of the file, which the source would read
-- from outside its mapping, is taken over the bytes that there are.
use hs.Prelude.{
  ℕ, zero, suc, ◌+◌, ◌-◌, ◌%◌, ◌^◌, Option, none, some, List, [], ◌∷◌, ◌++◌, length, take, drop,
  ltb, ◌==◌, if◌then◌else◌, false,
}
use hs.Data.Memory.{to_memory, from_memory}
use hs.Data.Writer.{CwData, ◌>>◌, add_uint, add_char, add_varint}
use hs.Data.Reader.{CrData, set_data}

-- `writeDataHeader`
unfoldable pub write_data_header : ℕ → ℕ → CwData → CwData
write_data_header type seq_no = add_uint 0 >> add_uint 0 >> add_char type >> add_varint seq_no

-- A `size_t` less a small number
abbrev pub wrap_sub : ℕ → ℕ → ℕ
wrap_sub a b = (a + (2 ^ 64 - b)) % 2 ^ 64

-- `memcpy` of a number of 4 bytes to an offset
unfoldable pub put_uint : ℕ → ℕ → List ℕ → List ℕ
put_uint off x bs = take off bs ++ (to_memory 4 x ++ drop (off + 4) bs)

module _ (crc32c : List ℕ → ℕ) where
  -- `setChecksumAndSize`
  unfoldable pub set_checksum_and_size : CwData → CwData
  set_checksum_and_size w =
      let dsize = length w.bytes % 2 ^ 32 in
      let sized = put_uint 4 dsize w.bytes in
      record { bytes = put_uint 0 (crc32c (take (wrap_sub dsize 4) (drop 4 sized))) sized }

  -- One round of the loop of `WalFile::read`, up to `off += dsize`: the reader of the record and the
  -- offset behind it, or the end of the loop.
  unfoldable pub next_record : List ℕ → ℕ → Option (CrData × ℕ)
  next_record all_data off =
      let crc = from_memory 4 (drop off all_data) in
      let dsize = from_memory 4 (drop 4 (drop off all_data)) in
      if ltb (off + 8) (length all_data)
      then if ltb (length all_data) (off + dsize)
        then none
        else if crc == crc32c (take (wrap_sub dsize 4) (drop 4 (drop off all_data)))
        then some (set_data (drop 8 (drop off all_data)) (wrap_sub dsize 8) false, off + dsize)
        else none
      else none

  -- The loop itself, on fuel: it ends where `next_record` finds nothing. `off` need not grow for
  -- sizes below 8, of which the writer makes none; the readers of the records in their order.
  unfoldable pub find_records : ℕ → List ℕ → ℕ → List CrData
  find_records zero all_data off = []
  find_records (suc fuel) all_data off = elim (next_record all_data off) [
    | none ↦ []
    | some (r, next) ↦ r ∷ find_records fuel all_data next
  ]
