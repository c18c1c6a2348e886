-- ===== src/Freemap.antt =====
-- src/SingleFileStorage.cpp: the map of free extents of the data file, in two databases: `dbi_free`
-- holds for each offset the length, and `dbi_free_len` the same pairs by their length. The
-- databases are LMDB's, and arguments of the model (Freemap.Db). Offsets and lengths are file
-- positions, so that no sum of the source wraps. Where the source returns false the result is
-- `none`: the transaction is then given up, and what the call leaves of the state is not modelled.
pub mod Db
pub mod Shape
pub mod Mirror
pub mod Neighbours
pub mod Steps
pub mod Taken
pub mod Merge
pub mod Add
pub mod Torn
pub mod Find
mod Sample
mod Runs
use hs.Prelude.{
  ℕ, ◌+◌, ◌-◌, ◌*◌, ◌/◌, ◌%◌, Bool, true, false, not, ◌&&◌, ◌||◌, Option, none, some, List, [], ◌∷◌,
  ltb, leb, ◌==◌, if◌then◌else◌,
}
use hs.Wal.{PunchItem}
use Db.{OrderedDb, PairDb}

-- `div_up`
unfoldable pub div_up : ℕ → ℕ → ℕ
div_up num div = if num % div == 0 then num / div else num / div + 1

abbrev pub block_size : ℕ
block_size = 4096

-- `erase` and `insert` of a `std::set<SPunchItem>`, whose order looks at the offset alone
unfoldable pub erase_item : ℕ → List PunchItem → List PunchItem
erase_item offset [] = []
erase_item offset (i ∷ items) =
    if i.offset == offset then erase_item offset items else i ∷ erase_item offset items

unfoldable pub has_item : ℕ → List PunchItem → Bool
has_item offset [] = false
has_item offset (i ∷ items) = (i.offset == offset) || has_item offset items

unfoldable pub insert_item : PunchItem → List PunchItem → List PunchItem
insert_item i items = if has_item i.offset items then items else i ∷ items

-- `if (trim_items) …`
abbrev pub if_trim :
    (List PunchItem → List PunchItem) → Option (List PunchItem) → Option (List PunchItem)
if_trim f none = none
if_trim f (some items) = some (f items)

-- `insert` of a `std::set<int64_t>`
unfoldable pub has_offset : ℕ → List ℕ → Bool
has_offset offset [] = false
has_offset offset (o ∷ os) = (o == offset) || has_offset offset os

unfoldable pub insert_offset : ℕ → List ℕ → List ℕ
insert_offset offset os = if has_offset offset os then os else offset ∷ os

-- The state that `add_freemap_ext` works on, with the set of items to trim that it is given.
pub record FreeSpace (D L : Type 0) : Type 0 where
  pub is_dead : Bool
  pub free : D
  pub free_len : L
  pub data_file_free : ℕ
  pub curr_new_free_extents : List ℕ
  pub trim_items : Option (List PunchItem)

-- What is found behind the offset: an extent that overlaps the new one, one that the new one is
-- merged with, or neither.
pub data Next : Type 0 where
  overlaps : Next
  meets : ℕ → ℕ → Next
  no_next : Next

unfoldable pub look_next : ℕ → ℕ → Option (ℕ × ℕ) → Next
look_next offset len none = no_next
look_next offset len (some (next_offset, next_len)) =
    if ltb next_offset (offset + len)
    then overlaps
    else if offset + len == next_offset
    then meets next_offset next_len
    else no_next

-- `next_len` where an extent is to be merged, and 0 else
abbrev pub next_len : Next → ℕ
next_len overlaps = 0
next_len (meets o l) = l
next_len no_next = 0

-- The same in front of the offset
pub data Prev : Type 0 where
  contains : Prev
  ends_at : ℕ → ℕ → Prev
  no_prev : Prev

unfoldable pub look_prev : ℕ → Option (ℕ × ℕ) → Prev
look_prev offset none = no_prev
look_prev offset (some (prev_offset, prev_length)) =
    if ltb offset (prev_offset + prev_length) && leb prev_offset offset
    then contains
    else if offset == prev_offset + prev_length
    then ends_at prev_offset prev_length
    else no_prev

module _ {D L : Type 0} (free_db : OrderedDb D) (len_db : PairDb L) where
  -- The deletion of the next extent from `dbi_free`, with `mdb_cursor_del`
  unfoldable pub del_next : FreeSpace D L → Next → Option (FreeSpace D L)
  del_next s overlaps = some s
  del_next s no_next = some s
  del_next s (meets o l) = elim (free_db.del s.free o) [
    | none ↦ none
    | some d ↦ some (record s { free = d; trim_items = if_trim (erase_item o) s.trim_items })
  ]

  -- The deletion of an extent from `dbi_free_len`
  unfoldable pub del_len : FreeSpace D L → ℕ → ℕ → Option (FreeSpace D L)
  del_len s o l = elim (len_db.del s.free_len l o) [
    | none ↦ none
    | some d ↦ some (record s { free_len = d; trim_items = if_trim (erase_item o) s.trim_items })
  ]

  abbrev pub del_next_len : FreeSpace D L → Next → Option (FreeSpace D L)
  del_next_len s overlaps = some s
  del_next_len s no_next = some s
  del_next_len s (meets o l) = del_len s o l

  -- The extent is put into both databases and the set.
  unfoldable pub put_len : FreeSpace D L → ℕ → ℕ → Option (FreeSpace D L)
  put_len s o l = elim (len_db.put s.free_len l o) [
    | none ↦ none
    | some d ↦ some (record s {
      free_len = d;
      trim_items = if_trim (insert_item (record { offset = o; len = l })) s.trim_items;
    })
  ]

  unfoldable pub put_ext : FreeSpace D L → ℕ → ℕ → Option (FreeSpace D L)
  put_ext s o l = elim (free_db.put s.free o l) [
    | none ↦ none
    | some d ↦ put_len (record s { free = d }) o l
  ]

  abbrev pub and_then :
      Option (FreeSpace D L) → (FreeSpace D L → Option (FreeSpace D L)) → Option (FreeSpace D L)
  and_then none f = none
  and_then (some s) f = f s

  -- What is done to the databases once the neighbours are known. The second argument is the state
  -- from which the next extent is deleted already.
  unfoldable pub merge : ℕ → ℕ → Next → FreeSpace D L → Prev → Option (FreeSpace D L)
  merge offset len next s contains = some s
  merge offset len next s (ends_at o l) =
      and_then (del_len s o l)
        (λ s1. and_then (del_next_len s1 next) (λ s2. put_ext s2 o (l + len + next_len next)))
  merge offset len next s no_prev =
      and_then (del_next_len s next) (λ s1. put_ext s1 offset (len + next_len next))

  -- The end of the function
  abbrev pub account : ℕ → ℕ → Bool → FreeSpace D L → Option (FreeSpace D L)
  account offset len used_in_curr_trans s = some (record s {
    data_file_free = s.data_file_free + len;
    curr_new_free_extents =
        if used_in_curr_trans
        then insert_offset offset s.curr_new_free_extents
        else s.curr_new_free_extents;
  })

  abbrev pub account_unless : Prev → ℕ → ℕ → Bool → FreeSpace D L → Option (FreeSpace D L)
  account_unless contains offset len used_in_curr_trans s = some s
  account_unless (ends_at o l) offset len used_in_curr_trans s =
      account offset len used_in_curr_trans s
  account_unless no_prev offset len used_in_curr_trans s = account offset len used_in_curr_trans s

  unfoldable pub add_before : ℕ → ℕ → Bool → Next → FreeSpace D L → Option (FreeSpace D L)
  add_before offset len used_in_curr_trans next s =
      let prev = look_prev offset (free_db.before s.free offset) in
      and_then (merge offset len next s prev) (account_unless prev offset len used_in_curr_trans)

  unfoldable pub add_rounded : FreeSpace D L → ℕ → ℕ → Bool → Next → Option (FreeSpace D L)
  add_rounded s offset len used_in_curr_trans overlaps = some s
  add_rounded s offset len used_in_curr_trans (meets o l) =
      and_then (del_next s (meets o l)) (add_before offset len used_in_curr_trans (meets o l))
  add_rounded s offset len used_in_curr_trans no_next =
      add_before offset len used_in_curr_trans no_next s

  -- `add_freemap_ext`
  unfoldable pub add_freemap_ext : FreeSpace D L → ℕ → ℕ → Bool → Option (FreeSpace D L)
  add_freemap_ext s offset len used_in_curr_trans =
      let rounded = div_up len block_size * block_size in
      if s.is_dead
      then none
      else if (offset == 0) && (len == 0)
      then some s
      else add_rounded s offset rounded used_in_curr_trans
          (look_next offset rounded (free_db.at_or_after s.free offset))
