-- ===== src/Freemap/Runs.antt =====
-- A free map with two extents, and the regions that are added to it.
use hs.Prelude.{
  List, ℕ, ◌+◌, ◌*◌, ◌≤◌, ◌<◌, ◌≡◌, ◌↔◌, ◌⊎◌, refl, true, false, none, some, [], ◌∷◌, arith,
}
use hs.Freemap.{
  FreeSpace, add_freemap_ext, div_up, block_size, del_next, del_len, put_len, put_ext, merge,
  add_before, add_rounded, look_next, look_prev, erase_item, insert_item, has_item, insert_offset,
  has_offset,
}
use hs.Freemap.Shape.{Apart, IsFree}
use hs.Freemap.Mirror.{is_len}
use hs.Freemap.Steps.{Failing}
use hs.Freemap.Sample.{
  Pairs, pairs_free, pairs_len, find, remove, at_or_after, before, holds, remove_pair,
}
use hs.Freemap.Add.{add_freemap_ext-IsSound, add_freemap_ext-frees, add_freemap_ext-returns}
use hs.Freemap.Merge.{IsSound, Unused}
use hs.Freemap.Find.{
  InUse, find_freemap_ext, is_skipped, holds_one, lower_bound, FirstFit, find_freemap_ext-FirstFit,
  find_freemap_ext-around,
}
use hs.Freemap.Torn.{add_freemap_ext-torn}

-- Two blocks at 4096 and one at 16384 are free.
abbrev two_extents : FreeSpace Pairs Pairs
two_extents = record {
  is_dead = false;
  free = (4096, 8192) ∷ (16384, 4096) ∷ [];
  free_len = (8192, 4096) ∷ (4096, 16384) ∷ [];
  data_file_free = 12288;
  curr_new_free_extents = [];
  trim_items = some [];
}

-- The block between them is added.
abbrev one_extent : FreeSpace Pairs Pairs
one_extent = record {
  is_dead = false;
  free = (4096, 16384) ∷ (4096, 8192) ∷ [];
  free_len = (16384, 4096) ∷ [];
  data_file_free = 16384;
  curr_new_free_extents = 12288 ∷ [];
  trim_items = some (record { offset = 4096; len = 16384 } ∷ []);
}

block_added : add_freemap_ext pairs_free pairs_len two_extents 12288 3000 true ≡ some one_extent
unfolding add_freemap_ext div_up del_next del_len put_len put_ext merge add_before add_rounded
    look_next look_prev erase_item insert_item has_item insert_offset has_offset find remove
    at_or_after before holds remove_pair
block_added = refl

entry :
    (o l : ℕ)
    → find two_extents.free o ≡ some l
    → ((o ≡ 4096) × (l ≡ 8192)) ⊎ ((o ≡ 16384) × (l ≡ 4096))
unfolding find
entry o l e = ground (arith, e)

two_extents-Apart : Apart (find two_extents.free)
two_extents-Apart = record {
  positive = λ o l e. let at_o = entry o l e in ground arith;
  apart = λ o l o' l' e e' lt. let at_o = entry o l e in let at_o' = entry o' l' e' in ground arith;
}

two_extents-IsSound : IsSound pairs_free pairs_len two_extents
unfolding find holds is_len
two_extents-IsSound = record { apart = two_extents-Apart; mirrors = λ l o. ground arith }

two_extents-Unused :
    Unused (find two_extents.free) 12288 (12288 + div_up 3000 block_size * block_size)
unfolding div_up
two_extents-Unused x le lt (o, l, e, p, q) = let at_o = entry o l e in ground arith

add_freemap_ext-IsSound_example : IsSound pairs_free pairs_len one_extent
add_freemap_ext-IsSound_example =
    add_freemap_ext-IsSound pairs_free pairs_len two_extents one_extent 12288 3000 true
      two_extents-IsSound (omega arith) two_extents-Unused block_added

add_freemap_ext-frees_example :
    ((x : ℕ)
      → IsFree (find one_extent.free) x ↔ (
          IsFree (find two_extents.free) x
          ⊎ ((12288 ≤ x) × (x < 12288 + div_up 3000 block_size * block_size))))
    × (one_extent.data_file_free ≡ two_extents.data_file_free + div_up 3000 block_size * block_size)
add_freemap_ext-frees_example =
    add_freemap_ext-frees pairs_free pairs_len two_extents one_extent 12288 3000 true
      two_extents-IsSound (omega arith) two_extents-Unused block_added

never_failing : Failing pairs_free pairs_len ⊥
never_failing = record {
  free_put = λ d o l e. ground (arith, e);
  free_del = λ d o l e e'. ground (arith, e');
  len_put = λ d l o e. ground (arith, e);
  len_del = λ d l o e e'. ground (arith, e');
}

add_freemap_ext-returns_example :
    (s : FreeSpace Pairs Pairs) × (add_freemap_ext pairs_free pairs_len two_extents 12288 3000 true
      ≡ some s)
add_freemap_ext-returns_example =
    add_freemap_ext-returns pairs_free pairs_len two_extents 12288 3000 true never_failing refl
      two_extents-IsSound (omega arith) two_extents-Unused

-- Two blocks are added from the middle of the first extent up to the second.
abbrev torn_extents : FreeSpace Pairs Pairs
torn_extents = record two_extents { free = (4096, 8192) ∷ [] }

overlap_added : add_freemap_ext pairs_free pairs_len two_extents 8192 8192 true ≡ some torn_extents
unfolding add_freemap_ext div_up del_next del_len put_len put_ext merge add_before add_rounded
    look_next look_prev erase_item insert_item has_item insert_offset has_offset find remove
    at_or_after before holds remove_pair
overlap_added = refl

add_freemap_ext-torn_example :
    (find torn_extents.free (8192 + div_up 8192 block_size * block_size) ≡ none)
    × (holds torn_extents.free_len 4096 (8192 + div_up 8192 block_size * block_size) ≡ true)
    × (torn_extents.data_file_free ≡ two_extents.data_file_free)
unfolding find div_up
add_freemap_ext-torn_example =
    add_freemap_ext-torn pairs_free pairs_len two_extents torn_extents 8192 8192 true 4096 8192 4096
      (omega arith) two_extents-IsSound refl (omega arith) (omega arith) refl
      (λ j a b. ground (arith, a, b)) overlap_added

-- The largest extents come first.
abbrev entries : List (ℕ × ℕ)
entries = (16384, 4096) ∷ (8192, 32768) ∷ []

abbrev freeing : InUse
freeing = record { free_skip = []; new_free = 12288 ∷ []; reading = []; trimming = [] }

abbrev unused : InUse
unused = record { free_skip = []; new_free = []; reading = []; trimming = [] }

found_second : find_freemap_ext freeing entries ≡ some (32768, 8192)
unfolding find_freemap_ext is_skipped holds_one lower_bound
found_second = refl

find_freemap_ext-FirstFit_example : FirstFit freeing entries 32768 8192
find_freemap_ext-FirstFit_example =
    find_freemap_ext-FirstFit freeing entries 32768 8192 found_second

around_chunk :
    find_freemap_ext
      (record unused { free_skip = record { offset = 4096; len = 8192 } ∷ [] })
      entries
    ≡ some (4096, 16384)
unfolding is_skipped holds_one lower_bound
around_chunk =
    find_freemap_ext-around unused (record { offset = 4096; len = 8192 }) ((8192, 32768) ∷ []) 4096
      16384 (omega arith) (omega arith) refl
