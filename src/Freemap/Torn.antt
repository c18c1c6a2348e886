-- ===== src/Freemap/Torn.antt =====
-- src/SingleFileStorage.cpp: `add_freemap_ext` on a region of which the beginning is free already.
use hs.Prelude.{
  ℕ, ◌+◌, ◌*◌, ◌≤◌, ◌<◌, ◌≡◌, inl, inr, refl, sym, ap, ◌∙◌, Bool, true, false, ◌&&◌, none, some,
  ◌==◌, arith, Bool-cases,
}
use hs.Freemap.{
  FreeSpace, Next, meets, Prev, look_prev, and_then, merge, account_unless, add_before, add_rounded,
  add_freemap_ext, div_up, block_size,
}
use hs.Freemap.Db.{OrderedDb, PairDb}
use hs.Freemap.Shape.{Apart, lt_or_le, same_len}
use hs.Freemap.Mirror.{without, is_len, is_len-same}
use hs.Freemap.Neighbours.{
  Behind, found_overlap, found_clear, found_next, found_no_next, Front, found_around, found_free,
  found_prev, found_no_prev, look_next-Behind, look_prev-Front, Front-agree,
}
use hs.Freemap.Steps.{Yields, fails, gives, Yields-and_then, Holds, Holds-del_next, Yields-some}
use hs.Freemap.Add.{any_failure}
use hs.Freemap.Merge.{IsSound, rounded_pos}

module _ {D L : Type 0} (free_db : OrderedDb D) (len_db : PairDb L) (s : FreeSpace D L)
    (offset len : ℕ) (used : Bool) (hlen : 0 < len) (sound : IsSound free_db len_db s) (o l k : ℕ)
    (at_o : free_db.find s.free o ≡ some l) (lt : o < offset) (le : offset < o + l)
    (at_end : free_db.find s.free (offset + len) ≡ some k)
    (gap : (j : ℕ) → offset ≤ j → j < offset + len → free_db.find s.free j ≡ none) where
  abbrev Torn : FreeSpace D L → Type 0
  Torn s' =
      Holds free_db len_db Bool (any_failure free_db len_db) s'
        (without (offset + len) (free_db.find s.free)) (free_db.find s.free) s.data_file_free

  Front-Torn :
      (p : Prev) (s1 : FreeSpace D L)
      → Front (free_db.find s.free) offset p
      → Torn s1
      → Yields free_db len_db Bool (any_failure free_db len_db) Torn (
          and_then free_db len_db
            (merge free_db len_db offset len (meets (offset + len) k) s1 p)
            (account_unless free_db len_db p offset len used))
  unfolding merge
  Front-Torn _ s1 (found_around p m e lt' le') h = gives h
  Front-Torn _ s1 (found_free (found_no_prev g)) h = let bad = g o l at_o lt in ground arith
  Front-Torn _ s1 (found_free (found_prev p m e lt' touch)) h = elim (lt_or_le o p) [
    | inl before ↦ let bad = sound.apart.apart o l p m at_o e before in ground arith
    | inr ge ↦ elim (lt_or_le p o) [
      | inl behind ↦ let bad = sound.apart.apart p m o l e at_o behind in ground arith
      | inr le'' ↦
          let same = same_len (free_db.find s.free) o p l m at_o e (omega arith) in ground arith
    ]
  ]

  Apart-without : (s1 : FreeSpace D L) → Torn s1 → Apart (free_db.find s1.free)
  Apart-without s1 h = record {
    positive = λ p m e. sound.apart.positive p m (sub p m e);
    apart = λ p m p' m' e e' b. sound.apart.apart p m p' m' (sub p m e) (sub p' m' e') b;
  }
    where
      sub : (p m : ℕ) → free_db.find s1.free p ≡ some m → free_db.find s.free p ≡ some m
      sub p m e = elim (Bool-cases (p == offset + len)) [
        | inl same ↦ ground (arith, e, same, h.agrees p)
        | inr other ↦ ground (arith, e, other, h.agrees p)
      ]

  add_before-Torn :
      (s1 : FreeSpace D L)
      → Torn s1
      → Yields free_db len_db Bool
          (any_failure free_db len_db)
          Torn
          (add_before free_db len_db offset len used (meets (offset + len) k) s1)
  unfolding add_before
  add_before-Torn s1 h =
      Front-Torn (look_prev offset (free_db.before s1.free offset)) s1
        (Front-agree (free_db.find s1.free) (free_db.find s.free) offset _
          (λ j b. sym (h.agrees j ∙ ground arith))
          (look_prev-Front free_db offset len hlen s1.free (Apart-without s1 h)))
        h

  add_rounded-Torn :
      (next : Next)
      → Behind (free_db.find s.free) offset (offset + len) next
      → Yields free_db len_db Bool
          (any_failure free_db len_db)
          Torn
          (add_rounded free_db len_db s offset len used next)
  unfolding add_rounded
  add_rounded-Torn _ (found_overlap p m e b b') = let none_here = gap p b b' in ground arith
  add_rounded-Torn _ (found_clear (found_no_next h)) =
      let bad = h (offset + len) k at_end (omega arith) in ground arith
  add_rounded-Torn _ (found_clear (found_next p m same e bound)) =
      rw (same, same_len (free_db.find s.free) p (offset + len) m k e at_end same)
        (Yields-and_then free_db len_db Bool (any_failure free_db len_db) _ _ _ _
          (Holds-del_next free_db len_db Bool (any_failure free_db len_db) s _ _ _ (offset + len) k
            (record { agrees = λ j. refl; mirrors = sound.mirrors; counted = refl }) at_end)
          add_before-Torn)

-- Let the two databases hold the same extents, none empty, and no two that touch or overlap, and let
-- the length be above 0. If a free extent contains the offset in its inside, none begins in the region and one begins at
-- its end, then a call of `add_freemap_ext` that returns true removes the extent at the end from
-- `dbi_free`, keeps it in `dbi_free_len`, and does not change the number of free bytes.
pub add_freemap_ext-torn :
    {D L : Type 0} (free_db : OrderedDb D) (len_db : PairDb L) (s s' : FreeSpace D L)
    (offset len : ℕ) (used : Bool) (o l k : ℕ)
    → 0 < len
    → IsSound free_db len_db s
    → free_db.find s.free o ≡ some l
    → o < offset
    → offset < o + l
    → free_db.find s.free (offset + div_up len block_size * block_size) ≡ some k
    → ((j : ℕ)
        → offset ≤ j
        → j < offset + div_up len block_size * block_size
        → free_db.find s.free j ≡ none)
    → add_freemap_ext free_db len_db s offset len used ≡ some s'
    → (free_db.find s'.free (offset + div_up len block_size * block_size) ≡ none)
      × (len_db.has s'.free_len k (offset + div_up len block_size * block_size) ≡ true)
      × (s'.data_file_free ≡ s.data_file_free)
unfolding add_freemap_ext
add_freemap_ext-torn free_db len_db s s' offset len used o l k hlen sound at_o lt le at_end gap
      given =
    (h.agrees _ ∙ ground arith, h.mirrors k _ ∙ ap (is_len k) at_end ∙ is_len-same k, h.counted)
  where
    not_empty : ((offset == 0) && (len == 0)) ≡ false
    not_empty = ground arith

    torn :
        Yields free_db len_db Bool
          (any_failure free_db len_db)
          (Torn free_db len_db s offset
            (div_up len block_size * block_size)
            used
            (rounded_pos len hlen)
            sound
            o
            l
            k
            at_o
            lt
            le
            at_end
            gap)
          (add_freemap_ext free_db len_db s offset len used)
    torn = elim (Bool-cases s.is_dead) [
      | inl d ↦ rw d (fails true)
      | inr d ↦
          simp (d, not_empty)
            (add_rounded-Torn free_db len_db s offset _ used (rounded_pos len hlen) sound o l k at_o
              lt le at_end gap _ (look_next-Behind free_db offset _ (rounded_pos len hlen) s.free))
    ]

    h :
        Torn free_db len_db s offset
          (div_up len block_size * block_size)
          used
          (rounded_pos len hlen)
          sound
          o
          l
          k
          at_o
          lt
          le
          at_end
          gap
          s'
    h = Yields-some free_db len_db Bool (any_failure free_db len_db) _ _ s' torn given
