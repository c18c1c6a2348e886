-- ===== src/Freemap/Add.antt =====
-- src/SingleFileStorage.cpp: the free space before and after a call of `add_freemap_ext`.
use hs.Prelude.{ℕ, ◌+◌, ◌≤◌, ◌<◌, ◌≡◌, ◌↔◌, ◌⊎◌, refl, Bool, true, false, ◌*◌, Option, some, arith}
use hs.Freemap.{FreeSpace, add_freemap_ext, div_up, block_size}
use hs.Freemap.Db.{OrderedDb, PairDb}
use hs.Freemap.Shape.{IsFree, Apart-Merging, IsFree-Merging}
use hs.Freemap.Steps.{Failing, Yields, fails, gives, Yields-some}
use hs.Freemap.Merge.{Unused, IsSound, Added, rounded_pos, add_freemap_ext-Added}

module _ {D L : Type 0} (free_db : OrderedDb D) (len_db : PairDb L) where
  pub any_failure : Failing free_db len_db Bool
  any_failure = record {
    free_put = λ d o l e. true;
    free_del = λ d o l e e'. true;
    len_put = λ d l o e. true;
    len_del = λ d l o e e'. true;
  }

  module _ (s s' : FreeSpace D L) (offset len : ℕ) (used : Bool) (sound : IsSound free_db len_db s)
      (hlen : 0 < len)
      (unused : Unused (free_db.find s.free) offset (offset + div_up len block_size * block_size))
      (given : add_freemap_ext free_db len_db s offset len used ≡ some s') where
    added :
        Added free_db len_db Bool any_failure
          (free_db.find s.free)
          (s.data_file_free + div_up len block_size * block_size)
          offset
          (div_up len block_size * block_size)
          s'
    added =
        Yields-some free_db len_db Bool any_failure _ _ s'
          (add_freemap_ext-Added free_db len_db Bool any_failure s offset len used (λ d. true) sound
            hlen unused)
          given

    -- Let the two databases hold the same extents, none empty, and no two that touch or overlap. When
    -- `add_freemap_ext` returns true for a length above 0 and a region (rounded up to whole blocks)
    -- of which no byte is free, this holds of the databases again.
    pub add_freemap_ext-IsSound : IsSound free_db len_db s'
    add_freemap_ext-IsSound = record {
      apart =
          Apart-Merging (free_db.find s.free) (free_db.find s'.free) offset _ sound.apart
            (rounded_pos len hlen) added.merging;
      mirrors = added.mirrors;
    }

    -- Let the two databases hold the same extents, none empty, and no two that touch or overlap. When
    -- `add_freemap_ext` returns true for a length above 0 and a region (rounded up to whole blocks)
    -- of which no byte is free, the bytes that are free afterwards are those that were free before
    -- and those of the region, and the count of free bytes has grown by the length of the region.
    pub add_freemap_ext-frees :
        ((x : ℕ)
          → IsFree (free_db.find s'.free) x ↔ (
              IsFree (free_db.find s.free) x
              ⊎ ((offset ≤ x) × (x < offset + div_up len block_size * block_size))))
        × (s'.data_file_free ≡ s.data_file_free + div_up len block_size * block_size)
    add_freemap_ext-frees = (
      IsFree-Merging (free_db.find s.free) (free_db.find s'.free) offset _ sound.apart
          (rounded_pos len hlen) added.merging,
      added.counted,
    )

  -- Let the two databases hold the same extents, none empty, and no two that touch or overlap. If no
  -- put fails, no deletion of what is there fails, and the file is not marked as dead, then
  -- `add_freemap_ext` returns true for a length above 0 and a region (rounded up to whole blocks) of
  -- which no byte is free.
  pub add_freemap_ext-returns :
      (s : FreeSpace D L) (offset len : ℕ) (used : Bool)
      → Failing free_db len_db ⊥
      → s.is_dead ≡ false
      → IsSound free_db len_db s
      → 0 < len
      → Unused (free_db.find s.free) offset (offset + div_up len block_size * block_size)
      → (s' : FreeSpace D L) × (add_freemap_ext free_db len_db s offset len used ≡ some s')
  add_freemap_ext-returns s offset len used failing alive sound hlen unused = result _ (
      add_freemap_ext-Added free_db len_db ⊥ failing s offset len used
        (λ d. ground (arith, d, alive)) sound hlen unused)
    where
      result :
          (o : Option (FreeSpace D L))
          → Yields free_db len_db ⊥ failing
              (Added free_db len_db ⊥ failing
                (free_db.find s.free)
                (s.data_file_free + div_up len block_size * block_size)
                offset
                (div_up len block_size * block_size))
              o
          → (s' : FreeSpace D L) × (o ≡ some s')
      result _ (fails e) = elim e [ ]
      result _ (gives {s} p) = (s, refl)
