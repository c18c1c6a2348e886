-- ===== src/Freemap/Merge.antt =====
-- src/SingleFileStorage.cpp: what `add_freemap_ext` makes of the map of free extents.
use hs.Prelude.{
  ℕ, ◌+◌, ◌≤◌, ◌<◌, ◌≡◌, inl, inr, refl, sym, ap, ◌∙◌, Bool, true, false, ◌&&◌, Bool-cases, ◌*◌,
  some, ◌==◌, arith,
}
use hs.Freemap.{
  FreeSpace, Next, meets, no_next, next_len, Prev, look_prev, del_next_len, and_then, merge,
  account, account_unless, add_before, add_rounded, add_freemap_ext, div_up, block_size,
}
use hs.Freemap.Db.{OrderedDb, PairDb}
use hs.Freemap.Shape.{Extents, Apart, IsFree, left_alone, left_joined, Merging, Merging-agree}
use hs.Freemap.Mirror.{Mirrors, without, is_len}
use hs.Freemap.Neighbours.{
  Behind, found_overlap, found_clear, Beside, found_next, found_no_next, Front, found_around,
  found_free, Before, found_prev, found_no_prev, look_next-Behind, look_prev-Front, Front-agree,
}
use hs.Freemap.Steps.{
  Failing, Yields, fails, gives, Yields-and_then, Yields-weaken, Holds, Holds-del_next,
  Holds-del_len, Holds-put_ext,
}
use hs.Freemap.Taken.{
  taken, taken-elsewhere, with_ext-Merging, taken-sub, taken-Before, taken-offset, taken-same,
}

-- No byte from the offset up to the end is in an extent.
abbrev pub Unused : Extents → ℕ → ℕ → Type 0
Unused f offset end = (x : ℕ) → offset ≤ x → x < end → IsFree f x → ⊥

-- The databases agree, and their extents are apart.
pub record IsSound {D L : Type 0} (free_db : OrderedDb D) (len_db : PairDb L) (s : FreeSpace D L)
    : Type 0 where
  pub apart : Apart (free_db.find s.free)
  pub mirrors : Mirrors (len_db.has s.free_len) (free_db.find s.free)

module _ {D L : Type 0} (free_db : OrderedDb D) (len_db : PairDb L) (E : Type 0)
    (failing : Failing free_db len_db E) where
  -- What the call has made of the map `f`
  pub record Added (f : Extents) (n offset len : ℕ) (s : FreeSpace D L) : Type 0 where
    pub merging : Merging f (free_db.find s.free) offset len
    pub mirrors : Mirrors (len_db.has s.free_len) (free_db.find s.free)
    pub counted : s.data_file_free ≡ n

  Holds-Added :
      (f f' g' : Extents) (n offset len : ℕ) (s : FreeSpace D L)
      → ((j : ℕ) → f' j ≡ g' j)
      → Merging f f' offset len
      → Holds free_db len_db E failing s f' g' n
      → Added f n offset len s
  Holds-Added f f' g' n offset len s same m h = record {
    merging = Merging-agree f f' (free_db.find s.free) offset len h.agrees m;
    mirrors = λ l o. h.mirrors l o ∙ ap (is_len l) (sym (h.agrees o ∙ same o));
    counted = h.counted;
  }

  module _ (f : Extents) (n offset len : ℕ) (hlen : 0 < len) where
    Holds-del_next_len :
        (g : Extents) (s : FreeSpace D L) (next : Next)
        → Beside f offset (offset + len) next
        → ((j : ℕ) → offset ≤ j → g j ≡ f j)
        → Holds free_db len_db E failing s (taken next f) g n
        → Yields free_db len_db E failing
            (λ s'. Holds free_db len_db E failing s' (taken next f) (taken next g) n)
            (del_next_len free_db len_db s next)
    Holds-del_next_len g s _ (found_next o l same e bound) agree h =
        Holds-del_len free_db len_db E failing s (without o f) g n o l h (agree o (omega arith) ∙ e)
    Holds-del_next_len g s _ (found_no_next b) agree h = gives h

    merge-Added :
        (s : FreeSpace D L) (next : Next) (prev : Prev)
        → Beside f offset (offset + len) next
        → Before f offset prev
        → Holds free_db len_db E failing s (taken next f) f n
        → Yields free_db len_db E failing
            (Added f n offset len)
            (merge free_db len_db offset len next s prev)
    unfolding merge
    merge-Added s next _ b (found_prev o l e lt touch) h =
        Yields-and_then free_db len_db E failing _ _ _ _
          (Holds-del_len free_db len_db E failing s (taken next f) f n o l h e)
          (λ s1 h1.
            Yields-and_then free_db len_db E failing _ _ _ _
              (Holds-del_next_len (without o f) s1 next b (λ j le. ground arith) h1)
              (λ s2 h2.
                Yields-weaken free_db len_db E failing _ _ _
                  (Holds-put_ext free_db len_db E failing s2 _ _ n o (l + len + next_len next) h2
                    (taken-Before f offset len hlen next o l b lt))
                  (λ s3 h3.
                    Holds-Added f _ _ n offset len s3
                      (taken-same f offset len hlen next o (l + len + next_len next))
                      (with_ext-Merging f offset len hlen next o (l + len + next_len next) b
                        (left_joined o l e touch) (omega arith) (omega arith))
                      h3)))
    merge-Added s next _ b (found_no_prev front) h =
        Yields-and_then free_db len_db E failing _ _ _ _
          (Holds-del_next_len f s next b (λ j le. refl) h)
          (λ s1 h1.
            Yields-weaken free_db len_db E failing _ _ _
              (Holds-put_ext free_db len_db E failing s1 _ _ n offset (len + next_len next) h1
                (taken-offset f offset len hlen next b))
              (λ s2 h2.
                Holds-Added f _ _ n offset len s2 (λ j. refl)
                  (with_ext-Merging f offset len hlen next offset (len + next_len next) b
                    (left_alone front) (omega arith) (omega arith))
                  h2))

  module _ (f : Extents) (n offset len : ℕ) (hlen : 0 < len) (used : Bool) where
    Added-account :
        (s : FreeSpace D L)
        → Added f n offset len s
        → Yields free_db len_db E failing
            (Added f (n + len) offset len)
            (account free_db len_db offset len used s)
    Added-account s a =
        gives (record {
          merging = a.merging;
          mirrors = a.mirrors;
          counted = ap (λ t. t + len) a.counted;
        })

    add_front :
        (s : FreeSpace D L) (next : Next) (prev : Prev)
        → Beside f offset (offset + len) next
        → Before f offset prev
        → Holds free_db len_db E failing s (taken next f) f n
        → Yields free_db len_db E failing (Added f (n + len) offset len) (
            and_then free_db len_db
              (merge free_db len_db offset len next s prev)
              (account_unless free_db len_db prev offset len used))
    add_front s next prev b front h =
        Yields-and_then free_db len_db E failing _ _ _ _
          (merge-Added f n offset len hlen s next prev b front h) (counting prev front)
      where
        counting :
            (prev : Prev)
            → Before f offset prev
            → (s1 : FreeSpace D L) → Added f n offset len s1
            → Yields free_db len_db E failing
                (Added f (n + len) offset len)
                (account_unless free_db len_db prev offset len used s1)
        counting _ (found_prev o l e lt touch) s1 a = Added-account s1 a
        counting _ (found_no_prev g) s1 a = Added-account s1 a

    add_before-Added :
        (s : FreeSpace D L) (next : Next)
        → Apart f
        → Unused f offset (offset + len)
        → Beside f offset (offset + len) next
        → Holds free_db len_db E failing s (taken next f) f n
        → Yields free_db len_db E failing
            (Added f (n + len) offset len)
            (add_before free_db len_db offset len used next s)
    unfolding add_before
    add_before-Added s next apart unused b h =
        go (look_prev offset (free_db.before s.free offset)) (
          Front-agree (free_db.find s.free) f offset _
            (λ j lt. sym (h.agrees j ∙ taken-elsewhere f offset len hlen next j b (omega arith)))
            (look_prev-Front free_db offset len hlen s.free (record {
              positive = λ o l e. apart.positive o l (sub o l e);
              apart = λ o l o' l' e e' lt. apart.apart o l o' l' (sub o l e) (sub o' l' e') lt;
            })))
      where
        sub : (o l : ℕ) → free_db.find s.free o ≡ some l → f o ≡ some l
        sub o l e = taken-sub f offset len hlen next o l b (sym (h.agrees o) ∙ e)

        go :
            (prev : Prev)
            → Front f offset prev
            → Yields free_db len_db E failing (Added f (n + len) offset len) (
                and_then free_db len_db
                  (merge free_db len_db offset len next s prev)
                  (account_unless free_db len_db prev offset len used))
        go _ (found_around o l e lt le) =
            elim (unused offset (omega arith) (omega arith) (o, l, e, omega arith, le)) [ ]
        go prev (found_free front) = add_front s next prev b front h

  module _ (s : FreeSpace D L) (offset len : ℕ) (used : Bool) (sound : IsSound free_db len_db s)
      (hlen : 0 < len) (unused : Unused (free_db.find s.free) offset (offset + len)) where
    start_Holds :
        Holds free_db len_db E failing s
          (free_db.find s.free)
          (free_db.find s.free)
          s.data_file_free
    start_Holds = record { agrees = λ j. refl; mirrors = sound.mirrors; counted = refl }

    add_rounded-Added :
        (next : Next)
        → Behind (free_db.find s.free) offset (offset + len) next
        → Yields free_db len_db E failing
            (Added (free_db.find s.free) (s.data_file_free + len) offset len)
            (add_rounded free_db len_db s offset len used next)
    unfolding add_rounded
    add_rounded-Added _ (found_overlap o l e le lt) =
        elim (unused o le lt (o, l, e, omega arith, omega (arith, sound.apart.positive o l e))) [ ]
    add_rounded-Added _ (found_clear (found_next o l same e bound)) =
        Yields-and_then free_db len_db E failing _ _ _ _
          (Holds-del_next free_db len_db E failing s _ _ _ o l start_Holds e)
          (λ s1 h1.
            add_before-Added (free_db.find s.free) s.data_file_free offset len hlen used s1
              (meets o l) sound.apart unused (found_next o l same e bound) h1)
    add_rounded-Added _ (found_clear (found_no_next h)) =
        add_before-Added (free_db.find s.free) s.data_file_free offset len hlen used s no_next
          sound.apart unused (found_no_next h) start_Holds

pub rounded_pos : (len : ℕ) → 0 < len → 0 < div_up len block_size * block_size
unfolding div_up
rounded_pos len h = ground arith

module _ {D L : Type 0} (free_db : OrderedDb D) (len_db : PairDb L) (E : Type 0)
    (failing : Failing free_db len_db E) where
  pub add_freemap_ext-Added :
      (s : FreeSpace D L) (offset len : ℕ) (used : Bool)
      → (s.is_dead ≡ true → E)
      → IsSound free_db len_db s
      → 0 < len
      → Unused (free_db.find s.free) offset (offset + div_up len block_size * block_size)
      → Yields free_db len_db E failing
          (Added free_db len_db E failing
            (free_db.find s.free)
            (s.data_file_free + div_up len block_size * block_size)
            offset
            (div_up len block_size * block_size))
          (add_freemap_ext free_db len_db s offset len used)
  unfolding add_freemap_ext
  add_freemap_ext-Added s offset len used dead sound hlen unused = elim (Bool-cases s.is_dead) [
    | inl d ↦ rw d (fails (dead d))
    | inr d ↦
        simp (d, not_empty)
          (add_rounded-Added free_db len_db E failing s offset _ used sound (rounded_pos len hlen)
            unused _ (look_next-Behind free_db offset _ (rounded_pos len hlen) s.free))
  ]
    where
      not_empty : ((offset == 0) && (len == 0)) ≡ false
      not_empty = ground arith
