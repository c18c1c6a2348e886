-- ===== src/Freemap/Steps.antt =====
-- src/SingleFileStorage.cpp: the changes that `add_freemap_ext` makes to the two databases, one by
-- one, on the maps that the databases hold.
use mathlib.Core.Option.{some-injective}
use mathlib.Core.Path.{subst}
use hs.Prelude.{
  arith, ℕ, ◌≡◌, inl, inr, ap, ◌∙◌, true, Option, none, some, ◌==◌, if◌then◌else◌, Option-cases,
}
use hs.Freemap.{FreeSpace, meets, del_next, del_len, put_len, put_ext, and_then}
use hs.Freemap.Db.{OrderedDb, PairDb}
use hs.Freemap.Shape.{Extents}
use hs.Freemap.Mirror.{Mirrors, without, with_ext, Mirrors-del, Mirrors-put, is_len, is_len-same}

-- What is known when a call of a database fails: `E`.
pub record Failing {D L : Type 0} (free_db : OrderedDb D) (len_db : PairDb L) (E : Type 0)
    : Type 0 where
  pub free_put : (d : D) (o l : ℕ) → free_db.put d o l ≡ none → E
  pub free_del : (d : D) (o l : ℕ) → free_db.find d o ≡ some l → free_db.del d o ≡ none → E
  pub len_put : (d : L) (l o : ℕ) → len_db.put d l o ≡ none → E
  pub len_del : (d : L) (l o : ℕ) → len_db.has d l o ≡ true → len_db.del d l o ≡ none → E

module _ {D L : Type 0} (free_db : OrderedDb D) (len_db : PairDb L) (E : Type 0)
    (failing : Failing free_db len_db E) where
  -- A call gives a state with the property, or fails.
  pub data Yields (P : FreeSpace D L → Type 0) : Option (FreeSpace D L) → Type 0 where
    fails : E → Yields P none
    gives : {s : FreeSpace D L} → P s → Yields P (some s)

  pub Yields-and_then :
      (P Q : FreeSpace D L → Type 0) (o : Option (FreeSpace D L))
      (f : FreeSpace D L → Option (FreeSpace D L))
      → Yields P o
      → ((s : FreeSpace D L) → P s → Yields Q (f s))
      → Yields Q (and_then free_db len_db o f)
  Yields-and_then P Q _ f (fails e) h = fails e
  Yields-and_then P Q _ f (gives {s} p) h = h s p

  pub Yields-weaken :
      (P Q : FreeSpace D L → Type 0) (o : Option (FreeSpace D L))
      → Yields P o
      → ((s : FreeSpace D L) → P s → Q s)
      → Yields Q o
  Yields-weaken P Q _ (fails e) h = fails e
  Yields-weaken P Q _ (gives {s} p) h = gives (h s p)

  -- The map and the map by length are in the databases, and `n` bytes are counted as free.
  pub record Holds (s : FreeSpace D L) (f g : Extents) (n : ℕ) : Type 0 where
    pub agrees : (j : ℕ) → free_db.find s.free j ≡ f j
    pub mirrors : Mirrors (len_db.has s.free_len) g
    pub counted : s.data_file_free ≡ n

  pub Holds-del_next :
      (s : FreeSpace D L) (f g : Extents) (n o l : ℕ)
      → Holds s f g n
      → f o ≡ some l
      → Yields (λ s'. Holds s' (without o f) g n) (del_next free_db len_db s (meets o l))
  unfolding del_next
  Holds-del_next s f g n o l h at_o = elim (Option-cases (free_db.del s.free o)) [
    | inl e ↦ rw (e, del_next) (fails (failing.free_del s.free o l (h.agrees o ∙ at_o) e))
    | inr (d, e) ↦
        rw (e, del_next)
          (gives (record {
            agrees = λ j.
                free_db.find-del s.free d o e j ∙ ap (λ t. if j == o then none else t) (h.agrees j);
            mirrors = h.mirrors;
            counted = h.counted;
          }))
  ]

  pub Holds-del_len :
      (s : FreeSpace D L) (f g : Extents) (n o l : ℕ)
      → Holds s f g n
      → g o ≡ some l
      → Yields (λ s'. Holds s' f (without o g) n) (del_len free_db len_db s o l)
  unfolding del_len
  Holds-del_len s f g n o l h at_o = elim (Option-cases (len_db.del s.free_len l o)) [
    | inl e ↦
        rw (e, del_len)
          (fails
            (failing.len_del s.free_len l o (h.mirrors l o ∙ ap (is_len l) at_o ∙ is_len-same l) e))
    | inr (d, e) ↦
        rw (e, del_len)
          (gives (record {
            agrees = h.agrees;
            mirrors =
                Mirrors-del (len_db.has s.free_len) (len_db.has d) g o l h.mirrors at_o
                  (len_db.has-del s.free_len d l o e);
            counted = h.counted;
          }))
  ]

  pub Holds-put_len :
      (s : FreeSpace D L) (f g : Extents) (n o l : ℕ)
      → Holds s f g n
      → g o ≡ none
      → Yields (λ s'. Holds s' f (with_ext o l g) n) (put_len free_db len_db s o l)
  unfolding put_len
  Holds-put_len s f g n o l h at_o = elim (Option-cases (len_db.put s.free_len l o)) [
    | inl e ↦ rw (e, put_len) (fails (failing.len_put s.free_len l o e))
    | inr (d, e) ↦
        rw (e, put_len)
          (gives (record {
            agrees = h.agrees;
            mirrors =
                Mirrors-put (len_db.has s.free_len) (len_db.has d) g o l h.mirrors at_o
                  (len_db.has-put s.free_len d l o e);
            counted = h.counted;
          }))
  ]

  pub Holds-put_ext :
      (s : FreeSpace D L) (f g : Extents) (n o l : ℕ)
      → Holds s f g n
      → g o ≡ none
      → Yields (λ s'. Holds s' (with_ext o l f) (with_ext o l g) n) (put_ext free_db len_db s o l)
  unfolding put_ext
  Holds-put_ext s f g n o l h at_o = elim (Option-cases (free_db.put s.free o l)) [
    | inl e ↦ rw (e, put_ext) (fails (failing.free_put s.free o l e))
    | inr (d, e) ↦
        rw (e, put_ext)
          (Holds-put_len (record s { free = d }) (with_ext o l f) g n o l
            (record {
              agrees = λ j.
                  free_db.find-put s.free d o l e j
                  ∙ ap (λ t. if j == o then some l else t) (h.agrees j);
              mirrors = h.mirrors;
              counted = h.counted;
            })
            at_o)
  ]

-- What `none` excludes: a call that gives a state has the property.
pub Yields-some :
    {D L : Type 0} (free_db : OrderedDb D) (len_db : PairDb L) (E : Type 0)
    (failing : Failing free_db len_db E) (P : FreeSpace D L → Type 0) (o : Option (FreeSpace D L))
    (s' : FreeSpace D L)
    → Yields free_db len_db E failing P o
    → o ≡ some s'
    → P s'
Yields-some free_db len_db E failing P _ s' (fails e) h = ground (arith, h)
Yields-some free_db len_db E failing P _ s' (gives {s} p) h = subst P (some-injective _ _ h) p
