-- ===== src/Freemap/Find.antt =====
-- src/SingleFileStorage.cpp: `find_freemap_ext`, which looks for a free extent to write to. The
-- entries of `dbi_free_len` are a list of pairs of a length and an offset, in the order of the
-- cursor, and an argument. A set of the source is a list.
use mathlib.Core.Option.{some-injective}
use mathlib.Core.Path.{subst}
use hs.Prelude.{
  ℕ, ◌+◌, ◌≤◌, ◌<◌, ◌≡◌, ◌↔◌, refl, ap, inl, inr, Bool, true, false, ◌&&◌, ◌||◌, Option, none, some,
  List, [], ◌∷◌, ◌++◌, ltb, leb, if◌then◌else◌, arith, Bool-cases,
}
use hs.Wal.{PunchItem}

-- `lower_bound` of a set: the least element that is not below `k`
unfoldable pub lower_bound : ℕ → List ℕ → Option ℕ
lower_bound k [] = none
lower_bound k (x ∷ xs) =
    let rest = lower_bound k xs in
    if leb k x
    then (elim rest [ none ↦ some x | some y ↦ if leb x y then some x else some y ])
    else rest

-- `it != end() && *it < start + len`
abbrev pub is_below : ℕ → Option ℕ → Bool
is_below end none = false
is_below end (some x) = ltb x end

unfoldable pub holds_one : ℕ → ℕ → List ℕ → Bool
holds_one start len xs = is_below (start + len) (lower_bound start xs)

-- The test of an extent that is to be skipped, and the loop over them
unfoldable pub meets_skip : ℕ → ℕ → PunchItem → Bool
meets_skip start len ext =
    (ltb ext.offset start && leb start (ext.offset + ext.len))
    || (ltb ext.offset (start + len) && leb (start + len) (ext.offset + ext.len))

unfoldable pub is_skipped : ℕ → ℕ → List PunchItem → Bool
is_skipped start len [] = false
is_skipped start len (ext ∷ exts) = meets_skip start len ext || is_skipped start len exts

-- `curr_free_skip_extents`, `curr_new_free_extents`, `reading_free_skip_extents` and the keys of
-- `trimming_free_skip_extents`
pub record InUse : Type 0 where
  pub free_skip : List PunchItem
  pub new_free : List ℕ
  pub reading : List ℕ
  pub trimming : List ℕ

abbrev pub is_refused : InUse → ℕ → ℕ → Bool
is_refused u start len =
    is_skipped start len u.free_skip
    || holds_one start len u.new_free
    || holds_one start len u.reading
    || holds_one start len u.trimming

-- `find_freemap_ext`: the offset and the length, or nothing where it returns false
unfoldable pub find_freemap_ext : InUse → List (ℕ × ℕ) → Option (ℕ × ℕ)
find_freemap_ext u [] = none
find_freemap_ext u ((len, start) ∷ entries) =
    if is_refused u start len then find_freemap_ext u entries else some (start, len)

-- No element of the list is in the extent.
pub data NoneIn (start len : ℕ) : List ℕ → Type 0 where
  none_left : NoneIn start len []
  one_more :
      {x : ℕ} {xs : List ℕ}
      → (start ≤ x → start + len ≤ x)
      → NoneIn start len xs
      → NoneIn start len (x ∷ xs)

-- Every entry of the list is refused.
pub data AllRefused (u : InUse) : List (ℕ × ℕ) → Type 0 where
  no_entry : AllRefused u []
  one_refused :
      {start len : ℕ} {entries : List (ℕ × ℕ)}
      → is_refused u start len ≡ true
      → AllRefused u entries
      → AllRefused u ((len, start) ∷ entries)

-- The bound that `lower_bound` gives
is_below-cons :
    (start len x : ℕ) (r : Option ℕ)
    → is_below (start + len) (
        if leb start x
        then (elim r [ none ↦ some x | some y ↦ if leb x y then some x else some y ])
        else r)
      ≡ false
    → (start ≤ x → start + len ≤ x) × (is_below (start + len) r ≡ false)
is_below-cons start len x none h = (λ le. ground (arith, h), refl)
is_below-cons start len x (some y) h = (λ le. ground (arith, h), ground (arith, h))

holds_one-NoneIn :
    (start len : ℕ) (xs : List ℕ) → holds_one start len xs ≡ false → NoneIn start len xs
unfolding holds_one lower_bound
holds_one-NoneIn start len [] h = none_left
holds_one-NoneIn start len (x ∷ xs) h =
    let (one, rest) = is_below-cons start len x (lower_bound start xs) h in
    one_more one (holds_one-NoneIn start len xs rest)

-- What is returned, and what stands in front of it
pub record FirstFit (u : InUse) (entries : List (ℕ × ℕ)) (start len : ℕ) : Type 0 where
  pub before : List (ℕ × ℕ)
  pub after : List (ℕ × ℕ)
  pub whole : entries ≡ before ++ ((len, start) ∷ after)
  pub refused : AllRefused u before
  pub not_skipped : is_skipped start len u.free_skip ≡ false
  pub no_new : NoneIn start len u.new_free
  pub no_reading : NoneIn start len u.reading
  pub no_trimming : NoneIn start len u.trimming

FirstFit-first :
    (u : InUse) (start len : ℕ) (entries : List (ℕ × ℕ))
    → is_refused u start len ≡ false
    → FirstFit u ((len, start) ∷ entries) start len
FirstFit-first u start len entries t = record {
  before = [];
  after = entries;
  whole = refl;
  refused = no_entry;
  not_skipped = ground (arith, t);
  no_new = holds_one-NoneIn start len u.new_free (ground (arith, t));
  no_reading = holds_one-NoneIn start len u.reading (ground (arith, t));
  no_trimming = holds_one-NoneIn start len u.trimming (ground (arith, t));
}

-- When `find_freemap_ext` finds an extent, it is the first entry by the order of the cursor that no
-- test refuses, and it holds no offset that was freed in this transaction, is being read or is being
-- trimmed.
pub find_freemap_ext-FirstFit :
    (u : InUse) (entries : List (ℕ × ℕ)) (start len : ℕ)
    → find_freemap_ext u entries ≡ some (start, len)
    → FirstFit u entries start len
unfolding find_freemap_ext
find_freemap_ext-FirstFit u [] start len h = ground (arith, h)
find_freemap_ext-FirstFit u ((l, o) ∷ entries) start len h = elim (Bool-cases (is_refused u o l)) [
  | inl t ↦
      let rest = find_freemap_ext-FirstFit u entries start len (rw (t, find_freemap_ext) at h) in
      record {
        before = (l, o) ∷ rest.before;
        after = rest.after;
        whole = ap (λ x. (l, o) ∷ x) rest.whole;
        refused = one_refused t rest.refused;
        not_skipped = rest.not_skipped;
        no_new = rest.no_new;
        no_reading = rest.no_reading;
        no_trimming = rest.no_trimming;
      }
  | inr t ↦
      let found : some (o, l) ≡ some (start, len) = rw (t, find_freemap_ext) at h in
      subst (λ p. FirstFit u ((l, o) ∷ entries) p.0 p.1) (some-injective _ _ found)
        (FirstFit-first u o l entries t)
]

-- `find_freemap_ext` returns false exactly if a test refuses every entry.
pub find_freemap_ext-AllRefused :
    (u : InUse) (entries : List (ℕ × ℕ))
    → (find_freemap_ext u entries ≡ none) ↔ AllRefused u entries
unfolding find_freemap_ext
find_freemap_ext-AllRefused u entries = (forth entries, back entries)
  where
    forth : (entries : List (ℕ × ℕ)) → find_freemap_ext u entries ≡ none → AllRefused u entries
    forth [] h = no_entry
    forth ((l, o) ∷ entries) h = elim (Bool-cases (is_refused u o l)) [
      | inl t ↦ one_refused t (forth entries (rw (t, find_freemap_ext) at h))
      | inr t ↦ let bad : some (o, l) ≡ none = rw (t, find_freemap_ext) at h in ground (arith, bad)
    ]

    back : (entries : List (ℕ × ℕ)) → AllRefused u entries → find_freemap_ext u entries ≡ none
    back _ no_entry = refl
    back _ (one_refused {start} {len} {entries} t rest) =
        rw (t, find_freemap_ext) (back entries rest)

not_met :
    (start len : ℕ) (ext : PunchItem)
    → start ≤ ext.offset
    → ext.offset + ext.len < start + len
    → meets_skip start len ext ≡ false
unfolding meets_skip
not_met start len ext le lt = ground arith

-- If no other test refuses the first entry, an extent to skip that begins where the entry's begins
-- or behind that, and ends in front of its end, does not keep `find_freemap_ext` from the entry.
pub find_freemap_ext-around :
    (u : InUse) (ext : PunchItem) (entries : List (ℕ × ℕ)) (start len : ℕ)
    → start ≤ ext.offset
    → ext.offset + ext.len < start + len
    → is_refused u start len ≡ false
    → find_freemap_ext (record u { free_skip = ext ∷ u.free_skip }) ((len, start) ∷ entries)
      ≡ some (start, len)
unfolding find_freemap_ext is_skipped
find_freemap_ext-around u ext entries start len le lt t = rw (not_met start len ext le lt, t) refl
