-- ===== src/Freemap/Mirror.antt =====
-- src/SingleFileStorage.cpp: `dbi_free_len` holds the pairs of `dbi_free`.
use hs.Prelude.{
  ℕ, ◌≡◌, ◌∙◌, inl, inr, Bool, true, false, not, ◌&&◌, ◌||◌, Option, none, some, ◌==◌,
  if◌then◌else◌, arith,
}
use hs.Freemap.Shape.{Extents, eq_or_ne}

-- The extent at an offset has the length `l`.
unfoldable pub is_len : ℕ → Option ℕ → Bool
is_len l none = false
is_len l (some k) = l == k

pub is_len-same : (l : ℕ) → is_len l (some l) ≡ true
unfolding is_len
is_len-same l = ground arith

-- `has l o` tells whether the database by length holds the extent.
abbrev pub Mirrors : (ℕ → ℕ → Bool) → Extents → Type 0
Mirrors has f = (l o : ℕ) → has l o ≡ is_len l (f o)

abbrev pub without : ℕ → Extents → Extents
without o f j = if j == o then none else f j

abbrev pub with_ext : ℕ → ℕ → Extents → Extents
with_ext o l f j = if j == o then some l else f j

module _ (has has' : ℕ → ℕ → Bool) (f : Extents) (o l : ℕ) (old : Mirrors has f) where
  pub Mirrors-del :
      f o ≡ some l
      → ((a b : ℕ) → has' a b ≡ (not ((a == l) && (b == o)) && has a b))
      → Mirrors has' (without o f)
  unfolding is_len
  Mirrors-del e h a b = h a b ∙ elim (eq_or_ne b o) [
    | inl same ↦ rw (same, old a o, e) (ground arith)
    | inr other ↦ rw (old a b) (ground (arith, other))
  ]

  pub Mirrors-put :
      f o ≡ none
      → ((a b : ℕ) → has' a b ≡ (((a == l) && (b == o)) || has a b))
      → Mirrors has' (with_ext o l f)
  unfolding is_len
  Mirrors-put e h a b = h a b ∙ elim (eq_or_ne b o) [
    | inl same ↦ rw (same, old a o, e) (ground arith)
    | inr other ↦ rw (old a b) (ground (arith, other))
  ]
