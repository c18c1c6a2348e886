-- ===== src/Freemap/Db.antt =====
-- The databases of LMDB that the free map uses, as the operations that the code calls and what the
-- documentation of LMDB says of them. A put or a deletion that fails, or that meets a read error of
-- the mapped file, gives `none`; a search gives `none` if there is no such entry, and does not fail.
use hs.Prelude.{ℕ, ◌≤◌, ◌<◌, ◌≡◌, Bool, ◌&&◌, ◌||◌, not, Option, none, some, ◌==◌, if◌then◌else◌}

-- A database with one value for each key, in the order of the keys: `mdb_cursor_get` with
-- `MDB_SET_RANGE`, then with `MDB_PREV`, `mdb_put`, and the deletion of a key.
pub record OrderedDb (D : Type 0) : Type 0 where
  pub find : D → ℕ → Option ℕ
  pub at_or_after : D → ℕ → Option (ℕ × ℕ)
  pub before : D → ℕ → Option (ℕ × ℕ)
  pub put : D → ℕ → ℕ → Option D
  pub del : D → ℕ → Option D
  pub at_or_after_some :
      (d : D) (k o l : ℕ)
      → at_or_after d k ≡ some (o, l)
      → (find d o ≡ some l) × (k ≤ o) × ((j : ℕ) → k ≤ j → j < o → find d j ≡ none)
  pub at_or_after_none :
      (d : D) (k : ℕ) → at_or_after d k ≡ none → (j : ℕ) → k ≤ j → find d j ≡ none
  pub before_some :
      (d : D) (k o l : ℕ)
      → before d k ≡ some (o, l)
      → (find d o ≡ some l) × (o < k) × ((j : ℕ) → o < j → j < k → find d j ≡ none)
  pub before_none : (d : D) (k : ℕ) → before d k ≡ none → (j : ℕ) → j < k → find d j ≡ none
  pub find-put :
      (d d' : D) (k v : ℕ)
      → put d k v ≡ some d'
      → (j : ℕ) → find d' j ≡ (if j == k then some v else find d j)
  pub find-del :
      (d d' : D) (k : ℕ)
      → del d k ≡ some d'
      → (j : ℕ) → find d' j ≡ (if j == k then none else find d j)

-- A database of pairs, with sorted duplicates of a key: `mdb_put` and `mdb_del` of a pair.
pub record PairDb (L : Type 0) : Type 0 where
  pub has : L → ℕ → ℕ → Bool
  pub put : L → ℕ → ℕ → Option L
  pub del : L → ℕ → ℕ → Option L
  pub has-put :
      (d d' : L) (k v : ℕ)
      → put d k v ≡ some d'
      → (a b : ℕ) → has d' a b ≡ (((a == k) && (b == v)) || has d a b)
  pub has-del :
      (d d' : L) (k v : ℕ)
      → del d k v ≡ some d'
      → (a b : ℕ) → has d' a b ≡ (not ((a == k) && (b == v)) && has d a b)
