-- ===== src/Data/Scan.antt =====
-- Readers in the style `b &= get(&value);`: all the getters run, and `b` says whether all succeeded.
-- A variable keeps its value where its getter fails. `none` says that the program was aborted.
use hs.Prelude.{ℕ, ◌≡◌, refl, ap, ◌∙◌, Bool, true, false, Option, none, some, List, [], ◌++◌}
use hs.Data.Writer.{CwData, empty, ◌>>◌}
use hs.Data.Reader.{CrData}
use hs.Data.Reader.Stream.{Holds, Holds-regroup}
use hs.Data.Restore.{Appends, Restores, append_both, append_nothing}

-- The variable `b` and the reader
pub record Scan : Type 0 where
  pub b : Bool
  pub reader : CrData

abbrev pub Scanner {ℓ} : Type ℓ → Type ℓ
Scanner A = Scan → Option (A × Scan)

module _ {ℓ κ} {A : Type ℓ} {B : Type κ} where
  abbrev pub scan_on : (A → Scanner B) → Option (A × Scan) → Option (B × Scan)
  scan_on f none = none
  scan_on f (some (a, s)) = f a s

  infixl 5 ◌>>=◌
  abbrev pub ◌>>=◌ : Scanner A → (A → Scanner B) → Scanner B
  ◌>>=◌ m f s = scan_on f (m s)

abbrev pub give {ℓ} : {A : Type ℓ} → A → Scanner A
give a s = some (a, s)

abbrev pub abort {ℓ} : {A : Type ℓ} → Scanner A
abort s = none

-- `b &= get(&value);`, where the variable held `old`.
unfoldable pub scan {ℓ} : {A : Type ℓ} → (CrData → Option A × CrData) → A → Scanner A
scan {A} get old s = keep (get s.reader)
  where
    keep : Option A × CrData → Option (A × Scan)
    keep (none, r) = some (old, record { b = false; reader = r })
    keep (some a, r) = some (a, record s { reader = r })

-- All getters so far succeeded, and these bytes are left.
pub record Good (s : Scan) (bs : List ℕ) : Type 0 where
  pub so_far : s.b ≡ true
  pub held : Holds s.reader bs

-- What `write` appends to any writer, `get` takes off any reader and makes `x` of it, and all its
-- getters succeed.
abbrev pub Scans {ℓ} : {A : Type ℓ} → (CwData → CwData) → Scanner A → A → Type ℓ
Scans {A} write get x =
    (code : List ℕ) × Appends write code
    × ((s : Scan) (rest : List ℕ)
        → Good s (code ++ rest)
        → (s' : Scan) × ◌≡◌ {A = Option (A × Scan)} (get s) (some (x, s')) × Good s' rest)

pub scan-Scans {ℓ} :
    {A : Type ℓ} (write : CwData → CwData) (get : CrData → Option A × CrData) (old x : A)
    → Restores write get x
    → Scans write (scan get old) x
unfolding scan
scan-Scans write get old x (code, wrote, reads) = (
  code,
  wrote,
  λ s rest h.
      let (r', e, h') = reads s.reader rest h.held in
      (record s { reader = r' }, rw e, record { so_far = h.so_far; held = h' }),
)

pub >>-Scans {ℓ κ} :
    {A : Type ℓ} {B : Type κ} (f g : CwData → CwData) (get : Scanner A) (k : A → Scanner B) (a : A)
    (b : B)
    → Scans f get a
    → Scans g (k a) b
    → Scans (f >> g) (get >>= k) b
>>-Scans f g get k a b (c, fc, dc) (d, gd, dd) = (
  c ++ d,
  append_both f g c d fc gd,
  λ s rest h.
      let (s1, e1, h1) =
        dc s (d ++ rest)
          record { so_far = h.so_far; held = Holds-regroup s.reader c d rest h.held } in
      let (s2, e2, h2) = dd s1 rest h1 in (s2, ap (scan_on k) e1 ∙ e2, h2),
)

pub give-Scans {ℓ} : {A : Type ℓ} (a : A) → Scans (λ w. w) (give a) a
give-Scans a = ([], append_nothing, λ s rest h. (s, refl, h))

-- What a new writer holds is read back with all getters succeeding, whatever follows it.
pub Scans-read {ℓ} :
    {A : Type ℓ} (write : CwData → CwData) (get : Scanner A) (x : A) (s : Scan) (rest : List ℕ)
    → Scans write get x
    → Good s ((write empty).bytes ++ rest)
    → (s' : Scan) × ◌≡◌ {A = Option (A × Scan)} (get s) (some (x, s')) × Good s' rest
Scans-read write get x s rest (code, wrote, reads) h = reads s rest record {
  so_far = h.so_far;
  held = record {
    valid = h.held.valid;
    content = h.held.content ∙ ap (λ bs. bs ++ rest) (wrote empty);
  };
}
