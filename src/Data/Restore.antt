-- ===== src/Data/Restore.antt =====
-- A writing function and the reading function that undoes it, as one notion: what the first appends
-- to any writer, the second takes off any reader. Pairs that are run one after the other compose.
use hs.Prelude.{
  ℕ, ◌^◌, ◌≤◌, ◌<◌, ◌≡◌, refl, ap, ◌∙◌, Option, some, List, [], ◌∷◌, ◌++◌, length, append-nil,
  append_assoc,
}
use hs.Data.Memory.{to_memory}
use hs.Data.Memory.Swap.{little_endian_64_lem}
use hs.Data.Varint.{put_varint}
use hs.Data.Writer.{empty, CwData, ◌>>◌, add_buffer, add_char, add_int64, add_varint, add_string_2}
use hs.Data.Reader.{CrData, ◌>>=◌, give, get_char, get_int64, get_var_int, max_string, get_str_2}
use hs.Data.Reader.Stream.{Holds, Decodes, >>=-Decodes, give-Decodes}
use hs.Data.Reader.RoundTrip.{
  get_char-Decodes, get_int64-Decodes, get_var_int-Decodes, get_str_2-Decodes,
}

abbrev pub Appends : (CwData → CwData) → List ℕ → Type 0
Appends write code = (w : CwData) → (write w).bytes ≡ w.bytes ++ code

abbrev pub Restores {ℓ} :
    {A : Type ℓ} → (CwData → CwData) → (CrData → Option A × CrData) → A → Type ℓ
Restores write get x = (code : List ℕ) × Appends write code × Decodes get code x

pub append_both :
    (f g : CwData → CwData) (c d : List ℕ) → Appends f c → Appends g d → Appends (f >> g) (c ++ d)
append_both f g c d fc gd w = gd (f w) ∙ rw (fc w, append_assoc)

pub append_nothing : Appends (λ w. w) []
append_nothing w = rw append-nil

pub >>-Restores {ℓ κ} :
    {A : Type ℓ} {B : Type κ} (f g : CwData → CwData) (get : CrData → Option A × CrData)
    (k : A → CrData → Option B × CrData) (a : A) (b : B)
    → Restores f get a
    → Restores g (k a) b
    → Restores (f >> g) (get >>= k) b
>>-Restores f g get k a b (c, fc, dc) (d, gd, dd) =
    (c ++ d, append_both f g c d fc gd, >>=-Decodes get k c d a b dc dd)

pub give-Restores {ℓ} : {A : Type ℓ} (a : A) → Restores (λ w. w) (give a) a
give-Restores a = ([], append_nothing, give-Decodes a)

-- Nothing is written or read after the pair, and a value is made of what was read.
pub Restores-map {ℓ κ} :
    {A : Type ℓ} {B : Type κ} (f : CwData → CwData) (get : CrData → Option A × CrData) (g : A → B)
    (a : A)
    → Restores f get a
    → Restores f (get >>= (λ x. give (g x))) (g a)
Restores-map f get g a p =
    >>-Restores f (λ w. w) get (λ x. give (g x)) a (g a) p (give-Restores (g a))

pub add_char-Restores : (c : ℕ) → Restores (add_char c) get_char c
unfolding add_char add_buffer
add_char-Restores c = (c ∷ [], (λ w. refl), get_char-Decodes c)

pub add_varint-Restores : (v : ℕ) → v < 2 ^ 64 → Restores (add_varint v) get_var_int v
unfolding add_varint add_buffer
add_varint-Restores v hv = (put_varint v, (λ w. refl), get_var_int-Decodes v hv)

pub add_int64-Restores : (v : ℕ) → v < 2 ^ 64 → Restores (add_int64 v) get_int64 v
unfolding add_int64 add_buffer
add_int64-Restores v hv =
    (to_memory 8 v, (λ w. rw (little_endian_64_lem v)), get_int64-Decodes v hv)

pub add_string_2-Restores :
    (s : List ℕ) → length s ≤ max_string → Restores (add_string_2 s) get_str_2 s
unfolding add_string_2 add_varint add_buffer
add_string_2-Restores s hs = (
  put_varint (length s) ++ s,
  (λ w. append_assoc w.bytes (put_varint (length s)) s),
  get_str_2-Decodes s hs,
)

-- What a new writer holds is read back, whatever follows it in the reader.
pub Restores-read {ℓ} :
    {A : Type ℓ} (write : CwData → CwData) (get : CrData → Option A × CrData) (x : A) (r : CrData)
    (rest : List ℕ)
    → Restores write get x
    → Holds r ((write empty).bytes ++ rest)
    → (r' : CrData) × ◌≡◌ {A = Option A × CrData} (get r) (some x, r') × Holds r' rest
Restores-read write get x r rest (code, wrote, reads) h =
    reads r rest
      record { valid = h.valid; content = h.content ∙ ap (λ bs. bs ++ rest) (wrote empty) }

-- From a reader that holds what `addString2` wrote of a string of up to 10 MiB, `getStr2` reads the
-- string, and the reader holds what follows it.
pub get_str_2-add_string_2 :
    (s : List ℕ) (r : CrData) (rest : List ℕ)
    → length s ≤ max_string
    → Holds r ((add_string_2 s empty).bytes ++ rest)
    → (r' : CrData) × (get_str_2 r ≡ (some s, r')) × Holds r' rest
get_str_2-add_string_2 s r rest hs =
    Restores-read (add_string_2 s) get_str_2 s r rest (add_string_2-Restores s hs)
