-- ===== src/Data/Reader/Stream.antt =====
-- The reader as a stream: the bytes that are still to be read, and what a getter takes off them.
use hs.Prelude.{
  ℕ, ◌+◌, ◌-◌, ◌*◌, ◌≤◌, ◌<◌, ◌≡◌, refl, sym, ap, ◌∙◌, Option, some, List, [], ◌++◌, length,
  length-append, append_assoc, take, drop, drop-drop, drop-take, drop-append, length-take,
  length-drop, take-take, take-length, get_or, get_or-take, arith,
}
use hs.Data.Reader.{CrData, of_string, set_data, advance, current, go_on, ◌>>=◌, give}

-- The position is within the data, and the data within the buffer and 100 MiB.
pub record IsValid (r : CrData) : Type 0 where
  pub position : r.streampos ≤ r.datalen
  pub buffer : r.datalen ≤ length r.memory
  pub limit : r.datalen ≤ 100 * 1024 * 1024

-- The bytes between the position and the end of the data.
abbrev pub remaining : CrData → List ℕ
remaining r = take (r.datalen - r.streampos) (current r)

pub record Holds (r : CrData) (bs : List ℕ) : Type 0 where
  pub valid : IsValid r
  pub content : remaining r ≡ bs

pub length-remaining : (r : CrData) → IsValid r → length (remaining r) ≡ r.datalen - r.streampos
length-remaining r v =
    omega (
      arith,
      length-take (r.datalen - r.streampos) (current r),
      length-drop r.streampos r.memory,
      v,
    )

pub Holds-length : (r : CrData) (bs : List ℕ) → Holds r bs → r.streampos + length bs ≡ r.datalen
Holds-length r bs h =
    omega (arith, ap length h.content, length-remaining r h.valid, h.valid.position)

pub advance-IsValid :
    (n : ℕ) (r : CrData) → IsValid r → r.streampos + n ≤ r.datalen → IsValid (advance n r)
advance-IsValid n r v h = record { position = h; buffer = v.buffer; limit = v.limit }

remaining-advance : (n : ℕ) (r : CrData) → remaining (advance n r) ≡ drop n (remaining r)
remaining-advance n r =
    let e : r.datalen - (r.streampos + n) ≡ r.datalen - r.streampos - n = omega arith in
    rw (e, ← drop-drop) (sym (drop-take n (r.datalen - r.streampos) (current r)))

-- Reading the front of the stream leaves the rest.
pub Holds-advance :
    (r : CrData) (front rest : List ℕ)
    → Holds r (front ++ rest)
    → Holds (advance (length front) r) rest
Holds-advance r front rest h = record {
  valid =
      advance-IsValid (length front) r h.valid
        (omega (arith, Holds-length r (front ++ rest) h, length-append front rest));
  content = remaining-advance (length front) r ∙ rw (h.content, drop-append);
}

-- The bytes of the stream that a getter looks at are those of the buffer.
module _ (r : CrData) (bs : List ℕ) (h : Holds r bs) where
  pub current-get_or :
      (i : ℕ) → i < r.datalen - r.streampos → get_or (current r) i 0 ≡ get_or bs i 0
  current-get_or i lt =
      rw (← h.content) (sym (get_or-take (r.datalen - r.streampos) i (current r) 0 lt))

  pub current-take : (n : ℕ) → n ≤ r.datalen - r.streampos → take n (current r) ≡ take n bs
  current-take n le = rw (← h.content) (sym (take-take n (r.datalen - r.streampos) (current r) le))

-- A reader made of a string of up to 100 MiB holds the string.
pub of_string-Holds : (bs : List ℕ) → length bs ≤ 100 * 1024 * 1024 → Holds (of_string bs) bs
unfolding of_string set_data
of_string-Holds bs h = record {
  valid = record { position = omega arith; buffer = omega arith; limit = omega arith };
  content = take-length _ bs (omega arith);
}

pub Holds-regroup :
    (r : CrData) (c d rest : List ℕ) → Holds r ((c ++ d) ++ rest) → Holds r (c ++ (d ++ rest))
Holds-regroup r c d rest h = record { valid = h.valid; content = h.content ∙ append_assoc c d rest }

-- `get` reads the value `x` off any stream that begins with `code`, and leaves what follows.
abbrev pub Decodes {ℓ} : {A : Type ℓ} → (CrData → Option A × CrData) → List ℕ → A → Type ℓ
Decodes {A} get code x =
    (r : CrData) (rest : List ℕ)
    → Holds r (code ++ rest)
    → (r' : CrData) × ◌≡◌ {A = Option A × CrData} (get r) (some x, r') × Holds r' rest

-- Getters run one after the other read codes that stand one after the other.
pub >>=-Decodes {ℓ κ} :
    {A : Type ℓ} {B : Type κ} (m : CrData → Option A × CrData) (f : A → CrData → Option B × CrData)
    (c d : List ℕ) (a : A) (b : B)
    → Decodes m c a
    → Decodes (f a) d b
    → Decodes (m >>= f) (c ++ d) b
>>=-Decodes m f c d a b dm df r rest h =
    let (r1, e1, h1) = dm r (d ++ rest) (Holds-regroup r c d rest h) in
    let (r2, e2, h2) = df r1 rest h1 in (r2, ap (go_on f) e1 ∙ e2, h2)

pub give-Decodes {ℓ} : {A : Type ℓ} (a : A) → Decodes (give a) [] a
give-Decodes a r rest h = (r, refl, h)
