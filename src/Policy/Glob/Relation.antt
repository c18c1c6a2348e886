-- ===== src/Policy/Glob/Relation.antt =====
-- What a pattern means, as a relation, and the steps that the loop takes in it.
use hs.Prelude.{ℕ, ◌≡◌, ◌≢◌, refl, ◌⊎◌, inl, inr, List, [], ◌∷◌, drop, true, arith}
use hs.Policy.Glob.{star, any_char, only_stars}

-- A star stands for any text, a question mark for any byte, and any other byte for itself.
pub data Glob : List ℕ → List ℕ → Type 0 where
  done : Glob [] []
  one :
      {q c : ℕ} {p s : List ℕ}
      → q ≢ star
      → (q ≡ any_char) ⊎ (q ≡ c)
      → Glob p s
      → Glob (q ∷ p) (c ∷ s)
  leave : {q : ℕ} {p s : List ℕ} → q ≡ star → Glob p s → Glob (q ∷ p) s
  extend : {q c : ℕ} {p s : List ℕ} → q ≡ star → Glob (q ∷ p) s → Glob (q ∷ p) (c ∷ s)

pub one_inv :
    {q c : ℕ} {p s : List ℕ}
    → q ≢ star
    → Glob (q ∷ p) (c ∷ s)
    → ((q ≡ any_char) ⊎ (q ≡ c)) × Glob p s
one_inv n (one _ m g) = (m, g)
one_inv n (leave e g) = absurd (n e)
one_inv n (extend e g) = absurd (n e)

one_not_empty : {q : ℕ} {p : List ℕ} → q ≢ star → ¬ Glob (q ∷ p) []
one_not_empty n (leave e g) = n e

pub empty_pattern : {c : ℕ} {s : List ℕ} → ¬ Glob [] (c ∷ s)
empty_pattern g = elim g [ ]

-- A star leaves at once or takes the first byte.
pub star_inv :
    {q : ℕ} {p : List ℕ} (s : List ℕ)
    → q ≡ star
    → Glob (q ∷ p) s
    → Glob p s ⊎ Glob (q ∷ p) (drop 1 s)
star_inv _ e (one n m g) = absurd (n e)
star_inv _ e (leave _ g) = inl g
star_inv _ e (extend _ g) = inr g

pub star_at_end : {q : ℕ} {p : List ℕ} → Glob (q ∷ p) [] → Glob p []
star_at_end (leave e g) = g

-- A star before a text of which the first byte was dropped takes that byte too.
pub star_back :
    {q : ℕ} {p : List ℕ} (s : List ℕ) → q ≡ star → Glob (q ∷ p) (drop 1 s) → Glob (q ∷ p) s
star_back [] e g = g
star_back (c ∷ s) e g = extend e g

pub two_stars : {a b : ℕ} {p s : List ℕ} → a ≡ star → b ≡ star → Glob (a ∷ b ∷ p) s → Glob (b ∷ p) s
two_stars ea eb (one n m g) = absurd (n ea)
two_stars ea eb (leave _ g) = g
two_stars ea eb (extend _ g) = extend eb (two_stars ea eb g)

-- Behind a star, a pattern of one byte and what follows it can be put off by a byte.
pub star_step :
    {a q : ℕ} {p : List ℕ} (s : List ℕ)
    → a ≡ star
    → q ≢ star
    → Glob (a ∷ q ∷ p) s
    → Glob (a ∷ p) (drop 1 s)
star_step [] ea n (leave _ g) = absurd (one_not_empty n g)
star_step (c ∷ s) ea n (one m _ g) = absurd (m ea)
star_step (c ∷ s) ea n (leave _ g) = leave ea (one_inv n g).1
star_step (c ∷ s) ea n (extend _ g) = star_back s ea (star_step s ea n g)

pub only_stars-Glob : (p : List ℕ) → only_stars p ≡ true → Glob p []
unfolding only_stars
only_stars-Glob [] h = done
only_stars-Glob (q ∷ p) h = leave (ground arith) (only_stars-Glob p (ground arith))

pub Glob-only_stars : (p : List ℕ) → Glob p [] → only_stars p ≡ true
unfolding only_stars
Glob-only_stars [] done = refl
Glob-only_stars (q ∷ p) (leave e g) = ground (arith, Glob-only_stars p g)
