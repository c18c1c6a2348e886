-- ===== src/Policy/Glob/StarInText.antt =====
-- src/Policy.cpp: `resourceMatch` on resources that hold a star themselves, as an object key may.
use hs.Prelude.{ℕ, zero, suc, ◌≡◌, ◌≢◌, refl, inr, false, none, List, [], ◌∷◌, ◌++◌, arith}
use hs.Policy.Glob.{star, any_char, match_loop, resource_match}
use hs.Policy.Glob.Relation.{Glob, done, one, leave, extend}

-- Neither a star nor a question mark.
abbrev pub IsLiteral : List ℕ → Type 0
IsLiteral [] = Unit {0}
IsLiteral (q ∷ p) = (q ≢ star) × (q ≢ any_char) × IsLiteral p

star_means_all : (s : List ℕ) → Glob (star ∷ []) s
star_means_all [] = leave refl done
star_means_all (c ∷ s) = extend refl (star_means_all s)

prefix_means : (p s : List ℕ) → IsLiteral p → Glob (p ++ star ∷ []) (p ++ s)
prefix_means [] s h = star_means_all s
prefix_means (q ∷ p) s (ns, nq, h) = one ns (inr refl) (prefix_means p s h)

-- Two rounds behind the prefix the pattern is used up, and there is no star to go back to.
loop_loses_star :
    (fuel c : ℕ) (p s : List ℕ) → match_loop fuel (p ++ star ∷ []) (p ++ star ∷ c ∷ s) none ≡ false
unfolding match_loop
loop_loses_star zero c [] s = refl
loop_loses_star zero c (q ∷ p) s = refl
loop_loses_star (suc zero) c [] s = refl
loop_loses_star (suc (suc fuel)) c [] s = refl
loop_loses_star (suc fuel) c (q ∷ p) s = ground (arith, loop_loses_star fuel c p s)

-- A pattern that ends in its only star, such as `arn:aws:s3:::bucket/*`, stands for every resource
-- that begins like it, yet `resourceMatch` rejects all of them in which a star and one more byte at
-- least stand at the place of the pattern's star.
pub resource_match-star :
    (p : List ℕ) (c : ℕ) (s : List ℕ)
    → IsLiteral p
    → Glob (p ++ star ∷ []) (p ++ star ∷ c ∷ s)
      × (resource_match (p ++ star ∷ []) (p ++ star ∷ c ∷ s) ≡ false)
unfolding resource_match
resource_match-star p c s h = (prefix_means p (star ∷ c ∷ s) h, loop_loses_star _ c p s)
