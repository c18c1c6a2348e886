-- ===== src/Policy/Glob/Sound.antt =====
-- src/Policy.cpp: what an acceptance of `resourceMatch` says of pattern and resource.
use hs.Prelude.{
  ℕ, zero, suc, ◌≡◌, refl, sym, ◌⊎◌, inl, inr, true, ◌||◌, none, some, List, [], ◌∷◌, drop, ◌==◌,
  ==_iff, Bool-cases, arith,
}
use mathlib.Core.Path.{subst}
use native.Mathlib.Decide.{ℕ_discrete}
use hs.Policy.Glob.{star, any_char, Back, retry, match_loop, resource_match}
use hs.Policy.Glob.Relation.{Glob, one, leave, extend, star_back, only_stars-Glob}

-- What a position to go back to contributes to a goal.
abbrev BackLeads : Type 0 → Back → Type 0
BackLeads G none = Unit {0}
BackLeads G (some (bp, bs)) = Glob (star ∷ bp) bs → G

meets : (q c : ℕ) → (q == any_char || q == c) ≡ true → (q ≡ any_char) ⊎ (q ≡ c)
meets q c h = ground arith

-- A byte of the pattern that is compared equal stands for the byte of the text, also if it is a star.
step_back : {q c : ℕ} {p s : List ℕ} → (q ≡ any_char) ⊎ (q ≡ c) → Glob p s → Glob (q ∷ p) (c ∷ s)
step_back {q} m g = elim (ℕ_discrete q star) [ yes e ↦ extend e (leave e g) | no n ↦ one n m g ]

module _ (G : Type 0) where
  retry_sound :
      (fuel : ℕ)
      → ((p r : List ℕ) (back : Back)
          → (Glob p r → G)
          → BackLeads G back
          → match_loop fuel p r back ≡ true
          → G)
      → (back : Back) → BackLeads G back
      → retry (match_loop fuel) back ≡ true
      → G
  retry_sound fuel next none b h = cc
  retry_sound fuel next (some (bp, bs)) b h =
      next bp (drop 1 bs) (some (bp, drop 1 bs)) (λ g. b (star_back bs refl (leave refl g)))
        (λ g. b (star_back bs refl g)) h

  loop_sound :
      (fuel : ℕ) (p r : List ℕ) (back : Back)
      → (Glob p r → G)
      → BackLeads G back
      → match_loop fuel p r back ≡ true
      → G
  unfolding match_loop
  loop_sound fuel p [] back k b h = k (only_stars-Glob p h)
  loop_sound zero p (c ∷ r) back k b h = cc
  loop_sound (suc fuel) [] (c ∷ r) back k b h = retry_sound fuel (loop_sound fuel) back b h
  loop_sound (suc fuel) (q ∷ p) (c ∷ r) back k b h = elim (Bool-cases (q == any_char || q == c)) [
    | inl same ↦ loop_sound fuel p r back (λ g. k (step_back (meets q c same) g)) b (rw same at h)
    | inr differ ↦ elim (Bool-cases (q == star)) [
      | inl starred ↦
          let e = (==_iff q star).0 starred in
          loop_sound fuel p (c ∷ r) (some (p, c ∷ r)) (λ g. k (leave e g))
            (λ g. k (subst (λ t. Glob (t ∷ p) (c ∷ r)) (sym e) g)) (rw (differ, starred) at h)
      | inr plain ↦ retry_sound fuel (loop_sound fuel) back b (rw (differ, plain) at h)
    ]
  ]

-- If `resourceMatch` accepts a resource, the pattern stands for it.
pub resource_match_sound :
    (policy_resource resource : List ℕ)
    → resource_match policy_resource resource ≡ true
    → Glob policy_resource resource
unfolding resource_match
resource_match_sound policy_resource resource h =
    loop_sound (Glob policy_resource resource) _ policy_resource resource none (λ g. g) tt h
