-- ===== src/Policy/Glob/Complete.antt =====
-- src/Policy.cpp: what `resourceMatch` accepts, against the relation `Glob`.
use hs.Prelude.{
  ℕ, zero, suc, ◌+◌, ◌*◌, ◌≤◌, ◌≡◌, ◌≢◌, refl, ◌↔◌, ◌⊎◌, inl, inr, true, false, ◌||◌, none, some,
  List, [], ◌∷◌, length, drop, ◌==◌, ==_iff, Bool-cases, arith,
}
use mathlib.Core.Path.{subst}
use native.Mathlib.Nat.{mul-le-mul_right}
use hs.Policy.Glob.{star, any_char, Back, retry, match_loop, resource_match}
use hs.Policy.Glob.Relation.{
  Glob, one_inv, empty_pattern, star_inv, star_at_end, two_stars, star_step, Glob-only_stars,
}
use hs.Policy.Glob.Sound.{resource_match_sound}

abbrev pub NoStars : List ℕ → Type 0
NoStars [] = Unit {0}
NoStars (c ∷ s) = (c ≢ star) × NoStars s

NoStars-drop : (s : List ℕ) → NoStars s → NoStars (drop 1 s)
NoStars-drop [] h = tt
NoStars-drop (c ∷ s) h = h.1

-- What the search still finds by going back: the star takes one byte more.
abbrev CanGoBack : Back → Type 0
CanGoBack none = ⊥
CanGoBack (some (bp, bs)) = Glob (star ∷ bp) (drop 1 bs)

-- Rounds that are left to the search, for patterns of `n` bytes at most.
abbrev rounds : ℕ → List ℕ → List ℕ → Back → ℕ
rounds n p r none = length r * (n + 1) + length p
rounds n p r (some (bp, bs)) = length bs * (n + 1) + length p

abbrev Fits : ℕ → List ℕ → List ℕ → Back → Type 0
Fits n p r none = length p ≤ n
Fits n p r (some (bp, bs)) = (length p ≤ n) × (length bp ≤ n) × (length r ≤ length bs) × NoStars bs

-- The invariant of the loop, for a goal `G` that is known to hold.
record Search (n fuel : ℕ) (p r : List ℕ) (back : Back) : Type 0 where
  here_or_back : Glob p r ⊎ CanGoBack back
  -- What going back finds is found from here, one byte later at the soonest.
  ahead : CanGoBack back → Glob (star ∷ p) (drop 1 r)
  plain : NoStars r
  fits : Fits n p r back
  fuelled : rounds n p r back ≤ fuel

differ_no_match : (q c : ℕ) → (q == any_char || q == c) ≡ false → ¬ ((q ≡ any_char) ⊎ (q ≡ c))
differ_no_match q c h m = ground arith

no_star_matched : (q c : ℕ) → c ≢ star → (q == any_char || q == c) ≡ true → q ≢ star
no_star_matched q c n h e = ground arith

module _ (n : ℕ) where
  matched-Fits :
      (q c : ℕ) (p r : List ℕ) (back : Back) → Fits n (q ∷ p) (c ∷ r) back → Fits n p r back
  matched-Fits q c p r none h = omega arith
  matched-Fits q c p r (some (bp, bs)) (hp, hb, hr, hs) = (omega arith, hb, omega arith, hs)

  matched_fuelled :
      (fuel q c : ℕ) (p r : List ℕ) (back : Back)
      → rounds n (q ∷ p) (c ∷ r) back ≤ suc fuel
      → rounds n p r back ≤ fuel
  matched_fuelled fuel q c p r none h = omega arith
  matched_fuelled fuel q c p r (some (bp, bs)) h = omega arith

  matched :
      (fuel q c : ℕ) (p r : List ℕ) (back : Back)
      → q ≢ star
      → Search n (suc fuel) (q ∷ p) (c ∷ r) back
      → Search n fuel p r back
  matched fuel q c p r back ne s = record {
    here_or_back = elim s.here_or_back [ inl g ↦ inl (one_inv ne g).1 | inr b ↦ inr b ];
    ahead = λ b. star_step r refl ne (s.ahead b);
    plain = s.plain.1;
    fits = matched-Fits q c p r back s.fits;
    fuelled = matched_fuelled fuel q c p r back s.fuelled;
  }

  starred-Fits :
      (q c : ℕ) (p r : List ℕ) (back : Back)
      → NoStars (c ∷ r)
      → Fits n (q ∷ p) (c ∷ r) back
      → Fits n p (c ∷ r) (some (p, c ∷ r))
  starred-Fits q c p r none ns h = (omega arith, omega arith, omega arith, ns)
  starred-Fits q c p r (some (bp, bs)) ns (hp, _, _, _) =
      (omega arith, omega arith, omega arith, ns)

  starred_fuelled :
      (fuel q c : ℕ) (p r : List ℕ) (back : Back)
      → Fits n (q ∷ p) (c ∷ r) back
      → rounds n (q ∷ p) (c ∷ r) back ≤ suc fuel
      → rounds n p (c ∷ r) (some (p, c ∷ r)) ≤ fuel
  starred_fuelled fuel q c p r none _ h = omega arith
  starred_fuelled fuel q c p r (some (bp, bs)) (hp, hb, hr, hs) h =
      omega (arith, mul-le-mul_right (n + 1) hr)

  starred :
      (fuel q c : ℕ) (p r : List ℕ) (back : Back)
      → q ≡ star
      → Search n (suc fuel) (q ∷ p) (c ∷ r) back
      → Search n fuel p (c ∷ r) (some (p, c ∷ r))
  starred fuel q c p r back e s = record {
    here_or_back = elim s.here_or_back [
      | inl g ↦ as_star (star_inv (c ∷ r) e g)
      | inr b ↦ inr (as_star_from b)
    ];
    ahead = λ b. b;
    plain = s.plain;
    fits = starred-Fits q c p r back s.plain s.fits;
    fuelled = starred_fuelled fuel q c p r back s.fits s.fuelled;
  }
    where
      as_star : Glob p (c ∷ r) ⊎ Glob (q ∷ p) r → Glob p (c ∷ r) ⊎ CanGoBack (some (p, c ∷ r))
      as_star (inl g) = inl g
      as_star (inr g) = inr (subst (λ t. Glob (t ∷ p) r) e g)

      as_star_from : CanGoBack back → CanGoBack (some (p, c ∷ r))
      as_star_from b = subst (λ t. Glob (t ∷ p) r) e (two_stars refl e (s.ahead b))

  backed :
      (fuel c : ℕ) (p r bp bs : List ℕ)
      → ¬ Glob p (c ∷ r)
      → Search n (suc fuel) p (c ∷ r) (some (bp, bs))
      → Search n fuel bp (drop 1 bs) (some (bp, drop 1 bs))
  backed fuel c p r bp [] miss s = absurd (omega (arith, s.fits.2))
  backed fuel c p r bp (b ∷ bs) miss s = record {
    here_or_back = elim s.here_or_back [ inl g ↦ absurd (miss g) | inr g ↦ star_inv bs refl g ];
    ahead = λ g. g;
    plain = s.fits.3.1;
    fits = (s.fits.1, s.fits.1, omega arith, s.fits.3.1);
    fuelled = omega (arith, s.fuelled, s.fits.1);
  }

  retry_complete :
      (fuel c : ℕ) (p r : List ℕ) (back : Back)
      → ¬ Glob p (c ∷ r)
      → ((p r : List ℕ) (back : Back) → Search n fuel p r back → match_loop fuel p r back ≡ true)
      → Search n (suc fuel) p (c ∷ r) back
      → retry (match_loop fuel) back ≡ true
  retry_complete fuel c p r none miss next s = elim s.here_or_back [
    | inl g ↦ absurd (miss g)
    | inr b ↦ absurd b
  ]
  retry_complete fuel c p r (some (bp, bs)) miss next s =
      next bp (drop 1 bs) _ (backed fuel c p r bp bs miss s)

  out_of_rounds :
      (c : ℕ) (p r : List ℕ) (back : Back) → Fits n p (c ∷ r) back → ¬ (rounds n p (c ∷ r) back ≤ 0)
  out_of_rounds c p r none h k = omega arith
  out_of_rounds c p r (some (bp, b ∷ bs)) h k = omega arith
  out_of_rounds c p r (some (bp, [])) (_, _, hr, _) k = absurd (omega arith)

  loop_complete :
      (fuel : ℕ) (p r : List ℕ) (back : Back)
      → Search n fuel p r back
      → match_loop fuel p r back ≡ true
  unfolding match_loop
  loop_complete fuel p [] back s = elim s.here_or_back [
    | inl g ↦ Glob-only_stars p g
    | inr b ↦ Glob-only_stars p (star_at_end (s.ahead b))
  ]
  loop_complete zero p (c ∷ r) back s = absurd (out_of_rounds c p r back s.fits s.fuelled)
  loop_complete (suc fuel) [] (c ∷ r) back s =
      retry_complete fuel c [] r back empty_pattern (loop_complete fuel) s
  loop_complete (suc fuel) (q ∷ p) (c ∷ r) back s = elim (Bool-cases (q == any_char || q == c)) [
    | inl same ↦ rw same (
        loop_complete fuel p r back
          (matched fuel q c p r back (no_star_matched q c s.plain.0 same) s))
    | inr differ ↦ elim (Bool-cases (q == star)) [
      | inl e ↦
          rw (differ, e)
            (loop_complete fuel p (c ∷ r) (some (p, c ∷ r))
              (starred fuel q c p r back ((==_iff q star).0 e) s))
      | inr ne ↦
          rw (differ, ne)
            (retry_complete fuel c (q ∷ p) r back (miss differ ne) (loop_complete fuel) s)
    ]
  ]
    where
      miss : (q == any_char || q == c) ≡ false → (q == star) ≡ false → ¬ Glob (q ∷ p) (c ∷ r)
      miss differ ne g = differ_no_match q c differ (one_inv (not_star ne) g).0
        where
          not_star : (q == star) ≡ false → q ≢ star
          not_star h e = ground arith

-- On a resource without a star of its own, `resourceMatch` accepts exactly what the pattern means.
-- In particular its loop always ends.
pub resource_match_iff :
    (policy_resource resource : List ℕ)
    → NoStars resource
    → (resource_match policy_resource resource ≡ true) ↔ Glob policy_resource resource
unfolding resource_match
resource_match_iff policy_resource resource ns = (
  resource_match_sound policy_resource resource,
  λ g. loop_complete (length policy_resource) _ policy_resource resource none (record {
    here_or_back = inl g;
    ahead = λ b. absurd b;
    plain = ns;
    fits = omega arith;
    fuelled = omega arith;
  }),
)
