-- ===== src/Policy/Glob/Ends.antt =====
-- src/Policy.cpp: the search of `Policy::resourceMatch` comes to an end.
use hs.Prelude.{
  ℕ, zero, suc, ◌+◌, ◌*◌, ◌≤◌, ◌≡◌, refl, Bool, ◌||◌, none, some, List, [], ◌∷◌, length, drop, ◌==◌,
  if◌then◌else◌, arith,
}
use native.Mathlib.Nat.{mul-le-mul_right}
use hs.Policy.Glob.{star, any_char, Back, only_stars, retry, match_loop, resource_match}

-- The loop again, with an answer for the case that it runs out of rounds
unfoldable pub loop_or : Bool → ℕ → List ℕ → List ℕ → Back → Bool
loop_or answer fuel p [] back = only_stars p
loop_or answer zero p (c ∷ r) back = answer
loop_or answer (suc fuel) [] (c ∷ r) back = retry (loop_or answer fuel) back
loop_or answer (suc fuel) (q ∷ p) (c ∷ r) back =
    let both = loop_or answer fuel p r back in
    let starred = loop_or answer fuel p (c ∷ r) (some (p, c ∷ r)) in
    let again = retry (loop_or answer fuel) back in
    if q == any_char || q == c then both else if q == star then starred else again

-- How many rounds there are still to come at most, for a pattern of `n` bytes
abbrev left_of : ℕ → List ℕ → List ℕ → Back → ℕ
left_of n p r none = length r * (n + 1) + length p
left_of n p r (some (bp, bs)) = length bs * (n + 1) + length p

-- The place to go back to is in the pattern, and not behind the place in the text.
abbrev Placed : ℕ → List ℕ → Back → Type 0
Placed n r none = length r ≤ length r
Placed n r (some (bp, bs)) = (length bp ≤ n) × (length r ≤ length bs)

record Going (n fuel : ℕ) (p r : List ℕ) (back : Back) : Type 0 where
  pattern_fits : length p ≤ n
  placed : Placed n r back
  enough : left_of n p r back ≤ fuel

module _ (n : ℕ) where
  both-Going :
      (fuel q c : ℕ) (p r : List ℕ) (back : Back)
      → Going n (suc fuel) (q ∷ p) (c ∷ r) back
      → Going n fuel p r back
  both-Going fuel q c p r none g = record {
    pattern_fits = omega (arith, g.pattern_fits);
    placed = omega arith;
    enough = omega (arith, g.enough);
  }
  both-Going fuel q c p r (some (bp, bs)) g = record {
    pattern_fits = omega (arith, g.pattern_fits);
    placed = (g.placed.0, omega (arith, g.placed.1));
    enough = omega (arith, g.enough);
  }

  starred-Going :
      (fuel q c : ℕ) (p r : List ℕ) (back : Back)
      → Going n (suc fuel) (q ∷ p) (c ∷ r) back
      → Going n fuel p (c ∷ r) (some (p, c ∷ r))
  starred-Going fuel q c p r none g = record {
    pattern_fits = omega (arith, g.pattern_fits);
    placed = (omega (arith, g.pattern_fits), omega arith);
    enough = omega (arith, g.enough);
  }
  starred-Going fuel q c p r (some (bp, bs)) g = record {
    pattern_fits = omega (arith, g.pattern_fits);
    placed = (omega (arith, g.pattern_fits), omega arith);
    enough = omega (arith, g.enough, mul-le-mul_right (n + 1) g.placed.1);
  }

  again-Going :
      (fuel c : ℕ) (p r bp bs : List ℕ)
      → Going n (suc fuel) p (c ∷ r) (some (bp, bs))
      → Going n fuel bp (drop 1 bs) (some (bp, drop 1 bs))
  again-Going fuel c p r bp [] g = absurd (omega (arith, g.placed.1))
  again-Going fuel c p r bp (b ∷ bs) g = record {
    pattern_fits = g.placed.0;
    placed = (g.placed.0, omega arith);
    enough = omega (arith, g.enough, g.placed.0);
  }

  again-loop_or :
      (answer : Bool) (fuel more c : ℕ) (p r : List ℕ) (back : Back)
      → ((p r : List ℕ) (back : Back)
          → Going n fuel p r back
          → Going n more p r back
          → loop_or answer fuel p r back ≡ match_loop more p r back)
      → Going n (suc fuel) p (c ∷ r) back
      → Going n (suc more) p (c ∷ r) back
      → retry (loop_or answer fuel) back ≡ retry (match_loop more) back
  again-loop_or answer fuel more c p r none same g h = refl
  again-loop_or answer fuel more c p r (some (bp, bs)) same g h =
      same bp (drop 1 bs) (some (bp, drop 1 bs)) (again-Going fuel c p r bp bs g)
        (again-Going more c p r bp bs h)

  -- There is a round left where the text goes on.
  some_left : (c : ℕ) (p r : List ℕ) (back : Back) → ¬ (Going n 0 p (c ∷ r) back)
  some_left c p r none g = omega (arith, g.enough)
  some_left c p r (some (bp, [])) g = omega (arith, g.placed.1)
  some_left c p r (some (bp, b ∷ bs)) g = omega (arith, g.enough)

  loop_or_lem :
      (answer : Bool) (fuel more : ℕ) (p r : List ℕ) (back : Back)
      → Going n fuel p r back
      → Going n more p r back
      → loop_or answer fuel p r back ≡ match_loop more p r back
  unfolding loop_or match_loop
  loop_or_lem answer zero zero p [] back g h = refl
  loop_or_lem answer zero (suc more) p [] back g h = refl
  loop_or_lem answer (suc fuel) zero p [] back g h = refl
  loop_or_lem answer (suc fuel) (suc more) p [] back g h = refl
  loop_or_lem answer zero more p (c ∷ r) back g h = absurd (some_left c p r back g)
  loop_or_lem answer (suc fuel) zero p (c ∷ r) back g h = absurd (some_left c p r back h)
  loop_or_lem answer (suc fuel) (suc more) [] (c ∷ r) back g h =
      again-loop_or answer fuel more c [] r back (loop_or_lem answer fuel more) g h
  loop_or_lem answer (suc fuel) (suc more) (q ∷ p) (c ∷ r) back g h = ground (
    arith,
    loop_or_lem answer fuel more p r back (both-Going fuel q c p r back g)
        (both-Going more q c p r back h),
    loop_or_lem answer fuel more p (c ∷ r) (some (p, c ∷ r)) (starred-Going fuel q c p r back g)
        (starred-Going more q c p r back h),
    again-loop_or answer fuel more c (q ∷ p) r back (loop_or_lem answer fuel more) g h,
  )

-- The search of `resourceMatch` ends, for any pattern and any resource: after as many rounds as the length
-- of the resource times one more than that of the pattern, and the length of the pattern, its answer
-- depends neither on how many more rounds there are nor on what it would answer when it had none left.
pub resource_match-ends :
    (answer : Bool) (fuel : ℕ) (pattern resource : List ℕ)
    → length resource * (length pattern + 1) + length pattern ≤ fuel
    → loop_or answer fuel pattern resource none ≡ resource_match pattern resource
unfolding resource_match
resource_match-ends answer fuel pattern resource enough =
    loop_or_lem (length pattern) answer fuel _ pattern resource none
      (record { pattern_fits = omega arith; placed = omega arith; enough = enough })
      (record { pattern_fits = omega arith; placed = omega arith; enough = omega arith })
