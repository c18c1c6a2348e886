-- ===== src/Policy/Glob.antt =====
-- src/Policy.cpp: `Policy::resourceMatch`, the wildcard match of a resource against a pattern. Texts
-- are lists of bytes, and a position of the source is the part of the text from there on.
pub mod Relation
pub mod Sound
pub mod Complete
pub mod StarInText
pub mod Ends
use hs.Prelude.{
  ℕ, zero, suc, ◌+◌, ◌*◌, Bool, true, false, ◌&&◌, ◌||◌, Option, none, some, List, [], ◌∷◌, length,
  drop, ◌==◌, if◌then◌else◌,
}

abbrev pub star : ℕ
star = b'*'

abbrev pub any_char : ℕ
any_char = b'?'

-- `starIdx` and `matchIdx`: the pattern behind the last star, and the text at which its match was
-- tried last; `none` is `npos`.
abbrev pub Back : Type 0
Back = Option (List ℕ × List ℕ)

-- The loop behind the other one, which skips the stars at the end of the pattern.
unfoldable pub only_stars : List ℕ → Bool
only_stars [] = true
only_stars (q ∷ p) = q == star && only_stars p

-- `p = starIdx + 1; matchIdx++; r = matchIdx;`, or the end of the search.
abbrev pub retry : (List ℕ → List ℕ → Back → Bool) → Back → Bool
retry next none = false
retry next (some (bp, bs)) = next bp (drop 1 bs) (some (bp, drop 1 bs))

-- The `while` loop, on fuel.
unfoldable pub match_loop : ℕ → List ℕ → List ℕ → Back → Bool
match_loop fuel p [] back = only_stars p
match_loop zero p (c ∷ r) back = false
match_loop (suc fuel) [] (c ∷ r) back = retry (match_loop fuel) back
match_loop (suc fuel) (q ∷ p) (c ∷ r) back =
    let both = match_loop fuel p r back in
    let starred = match_loop fuel p (c ∷ r) (some (p, c ∷ r)) in
    let again = retry (match_loop fuel) back in
    if q == any_char || q == c then both else if q == star then starred else again

-- Each round shortens the pattern that is left, or moves `matchIdx`, which has `length resource`
-- places to go to.
unfoldable pub resource_match : List ℕ → List ℕ → Bool
resource_match policy_resource resource =
    match_loop (length resource * (length policy_resource + 1) + length policy_resource)
      policy_resource resource none
