-- ===== src/Policy/Expand.antt =====
-- Which actions a name in a policy stands for.
use hs.Prelude.{
  ℕ, zero, suc, ◌+◌, ◌≤◌, ◌<◌, ◌-◌, ◌≡◌, ◌≢◌, ap, ◌∙◌, ◌↔◌, ◌⊎◌, inl, inr, Bool, true, false, ◌&&◌,
  ◌||◌, not, some, none, List, [], ◌∷◌, ◌==◌, Bool-cases, codes, bytes_eq, arith,
}
use hs.Action.{
  Action, action_id, action_of, same_action, action_to_str, action_from_str, unknown, all_actions,
}
use hs.Action.Names.{action_of-action_id, action_id_bounds, same_action→eq, same_action_refl}
use hs.Policy.Glob.{resource_match}
use hs.Policy.{has_action, has_star, expand_loop, expand_action}

-- The actions that an expansion may name.
abbrev pub is_proper : Action → Bool
is_proper a = not (same_action a unknown || same_action a all_actions)

-- What the loop collects is proper, and its name matches.
expand_loop_only :
    (rounds i : ℕ) (pattern : List ℕ) (a : Action)
    → has_action a (expand_loop rounds i pattern) ≡ true
    → (is_proper a && resource_match pattern (action_to_str a)) ≡ true
unfolding expand_loop has_action
expand_loop_only zero i pattern a h = cc
expand_loop_only (suc rounds) i pattern a h =
    ground (arith, expand_loop_only rounds (i + 1) pattern a, same_action→eq (action_of i) a)

proper_test :
    (a : Action) → is_proper a ≡ true → (same_action a unknown || same_action a all_actions) ≡ false
proper_test a h = ground arith

proper_id : (a : Action) → is_proper a ≡ true → 1 ≤ action_id a
unfolding action_id
proper_id a h = go (action_id a) (ground arith)
  where
    go : (n : ℕ) → (n == 0) ≡ false → 1 ≤ n
    go n e = ground arith

-- It visits every value from `i` on.
expand_loop_all :
    (j rounds i : ℕ) (pattern : List ℕ) (a : Action)
    → action_id a ≡ i + j
    → j < rounds
    → is_proper a ≡ true
    → resource_match pattern (action_to_str a) ≡ true
    → has_action a (expand_loop rounds i pattern) ≡ true
unfolding expand_loop has_action
expand_loop_all j zero i pattern a e h p m = absurd (omega arith)
expand_loop_all zero (suc rounds) i pattern a e h p m =
    rw visited (rw (proper_test a p, m) (ground (arith, same_action_refl a)))
  where
    visited : action_of i ≡ a
    visited = ap action_of (omega arith) ∙ action_of-action_id a
expand_loop_all (suc j) (suc rounds) i pattern a e h p m =
    ground (arith, expand_loop_all j rounds (i + 1) pattern a (omega arith) (omega arith) p m)

-- A name with a star, but for the single star, stands for exactly the proper actions whose names
-- `resourceMatch` accepts for it.
pub expand_action_star :
    (pattern : List ℕ)
    → has_star pattern ≡ true
    → bytes_eq pattern (codes "*") ≡ false
    → (l : List Action) × (expand_action pattern ≡ some l)
      × ((a : Action)
          → (has_action a l ≡ true)
            ↔ ((is_proper a && resource_match pattern (action_to_str a)) ≡ true))
unfolding expand_action
expand_action_star pattern h k =
    (expand_loop 57 1 pattern, rw (h, k), λ a. (expand_loop_only 57 1 pattern a, named a))
  where
    named :
        (a : Action)
        → (is_proper a && resource_match pattern (action_to_str a)) ≡ true
        → has_action a (expand_loop 57 1 pattern) ≡ true
    named a e =
        let p : is_proper a ≡ true = ground arith in
        let m : resource_match pattern (action_to_str a) ≡ true = ground arith in
        expand_loop_all (action_id a - 1) 57 1 pattern a (omega (arith, proper_id a p))
          (omega (arith, action_id_bounds a)) p m

-- A name without a star stands for the one action that has it, or is refused.
pub expand_action_plain :
    (name : List ℕ)
    → has_star name ≡ false
    → ((expand_action name ≡ none) × (action_from_str name ≡ unknown))
      ⊎ ((expand_action name ≡ some (action_from_str name ∷ [])) × (action_from_str name ≢ unknown))
unfolding expand_action
expand_action_plain name h = elim (Bool-cases (same_action (action_from_str name) unknown)) [
  | inl none_such ↦ inl (rw (h, none_such), same_action→eq _ _ none_such)
  | inr found ↦
      inr (
        rw (h, found),
        λ e. cc (found, ap (λ t. same_action t unknown) e, same_action_refl unknown),
      )
]
