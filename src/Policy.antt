-- ===== src/Policy.antt =====
-- src/Policy.h and src/Policy.cpp: policy statements, the resource patterns and the access decision.
pub mod Glob
pub mod Access
pub mod Expand
mod Runs
use hs.Prelude.{
  ℕ, zero, suc, ◌+◌, Bool, true, false, ◌&&◌, ◌||◌, Option, none, some, List, [], ◌∷◌, ◌==◌,
  bytes_eq, codes, if◌then◌else◌,
}
use hs.Action.{
  Action, action_id, action_of, same_action, action_from_str, action_to_str, unknown, all_actions,
}
use Glob.{star, resource_match}

pub data Effect : Type 0 where
  deny allow : Effect

pub record Statement : Type 0 where
  pub sid : List ℕ
  pub effect : Effect
  pub actions : List Action
  pub resources : List (List ℕ)

pub data AccessCheckResult : Type 0 where
  denied allowed no_match : AccessCheckResult

-- `std::find(actions.begin(), actions.end(), action) != actions.end()`
unfoldable pub has_action : Action → List Action → Bool
has_action action [] = false
has_action action (a ∷ others) = same_action a action || has_action action others

-- The loop that sets `hasResourceMatch`.
unfoldable pub has_resource_match : List ℕ → List (List ℕ) → Bool
has_resource_match resource [] = false
has_resource_match resource (pattern ∷ ps) =
    resource_match pattern resource || has_resource_match resource ps

-- A statement that neither `continue` skips.
unfoldable pub applies : Action → List ℕ → Statement → Bool
applies action resource stmt =
    (has_action action stmt.actions || has_action all_actions stmt.actions)
    && has_resource_match resource stmt.resources

-- The loop of `Policy::checkAccess`, with `ret` so far; a deny returns at once.
unfoldable pub check_loop : Action → List ℕ → List Statement → AccessCheckResult → AccessCheckResult
check_loop action resource [] ret = ret
check_loop action resource (stmt ∷ stmts) ret = elim (applies action resource stmt) [
  | false ↦ check_loop action resource stmts ret
  | true ↦ elim stmt.effect [ allow ↦ check_loop action resource stmts allowed | deny ↦ denied ]
]

-- `Policy::checkAccess`
unfoldable pub check_access : List Statement → Action → List ℕ → AccessCheckResult
check_access statements action resource = check_loop action resource statements no_match

-- `actionStr.find("*") != npos`
unfoldable pub has_star : List ℕ → Bool
has_star [] = false
has_star (c ∷ s) = c == star || has_star s

-- The loop over the enumerators, for `rounds` values from `i` on.
unfoldable pub expand_loop : ℕ → ℕ → List ℕ → List Action
expand_loop zero i action_str = []
expand_loop (suc rounds) i action_str =
    let action = action_of i in
    let later = expand_loop rounds (i + 1) action_str in
    if same_action action unknown || same_action action all_actions
    then later
    else if resource_match action_str (action_to_str action)
    then action ∷ later
    else later

-- `Policy::expandAction`; `none` is a `PolicyParseError`.
unfoldable pub expand_action : List ℕ → Option (List Action)
expand_action action_str =
    if has_star action_str
    then if bytes_eq action_str (codes "*")
      then some (all_actions ∷ [])
      else some (expand_loop 57 1 action_str)
    else let action = action_from_str action_str in
      if same_action action unknown then none else some (action ∷ [])
