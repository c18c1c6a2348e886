-- ===== src/Policy/Access.antt =====
-- The access decision, read off the statements without their order.
use hs.Prelude.{◌≡◌, refl, ◌∙◌, ap₂, sym, Bool, true, false, ◌&&◌, ◌||◌, List, [], ◌∷◌, ℕ, arith}
use mathlib.Core.List.{Perm, Permᴰ}
use mathlib.Core.Logic.{∥∥₁_elim}
use hs.Action.{Action}
use hs.Policy.{
  Effect, deny, allow, Statement, AccessCheckResult, denied, allowed, no_match, applies, check_loop,
  check_access,
}

abbrev pub is_deny : Effect → Bool
is_deny deny = true
is_deny allow = false

abbrev pub is_allow : Effect → Bool
is_allow deny = false
is_allow allow = true

-- Some statement applies and is one of those that `wanted` accepts.
abbrev pub any_applies : (Effect → Bool) → Action → List ℕ → List Statement → Bool
any_applies wanted action resource [] = false
any_applies wanted action resource (stmt ∷ stmts) =
    (applies action resource stmt && wanted stmt.effect) || any_applies wanted action resource stmts

-- The decision that the statements call for.
abbrev pub decision : Bool → Bool → AccessCheckResult → AccessCheckResult
decision true _ ret = denied
decision false true ret = allowed
decision false false ret = ret

check_loop_lem :
    (action : Action) (resource : List ℕ) (stmts : List Statement) (ret : AccessCheckResult)
    → check_loop action resource stmts ret
      ≡ decision
          (any_applies is_deny action resource stmts)
          (any_applies is_allow action resource stmts)
          ret
unfolding check_loop
check_loop_lem action resource [] ret = refl
check_loop_lem action resource (stmt ∷ stmts) ret =
    ground (
      arith,
      check_loop_lem action resource stmts ret,
      check_loop_lem action resource stmts allowed,
    )

-- `checkAccess` denies if any statement that applies denies, wherever it stands; else it allows if
-- any that applies allows; else nothing matched.
pub check_access_lem :
    (stmts : List Statement) (action : Action) (resource : List ℕ)
    → check_access stmts action resource
      ≡ decision
          (any_applies is_deny action resource stmts)
          (any_applies is_allow action resource stmts)
          no_match
unfolding check_access
check_access_lem stmts action resource = check_loop_lem action resource stmts no_match

any_applies-perm :
    (wanted : Effect → Bool) (action : Action) (resource : List ℕ) {xs ys : List Statement}
    → Permᴰ xs ys
    → any_applies wanted action resource xs ≡ any_applies wanted action resource ys
any_applies-perm wanted action resource Permᴰ.nil = refl
any_applies-perm wanted action resource (Permᴰ.cons e p) =
    rw (e, any_applies-perm wanted action resource p)
any_applies-perm wanted action resource (Permᴰ.swap e f) = rw (e, f) (ground arith)
any_applies-perm wanted action resource (Permᴰ.trans p q) =
    any_applies-perm wanted action resource p ∙ any_applies-perm wanted action resource q

-- The order of the statements does not change the decision.
pub check_access-perm :
    {xs ys : List Statement}
    → Perm xs ys
    → (action : Action) (resource : List ℕ)
    → check_access xs action resource ≡ check_access ys action resource
check_access-perm p action resource = ∥∥₁_elim p (decided _ _) λ q.
    check_access_lem _ action resource
    ∙ ap₂ (λ d a. decision d a no_match) (any_applies-perm is_deny action resource q)
        (any_applies-perm is_allow action resource q)
    ∙ sym (check_access_lem _ action resource)
  where
    decided : IsSet AccessCheckResult
    decided = hlevel
