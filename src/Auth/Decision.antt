-- ===== src/Auth/Decision.antt =====
-- src/Auth.cpp: what `isAuthorizedNoLock` decides, read off all statements of the user at once.
use hs.Prelude.{
  ℕ, ◌≡◌, refl, Bool, true, false, not, ◌&&◌, ◌||◌, Option, none, some, List, [], ◌∷◌, ◌++◌, arith,
}
use hs.Action.{Action}
use hs.Policy.{Effect, Statement, AccessCheckResult, allowed, no_match}
use hs.Policy.Access.{is_deny, is_allow, any_applies, check_access_lem}
use hs.Buckets.{BucketInfo, State}
use hs.Auth.{
  Role, User, Cache, is_negative_id, bucket_info, is_public, check_policies, check_roles,
  has_permission, by_user, is_authorized_no_lock,
}

-- All statements of policies, and of roles
abbrev pub policy_statements : List (List Statement) → List Statement
policy_statements [] = []
policy_statements (p ∷ ps) = p ++ policy_statements ps

abbrev pub statements_of : List Role → List Statement
statements_of [] = []
statements_of (role ∷ roles) = policy_statements role.policies ++ statements_of roles

module _ (action : Action) (resource : List ℕ) where
  any_applies-append :
      (wanted : Effect → Bool) (xs ys : List Statement)
      → any_applies wanted action resource (xs ++ ys)
        ≡ (any_applies wanted action resource xs || any_applies wanted action resource ys)
  any_applies-append wanted [] ys = refl
  any_applies-append wanted (x ∷ xs) ys = ground (arith, any_applies-append wanted xs ys)

  -- What a loop gives, by whether a statement denies and whether one allows
  abbrev outcome : Bool → Bool → AccessCheckResult → Option AccessCheckResult
  outcome true allows res = none
  outcome false true res = some allowed
  outcome false false res = some res

  abbrev outcome_of : List Statement → AccessCheckResult → Option AccessCheckResult
  outcome_of stmts res =
      outcome (any_applies is_deny action resource stmts)
        (any_applies is_allow action resource stmts) res

  check_policies_lem :
      (ps : List (List Statement)) (res : AccessCheckResult)
      → check_policies ps action resource res ≡ outcome_of (policy_statements ps) res
  unfolding check_policies
  check_policies_lem [] res = refl
  check_policies_lem (p ∷ ps) res = ground (
    arith,
    check_access_lem p action resource,
    any_applies-append is_deny p (policy_statements ps),
    any_applies-append is_allow p (policy_statements ps),
    check_policies_lem ps res,
    check_policies_lem ps allowed,
  )

  check_roles_lem :
      (roles : List Role) (res : AccessCheckResult)
      → check_roles roles action resource res ≡ outcome_of (statements_of roles) res
  unfolding check_roles
  check_roles_lem [] res = refl
  check_roles_lem (role ∷ roles) res = ground (
    arith,
    check_policies_lem role.policies res,
    any_applies-append is_deny (policy_statements role.policies) (statements_of roles),
    any_applies-append is_allow (policy_statements role.policies) (statements_of roles),
    check_roles_lem roles res,
    check_roles_lem roles allowed,
  )

  -- No statement denies, and a statement or the permission for the bucket allows.
  abbrev pub user_may : Option BucketInfo → Option User → Bool
  user_may info none = false
  user_may info (some user) =
      not (any_applies is_deny action resource (statements_of user.roles))
      && (any_applies is_allow action resource (statements_of user.roles)
          || has_permission user info action)

  by_user_lem :
      (info : Option BucketInfo) (user : Option User)
      → by_user user info action resource ≡ user_may info user
  by_user_lem info none = refl
  by_user_lem info (some user) = ground (arith, check_roles_lem user.roles no_match)

  -- A request is authorized exactly if the bucket of its resource gives everyone the permission for the
  -- action, or the user is known and no statement of any policy of the user's roles that applies
  -- denies, and one that applies allows or the user has the permission for the bucket. A negative
  -- identifier is that of no user.
  pub is_authorized_no_lock_lem :
      (s : Cache) (buckets : State) (user_id : ℕ)
      → is_authorized_no_lock s buckets resource action user_id ≡ (
          is_public (bucket_info buckets resource) action
          || (not (is_negative_id user_id)
              && user_may (bucket_info buckets resource) (s.users user_id)))
  unfolding is_authorized_no_lock
  is_authorized_no_lock_lem s buckets user_id =
      ground (arith, by_user_lem (bucket_info buckets resource) (s.users user_id))
