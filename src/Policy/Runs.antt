-- ===== src/Policy/Runs.antt =====
-- Runs of the policy code, and the theorems about it at concrete inputs.
use hs.Prelude.{none, ◌≡◌, ◌↔◌, refl, true, false, List, [], ◌∷◌, ◌++◌, some, ℕ, ◌&&◌, codes, arith}
use hs.Action.{Action, get_object, put_object, action_id, action_to_str}
use hs.Policy.{
  deny, allow, Statement, denied, allowed, no_match, check_access, check_loop, applies, has_action,
  has_resource_match, has_star, expand_action,
}
use hs.Policy.Glob.{star, resource_match, match_loop, only_stars}
use hs.Policy.Glob.Relation.{Glob}
use hs.Policy.Glob.Sound.{resource_match_sound}
use hs.Policy.Glob.Complete.{resource_match_iff}
use hs.Policy.Glob.Ends.{loop_or, resource_match-ends}
use hs.Policy.Glob.StarInText.{resource_match-star}
use hs.Policy.Access.{decision, any_applies, is_deny, is_allow, check_access_lem}
use hs.Policy.Expand.{is_proper, expand_action_star}

bucket_matches : resource_match (codes "b/*.t?t") (codes "b/x/notes.txt") ≡ true
unfolding resource_match match_loop only_stars
bucket_matches = refl

abbrev read_all : Statement
read_all = record {
  sid = codes "read";
  effect = allow;
  actions = get_object ∷ [];
  resources = codes "b/*" ∷ [];
}

abbrev hide_secret : Statement
hide_secret = record {
  sid = codes "hide";
  effect = deny;
  actions = get_object ∷ put_object ∷ [];
  resources = codes "b/secret/*" ∷ [];
}

read_allowed : check_access (read_all ∷ hide_secret ∷ []) get_object (codes "b/a") ≡ allowed
unfolding check_access check_loop applies has_action has_resource_match resource_match match_loop
    only_stars action_id
read_allowed = refl

secret_denied : check_access (read_all ∷ hide_secret ∷ []) get_object (codes "b/secret/a") ≡ denied
unfolding check_access check_loop applies has_action has_resource_match resource_match match_loop
    only_stars action_id
secret_denied = refl

resource_match_sound_example : Glob (codes "b/*.t?t") (codes "b/x/notes.txt")
resource_match_sound_example =
    resource_match_sound (codes "b/*.t?t") (codes "b/x/notes.txt") bucket_matches

resource_match_iff_example :
    (resource_match (codes "b/*") (codes "b/x") ≡ true) ↔ Glob (codes "b/*") (codes "b/x")
resource_match_iff_example = resource_match_iff (codes "b/*") (codes "b/x") (omega arith)

resource_match-star_example :
    Glob (codes "b/" ++ star ∷ []) (codes "b/" ++ star ∷ b'x' ∷ [])
    × (resource_match (codes "b/" ++ star ∷ []) (codes "b/" ++ star ∷ b'x' ∷ []) ≡ false)
resource_match-star_example = resource_match-star (codes "b/") b'x' [] (omega arith)

check_access_lem_example :
    check_access (read_all ∷ hide_secret ∷ []) get_object (codes "b/secret/a")
    ≡ decision
        (any_applies is_deny get_object (codes "b/secret/a") (read_all ∷ hide_secret ∷ []))
        (any_applies is_allow get_object (codes "b/secret/a") (read_all ∷ hide_secret ∷ []))
        no_match
check_access_lem_example =
    check_access_lem (read_all ∷ hide_secret ∷ []) get_object (codes "b/secret/a")

abbrev all_gets : List ℕ
all_gets = codes "s3:Get*"

all_gets_star : has_star all_gets ≡ true
unfolding has_star
all_gets_star = refl

expand_action_star_example :
    (l : List Action) × (expand_action all_gets ≡ some l)
    × ((a : Action)
        → (has_action a l ≡ true)
          ↔ ((is_proper a && resource_match all_gets (action_to_str a)) ≡ true))
expand_action_star_example = expand_action_star all_gets all_gets_star refl

abbrev get_name : List ℕ
get_name = codes "s3:GetObject"

get_name_plain : has_star get_name ≡ false
unfolding has_star
get_name_plain = refl

-- With a star that stands for two bytes, and rounds to spare
resource_match-ends_example :
    loop_or true 100 (codes "a*c") (codes "abbc") none ≡ resource_match (codes "a*c") (codes "abbc")
resource_match-ends_example =
    resource_match-ends true 100 (codes "a*c") (codes "abbc") (omega arith)
