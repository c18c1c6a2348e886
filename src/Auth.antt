-- ===== src/Auth.antt =====
-- src/Auth.cpp: access keys, users with their roles, and the decision on a request. `const Policy*` and
-- `const Role*` are what they point to. The rows of the database, with the statements that the
-- constructor of a policy makes of its text, and what the sessions answer are arguments.
pub mod Decision
pub mod Keys
pub mod Locks
mod Runs
use hs.Prelude.{
  ℕ, ◌-◌, ◌^◌, Bool, true, false, not, ◌&&◌, ◌||◌, Option, none, some, List, [], ◌∷◌, length, drop,
  leb, ◌==◌, bytes_eq, codes, bit_and, bit_or, if◌then◌else◌,
}
use hs.Action.{
  Action, get_object, list_objects, list_buckets, list_multipart_uploads, get_bucket_location,
  put_object, put_object_part, complete_multipart_upload, create_multipart_upload, copy_object,
  upload_part_copy, post_object, delete_object, delete_bucket, abort_multipart_upload,
  delete_objects,
}
use hs.Policy.{Statement, AccessCheckResult, denied, allowed, no_match, has_action, check_access}
use hs.Buckets.{BucketInfo, State}
use hs.Buckets.Affixes.{starts_with}

-- `DbDao::AccessKey` with its identifier, user and secret; -1 is `session_id`.
pub record AccessKey : Type 0 where
  pub id : ℕ
  pub user_id : ℕ
  pub secret_key : List ℕ

abbrev pub session_id : ℕ
session_id = 2 ^ 64 - 1

-- `Role` and `User`
pub record Role : Type 0 where
  pub policies : List (List Statement)

pub record User : Type 0 where
  pub roles : List Role
  pub bucket_permissions : ℕ → Option ℕ

-- `accessKeys` and `users`
pub record Cache : Type 0 where
  pub access_keys : List ℕ → Option AccessKey
  pub users : ℕ → Option User

abbrev pub is_negative_id : ℕ → Bool
is_negative_id id = leb (2 ^ 63) id

-- `addAccessKey` and `removeAccessKey`; `insert` keeps what is there.
abbrev pub insert_key : List ℕ → AccessKey → (List ℕ → Option AccessKey) → List ℕ → Option AccessKey
insert_key key k m n = elim (m n) [
  | some old ↦ some old
  | none ↦ if bytes_eq n key then some k else none
]

unfoldable pub add_access_key : Cache → List ℕ → List ℕ → Cache
add_access_key s key secret_key = record s {
  access_keys =
      insert_key key (record { id = session_id; user_id = 0; secret_key = secret_key })
        s.access_keys;
}

unfoldable pub remove_access_key : Cache → List ℕ → Cache
remove_access_key s key = record s {
  access_keys = λ n. if bytes_eq n key then none else s.access_keys n;
}

-- `getSecretKey`, with the answer of `hasSession`; no secret is the empty one.
abbrev pub secret_of : Bool → Option AccessKey → List ℕ
secret_of has_session none = []
secret_of has_session (some k) = if (k.id == 0) && not has_session then [] else k.secret_key

unfoldable pub get_secret_key : Cache → Bool → List ℕ → List ℕ
get_secret_key s has_session key = secret_of has_session (s.access_keys key)

-- `hasSimplePermission`
abbrev pub read_actions : List Action
read_actions =
    get_object ∷ list_objects ∷ list_buckets ∷ list_multipart_uploads ∷ get_bucket_location ∷ []

abbrev pub write_actions : List Action
write_actions =
    put_object ∷ put_object_part ∷ complete_multipart_upload ∷ create_multipart_upload ∷ copy_object
    ∷ upload_part_copy ∷ post_object ∷ []

abbrev pub delete_actions : List Action
delete_actions = delete_object ∷ delete_bucket ∷ abort_multipart_upload ∷ delete_objects ∷ []

abbrev pub permits : ℕ → ℕ → Bool
permits perm flag = not (bit_and perm flag == 0)

unfoldable pub has_simple_permission : ℕ → Action → Bool
has_simple_permission perm action =
    if permits perm 1 && has_action action read_actions
    then true
    else if permits perm 2 && has_action action write_actions
    then true
    else if permits perm 4 && has_action action delete_actions
    then true
    else false

-- The name of the bucket in a resource
unfoldable pub until_slash : List ℕ → List ℕ
until_slash [] = []
until_slash (c ∷ s) = let rest = until_slash s in if c == b'/' then [] else c ∷ rest

unfoldable pub bucket_name : List ℕ → List ℕ
bucket_name resource =
    if starts_with resource (codes "arn:aws:s3:::") then until_slash (drop 13 resource) else []

unfoldable pub bucket_info : State → List ℕ → Option BucketInfo
bucket_info buckets resource =
    let name = bucket_name resource in if length name == 0 then none else buckets.buckets name

abbrev pub is_public : Option BucketInfo → Action → Bool
is_public none action = false
is_public (some info) action = has_simple_permission info.public_perms action

-- The loops over the roles and their policies; `none` is the early `return false`.
unfoldable pub check_policies :
    List (List Statement) → Action → List ℕ → AccessCheckResult → Option AccessCheckResult
check_policies [] action resource res = some res
check_policies (p ∷ ps) action resource res = elim (check_access p action resource) [
  | denied ↦ none
  | allowed ↦ check_policies ps action resource allowed
  | no_match ↦ check_policies ps action resource res
]

unfoldable pub check_roles :
    List Role → Action → List ℕ → AccessCheckResult → Option AccessCheckResult
check_roles [] action resource res = some res
check_roles (role ∷ roles) action resource res =
    elim (check_policies role.policies action resource res) [
      | none ↦ none
      | some res' ↦ check_roles roles action resource res'
    ]

-- The permission of the user for the bucket
abbrev pub has_permission : User → Option BucketInfo → Action → Bool
has_permission user none action = false
has_permission user (some info) action = elim (user.bucket_permissions info.id) [
  | none ↦ false
  | some perm ↦ has_simple_permission perm action
]

abbrev pub after_roles : Option AccessCheckResult → User → Option BucketInfo → Action → Bool
after_roles none user info action = false
after_roles (some denied) user info action = has_permission user info action
after_roles (some allowed) user info action = true
after_roles (some no_match) user info action = has_permission user info action

-- `isAuthorizedNoLock`
abbrev pub by_user : Option User → Option BucketInfo → Action → List ℕ → Bool
by_user none info action resource = false
by_user (some user) info action resource =
    after_roles (check_roles user.roles action resource no_match) user info action

unfoldable pub is_authorized_no_lock : Cache → State → List ℕ → Action → ℕ → Bool
is_authorized_no_lock s buckets resource action user_id =
    let info = bucket_info buckets resource in
    if is_public info action
    then true
    else if is_negative_id user_id
    then false
    else by_user (s.users user_id) info action resource

-- `isAuthorized` of an access key, with the answer of `getSessionUserId`
abbrev pub by_key : Cache → State → Option ℕ → List ℕ → Action → Option AccessKey → Bool
by_key s buckets session_user resource action none = false
by_key s buckets session_user resource action (some k) =
    if k.user_id == 0
    then elim session_user [
      | none ↦ false
      | some user_id ↦ is_authorized_no_lock s buckets resource action user_id
    ]
    else is_authorized_no_lock s buckets resource action k.user_id

unfoldable pub is_authorized : Cache → State → Option ℕ → List ℕ → Action → List ℕ → Bool
is_authorized s buckets session_user resource action key =
    if length key == 0
    then is_authorized_no_lock s buckets resource action (2 ^ 64 - 1)
    else by_key s buckets session_user resource action (s.access_keys key)

-- The rows that `refreshAuthCache` reads: keys, policies, roles with the identifiers of their policies,
-- users with those of their roles and with their permissions for buckets
pub record UserRow : Type 0 where
  pub id : ℕ
  pub role_ids : List ℕ
  pub permissions : List (ℕ × ℕ)

pub record Rows : Type 0 where
  pub keys : List (List ℕ × AccessKey)
  pub policies : List (ℕ × List Statement)
  pub roles : List (ℕ × List ℕ)
  pub users : List UserRow

-- `find` in a map that the pairs were inserted into, the first of a key staying, and those found of
-- several
unfoldable pub find_id {ℓ} : {A : Type ℓ} → List (ℕ × A) → ℕ → Option A
find_id [] id = none
find_id ((i, a) ∷ rest) id = if i == id then some a else find_id rest id

unfoldable pub find_ids {ℓ} : {A : Type ℓ} → List (ℕ × A) → List ℕ → List A
find_ids m [] = []
find_ids m (id ∷ ids) = elim (find_id m id) [ none ↦ find_ids m ids | some a ↦ a ∷ find_ids m ids ]

unfoldable pub make_roles : List (ℕ × List Statement) → List (ℕ × List ℕ) → List (ℕ × Role)
make_roles policies [] = []
make_roles policies ((id, policy_ids) ∷ rest) =
    (id, record { policies = find_ids policies policy_ids }) ∷ make_roles policies rest

-- `bucketPermissions[perm.bucket_id] |= perm.permissions`, for all rows
abbrev pub or_zero : Option ℕ → ℕ
or_zero none = 0
or_zero (some n) = n

unfoldable pub grant : (ℕ → Option ℕ) → List (ℕ × ℕ) → ℕ → Option ℕ
grant m [] = m
grant m ((bucket, perm) ∷ rest) =
    grant (λ b. if b == bucket then some (bit_or (or_zero (m b)) perm) else m b) rest

unfoldable pub make_user : List (ℕ × Role) → UserRow → User
make_user roles row = record {
  roles = find_ids roles row.role_ids;
  bucket_permissions = grant (λ b. none) row.permissions;
}

unfoldable pub make_users : List (ℕ × Role) → List UserRow → List (ℕ × User)
make_users roles [] = []
make_users roles (row ∷ rows) = (row.id, make_user roles row) ∷ make_users roles rows

-- The keys of sessions stay, and those of the rows are inserted.
unfoldable pub insert_keys :
    List (List ℕ × AccessKey) → (List ℕ → Option AccessKey) → List ℕ → Option AccessKey
insert_keys [] m = m
insert_keys ((key, k) ∷ rest) m = insert_keys rest (insert_key key k m)

abbrev pub keep_session : Option AccessKey → Option AccessKey
keep_session none = none
keep_session (some k) = if is_negative_id k.id then some k else none

unfoldable pub refresh : Cache → Rows → Cache
refresh s rows = record {
  access_keys = insert_keys rows.keys (λ n. keep_session (s.access_keys n));
  users = find_id (make_users (make_roles rows.policies rows.roles) rows.users);
}
