-- ===== src/Action.antt =====
-- src/Action.h and src/Action.cpp: the actions of the access policies and their names. Names are
-- lists of bytes.
pub mod Names
use hs.Prelude.{
  ℕ, zero, suc, List, [], ◌∷◌, Bool, ◌||◌, ◌==◌, codes, bytes_eq, get_or, if◌then◌else◌,
}
use Prim.Native.String.{String}

-- The enumerators, in the order of their values.
pub data Action : Type 0 where
  unknown get_object head_object put_object put_object_part delete_object : Action
  list_objects complete_multipart_upload create_bucket delete_objects : Action
  delete_bucket add_user remove_user list_users add_access_key list_access_keys : Action
  remove_access_key add_policy remove_policy list_policies add_role remove_role : Action
  list_roles add_user_role remove_user_role list_user_roles add_role_policy : Action
  remove_role_policy list_role_policies all_actions list_buckets : Action
  list_multipart_uploads abort_multipart_upload create_multipart_upload : Action
  change_policy create_user change_password change_own_password : Action
  get_bucket_location copy_object upload_part_copy list_bucket_permissions : Action
  add_bucket_permission remove_bucket_permission set_bucket_public : Action
  put_bucket_versioning get_bucket_versioning list_object_versions : Action
  get_object_attributes post_object put_bucket_cors get_bucket_cors : Action
  put_object_legal_hold put_bucket_object_lock_configuration put_object_retention : Action
  bypass_governance_retention get_bucket_object_lock_configuration : Action
  last_dummy_action : Action

-- `static_cast<int>(action)`
unfoldable pub action_id : Action → ℕ
action_id unknown = 0
action_id get_object = 1
action_id head_object = 2
action_id put_object = 3
action_id put_object_part = 4
action_id delete_object = 5
action_id list_objects = 6
action_id complete_multipart_upload = 7
action_id create_bucket = 8
action_id delete_objects = 9
action_id delete_bucket = 10
action_id add_user = 11
action_id remove_user = 12
action_id list_users = 13
action_id add_access_key = 14
action_id list_access_keys = 15
action_id remove_access_key = 16
action_id add_policy = 17
action_id remove_policy = 18
action_id list_policies = 19
action_id add_role = 20
action_id remove_role = 21
action_id list_roles = 22
action_id add_user_role = 23
action_id remove_user_role = 24
action_id list_user_roles = 25
action_id add_role_policy = 26
action_id remove_role_policy = 27
action_id list_role_policies = 28
action_id all_actions = 29
action_id list_buckets = 30
action_id list_multipart_uploads = 31
action_id abort_multipart_upload = 32
action_id create_multipart_upload = 33
action_id change_policy = 34
action_id create_user = 35
action_id change_password = 36
action_id change_own_password = 37
action_id get_bucket_location = 38
action_id copy_object = 39
action_id upload_part_copy = 40
action_id list_bucket_permissions = 41
action_id add_bucket_permission = 42
action_id remove_bucket_permission = 43
action_id set_bucket_public = 44
action_id put_bucket_versioning = 45
action_id get_bucket_versioning = 46
action_id list_object_versions = 47
action_id get_object_attributes = 48
action_id post_object = 49
action_id put_bucket_cors = 50
action_id get_bucket_cors = 51
action_id put_object_legal_hold = 52
action_id put_bucket_object_lock_configuration = 53
action_id put_object_retention = 54
action_id bypass_governance_retention = 55
action_id get_bucket_object_lock_configuration = 56
action_id last_dummy_action = 57

abbrev pub actions_in_order : List Action
actions_in_order =
    unknown ∷ get_object ∷ head_object ∷ put_object ∷ put_object_part ∷ delete_object ∷ list_objects
    ∷ complete_multipart_upload ∷ create_bucket ∷ delete_objects ∷ delete_bucket ∷ add_user
    ∷ remove_user ∷ list_users ∷ add_access_key ∷ list_access_keys ∷ remove_access_key ∷ add_policy
    ∷ remove_policy ∷ list_policies ∷ add_role ∷ remove_role ∷ list_roles ∷ add_user_role
    ∷ remove_user_role ∷ list_user_roles ∷ add_role_policy ∷ remove_role_policy ∷ list_role_policies
    ∷ all_actions ∷ list_buckets ∷ list_multipart_uploads ∷ abort_multipart_upload
    ∷ create_multipart_upload ∷ change_policy ∷ create_user ∷ change_password ∷ change_own_password
    ∷ get_bucket_location ∷ copy_object ∷ upload_part_copy ∷ list_bucket_permissions
    ∷ add_bucket_permission ∷ remove_bucket_permission ∷ set_bucket_public ∷ put_bucket_versioning
    ∷ get_bucket_versioning ∷ list_object_versions ∷ get_object_attributes ∷ post_object
    ∷ put_bucket_cors ∷ get_bucket_cors ∷ put_object_legal_hold
    ∷ put_bucket_object_lock_configuration ∷ put_object_retention ∷ bypass_governance_retention
    ∷ get_bucket_object_lock_configuration ∷ last_dummy_action ∷ []

-- `static_cast<Action>(i)`, for the values that have an enumerator.
unfoldable pub action_of : ℕ → Action
action_of i = get_or actions_in_order i unknown

-- `==` of the enumeration compares the values.
abbrev pub same_action : Action → Action → Bool
same_action a b = action_id a == action_id b

abbrev is : List ℕ → String → Bool
is action name = bytes_eq action (codes name)

-- `actionFromStr`
unfoldable pub action_from_str : List ℕ → Action
action_from_str action =
    if is action "s3:GetObject"
    then get_object
    else if is action "s3:HeadObject"
    then head_object
    else if is action "s3:PutObject"
    then put_object
    else if is action "s3:PutObjectPart"
    then put_object_part
    else if is action "s3:DeleteObject"
    then delete_object
    else if is action "s3:ListObjects"
    then list_objects
    else if is action "s3:CompleteMultipartUpload"
    then complete_multipart_upload
    else if is action "s3:CreateBucket"
    then create_bucket
    else if is action "s3:DeleteObjects"
    then delete_objects
    else if is action "s3:DeleteBucket"
    then delete_bucket
    else if is action "hs5:AddUser"
    then add_user
    else if is action "hs5:RemoveUser"
    then remove_user
    else if is action "hs5:ListUsers"
    then list_users
    else if is action "hs5:AddAccessKey"
    then add_access_key
    else if is action "hs5:ListAccessKeys"
    then list_access_keys
    else if is action "hs5:RemoveAccessKey"
    then remove_access_key
    else if is action "hs5:AddPolicy"
    then add_policy
    else if is action "hs5:RemovePolicy"
    then remove_policy
    else if is action "hs5:ListPolicies"
    then list_policies
    else if is action "hs5:AddRole"
    then add_role
    else if is action "hs5:RemoveRole"
    then remove_role
    else if is action "hs5:ListRoles"
    then list_roles
    else if is action "hs5:AddUserRole"
    then add_user_role
    else if is action "hs5:RemoveUserRole"
    then remove_user_role
    else if is action "hs5:ListUserRoles"
    then list_user_roles
    else if is action "hs5:AddRolePolicy"
    then add_role_policy
    else if is action "hs5:RemoveRolePolicy"
    then remove_role_policy
    else if is action "hs5:ListRolePolicies"
    then list_role_policies
    else if is action "hs5:AllActions" || is action "*"
    then all_actions
    else if is action "s3:ListBuckets"
    then list_buckets
    else if is action "s3:ListMultipartUploads"
    then list_multipart_uploads
    else if is action "s3:AbortMultipartUpload"
    then abort_multipart_upload
    else if is action "s3:CreateMultipartUpload"
    then create_multipart_upload
    else if is action "hs5:ChangePolicy"
    then change_policy
    else if is action "hs5:CreateUser"
    then create_user
    else if is action "hs5:ChangePassword"
    then change_password
    else if is action "hs5:ChangeOwnPassword"
    then change_own_password
    else if is action "s3:GetBucketLocation"
    then get_bucket_location
    else if is action "s3:CopyObject"
    then copy_object
    else if is action "s3:UploadPartCopy"
    then upload_part_copy
    else if is action "hs5:ListBucketPermissions"
    then list_bucket_permissions
    else if is action "hs5:AddBucketPermission"
    then add_bucket_permission
    else if is action "hs5:RemoveBucketPermission"
    then remove_bucket_permission
    else if is action "s3:PostObject"
    then post_object
    else if is action "hs5:SetBucketPublic"
    then set_bucket_public
    else if is action "s3:PutBucketVersioning"
    then put_bucket_versioning
    else if is action "s3:GetBucketVersioning"
    then get_bucket_versioning
    else if is action "s3:ListObjectVersions"
    then list_object_versions
    else if is action "s3:GetObjectAttributes"
    then get_object_attributes
    else if is action "s3:PutObjectLegalHold"
    then put_object_legal_hold
    else if is action "s3:PutBucketObjectLockConfiguration"
    then put_bucket_object_lock_configuration
    else if is action "s3:PutObjectRetention"
    then put_object_retention
    else if is action "s3:BypassGovernanceRetention"
    then bypass_governance_retention
    else if is action "s3:GetBucketObjectLockConfiguration"
    then get_bucket_object_lock_configuration
    else if is action "s3:PutBucketCORS" || is action "s3:PutBucketCors"
    then put_bucket_cors
    else if is action "s3:GetBucketCORS" || is action "s3:GetBucketCors"
    then get_bucket_cors
    else unknown

-- `actionToStr`
unfoldable pub action_to_str : Action → List ℕ
action_to_str unknown = codes ""
action_to_str get_object = codes "s3:GetObject"
action_to_str head_object = codes "s3:HeadObject"
action_to_str put_object = codes "s3:PutObject"
action_to_str put_object_part = codes "s3:PutObjectPart"
action_to_str delete_object = codes "s3:DeleteObject"
action_to_str list_objects = codes "s3:ListObjects"
action_to_str complete_multipart_upload = codes "s3:CompleteMultipartUpload"
action_to_str create_bucket = codes "s3:CreateBucket"
action_to_str delete_objects = codes "s3:DeleteObjects"
action_to_str delete_bucket = codes "s3:DeleteBucket"
action_to_str add_user = codes "hs5:AddUser"
action_to_str remove_user = codes "hs5:RemoveUser"
action_to_str list_users = codes "hs5:ListUsers"
action_to_str add_access_key = codes "hs5:AddAccessKey"
action_to_str list_access_keys = codes "hs5:ListAccessKeys"
action_to_str remove_access_key = codes "hs5:RemoveAccessKey"
action_to_str add_policy = codes "hs5:AddPolicy"
action_to_str remove_policy = codes "hs5:RemovePolicy"
action_to_str list_policies = codes "hs5:ListPolicies"
action_to_str add_role = codes "hs5:AddRole"
action_to_str remove_role = codes "hs5:RemoveRole"
action_to_str list_roles = codes "hs5:ListRoles"
action_to_str add_user_role = codes "hs5:AddUserRole"
action_to_str remove_user_role = codes "hs5:RemoveUserRole"
action_to_str list_user_roles = codes "hs5:ListUserRoles"
action_to_str add_role_policy = codes "hs5:AddRolePolicy"
action_to_str remove_role_policy = codes "hs5:RemoveRolePolicy"
action_to_str list_role_policies = codes "hs5:ListRolePolicies"
action_to_str all_actions = codes "*"
action_to_str list_buckets = codes "s3:ListBuckets"
action_to_str list_multipart_uploads = codes "s3:ListMultipartUploads"
action_to_str abort_multipart_upload = codes "s3:AbortMultipartUpload"
action_to_str create_multipart_upload = codes "s3:CreateMultipartUpload"
action_to_str change_policy = codes "hs5:ChangePolicy"
action_to_str create_user = codes "hs5:CreateUser"
action_to_str change_password = codes "hs5:ChangePassword"
action_to_str change_own_password = codes "hs5:ChangeOwnPassword"
action_to_str get_bucket_location = codes "s3:GetBucketLocation"
action_to_str copy_object = codes "s3:CopyObject"
action_to_str upload_part_copy = codes "s3:UploadPartCopy"
action_to_str list_bucket_permissions = codes "hs5:ListBucketPermissions"
action_to_str add_bucket_permission = codes "hs5:AddBucketPermission"
action_to_str remove_bucket_permission = codes "hs5:RemoveBucketPermission"
action_to_str set_bucket_public = codes "hs5:SetBucketPublic"
action_to_str put_bucket_versioning = codes "s3:PutBucketVersioning"
action_to_str get_bucket_versioning = codes "s3:GetBucketVersioning"
action_to_str list_object_versions = codes "s3:ListObjectVersions"
action_to_str get_object_attributes = codes "s3:GetObjectAttributes"
action_to_str post_object = codes "s3:PostObject"
action_to_str put_bucket_cors = codes "s3:PutBucketCORS"
action_to_str get_bucket_cors = codes "s3:GetBucketCORS"
action_to_str put_object_legal_hold = codes "s3:PutObjectLegalHold"
action_to_str put_bucket_object_lock_configuration = codes "s3:PutBucketObjectLockConfiguration"
action_to_str put_object_retention = codes "s3:PutObjectRetention"
action_to_str bypass_governance_retention = codes "s3:BypassGovernanceRetention"
action_to_str get_bucket_object_lock_configuration = codes "s3:GetBucketObjectLockConfiguration"
action_to_str last_dummy_action = codes ""
