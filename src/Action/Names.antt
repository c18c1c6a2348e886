-- ===== src/Action/Names.antt =====
-- The names of the actions, read back.
use hs.Prelude.{◌≤◌, ◌≡◌, ◌≢◌, refl, sym, ap, ◌∙◌, true, ==_iff, arith}
use hs.Action.{
  Action, action_id, action_of, same_action, action_from_str, action_to_str, last_dummy_action,
}

-- `static_cast` to a number and back.
pub action_of-action_id : (a : Action) → action_of (action_id a) ≡ a
unfolding action_of action_id
action_of-action_id Action.unknown = refl
action_of-action_id Action.get_object = refl
action_of-action_id Action.head_object = refl
action_of-action_id Action.put_object = refl
action_of-action_id Action.put_object_part = refl
action_of-action_id Action.delete_object = refl
action_of-action_id Action.list_objects = refl
action_of-action_id Action.complete_multipart_upload = refl
action_of-action_id Action.create_bucket = refl
action_of-action_id Action.delete_objects = refl
action_of-action_id Action.delete_bucket = refl
action_of-action_id Action.add_user = refl
action_of-action_id Action.remove_user = refl
action_of-action_id Action.list_users = refl
action_of-action_id Action.add_access_key = refl
action_of-action_id Action.list_access_keys = refl
action_of-action_id Action.remove_access_key = refl
action_of-action_id Action.add_policy = refl
action_of-action_id Action.remove_policy = refl
action_of-action_id Action.list_policies = refl
action_of-action_id Action.add_role = refl
action_of-action_id Action.remove_role = refl
action_of-action_id Action.list_roles = refl
action_of-action_id Action.add_user_role = refl
action_of-action_id Action.remove_user_role = refl
action_of-action_id Action.list_user_roles = refl
action_of-action_id Action.add_role_policy = refl
action_of-action_id Action.remove_role_policy = refl
action_of-action_id Action.list_role_policies = refl
action_of-action_id Action.all_actions = refl
action_of-action_id Action.list_buckets = refl
action_of-action_id Action.list_multipart_uploads = refl
action_of-action_id Action.abort_multipart_upload = refl
action_of-action_id Action.create_multipart_upload = refl
action_of-action_id Action.change_policy = refl
action_of-action_id Action.create_user = refl
action_of-action_id Action.change_password = refl
action_of-action_id Action.change_own_password = refl
action_of-action_id Action.get_bucket_location = refl
action_of-action_id Action.copy_object = refl
action_of-action_id Action.upload_part_copy = refl
action_of-action_id Action.list_bucket_permissions = refl
action_of-action_id Action.add_bucket_permission = refl
action_of-action_id Action.remove_bucket_permission = refl
action_of-action_id Action.set_bucket_public = refl
action_of-action_id Action.put_bucket_versioning = refl
action_of-action_id Action.get_bucket_versioning = refl
action_of-action_id Action.list_object_versions = refl
action_of-action_id Action.get_object_attributes = refl
action_of-action_id Action.post_object = refl
action_of-action_id Action.put_bucket_cors = refl
action_of-action_id Action.get_bucket_cors = refl
action_of-action_id Action.put_object_legal_hold = refl
action_of-action_id Action.put_bucket_object_lock_configuration = refl
action_of-action_id Action.put_object_retention = refl
action_of-action_id Action.bypass_governance_retention = refl
action_of-action_id Action.get_bucket_object_lock_configuration = refl
action_of-action_id Action.last_dummy_action = refl

-- `actionFromStr` reads back the name that `actionToStr` gives to every action but the end marker
-- `LastDummyAction`.
pub action_from_str-action_to_str :
    (a : Action) → a ≢ last_dummy_action → action_from_str (action_to_str a) ≡ a
unfolding action_from_str action_to_str
action_from_str-action_to_str Action.unknown k = refl
action_from_str-action_to_str Action.get_object k = refl
action_from_str-action_to_str Action.head_object k = refl
action_from_str-action_to_str Action.put_object k = refl
action_from_str-action_to_str Action.put_object_part k = refl
action_from_str-action_to_str Action.delete_object k = refl
action_from_str-action_to_str Action.list_objects k = refl
action_from_str-action_to_str Action.complete_multipart_upload k = refl
action_from_str-action_to_str Action.create_bucket k = refl
action_from_str-action_to_str Action.delete_objects k = refl
action_from_str-action_to_str Action.delete_bucket k = refl
action_from_str-action_to_str Action.add_user k = refl
action_from_str-action_to_str Action.remove_user k = refl
action_from_str-action_to_str Action.list_users k = refl
action_from_str-action_to_str Action.add_access_key k = refl
action_from_str-action_to_str Action.list_access_keys k = refl
action_from_str-action_to_str Action.remove_access_key k = refl
action_from_str-action_to_str Action.add_policy k = refl
action_from_str-action_to_str Action.remove_policy k = refl
action_from_str-action_to_str Action.list_policies k = refl
action_from_str-action_to_str Action.add_role k = refl
action_from_str-action_to_str Action.remove_role k = refl
action_from_str-action_to_str Action.list_roles k = refl
action_from_str-action_to_str Action.add_user_role k = refl
action_from_str-action_to_str Action.remove_user_role k = refl
action_from_str-action_to_str Action.list_user_roles k = refl
action_from_str-action_to_str Action.add_role_policy k = refl
action_from_str-action_to_str Action.remove_role_policy k = refl
action_from_str-action_to_str Action.list_role_policies k = refl
action_from_str-action_to_str Action.all_actions k = refl
action_from_str-action_to_str Action.list_buckets k = refl
action_from_str-action_to_str Action.list_multipart_uploads k = refl
action_from_str-action_to_str Action.abort_multipart_upload k = refl
action_from_str-action_to_str Action.create_multipart_upload k = refl
action_from_str-action_to_str Action.change_policy k = refl
action_from_str-action_to_str Action.create_user k = refl
action_from_str-action_to_str Action.change_password k = refl
action_from_str-action_to_str Action.change_own_password k = refl
action_from_str-action_to_str Action.get_bucket_location k = refl
action_from_str-action_to_str Action.copy_object k = refl
action_from_str-action_to_str Action.upload_part_copy k = refl
action_from_str-action_to_str Action.list_bucket_permissions k = refl
action_from_str-action_to_str Action.add_bucket_permission k = refl
action_from_str-action_to_str Action.remove_bucket_permission k = refl
action_from_str-action_to_str Action.set_bucket_public k = refl
action_from_str-action_to_str Action.put_bucket_versioning k = refl
action_from_str-action_to_str Action.get_bucket_versioning k = refl
action_from_str-action_to_str Action.list_object_versions k = refl
action_from_str-action_to_str Action.get_object_attributes k = refl
action_from_str-action_to_str Action.post_object k = refl
action_from_str-action_to_str Action.put_bucket_cors k = refl
action_from_str-action_to_str Action.get_bucket_cors k = refl
action_from_str-action_to_str Action.put_object_legal_hold k = refl
action_from_str-action_to_str Action.put_bucket_object_lock_configuration k = refl
action_from_str-action_to_str Action.put_object_retention k = refl
action_from_str-action_to_str Action.bypass_governance_retention k = refl
action_from_str-action_to_str Action.get_bucket_object_lock_configuration k = refl
action_from_str-action_to_str Action.last_dummy_action k = absurd (k refl)

pub same_action→eq : (a b : Action) → same_action a b ≡ true → a ≡ b
same_action→eq a b h =
    sym (action_of-action_id a)
    ∙ ap action_of ((==_iff (action_id a) (action_id b)).0 h)
    ∙ action_of-action_id b

pub same_action_refl : (a : Action) → same_action a a ≡ true
same_action_refl a = (==_iff (action_id a) (action_id a)).1 refl

pub action_id_bounds : (a : Action) → action_id a ≤ 57
unfolding action_id
action_id_bounds Action.unknown = omega arith
action_id_bounds _ = omega arith
