-- ===== src/Meta/Policy.antt =====
-- The management and deletion policies of pkg/meta/meta.go.
use unstructured_runtime.Prelude.{
  ◌≡◌, Bool, true, false, ◌&&◌, ◌||◌, String, ◌==◌, if◌then◌else◌, string_eq, arith,
}
use unstructured_runtime.Meta.{Object, read, key_management_policy, key_deletion_policy}

abbrev pub policy_default : String
policy_default = "default"

abbrev pub policy_observe_create_update : String
policy_observe_create_update = "observe-create-update"

abbrev pub policy_observe_delete : String
policy_observe_delete = "observe-delete"

abbrev pub policy_observe : String
policy_observe = "observe"

abbrev pub deletion_orphan : String
deletion_orphan = "orphan"

abbrev pub deletion_delete : String
deletion_delete = "delete"

abbrev pub action_create : String
action_create = "create"

abbrev pub action_update : String
action_update = "update"

abbrev pub action_delete : String
action_delete = "delete"

-- `if len(p) == 0 { p = default }`
abbrev or_default : String → String → String
or_default p d = if p == "" then d else p

abbrev pub management_policy : Object → String
management_policy o = or_default (read o.annotations key_management_policy) policy_default

abbrev pub deletion_policy : Object → String
deletion_policy o = or_default (read o.annotations key_deletion_policy) deletion_delete

unfoldable pub is_action_allowed : Object → String → Bool
is_action_allowed o action =
    let p = management_policy o in
    if action == action_create || action == action_update
    then p == policy_default || p == policy_observe_create_update
    else p == policy_default || p == policy_observe_delete

unfoldable pub should_delete : Object → Bool
should_delete o =
    let mp = management_policy o in
    let dp = deletion_policy o in
    if dp == deletion_delete && mp == policy_default
    then true
    else if mp == policy_observe_delete
    then true
    else false

unfoldable pub should_only_observe : Object → Bool
should_only_observe o = management_policy o == policy_observe

unfoldable pub should_create : Object → Bool
should_create o =
    let mp = management_policy o in mp == policy_default || mp == policy_observe_create_update

unfoldable pub should_update : Object → Bool
should_update o =
    let mp = management_policy o in mp == policy_default || mp == policy_observe_create_update

-- The functions agree: an action other than creation, update or deletion counts as deletion, and
-- what is deleted is what may be deleted and is not left an orphan under the default policy.
should-is_action_allowed :
    (o : Object)
    → (should_create o ≡ is_action_allowed o action_create)
      × (should_update o ≡ is_action_allowed o action_update)
      × (should_delete o ≡ (
          is_action_allowed o action_delete
          && (management_policy o == policy_observe_delete
              || deletion_policy o == deletion_delete)))
unfolding should_create should_update should_delete is_action_allowed
should-is_action_allowed o = ground arith

-- Under the policy to observe and delete, the external resource is deleted whatever the deletion
-- policy says, also where that asks for an orphan.
pub should_delete-orphan :
    (o : Object) → management_policy o ≡ policy_observe_delete → should_delete o ≡ true
unfolding should_delete
should_delete-orphan o h =
    ground (arith, string_eq.equals_iff (management_policy o) policy_observe_delete)
