-- ===== src/Controller/Intake.antt =====
-- The three handlers that `New` of pkg/controller/controller.go gives to the informer. The state is
-- the set of digests and the calls of `AddWithOpts` that the handlers make, the newest first.
pub mod Laws
use unstructured_runtime.Prelude.{
  ℕ, Option, none, some, Bool, true, false, not, ◌&&◌, ◌||◌, List, [], ◌∷◌, String, ◌==◌, string_eq,
  if◌then◌else◌, update,
}
use unstructured_runtime.Prelude.Int.{ℤ, pos}
use unstructured_runtime.PriorityQueue.Add.{AddOpts}
use unstructured_runtime.Event.{EventType, ObjectRef, Event}
use unstructured_runtime.Event.Actions.{
  ActionsEvent, get_event_type, created, updated, deleted, observed,
}
use unstructured_runtime.Event.Annotations.{
  AnnotationEvent, on_any, on_change, on_create, on_delete,
}
use unstructured_runtime.Meta.{
  Object, was_deleted, key_external_create_failed, key_external_create_pending,
  key_external_create_succeeded,
}
use unstructured_runtime.Controller.{
  Resource, Spec, missing, fields, malformed, low_priority, normal_priority, high_priority,
  digest_for_event,
}

-- The values that a handler is given.
pub data Received : Type 0 where
  resource : Resource → Received
  tombstone : Received → Received
  unknown : Received

-- The options that the handlers read.
pub record Handling : Type 0 where
  pub actions : ActionsEvent
  pub watch_annotations : List AnnotationEvent
  pub hash : EventType → ObjectRef → String

pub record Intake : Type 0 where
  pub items : String → Bool
  pub added : List (AddOpts × Event)

-- `m[k]` of the annotations, and whether the key is there.
abbrev pub annotation : String → Object → Option String
annotation k o = elim o.annotations [ none ↦ none | some m ↦ m k ]

abbrev pub has_key : String → Object → Bool
has_key k o = elim (annotation k o) [ none ↦ false | some v ↦ true ]

abbrev pub at_once : ℤ → AddOpts
at_once p = record { after = pos 0; rate_limited = false; priority = p }

abbrev pub event_of : EventType → Resource → ℕ → Event
event_of t r now = record { event_type = t; object_ref = r.ref; queued_at = now }

unfoldable pub add_with_opts : ℤ → Event → Intake → Intake
add_with_opts p ev s = record s { added = (at_once p, ev) ∷ s.added }

-- `AddWithOpts` behind `LoadOrStore` of the digest.
unfoldable pub add_if_absent : (EventType → ObjectRef → String) → ℤ → Event → Intake → Intake
unfolding add_with_opts digest_for_event
add_if_absent hash p ev s =
    let dig = digest_for_event hash ev in
    if s.items dig then s else add_with_opts p ev (record s { items = update s.items dig true })

-- The priority that `AddFunc` chooses.
unfoldable pub first_priority : Object → ℤ
first_priority o =
    if has_key key_external_create_failed o
      || (has_key key_external_create_pending o || has_key key_external_create_succeeded o)
    then low_priority
    else normal_priority

-- `cmp.Equal` of two values that are both there.
unfoldable pub same_value : Option String → Option String → Bool
same_value (some v) (some w) = v == w
same_value _ _ = true

-- The test that one watched annotation makes of the two versions.
unfoldable pub triggers : AnnotationEvent → Object → Object → Bool
unfolding same_value
triggers e old new =
    let old_exists = has_key e.annotation old in
    let new_exists = has_key e.annotation new in
    let is_same = same_value (annotation e.annotation old) (annotation e.annotation new) in
    let deleted_condition = not new_exists && old_exists in
    let created_condition = new_exists && not old_exists in
    let changed_condition = old_exists && (new_exists && not is_same) in
    let any_conditions = deleted_condition || (created_condition || changed_condition) in
    (e.on_action == on_delete && deleted_condition)
    || ((e.on_action == on_create && created_condition)
        || ((e.on_action == on_change && changed_condition)
            || (e.on_action == on_any && any_conditions)))

-- The loop over the watched annotations: the first that triggers.
unfoldable pub first_trigger : List AnnotationEvent → Object → Object → Option AnnotationEvent
unfolding triggers
first_trigger [] old new = none
first_trigger (e ∷ es) old new = if triggers e old new then some e else first_trigger es old new

abbrev is_malformed : Spec → Bool
is_malformed malformed = true
is_malformed _ = false

-- `len(cmp.Diff(new, old)) > 0`: a nil map and an empty one differ.
unfoldable pub differ : Spec → Spec → Bool
differ (fields s) (fields t) = not (s == t)
differ (fields s) _ = true
differ _ (fields t) = true
differ _ _ = false

module _ (H : Handling) (now : ℕ) where
  unfoldable pub add_func : Received → Intake → Intake
  unfolding add_if_absent first_priority get_event_type
  add_func (resource el) s =
      add_if_absent H.hash (first_priority el.object)
        (event_of (get_event_type H.actions created) el now) s
  add_func _ s = s

  -- What `UpdateFunc` does of an object that is not deleted when no watched annotation triggers.
  unfoldable pub compare_versions : Resource → Resource → Intake → Intake
  unfolding add_if_absent differ get_event_type
  compare_versions old new s =
      if is_malformed new.spec || is_malformed old.spec
      then s
      else if differ new.spec old.spec
      then add_if_absent H.hash high_priority (event_of (get_event_type H.actions updated) new now)
          s
      else if old.resource_version == new.resource_version
      then add_if_absent H.hash low_priority (event_of (get_event_type H.actions observed) new now)
          s
      else s

  unfoldable pub update_versions : Resource → Resource → Intake → Intake
  unfolding add_if_absent add_with_opts first_trigger compare_versions get_event_type was_deleted
  update_versions old new s =
      if was_deleted new.object
      then add_if_absent H.hash high_priority (event_of (get_event_type H.actions deleted) new now)
          s
      else elim (first_trigger H.watch_annotations old.object new.object) [
        | some e ↦ add_with_opts normal_priority (event_of e.event_type new now) s
        | none ↦ compare_versions old new s
      ]

  unfoldable pub update_func : Received → Received → Intake → Intake
  unfolding update_versions
  update_func (resource old) (resource new) s = update_versions old new s
  update_func _ _ s = s

  -- `DeleteFunc` of the object that was found; the timestamp is only tested for nil.
  unfoldable pub delete_found : Resource → Intake → Intake
  unfolding add_with_opts get_event_type
  delete_found el s = elim el.object.deletion_timestamp [
    | none ↦ s
    | some t ↦ add_with_opts high_priority (event_of (get_event_type H.actions deleted) el now) s
  ]

  unfoldable pub delete_func : Received → Intake → Intake
  unfolding delete_found
  delete_func (resource el) s = delete_found el s
  delete_func (tombstone (resource el)) s = delete_found el s
  delete_func _ s = s
