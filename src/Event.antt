-- ===== src/Event.antt =====
-- pkg/controller/event and pkg/controller/objectref: the events of the work queue.
pub mod Actions
pub mod Annotations
use unstructured_runtime.Prelude.{ℕ, Bool, true, false, String, ltb, if◌then◌else◌}
use unstructured_runtime.Prelude.Int.{ℤ, pos, negsuc}

pub record ObjectRef : Type 0 where
  pub api_version : String
  pub kind : String
  pub name : String
  pub namespace : String

-- `EventType` is a type of texts in the source, with four constants.
abbrev pub EventType : Type 0
EventType = String

abbrev pub observe : EventType
observe = "Observe"

abbrev pub create : EventType
create = "Create"

abbrev pub update_type : EventType
update_type = "Update"

abbrev pub delete : EventType
delete = "Delete"

pub record Event : Type 0 where
  pub event_type : EventType
  pub object_ref : ObjectRef
  pub queued_at : ℕ

unfoldable pub compare_to : Event → Event → ℤ
compare_to e f =
    if ltb e.queued_at f.queued_at
    then negsuc 0
    else if ltb f.queued_at e.queued_at
    then pos 1
    else pos 0
