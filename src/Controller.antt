-- ===== src/Controller.antt =====
-- pkg/controller: the resources, the options and the priorities that the informer's handlers and the
-- worker share. A pointer or an interface that must not be nil is a test whether it is set.
pub mod Intake
pub mod Worker
pub mod Loop
pub mod Drain
pub mod System
use unstructured_runtime.Prelude.{
  ◌≡◌, ◌↔◌, Option, none, some, Bool, true, false, List, String, if◌then◌else◌, refl, not, ◌&&◌,
  leb, arith,
}
use unstructured_runtime.Prelude.Int.{ℤ, pos, negsuc, ltb_ℤ}
use unstructured_runtime.Event.{EventType, ObjectRef, Event}
use unstructured_runtime.Meta.{Object}
use unstructured_runtime.Condition.{Condition}

-- What `NestedMap` finds at `spec`: no field (a nil map and no error), a map, or another value,
-- which is an error. A map stands as a text of its own: two maps are equal if their texts are.
pub data Spec : Type 0 where
  missing : Spec
  fields : String → Spec
  malformed : Spec

pub record Resource : Type 0 where
  pub ref : ObjectRef
  pub object : Object
  pub resource_version : String
  pub spec : Spec
  pub conditions : List Condition

abbrev pub low_priority : ℤ
low_priority = negsuc 99

abbrev pub normal_priority : ℤ
normal_priority = pos 0

abbrev pub high_priority : ℤ
high_priority = pos 100

-- `murmur3` of the printed type and reference, in hexadecimal, is the parameter `hash`.
unfoldable pub digest_for_event : (EventType → ObjectRef → String) → Event → String
digest_for_event hash ev = hash ev.event_type ev.object_ref
