-- ===== src/Event/Actions.antt =====
-- pkg/controller/event/actionsevent.go: which event an action on a custom resource queues. A map is
-- a function, and the nil map is `none`.
use unstructured_runtime.Prelude.{
  ◌≡◌, Option, none, some, String, ◌==◌, string_eq, if◌then◌else◌, update, arith,
}
use unstructured_runtime.Event.{EventType, observe, update_type, delete}

abbrev pub created : String
created = "Create"

abbrev pub updated : String
updated = "Update"

abbrev pub deleted : String
deleted = "Delete"

abbrev pub observed : String
observed = "Observe"

abbrev pub ActionsEvent : Type 0
ActionsEvent = Option (String → Option EventType)

unfoldable pub default_actions : String → Option EventType
default_actions a =
    if a == created
    then some observe
    else if a == updated
    then some update_type
    else if a == deleted
    then some delete
    else if a == observed
    then some observe
    else none

unfoldable pub new_default_actions_event : ActionsEvent
new_default_actions_event = some default_actions

unfoldable pub mutate_event : String → EventType → ActionsEvent → ActionsEvent
mutate_event action t none = some (update (λ a. none) action (some t))
mutate_event action t (some m) = some (update m action (some t))

-- The read of a map with no such key gives the empty text.
abbrev or_empty : Option EventType → EventType
or_empty none = ""
or_empty (some t) = t

unfoldable pub get_event_type : ActionsEvent → String → EventType
unfolding default_actions
get_event_type none a = or_empty (default_actions a)
get_event_type (some m) a = elim (m a) [ some t ↦ t | none ↦ or_empty (default_actions a) ]

-- The type that an action was last given is the one that is read; for every other action, and
-- before any change, the nil map, the default map and a changed map read as the defaults do.
get_event_type-mutate_event :
    (action : String) (t : EventType) (a : String) (m : ActionsEvent)
    → (get_event_type (mutate_event action t m) a ≡ (if action == a then t else get_event_type m a))
      × (get_event_type new_default_actions_event a ≡ get_event_type none a)
unfolding get_event_type mutate_event new_default_actions_event
get_event_type-mutate_event action t a none = (ground arith, ground arith)
get_event_type-mutate_event action t a (some m) = (ground arith, ground arith)
