-- ===== src/Tests/Controllers.antt =====
-- Examples of the controller: the informer's handlers, the worker and its retries.
use unstructured_runtime.Prelude.{
  ℕ, suc, ◌≡◌, ◌≢◌, refl, none, some, true, false, [], ◌∷◌, ◌++◌, String, ◌==◌, string_eq,
  if◌then◌else◌, inr, arith,
}
use unstructured_runtime.Event.{EventType, ObjectRef, Event}
use unstructured_runtime.Event.Actions.{created, get_event_type}
use unstructured_runtime.Meta.{is_paused, was_deleted}
use unstructured_runtime.Controller.{Resource, fields, malformed}
use unstructured_runtime.Controller.Intake.{resource, Handling, Intake, add_if_absent, event_of}
use unstructured_runtime.Controller.System.{
  System, empty_system, informed, released, signalled, waits, enqueue as add_once, signal, adds,
  takes, follows, releases, Reach, starts, steps,
}
use unstructured_runtime.Controller.System.Digests.{IsBacked, Reach-IsBacked}
use unstructured_runtime.Controller.Intake.{add_func, add_with_opts as intake_add}
use unstructured_runtime.Controller.Intake.Laws.{
  first, second, signals, IsDeduplicated, signals-IsDeduplicated,
}
use unstructured_runtime.Controller.Worker.{
  Call, Answer, get, resolve, write, write_status, encode, observe_external, create_external,
  update_external, delete_external, clock, enqueue, recorded, Controller,
}
use unstructured_runtime.Controller.Worker.Process.{process_item}
use unstructured_runtime.Controller.Worker.Handlers.{handle_delete}
use unstructured_runtime.Controller.Worker.Deletion.{IsDeletion, handle_delete-IsDeletion}
use unstructured_runtime.Controller.Worker.History.{World, run, Holds, is_internal}
use unstructured_runtime.Controller.Worker.Permission.{IsPermitted}
use unstructured_runtime.Controller.Worker.Permission.Stages.{process_item-IsPermitted}
use unstructured_runtime.Controller.Worker.Paused.{process_item-paused}
use unstructured_runtime.Tests.{three_seconds, bare, reference, creation, event_eq}

abbrev chart : Resource
chart = record {
  ref = reference;
  object = bare;
  resource_version = "1";
  spec = fields "size";
  conditions = [];
}

abbrev print : EventType → ObjectRef → String
print t r = t

abbrev handling : Handling
handling = record { actions = none; watch_annotations = []; hash = print }

abbrev nothing_queued : Intake
nothing_queued = record { items = λ s. false; added = [] }

alive : was_deleted bare ≡ false
unfolding was_deleted
alive = refl

well_formed : fields "size" ≢ malformed
well_formed h = absurd (ground (arith, h))

signals-IsDeduplicated_example : IsDeduplicated print (
    signals handling
      ((5, second (resource chart) (resource chart)) ∷ (4, first (resource chart)) ∷ [])
      nothing_queued)
signals-IsDeduplicated_example =
    signals-IsDeduplicated handling refl
      ((5, second (resource chart) (resource chart)) ∷ (4, first (resource chart)) ∷ [])
      nothing_queued (tt, tt)

abbrev noticed : System
noticed = signalled handling 4 (first (resource chart)) empty_system

abbrev first_event : Event
first_event = event_of (get_event_type handling.actions created) chart 4

noticed_adding : noticed.adding ≡ [] ++ first_event ∷ []
unfolding signalled informed add_func add_if_absent intake_add
noticed_adding = refl

abbrev waiting : System
waiting = record noticed { adding = []; queued = add_once first_event noticed.queued }

waiting_queued : waiting.queued ≡ [] ++ first_event ∷ []
unfolding signalled informed add_once waits
waiting_queued = refl

abbrev working : System
working = record waiting { queued = []; held = first_event ∷ waiting.held }

working_held : working.held ≡ [] ++ first_event ∷ []
unfolding signalled informed
working_held = refl

-- The worker adds an event of its own, and then its turn fails.
abbrev second_event : Event
second_event = event_of "Create" chart 5

abbrev followed : System
followed = record working {
  queued = add_once second_event working.queued;
  unguarded = second_event ∷ working.unguarded;
}

abbrev failing : System
failing = released print first_event true [] followed

failed_reached : Reach handling failing
failed_reached =
    steps
      (steps
        (steps
          (steps (steps starts (signal 4 (first (resource chart))))
            (adds first_event [] [] noticed_adding))
          (takes first_event [] [] waiting_queued))
        (follows second_event first_event [] [] working_held))
      (releases first_event true [] [] working_held)

Reach-IsBacked_example : IsBacked handling failing
Reach-IsBacked_example = Reach-IsBacked handling failed_reached

abbrev controller : Controller
controller = record { has_external_client = true; has_dynamic_client = true; has_pluralizer = true }

-- Every call succeeds, the external resource does not exist, and each reading of the clock is a
-- later one.
abbrev reply : Resource → (c : Call) → ℕ → Answer c × ℕ
reply el (get r) t = (inr el, t)
reply el (resolve r) t = (inr "charts", t)
reply el (write g r) t = (inr r, t)
reply el (write_status g r) t = (inr r, t)
reply el (encode r cs) t = (none, t)
reply el (observe_external r) t =
    ((inr (record { resource_exists = false; resource_up_to_date = false }), r), t)
reply el (create_external r) t = ((none, r), t)
reply el (update_external r) t = ((none, r), t)
reply el (delete_external r) t = ((none, r), t)
reply el clock t = (t, suc t)
reply el (enqueue o ev) t = (tt, t)
reply el (recorded reason) t = (tt, t)

abbrev cluster : Resource → World
cluster el = record { State = ℕ; answer = reply el }

process_item-IsPermitted_example :
    Holds
      (λ h c. IsPermitted three_seconds reference "Create" h c)
      (run (cluster chart) (process_item controller three_seconds creation) 7 []).1
process_item-IsPermitted_example =
    process_item-IsPermitted controller three_seconds creation (cluster chart) 7

handle_delete-IsDeletion_example :
    Holds IsDeletion (run (cluster chart) (handle_delete controller reference) 7 []).1
handle_delete-IsDeletion_example = handle_delete-IsDeletion controller reference (cluster chart) 7

abbrev halted : Resource
halted = record chart {
  object = record bare {
    annotations = some λ k. if k == "krateo.io/paused" then some "true" else none;
  };
}

halted-is_paused : is_paused halted.object ≡ true
unfolding is_paused
halted-is_paused = refl

process_item-paused_example :
    Holds
      (λ h c. is_internal c ≡ true)
      (run (cluster halted) (process_item controller three_seconds creation) 7 []).1
process_item-paused_example =
    process_item-paused controller three_seconds creation (cluster halted) 7 halted refl
      halted-is_paused
