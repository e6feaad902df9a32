-- ===== src/Controller/Worker/Recording.antt =====
-- `recordEvent` and `recordMetric` of pkg/controller/worker.go: which recorder gets an event, and which
-- series is counted.
use unstructured_runtime.Prelude.{
  ◌≡◌, refl, Option, none, some, List, [], ◌∷◌, String, All, if◌then◌else◌, ◌==◌, string_eq,
}
use unstructured_runtime.Errors.{Error}
use unstructured_runtime.Event.{Event}
use unstructured_runtime.Controller.Worker.Handlers.{
  cannot_observe, cannot_create, cannot_delete, cannot_update, cannot_update_managed,
  cannot_set_conditions, external_deleted, external_created, external_updated,
}
use unstructured_runtime.Controller.Worker.Process.{cannot_initialize, reconciliation_paused}

pub data Recorder : Type 0 where
  recorder : Recorder
  throttled_recorder : Recorder

-- `event.TypeNormal` of github.com/krateo-platformops/plumbing, which is that of Kubernetes.
abbrev pub type_normal : String
type_normal = "Normal"

-- The recorder that gets an event with the reason; none where the object is nil.
unfoldable pub recorder_of : {A : Type 0} → Option A → String → Option Recorder
recorder_of none reason = none
recorder_of (some obj) reason =
    some (if reason == type_normal then recorder else throttled_recorder)

-- The labels of the series of `controller_reconcile_total` that is counted.
unfoldable pub record_metric : Event → Option Error → String × String × String
record_metric ev err =
    (ev.object_ref.kind, ev.object_ref.namespace, elim err [ none ↦ "success" | some e ↦ "error" ])

-- The reasons that the worker gives.
abbrev reasons : List String
reasons =
    cannot_initialize ∷ cannot_observe ∷ cannot_create ∷ cannot_delete ∷ cannot_update
    ∷ cannot_update_managed ∷ cannot_set_conditions ∷ external_deleted ∷ external_created
    ∷ external_updated ∷ reconciliation_paused ∷ []

-- Every event of the worker goes to the throttled recorder.
recorder_of-reasons :
    {A : Type 0} (obj : A)
    → All (λ reason. recorder_of (some obj) reason ≡ some throttled_recorder) reasons
unfolding recorder_of
recorder_of-reasons obj =
    (refl, (refl, (refl, (refl, (refl, (refl, (refl, (refl, (refl, (refl, (refl, tt)))))))))))
