-- ===== src/Controller/Worker/Process.antt =====
-- `processItem` of pkg/controller/worker.go.
use unstructured_runtime.Prelude.{
  ℕ, ◌*◌, ◌^◌, none, some, false, ◌&&◌, not, [], ◌∷◌, ◌++◌, String, ◌==◌, string_eq, if◌then◌else◌,
  ◌⊎◌, inl, inr,
}
use unstructured_runtime.Prelude.Int.{pos}
use unstructured_runtime.Errors.{Error}
use unstructured_runtime.Event.{Event, create, update_type, delete}
use unstructured_runtime.Meta.{
  TimeFormat, is_paused, was_deleted, remove_annotations, key_external_create_pending,
  set_external_create_succeeded, external_create_incomplete, external_create_pending_during,
}
use unstructured_runtime.Meta.Finalizers.{contains, remove_finalizer}
use unstructured_runtime.Meta.Policy.{should_delete}
use unstructured_runtime.Condition.{creating, reconcile_error, reconcile_paused}
use unstructured_runtime.Controller.{Resource, low_priority}
use unstructured_runtime.Controller.Worker.{
  Controller, Prog, done, crash, call, clock, enqueue, observe_external, ExternalObservation,
  record_event, fetch, update,
}
use unstructured_runtime.Controller.Worker.Handlers.{
  update_failed, save_status, handle_observe, handle_create, handle_update, handle_delete,
}

abbrev pub finalizer_name : String
finalizer_name = "composition.krateo.io/finalizer"

abbrev pub cannot_initialize : String
cannot_initialize = "CannotInitializeManagedResource"

abbrev pub reconciliation_paused : String
reconciliation_paused = "ReconciliationPaused"

abbrev pub create_incomplete : String
create_incomplete =
    "cannot determine creation result - remove the krateo.io/external-create-pending annotation if it is safe to proceed"

-- Two minutes, and fifteen seconds.
abbrev pub recovery_grace_period : ℕ
recovery_grace_period = 120 * 10 ^ 9

abbrev pub recovery_reobserve_interval : ℕ
recovery_reobserve_interval = 15 * 10 ^ 9

module _ (C : Controller) (F : TimeFormat) (ev : Event) where
  unfoldable pub paused : Resource → Prog
  unfolding save_status
  paused el =
      record_event reconciliation_paused (save_status C el (reconcile_paused ∷ []) λ el'. done none)

  unfoldable pub release_orphan : Resource → (Resource → Prog) → Prog
  unfolding update was_deleted should_delete contains remove_finalizer
  release_orphan el k =
      if was_deleted el.object && not (should_delete el.object)
      then if contains finalizer_name el.object.finalizers
        then (elim (remove_finalizer finalizer_name el.object) [
          | none ↦ crash
          | some o ↦ update C (record el { object = o }) update_failed k
        ])
        else k el
      else k el

  unfoldable pub refuse : Resource → Prog
  unfolding save_status
  refuse el =
      record_event cannot_initialize
        (save_status C el (creating ∷ reconcile_error create_incomplete ∷ []) λ el'. done none)

  -- The pending mark of a creation that did not happen is cleared once the grace period is over.
  unfoldable pub recover_absent : ℕ → Resource → (Resource → Prog) → Prog
  unfolding update external_create_pending_during remove_annotations
  recover_absent now el k =
      if external_create_pending_during F now recovery_grace_period el.object
      then (call clock λ queued.
          call
            (enqueue
              (record {
                after = pos recovery_reobserve_interval;
                rate_limited = false;
                priority = low_priority;
              })
              (record ev { queued_at = queued }))
            λ u. done none)
      else update C
          (record el { object = remove_annotations (key_external_create_pending ∷ []) el.object })
          update_failed k

  unfoldable pub recover_observed :
      Error ⊎ ExternalObservation → Resource → (Resource → Prog) → Prog
  unfolding refuse update set_external_create_succeeded recover_absent
  recover_observed (inl e) el k = refuse el
  recover_observed (inr o) el k = call clock λ now.
      if o.resource_exists
      then update C (record el { object = set_external_create_succeeded F now el.object })
          update_failed k
      else recover_absent now el k

  unfoldable pub recover : Resource → (Resource → Prog) → Prog
  unfolding external_create_incomplete recover_observed refuse
  recover el k =
      if external_create_incomplete F el.object
      then if C.has_external_client
        then (call (observe_external el) λ a. recover_observed a.0 a.1 k)
        else refuse el
      else k el

  unfoldable pub ensure_finalizer : Resource → (Resource → Prog) → Prog
  unfolding update was_deleted contains
  ensure_finalizer el k =
      if was_deleted el.object
      then k el
      else if contains finalizer_name el.object.finalizers
      then k el
      else update C
          (record el {
            object = record el.object { finalizers = el.object.finalizers ++ finalizer_name ∷ [] };
          })
          update_failed k

  unfoldable pub dispatch : Prog
  unfolding handle_create handle_update handle_delete handle_observe
  dispatch =
      if ev.event_type == create
      then handle_create C ev.object_ref F
      else if ev.event_type == update_type
      then handle_update C ev.object_ref
      else if ev.event_type == delete
      then handle_delete C ev.object_ref
      else handle_observe C ev.object_ref

  unfoldable pub process_item : Prog
  unfolding fetch paused release_orphan recover ensure_finalizer dispatch is_paused
  process_item =
      fetch C ev.object_ref (λ e. done none)
        λ el.
          if is_paused el.object
          then paused el
          else release_orphan el λ el1. recover el1 λ el2. ensure_finalizer el2 λ el3. dispatch
