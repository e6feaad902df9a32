-- ===== src/Controller/Worker/Handlers.antt =====
-- The four handlers of pkg/controller/worker.go.
use unstructured_runtime.Prelude.{
  ℕ, Option, none, some, List, [], ◌∷◌, String, if◌then◌else◌, ◌⊎◌, inl, inr,
}
use unstructured_runtime.Errors.{Error, wrapped}
use unstructured_runtime.Event.{EventType, ObjectRef, create, update_type}
use unstructured_runtime.Meta.{
  TimeFormat, set_external_create_pending, set_external_create_succeeded,
  set_external_create_failed,
}
use unstructured_runtime.Condition.{
  Condition, creating, deleting, reconcile_success, reconcile_error,
}
use unstructured_runtime.Controller.{Resource, high_priority}
use unstructured_runtime.Controller.Intake.{at_once, event_of}
use unstructured_runtime.Controller.Worker.{
  Controller, Prog, done, call, clock, enqueue, observe_external, create_external, update_external,
  delete_external, ExternalObservation, record_event, return_error, fetch, update, update_status,
  set_conditions, message,
}

abbrev pub cannot_observe : String
cannot_observe = "CannotObserveExternalResource"

abbrev pub cannot_create : String
cannot_create = "CannotCreateExternalResource"

abbrev pub cannot_delete : String
cannot_delete = "CannotDeleteExternalResource"

abbrev pub cannot_update : String
cannot_update = "CannotUpdateExternalResource"

abbrev pub cannot_update_managed : String
cannot_update_managed = "CannotUpdateManagedResource"

abbrev pub cannot_set_conditions : String
cannot_set_conditions = "CannotSetConditions"

abbrev pub external_deleted : String
external_deleted = "DeletedExternalResource"

abbrev pub external_created : String
external_created = "CreatedExternalResource"

abbrev pub external_updated : String
external_updated = "UpdatedExternalResource"

-- An error that is wrapped, as a condition.
abbrev pub failing : String → Error → ℕ → Condition
failing context e = reconcile_error (message (wrapped context e))

-- `if c.externalClient == nil { return nil }`
abbrev pub if_registered : Controller → Prog → Prog
if_registered C p = if C.has_external_client then p else done none

abbrev pub update_failed : Error → Prog
update_failed e = record_event cannot_update_managed (return_error e)

-- `SetConditions`, then `UpdateStatus`, each with its error recorded and returned.
unfoldable pub save_status : Controller → Resource → List (ℕ → Condition) → (Resource → Prog) → Prog
unfolding set_conditions update_status
save_status C el cs k =
    set_conditions el cs (λ e. record_event cannot_set_conditions (return_error e))
      (λ el'. update_status C el' update_failed k)

module _ (C : Controller) (ref : ObjectRef) where
  -- The conditions of the resource as it is now, and the error after them.
  unfoldable pub save_failure : List (ℕ → Condition) → Error → Prog
  unfolding fetch save_status
  save_failure cs e = fetch C ref return_error λ el. save_status C el cs λ el'. return_error e

  unfoldable pub enqueue_now : EventType → Resource → Prog
  enqueue_now t el =
      call clock λ now. call (enqueue (at_once high_priority) (event_of t el now)) λ u. done none

  unfoldable pub after_observing : ExternalObservation → Resource → Prog
  unfolding enqueue_now save_status
  after_observing o el =
      if o.resource_exists
      then if o.resource_up_to_date
        then save_status C el (reconcile_success ∷ []) (λ el'. done none)
        else enqueue_now update_type el
      else enqueue_now create el

  unfoldable pub observed_external : Error ⊎ ExternalObservation → Prog
  unfolding save_failure after_observing fetch
  observed_external (inl e) =
      record_event cannot_observe (save_failure (failing "observe failed" e ∷ []) e)
  observed_external (inr o) = fetch C ref return_error (after_observing o)

  unfoldable pub handle_observe : Prog
  unfolding fetch observed_external
  handle_observe =
      if_registered C
        (fetch C ref return_error λ el. call (observe_external el) λ a. observed_external a.0)

  unfoldable pub updated_external : Option Error → Prog
  unfolding save_failure fetch save_status
  updated_external (some e) =
      record_event cannot_update (save_failure (failing "update failed" e ∷ []) e)
  updated_external none = fetch C ref return_error λ el.
      save_status C el (reconcile_success ∷ []) λ el'. record_event external_updated (done none)

  unfoldable pub handle_update : Prog
  unfolding fetch updated_external
  handle_update =
      if_registered C
        (fetch C ref return_error λ el. call (update_external el) λ a. updated_external a.0)

  -- After an error, the conditions are set on the object that the external client was given.
  unfoldable pub deleted_external : Option Error → Resource → Prog
  unfolding fetch save_status update
  deleted_external (some e) el =
      record_event cannot_delete
        (save_status C el (deleting ∷ failing "delete failed" e ∷ []) λ el'. return_error e)
  deleted_external none el = fetch C ref return_error λ el1.
      save_status C el1 (deleting ∷ reconcile_success ∷ []) λ el2.
        update C (record el2 { object = record el2.object { finalizers = [] } }) update_failed
          λ el3. record_event external_deleted (done none)

  unfoldable pub handle_delete : Prog
  unfolding fetch deleted_external
  handle_delete =
      if_registered C
        (fetch C ref return_error λ el. call (delete_external el) λ a. deleted_external a.0 a.1)

  module _ (F : TimeFormat) where
    -- The update of the tracking annotations failed: the error is returned with `context`.
    unfoldable pub not_marked : String → Error → Prog
    unfolding save_failure
    not_marked context e =
        record_event cannot_update_managed
          (save_failure (creating ∷ failing context e ∷ []) (wrapped context e))

    unfoldable pub create_failed : Error → Prog
    unfolding fetch update save_status set_external_create_failed
    create_failed e = record_event cannot_create (
        fetch C ref return_error λ el. call clock λ now.
          update C (record el { object = set_external_create_failed F now el.object }) update_failed
            λ el'.
              save_status C el' (creating ∷ failing "create failed" e ∷ []) λ el''. return_error e)

    unfoldable pub create_succeeded : Prog
    unfolding fetch update save_status not_marked set_external_create_succeeded
    create_succeeded = fetch C ref return_error λ el. call clock λ now.
        update C (record el { object = set_external_create_succeeded F now el.object })
          (not_marked "cannot update managed resource annotations")
          λ el'. fetch C ref return_error λ el''.
            save_status C el'' (reconcile_success ∷ [])
              λ el'''. record_event external_created (done none)

    unfoldable pub created_external : Option Error → Prog
    unfolding create_failed create_succeeded
    created_external (some e) = create_failed e
    created_external none = create_succeeded

    unfoldable pub handle_create : Prog
    unfolding fetch update not_marked created_external set_external_create_pending
    handle_create = if_registered C (
        fetch C ref return_error λ el. call clock λ now.
          update C (record el { object = set_external_create_pending F now el.object })
            (not_marked "cannot update managed resource")
            λ el'.
              fetch C ref return_error
                λ el''. call (create_external el'') λ a. created_external a.0)
