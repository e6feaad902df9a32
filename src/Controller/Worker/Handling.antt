-- ===== src/Controller/Worker/Handling.antt =====
-- The calls of the handlers of pkg/controller/worker.go: what a condition on calls and their
-- histories has to admit so that a handler keeps it.
use unstructured_runtime.Prelude.{
  ℕ, ◌≡◌, refl, Option, none, some, true, List, [], ◌∷◌, String, string_eq, if◌then◌else◌, ◌⊎◌, inl,
  inr,
}
use unstructured_runtime.Errors.{Error}
use unstructured_runtime.Event.{EventType, ObjectRef, Event, create, update_type}
use unstructured_runtime.Condition.{Condition, deleting, reconcile_success}
use unstructured_runtime.PriorityQueue.Add.{AddOpts}
use unstructured_runtime.Controller.{Resource}
use unstructured_runtime.Controller.Worker.{
  Call, Answer, write, observe_external, update_external, delete_external, clock, enqueue, recorded,
  Controller, Prog, done, call, ExternalObservation, return_error, record_event,
}
use unstructured_runtime.Controller.Worker.Handlers.{
  update_failed, failing, save_failure, enqueue_now, after_observing, observed_external,
  handle_observe, updated_external, handle_update, deleted_external, handle_delete, if_registered,
  save_status, cannot_observe, cannot_update, cannot_delete, external_updated, external_deleted,
  cannot_update_managed,
}
use unstructured_runtime.Controller.Worker.History.{
  History, Always, is_internal, if-Always, fetch-Always, update-Always, save_status-Always,
}

module _ (Q : History → Call → Type 0)
    (admits : (h : History) (c : Call) → is_internal c ≡ true → Q h c) (C : Controller)
    (ref : ObjectRef) where
  pub done-Always : (r : Option Error) (h : History) → Always Q h (done r)
  unfolding Always
  done-Always r h = tt

  pub call-Always :
      (h : History) (c : Call) (k : Answer c → Prog)
      → Q h c
      → ((a : Answer c) → Always Q ((c, a) ∷ h) (k a))
      → Always Q h (call c k)
  unfolding Always
  call-Always h c k v w = (v, w)

  pub record_event-Always :
      (h : History) (reason : String) (p : Prog)
      → ((h' : History) → Always Q h' p)
      → Always Q h (record_event reason p)
  record_event-Always h reason p v =
      call-Always h (recorded reason) (λ u. p) (admits h (recorded reason) refl) λ u. v _

  pub save_failure-Always :
      (h : History) (cs : List (ℕ → Condition)) (e : Error) → Always Q h (save_failure C ref cs e)
  unfolding save_failure
  save_failure-Always h cs e =
      fetch-Always Q admits C h ref return_error _ (λ e' h'. done-Always (some _) h')
        λ el h'. save_status-Always Q admits C h' el cs _ λ el' h''. done-Always _ h''

  enqueue_now-Always :
      ((h : History) (o : AddOpts) (ev : Event) → Q h (enqueue o ev))
      → (h : History) (t : EventType) (el : Resource) → Always Q h (enqueue_now C ref t el)
  unfolding enqueue_now
  enqueue_now-Always enqueues h t el =
      call-Always h clock _ (admits h clock refl)
        λ now. call-Always _ _ _ (enqueues _ _ _) λ u. done-Always none _

  finished : (el : Resource) (h : History) → Always Q h (done none)
  finished el h = done-Always none h

  pub update_failed-Always : (e : Error) (h : History) → Always Q h (update_failed e)
  update_failed-Always e h =
      record_event-Always h cannot_update_managed (return_error e) λ h'. done-Always _ h'

  after_observing-Always :
      ((h : History) (o : AddOpts) (ev : Event) → Q h (enqueue o ev))
      → (h : History) (o : ExternalObservation) (el : Resource)
      → Always Q h (after_observing C ref o el)
  unfolding after_observing
  after_observing-Always enqueues h o el =
      if-Always Q h o.resource_exists
        (if o.resource_up_to_date
          then save_status C el (reconcile_success ∷ []) (λ el'. done none)
          else enqueue_now C ref update_type el)
        (enqueue_now C ref create el)
        (if-Always Q h o.resource_up_to_date
          (save_status C el (reconcile_success ∷ []) (λ el'. done none))
          (enqueue_now C ref update_type el)
          (save_status-Always Q admits C h el (reconcile_success ∷ []) (λ el'. done none) finished)
          (enqueue_now-Always enqueues h update_type el))
        (enqueue_now-Always enqueues h create el)

  observed_external-Always :
      ((h : History) (o : AddOpts) (ev : Event) → Q h (enqueue o ev))
      → (h : History) (r : Error ⊎ ExternalObservation) → Always Q h (observed_external C ref r)
  unfolding observed_external
  observed_external-Always enqueues h (inl e) =
      record_event-Always h cannot_observe _
        λ h'. save_failure-Always h' (failing "observe failed" e ∷ []) e
  observed_external-Always enqueues h (inr o) =
      fetch-Always Q admits C h ref return_error (after_observing C ref o)
        (λ e h'. done-Always (some _) h') λ el h'. after_observing-Always enqueues h' o el

  updated_external-Always : (h : History) (r : Option Error) → Always Q h (updated_external C ref r)
  unfolding updated_external
  updated_external-Always h (some e) =
      record_event-Always h cannot_update _
        λ h'. save_failure-Always h' (failing "update failed" e ∷ []) e
  updated_external-Always h none =
      fetch-Always Q admits C h ref return_error _ (λ e h'. done-Always (some _) h')
        λ el h'.
          save_status-Always Q admits C h' el (reconcile_success ∷ []) _
            λ el' h''. record_event-Always h'' external_updated (done none) λ h3. done-Always _ h3

  -- After the external deletion failed, the object is not written.
  pub deletion_failed-Always :
      (h : History) (e : Error) (el : Resource) → Always Q h (deleted_external C ref (some e) el)
  unfolding deleted_external
  deletion_failed-Always h e el = record_event-Always h cannot_delete _ λ h'.
      save_status-Always Q admits C h' el (deleting ∷ failing "delete failed" e ∷ [])
        (λ el'. return_error e) λ el' h''. done-Always _ h''

  -- After it succeeded, the object is written without finalizers.
  pub deletion_done-Always :
      ((h : History) (g : String) (el : Resource)
        → Q h (write g (record el { object = record el.object { finalizers = [] } })))
      → (h : History) (el : Resource) → Always Q h (deleted_external C ref none el)
  unfolding deleted_external
  deletion_done-Always writes h el =
      fetch-Always Q admits C h ref return_error _ (λ e h'. done-Always (some _) h')
        λ el1 h1.
          save_status-Always Q admits C h1 el1 (deleting ∷ reconcile_success ∷ []) _ λ el2 h2.
            update-Always Q admits C h2
              (record el2 { object = record el2.object { finalizers = [] } }) update_failed _
              (λ g h'. writes h' g el2) update_failed-Always
              (λ el3 h3. record_event-Always h3 external_deleted (done none) λ h4. done-Always _ h4)

  deleted_external-Always :
      ((h : History) (g : String) (el : Resource) → Q h (write g el))
      → (h : History) (r : Option Error) (el : Resource) → Always Q h (deleted_external C ref r el)
  deleted_external-Always writes h (some e) el = deletion_failed-Always h e el
  deleted_external-Always writes h none el = deletion_done-Always (λ h' g el'. writes h' g _) h el

  pub if_registered-Always :
      (h : History) (p : Prog) → Always Q h p → Always Q h (if_registered C p)
  if_registered-Always h p v =
      if-Always Q h C.has_external_client p (done none) v (done-Always none h)

  pub handle_observe-Always :
      ((h : History) (o : AddOpts) (ev : Event) → Q h (enqueue o ev))
      → ((h : History) (el : Resource) → Q h (observe_external el))
      → (h : History) → Always Q h (handle_observe C ref)
  unfolding handle_observe observed_external
  handle_observe-Always enqueues observes h = if_registered-Always h _ (
      fetch-Always Q admits C h ref return_error _ (λ e h'. done-Always (some _) h')
        λ el h'. call-Always h' _ _ (observes h' el) λ a. observed_external-Always enqueues _ a.0)

  pub handle_update-Always :
      ((h : History) (el : Resource) → Q h (update_external el))
      → (h : History) → Always Q h (handle_update C ref)
  unfolding handle_update
  handle_update-Always updates h = if_registered-Always h _ (
      fetch-Always Q admits C h ref return_error _ (λ e h'. done-Always (some _) h')
        λ el h'. call-Always h' _ _ (updates h' el) λ a. updated_external-Always _ a.0)

  pub handle_delete-Always :
      ((h : History) (g : String) (el : Resource) → Q h (write g el))
      → ((h : History) (el : Resource) → Q h (delete_external el))
      → (h : History) → Always Q h (handle_delete C ref)
  unfolding handle_delete
  handle_delete-Always writes deletes h = if_registered-Always h _ (
      fetch-Always Q admits C h ref return_error _ (λ e h'. done-Always (some _) h')
        λ el h'. call-Always h' _ _ (deletes h' el) λ a. deleted_external-Always writes _ a.0 a.1)
