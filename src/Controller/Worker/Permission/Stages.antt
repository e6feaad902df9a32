-- ===== src/Controller/Worker/Permission/Stages.antt =====
-- The stages of `processItem` of pkg/controller/worker.go, one after another.
use unstructured_runtime.Prelude.{
  ℕ, refl, Option, none, some, ◌&&◌, not, [], ◌∷◌, string_eq, ◌⊎◌, inl, inr,
}
use unstructured_runtime.Errors.{Error}
use unstructured_runtime.Event.{Event}
use unstructured_runtime.Meta.{
  Object, TimeFormat, is_paused, was_deleted, external_create_incomplete,
  external_create_pending_during,
}
use unstructured_runtime.Meta.Finalizers.{contains, remove_finalizer}
use unstructured_runtime.Meta.Policy.{should_delete}
use unstructured_runtime.Condition.{creating, reconcile_error, reconcile_paused}
use unstructured_runtime.Controller.{Resource}
use unstructured_runtime.Controller.Worker.{
  observe_external, clock, Controller, Prog, done, crash, ExternalObservation, update,
}
use unstructured_runtime.Controller.Worker.Handlers.{update_failed}
use unstructured_runtime.Controller.Worker.Process.{
  paused, release_orphan, refuse, recover_absent, recover_observed, recover, ensure_finalizer,
  process_item, finalizer_name, reconciliation_paused, cannot_initialize, create_incomplete,
  recovery_grace_period,
}
use unstructured_runtime.Controller.Worker.History.{
  History, World, run, Always, Holds, run-Holds, if-Always, fetch-Always,
}
use unstructured_runtime.Controller.Worker.Handling.{done-Always, call-Always, record_event-Always}
use unstructured_runtime.Controller.Worker.Permission.{
  Permitted, admits_internal, admits_enqueues, admits_observes, nothing_yet, store-Always,
  save-Always, dispatch-Always, crash-Always,
}

module _ (C : Controller) (F : TimeFormat) (ev : Event) where
  paused-Always : (h : History) (el : Resource) → Always (Permitted C F ev) h (paused C F ev el)
  unfolding paused
  paused-Always h el =
      record_event-Always (Permitted C F ev) (admits_internal C F ev) C ev.object_ref h
        reconciliation_paused _ λ h'. save-Always C F ev h' el (reconcile_paused ∷ [])

  refuse-Always : (h : History) (el : Resource) → Always (Permitted C F ev) h (refuse C F ev el)
  unfolding refuse
  refuse-Always h el =
      record_event-Always (Permitted C F ev) (admits_internal C F ev) C ev.object_ref h
        cannot_initialize _
        λ h'. save-Always C F ev h' el (creating ∷ reconcile_error create_incomplete ∷ [])

  module _ (k : Resource → Prog)
      (v : (el : Resource) (h : History) → Always (Permitted C F ev) h (k el)) where
    release_orphan-Always :
        (h : History) (el : Resource) → Always (Permitted C F ev) h (release_orphan C F ev el k)
    unfolding release_orphan
    release_orphan-Always h el =
        if-Always (Permitted C F ev) h (was_deleted el.object && not (should_delete el.object)) _
          (k el)
          (if-Always (Permitted C F ev) h (contains finalizer_name el.object.finalizers) _ (k el)
            (released h (remove_finalizer finalizer_name el.object)) (v el h))
          (v el h)
      where
        released :
            (h : History) (o : Option Object)
            → Always (Permitted C F ev) h (elim o as (λ o. Prog) [
              | none ↦ crash
              | some o ↦ update C (record el { object = o }) update_failed k
            ])
        released h none = crash-Always C F ev h
        released h (some o) = store-Always C F ev h (record el { object = o }) k v

    ensure_finalizer-Always :
        (h : History) (el : Resource) → Always (Permitted C F ev) h (ensure_finalizer C F ev el k)
    unfolding ensure_finalizer
    ensure_finalizer-Always h el =
        if-Always (Permitted C F ev) h (was_deleted el.object) (k el) _ (v el h) (
          if-Always (Permitted C F ev) h (contains finalizer_name el.object.finalizers) (k el) _
            (v el h) (store-Always C F ev h _ k v))

    recover_absent-Always :
        (h : History) (now : ℕ) (el : Resource)
        → Always (Permitted C F ev) h (recover_absent C F ev now el k)
    unfolding recover_absent
    recover_absent-Always h now el =
        if-Always (Permitted C F ev) h
          (external_create_pending_during F now recovery_grace_period el.object) _ _
          (call-Always (Permitted C F ev) (admits_internal C F ev) C ev.object_ref h clock _
            ((admits_internal C F ev) h clock refl)
            λ queued.
              call-Always (Permitted C F ev) (admits_internal C F ev) C ev.object_ref _ _ _
                ((admits_enqueues C F ev) _ _ _)
                λ u. done-Always (Permitted C F ev) (admits_internal C F ev) C ev.object_ref none _)
          (store-Always C F ev h _ k v)

    recover_observed-Always :
        (h : History) (r : Error ⊎ ExternalObservation) (el : Resource)
        → Always (Permitted C F ev) h (recover_observed C F ev r el k)
    unfolding recover_observed
    recover_observed-Always h (inl e) el = refuse-Always h el
    recover_observed-Always h (inr o) el =
        call-Always (Permitted C F ev) (admits_internal C F ev) C ev.object_ref h clock _
          ((admits_internal C F ev) h clock refl)
          λ now.
            if-Always (Permitted C F ev) _ o.resource_exists _ (recover_absent C F ev now el k)
              (store-Always C F ev _ _ k v) (recover_absent-Always _ now el)

    recover-Always :
        (h : History) (el : Resource) → Always (Permitted C F ev) h (recover C F ev el k)
    unfolding recover
    recover-Always h el =
        if-Always (Permitted C F ev) h (external_create_incomplete F el.object) _ (k el)
          (if-Always (Permitted C F ev) h C.has_external_client _ (refuse C F ev el)
            (call-Always (Permitted C F ev) (admits_internal C F ev) C ev.object_ref h
              (observe_external el) _ ((admits_observes C F ev) h el)
              λ a. recover_observed-Always _ a.0 a.1)
            (refuse-Always h el))
          (v el h)

  process_item-Always : (h : History) → Always (Permitted C F ev) h (process_item C F ev)
  unfolding process_item
  process_item-Always h =
      fetch-Always (Permitted C F ev) (admits_internal C F ev) C h ev.object_ref (λ e. done none) _
        (λ e h'. done-Always (Permitted C F ev) (admits_internal C F ev) C ev.object_ref none h')
        λ el h'.
          if-Always (Permitted C F ev) h' (is_paused el.object) (paused C F ev el) _
            (paused-Always h' el)
            (release_orphan-Always _
              (λ el1 h1.
                recover-Always _
                  (λ el2 h2. ensure_finalizer-Always _ (λ el3 h3. dispatch-Always C F ev h3) h2 el2)
                  h1 el1)
              h' el)

  -- Whatever the cluster and the external client answer, the external client is asked to create only
  -- for a `Create` event, to update only for an `Update` event and to delete only for a `Delete`
  -- event, and a creation comes directly after the object was read, marked as pending with the
  -- clock's reading, written without an error, and read again.
  pub process_item-IsPermitted :
      (W : World) (w : W.State) → Holds (Permitted C F ev) (run W (process_item C F ev) w []).1
  process_item-IsPermitted W w =
      run-Holds (Permitted C F ev) W (process_item C F ev) w [] (process_item-Always [])
        (nothing_yet C F ev)
