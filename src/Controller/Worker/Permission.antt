-- ===== src/Controller/Worker/Permission.antt =====
-- `processItem` of pkg/controller/worker.go: which events let it write through the external client.
pub mod Stages
use unstructured_runtime.Prelude.{
  ℕ, ◌≡◌, refl, Option, none, some, Bool, true, false, ◌&&◌, not, List, [], ◌∷◌, String, ◌==◌,
  string_eq, if◌then◌else◌, ◌⊎◌, arith, inl, inr,
}
use unstructured_runtime.Errors.{Error}
use unstructured_runtime.Event.{EventType, ObjectRef, Event, create, update_type, delete}
use unstructured_runtime.Meta.{
  Object, TimeFormat, is_paused, was_deleted, external_create_incomplete,
  external_create_pending_during,
}
use unstructured_runtime.Meta.Finalizers.{contains, remove_finalizer}
use unstructured_runtime.Meta.Policy.{should_delete}
use unstructured_runtime.Condition.{Condition, creating, reconcile_error, reconcile_paused}
use unstructured_runtime.PriorityQueue.Add.{AddOpts}
use unstructured_runtime.Controller.{Resource}
use unstructured_runtime.Controller.Worker.{
  Call, get, resolve, write, write_status, encode, observe_external, create_external,
  update_external, delete_external, clock, enqueue, recorded, Controller, Prog, done, crash,
  ExternalObservation, update,
}
use unstructured_runtime.Controller.Worker.Handlers.{
  update_failed, handle_observe, handle_update, handle_delete, handle_create, save_status,
}
use unstructured_runtime.Controller.Worker.Process.{
  paused, release_orphan, refuse, recover_absent, recover_observed, recover, ensure_finalizer,
  dispatch, process_item, finalizer_name, reconciliation_paused, cannot_initialize,
  create_incomplete, recovery_grace_period,
}
use unstructured_runtime.Controller.Worker.History.{
  History, World, run, Always, Holds, run-Holds, is_internal, if-Always, fetch-Always,
  update-Always, save_status-Always,
}
use unstructured_runtime.Controller.Worker.Handling.{
  done-Always, call-Always, record_event-Always, update_failed-Always, handle_observe-Always,
  handle_update-Always, handle_delete-Always,
}
use unstructured_runtime.Controller.Worker.Creation.{IsMarked, handle_create-Always}

module _ (F : TimeFormat) (ref : ObjectRef) where
  -- Creations for `Create` events and marked objects, updates for `Update` events, deletions for
  -- `Delete` events.
  unfoldable pub IsPermitted : EventType → History → Call → Type 0
  IsPermitted t h (create_external el) = (t ≡ create) × IsMarked F ref el h
  IsPermitted t h (update_external el) = t ≡ update_type
  IsPermitted t h (delete_external el) = t ≡ delete
  IsPermitted t h _ = Unit

module _ (C : Controller) (F : TimeFormat) (ev : Event) where
  abbrev pub Permitted : History → Call → Type 0
  Permitted h c = IsPermitted F ev.object_ref ev.event_type h c

  pub admits_internal : (h : History) (c : Call) → is_internal c ≡ true → Permitted h c
  unfolding IsPermitted
  admits_internal h (create_external el) i = absurd (ground (arith, i))
  admits_internal h (update_external el) i = absurd (ground (arith, i))
  admits_internal h (delete_external el) i = absurd (ground (arith, i))
  admits_internal h (get r) i = tt
  admits_internal h (resolve r) i = tt
  admits_internal h (write g r) i = tt
  admits_internal h (write_status g r) i = tt
  admits_internal h (encode r cs) i = tt
  admits_internal h (observe_external r) i = tt
  admits_internal h clock i = tt
  admits_internal h (enqueue o e) i = tt
  admits_internal h (recorded reason) i = tt

  admits_writes : (h : History) (g : String) (el : Resource) → Permitted h (write g el)
  unfolding IsPermitted
  admits_writes h g el = tt

  pub admits_enqueues : (h : History) (o : AddOpts) (e : Event) → Permitted h (enqueue o e)
  unfolding IsPermitted
  admits_enqueues h o e = tt

  pub admits_observes : (h : History) (el : Resource) → Permitted h (observe_external el)
  unfolding IsPermitted
  admits_observes h el = tt

  admits_creates :
      ev.event_type ≡ create
      → (h : History) (el : Resource) → IsMarked F ev.object_ref el h
      → Permitted h (create_external el)
  unfolding IsPermitted
  admits_creates eq h el marked = (eq, marked)

  admits_updates :
      ev.event_type ≡ update_type → (h : History) (el : Resource) → Permitted h (update_external el)
  unfolding IsPermitted
  admits_updates eq h el = eq

  admits_deletes :
      ev.event_type ≡ delete → (h : History) (el : Resource) → Permitted h (delete_external el)
  unfolding IsPermitted
  admits_deletes eq h el = eq

  -- A choice whose branches may use the test.
  choose-Always :
      (h : History) (b : Bool) (p q : Prog)
      → (b ≡ true → Always Permitted h p)
      → Always Permitted h q
      → Always Permitted h (if b then p else q)
  choose-Always h true p q v w = v refl
  choose-Always h false p q v w = w

  pub dispatch-Always : (h : History) → Always Permitted h (dispatch C F ev)
  unfolding dispatch
  dispatch-Always h =
      choose-Always h (ev.event_type == create) (handle_create C ev.object_ref F) _
        (λ eq.
          handle_create-Always Permitted admits_internal admits_writes C ev.object_ref F
            (admits_creates ((string_eq.equals_iff ev.event_type create).0 eq)) h)
        (choose-Always h (ev.event_type == update_type) (handle_update C ev.object_ref) _
          (λ eq.
            handle_update-Always Permitted admits_internal C ev.object_ref
              (admits_updates ((string_eq.equals_iff ev.event_type update_type).0 eq)) h)
          (choose-Always h (ev.event_type == delete) (handle_delete C ev.object_ref)
            (handle_observe C ev.object_ref)
            (λ eq.
              handle_delete-Always Permitted admits_internal C ev.object_ref admits_writes
                (admits_deletes ((string_eq.equals_iff ev.event_type delete).0 eq)) h)
            (handle_observe-Always Permitted admits_internal C ev.object_ref admits_enqueues
              admits_observes h)))

  pub nothing_yet : Holds Permitted []
  unfolding Holds
  nothing_yet = tt

  pub crash-Always : (h : History) → Always Permitted h crash
  unfolding Always
  crash-Always h = tt

  pub save-Always :
      (h : History) (el : Resource) (cs : List (ℕ → Condition))
      → Always Permitted h (save_status C el cs λ el'. done none)
  save-Always h el cs =
      save_status-Always Permitted admits_internal C h el cs _
        λ el' h'. done-Always Permitted admits_internal C ev.object_ref none h'

  pub store-Always :
      (h : History) (el : Resource) (k : Resource → Prog)
      → ((el' : Resource) (h' : History) → Always Permitted h' (k el'))
      → Always Permitted h (update C el update_failed k)
  store-Always h el k v =
      update-Always Permitted admits_internal C h el update_failed k (λ g h'. admits_writes h' g el)
        (update_failed-Always Permitted admits_internal C ev.object_ref) v
