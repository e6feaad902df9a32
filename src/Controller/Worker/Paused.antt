-- ===== src/Controller/Worker/Paused.antt =====
-- `processItem` of pkg/controller/worker.go on a resource with the pause annotation.
use unstructured_runtime.Prelude.{
  ◌≡◌, refl, sym, ap, subst, ◌∙◌, none, some, true, false, [], ◌∷◌, if◌then◌else◌, inl, inr,
  Bool-cases, arith,
}
use unstructured_runtime.Errors.{Error, text}
use unstructured_runtime.Event.{ObjectRef, Event}
use unstructured_runtime.Meta.{TimeFormat, is_paused}
use unstructured_runtime.Condition.{reconcile_paused}
use unstructured_runtime.Controller.{Resource}
use unstructured_runtime.Controller.Worker.{
  Call, get, Controller, Prog, done, call, fetch, on_result,
}
use unstructured_runtime.Controller.Worker.Process.{
  paused, process_item, reconciliation_paused, release_orphan, recover, ensure_finalizer, dispatch,
}
use unstructured_runtime.Controller.Worker.History.{
  History, World, run, Always, Holds, run-Holds, is_internal, save_status-Always,
}
use unstructured_runtime.Controller.Worker.Handling.{done-Always, record_event-Always}

abbrev IsInternal : History → Call → Type 0
IsInternal h c = is_internal c ≡ true

run-fetch :
    (W : World) (C : Controller) (ref : ObjectRef) (fail : Error → Prog) (k : Resource → Prog)
    (w : W.State) (h : History) (el : Resource)
    → C.has_dynamic_client ≡ true
    → (W.answer (get ref) w).0 ≡ inr el
    → run W (fetch C ref fail k) w h ≡ run W (k el) (W.answer (get ref) w).1 ((get ref, inr el) ∷ h)
unfolding run fetch
run-fetch W C ref fail k w h el has eq =
    ap
      (λ b.
        run W
          (if b
            then call (get ref) (on_result fail k)
            else fail (text "dynamic client is not configured"))
          w h)
      has
    ∙ ap (λ a. run W (on_result fail k a) (W.answer (get ref) w).1 ((get ref, a) ∷ h)) eq

run_unconfigured :
    (W : World) (C : Controller) (ref : ObjectRef) (k : Resource → Prog) (w : W.State)
    → C.has_dynamic_client ≡ false
    → run W (fetch C ref (λ e. done none) k) w [] ≡ (some none, [], w)
unfolding run fetch
run_unconfigured W C ref k w has =
    ap (λ b. run W (if b then call (get ref) (on_result (λ e. done none) k) else done none) w [])
      has

module _ (C : Controller) (F : TimeFormat) (ev : Event) where
  paused-Always : (h : History) (el : Resource) → Always IsInternal h (paused C F ev el)
  unfolding paused
  paused-Always h el =
      record_event-Always IsInternal admits C ev.object_ref h reconciliation_paused _ λ h'.
        save_status-Always IsInternal admits C h' el (reconcile_paused ∷ []) _
          λ el' h''. done-Always IsInternal admits C ev.object_ref none h''
    where
      admits : (h : History) (c : Call) → is_internal c ≡ true → IsInternal h c
      admits h c i = i

  after_fetch : Resource → Prog
  unfolding paused is_paused release_orphan recover ensure_finalizer dispatch
  after_fetch el =
      if is_paused el.object
      then paused C F ev el
      else release_orphan C F ev el
          λ el1. recover C F ev el1 λ el2. ensure_finalizer C F ev el2 λ el3. dispatch C F ev

  process_item-fetch : process_item C F ev ≡ fetch C ev.object_ref (λ e. done none) after_fetch
  unfolding process_item after_fetch
  process_item-fetch = refl

  after_fetch-paused :
      (el : Resource) → is_paused el.object ≡ true → after_fetch el ≡ paused C F ev el
  unfolding after_fetch
  after_fetch-paused el h = ground (arith, h)

  started : (el : Resource) → Holds IsInternal ((get ev.object_ref, inr el) ∷ [])
  unfolding Holds
  started el = (refl, tt)

  nothing : Holds IsInternal []
  unfolding Holds
  nothing = tt

  -- When the resource that is read first has the pause annotation, the external client is not
  -- called, nothing is queued, and the cluster is asked at most to store the status.
  pub process_item-paused :
      (W : World) (w : W.State) (el : Resource)
      → (W.answer (get ev.object_ref) w).0 ≡ inr el
      → is_paused el.object ≡ true
      → Holds IsInternal (run W (process_item C F ev) w []).1
  process_item-paused W w el found is = elim (Bool-cases C.has_dynamic_client) [
    | inl has ↦
        subst (λ r. Holds IsInternal r.1)
          (sym (
            ap (λ p. run W p w []) process_item-fetch
            ∙ run-fetch W C ev.object_ref (λ e. done none) after_fetch w [] el has found
            ∙ ap
                (λ p. run W p (W.answer (get ev.object_ref) w).1 ((get ev.object_ref, inr el) ∷ []))
                (after_fetch-paused el is)))
          (run-Holds IsInternal W (paused C F ev el) (W.answer (get ev.object_ref) w).1
            ((get ev.object_ref, inr el) ∷ []) (paused-Always _ el) (started el))
    | inr has ↦
        subst (λ r. Holds IsInternal r.1)
          (sym (
            ap (λ p. run W p w []) process_item-fetch
            ∙ run_unconfigured W C ev.object_ref after_fetch w has))
          nothing
  ]
