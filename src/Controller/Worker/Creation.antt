-- ===== src/Controller/Worker/Creation.antt =====
-- When pkg/controller/worker.go calls the external client: which event lets it write, and what is
-- stored before a creation.
use unstructured_runtime.Prelude.{
  ℕ, ◌≡◌, refl, Option, none, some, true, [], ◌∷◌, String, string_eq, inl, inr,
}
use unstructured_runtime.Errors.{Error, text, wrapped}
use unstructured_runtime.Event.{ObjectRef}
use unstructured_runtime.Meta.{
  TimeFormat, set_external_create_pending, set_external_create_succeeded,
  set_external_create_failed,
}
use unstructured_runtime.Condition.{creating, reconcile_success}
use unstructured_runtime.Controller.{Resource}
use unstructured_runtime.Controller.Worker.{
  Call, get, resolve, write, create_external, clock, Controller, Prog, call, return_error, fetch,
  update, on_result,
}
use unstructured_runtime.Controller.Worker.Handlers.{
  update_failed, failing, not_marked, create_failed, create_succeeded, created_external,
  handle_create, cannot_update_managed, cannot_create, external_created,
}
use unstructured_runtime.Controller.Worker.History.{
  History, Always, is_internal, if-Always, fetch-Always, update-Always, save_status-Always,
}
use unstructured_runtime.Controller.Worker.Handling.{
  done-Always, call-Always, record_event-Always, if_registered-Always, update_failed-Always,
  save_failure-Always,
}

module _ (F : TimeFormat) (ref : ObjectRef) where
  -- The object was read, marked as pending at the clock's reading, and the write of the marked
  -- object succeeded; then `el` was read.
  unfoldable pub IsMarked : Resource → History → Type 0
  IsMarked el h =
      (old : Resource) × (now : ℕ) × (gvr : String) × (stored : Resource) × (h' : History) × (h
        ≡ (get ref, inr el)
          ∷ (
            write gvr (record old { object = set_external_create_pending F now old.object }),
            inr stored,
          )
          ∷ (resolve old.ref, inr gvr)
          ∷ (clock, now)
          ∷ (get ref, inr old)
          ∷ h')

module _ (Q : History → Call → Type 0)
    (admits : (h : History) (c : Call) → is_internal c ≡ true → Q h c)
    (writes : (h : History) (g : String) (el : Resource) → Q h (write g el)) (C : Controller)
    (ref : ObjectRef) where
  pub fails : (e : Error) (h : History) → Always Q h (return_error e)
  fails e h = done-Always Q admits C ref (some e) h

  not_marked-Always :
      (h : History) (context : String) (e : Error) (F : TimeFormat)
      → Always Q h (not_marked C ref F context e)
  unfolding not_marked
  not_marked-Always h context e F =
      record_event-Always Q admits C ref h cannot_update_managed _ λ h'.
        save_failure-Always Q admits C ref h' (creating ∷ failing context e ∷ [])
          (wrapped context e)

  module _ (F : TimeFormat) where
    create_failed-Always : (h : History) (e : Error) → Always Q h (create_failed C ref F e)
    unfolding create_failed
    create_failed-Always h e = record_event-Always Q admits C ref h cannot_create _ λ h1.
        fetch-Always Q admits C h1 ref return_error _ fails λ el h2.
          call-Always Q admits C ref h2 clock _ (admits h2 clock refl) λ now.
            update-Always Q admits C _
              (record el { object = set_external_create_failed F now el.object }) update_failed _
              (λ g h'. writes h' g _) (update_failed-Always Q admits C ref)
              λ el' h'.
                save_status-Always Q admits C h' el' (creating ∷ failing "create failed" e ∷ []) _
                  λ el'' h''. fails e h''

    create_succeeded-Always : (h : History) → Always Q h (create_succeeded C ref F)
    unfolding create_succeeded
    create_succeeded-Always h = fetch-Always Q admits C h ref return_error _ fails λ el h2.
        call-Always Q admits C ref h2 clock _ (admits h2 clock refl) λ now.
          update-Always Q admits C _
            (record el { object = set_external_create_succeeded F now el.object })
            (not_marked C ref F "cannot update managed resource annotations") _
            (λ g h'. writes h' g _) (λ e h'. not_marked-Always h' _ e F)
            λ el' h3. fetch-Always Q admits C h3 ref return_error _ fails λ el'' h4.
              save_status-Always Q admits C h4 el'' (reconcile_success ∷ []) _ λ el3 h5.
                record_event-Always Q admits C ref h5 external_created _
                  λ h6. done-Always Q admits C ref none h6

    created_external-Always :
        (r : Option Error) (h : History) → Always Q h (created_external C ref F r)
    unfolding created_external
    created_external-Always (some e) h = create_failed-Always h e
    created_external-Always none h = create_succeeded-Always h

    -- The read and the write that come before a creation, with what they leave in the history.
    fetch_exact :
        (h : History) (k : Resource → Prog)
        → ((el : Resource) → Always Q ((get ref, inr el) ∷ h) (k el))
        → Always Q h (fetch C ref return_error k)
    unfolding fetch Always
    fetch_exact h k v =
        if-Always Q h C.has_dynamic_client (call (get ref) (on_result return_error k))
          (return_error (text "dynamic client is not configured"))
          (admits h (get ref) refl, elim [ inl e ↦ tt | inr el ↦ v el ]) tt

    update_exact :
        (h : History) (el : Resource) (fail : Error → Prog) (k : Resource → Prog)
        → ((e : Error) (h' : History) → Always Q h' (fail e))
        → ((g : String) (stored : Resource)
            → Always Q ((write g el, inr stored) ∷ (resolve el.ref, inr g) ∷ h) (k stored))
        → Always Q h (update C el fail k)
    unfolding update Always
    update_exact h el fail k on_fail v =
        if-Always Q h C.has_pluralizer _ (fail (text "pluralizer cannot be nil"))
          (if-Always Q h C.has_dynamic_client
            (call (resolve el.ref) (on_result fail λ g. call (write g el) (on_result fail k)))
            (fail (text "dynamic client cannot be nil"))
            (
              admits h (resolve el.ref) refl,
              elim [
                | inl e ↦ on_fail e _
                | inr g ↦ (writes _ g el, elim [ inl e ↦ on_fail e _ | inr stored ↦ v g stored ])
              ],
            )
            (on_fail _ h))
          (on_fail _ h)

    pub handle_create-Always :
        ((h : History) (el : Resource) → IsMarked F ref el h → Q h (create_external el))
        → (h : History) → Always Q h (handle_create C ref F)
    unfolding handle_create IsMarked
    handle_create-Always creates h = if_registered-Always Q admits C ref h _ (
        fetch_exact h _ λ old. call-Always Q admits C ref _ clock _ (admits _ clock refl) λ now.
          update_exact _ (record old { object = set_external_create_pending F now old.object })
            (not_marked C ref F "cannot update managed resource") _
            (λ e h'. not_marked-Always h' _ e F)
            λ gvr stored. fetch_exact _ _ λ el.
              call-Always Q admits C ref _ (create_external el) _
                (creates _ el (old, now, gvr, stored, _, refl)) λ a. created_external-Always a.0 _)
