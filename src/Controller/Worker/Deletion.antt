-- ===== src/Controller/Worker/Deletion.antt =====
-- The order of the calls of `handleDelete` of pkg/controller/worker.go.
use unstructured_runtime.Prelude.{◌≡◌, refl, none, some, Bool, true, false, [], ◌∷◌, arith}
use unstructured_runtime.Event.{ObjectRef}
use unstructured_runtime.Controller.{Resource}
use unstructured_runtime.Controller.Worker.{
  Call, Answer, get, resolve, write, write_status, encode, observe_external, create_external,
  update_external, delete_external, clock, enqueue, recorded, Controller, Prog, done, crash, call,
  return_error,
}
use unstructured_runtime.Controller.Worker.Handlers.{deleted_external, handle_delete}
use unstructured_runtime.Controller.Worker.History.{
  Step, History, World, run, Always, Holds, is_internal, run-Holds, fetch-Always,
}
use unstructured_runtime.Controller.Worker.Handling.{
  done-Always, call-Always, if_registered-Always, deletion_failed-Always, deletion_done-Always,
}

-- The external client was asked to delete before, and returned no error.
unfoldable pub has_deleted : History → Bool
has_deleted [] = false
has_deleted ((delete_external r, (none, el)) ∷ h) = true
has_deleted ((delete_external r, (some e, el)) ∷ h) = has_deleted h
has_deleted ((get r, a) ∷ h) = has_deleted h
has_deleted ((resolve r, a) ∷ h) = has_deleted h
has_deleted ((write g r, a) ∷ h) = has_deleted h
has_deleted ((write_status g r, a) ∷ h) = has_deleted h
has_deleted ((encode r cs, a) ∷ h) = has_deleted h
has_deleted ((observe_external r, a) ∷ h) = has_deleted h
has_deleted ((create_external r, a) ∷ h) = has_deleted h
has_deleted ((update_external r, a) ∷ h) = has_deleted h
has_deleted ((clock, a) ∷ h) = has_deleted h
has_deleted ((enqueue o ev, a) ∷ h) = has_deleted h
has_deleted ((recorded reason, a) ∷ h) = has_deleted h

-- A write takes all finalizers off, after the deletion; the external client is only asked to delete,
-- and nothing is queued.
unfoldable pub IsDeletion : History → Call → Type 0
unfolding has_deleted
IsDeletion h (write g el) = (has_deleted h ≡ true) × (el.object.finalizers ≡ [])
IsDeletion h (delete_external r) = Unit
IsDeletion h (get r) = Unit
IsDeletion h (resolve r) = Unit
IsDeletion h (write_status g r) = Unit
IsDeletion h (encode r cs) = Unit
IsDeletion h (observe_external r) = ⊥
IsDeletion h (create_external r) = ⊥
IsDeletion h (update_external r) = ⊥
IsDeletion h clock = Unit
IsDeletion h (enqueue o ev) = ⊥
IsDeletion h (recorded reason) = Unit

internal-IsDeletion : (h : History) (c : Call) → is_internal c ≡ true → IsDeletion h c
unfolding IsDeletion
internal-IsDeletion h (write g el) e = absurd (ground (arith, e))
internal-IsDeletion h (delete_external r) e = tt
internal-IsDeletion h (get r) e = tt
internal-IsDeletion h (resolve r) e = tt
internal-IsDeletion h (write_status g r) e = tt
internal-IsDeletion h (encode r cs) e = tt
internal-IsDeletion h (observe_external r) e = absurd (ground (arith, e))
internal-IsDeletion h (create_external r) e = absurd (ground (arith, e))
internal-IsDeletion h (update_external r) e = absurd (ground (arith, e))
internal-IsDeletion h clock e = tt
internal-IsDeletion h (enqueue o ev) e = absurd (ground (arith, e))
internal-IsDeletion h (recorded reason) e = tt

-- What a call must satisfy once the external resource is deleted.
unfoldable Afterwards : History → Call → Type 0
Afterwards h c = has_deleted h ≡ true → IsDeletion h c

still_deleted : (s : Step) (h : History) → has_deleted h ≡ true → has_deleted (s ∷ h) ≡ true
unfolding has_deleted
still_deleted (delete_external r, (none, el)) h d = refl
still_deleted (delete_external r, (some e, el)) h d = d
still_deleted (get r, a) h d = d
still_deleted (resolve r, a) h d = d
still_deleted (write g r, a) h d = d
still_deleted (write_status g r, a) h d = d
still_deleted (encode r cs, a) h d = d
still_deleted (observe_external r, a) h d = d
still_deleted (create_external r, a) h d = d
still_deleted (update_external r, a) h d = d
still_deleted (clock, a) h d = d
still_deleted (enqueue o ev, a) h d = d
still_deleted (recorded reason, a) h d = d

Afterwards-Always :
    (p : Prog) (h : History) → has_deleted h ≡ true → Always Afterwards h p → Always IsDeletion h p
unfolding Always Afterwards
Afterwards-Always (done e) h d v = tt
Afterwards-Always crash h d v = tt
Afterwards-Always (call c k) h d (now, later) =
    (now d, λ a. Afterwards-Always (k a) ((c, a) ∷ h) (still_deleted (c, a) h d) (later a))

module _ (C : Controller) (ref : ObjectRef) where
  deletion_done-Afterwards :
      (h : History) (el : Resource) → Always Afterwards h (deleted_external C ref none el)
  unfolding Afterwards IsDeletion
  deletion_done-Afterwards h el =
      deletion_done-Always Afterwards (λ h' c e d. internal-IsDeletion h' c e) C ref
        (λ h' g el2 d. (d, refl)) h el

  deleted_external-IsDeletion :
      (h : History) (r el : Resource) (a : Answer (delete_external r))
      → Always IsDeletion ((delete_external r, a) ∷ h) (deleted_external C ref a.0 a.1)
  deleted_external-IsDeletion h r el (some e, el') =
      deletion_failed-Always IsDeletion internal-IsDeletion C ref _ e el'
  deleted_external-IsDeletion h r el (none, el') =
      Afterwards-Always (deleted_external C ref none el') _ (unfold has_deleted in refl)
        (deletion_done-Afterwards _ el')

  handle_delete-Always : (h : History) → Always IsDeletion h (handle_delete C ref)
  unfolding handle_delete IsDeletion
  handle_delete-Always h = if_registered-Always IsDeletion internal-IsDeletion C ref h _ (
      fetch-Always IsDeletion internal-IsDeletion C h ref return_error _
        (λ e h'. done-Always IsDeletion internal-IsDeletion C ref (some _) h')
        λ el h'.
          call-Always IsDeletion internal-IsDeletion C ref h' _ _ tt
            λ a. deleted_external-IsDeletion h' el el a)

  -- Whatever the cluster and the external client answer, a run of `handleDelete` writes the object
  -- only after the external client deleted without an error, and then without any finalizer; of the
  -- external client it asks nothing but to delete, and it queues nothing.
  pub handle_delete-IsDeletion :
      (W : World) (w : W.State) → Holds IsDeletion (run W (handle_delete C ref) w []).1
  unfolding Holds
  handle_delete-IsDeletion W w =
      run-Holds IsDeletion W (handle_delete C ref) w [] (handle_delete-Always []) tt
