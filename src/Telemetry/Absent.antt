-- ===== src/Telemetry/Absent.antt =====
-- Calls of the methods of `Metrics` on a nil handle (pkg/telemetry/metrics.go), which `Setup` gives
-- when the metrics are disabled.
use unstructured_runtime.Prelude.{
  ◌≡◌, refl, none, some, Bool, true, false, ◌||◌, List, [], ◌∷◌, if◌then◌else◌, arith,
}
use unstructured_runtime.Telemetry.Instruments.{Metrics}
use unstructured_runtime.Telemetry.Instruments
use unstructured_runtime.Telemetry.Methods.{Method, perform, perform_all}
use unstructured_runtime.Telemetry.Requeues.{Returned, perform_all-Returned}

-- The three methods that count a requeue.
abbrev pub is_requeue : Method → Bool
is_requeue c = elim c [
  | Method.inc_reconcile_requeue_after ↦ true
  | Method.inc_reconcile_requeue_immediate ↦ true
  | Method.inc_reconcile_error_requeue ↦ true
  | _ ↦ false
]

unfoldable pub any_requeue : List Method → Bool
any_requeue [] = false
any_requeue (c ∷ cs) = is_requeue c || any_requeue cs

perform-nil : (c : Method) → perform c none ≡ (if is_requeue c then none else some (none, []))
unfolding perform Instruments.inc_startup_success Instruments.inc_startup_failure
    Instruments.record_get_duration Instruments.inc_get_failure
    Instruments.record_reconcile_duration Instruments.record_queue_wait_duration
    Instruments.record_queue_work_duration Instruments.inc_reconcile_success
    Instruments.inc_reconcile_failure Instruments.inc_reconcile_requeue_after
    Instruments.inc_reconcile_requeue_immediate Instruments.inc_reconcile_error_requeue
    Instruments.add_reconcile_in_flight Instruments.record_observe_duration
    Instruments.inc_observe_failure Instruments.record_create_duration
    Instruments.inc_create_failure Instruments.record_update_duration Instruments.inc_update_failure
    Instruments.record_delete_duration Instruments.inc_delete_failure
    Instruments.record_finalizer_add_duration Instruments.inc_finalizer_add_failure
    Instruments.record_finalizer_remove_duration Instruments.inc_finalizer_remove_failure
    Instruments.record_status_update_duration Instruments.inc_status_update_failure
    Instruments.add_queue_depth Instruments.record_queue_oldest_item_age
    Instruments.record_connect_duration Instruments.inc_connect_failure
perform-nil Method.inc_startup_success = refl
perform-nil Method.inc_startup_failure = refl
perform-nil (Method.record_get_duration d) = refl
perform-nil Method.inc_get_failure = refl
perform-nil (Method.record_reconcile_duration d) = refl
perform-nil (Method.record_queue_wait_duration d) = refl
perform-nil (Method.record_queue_work_duration d) = refl
perform-nil Method.inc_reconcile_success = refl
perform-nil Method.inc_reconcile_failure = refl
perform-nil Method.inc_reconcile_requeue_after = refl
perform-nil Method.inc_reconcile_requeue_immediate = refl
perform-nil Method.inc_reconcile_error_requeue = refl
perform-nil (Method.add_reconcile_in_flight d) = refl
perform-nil (Method.record_observe_duration d) = refl
perform-nil Method.inc_observe_failure = refl
perform-nil (Method.record_create_duration d) = refl
perform-nil Method.inc_create_failure = refl
perform-nil (Method.record_update_duration d) = refl
perform-nil Method.inc_update_failure = refl
perform-nil (Method.record_delete_duration d) = refl
perform-nil Method.inc_delete_failure = refl
perform-nil (Method.record_finalizer_add_duration d) = refl
perform-nil Method.inc_finalizer_add_failure = refl
perform-nil (Method.record_finalizer_remove_duration d) = refl
perform-nil Method.inc_finalizer_remove_failure = refl
perform-nil (Method.record_status_update_duration d) = refl
perform-nil Method.inc_status_update_failure = refl
perform-nil (Method.add_queue_depth d) = refl
perform-nil (Method.record_queue_oldest_item_age d) = refl
perform-nil (Method.record_connect_duration d) = refl
perform-nil Method.inc_connect_failure = refl

perform_all-nil :
    (cs : List Method) → perform_all cs none ≡ (if any_requeue cs then none else some (none, []))
unfolding perform_all any_requeue
perform_all-nil [] = refl
perform_all-nil (c ∷ cs) = ground (arith, perform-nil c, perform_all-nil cs)

-- Whatever methods are called, in any order: on a handle that is not nil none panics, the total of the
-- requeues is the sum of the counters of the three reasons, and what it holds under a reason is the
-- counter of that reason; on nil they do nothing, unless one that counts a requeue is among them, which
-- panics.
pub perform_all_lem :
    (cs : List Method) (m : Metrics)
    → Returned m (perform_all cs (some m))
      × (perform_all cs none ≡ (if any_requeue cs then none else some (none, [])))
perform_all_lem cs m = (perform_all-Returned cs m, perform_all-nil cs)
