-- ===== src/Telemetry/Methods.antt =====
-- Calls of the methods of `Metrics` (pkg/telemetry/metrics.go), one after another.
use unstructured_runtime.Prelude.{Option, none, some, List, [], ◌∷◌, ◌++◌}
use unstructured_runtime.Prelude.Int.{ℤ}
use unstructured_runtime.Telemetry.Instruments.{Metrics, Call}
use unstructured_runtime.Telemetry.Instruments

-- A call of an exported method.
pub data Method : Type 0 where
  inc_startup_success : Method
  inc_startup_failure : Method
  record_get_duration : ℤ → Method
  inc_get_failure : Method
  record_reconcile_duration : ℤ → Method
  record_queue_wait_duration : ℤ → Method
  record_queue_work_duration : ℤ → Method
  inc_reconcile_success : Method
  inc_reconcile_failure : Method
  inc_reconcile_requeue_after : Method
  inc_reconcile_requeue_immediate : Method
  inc_reconcile_error_requeue : Method
  add_reconcile_in_flight : ℤ → Method
  record_observe_duration : ℤ → Method
  inc_observe_failure : Method
  record_create_duration : ℤ → Method
  inc_create_failure : Method
  record_update_duration : ℤ → Method
  inc_update_failure : Method
  record_delete_duration : ℤ → Method
  inc_delete_failure : Method
  record_finalizer_add_duration : ℤ → Method
  inc_finalizer_add_failure : Method
  record_finalizer_remove_duration : ℤ → Method
  inc_finalizer_remove_failure : Method
  record_status_update_duration : ℤ → Method
  inc_status_update_failure : Method
  add_queue_depth : ℤ → Method
  record_queue_oldest_item_age : ℤ → Method
  record_connect_duration : ℤ → Method
  inc_connect_failure : Method

abbrev pub keep : Option Metrics → Option (List Call) → Option (Option Metrics × List Call)
keep m none = none
keep m (some cs) = some (m, cs)

-- The handle after a call, and what the call asks of the instruments; `none` is a panic.
unfoldable pub perform : Method → Option Metrics → Option (Option Metrics × List Call)
unfolding Instruments.inc_startup_success Instruments.inc_startup_failure
    Instruments.inc_get_failure Instruments.inc_reconcile_success Instruments.inc_reconcile_failure
    Instruments.inc_reconcile_requeue_after Instruments.inc_reconcile_requeue_immediate
    Instruments.inc_reconcile_error_requeue Instruments.inc_observe_failure
    Instruments.inc_create_failure Instruments.inc_update_failure Instruments.inc_delete_failure
    Instruments.inc_finalizer_add_failure Instruments.inc_finalizer_remove_failure
    Instruments.inc_status_update_failure Instruments.inc_connect_failure
    Instruments.record_get_duration Instruments.record_reconcile_duration
    Instruments.record_queue_wait_duration Instruments.record_queue_work_duration
    Instruments.add_reconcile_in_flight Instruments.record_observe_duration
    Instruments.record_create_duration Instruments.record_update_duration
    Instruments.record_delete_duration Instruments.record_finalizer_add_duration
    Instruments.record_finalizer_remove_duration Instruments.record_status_update_duration
    Instruments.add_queue_depth Instruments.record_queue_oldest_item_age
    Instruments.record_connect_duration
perform inc_startup_success m = some (m, Instruments.inc_startup_success m)
perform inc_startup_failure m = some (m, Instruments.inc_startup_failure m)
perform (record_get_duration d) m = some (m, Instruments.record_get_duration d m)
perform inc_get_failure m = some (m, Instruments.inc_get_failure m)
perform (record_reconcile_duration d) m = some (m, Instruments.record_reconcile_duration d m)
perform (record_queue_wait_duration d) m = some (m, Instruments.record_queue_wait_duration d m)
perform (record_queue_work_duration d) m = some (m, Instruments.record_queue_work_duration d m)
perform inc_reconcile_success m = some (m, Instruments.inc_reconcile_success m)
perform inc_reconcile_failure m = some (m, Instruments.inc_reconcile_failure m)
perform inc_reconcile_requeue_after m = keep m (Instruments.inc_reconcile_requeue_after m)
perform inc_reconcile_requeue_immediate m = keep m (Instruments.inc_reconcile_requeue_immediate m)
perform inc_reconcile_error_requeue m = keep m (Instruments.inc_reconcile_error_requeue m)
perform (add_reconcile_in_flight d) m = some (Instruments.add_reconcile_in_flight d m, [])
perform (record_observe_duration d) m = some (m, Instruments.record_observe_duration d m)
perform inc_observe_failure m = some (m, Instruments.inc_observe_failure m)
perform (record_create_duration d) m = some (m, Instruments.record_create_duration d m)
perform inc_create_failure m = some (m, Instruments.inc_create_failure m)
perform (record_update_duration d) m = some (m, Instruments.record_update_duration d m)
perform inc_update_failure m = some (m, Instruments.inc_update_failure m)
perform (record_delete_duration d) m = some (m, Instruments.record_delete_duration d m)
perform inc_delete_failure m = some (m, Instruments.inc_delete_failure m)
perform (record_finalizer_add_duration d) m =
    some (m, Instruments.record_finalizer_add_duration d m)
perform inc_finalizer_add_failure m = some (m, Instruments.inc_finalizer_add_failure m)
perform (record_finalizer_remove_duration d) m =
    some (m, Instruments.record_finalizer_remove_duration d m)
perform inc_finalizer_remove_failure m = some (m, Instruments.inc_finalizer_remove_failure m)
perform (record_status_update_duration d) m =
    some (m, Instruments.record_status_update_duration d m)
perform inc_status_update_failure m = some (m, Instruments.inc_status_update_failure m)
perform (add_queue_depth d) m = some (m, Instruments.add_queue_depth d m)
perform (record_queue_oldest_item_age d) m = some (m, Instruments.record_queue_oldest_item_age d m)
perform (record_connect_duration d) m = some (m, Instruments.record_connect_duration d m)
perform inc_connect_failure m = some (m, Instruments.inc_connect_failure m)

unfoldable pub perform_all : List Method → Option Metrics → Option (Option Metrics × List Call)
perform_all [] m = some (m, [])
perform_all (c ∷ cs) m = elim (perform c m) [
  | none ↦ none
  | some (m', made) ↦ elim (perform_all cs m') [
    | none ↦ none
    | some (m'', later) ↦ some (m'', made ++ later)
  ]
]
