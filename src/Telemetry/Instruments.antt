-- ===== src/Telemetry/Instruments.antt =====
-- `Metrics` of pkg/telemetry/metrics.go. A method asks the instruments of OpenTelemetry, which are
-- interfaces, to add or to record: what it asks is a list of calls, each with the field of `Metrics`
-- that holds the instrument. A nil `*Metrics` is `none`. Durations stay in nanoseconds, and the
-- context is left out.
use unstructured_runtime.Prelude.{
  ◌+◌, Option, none, some, List, [], ◌∷◌, String, if◌then◌else◌, ◌==◌, string_eq,
}
use unstructured_runtime.Prelude.Int.{ℤ, pos, pos_part, neg_part, sub_ℕ, beq_ℤ}

-- The fields that hold instruments.
pub data Instrument : Type 0 where
  startup_success : Instrument
  startup_failure : Instrument
  get_duration : Instrument
  get_failure : Instrument
  connect_duration : Instrument
  connect_failure : Instrument
  reconcile_duration : Instrument
  queue_depth : Instrument
  queue_wait_duration : Instrument
  queue_oldest_item_age : Instrument
  queue_work_duration : Instrument
  reconcile_in_flight : Instrument
  reconcile_success : Instrument
  reconcile_failure : Instrument
  reconcile_requeue_after : Instrument
  reconcile_requeue_immediate : Instrument
  reconcile_error_requeue : Instrument
  queue_requeue_total : Instrument
  observe_duration : Instrument
  observe_failure : Instrument
  create_duration : Instrument
  create_failure : Instrument
  update_duration : Instrument
  update_failure : Instrument
  delete_duration : Instrument
  delete_failure : Instrument
  finalizer_add_duration : Instrument
  finalizer_add_failure : Instrument
  finalizer_remove_duration : Instrument
  finalizer_remove_failure : Instrument
  status_update_duration : Instrument
  status_update_failure : Instrument

-- `Add` and `Record`, with the attributes of the first.
pub data Call : Type 0 where
  add : Instrument → ℤ → List (String × String) → Call
  record_value : Instrument → ℤ → Call

-- The other fields: the name, and the count that the callback of the gauge reads.
pub record Metrics : Type 0 where
  pub deployment_name : String
  pub reconcile_in_flight_count : ℤ

-- `a + b`
abbrev pub sum_ℤ : ℤ → ℤ → ℤ
sum_ℤ a b = sub_ℕ (pos_part a + pos_part b) (neg_part a + neg_part b)

unfoldable pub instance_attrs : Option Metrics → List (String × String)
instance_attrs none = []
instance_attrs (some m) =
    if m.deployment_name == "" then [] else ("service.instance.id", m.deployment_name) ∷ []

abbrev pub count_one : Instrument → Option Metrics → List Call
count_one i none = []
count_one i (some m) = add i (pos 1) [] ∷ []

abbrev pub record_one : Instrument → ℤ → Option Metrics → List Call
record_one i d none = []
record_one i d (some m) = record_value i d ∷ []

unfoldable pub record_requeue : String → Instrument → Option Metrics → List Call
record_requeue reason counter none = []
record_requeue reason counter (some m) =
    add counter (pos 1) [] ∷ add queue_requeue_total (pos 1) (("reason", reason) ∷ []) ∷ []

unfoldable pub inc_startup_success : Option Metrics → List Call
inc_startup_success m = count_one startup_success m

unfoldable pub inc_startup_failure : Option Metrics → List Call
inc_startup_failure m = count_one startup_failure m

unfoldable pub record_get_duration : ℤ → Option Metrics → List Call
record_get_duration d m = record_one get_duration d m

unfoldable pub inc_get_failure : Option Metrics → List Call
inc_get_failure m = count_one get_failure m

unfoldable pub record_reconcile_duration : ℤ → Option Metrics → List Call
record_reconcile_duration d m = record_one reconcile_duration d m

unfoldable pub record_queue_wait_duration : ℤ → Option Metrics → List Call
record_queue_wait_duration d m = record_one queue_wait_duration d m

unfoldable pub record_queue_work_duration : ℤ → Option Metrics → List Call
record_queue_work_duration d m = record_one queue_work_duration d m

unfoldable pub inc_reconcile_success : Option Metrics → List Call
inc_reconcile_success m = count_one reconcile_success m

unfoldable pub inc_reconcile_failure : Option Metrics → List Call
inc_reconcile_failure m = count_one reconcile_failure m

-- The counters are read through `m` before the call, which panics on nil.
unfoldable pub inc_reconcile_requeue_after : Option Metrics → Option (List Call)
unfolding record_requeue
inc_reconcile_requeue_after none = none
inc_reconcile_requeue_after (some m) =
    some (record_requeue "after" reconcile_requeue_after (some m))

unfoldable pub inc_reconcile_requeue_immediate : Option Metrics → Option (List Call)
unfolding record_requeue
inc_reconcile_requeue_immediate none = none
inc_reconcile_requeue_immediate (some m) =
    some (record_requeue "immediate" reconcile_requeue_immediate (some m))

unfoldable pub inc_reconcile_error_requeue : Option Metrics → Option (List Call)
unfolding record_requeue
inc_reconcile_error_requeue none = none
inc_reconcile_error_requeue (some m) =
    some (record_requeue "error" reconcile_error_requeue (some m))

unfoldable pub add_reconcile_in_flight : ℤ → Option Metrics → Option Metrics
add_reconcile_in_flight delta none = none
add_reconcile_in_flight delta (some m) =
    if beq_ℤ delta (pos 0)
    then some m
    else some (record m { reconcile_in_flight_count = sum_ℤ m.reconcile_in_flight_count delta })

unfoldable pub record_observe_duration : ℤ → Option Metrics → List Call
record_observe_duration d m = record_one observe_duration d m

unfoldable pub inc_observe_failure : Option Metrics → List Call
inc_observe_failure m = count_one observe_failure m

unfoldable pub record_create_duration : ℤ → Option Metrics → List Call
record_create_duration d m = record_one create_duration d m

unfoldable pub inc_create_failure : Option Metrics → List Call
inc_create_failure m = count_one create_failure m

unfoldable pub record_update_duration : ℤ → Option Metrics → List Call
record_update_duration d m = record_one update_duration d m

unfoldable pub inc_update_failure : Option Metrics → List Call
inc_update_failure m = count_one update_failure m

unfoldable pub record_delete_duration : ℤ → Option Metrics → List Call
record_delete_duration d m = record_one delete_duration d m

unfoldable pub inc_delete_failure : Option Metrics → List Call
inc_delete_failure m = count_one delete_failure m

unfoldable pub record_finalizer_add_duration : ℤ → Option Metrics → List Call
record_finalizer_add_duration d m = record_one finalizer_add_duration d m

unfoldable pub inc_finalizer_add_failure : Option Metrics → List Call
inc_finalizer_add_failure m = count_one finalizer_add_failure m

unfoldable pub record_finalizer_remove_duration : ℤ → Option Metrics → List Call
record_finalizer_remove_duration d m = record_one finalizer_remove_duration d m

unfoldable pub inc_finalizer_remove_failure : Option Metrics → List Call
inc_finalizer_remove_failure m = count_one finalizer_remove_failure m

unfoldable pub record_status_update_duration : ℤ → Option Metrics → List Call
record_status_update_duration d m = record_one status_update_duration d m

unfoldable pub inc_status_update_failure : Option Metrics → List Call
inc_status_update_failure m = count_one status_update_failure m

unfoldable pub add_queue_depth : ℤ → Option Metrics → List Call
add_queue_depth delta none = []
add_queue_depth delta (some m) = add queue_depth delta [] ∷ []

unfoldable pub record_queue_oldest_item_age : ℤ → Option Metrics → List Call
record_queue_oldest_item_age d m = record_one queue_oldest_item_age d m

unfoldable pub record_connect_duration : ℤ → Option Metrics → List Call
record_connect_duration d m = record_one connect_duration d m

unfoldable pub inc_connect_failure : Option Metrics → List Call
inc_connect_failure m = count_one connect_failure m
