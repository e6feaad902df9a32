-- ===== src/Telemetry/Requeues.antt =====
-- The counters of requeues of `Metrics` (pkg/telemetry/metrics.go).
use unstructured_runtime.Prelude.{
  ℕ, ◌+◌, ◌≡◌, refl, Option, some, Bool, true, false, List, [], ◌∷◌, ◌++◌, String, if◌then◌else◌,
  ◌==◌, string_eq, arith, inl, inr, Bool-cases, ap,
}
use unstructured_runtime.Prelude.Int.{ℤ, pos, pos_part, beq_ℤ}
use unstructured_runtime.Telemetry.Instruments.{
  Metrics, Instrument, Call, add, record_value, queue_requeue_total, reconcile_requeue_after,
  reconcile_requeue_immediate, reconcile_error_requeue, add_reconcile_in_flight, sum_ℤ,
}
use unstructured_runtime.Telemetry.Instruments
use unstructured_runtime.Telemetry.Methods.{Method, perform, perform_all}

-- The sum of a measure of the calls.
unfoldable pub total : (Call → ℕ) → List Call → ℕ
total f [] = 0
total f (c ∷ cs) = f c + total f cs

pub total-append : (f : Call → ℕ) (cs ds : List Call) → total f (cs ++ ds) ≡ total f cs + total f ds
unfolding total
total-append f [] ds = omega arith
total-append f (c ∷ cs) ds = omega (arith, total-append f cs ds)

pub data Reason : Type 0 where
  after : Reason
  immediate : Reason
  error : Reason

-- Whether the instrument is the counter of a reason of its own.
abbrev pub is_counter : Reason → Instrument → Bool
is_counter after i = elim i [ reconcile_requeue_after ↦ true | _ ↦ false ]
is_counter immediate i = elim i [ reconcile_requeue_immediate ↦ true | _ ↦ false ]
is_counter error i = elim i [ reconcile_error_requeue ↦ true | _ ↦ false ]

abbrev pub is_total : Instrument → Bool
is_total i = elim i [ queue_requeue_total ↦ true | _ ↦ false ]

abbrev pub reason_text : Reason → String
reason_text after = "after"
reason_text immediate = "immediate"
reason_text error = "error"

abbrev pub has_reason : String → List (String × String) → Bool
has_reason r [] = false
has_reason r ((k, v) ∷ kvs) = if k == "reason" then v == r else has_reason r kvs

-- What a call adds to the counter of the reason, to the total with the reason as an attribute, and
-- to the total.
abbrev pub counted : Reason → Call → ℕ
counted r (add i d kvs) = if is_counter r i then pos_part d else 0
counted r (record_value i d) = 0

abbrev pub labelled : Reason → Call → ℕ
labelled r (add i d kvs) =
    if is_total i then if has_reason (reason_text r) kvs then pos_part d else 0 else 0
labelled r (record_value i d) = 0

abbrev pub totalled : Call → ℕ
totalled (add i d kvs) = if is_total i then pos_part d else 0
totalled (record_value i d) = 0

-- The three counters of the reasons, and the total: `Agree` is what every method keeps.
abbrev pub Agree : List Call → Type 0
Agree cs =
    (total (labelled after) cs ≡ total (counted after) cs)
    × (total (labelled immediate) cs ≡ total (counted immediate) cs)
    × (total (labelled error) cs ≡ total (counted error) cs)
    × (total totalled cs
        ≡ total (counted after) cs + total (counted immediate) cs + total (counted error) cs)

Agree-append : (cs ds : List Call) → Agree cs → Agree ds → Agree (cs ++ ds)
Agree-append cs ds h k = ground (
  arith,
  h,
  k,
  total-append (labelled after) cs ds,
  total-append (labelled immediate) cs ds,
  total-append (labelled error) cs ds,
  total-append (counted after) cs ds,
  total-append (counted immediate) cs ds,
  total-append (counted error) cs ds,
  total-append totalled cs ds,
)

-- On a handle that is not nil every method returns, with a handle.
unfoldable pub Returned : Metrics → Option (Option Metrics × List Call) → Type 0
Returned m r = (m' : Metrics) × (cs : List Call) × (r ≡ some (some m', cs)) × Agree cs

flight_returned :
    (d : ℤ) (m : Metrics) → (m' : Metrics) × (add_reconcile_in_flight d (some m) ≡ some m')
unfolding add_reconcile_in_flight
flight_returned d m = elim (Bool-cases (beq_ℤ d (pos 0))) [
  | inl none_added ↦ (m, rw (none_added, add_reconcile_in_flight) refl)
  | inr some_added ↦ (
    record m { reconcile_in_flight_count = sum_ℤ m.reconcile_in_flight_count d },
    rw (some_added, add_reconcile_in_flight) refl,
  )
]

perform-Returned : (c : Method) (m : Metrics) → Returned m (perform c (some m))
unfolding Returned perform total Instruments.record_requeue Instruments.inc_startup_success
    Instruments.inc_startup_failure Instruments.record_get_duration Instruments.inc_get_failure
    Instruments.record_reconcile_duration Instruments.record_queue_wait_duration
    Instruments.record_queue_work_duration Instruments.inc_reconcile_success
    Instruments.inc_reconcile_failure Instruments.inc_reconcile_requeue_after
    Instruments.inc_reconcile_requeue_immediate Instruments.inc_reconcile_error_requeue
    Instruments.record_observe_duration Instruments.inc_observe_failure
    Instruments.record_create_duration Instruments.inc_create_failure
    Instruments.record_update_duration Instruments.inc_update_failure
    Instruments.record_delete_duration Instruments.inc_delete_failure
    Instruments.record_finalizer_add_duration Instruments.inc_finalizer_add_failure
    Instruments.record_finalizer_remove_duration Instruments.inc_finalizer_remove_failure
    Instruments.record_status_update_duration Instruments.inc_status_update_failure
    Instruments.add_queue_depth Instruments.record_queue_oldest_item_age
    Instruments.record_connect_duration Instruments.inc_connect_failure
perform-Returned Method.inc_startup_success m = (m, _, refl, (refl, refl, refl, refl))
perform-Returned Method.inc_startup_failure m = (m, _, refl, (refl, refl, refl, refl))
perform-Returned (Method.record_get_duration d) m = (m, _, refl, (refl, refl, refl, refl))
perform-Returned Method.inc_get_failure m = (m, _, refl, (refl, refl, refl, refl))
perform-Returned (Method.record_reconcile_duration d) m = (m, _, refl, (refl, refl, refl, refl))
perform-Returned (Method.record_queue_wait_duration d) m = (m, _, refl, (refl, refl, refl, refl))
perform-Returned (Method.record_queue_work_duration d) m = (m, _, refl, (refl, refl, refl, refl))
perform-Returned Method.inc_reconcile_success m = (m, _, refl, (refl, refl, refl, refl))
perform-Returned Method.inc_reconcile_failure m = (m, _, refl, (refl, refl, refl, refl))
perform-Returned Method.inc_reconcile_requeue_after m = (m, _, refl, (refl, refl, refl, refl))
perform-Returned Method.inc_reconcile_requeue_immediate m = (m, _, refl, (refl, refl, refl, refl))
perform-Returned Method.inc_reconcile_error_requeue m = (m, _, refl, (refl, refl, refl, refl))
perform-Returned (Method.add_reconcile_in_flight d) m =
    let (m', same) = flight_returned d m in
    (m', [], ap (λ k. some (k, [])) same, (refl, refl, refl, refl))
perform-Returned (Method.record_observe_duration d) m = (m, _, refl, (refl, refl, refl, refl))
perform-Returned Method.inc_observe_failure m = (m, _, refl, (refl, refl, refl, refl))
perform-Returned (Method.record_create_duration d) m = (m, _, refl, (refl, refl, refl, refl))
perform-Returned Method.inc_create_failure m = (m, _, refl, (refl, refl, refl, refl))
perform-Returned (Method.record_update_duration d) m = (m, _, refl, (refl, refl, refl, refl))
perform-Returned Method.inc_update_failure m = (m, _, refl, (refl, refl, refl, refl))
perform-Returned (Method.record_delete_duration d) m = (m, _, refl, (refl, refl, refl, refl))
perform-Returned Method.inc_delete_failure m = (m, _, refl, (refl, refl, refl, refl))
perform-Returned (Method.record_finalizer_add_duration d) m = (m, _, refl, (refl, refl, refl, refl))
perform-Returned Method.inc_finalizer_add_failure m = (m, _, refl, (refl, refl, refl, refl))
perform-Returned (Method.record_finalizer_remove_duration d) m =
    (m, _, refl, (refl, refl, refl, refl))
perform-Returned Method.inc_finalizer_remove_failure m = (m, _, refl, (refl, refl, refl, refl))
perform-Returned (Method.record_status_update_duration d) m = (m, _, refl, (refl, refl, refl, refl))
perform-Returned Method.inc_status_update_failure m = (m, _, refl, (refl, refl, refl, refl))
perform-Returned (Method.add_queue_depth d) m = (m, _, refl, (refl, refl, refl, refl))
perform-Returned (Method.record_queue_oldest_item_age d) m = (m, _, refl, (refl, refl, refl, refl))
perform-Returned (Method.record_connect_duration d) m = (m, _, refl, (refl, refl, refl, refl))
perform-Returned Method.inc_connect_failure m = (m, _, refl, (refl, refl, refl, refl))

pub perform_all-Returned : (cs : List Method) (m : Metrics) → Returned m (perform_all cs (some m))
unfolding Returned perform_all total
perform_all-Returned [] m = (m, [], refl, (refl, refl, refl, refl))
perform_all-Returned (c ∷ cs) m =
    let (m₁, made, first, agree) = perform-Returned c m in
    let (m₂, later, rest, agree') = perform_all-Returned cs m₁ in
    (m₂, made ++ later, rw (first, rest, perform_all) refl, Agree-append made later agree agree')
