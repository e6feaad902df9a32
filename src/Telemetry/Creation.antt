-- ===== src/Telemetry/Creation.antt =====
-- `newMetrics` of pkg/telemetry/metrics.go. A meter of OpenTelemetry is an interface: it makes an
-- instrument of a kind with a name, or fails.
pub mod Laws
pub mod Uses
use unstructured_runtime.Prelude.{
  ◌≡◌, refl, ◌⊎◌, inl, inr, Option, none, some, List, [], ◌∷◌, String,
}
use unstructured_runtime.Prelude.Int.{pos}
use unstructured_runtime.Errors.{Error}
use unstructured_runtime.Telemetry.Instruments.{Metrics, Instrument}

pub data Kind : Type 0 where
  int64_counter : Kind
  float64_histogram : Kind
  int64_up_down_counter : Kind
  int64_observable_gauge : Kind

-- A value, or an error.
pub data Result {ℓ} (A : Type ℓ) : Type ℓ where
  ok : A → Result A
  failed : Error → Result A

pub record Meter (H : Type 0) : Type 0 where
  pub create : Kind → String → Result H
  pub register_callback : Option Error

-- The fields, in the order in which they are assigned, each with what is asked of the meter.
abbrev pub fields : List (Instrument × Kind × String)
fields =
    (Instrument.startup_success, int64_counter, "unstructured_runtime.startup.success")
    ∷ (Instrument.startup_failure, int64_counter, "unstructured_runtime.startup.failure")
    ∷ (
      Instrument.get_duration, float64_histogram,
      "unstructured_runtime.reconcile.get.duration_seconds",
    )
    ∷ (Instrument.get_failure, int64_counter, "unstructured_runtime.reconcile.get.failure")
    ∷ (
      Instrument.reconcile_duration, float64_histogram,
      "unstructured_runtime.reconcile.duration_seconds",
    )
    ∷ (Instrument.queue_depth, int64_up_down_counter, "unstructured_runtime.reconcile.queue.depth")
    ∷ (
      Instrument.queue_wait_duration, float64_histogram,
      "unstructured_runtime.reconcile.queue.wait.duration_seconds",
    )
    ∷ (
      Instrument.queue_oldest_item_age, float64_histogram,
      "unstructured_runtime.reconcile.queue.oldest_item_age_seconds",
    )
    ∷ (
      Instrument.queue_work_duration, float64_histogram,
      "unstructured_runtime.reconcile.queue.work.duration_seconds",
    )
    ∷ (
      Instrument.reconcile_in_flight, int64_observable_gauge,
      "unstructured_runtime.reconcile.in_flight",
    )
    ∷ (Instrument.reconcile_success, int64_counter, "unstructured_runtime.reconcile.success")
    ∷ (Instrument.reconcile_failure, int64_counter, "unstructured_runtime.reconcile.failure")
    ∷ (
      Instrument.reconcile_requeue_after, int64_counter,
      "unstructured_runtime.reconcile.requeue.after",
    )
    ∷ (
      Instrument.reconcile_requeue_immediate, int64_counter,
      "unstructured_runtime.reconcile.requeue.immediate",
    )
    ∷ (
      Instrument.reconcile_error_requeue, int64_counter,
      "unstructured_runtime.reconcile.requeue.error",
    )
    ∷ (
      Instrument.queue_requeue_total, int64_counter,
      "unstructured_runtime.reconcile.queue.requeues",
    )
    ∷ (
      Instrument.connect_duration, float64_histogram,
      "unstructured_runtime.external.connect.duration_seconds",
    )
    ∷ (Instrument.connect_failure, int64_counter, "unstructured_runtime.external.connect.failure")
    ∷ (
      Instrument.observe_duration, float64_histogram,
      "unstructured_runtime.external.observe.duration_seconds",
    )
    ∷ (Instrument.observe_failure, int64_counter, "unstructured_runtime.external.observe.failure")
    ∷ (
      Instrument.create_duration, float64_histogram,
      "unstructured_runtime.external.create.duration_seconds",
    )
    ∷ (Instrument.create_failure, int64_counter, "unstructured_runtime.external.create.failure")
    ∷ (
      Instrument.update_duration, float64_histogram,
      "unstructured_runtime.external.update.duration_seconds",
    )
    ∷ (Instrument.update_failure, int64_counter, "unstructured_runtime.external.update.failure")
    ∷ (
      Instrument.delete_duration, float64_histogram,
      "unstructured_runtime.external.delete.duration_seconds",
    )
    ∷ (Instrument.delete_failure, int64_counter, "unstructured_runtime.external.delete.failure")
    ∷ (
      Instrument.finalizer_add_duration, float64_histogram,
      "unstructured_runtime.finalizer.add.duration_seconds",
    )
    ∷ (
      Instrument.finalizer_add_failure, int64_counter, "unstructured_runtime.finalizer.add.failure",
    )
    ∷ (
      Instrument.finalizer_remove_duration, float64_histogram,
      "unstructured_runtime.finalizer.remove.duration_seconds",
    )
    ∷ (
      Instrument.finalizer_remove_failure, int64_counter,
      "unstructured_runtime.finalizer.remove.failure",
    )
    ∷ (
      Instrument.status_update_duration, float64_histogram,
      "unstructured_runtime.status.update.duration_seconds",
    )
    ∷ (
      Instrument.status_update_failure, int64_counter, "unstructured_runtime.status.update.failure",
    )
    ∷ []

-- The instruments that are made, up to the first that fails.
unfoldable pub create_all :
    {H : Type 0} → Meter H → List (Instrument × Kind × String) → Result (List (Instrument × H))
create_all meter [] = ok []
create_all meter ((i, kind, name) ∷ rest) =
    let later = create_all meter rest in
    elim (meter.create kind name) [
      | failed e ↦ failed e
      | ok h ↦ elim later [ failed e ↦ failed e | ok hs ↦ ok ((i, h) ∷ hs) ]
    ]

-- The handle, with the instrument of each field.
unfoldable pub new_metrics :
    {H : Type 0} → Meter H → String → Result (Metrics × List (Instrument × H))
unfolding create_all
new_metrics meter deployment_name = elim (create_all meter fields) [
  | failed e ↦ failed e
  | ok hs ↦ elim meter.register_callback [
    | some e ↦ failed e
    | none ↦
        ok (record { deployment_name = deployment_name; reconcile_in_flight_count = pos 0 }, hs)
  ]
]
