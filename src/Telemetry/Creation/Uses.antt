-- ===== src/Telemetry/Creation/Uses.antt =====
-- The instruments of `newMetrics` and the methods that use them (pkg/telemetry/metrics.go).
use unstructured_runtime.Prelude.{
  ℕ, zero, suc, ◌≡◌, refl, subst, Option, none, some, Bool, true, false, List, [], ◌∷◌, ◌++◌,
  String, arith, All, All-append, Bool-cases, inl, inr,
}
use unstructured_runtime.Prelude.Int.{pos, beq_ℤ}
use unstructured_runtime.Telemetry.Instruments.{Metrics, Instrument, Call, add, record_value, sum_ℤ}
use unstructured_runtime.Telemetry.Methods.{
  Method, perform, perform_all, inc_startup_success, inc_startup_failure, record_get_duration,
  inc_get_failure, record_reconcile_duration, record_queue_wait_duration,
  record_queue_work_duration, inc_reconcile_success, inc_reconcile_failure,
  inc_reconcile_requeue_after, inc_reconcile_requeue_immediate, inc_reconcile_error_requeue,
  add_reconcile_in_flight, record_observe_duration, inc_observe_failure, record_create_duration,
  inc_create_failure, record_update_duration, inc_update_failure, record_delete_duration,
  inc_delete_failure, record_finalizer_add_duration, inc_finalizer_add_failure,
  record_finalizer_remove_duration, inc_finalizer_remove_failure, record_status_update_duration,
  inc_status_update_failure, add_queue_depth, record_queue_oldest_item_age, record_connect_duration,
  inc_connect_failure,
}
use unstructured_runtime.Telemetry.Creation.{
  Kind, int64_counter, float64_histogram, int64_up_down_counter, ok, Meter, fields, new_metrics,
}
use unstructured_runtime.Telemetry.Creation.Laws.{Created, IsOutcome, new_metrics_lem}

-- What an instrument of OpenTelemetry takes: a counter only what is not negative.
unfoldable pub accepts : Kind → Call → Bool
accepts int64_counter (add i (pos n) attrs) = true
accepts int64_up_down_counter (add i n attrs) = true
accepts float64_histogram (record_value i x) = true
accepts _ _ = false

abbrev pub instrument_of : Call → Instrument
instrument_of (add i n attrs) = i
instrument_of (record_value i x) = i

abbrev pub at {ℓ} : {A : Type ℓ} → ℕ → List A → Option A
at n [] = none
at zero (x ∷ xs) = some x
at (suc n) (x ∷ xs) = at n xs

module _ {H : Type 0} (meter : Meter H) where
  -- One of the instruments is that of the call; the meter made it, of a kind that takes the call.
  unfoldable pub Served : List (Instrument × H) → Call → Type 0
  unfolding accepts
  Served hs c =
      (n : ℕ) × (kind : Kind) × (name : String) × (h : H) × (at n hs ≡ some (instrument_of c, h))
      × (meter.create kind name ≡ ok h)
      × (accepts kind c ≡ true)

  Created-at :
      (n : ℕ) (fs : List (Instrument × Kind × String)) (hs : List (Instrument × H)) (i : Instrument)
      (kind : Kind) (name : String)
      → Created meter fs hs
      → at n fs ≡ some (i, kind, name)
      → (h : H) × (at n hs ≡ some (i, h)) × (meter.create kind name ≡ ok h)
  unfolding Created
  Created-at n [] hs i kind name c h = absurd (ground (arith, h))
  Created-at n (f ∷ fs) [] i kind name c h = absurd c
  Created-at zero ((j, k, nm) ∷ fs) ((j', x) ∷ hs) i kind name (same, made, rest) h = (x, cc, cc)
  Created-at (suc n) ((j, k, nm) ∷ fs) ((j', x) ∷ hs) i kind name (same, made, rest) h =
      Created-at n fs hs i kind name rest h

module _ {H : Type 0} (meter : Meter H) (hs : List (Instrument × H))
    (made : Created meter fields hs) where
  at_field :
      (c : Call) (kind : Kind) (name : String) (n : ℕ)
      → at n fields ≡ some (instrument_of c, kind, name)
      → accepts kind c ≡ true
      → Served meter hs c
  unfolding Served
  at_field c kind name n there fits =
      let (h, here, created) =
        Created-at meter n fields hs (instrument_of c) kind name made there in
      (n, kind, name, h, here, created, fits)

  -- What a method does on a handle that is not nil.
  abbrev Serves : Option (Option Metrics × List Call) → Type 0
  Serves o = (m : Metrics) × (cs : List Call) × (o ≡ some (some m, cs)) × All (Served meter hs) cs

  once : (m : Metrics) (c : Call) → Served meter hs c → Serves (some (some m, c ∷ []))
  once m c s = (m, c ∷ [], refl, (s, tt))

  twice :
      (m : Metrics) (c c' : Call)
      → Served meter hs c
      → Served meter hs c'
      → Serves (some (some m, c ∷ c' ∷ []))
  twice m c c' s s' = (m, c ∷ c' ∷ [], refl, (s, (s', tt)))

  perform-Served : (c : Method) (m : Metrics) → Serves (perform c (some m))
  unfolding perform accepts
  perform-Served inc_startup_success m = once m _ (
      at_field (add Instrument.startup_success (pos 1) []) int64_counter
        "unstructured_runtime.startup.success" 0 refl refl)
  perform-Served inc_startup_failure m = once m _ (
      at_field (add Instrument.startup_failure (pos 1) []) int64_counter
        "unstructured_runtime.startup.failure" 1 refl refl)
  perform-Served (record_get_duration d) m = once m _ (
      at_field (record_value Instrument.get_duration d) float64_histogram
        "unstructured_runtime.reconcile.get.duration_seconds" 2 refl refl)
  perform-Served inc_get_failure m = once m _ (
      at_field (add Instrument.get_failure (pos 1) []) int64_counter
        "unstructured_runtime.reconcile.get.failure" 3 refl refl)
  perform-Served (record_reconcile_duration d) m = once m _ (
      at_field (record_value Instrument.reconcile_duration d) float64_histogram
        "unstructured_runtime.reconcile.duration_seconds" 4 refl refl)
  perform-Served (record_queue_wait_duration d) m = once m _ (
      at_field (record_value Instrument.queue_wait_duration d) float64_histogram
        "unstructured_runtime.reconcile.queue.wait.duration_seconds" 6 refl refl)
  perform-Served (record_queue_work_duration d) m = once m _ (
      at_field (record_value Instrument.queue_work_duration d) float64_histogram
        "unstructured_runtime.reconcile.queue.work.duration_seconds" 8 refl refl)
  perform-Served inc_reconcile_success m = once m _ (
      at_field (add Instrument.reconcile_success (pos 1) []) int64_counter
        "unstructured_runtime.reconcile.success" 10 refl refl)
  perform-Served inc_reconcile_failure m = once m _ (
      at_field (add Instrument.reconcile_failure (pos 1) []) int64_counter
        "unstructured_runtime.reconcile.failure" 11 refl refl)
  perform-Served (record_observe_duration d) m = once m _ (
      at_field (record_value Instrument.observe_duration d) float64_histogram
        "unstructured_runtime.external.observe.duration_seconds" 18 refl refl)
  perform-Served inc_observe_failure m = once m _ (
      at_field (add Instrument.observe_failure (pos 1) []) int64_counter
        "unstructured_runtime.external.observe.failure" 19 refl refl)
  perform-Served (record_create_duration d) m = once m _ (
      at_field (record_value Instrument.create_duration d) float64_histogram
        "unstructured_runtime.external.create.duration_seconds" 20 refl refl)
  perform-Served inc_create_failure m = once m _ (
      at_field (add Instrument.create_failure (pos 1) []) int64_counter
        "unstructured_runtime.external.create.failure" 21 refl refl)
  perform-Served (record_update_duration d) m = once m _ (
      at_field (record_value Instrument.update_duration d) float64_histogram
        "unstructured_runtime.external.update.duration_seconds" 22 refl refl)
  perform-Served inc_update_failure m = once m _ (
      at_field (add Instrument.update_failure (pos 1) []) int64_counter
        "unstructured_runtime.external.update.failure" 23 refl refl)
  perform-Served (record_delete_duration d) m = once m _ (
      at_field (record_value Instrument.delete_duration d) float64_histogram
        "unstructured_runtime.external.delete.duration_seconds" 24 refl refl)
  perform-Served inc_delete_failure m = once m _ (
      at_field (add Instrument.delete_failure (pos 1) []) int64_counter
        "unstructured_runtime.external.delete.failure" 25 refl refl)
  perform-Served (record_finalizer_add_duration d) m = once m _ (
      at_field (record_value Instrument.finalizer_add_duration d) float64_histogram
        "unstructured_runtime.finalizer.add.duration_seconds" 26 refl refl)
  perform-Served inc_finalizer_add_failure m = once m _ (
      at_field (add Instrument.finalizer_add_failure (pos 1) []) int64_counter
        "unstructured_runtime.finalizer.add.failure" 27 refl refl)
  perform-Served (record_finalizer_remove_duration d) m = once m _ (
      at_field (record_value Instrument.finalizer_remove_duration d) float64_histogram
        "unstructured_runtime.finalizer.remove.duration_seconds" 28 refl refl)
  perform-Served inc_finalizer_remove_failure m = once m _ (
      at_field (add Instrument.finalizer_remove_failure (pos 1) []) int64_counter
        "unstructured_runtime.finalizer.remove.failure" 29 refl refl)
  perform-Served (record_status_update_duration d) m = once m _ (
      at_field (record_value Instrument.status_update_duration d) float64_histogram
        "unstructured_runtime.status.update.duration_seconds" 30 refl refl)
  perform-Served inc_status_update_failure m = once m _ (
      at_field (add Instrument.status_update_failure (pos 1) []) int64_counter
        "unstructured_runtime.status.update.failure" 31 refl refl)
  perform-Served (add_queue_depth d) m = once m _ (
      at_field (add Instrument.queue_depth d []) int64_up_down_counter
        "unstructured_runtime.reconcile.queue.depth" 5 refl refl)
  perform-Served (record_queue_oldest_item_age d) m = once m _ (
      at_field (record_value Instrument.queue_oldest_item_age d) float64_histogram
        "unstructured_runtime.reconcile.queue.oldest_item_age_seconds" 7 refl refl)
  perform-Served (record_connect_duration d) m = once m _ (
      at_field (record_value Instrument.connect_duration d) float64_histogram
        "unstructured_runtime.external.connect.duration_seconds" 16 refl refl)
  perform-Served inc_connect_failure m = once m _ (
      at_field (add Instrument.connect_failure (pos 1) []) int64_counter
        "unstructured_runtime.external.connect.failure" 17 refl refl)
  perform-Served inc_reconcile_requeue_after m =
      twice m _ _
        (at_field (add Instrument.reconcile_requeue_after (pos 1) []) int64_counter
          "unstructured_runtime.reconcile.requeue.after" 12 refl refl)
        (at_field (add Instrument.queue_requeue_total (pos 1) (("reason", "after") ∷ []))
          int64_counter "unstructured_runtime.reconcile.queue.requeues" 15 refl refl)
  perform-Served inc_reconcile_requeue_immediate m =
      twice m _ _
        (at_field (add Instrument.reconcile_requeue_immediate (pos 1) []) int64_counter
          "unstructured_runtime.reconcile.requeue.immediate" 13 refl refl)
        (at_field (add Instrument.queue_requeue_total (pos 1) (("reason", "immediate") ∷ []))
          int64_counter "unstructured_runtime.reconcile.queue.requeues" 15 refl refl)
  perform-Served inc_reconcile_error_requeue m =
      twice m _ _
        (at_field (add Instrument.reconcile_error_requeue (pos 1) []) int64_counter
          "unstructured_runtime.reconcile.requeue.error" 14 refl refl)
        (at_field (add Instrument.queue_requeue_total (pos 1) (("reason", "error") ∷ []))
          int64_counter "unstructured_runtime.reconcile.queue.requeues" 15 refl refl)
  perform-Served (add_reconcile_in_flight d) m = elim (Bool-cases (beq_ℤ d (pos 0))) [
    | inl same ↦ rw same (m, [], refl, tt)
    | inr other ↦
        rw other (
          record m { reconcile_in_flight_count = sum_ℤ m.reconcile_in_flight_count d },
          [],
          refl,
          tt,
        )
  ]

  perform_all-Served : (cs : List Method) (m : Metrics) → Serves (perform_all cs (some m))
  unfolding perform_all
  perform_all-Served [] m = (m, [], refl, tt)
  perform_all-Served (c ∷ cs) m =
      let (m', now, eq, s) = perform-Served c m in
      let (m'', later, eq', s') = perform_all-Served cs m' in
      (
        m'',
        now ++ later,
        rw (eq, perform_all) (rw eq' refl),
        All-append (Served meter hs) now later s s',
      )

module _ {H : Type 0} (meter : Meter H) where
  new_metrics-Created :
      (d : String) (m : Metrics) (hs : List (Instrument × H))
      → new_metrics meter d ≡ ok (m, hs)
      → Created meter fields hs
  new_metrics-Created d m hs eq = (subst (λ r. IsOutcome meter d r) eq (new_metrics_lem meter d)).0

  -- When `newMetrics` returns a handle, then in any sequence of calls of its methods none panics, and
  -- each `Add` or `Record` is made of an instrument that the meter made, of a kind that takes it: a
  -- histogram records, a counter adds only what is not negative, and an up-down counter adds anything.
  pub new_metrics-serves :
      (d : String) (m : Metrics) (hs : List (Instrument × H)) (cs : List Method)
      → new_metrics meter d ≡ ok (m, hs)
      → (m' : Metrics) × (calls : List Call) × (perform_all cs (some m) ≡ some (some m', calls))
        × All (Served meter hs) calls
  new_metrics-serves d m hs cs eq = perform_all-Served meter hs (new_metrics-Created d m hs eq) cs m
