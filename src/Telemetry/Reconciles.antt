-- ===== src/Telemetry/Reconciles.antt =====
-- What the metrics of pkg/telemetry/metrics.go hold after the turns of a worker
-- (`runWorker` of pkg/controller/worker.go).
use unstructured_runtime.Prelude.{
  ◌+◌, ◌≡◌, none, some, Bool, true, false, ◌&&◌, List, [], ◌∷◌, String, arith,
}
use unstructured_runtime.Prelude.Int.{pos, sub_ℕ}
use unstructured_runtime.Event.{EventType, ObjectRef}
use unstructured_runtime.Controller.Loop.{
  event, unexpected, Turn, process_turn, event_turn, object_turn, run_worker,
}
use unstructured_runtime.Controller.Loop.Turns.{
  processes, sum, sum-append, one_if, turns_with, is_unexpected, run_worker-in_flight,
}
use unstructured_runtime.Telemetry.Instruments.{Metrics, Call}
use unstructured_runtime.Telemetry.Methods.{perform_all}
use unstructured_runtime.Telemetry.Requeues.{total, Reason, counted}
use unstructured_runtime.Telemetry.Effects.{
  all_methods, successes, failures, succeeds, fails, requeues, effects-After,
}

-- An event that is processed with an error.
abbrev pub is_failing : Turn → Bool
is_failing t = elim t.obj [
  | event ev ↦ t.has_trace_id && elim t.err [ none ↦ false | some e ↦ true ]
  | unexpected x ↦ false
]

module _ (hash : EventType → ObjectRef → String) where
  turn_outcomes :
      (t : Turn)
      → (sum succeeds (object_turn hash true t.obj t) + sum fails (object_turn hash true t.obj t)
          ≡ sum processes (object_turn hash true t.obj t))
        × (sum fails (object_turn hash true t.obj t) ≡ one_if (is_failing t))
        × (sum requeues (object_turn hash true t.obj t) ≡ one_if (is_failing t))
  unfolding object_turn event_turn process_turn sum
  turn_outcomes t = (ground arith, ground arith, ground arith)

  run_outcomes :
      (ts : List Turn)
      → (sum succeeds (run_worker hash true ts) + sum fails (run_worker hash true ts)
          ≡ sum processes (run_worker hash true ts))
        × (sum fails (run_worker hash true ts) ≡ turns_with is_failing ts)
        × (sum requeues (run_worker hash true ts) ≡ turns_with is_failing ts)
  unfolding run_worker sum turns_with
  run_outcomes [] = (omega arith, omega arith, omega arith)
  run_outcomes (t ∷ ts) =
      let (all, bad, again) = run_outcomes ts in
      let (all₁, bad₁, again₁) = turn_outcomes t in
      let turn = object_turn hash true t.obj t in
      let rest = run_worker hash true ts in
      (
        ground (
          arith,
          all,
          all₁,
          sum-append succeeds turn rest,
          sum-append fails turn rest,
          sum-append processes turn rest,
        ),
        ground (arith, bad, bad₁, sum-append fails turn rest),
        ground (arith, again, again₁, sum-append requeues turn rest),
      )

  -- After the turns of a worker whose metrics are not nil, with nothing in flight before: no call of
  -- the metrics panics, the gauge of what is in flight is 0, less one for every value in the queue
  -- that is no event; the successes and the failures together are the runs of `processItem`; and the
  -- failures, and with them the requeues after an error, are the events processed with an error.
  pub run_worker-measured :
      (ts : List Turn) (m : Metrics)
      → m.reconcile_in_flight_count ≡ pos 0
      → (m' : Metrics) × (cs : List Call) × (perform_all
            (all_methods (run_worker hash true ts))
            (some m)
          ≡ some (some m', cs))
        × (m'.reconcile_in_flight_count ≡ sub_ℕ 0 (turns_with is_unexpected ts))
        × (total successes cs + total failures cs ≡ sum processes (run_worker hash true ts))
        × (total failures cs ≡ turns_with is_failing ts)
        × (total (counted Reason.error) cs ≡ turns_with is_failing ts)
  run_worker-measured ts m idle =
      let (m', cs, made, (balance, ok, bad, again)) = effects-After (run_worker hash true ts) m in
      let (all, failing, requeued) = run_outcomes ts in
      (
        m',
        cs,
        made,
        ground (arith, balance, idle, run_worker-in_flight hash ts),
        omega arith,
        omega arith,
        omega arith,
      )
