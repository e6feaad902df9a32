-- ===== src/Controller/Loop/Turns.antt =====
-- What every turn of `runWorker` (pkg/controller/worker.go) does.
use unstructured_runtime.Prelude.{
  ℕ, ◌+◌, ◌≡◌, Bool, true, false, List, [], ◌∷◌, ◌++◌, String, if◌then◌else◌, arith, not,
}
use unstructured_runtime.Prelude.Int.{pos_part, neg_part}
use unstructured_runtime.Event.{EventType, ObjectRef}
use unstructured_runtime.Controller.Loop.{
  event, unexpected, Effect, done, process_item, reconcile_in_flight, Turn, process_turn,
  event_turn, object_turn, run_worker,
}

-- How far a call raises and lowers the gauge of what is in flight.
abbrev pub rise : Effect → ℕ
rise e = elim e [ reconcile_in_flight d ↦ pos_part d | _ ↦ 0 ]

abbrev pub fall : Effect → ℕ
fall e = elim e [ reconcile_in_flight d ↦ neg_part d | _ ↦ 0 ]

-- The calls of `Done` and of `processItem`.
abbrev pub releases : Effect → ℕ
releases e = elim e [ done o ↦ 1 | _ ↦ 0 ]

abbrev pub processes : Effect → ℕ
processes e = elim e [ process_item ev ↦ 1 | _ ↦ 0 ]

unfoldable pub sum : (Effect → ℕ) → List Effect → ℕ
sum f [] = 0
sum f (e ∷ es) = f e + sum f es

abbrev pub one_if : Bool → ℕ
one_if b = if b then 1 else 0

-- The turns up to the shutdown that pass a test.
unfoldable pub turns_with : (Turn → Bool) → List Turn → ℕ
turns_with p [] = 0
turns_with p (t ∷ ts) = let rest = turns_with p ts in if t.shutdown then 0 else one_if (p t) + rest

abbrev pub is_unexpected : Turn → Bool
is_unexpected t = elim t.obj [ event ev ↦ false | unexpected x ↦ true ]

-- An event whose turn got no trace id.
abbrev pub is_untraced : Turn → Bool
is_untraced t = elim t.obj [ event ev ↦ not t.has_trace_id | unexpected x ↦ false ]

pub sum-append : (f : Effect → ℕ) (es fs : List Effect) → sum f (es ++ fs) ≡ sum f es + sum f fs
unfolding sum
sum-append f [] fs = omega arith
sum-append f (e ∷ es) fs = omega (arith, sum-append f es fs)

module _ (hash : EventType → ObjectRef → String) where
  module _ (t : Turn) where
    pub turn_balance :
        sum rise (object_turn hash true t.obj t) + one_if (is_unexpected t)
        ≡ sum fall (object_turn hash true t.obj t)
    unfolding object_turn event_turn process_turn sum
    turn_balance = ground arith

    turn_releases :
        (has_metrics : Bool)
        → sum releases (object_turn hash has_metrics t.obj t) + one_if (is_untraced t) ≡ 1
    unfolding object_turn event_turn process_turn sum
    turn_releases has_metrics = ground arith

    turn_processes :
        (has_metrics : Bool)
        → sum processes (object_turn hash has_metrics t.obj t)
            + one_if (is_untraced t)
            + one_if (is_unexpected t)
          ≡ 1
    unfolding object_turn event_turn process_turn sum
    turn_processes has_metrics = ground arith

  -- The turns of a worker lower the gauge of what is in flight exactly as often as they raise it, and
  -- once more for every value in the queue that is no event: with events alone it comes back to 0.
  pub run_worker-in_flight :
      (ts : List Turn)
      → sum rise (run_worker hash true ts) + turns_with is_unexpected ts
        ≡ sum fall (run_worker hash true ts)
  unfolding run_worker sum turns_with
  run_worker-in_flight [] = omega arith
  run_worker-in_flight (t ∷ ts) = ground (
    arith,
    sum-append rise (object_turn hash true t.obj t) (run_worker hash true ts),
    sum-append fall (object_turn hash true t.obj t) (run_worker hash true ts),
    turn_balance t,
    run_worker-in_flight ts,
  )

  -- Every turn before the shutdown processes its event once and calls `Done` once, with or without
  -- metrics, but for two: a value that is no event is not processed, and an event that gets no trace
  -- id is neither processed nor released.
  pub run_worker-releases :
      (has_metrics : Bool) (ts : List Turn)
      → (sum releases (run_worker hash has_metrics ts) + turns_with is_untraced ts
          ≡ turns_with (λ t. true) ts)
        × (sum processes (run_worker hash has_metrics ts)
              + turns_with is_untraced ts
              + turns_with is_unexpected ts
            ≡ turns_with (λ t. true) ts)
  unfolding run_worker sum turns_with
  run_worker-releases m [] = (omega arith, omega arith)
  run_worker-releases m (t ∷ ts) =
      let (released, processed) = run_worker-releases m ts in
      (
        ground (
          arith,
          sum-append releases (object_turn hash m t.obj t) (run_worker hash m ts),
          turn_releases t m,
          released,
        ),
        ground (
          arith,
          sum-append processes (object_turn hash m t.obj t) (run_worker hash m ts),
          turn_processes t m,
          processed,
        ),
      )
