-- ===== src/Tests/Workers.antt =====
-- Examples of the turns of a worker and of the drain.
use unstructured_runtime.Prelude.{
  ℕ, ◌+◌, ◌*◌, ◌≡◌, ◌≤◌, refl, none, Bool, true, false, List, [], ◌∷◌, length, arith, String,
}
use unstructured_runtime.Prelude.Int.{pos}
use unstructured_runtime.Event.{EventType, ObjectRef}
use unstructured_runtime.Controller.Loop.{Any, event, unexpected, Turn, run_worker}
use unstructured_runtime.Controller.Loop.Turns.{
  sum, releases, processes, turns_with, is_unexpected, is_untraced, run_worker-releases,
}
use unstructured_runtime.Controller.Drain.{
  waiting, reconciling, clean, draining, RunState, launch, syncs, start, begin_drain, drain_for,
  initial_timeout, return_with, Step, takes, completes, cancels, expires, expired, Reach, starts,
  steps,
}
use unstructured_runtime.Controller.Drain.Order.{Promise, Reach-Promise}
use unstructured_runtime.Controller.Drain.Progress.{
  Works, Runs, stands, worked, other, Runs-bound, drain_returns,
}
use unstructured_runtime.Tests.{creation}

abbrev one_hash : EventType → ObjectRef → String
one_hash t r = "digest"

abbrev turn : Any → Bool → Turn
turn obj traced = record {
  obj = obj;
  priority = pos 0;
  shutdown = false;
  has_trace_id = traced;
  start = 10;
  finish = 12;
  err = none;
}

abbrev turns : List Turn
turns = turn (event creation) true ∷ turn (unexpected 3) true ∷ turn (event creation) false ∷ []

run_worker-releases_example :
    (sum releases (run_worker one_hash true turns) + turns_with is_untraced turns
      ≡ turns_with (λ t. true) turns)
    × (sum processes (run_worker one_hash true turns)
          + turns_with is_untraced turns
          + turns_with is_unexpected turns
        ≡ turns_with (λ t. true) turns)
run_worker-releases_example = run_worker-releases one_hash true turns

-- Two workers, one of them at work when the drain begins.
abbrev busy : RunState
busy = record (launch 2 (start none 2)) { workers = reconciling ∷ waiting ∷ [] }

busy_reached : Reach busy
unfolding start launch
busy_reached = steps (steps (starts none 2) (syncs 2 refl)) (takes [] (waiting ∷ []) refl refl)

drain_reached : Reach (begin_drain busy)
unfolding start launch
drain_reached = steps busy_reached (cancels refl)

drain_phase : (begin_drain busy).phase ≡ draining (pos 30000000000)
unfolding begin_drain drain_for start launch initial_timeout
drain_phase = refl

Reach-Promise_example : Promise (begin_drain busy).phase (begin_drain busy)
Reach-Promise_example = Reach-Promise drain_reached

drain_returns_example :
    (n : ℕ) × (s' : RunState) × Works n (begin_drain busy) s' × Step s' (return_with clean s')
drain_returns_example = drain_returns (pos 30000000000) drain_reached drain_phase

abbrev after_completion : RunState
after_completion = record (return_with expired (begin_drain busy)) {
  workers = waiting ∷ waiting ∷ [];
}

-- The grace period ends before the worker completes.
expired_meanwhile : Runs 1 (begin_drain busy) after_completion
unfolding begin_drain drain_for start launch initial_timeout return_with
expired_meanwhile =
    other (expires 30000000000 refl) refl
      (worked (completes [] (waiting ∷ []) refl) (λ e. ground (arith, e)) stands)

Runs-bound_example : 1 ≤ 2 * length (begin_drain busy).workers
Runs-bound_example = Runs-bound (pos 30000000000) drain_reached drain_phase expired_meanwhile
