-- ===== src/Controller/Drain.antt =====
-- `Run` and the graceful shutdown of pkg/controller/controller.go. Each worker waits in
-- `GetWithPriority`, reconciles an event, or has left its loop. The informer, the metrics server and a
-- panic in a worker are not modelled.
pub mod Order
pub mod Progress
use unstructured_runtime.Prelude.{
  ℕ, zero, suc, ◌≡◌, ◌≢◌, refl, Option, none, some, Bool, true, false, List, [], ◌∷◌, ◌++◌, All,
}
use unstructured_runtime.Prelude.Int.{ℤ, pos, negsuc}

pub data Worker : Type 0 where
  waiting : Worker
  reconciling : Worker
  left : Worker

-- How `Run` came to return: with the error that the caches have not synced, without waiting, after all
-- workers have left, or at the end of the grace period.
pub data Outcome : Type 0 where
  unsynced : Outcome
  abrupt : Outcome
  clean : Outcome
  expired : Outcome

-- The number of workers is kept until they start. A drain holds the grace period that was read at its
-- start, in nanoseconds.
pub data Phase : Type 0 where
  syncing : ℕ → Phase
  working : Phase
  draining : ℤ → Phase
  returned : Outcome → Phase

pub record RunState : Type 0 where
  pub workers : List Worker
  pub phase : Phase
  pub graceful_shutdown_timeout : ℤ
  pub queue_down : Bool
  pub reconcile_cancelled : Bool

abbrev pub default_graceful_shutdown_period : ℕ
default_graceful_shutdown_period = 30000000000

-- The window that `New` sets.
unfoldable pub initial_timeout : Option ℤ → ℤ
initial_timeout none = pos default_graceful_shutdown_period
initial_timeout (some d) = d

abbrev pub waiting_workers : ℕ → List Worker
waiting_workers zero = []
waiting_workers (suc n) = waiting ∷ waiting_workers n

unfoldable pub start : Option ℤ → ℕ → RunState
unfolding initial_timeout
start timeout num_workers = record {
  workers = [];
  phase = syncing num_workers;
  graceful_shutdown_timeout = initial_timeout timeout;
  queue_down = false;
  reconcile_cancelled = false;
}

-- The caches have synced.
unfoldable pub launch : ℕ → RunState → RunState
launch num_workers s = record s { workers = waiting_workers num_workers; phase = working }

-- They have not: the deferred `ShutDown` runs, and there is no context of the reconciles yet.
unfoldable pub abandon : RunState → RunState
abandon s = record s { phase = returned unsynced; queue_down = true }

unfoldable pub set_graceful_shutdown_timeout : ℤ → RunState → RunState
set_graceful_shutdown_timeout d s = record s { graceful_shutdown_timeout = d }

-- `reconcileCancel` is deferred too, so that every return cancels.
unfoldable pub return_with : Outcome → RunState → RunState
return_with o s = record s { phase = returned o; reconcile_cancelled = true }

-- The drain with a grace period, after the queue was shut down.
unfoldable pub drain_for : ℤ → RunState → RunState
unfolding return_with
drain_for (pos zero) s = return_with abrupt s
drain_for (pos (suc n)) s = record s { phase = draining (pos (suc n)) }
drain_for (negsuc n) s = record s { phase = draining (negsuc n) }

-- What the cancellation of the caller's context starts.
unfoldable pub begin_drain : RunState → RunState
unfolding drain_for
begin_drain s = drain_for s.graceful_shutdown_timeout (record s { queue_down = true })

-- A step of the workers or of `Run`. A worker that is handed an event while the queue is shut down is
-- told so, and leaves.
pub data Step : RunState → RunState → Type 0 where
  syncs :
      {s : RunState} (num_workers : ℕ)
      → s.phase ≡ syncing num_workers
      → Step s (launch num_workers s)
  fails : {s : RunState} (num_workers : ℕ) → s.phase ≡ syncing num_workers → Step s (abandon s)
  takes :
      {s : RunState} (pre post : List Worker)
      → s.workers ≡ pre ++ waiting ∷ post
      → s.queue_down ≡ false
      → Step s (record s { workers = pre ++ reconciling ∷ post })
  completes :
      {s : RunState} (pre post : List Worker)
      → s.workers ≡ pre ++ reconciling ∷ post
      → Step s (record s { workers = pre ++ waiting ∷ post })
  leaves :
      {s : RunState} (pre post : List Worker)
      → s.workers ≡ pre ++ waiting ∷ post
      → s.queue_down ≡ true
      → Step s (record s { workers = pre ++ left ∷ post })
  sets : {s : RunState} (d : ℤ) → Step s (set_graceful_shutdown_timeout d s)
  cancels : {s : RunState} → s.phase ≡ working → Step s (begin_drain s)
  drains :
      {s : RunState} (grace : ℤ)
      → s.phase ≡ draining grace
      → All (λ w. w ≡ left) s.workers
      → Step s (return_with clean s)
  expires : {s : RunState} (n : ℕ) → s.phase ≡ draining (pos n) → Step s (return_with expired s)

pub data Reach : RunState → Type 0 where
  starts : (timeout : Option ℤ) (num_workers : ℕ) → Reach (start timeout num_workers)
  steps : {s s' : RunState} → Reach s → Step s s' → Reach s'
