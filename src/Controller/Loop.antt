-- ===== src/Controller/Loop.antt =====
-- A turn of the loop of `runWorker` (pkg/controller/worker.go): the calls that it makes, in order, of
-- the queue, the metrics and the worker, after `GetWithPriority` has returned. The logs are left out.
-- Times are nanoseconds, and 0 is the zero time of an event.
pub mod Turns
use unstructured_runtime.Prelude.{
  ℕ, ◌-◌, ◌≡◌, Option, none, some, Bool, true, false, List, [], ◌∷◌, ◌++◌, String, nat_beq,
  if◌then◌else◌,
}
use unstructured_runtime.Prelude.Int.{ℤ, pos, negsuc}
use unstructured_runtime.Errors.{Error}
use unstructured_runtime.Event.{EventType, ObjectRef, Event}
use unstructured_runtime.Controller.{digest_for_event}

-- What the queue holds: the type is `any`, and another value than an event is known by a number.
pub data Any : Type 0 where
  event : Event → Any
  unexpected : ℕ → Any

pub data Effect : Type 0 where
  forget : Any → Effect
  done : Any → Effect
  delete_digest : String → Effect
  process_item : Event → Effect
  handle_err : Option Error → Event → ℤ → Effect
  -- The metrics.
  reconcile_in_flight : ℤ → Effect
  queue_wait_duration : ℕ → Effect
  queue_work_duration : ℕ → Effect
  reconcile_duration : ℕ → Effect
  reconcile_success : Effect
  reconcile_failure : Effect
  reconcile_error_requeue : Effect

-- What comes from outside in a turn: the answer of the queue, whether `shortid.Generate` gives a trace
-- id, the clock before and after the processing, and what `processItem` returns.
pub record Turn : Type 0 where
  pub obj : Any
  pub priority : ℤ
  pub shutdown : Bool
  pub has_trace_id : Bool
  pub start : ℕ
  pub finish : ℕ
  pub err : Option Error

module _ (hash : EventType → ObjectRef → String) (has_metrics : Bool) where
  abbrev pub metric : Effect → List Effect
  metric m = if has_metrics then m ∷ [] else []

  abbrev pub outcome : Option Error → List Effect
  outcome none = metric reconcile_success
  outcome (some err) = metric reconcile_failure ++ metric reconcile_error_requeue

  -- The turn of an event, from the start of the processing on.
  unfoldable pub process_turn : Event → Turn → List Effect
  unfolding digest_for_event
  process_turn ev t =
      let processing = t.finish - t.start in
      let total = if nat_beq ev.queued_at 0 then processing else t.finish - ev.queued_at in
      process_item ev ∷ metric (queue_work_duration processing)
      ++ metric (reconcile_duration total)
      ++ outcome t.err
      ++ delete_digest (digest_for_event hash ev)
        ∷ forget (event ev)
        ∷ done (event ev)
        ∷ handle_err t.err ev t.priority
        ∷ metric (reconcile_in_flight (negsuc 0))

  unfoldable pub event_turn : Event → Turn → List Effect
  unfolding process_turn
  event_turn ev t =
      metric (reconcile_in_flight (pos 1))
      ++ (if nat_beq ev.queued_at 0
          then []
          else metric (queue_wait_duration (t.start - ev.queued_at)))
      ++ (if t.has_trace_id then process_turn ev t else metric (reconcile_in_flight (negsuc 0)))

  unfoldable pub object_turn : Any → Turn → List Effect
  unfolding event_turn
  object_turn (event ev) t = event_turn ev t
  object_turn (unexpected x) t =
      forget (unexpected x) ∷ done (unexpected x) ∷ metric (reconcile_in_flight (negsuc 0))

  -- The loop, as long as the queue is not shut down.
  unfoldable pub run_worker : List Turn → List Effect
  unfolding object_turn
  run_worker [] = []
  run_worker (t ∷ ts) =
      let rest = run_worker ts in if t.shutdown then [] else object_turn t.obj t ++ rest
