-- ===== src/Controller/Worker/Retry.antt =====
-- `handleErr` of pkg/controller/worker.go, and what `runWorker` does before it.
use unstructured_runtime.Prelude.{
  ℕ, Option, none, some, Bool, true, [], ◌∷◌, String, Comparable, string_eq, if◌then◌else◌, update,
  leb,
}
use unstructured_runtime.Prelude.Int.{ℤ, pos}
use unstructured_runtime.PriorityQueue.Tree.{BTree}
use unstructured_runtime.PriorityQueue.State.{RateLimiter, PriorityQueue}
use unstructured_runtime.PriorityQueue.Add.{AddOpts, add_with_opts}
use unstructured_runtime.PriorityQueue.Spin.{num_requeues}
use unstructured_runtime.Errors.{Error}
use unstructured_runtime.Event.{EventType, ObjectRef, Event}
use unstructured_runtime.Controller.{digest_for_event}

-- The set of digests and the queue.
pub record Tracked (B : BTree Event) (R : RateLimiter Event) : Type 0 where
  pub items : String → Bool
  pub queue : PriorityQueue B R

abbrev pub limited : ℤ → AddOpts
limited p = record { after = pos 0; rate_limited = true; priority = p }

unfoldable pub with_queue :
    {B : BTree Event} {R : RateLimiter Event}
    → (String → Bool)
    → Option (PriorityQueue B R)
    → Option (Tracked B R)
with_queue items none = none
with_queue items (some q) = some (record { items = items; queue = q })

module _ ⦃e : Comparable Event⦄ {B : BTree Event} {R : RateLimiter Event} where
  module _ (hash : EventType → ObjectRef → String) (max_retries : ℕ) (clock : ℕ → ℕ) where
    -- `handleErr` when no other goroutine runs meanwhile. The event that is queued is the one that was
    -- processed; `none` is a fault of the queue.
    unfoldable pub handle_err : Option Error → Event → ℤ → Tracked B R → Option (Tracked B R)
    unfolding num_requeues digest_for_event with_queue
    handle_err none obj priority s = some s
    handle_err (some err) obj priority s =
        let dig = digest_for_event hash obj in
        if leb max_retries (num_requeues obj s.queue)
        then some s
        else if s.items dig
        then some s
        else with_queue (update s.items dig true)
            (add_with_opts clock (limited priority) (obj ∷ []) s.queue)
