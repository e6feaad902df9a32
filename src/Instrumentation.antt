-- ===== src/Instrumentation.antt =====
-- `InstrumentedQueue` of pkg/controller/queue_instrumentation.go. Each of `recordEnqueueAt`,
-- `recordDequeueAt` and `recordOldestItemAge` holds the lock from its start to its end; other
-- goroutines run between them and the calls of the queue.
pub mod Depth
pub mod Tracking
pub mod Calls
pub mod Age
use unstructured_runtime.Prelude.{
  ℕ, ◌-◌, ◌+◌, Option, none, some, Bool, true, false, List, [], ◌∷◌, ◌++◌, Comparable, ltb,
  if◌then◌else◌, find, insert, erase,
}
use unstructured_runtime.Prelude.Int.{ℤ, pos, negsuc}
use unstructured_runtime.PriorityQueue.Add.{AddOpts}

-- The interface `PriorityQueue` that is wrapped; `get` is the call once it returns.
pub record Queue (T : Type 0) : Type 1 where
  pub State : Type 0
  pub add : T → State → State
  pub add_with_opts : AddOpts → List T → State → State
  pub add_after : T → ℤ → State → State
  pub add_rate_limited : T → State → State
  pub get : State → (T × Bool) × State
  pub get_with_priority : State → (T × ℤ × Bool) × State
  pub done : T → State → State
  pub shut_down : State → State
  pub shut_down_with_drain : State → State
  pub shutting_down : State → Bool
  pub len : State → ℕ
  pub num_requeues : T → State → ℕ
  pub forget : T → State → State

-- The calls of the recorder, the newest first.
pub data Recorded : Type 0 where
  add_queue_depth : ℤ → Recorded
  record_queue_oldest_item_age : ℕ → Recorded

-- The map with the times in nanoseconds, the calls of the recorder, and whether there is one.
pub record Tracker (T : Type 0) : Type 0 where
  pub enqueued_at : List (T × ℕ)
  pub has_recorder : Bool
  pub recorded : List Recorded

pub record InstrumentedQueue {T : Type 0} (Q : Queue T) : Type 0 where
  pub queue : Q.State
  pub tracker : Tracker T
  pub done_closed : Bool

unfoldable pub new_tracker : {T : Type 0} → Bool → Tracker T
new_tracker has_recorder = record { enqueued_at = []; has_recorder = has_recorder; recorded = [] }

module _ {T : Type 0} where
  abbrev pub keys : List (T × ℕ) → List T
  keys [] = []
  keys ((item, now) ∷ items) = item ∷ keys items

  abbrev pub call : Recorded → Tracker T → Tracker T
  call c s = if s.has_recorder then record s { recorded = c ∷ s.recorded } else s

  -- The largest positive age.
  unfoldable pub oldest_age : ℕ → List (T × ℕ) → ℕ → ℕ
  oldest_age now [] oldest = oldest
  oldest_age now ((item, time) ∷ m) oldest =
      oldest_age now m (if ltb oldest (now - time) then now - time else oldest)

  unfoldable pub record_oldest_item_age : ℕ → Tracker T → Tracker T
  unfolding oldest_age
  record_oldest_item_age now s =
      let oldest = oldest_age now s.enqueued_at 0 in
      if ltb 0 oldest then call (record_queue_oldest_item_age oldest) s else s

module _ {T : Type 0} ⦃e : Comparable T⦄ where
  unfoldable pub record_enqueue_at : T → ℕ → Tracker T → Tracker T
  record_enqueue_at item now s = elim (find item s.enqueued_at) [
    | none ↦
        call (add_queue_depth (pos 1)) (record s { enqueued_at = insert item now s.enqueued_at })
    | some t ↦ s
  ]

  unfoldable pub record_dequeue_at : T → Tracker T → Tracker T
  record_dequeue_at item s = elim (find item s.enqueued_at) [
    | none ↦ s
    | some t ↦
        call (add_queue_depth (negsuc 0)) (record s { enqueued_at = erase item s.enqueued_at })
  ]

  module _ {Q : Queue T} where
    abbrev pub tracked : (Tracker T → Tracker T) → InstrumentedQueue Q → InstrumentedQueue Q
    tracked f s = record s { tracker = f s.tracker }

    abbrev pub queued : (Q.State → Q.State) → InstrumentedQueue Q → InstrumentedQueue Q
    queued f s = record s { queue = f s.queue }

    unfoldable pub add : T → ℕ → InstrumentedQueue Q → InstrumentedQueue Q
    unfolding record_enqueue_at
    add item now s = queued (Q.add item) (tracked (record_enqueue_at item now) s)

    -- Each item with the time at which it is recorded.
    unfoldable pub record_all : List (T × ℕ) → InstrumentedQueue Q → InstrumentedQueue Q
    unfolding record_enqueue_at
    record_all [] s = s
    record_all ((item, now) ∷ items) s = record_all items (tracked (record_enqueue_at item now) s)

    unfoldable pub add_with_opts :
        AddOpts → List (T × ℕ) → InstrumentedQueue Q → InstrumentedQueue Q
    unfolding record_all
    add_with_opts o items s = queued (Q.add_with_opts o (keys items)) (record_all items s)

    unfoldable pub add_after : T → ℤ → ℕ → InstrumentedQueue Q → InstrumentedQueue Q
    unfolding record_enqueue_at
    add_after item duration now s =
        queued (Q.add_after item duration) (tracked (record_enqueue_at item now) s)

    unfoldable pub add_rate_limited : T → ℕ → InstrumentedQueue Q → InstrumentedQueue Q
    unfolding record_enqueue_at
    add_rate_limited item now s =
        queued (Q.add_rate_limited item) (tracked (record_enqueue_at item now) s)

    unfoldable pub get : InstrumentedQueue Q → (T × Bool) × InstrumentedQueue Q
    unfolding record_dequeue_at
    get s =
        let ((item, shutdown), queue) = Q.get s.queue in
        let taken = record s { queue = queue } in
        ((item, shutdown), if shutdown then taken else tracked (record_dequeue_at item) taken)

    unfoldable pub get_with_priority : InstrumentedQueue Q → (T × ℤ × Bool) × InstrumentedQueue Q
    unfolding record_dequeue_at
    get_with_priority s =
        let ((item, priority, shutdown), queue) = Q.get_with_priority s.queue in
        let taken = record s { queue = queue } in
        (
          (item, priority, shutdown),
          if shutdown then taken else tracked (record_dequeue_at item) taken,
        )

    -- Closing the channel a second time would panic; the first call only closes it.
    unfoldable pub shut_down : InstrumentedQueue Q → InstrumentedQueue Q
    shut_down s = queued Q.shut_down (record s { done_closed = true })

    unfoldable pub shut_down_with_drain : InstrumentedQueue Q → InstrumentedQueue Q
    shut_down_with_drain s = queued Q.shut_down_with_drain (record s { done_closed = true })

    unfoldable pub done : T → InstrumentedQueue Q → InstrumentedQueue Q
    done item = queued (Q.done item)

    unfoldable pub forget : T → InstrumentedQueue Q → InstrumentedQueue Q
    forget item = queued (Q.forget item)

    unfoldable pub shutting_down : InstrumentedQueue Q → Bool
    shutting_down s = Q.shutting_down s.queue

    unfoldable pub len : InstrumentedQueue Q → ℕ
    len s = Q.len s.queue

    unfoldable pub num_requeues : T → InstrumentedQueue Q → ℕ
    num_requeues item s = Q.num_requeues item s.queue
