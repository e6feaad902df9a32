-- ===== src/Instrumentation/Calls.antt =====
-- Whole calls of `InstrumentedQueue` (pkg/controller/queue_instrumentation.go), one after the other:
-- what they do to the queue that is wrapped, and which holdings of the lock they are.
use mathlib.Core.Path.{ap₂}
use unstructured_runtime.Prelude.{
  ℕ, ◌≡◌, refl, sym, ap, subst, ◌∙◌, Bool, true, false, List, [], ◌∷◌, ◌++◌, Comparable,
  if◌then◌else◌, length,
}
use unstructured_runtime.Prelude.Int.{ℤ, pos}
use unstructured_runtime.PriorityQueue.Add.{AddOpts}
use unstructured_runtime.Instrumentation.{
  Queue, Tracker, InstrumentedQueue, new_tracker, record_enqueue_at, record_dequeue_at,
  record_oldest_item_age, add, record_all, add_with_opts, add_after, add_rate_limited, get,
  get_with_priority, shut_down, shut_down_with_drain, done, forget, keys, tracked,
}
use unstructured_runtime.Instrumentation.Depth.{
  Section, enqueue, dequeue, oldest, run, run_section, gauge, run-gauge,
}

pub data Call (T : Type 0) : Type 0 where
  of_add : T → ℕ → Call T
  of_add_with_opts : AddOpts → List (T × ℕ) → Call T
  of_add_after : T → ℤ → ℕ → Call T
  of_add_rate_limited : T → ℕ → Call T
  of_get : Call T
  of_get_with_priority : Call T
  of_done : T → Call T
  of_forget : T → Call T
  of_shut_down : Call T
  of_shut_down_with_drain : Call T
  of_age : ℕ → Call T

module _ {T : Type 0} where
  abbrev enqueues : List (T × ℕ) → List (Section T)
  enqueues [] = []
  enqueues ((item, now) ∷ items) = enqueue item now ∷ enqueues items

  abbrev pub taken : T → Bool → List (Section T)
  taken item shutdown = if shutdown then [] else dequeue item ∷ []

module _ {T : Type 0} ⦃e : Comparable T⦄ (Q : Queue T) where
  unfoldable pub perform : Call T → InstrumentedQueue Q → InstrumentedQueue Q
  unfolding add add_with_opts add_after add_rate_limited get get_with_priority done forget shut_down
      shut_down_with_drain record_oldest_item_age
  perform (of_add item now) s = add item now s
  perform (of_add_with_opts o items) s = add_with_opts o items s
  perform (of_add_after item d now) s = add_after item d now s
  perform (of_add_rate_limited item now) s = add_rate_limited item now s
  perform of_get s = (get s).1
  perform of_get_with_priority s = (get_with_priority s).1
  perform (of_done item) s = done item s
  perform (of_forget item) s = forget item s
  perform of_shut_down s = shut_down s
  perform of_shut_down_with_drain s = shut_down_with_drain s
  perform (of_age now) s = tracked (record_oldest_item_age now) s

  unfoldable pub perform_all : List (Call T) → InstrumentedQueue Q → InstrumentedQueue Q
  unfolding perform
  perform_all [] s = s
  perform_all (c ∷ cs) s = perform_all cs (perform c s)

  -- The same call on the queue alone.
  unfoldable pub inner : Call T → Q.State → Q.State
  inner (of_add item now) q = Q.add item q
  inner (of_add_with_opts o items) q = Q.add_with_opts o (keys items) q
  inner (of_add_after item d now) q = Q.add_after item d q
  inner (of_add_rate_limited item now) q = Q.add_rate_limited item q
  inner of_get q = (Q.get q).1
  inner of_get_with_priority q = (Q.get_with_priority q).1
  inner (of_done item) q = Q.done item q
  inner (of_forget item) q = Q.forget item q
  inner of_shut_down q = Q.shut_down q
  inner of_shut_down_with_drain q = Q.shut_down_with_drain q
  inner (of_age now) q = q

  unfoldable pub inner_all : List (Call T) → Q.State → Q.State
  unfolding inner
  inner_all [] q = q
  inner_all (c ∷ cs) q = inner_all cs (inner c q)

  -- The holdings of the lock in a call.
  unfoldable pub sections : Call T → Q.State → List (Section T)
  sections (of_add item now) q = enqueue item now ∷ []
  sections (of_add_with_opts o items) q = enqueues items
  sections (of_add_after item d now) q = enqueue item now ∷ []
  sections (of_add_rate_limited item now) q = enqueue item now ∷ []
  sections of_get q = let ((item, shutdown), q') = Q.get q in taken item shutdown
  sections of_get_with_priority q =
      let ((item, priority, shutdown), q') = Q.get_with_priority q in taken item shutdown
  sections (of_done item) q = []
  sections (of_forget item) q = []
  sections of_shut_down q = []
  sections of_shut_down_with_drain q = []
  sections (of_age now) q = oldest now ∷ []

  unfoldable pub sections_all : List (Call T) → Q.State → List (Section T)
  unfolding sections inner
  sections_all [] q = []
  sections_all (c ∷ cs) q = sections c q ++ sections_all cs (inner c q)

  -- What a call must do to be seen through.
  abbrev Follows : InstrumentedQueue Q → InstrumentedQueue Q → Q.State → List (Section T) → Type 0
  Follows s s' q cs = (s'.queue ≡ q) × (s'.tracker ≡ run cs s.tracker)

  run-append : (cs ds : List (Section T)) (s : Tracker T) → run (cs ++ ds) s ≡ run ds (run cs s)
  unfolding run
  run-append [] ds s = refl
  run-append (c ∷ cs) ds s = run-append cs ds (run_section c s)

  record_all-Follows :
      (items : List (T × ℕ)) (s : InstrumentedQueue Q)
      → Follows s (record_all items s) s.queue (enqueues items)
  unfolding record_all run run_section
  record_all-Follows [] s = (refl, refl)
  record_all-Follows ((item, now) ∷ items) s =
      record_all-Follows items (tracked (record_enqueue_at item now) s)

  taken-Follows :
      (item : T) (shutdown : Bool) (q : Q.State) (s : InstrumentedQueue Q)
      → Follows s
          (if shutdown
            then record s { queue = q }
            else tracked (record_dequeue_at item) (record s { queue = q }))
          q
          (taken item shutdown)
  unfolding run run_section
  taken-Follows item true q s = (refl, refl)
  taken-Follows item false q s = (refl, refl)

  perform-Follows :
      (c : Call T) (s : InstrumentedQueue Q)
      → Follows s (perform c s) (inner c s.queue) (sections c s.queue)
  unfolding perform inner sections run run_section add add_with_opts add_after add_rate_limited get
      get_with_priority done forget shut_down shut_down_with_drain
  perform-Follows (of_add item now) s = (refl, refl)
  perform-Follows (of_add_with_opts o items) s =
      let (same, eq) = record_all-Follows items s in (ap (Q.add_with_opts o (keys items)) same, eq)
  perform-Follows (of_add_after item d now) s = (refl, refl)
  perform-Follows (of_add_rate_limited item now) s = (refl, refl)
  perform-Follows of_get s =
      let ((item, shutdown), q) = Q.get s.queue in taken-Follows item shutdown q s
  perform-Follows of_get_with_priority s =
      let ((item, priority, shutdown), q) = Q.get_with_priority s.queue in
      taken-Follows item shutdown q s
  perform-Follows (of_done item) s = (refl, refl)
  perform-Follows (of_forget item) s = (refl, refl)
  perform-Follows of_shut_down s = (refl, refl)
  perform-Follows of_shut_down_with_drain s = (refl, refl)
  perform-Follows (of_age now) s = (refl, refl)

  all-Follows :
      (cs : List (Call T)) (s : InstrumentedQueue Q)
      → Follows s (perform_all cs s) (inner_all cs s.queue) (sections_all cs s.queue)
  unfolding perform_all inner_all sections_all
  all-Follows [] s = (refl, unfold run in refl)
  all-Follows (c ∷ cs) s =
      let (same, eq) = perform-Follows c s in
      let (same', eq') = all-Follows cs (perform c s) in
      (
        same' ∙ ap (inner_all cs) same,
        eq'
            ∙ ap₂ (λ q t. run (sections_all cs q) t) same eq
            ∙ sym (run-append (sections c s.queue) (sections_all cs (inner c s.queue)) s.tracker),
      )

  -- The wrapper changes nothing for its queue: after any calls the queue is as the same calls on it
  -- alone leave it. What the calls of a new wrapper report adds up to the number of items it tracks.
  pub perform_all-inner :
      (cs : List (Call T)) (q : Q.State)
      → let s =
          perform_all cs (record { queue = q; tracker = new_tracker true; done_closed = false }) in
        (s.queue ≡ inner_all cs q) × (gauge s.tracker.recorded ≡ pos (length s.tracker.enqueued_at))
  perform_all-inner cs q =
      let start : InstrumentedQueue Q = record {
        queue = q;
        tracker = new_tracker true;
        done_closed = false;
      } in
      let (same, eq) = all-Follows cs start in
      (
        same,
        subst (λ t. gauge t.recorded ≡ pos (length t.enqueued_at)) (sym eq)
            (run-gauge (sections_all cs q)).1,
      )
