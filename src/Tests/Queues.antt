-- ===== src/Tests/Queues.antt =====
-- Examples of the queue.
use unstructured_runtime.Prelude.{
  ℕ, ◌+◌, ◌^◌, ◌<◌, ◌≡◌, refl, ap, List, some, true, false, [], ◌∷◌, ◌++◌, nat_eq, length, select,
  take, arith,
}
use unstructured_runtime.Prelude.Int.{pos}
use unstructured_runtime.PriorityQueue.Tree.{list_tree, tally}
use unstructured_runtime.PriorityQueue.State.{PriorityQueue, MetricCall, new}
use unstructured_runtime.PriorityQueue.Add.{AddOpts, add_with_opts}
use unstructured_runtime.PriorityQueue.Add.Invariant.{add_with_opts-IsValid}
use unstructured_runtime.PriorityQueue.Add.Merging.{view, join_all, view-add_with_opts}
use unstructured_runtime.PriorityQueue.Invariant.{IsValid, new-IsValid, weight}
use unstructured_runtime.PriorityQueue.Metrics.{measured}
use unstructured_runtime.PriorityQueue.Metrics.Readings.{calls, measured-depth}
use unstructured_runtime.PriorityQueue.Spin.{spin_round, begin_get, finish, len}
use unstructured_runtime.PriorityQueue.Spin.Exclusion.{
  NoTwins, drop_key, Reach, start, next, adds, gets, finishes, Reach-NoTwins,
}
use unstructured_runtime.PriorityQueue.Spin.Order.{
  is_ready, quiet, can_go, len_lem, spin_round_delivers,
}
use unstructured_runtime.PriorityQueue.Spin.Reachability.{keys_added, Reach-IsValid}
use unstructured_runtime.Tests.{counting}

abbrev Queue : Type 0
Queue = PriorityQueue (list_tree ℕ) (counting ℕ)

abbrev no_failures : ℕ → ℕ
no_failures k = 0

abbrev empty_queue : Queue
empty_queue = new (list_tree ℕ) (counting ℕ) no_failures

abbrev urgent : AddOpts
urgent = record { after = pos 0; rate_limited = false; priority = pos 100 }

abbrev retried : AddOpts
retried = record { after = pos 0; rate_limited = true; priority = pos 0 }

room : empty_queue.added_counter + length {A = ℕ} (7 ∷ 8 ∷ []) < 2 ^ 64
unfolding new
room = omega arith

running : empty_queue.shutdown ≡ false
unfolding new
running = refl

view-add_with_opts_example :
    (s' : Queue) × (add_with_opts (λ n. 3) retried (7 ∷ 7 ∷ []) empty_queue ≡ some s')
    × (view s'
        ≡ join_all
            (counting ℕ)
            (λ n. 3)
            retried
            (7 ∷ 7 ∷ [])
            empty_queue.rate_limiter
            (view empty_queue))
view-add_with_opts_example =
    view-add_with_opts (λ n. 3) retried (7 ∷ 7 ∷ []) empty_queue
      (new-IsValid (list_tree ℕ) (counting ℕ) no_failures) room running

-- Two items of high priority, one `Get` that waits.
abbrev filled : Queue
filled =
    (add_with_opts-IsValid (λ n. 3) urgent (7 ∷ 8 ∷ []) empty_queue
      (new-IsValid (list_tree ℕ) (counting ℕ) no_failures) room).0

filled-IsValid : IsValid filled
filled-IsValid =
    (add_with_opts-IsValid (λ n. 3) urgent (7 ∷ 8 ∷ []) empty_queue
      (new-IsValid (list_tree ℕ) (counting ℕ) no_failures) room).2

len_lem_example :
    len (λ n. 4) filled ≡ length (select (is_ready 4) ((list_tree ℕ).ascend filled.queue))
len_lem_example = len_lem 4 filled filled-IsValid

spin_round_delivers_example :
    (spin_round (λ n. quiet 4) filled).0.delivered
    ≡ filled.delivered
      ++ take filled.waiters (select (can_go 4 filled.locked) ((list_tree ℕ).ascend filled.queue))
spin_round_delivers_example = spin_round_delivers 4 filled filled-IsValid

abbrev after_get : Queue
after_get = (begin_get filled).0

abbrev reached :
    Reach {B = list_tree ℕ} {R = counting ℕ} no_failures (finish 7 after_get) (drop_key 7 [])
reached =
    next
      (next
        (next start (
          adds (λ n. 3) urgent (7 ∷ 8 ∷ [])
            (add_with_opts-IsValid (λ n. 3) urgent (7 ∷ 8 ∷ []) empty_queue
              (new-IsValid (list_tree ℕ) (counting ℕ) no_failures) room).1))
        gets)
      (finishes 7)

Reach-NoTwins_example : NoTwins {T = ℕ} (drop_key 7 [])
Reach-NoTwins_example = Reach-NoTwins reached

in_bounds : keys_added reached + length {A = ℕ} (7 ∷ 8 ∷ []) < 2 ^ 64
unfolding keys_added
in_bounds = omega arith

Reach-IsValid_example :
    IsValid (finish 7 after_get)
    × ((s' : Queue) × (add_with_opts (λ n. 3) urgent (7 ∷ 8 ∷ []) (finish 7 after_get) ≡ some s'))
Reach-IsValid_example = Reach-IsValid reached (λ n. 3) urgent (7 ∷ 8 ∷ []) in_bounds

-- The calls of the metrics, all at one time.
abbrev stamp : List (MetricCall ℕ) → List (ℕ × MetricCall ℕ)
stamp [] = []
stamp (c ∷ cs) = (5, c) ∷ stamp cs

calls-stamp : (cs : List (MetricCall ℕ)) → calls (stamp cs) ≡ cs
calls-stamp [] = refl
calls-stamp (c ∷ cs) = ap (λ l. c ∷ l) (calls-stamp cs)

measured-depth_example :
    (measured true (stamp filled.metrics)).depth_with_priority (pos 100)
    ≡ pos (tally (weight filled.became_ready (pos 100)) ((list_tree ℕ).ascend filled.queue))
measured-depth_example =
    measured-depth filled (pos 100) (stamp filled.metrics) filled-IsValid
      (calls-stamp filled.metrics)
