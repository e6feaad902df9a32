-- ===== src/PriorityQueue/State.antt =====
-- The state of `priorityqueue` (pkg/controller/priorityqueue/priorityqueue.go). An item is shared by
-- the map and the tree in the source; here both hold its value, and each write goes to both.
-- Channels and goroutines: `notified` is the buffered channel `itemOrWaiterAdded`, `delivered` lists
-- what was sent on `get`, and `done` is closed exactly when `shutdown` is set. The calls of the
-- metrics interface are recorded in order, the newest first.
use unstructured_runtime.Prelude.{ℕ, Option, none, Bool, false, List, []}
use unstructured_runtime.Prelude.Int.{ℤ}
use unstructured_runtime.PriorityQueue.Item.{Item}
use unstructured_runtime.PriorityQueue.Tree.{BTree}

-- The interface `workqueue.TypedRateLimiter` of k8s.io/client-go. Nothing is asked of it: the limiter
-- of pkg/workqueue does not forget an item at once.
pub record RateLimiter (T : Type 0) : Type 1 where
  pub State : Type 0
  pub when : T → State → ℤ × State
  pub forget : T → State → State
  pub num_requeues : T → State → ℕ

pub data MetricCall (T : Type 0) : Type 0 where
  add : T → ℤ → MetricCall T
  get : T → ℤ → MetricCall T
  update_depth : ℤ → ℤ → MetricCall T
  done : T → ℤ → MetricCall T
  retry : MetricCall T

pub record PriorityQueue {T : Type 0} (B : BTree T) (R : RateLimiter T) : Type 0 where
  pub items : T → Option (Item T)
  pub queue : B.Tree
  pub added_counter : ℕ
  pub became_ready : T → Bool
  pub metrics : List (MetricCall T)
  pub notified : Bool
  pub rate_limiter : R.State
  pub locked : T → Bool
  pub locked_priority : T → Option ℤ
  pub shutdown : Bool
  pub delivered : List (Item T)
  pub waiters : ℕ

module _ {T : Type 0} (B : BTree T) (R : RateLimiter T) where
  unfoldable pub new : R.State → PriorityQueue B R
  new limiter = record {
    items = λ k. none;
    queue = B.empty;
    added_counter = 0;
    became_ready = λ k. false;
    metrics = [];
    notified = false;
    rate_limiter = limiter;
    locked = λ k. false;
    locked_priority = λ k. none;
    shutdown = false;
    delivered = [];
    waiters = 0;
  }
