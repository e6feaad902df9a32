-- ===== src/PriorityQueue/Invariant.antt =====
-- The well-formedness of the queue (pkg/controller/priorityqueue/priorityqueue.go): the map and the
-- tree hold the same items, and the depth that the metrics calls report is that of the items.
use unstructured_runtime.Prelude.{
  ℕ, ◌+◌, ◌<◌, ◌≡◌, refl, none, Bool, false, ◌&&◌, ◌||◌, List, [], ◌∷◌, Comparable, All,
  if◌then◌else◌,
}
use unstructured_runtime.Prelude.Int.{ℤ, beq_ℤ}
use unstructured_runtime.PriorityQueue.Item.{Item}
use unstructured_runtime.PriorityQueue.Tree.{BTree, Sorted, Distinct, lookup_key, tally}
use unstructured_runtime.PriorityQueue.State.{
  RateLimiter, PriorityQueue, MetricCall, add, get, update_depth, done, retry, new,
}
use unstructured_runtime.PriorityQueue.Add.{is_nil}

-- How often `Inc(p)` and `Dec(p)` are called on the depth gauge.
unfoldable pub depth_incs : {T : Type 0} → ℤ → List (MetricCall T) → ℕ
depth_incs p [] = 0
depth_incs p (add k q ∷ cs) = (if beq_ℤ q p then 1 else 0) + depth_incs p cs
depth_incs p (update_depth a b ∷ cs) = (if beq_ℤ b p then 1 else 0) + depth_incs p cs
depth_incs p (get k q ∷ cs) = depth_incs p cs
depth_incs p (done k q ∷ cs) = depth_incs p cs
depth_incs p (retry ∷ cs) = depth_incs p cs

unfoldable pub depth_decs : {T : Type 0} → ℤ → List (MetricCall T) → ℕ
depth_decs p [] = 0
depth_decs p (get k q ∷ cs) = (if beq_ℤ q p then 1 else 0) + depth_decs p cs
depth_decs p (update_depth a b ∷ cs) = (if beq_ℤ a p then 1 else 0) + depth_decs p cs
depth_decs p (add k q ∷ cs) = depth_decs p cs
depth_decs p (done k q ∷ cs) = depth_decs p cs
depth_decs p (retry ∷ cs) = depth_decs p cs

-- An item that shows in the depth at priority `p`: it has no delay, or it became ready.
abbrev pub weight : {T : Type 0} → (T → Bool) → ℤ → Item T → ℕ
weight ready p it = if (is_nil it.ready_at || ready it.key) && beq_ℤ it.priority p then 1 else 0

module _ {T : Type 0} ⦃e : Comparable T⦄ {B : BTree T} {R : RateLimiter T} where
  pub record IsValid (s : PriorityQueue B R) : Type 0 where
    pub sorted : Sorted (B.ascend s.queue)
    pub distinct : Distinct (B.ascend s.queue)
    pub indexed : (k : T) → s.items k ≡ lookup_key k (B.ascend s.queue)
    pub below : All (λ y. y.added_counter < s.added_counter) (B.ascend s.queue)
    pub absent : (k : T) → s.items k ≡ none → s.became_ready k ≡ false
    pub depth :
        (p : ℤ)
        → depth_incs p s.metrics
          ≡ depth_decs p s.metrics + tally (weight s.became_ready p) (B.ascend s.queue)

module _ {T : Type 0} ⦃e : Comparable T⦄ (B : BTree T) (R : RateLimiter T) where
  pub new-IsValid : (limiter : R.State) → IsValid (new B R limiter)
  unfolding new depth_incs depth_decs tally lookup_key
  new-IsValid limiter = record {
    sorted = rw B.ascend-empty tt;
    distinct = rw B.ascend-empty tt;
    indexed = λ k. rw B.ascend-empty;
    below = rw B.ascend-empty tt;
    absent = λ k h. refl;
    depth = λ p. rw B.ascend-empty;
  }
