-- ===== src/PriorityQueue/Metrics/Readings.antt =====
-- What the metrics of pkg/controller/priorityqueue/metrics.go show of the queue.
use mathlib.Core.Path.{ap₂}
use unstructured_runtime.Prelude.{
  ℕ, suc, ◌+◌, ◌≡◌, refl, ap, ◌∙◌, Bool, true, false, List, [], ◌∷◌, Comparable, if◌then◌else◌,
  update, find, arith, Bool-cases, inl, inr, Option-cases,
}
use unstructured_runtime.Prelude.Int.{ℤ, pos, sub_ℕ, int_eq, beq_ℤ}
use unstructured_runtime.PriorityQueue.Tree.{BTree, tally}
use unstructured_runtime.PriorityQueue.State.{
  RateLimiter, PriorityQueue, MetricCall, add, get, update_depth, done, retry,
}
use unstructured_runtime.PriorityQueue.Invariant.{IsValid, weight, depth_incs, depth_decs}
use unstructured_runtime.PriorityQueue.Metrics.{
  QueueMetrics, new_queue_metrics, inc, dec, measure, measured, count_add, count_get, count_done,
  count_retry, update_depth_metric,
}

-- The calls without their times.
abbrev pub calls : {T : Type 0} → List (ℕ × MetricCall T) → List (MetricCall T)
calls [] = []
calls ((now, c) ∷ cs) = c ∷ calls cs

inc_sub : (a b : ℕ) → inc (sub_ℕ a b) ≡ sub_ℕ (suc a) b
inc_sub a b = ground arith

dec_sub : (a b : ℕ) → dec (sub_ℕ a b) ≡ sub_ℕ a (suc b)
dec_sub a b = ground arith

sub_sum : (a b : ℕ) → sub_ℕ (a + b) a ≡ pos b
sub_sum a b = ground arith

inc_if :
    (c : Bool) (a b : ℕ)
    → (if c then inc (sub_ℕ a b) else sub_ℕ a b) ≡ sub_ℕ ((if c then 1 else 0) + a) b
inc_if true a b = ground arith
inc_if false a b = ground arith

dec_if :
    (c : Bool) (a b : ℕ)
    → (if c then dec (sub_ℕ a b) else sub_ℕ a b) ≡ sub_ℕ a ((if c then 1 else 0) + b)
dec_if true a b = ground arith
dec_if false a b = ground arith

same_at :
    (g : ℤ → ℤ) (f : ℤ → ℤ) (q p : ℤ)
    → update g q (f (g q)) p ≡ (if beq_ℤ q p then f (g p) else g p)
same_at g f q p = elim (Bool-cases (beq_ℤ q p)) [
  | inl same ↦ rw same (ap (λ i. f (g i)) ((int_eq.equals_iff q p).0 same))
  | inr other ↦ rw other refl
]

module _ {T : Type 0} where
  -- The gauge at `p` moves by `f` where the priority is `q`.
  abbrev Moves : (ℤ → ℤ) → ℤ → ℤ → QueueMetrics T → QueueMetrics T → Type 0
  Moves f q p m m' =
      (m'.with_priority ≡ true)
      × (m'.depth_with_priority p
          ≡ (if beq_ℤ q p then f (m.depth_with_priority p) else m.depth_with_priority p))

  update_depth-Moves :
      (a b p : ℤ) (m : QueueMetrics T)
      → m.with_priority ≡ true
      → (update_depth_metric a b m).with_priority ≡ true
        × ((update_depth_metric a b m).depth_with_priority p ≡ (
            if beq_ℤ b p
            then inc (if beq_ℤ a p then dec (m.depth_with_priority p) else m.depth_with_priority p)
            else if beq_ℤ a p
            then dec (m.depth_with_priority p)
            else m.depth_with_priority p))
  unfolding update_depth_metric
  update_depth-Moves a b p m h = rw h (
    refl,
    same_at (update m.depth_with_priority a (dec (m.depth_with_priority a))) inc b p
        ∙ ap (λ g. if beq_ℤ b p then inc g else g) (same_at m.depth_with_priority dec a p),
  )

module _ {T : Type 0} ⦃e : Comparable T⦄ where
  add-Moves :
      (now : ℕ) (k : T) (q p : ℤ) (m : QueueMetrics T)
      → m.with_priority ≡ true
      → Moves inc q p m (count_add now k q m)
  unfolding count_add
  add-Moves now k q p m h = rw h (refl, same_at m.depth_with_priority inc q p)

  get-Moves :
      (now : ℕ) (k : T) (q p : ℤ) (m : QueueMetrics T)
      → m.with_priority ≡ true
      → Moves dec q p m (count_get now k q m)
  unfolding count_get
  get-Moves now k q p m h = elim (Option-cases (m.add_times k)) [
    | inl new ↦ rw (new, h, count_get) (refl, same_at m.depth_with_priority dec q p)
    | inr (t, old) ↦ rw (old, h, count_get) (refl, same_at m.depth_with_priority dec q p)
  ]

  done-kept :
      (now : ℕ) (k : T) (q : ℤ) (m : QueueMetrics T)
      → m.with_priority ≡ true
      → ((count_done now k q m).with_priority ≡ true)
        × ((count_done now k q m).depth_with_priority ≡ m.depth_with_priority)
  unfolding count_done
  done-kept now k q m h = elim (Option-cases (find k m.processing_start_times)) [
    | inl idle ↦ elim (Option-cases (m.add_times k)) [
      | inl new ↦ rw (new, idle, count_done) (h, refl)
      | inr (t, old) ↦ rw (old, idle, h, count_done) (refl, refl)
    ]
    | inr (u, busy) ↦ elim (Option-cases (m.add_times k)) [
      | inl new ↦ rw (new, busy, h, count_done) (refl, refl)
      | inr (t, old) ↦ rw (old, busy, h, count_done) (refl, refl)
    ]
  ]

  abbrev incs : ℤ → List (ℕ × MetricCall T) → ℕ
  incs p cs = depth_incs p (calls cs)

  abbrev decs : ℤ → List (ℕ × MetricCall T) → ℕ
  decs p cs = depth_decs p (calls cs)

  calls_gauge :
      (p : ℤ) (cs : List (ℕ × MetricCall T))
      → ((measured true cs).with_priority ≡ true)
        × ((measured true cs).depth_with_priority p
            ≡ sub_ℕ (depth_incs p (calls cs)) (depth_decs p (calls cs)))
  unfolding measured measure depth_incs depth_decs count_retry new_queue_metrics
  calls_gauge p [] = (refl, refl)
  calls_gauge p ((now, add k q) ∷ cs) =
      let (flag, eq) = calls_gauge p cs in
      let (flag', moved) = add-Moves now k q p (measured true cs) flag in
      (
        flag',
        moved
            ∙ ap (λ g. if beq_ℤ q p then inc g else g) eq
            ∙ inc_if (beq_ℤ q p) (incs p cs) (decs p cs),
      )
  calls_gauge p ((now, get k q) ∷ cs) =
      let (flag, eq) = calls_gauge p cs in
      let (flag', moved) = get-Moves now k q p (measured true cs) flag in
      (
        flag',
        moved
            ∙ ap (λ g. if beq_ℤ q p then dec g else g) eq
            ∙ dec_if (beq_ℤ q p) (incs p cs) (decs p cs),
      )
  calls_gauge p ((now, update_depth a b) ∷ cs) =
      let (flag, eq) = calls_gauge p cs in
      let (flag', moved) = update_depth-Moves a b p (measured true cs) flag in
      (
        flag',
        moved
            ∙ ap (λ g. if beq_ℤ b p then inc g else g)
                (ap (λ g. if beq_ℤ a p then dec g else g) eq
                  ∙ dec_if (beq_ℤ a p) (incs p cs) (decs p cs))
            ∙ inc_if (beq_ℤ b p) (incs p cs) ((if beq_ℤ a p then 1 else 0) + decs p cs),
      )
  calls_gauge p ((now, done k q) ∷ cs) =
      let (flag, eq) = calls_gauge p cs in
      let (flag', same) = done-kept now k q (measured true cs) flag in
      (flag', ap (λ g. g p) same ∙ eq)
  calls_gauge p ((now, retry) ∷ cs) = calls_gauge p cs

  -- In a valid queue whose metrics have priorities, whatever the clock read at the calls, the depth
  -- shown at a priority is the number of items of that priority that have no delay or became ready.
  pub measured-depth :
      {B : BTree T} {R : RateLimiter T} (s : PriorityQueue B R) (p : ℤ)
      (cs : List (ℕ × MetricCall T))
      → IsValid s
      → calls cs ≡ s.metrics
      → (measured true cs).depth_with_priority p
        ≡ pos (tally (weight s.became_ready p) (B.ascend s.queue))
  measured-depth {B} s p cs v same =
      (calls_gauge p cs).1
      ∙ ap₂ sub_ℕ (ap (depth_incs p) same ∙ v.depth p) (ap (depth_decs p) same)
      ∙ sub_sum (depth_decs p s.metrics) (tally (weight s.became_ready p) (B.ascend s.queue))
