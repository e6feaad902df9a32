-- ===== src/PriorityQueue/Metrics/Durations.antt =====
-- Which durations the metrics of pkg/controller/priorityqueue/metrics.go observe.
use unstructured_runtime.Prelude.{
  ℕ, suc, ◌+◌, ◌-◌, ◌*◌, ◌≤◌, ◌≡◌, refl, ap, ◌∙◌, none, Bool, false, List, [], ◌∷◌, ◌++◌,
  Comparable, ltb, if◌then◌else◌, find, erase, arith, length, Bool-cases, inl, inr, equals_refl,
  ◌==◌, Option-cases, All,
}
use unstructured_runtime.Prelude.Int.{ℤ}
use unstructured_runtime.PriorityQueue.State.{MetricCall, add, get, update_depth, done, retry}
use unstructured_runtime.PriorityQueue.Metrics.{
  Observation, latency, latency_with_priority, work_duration, work_duration_with_priority,
  total_duration_with_priority, QueueMetrics, inc_depth, dec_depth, measure, measured, count_add,
  count_get, count_done, count_retry, update_depth_metric, ages, update_unfinished_work,
  observe_work, observe_total,
}

-- How many total durations were observed.
unfoldable pub totals : List Observation → ℕ
totals [] = 0
totals (latency d ∷ os) = totals os
totals (latency_with_priority p d ∷ os) = totals os
totals (work_duration d ∷ os) = totals os
totals (work_duration_with_priority p d ∷ os) = totals os
totals (total_duration_with_priority p d ∷ os) = suc (totals os)

inc_depth_times :
    {T : Type 0} (p : ℤ) (m : QueueMetrics T) → (inc_depth p m).add_times ≡ m.add_times
inc_depth_times p m = elim (Bool-cases m.with_priority) [ inl h ↦ rw h refl | inr h ↦ rw h refl ]

dec_depth_times :
    {T : Type 0} (p : ℤ) (m : QueueMetrics T) → (dec_depth p m).add_times ≡ m.add_times
dec_depth_times p m = elim (Bool-cases m.with_priority) [ inl h ↦ rw h refl | inr h ↦ rw h refl ]

module _ {T : Type 0} ⦃e : Comparable T⦄ where
  unfoldable pub is_add_of : T → MetricCall T → Bool
  is_add_of k (add j p) = j == k
  is_add_of k (get j p) = false
  is_add_of k (update_depth a b) = false
  is_add_of k (done j p) = false
  is_add_of k retry = false

  get_times :
      (now : ℕ) (j k : T) (p : ℤ) (m : QueueMetrics T)
      → (count_get now j p m).add_times k ≡ (if j == k then none else m.add_times k)
  unfolding count_get
  get_times now j k p m = elim (Option-cases (m.add_times j)) [
    | inl new ↦
        rw (new, count_get)
          (ap (λ f. f k) (dec_depth_times p m) ∙ ground (arith, new, e.equals_iff j k))
    | inr (t, old) ↦ rw (old, count_get) refl
  ]

  update_times :
      (a b : ℤ) (m : QueueMetrics T) → (update_depth_metric a b m).add_times ≡ m.add_times
  unfolding update_depth_metric
  update_times a b m = elim (Bool-cases m.with_priority) [
    | inl h ↦ rw (h, update_depth_metric) refl
    | inr h ↦ rw (h, update_depth_metric) refl
  ]

  observe_work_times :
      (age : ℕ) (p : ℤ) (m : QueueMetrics T) → (observe_work age p m).add_times ≡ m.add_times
  observe_work_times age p m = elim (Bool-cases m.with_priority) [
    | inl h ↦ rw h refl
    | inr h ↦ rw h refl
  ]

  totals-observe_work :
      (age : ℕ) (p : ℤ) (m : QueueMetrics T)
      → totals (observe_work age p m).observed ≡ totals m.observed
  unfolding totals
  totals-observe_work age p m = elim (Bool-cases m.with_priority) [
    | inl h ↦ rw h refl
    | inr h ↦ rw h refl
  ]

  observe_total_times :
      (age : ℕ) (p : ℤ) (m : QueueMetrics T) → (observe_total age p m).add_times ≡ m.add_times
  observe_total_times age p m = elim (Bool-cases m.with_priority) [
    | inl h ↦ rw h refl
    | inr h ↦ rw h refl
  ]

  done_times :
      (now : ℕ) (j : T) (p : ℤ) (m : QueueMetrics T)
      → (count_done now j p m).add_times ≡ m.add_times
  unfolding count_done
  done_times now j p m = elim (Option-cases (m.add_times j)) [
    | inl new ↦ elim (Option-cases (find j m.processing_start_times)) [
      | inl idle ↦ rw (new, idle, count_done) refl
      | inr (t, busy) ↦ rw (new, busy, count_done) (observe_work_times (now - t) p m)
    ]
    | inr (u, old) ↦ elim (Option-cases (find j m.processing_start_times)) [
      | inl idle ↦ rw (old, idle, count_done) (observe_total_times (now - u) p m)
      | inr (t, busy) ↦
          rw (old, busy, count_done)
            (observe_total_times (now - u) p (record (observe_work (now - t) p m) {
              processing_start_times = erase j m.processing_start_times;
            })
              ∙ observe_work_times (now - t) p m)
    ]
  ]

  done_totals :
      (now : ℕ) (j : T) (p : ℤ) (m : QueueMetrics T)
      → m.add_times j ≡ none
      → totals (count_done now j p m).observed ≡ totals m.observed
  unfolding count_done
  done_totals now j p m new = elim (Option-cases (find j m.processing_start_times)) [
    | inl idle ↦ rw (new, idle, count_done) refl
    | inr (t, busy) ↦ rw (new, busy, count_done) (totals-observe_work (now - t) p m)
  ]

  still_untimed :
      (k : T) (now : ℕ) (c : MetricCall T) (m : QueueMetrics T)
      → is_add_of k c ≡ false
      → m.add_times k ≡ none
      → (measure now c m).add_times k ≡ none
  unfolding measure is_add_of count_add count_retry
  still_untimed k now (add j p) m ne h = rw (ne, h) refl
  still_untimed k now (get j p) m ne h = get_times now j k p m ∙ ground (arith, h)
  still_untimed k now (update_depth a b) m ne h = ap (λ f. f k) (update_times a b m) ∙ h
  still_untimed k now (done j p) m ne h = ap (λ f. f k) (done_times now j p m) ∙ h
  still_untimed k now retry m ne h = h

  module _ (w : Bool) (k : T) (t : ℕ) (q : ℤ) (before : List (ℕ × MetricCall T)) where
    all_untimed :
        (cs : List (ℕ × MetricCall T))
        → All (λ c. is_add_of k c.1 ≡ false) cs
        → (measured w (cs ++ (t, get k q) ∷ before)).add_times k ≡ none
    unfolding measured
    all_untimed [] h =
        unfold measure in get_times t k k q (measured w before) ∙ ground (arith, equals_refl k)
    all_untimed ((now, c) ∷ cs) (ne, rest) =
        still_untimed k now c (measured w (cs ++ (t, get k q) ∷ before)) ne (all_untimed cs rest)

    -- When an item was taken and not added again before `Done`, `Done` observes no total duration for
    -- it, whatever was called before and between, and whether the provider has priorities or not.
    pub measured-totals :
        (cs : List (ℕ × MetricCall T)) (now : ℕ) (p : ℤ)
        → All (λ c. is_add_of k c.1 ≡ false) cs
        → totals (measured w ((now, done k p) ∷ cs ++ (t, get k q) ∷ before)).observed
          ≡ totals (measured w (cs ++ (t, get k q) ∷ before)).observed
    unfolding measured measure
    measured-totals cs now p h =
        done_totals now k p (measured w (cs ++ (t, get k q) ∷ before)) (all_untimed cs h)

abbrev larger : ℕ → ℕ → ℕ
larger a b = if ltb a b then b else a

larger_bounds : (a b : ℕ) → (a ≤ larger a b) × (b ≤ larger a b) × (larger a b ≤ a + b)
larger_bounds a b = (ground arith, ground arith, ground arith)

module _ {T : Type 0} (now : ℕ) where
  ages_bounds :
      (m : List (T × ℕ)) (a o : ℕ)
      → (o ≤ (ages now m a o).1)
        × ((ages now m a o).1 + a ≤ o + (ages now m a o).0)
        × ((ages now m a o).0 ≤ a + length m * (ages now m a o).1)
  unfolding ages
  ages_bounds [] a o = (omega arith, omega arith, omega arith)
  ages_bounds ((k, t) ∷ m) a o =
      let (above, shared, each) = ages_bounds m (a + (now - t)) (larger o (now - t)) in
      let (left, right, sum) = larger_bounds o (now - t) in
      (omega (arith, above, left), omega (arith, shared, sum), omega (arith, each, above, right))

  -- The longest running time is at most the unfinished work, and the unfinished work at most the
  -- longest running time for each item that is being processed.
  pub unfinished_work_bounds :
      (m : QueueMetrics T)
      → ((update_unfinished_work now m).longest_running_processor
          ≤ (update_unfinished_work now m).unfinished_work)
        × ((update_unfinished_work now m).unfinished_work
            ≤ length m.processing_start_times
              * (update_unfinished_work now m).longest_running_processor)
  unfolding update_unfinished_work
  unfinished_work_bounds m =
      let (above, shared, each) = ages_bounds m.processing_start_times 0 0 in
      (omega (arith, shared), omega (arith, each))
