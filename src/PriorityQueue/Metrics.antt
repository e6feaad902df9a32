-- ===== src/PriorityQueue/Metrics.antt =====
-- `defaultQueueMetrics` of pkg/controller/priorityqueue/metrics.go. Times are nanoseconds; the
-- conversion of durations to seconds is not modelled. The gauges and the counters hold what the calls
-- on them add up to; the histograms are the list of what was observed, the newest first.
pub mod Readings
pub mod Durations
use unstructured_runtime.Prelude.{
  ℕ, suc, ◌+◌, ◌-◌, Option, none, some, Bool, List, [], ◌∷◌, Comparable, ltb, if◌then◌else◌, update,
  find, insert, erase,
}
use unstructured_runtime.Prelude.Int.{ℤ, pos, pos_part, neg_part, sub_ℕ, int_eq}
use unstructured_runtime.PriorityQueue.State.{MetricCall, add, get, update_depth, done, retry}

pub data Observation : Type 0 where
  latency : ℕ → Observation
  latency_with_priority : ℤ → ℕ → Observation
  work_duration : ℕ → Observation
  work_duration_with_priority : ℤ → ℕ → Observation
  total_duration_with_priority : ℤ → ℕ → Observation

-- `with_priority` is set when the provider has the metrics with priorities.
pub record QueueMetrics (T : Type 0) : Type 0 where
  pub with_priority : Bool
  pub depth : ℤ
  pub depth_with_priority : ℤ → ℤ
  pub adds : ℕ
  pub retries : ℕ
  pub observed : List Observation
  pub add_times : T → Option ℕ
  pub processing_start_times : List (T × ℕ)
  pub unfinished_work : ℕ
  pub longest_running_processor : ℕ

unfoldable pub new_queue_metrics : {T : Type 0} → Bool → QueueMetrics T
new_queue_metrics with_priority = record {
  with_priority = with_priority;
  depth = pos 0;
  depth_with_priority = λ p. pos 0;
  adds = 0;
  retries = 0;
  observed = [];
  add_times = λ k. none;
  processing_start_times = [];
  unfinished_work = 0;
  longest_running_processor = 0;
}

abbrev pub inc : ℤ → ℤ
inc g = sub_ℕ (suc (pos_part g)) (neg_part g)

abbrev pub dec : ℤ → ℤ
dec g = sub_ℕ (pos_part g) (suc (neg_part g))

module _ {T : Type 0} where
  abbrev pub inc_depth : ℤ → QueueMetrics T → QueueMetrics T
  inc_depth p m =
      if m.with_priority
      then record m {
        depth_with_priority = update m.depth_with_priority p (inc (m.depth_with_priority p));
      }
      else record m { depth = inc m.depth }

  abbrev pub dec_depth : ℤ → QueueMetrics T → QueueMetrics T
  dec_depth p m =
      if m.with_priority
      then record m {
        depth_with_priority = update m.depth_with_priority p (dec (m.depth_with_priority p));
      }
      else record m { depth = dec m.depth }

  abbrev pub observe : Observation → QueueMetrics T → QueueMetrics T
  observe o m = record m { observed = o ∷ m.observed }

  unfoldable pub update_depth_metric : ℤ → ℤ → QueueMetrics T → QueueMetrics T
  update_depth_metric old_priority new_priority m =
      if m.with_priority then inc_depth new_priority (dec_depth old_priority m) else m

  unfoldable pub count_retry : QueueMetrics T → QueueMetrics T
  count_retry m = record m { retries = suc m.retries }

  -- The sum of the ages and the largest one.
  unfoldable pub ages : ℕ → List (T × ℕ) → ℕ → ℕ → ℕ × ℕ
  ages now [] total oldest = (total, oldest)
  ages now ((k, t) ∷ m) total oldest =
      let age = now - t in ages now m (total + age) (if ltb oldest age then age else oldest)

  unfoldable pub update_unfinished_work : ℕ → QueueMetrics T → QueueMetrics T
  unfolding ages
  update_unfinished_work now m =
      let (total, oldest) = ages now m.processing_start_times 0 0 in
      record m { unfinished_work = total; longest_running_processor = oldest }

abbrev pub first_time : ℕ → Option ℕ → Option ℕ
first_time now none = some now
first_time now (some t) = some t

module _ {T : Type 0} ⦃e : Comparable T⦄ where
  unfoldable pub count_add : ℕ → T → ℤ → QueueMetrics T → QueueMetrics T
  count_add now item priority m =
      let counted = inc_depth priority (record m { adds = suc m.adds }) in
      record counted { add_times = update m.add_times item (first_time now (m.add_times item)) }

  unfoldable pub count_get : ℕ → T → ℤ → QueueMetrics T → QueueMetrics T
  count_get now item priority m =
      let started = record (dec_depth priority m) {
        processing_start_times = insert item now m.processing_start_times;
      } in
      elim (m.add_times item) [
        | none ↦ started
        | some t ↦
            let age = now - t in
            record (observe
              (if m.with_priority then latency_with_priority priority age else latency age)
              started) { add_times = update m.add_times item none }
      ]

  abbrev pub observe_work : ℕ → ℤ → QueueMetrics T → QueueMetrics T
  observe_work age priority m =
      let observed = observe (work_duration age) m in
      if m.with_priority
      then observe (work_duration_with_priority priority age) observed
      else observed

  abbrev pub observe_total : ℕ → ℤ → QueueMetrics T → QueueMetrics T
  observe_total age priority m =
      if m.with_priority then observe (total_duration_with_priority priority age) m else m

  unfoldable pub count_done : ℕ → T → ℤ → QueueMetrics T → QueueMetrics T
  count_done now item priority m =
      let worked : QueueMetrics T = elim (find item m.processing_start_times) [
        | none ↦ m
        | some t ↦ record (observe_work (now - t) priority m) {
          processing_start_times = erase item m.processing_start_times;
        }
      ] in
      elim (m.add_times item) [ none ↦ worked | some t ↦ observe_total (now - t) priority worked ]

  unfoldable pub measure : ℕ → MetricCall T → QueueMetrics T → QueueMetrics T
  unfolding count_add count_get update_depth_metric count_done count_retry
  measure now (add item priority) m = count_add now item priority m
  measure now (get item priority) m = count_get now item priority m
  measure now (update_depth a b) m = update_depth_metric a b m
  measure now (done item priority) m = count_done now item priority m
  measure now retry m = count_retry m

  -- The calls at the times of the clock, the newest first.
  unfoldable pub measured : Bool → List (ℕ × MetricCall T) → QueueMetrics T
  unfolding measure
  measured with_priority [] = new_queue_metrics with_priority
  measured with_priority ((now, c) ∷ cs) = measure now c (measured with_priority cs)
