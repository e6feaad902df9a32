-- ===== src/Tests/Limits.antt =====
-- Examples of the rate limiter, the instrumented queue and the metrics of the queue.
use unstructured_runtime.Prelude.{
  ℕ, ◌≡◌, refl, none, some, Bool, true, false, List, [], ◌∷◌, ◌++◌, nat_eq, arith, All, length,
  find, IsMap,
}
use unstructured_runtime.Prelude.Int.{ℤ, pos}
use unstructured_runtime.PriorityQueue.State.{MetricCall, add, get, done}
use unstructured_runtime.PriorityQueue.Metrics.{measured}
use unstructured_runtime.PriorityQueue.Metrics.Durations.{totals, is_add_of, measured-totals}
use unstructured_runtime.Workqueue.{
  Floats, FailureRequest, Limiter, is_stale, to_int64, saturated, when_all,
}
use unstructured_runtime.Workqueue.Delays.{series, IsExact, IsRecent, when_all-doubled}
use unstructured_runtime.Instrumentation.{Queue, new_tracker}
use unstructured_runtime.Instrumentation.Depth.{Section, enqueue, dequeue, run, gauge}
use unstructured_runtime.Instrumentation.Tracking.{since, run-since}
use unstructured_runtime.Instrumentation.Calls.{
  of_add, of_get, perform_all, inner_all, perform_all-inner,
}

-- Conversions that keep every number.
abbrev whole : Floats
whole = record {
  truncated_nan = pos 0;
  rounded = λ n. n;
  rounded_exact = λ n h. refl;
  truncated = pos;
  truncated_exact = λ n h. refl;
}

-- From 3 to 20 nanoseconds.
abbrev limiter : List (ℕ × FailureRequest) → Limiter ℕ
limiter failures = record { failures = failures; base_delay = 3; max_delay = 20 }

exact : IsExact 3 20
exact = record {
  base_positive = omega arith;
  base_small = omega arith;
  max_small = omega arith;
  never_limit = λ n e. omega (arith, e);
}

soon : IsRecent 20 (record { attempts = 1; last_attempt = 100 }) ((110, 111) ∷ (130, 131) ∷ [])
unfolding IsRecent is_stale to_int64 saturated
soon = (refl, (refl, tt))

when_all-doubled_example :
    (when_all whole 7 ((100, 100) ∷ (110, 111) ∷ (130, 131) ∷ []) (limiter [])).0
    ≡ series 3 20 0 ((100, 100) ∷ (110, 111) ∷ (130, 131) ∷ [])
when_all-doubled_example =
    when_all-doubled whole 7 (limiter []) 100 100 ((110, 111) ∷ (130, 131) ∷ []) exact (omega arith)
      (unfold find in refl) soon

abbrev failed_once : FailureRequest
failed_once = record { attempts = 1; last_attempt = 100 }

abbrev one_failure : Limiter ℕ
one_failure = limiter ((7, failed_once) ∷ [])

known : find 7 one_failure.failures ≡ some failed_once
unfolding find
known = refl

late : is_stale 20 failed_once 141 ≡ true
unfolding is_stale to_int64 saturated
late = refl

single : IsMap one_failure.failures
unfolding IsMap find
single = (refl, tt)

-- An item comes, another one comes, and the first is taken.
abbrev sections : List (Section ℕ)
sections = enqueue 7 10 ∷ enqueue 8 11 ∷ dequeue 7 ∷ []

run-since_example : find 8 (run sections (new_tracker true)).enqueued_at ≡ since 8 sections none
run-since_example = run-since sections true 8

abbrev head_of : List ℕ → (ℕ × Bool) × List ℕ
head_of [] = ((0, true), [])
head_of (k ∷ ks) = ((k, false), ks)

abbrev with_priority : (ℕ × Bool) × List ℕ → (ℕ × ℤ × Bool) × List ℕ
with_priority ((k, down), ks) = ((k, pos 0, down), ks)

-- A queue that is a list; `get` of an empty one is that of a queue that is shut down.
abbrev list_queue : Queue ℕ
list_queue = record {
  State = List ℕ;
  add = λ k ks. ks ++ k ∷ [];
  add_with_opts = λ o js ks. ks ++ js;
  add_after = λ k d ks. ks ++ k ∷ [];
  add_rate_limited = λ k ks. ks ++ k ∷ [];
  get = head_of;
  get_with_priority = λ ks. with_priority (head_of ks);
  done = λ k ks. ks;
  shut_down = λ ks. ks;
  shut_down_with_drain = λ ks. ks;
  shutting_down = λ ks. false;
  len = λ ks. length ks;
  num_requeues = λ k ks. 0;
  forget = λ k ks. ks;
}

perform_all-inner_example :
    let s =
      perform_all list_queue
        (of_add 7 10 ∷ of_get ∷ [])
        (record { queue = []; tracker = new_tracker true; done_closed = false }) in
    (s.queue ≡ inner_all list_queue (of_add 7 10 ∷ of_get ∷ []) [])
    × (gauge s.tracker.recorded ≡ pos (length s.tracker.enqueued_at))
perform_all-inner_example = perform_all-inner list_queue (of_add 7 10 ∷ of_get ∷ []) []

between :
    All {A = ℕ × MetricCall ℕ} (λ c. is_add_of {T = ℕ} 7 c.1 ≡ false) ((12, add 8 (pos 0)) ∷ [])
unfolding is_add_of
between = (refl, tt)

measured-totals_example :
    totals
      (measured {T = ℕ} true (
        (15, done 7 (pos 0))
        ∷ (12, add 8 (pos 0))
        ∷ (11, get 7 (pos 0))
        ∷ (10, add 7 (pos 0))
        ∷ [])).observed
    ≡ totals
        (measured {T = ℕ} true
          ((12, add 8 (pos 0)) ∷ (11, get 7 (pos 0)) ∷ (10, add 7 (pos 0)) ∷ [])).observed
measured-totals_example =
    measured-totals true 7 11 (pos 0) ((10, add 7 (pos 0)) ∷ []) ((12, add 8 (pos 0)) ∷ []) 15
      (pos 0) between
