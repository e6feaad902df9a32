-- ===== src/Instrumentation/Depth.antt =====
-- The depth that `recordEnqueueAt` and `recordDequeueAt` of pkg/controller/queue_instrumentation.go
-- report, whatever the order in which goroutines come to the lock.
use unstructured_runtime.Prelude.{
  ℕ, suc, ◌+◌, ◌≡◌, refl, sym, ap, ◌∙◌, none, some, Bool, true, false, List, [], ◌∷◌, Comparable,
  ltb, if◌then◌else◌, arith, length, find, insert, erase, IsMap, insert-IsMap, erase-IsMap,
  length-insert, length-erase, empty-IsMap, Option-cases, inl, inr, subst,
}
use unstructured_runtime.Prelude.Int.{ℤ, pos, negsuc, sub_ℕ, pos_part, neg_part}
use unstructured_runtime.Instrumentation.{
  Recorded, add_queue_depth, record_queue_oldest_item_age, Tracker, new_tracker, record_enqueue_at,
  record_dequeue_at, record_oldest_item_age, oldest_age, call,
}

-- One holding of the lock.
pub data Section (T : Type 0) : Type 0 where
  enqueue : T → ℕ → Section T
  dequeue : T → Section T
  oldest : ℕ → Section T

-- What the calls of the recorder add up to.
unfoldable pub gauge : List Recorded → ℤ
gauge [] = pos 0
gauge (add_queue_depth d ∷ cs) =
    sub_ℕ (pos_part (gauge cs) + pos_part d) (neg_part (gauge cs) + neg_part d)
gauge (record_queue_oldest_item_age age ∷ cs) = gauge cs

gauge_up :
    (cs : List Recorded) (n : ℕ)
    → gauge cs ≡ pos n
    → gauge (add_queue_depth (pos 1) ∷ cs) ≡ pos (suc n)
unfolding gauge
gauge_up cs n h = rw h (ground arith)

gauge_down :
    (cs : List Recorded) (n : ℕ)
    → gauge cs ≡ pos (suc n)
    → gauge (add_queue_depth (negsuc 0) ∷ cs) ≡ pos n
unfolding gauge
gauge_down cs n h = rw h (ground arith)

gauge_age :
    (age : ℕ) (cs : List Recorded) → gauge (record_queue_oldest_item_age age ∷ cs) ≡ gauge cs
unfolding gauge
gauge_age age cs = refl

module _ {T : Type 0} ⦃e : Comparable T⦄ where
  unfoldable pub run_section : Section T → Tracker T → Tracker T
  unfolding record_enqueue_at record_dequeue_at record_oldest_item_age
  run_section (enqueue item now) = record_enqueue_at item now
  run_section (dequeue item) = record_dequeue_at item
  run_section (oldest now) = record_oldest_item_age now

  unfoldable pub run : List (Section T) → Tracker T → Tracker T
  unfolding run_section
  run [] s = s
  run (c ∷ cs) s = run cs (run_section c s)

  -- A tracker that counts what it holds.
  unfoldable pub Counts : Tracker T → Type 0
  unfolding gauge
  Counts s =
      IsMap s.enqueued_at
      × (s.has_recorder ≡ true)
      × (gauge s.recorded ≡ pos (length s.enqueued_at))

  module _ (item : T) (s : Tracker T) where
    pub enqueue_new :
        (now : ℕ)
        → find item s.enqueued_at ≡ none
        → record_enqueue_at item now s
          ≡ call
              (add_queue_depth (pos 1))
              (record s { enqueued_at = insert item now s.enqueued_at })
    unfolding record_enqueue_at
    enqueue_new now h = rw (h, record_enqueue_at) refl

    pub enqueue_old :
        (now t : ℕ) → find item s.enqueued_at ≡ some t → record_enqueue_at item now s ≡ s
    unfolding record_enqueue_at
    enqueue_old now t h = rw (h, record_enqueue_at) refl

    pub dequeue_absent : find item s.enqueued_at ≡ none → record_dequeue_at item s ≡ s
    unfolding record_dequeue_at
    dequeue_absent h = rw (h, record_dequeue_at) refl

    pub dequeue_old :
        (t : ℕ)
        → find item s.enqueued_at ≡ some t
        → record_dequeue_at item s
          ≡ call (add_queue_depth (negsuc 0)) (record s { enqueued_at = erase item s.enqueued_at })
    unfolding record_dequeue_at
    dequeue_old t h = rw (h, record_dequeue_at) refl

  -- A call of the recorder after the map has changed from `s`.
  call-Counts :
      (c : Recorded) (m : List (T × ℕ)) (s : Tracker T)
      → IsMap m
      → s.has_recorder ≡ true
      → gauge (c ∷ s.recorded) ≡ pos (length m)
      → Counts (call c (record s { enqueued_at = m }))
  unfolding Counts
  call-Counts c m s ok has eq = rw has (ok, refl, eq)

  enqueue-Counts :
      (item : T) (now : ℕ) (s : Tracker T) → Counts s → Counts (record_enqueue_at item now s)
  unfolding Counts
  enqueue-Counts item now s (m, has, eq) = elim (Option-cases (find item s.enqueued_at)) [
    | inl new ↦ subst Counts (sym (enqueue_new item s now new)) (
        call-Counts (add_queue_depth (pos 1)) (insert item now s.enqueued_at) s
          (insert-IsMap item now s.enqueued_at m) has (counted new))
    | inr (t, old) ↦ subst Counts (sym (enqueue_old item s now t old)) (m, has, eq)
  ]
    where
      counted :
          find item s.enqueued_at ≡ none
          → gauge (add_queue_depth (pos 1) ∷ s.recorded)
            ≡ pos (length (insert item now s.enqueued_at))
      counted new =
          gauge_up s.recorded (length s.enqueued_at) eq
          ∙ ap pos (ground (arith, length-insert item now s.enqueued_at, new))

  dequeue-Counts : (item : T) (s : Tracker T) → Counts s → Counts (record_dequeue_at item s)
  unfolding Counts
  dequeue-Counts item s (m, has, eq) = elim (Option-cases (find item s.enqueued_at)) [
    | inl absent ↦ subst Counts (sym (dequeue_absent item s absent)) (m, has, eq)
    | inr (t, old) ↦ subst Counts (sym (dequeue_old item s t old)) (
        call-Counts (add_queue_depth (negsuc 0)) (erase item s.enqueued_at) s
          (erase-IsMap item s.enqueued_at m) has (counted t old))
  ]
    where
      counted :
          (t : ℕ)
          → find item s.enqueued_at ≡ some t
          → gauge (add_queue_depth (negsuc 0) ∷ s.recorded)
            ≡ pos (length (erase item s.enqueued_at))
      counted t old =
          gauge_down s.recorded (length (erase item s.enqueued_at))
            (eq ∙ ap pos (ground (arith, length-erase item s.enqueued_at, old)))

  oldest-Counts : (now : ℕ) (s : Tracker T) → Counts s → Counts (record_oldest_item_age now s)
  unfolding record_oldest_item_age Counts
  oldest-Counts now s h = by_age (ltb 0 (oldest_age now s.enqueued_at 0))
    where
      age : ℕ
      age = oldest_age now s.enqueued_at 0

      by_age : (b : Bool) → Counts (if b then call (record_queue_oldest_item_age age) s else s)
      by_age true =
          let (m, has, eq) = h in
          call-Counts (record_queue_oldest_item_age age) s.enqueued_at s m has
            (gauge_age age s.recorded ∙ eq)
      by_age false = h

  run-Counts : (cs : List (Section T)) (s : Tracker T) → Counts s → Counts (run cs s)
  unfolding run run_section
  run-Counts [] s h = h
  run-Counts (enqueue item now ∷ cs) s h =
      run-Counts cs (record_enqueue_at item now s) (enqueue-Counts item now s h)
  run-Counts (dequeue item ∷ cs) s h =
      run-Counts cs (record_dequeue_at item s) (dequeue-Counts item s h)
  run-Counts (oldest now ∷ cs) s h =
      run-Counts cs (record_oldest_item_age now s) (oldest-Counts now s h)

  -- From a new queue with a recorder, whatever the holdings of the lock and their order: no item
  -- stands in the map twice, and what was reported adds up to the number of items in the map, so that
  -- the reported depth is never negative.
  pub run-gauge :
      (cs : List (Section T))
      → IsMap (run cs (new_tracker true)).enqueued_at
        × (gauge (run cs (new_tracker true)).recorded
            ≡ pos (length (run cs (new_tracker true)).enqueued_at))
  unfolding Counts new_tracker gauge
  run-gauge cs =
      let (m, has, eq) = run-Counts cs (new_tracker true) (empty-IsMap [] refl, refl, refl) in
      (m, eq)
