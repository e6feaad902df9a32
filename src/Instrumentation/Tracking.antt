-- ===== src/Instrumentation/Tracking.antt =====
-- Which items `InstrumentedQueue` of pkg/controller/queue_instrumentation.go tracks, and since when.
use unstructured_runtime.Prelude.{
  ℕ, ◌≡◌, refl, sym, ap, ◌∙◌, Option, none, some, Bool, true, false, List, [], ◌∷◌, Comparable,
  ◌==◌, if◌then◌else◌, arith, find, insert, erase, IsMap, find-insert, find-erase, find-erase_other,
  insert-IsMap, erase-IsMap, Option-cases, inl, inr, ltb, empty-IsMap, subst,
}
use unstructured_runtime.Prelude.Int.{pos, negsuc}
use unstructured_runtime.Instrumentation.{
  Recorded, add_queue_depth, record_queue_oldest_item_age, Tracker, new_tracker, record_enqueue_at,
  record_dequeue_at, record_oldest_item_age, oldest_age, call,
}
use unstructured_runtime.Instrumentation.Depth.{
  Section, enqueue, dequeue, oldest, run, run_section, enqueue_new, enqueue_old, dequeue_absent,
  dequeue_old,
}

abbrev kept_or : ℕ → Option ℕ → Option ℕ
kept_or now none = some now
kept_or now (some t) = some t

module _ {T : Type 0} ⦃e : Comparable T⦄ where
  -- When an item came first after it was last taken, going through the holdings of the lock.
  unfoldable pub since : T → List (Section T) → Option ℕ → Option ℕ
  since item [] t = t
  since item (enqueue j now ∷ cs) t = since item cs (if j == item then kept_or now t else t)
  since item (dequeue j ∷ cs) t = since item cs (if j == item then none else t)
  since item (oldest now ∷ cs) t = since item cs t

  -- The time that the map has for an item, if the map is one.
  call_map : (c : Recorded) (s : Tracker T) → (call c s).enqueued_at ≡ s.enqueued_at
  call_map c s = by_recorder s.has_recorder
    where
      by_recorder :
          (b : Bool)
          → (if b then record s { recorded = c ∷ s.recorded } else s).enqueued_at ≡ s.enqueued_at
      by_recorder true = refl
      by_recorder false = refl

  abbrev entry : T → Tracker T → Option ℕ
  entry item s = find item s.enqueued_at

  entry-enqueue :
      (item j : T) (now : ℕ) (s : Tracker T)
      → entry item (record_enqueue_at j now s)
        ≡ (if j == item then kept_or now (entry item s) else entry item s)
  entry-enqueue item j now s = elim (Option-cases (find j s.enqueued_at)) [
    | inl new ↦
        ap (entry item) (enqueue_new j s now new)
        ∙ ap (find item) (
            call_map (add_queue_depth (pos 1))
              (record s { enqueued_at = insert j now s.enqueued_at }))
        ∙ ground (arith, find-insert j item now s.enqueued_at, e.equals_iff j item, new)
    | inr (t, old) ↦
        ap (entry item) (enqueue_old j s now t old) ∙ ground (arith, e.equals_iff j item, old)
  ]

  entry-dequeue :
      (item j : T) (s : Tracker T)
      → IsMap s.enqueued_at
      → entry item (record_dequeue_at j s) ≡ (if j == item then none else entry item s)
  entry-dequeue item j s m = elim (Option-cases (find j s.enqueued_at)) [
    | inl absent ↦
        ap (entry item) (dequeue_absent j s absent) ∙ ground (arith, e.equals_iff j item, absent)
    | inr (t, old) ↦
        ap (entry item) (dequeue_old j s t old)
        ∙ ap (find item) (
            call_map (add_queue_depth (negsuc 0))
              (record s { enqueued_at = erase j s.enqueued_at }))
        ∙ ground (
          arith,
          find-erase j s.enqueued_at m,
          find-erase_other j item s.enqueued_at,
          e.equals_iff j item,
        )
  ]

  oldest_map :
      (now : ℕ) (s : Tracker T) → (record_oldest_item_age now s).enqueued_at ≡ s.enqueued_at
  unfolding record_oldest_item_age
  oldest_map now s = by_age (ltb 0 age)
    where
      age : ℕ
      age = oldest_age now s.enqueued_at 0

      by_age :
          (b : Bool)
          → (if b then call (record_queue_oldest_item_age age) s else s).enqueued_at ≡ s.enqueued_at
      by_age true = call_map (record_queue_oldest_item_age age) s
      by_age false = refl

  entry-oldest :
      (item : T) (now : ℕ) (s : Tracker T)
      → entry item (record_oldest_item_age now s) ≡ entry item s
  entry-oldest item now s = ap (find item) (oldest_map now s)

  section-IsMap :
      (c : Section T) (s : Tracker T) → IsMap s.enqueued_at → IsMap (run_section c s).enqueued_at
  unfolding run_section
  section-IsMap (enqueue j now) s m = elim (Option-cases (find j s.enqueued_at)) [
    | inl new ↦
        subst IsMap
          (sym (
            ap (λ r. r.enqueued_at) (enqueue_new j s now new)
            ∙ call_map (add_queue_depth (pos 1))
                (record s { enqueued_at = insert j now s.enqueued_at })))
          (insert-IsMap j now s.enqueued_at m)
    | inr (t, old) ↦ subst (λ r. IsMap r.enqueued_at) (sym (enqueue_old j s now t old)) m
  ]
  section-IsMap (dequeue j) s m = elim (Option-cases (find j s.enqueued_at)) [
    | inl absent ↦ subst (λ r. IsMap r.enqueued_at) (sym (dequeue_absent j s absent)) m
    | inr (t, old) ↦
        subst IsMap
          (sym (
            ap (λ r. r.enqueued_at) (dequeue_old j s t old)
            ∙ call_map (add_queue_depth (negsuc 0))
                (record s { enqueued_at = erase j s.enqueued_at })))
          (erase-IsMap j s.enqueued_at m)
  ]
  section-IsMap (oldest now) s m = subst IsMap (sym (oldest_map now s)) m

  since_from :
      (item : T) (cs : List (Section T)) (s : Tracker T)
      → IsMap s.enqueued_at
      → entry item (run cs s) ≡ since item cs (entry item s)
  unfolding run since run_section
  since_from item [] s m = refl
  since_from item (enqueue j now ∷ cs) s m =
      since_from item cs (record_enqueue_at j now s) (section-IsMap (enqueue j now) s m)
      ∙ ap (since item cs) (entry-enqueue item j now s)
  since_from item (dequeue j ∷ cs) s m =
      since_from item cs (record_dequeue_at j s) (section-IsMap (dequeue j) s m)
      ∙ ap (since item cs) (entry-dequeue item j s m)
  since_from item (oldest now ∷ cs) s m =
      since_from item cs (record_oldest_item_age now s) (section-IsMap (oldest now) s m)
      ∙ ap (since item cs) (entry-oldest item now s)

  -- Whatever the holdings of the lock and their order, a new queue comes to track an item exactly when
  -- it was recorded after it was last taken, and with the time of the first such record; a record of
  -- an item that is tracked changes nothing.
  pub run-since :
      (cs : List (Section T)) (has_recorder : Bool) (item : T)
      → find item (run cs (new_tracker has_recorder)).enqueued_at ≡ since item cs none
  unfolding new_tracker find
  run-since cs has_recorder item =
      since_from item cs (new_tracker has_recorder) (empty-IsMap [] refl)
