-- ===== src/Controller/System/Digests.antt =====
-- The set of digests and the events of the system (pkg/controller/controller.go and
-- pkg/controller/worker.go).
use unstructured_runtime.Prelude.{
  ℕ, ◌+◌, ◌≤◌, ◌≡◌, refl, sym, ap, subst, ◌∙◌, ◌⊎◌, Bool, true, List, [], ◌∷◌, ◌++◌, String, ◌==◌,
  string_eq, arith, inl, inr, Comparable, Bool-cases, Option-cases,
}
use unstructured_runtime.Prelude.Int.{ℤ}
use unstructured_runtime.Event.{Event}
use unstructured_runtime.Event.Actions.{get_event_type, created}
use unstructured_runtime.Event.Actions as Actions
use unstructured_runtime.Meta.{was_deleted}
use unstructured_runtime.Controller.{Resource, high_priority, normal_priority, digest_for_event}
use unstructured_runtime.Controller.Intake.{
  Received, resource, tombstone, unknown, Handling, Intake, add_if_absent, add_with_opts, add_func,
  update_versions, update_func, delete_found, delete_func, first_priority, first_trigger, event_of,
}
use unstructured_runtime.Controller.Intake.Laws.{
  Signal, first, second, signals, AddsOnce, compare_versions-AddsOnce,
}
use unstructured_runtime.Controller.Loop.Turns.{one_if}
use unstructured_runtime.Controller.System.{
  System, without_digest, informed, released, loaded, stored, intake, signalled, deleted, waits,
  enqueue, Step, signal, deletes, adds, takes, follows, releases, loads, stores, leaves, Reach,
  starts, steps,
}

module _ (H : Handling) where
  abbrev pub digest : Event → String
  digest ev = digest_for_event H.hash ev

  -- How many events have the digest.
  unfoldable pub with_digest : String → List Event → ℕ
  unfolding digest_for_event
  with_digest d [] = 0
  with_digest d (ev ∷ evs) = one_if (digest ev == d) + with_digest d evs

  pub with_digest-append :
      (d : String) (xs ys : List Event)
      → with_digest d (xs ++ ys) ≡ with_digest d xs + with_digest d ys
  unfolding with_digest
  with_digest-append d [] ys = omega arith
  with_digest-append d (x ∷ xs) ys = omega (arith, with_digest-append d xs ys)

  -- Taking an event out of a list.
  pub with_digest-split :
      (d : String) (xs pre post : List Event) (ev : Event)
      → xs ≡ pre ++ ev ∷ post
      → with_digest d xs ≡ one_if (digest ev == d) + with_digest d (pre ++ post)
  with_digest-split d xs pre post ev eq =
      ap (with_digest d) eq
      ∙ (unfold with_digest in
          omega (arith, with_digest-append d pre (ev ∷ post), with_digest-append d pre post))

  -- An event is live from its `AddWithOpts` on until its turn takes its digest out of the set.
  abbrev pub live : String → System → ℕ
  live d s =
      with_digest d s.adding
      + with_digest d s.queued
      + with_digest d s.held
      + with_digest d s.untraced

  -- A digest in the set is that of a live event, and but for the events that were added without a new
  -- digest, of one live event only; a digest that is not in the set is that of none.
  unfoldable pub IsBacked : System → Type 0
  IsBacked s =
      (d : String)
      → (one_if (s.items d) ≤ live d s)
        × (live d s ≤ one_if (s.items d) + with_digest d s.unguarded)

  -- What a handler does: nothing, to add an event behind its digest, or to add an event.
  unfoldable AddsAny : Intake → Intake → Type 0
  AddsAny s t = AddsOnce H s t ⊎ ((p : ℤ) × (ev : Event) × (t ≡ add_with_opts p ev s))

  update_versions-AddsAny :
      (now : ℕ) (old new : Resource) (s : Intake) → AddsAny s (update_versions H now old new s)
  unfolding AddsAny update_versions
  update_versions-AddsAny now old new s = elim (Bool-cases (was_deleted new.object)) [
    | inl gone ↦ rw gone (
        inl (
          unfold AddsOnce in
          inr (high_priority, event_of (get_event_type H.actions Actions.deleted) new now, refl)))
    | inr stays ↦
        rw stays (elim (Option-cases (first_trigger H.watch_annotations old.object new.object)) [
          | inl none_there ↦ rw none_there (inl (compare_versions-AddsOnce H now old new s))
          | inr (w, there) ↦ rw there (inr (normal_priority, event_of w.event_type new now, refl))
        ])
  ]

  signals-AddsAny :
      (now : ℕ) (sig : Signal) (s : Intake) → AddsAny s (signals H ((now, sig) ∷ []) s)
  unfolding add_func update_func AddsOnce AddsAny
  signals-AddsAny now (first (resource el)) s =
      inl (inr (first_priority el.object, event_of (get_event_type H.actions created) el now, refl))
  signals-AddsAny now (first (tombstone r)) s = inl (inl refl)
  signals-AddsAny now (first unknown) s = inl (inl refl)
  signals-AddsAny now (second (resource old) (resource new)) s =
      update_versions-AddsAny now old new s
  signals-AddsAny now (second (resource old) (tombstone r)) s = inl (inl refl)
  signals-AddsAny now (second (resource old) unknown) s = inl (inl refl)
  signals-AddsAny now (second (tombstone r) new) s = inl (inl refl)
  signals-AddsAny now (second unknown new) s = inl (inl refl)

  delete_found-AddsAny :
      (now : ℕ) (el : Resource) (s : Intake) → AddsAny s (delete_found H now el s)
  unfolding delete_found AddsOnce AddsAny
  delete_found-AddsAny now el s = elim (Option-cases el.object.deletion_timestamp) [
    | inl alive ↦ rw alive (inl (inl refl))
    | inr (t, gone) ↦
        rw gone
          (inr (high_priority, event_of (get_event_type H.actions Actions.deleted) el now, refl))
  ]

  delete_func-AddsAny : (now : ℕ) (r : Received) (s : Intake) → AddsAny s (delete_func H now r s)
  unfolding delete_func AddsOnce AddsAny
  delete_func-AddsAny now (resource el) s = delete_found-AddsAny now el s
  delete_func-AddsAny now (tombstone (resource el)) s = delete_found-AddsAny now el s
  delete_func-AddsAny now (tombstone (tombstone r)) s = inl (inl refl)
  delete_func-AddsAny now (tombstone unknown) s = inl (inl refl)
  delete_func-AddsAny now unknown s = inl (inl refl)

  nothing_added : (s : System) → IsBacked s → IsBacked (informed H.hash (intake s) s)
  unfolding informed without_digest IsBacked
  nothing_added s h = h

  guarded_added :
      (p : ℤ) (ev : Event) (s : System)
      → IsBacked s
      → IsBacked (informed H.hash (add_if_absent H.hash p ev (intake s)) s)
  unfolding informed without_digest IsBacked add_if_absent add_with_opts with_digest
  guarded_added p ev s h = λ d. ground (arith, h d, string_eq.equals_iff (digest ev) d)

  freely_added :
      (p : ℤ) (ev : Event) (s : System)
      → IsBacked s
      → IsBacked (informed H.hash (add_with_opts p ev (intake s)) s)
  unfolding informed without_digest IsBacked add_with_opts with_digest
  freely_added p ev s h = λ d. ground (arith, h d, string_eq.equals_iff (digest ev) d)

  informed-IsBacked :
      (t : Intake) (s : System) → AddsAny (intake s) t → IsBacked s → IsBacked (informed H.hash t s)
  unfolding AddsAny AddsOnce
  informed-IsBacked t s (inl (inl eq)) h =
      subst (λ u. IsBacked (informed H.hash u s)) (sym eq) (nothing_added s h)
  informed-IsBacked t s (inl (inr (p, ev, eq))) h =
      subst (λ u. IsBacked (informed H.hash u s)) (sym eq) (guarded_added p ev s h)
  informed-IsBacked t s (inr (p, ev, eq)) h =
      subst (λ u. IsBacked (informed H.hash u s)) (sym eq) (freely_added p ev s h)

  released-IsBacked :
      (ev : Event) (bad : Bool) (pre post : List Event) (s : System)
      → s.held ≡ pre ++ ev ∷ post
      → IsBacked s
      → IsBacked (released H.hash ev bad (pre ++ post) s)
  unfolding released IsBacked
  released-IsBacked ev bad pre post s eq h = λ d.
      ground
        (arith, h d, with_digest-split d s.held pre post ev eq, string_eq.equals_iff (digest ev) d)

  loaded-IsBacked :
      (ev : Event) (used_up : Bool) (rest : List Event) (s : System)
      → IsBacked s
      → IsBacked (loaded H.hash ev used_up rest s)
  unfolding loaded IsBacked
  loaded-IsBacked ev used_up rest s h = λ d. ground (arith, h d)

  stored-IsBacked :
      (ev : Event) (rest : List Event) (s : System)
      → IsBacked s
      → IsBacked (stored H.hash ev rest s)
  unfolding stored IsBacked with_digest
  stored-IsBacked ev rest s h = λ d. ground (arith, h d, string_eq.equals_iff (digest ev) d)

  module _ ⦃e : Comparable Event⦄ where
    waits-with_digest :
        (ev : Event) (qs : List Event) → waits ev qs ≡ true → 1 ≤ with_digest (digest ev) qs
    unfolding waits with_digest
    waits-with_digest ev [] h = absurd (ground (arith, h))
    waits-with_digest ev (q ∷ qs) h = elim (Bool-cases (q == ev)) [
      | inl same ↦
          let eq = (e.equals_iff q ev).0 same in
          ground (arith, ap digest eq, string_eq.equals_iff (digest q) (digest ev))
      | inr apart ↦ omega (
        arith,
        waits-with_digest ev qs (let k : waits ev (q ∷ qs) ≡ true = h in ground (arith, k, apart)),
      )
    ]

    -- An event is added once, and is there after that.
    pub enqueue-with_digest :
        (d : String) (ev : Event) (qs : List Event)
        → (with_digest d qs ≤ with_digest d (enqueue ev qs))
          × (one_if (digest ev == d) ≤ with_digest d (enqueue ev qs))
          × (with_digest d (enqueue ev qs) ≤ one_if (digest ev == d) + with_digest d qs)
    unfolding enqueue with_digest
    enqueue-with_digest d ev qs = elim (Bool-cases (waits ev qs)) [
      | inl there ↦
          ground (arith, there, waits-with_digest ev qs there, string_eq.equals_iff (digest ev) d)
      | inr new ↦ ground (arith, new)
    ]

    Step-IsBacked : {s s' : System} → Step H s s' → IsBacked s → IsBacked s'
    Step-IsBacked {s} (signal now sig) h =
        unfold signalled in informed-IsBacked _ s (signals-AddsAny now sig (intake s)) h
    Step-IsBacked {s} (deletes now r) h =
        unfold deleted in informed-IsBacked _ s (delete_func-AddsAny now r (intake s)) h
    Step-IsBacked {s} (adds ev pre post eq) h =
        unfold IsBacked in
        λ d. ground (
          arith,
          h d,
          with_digest-split d s.adding pre post ev eq,
          enqueue-with_digest d ev s.queued,
        )
    Step-IsBacked {s} (takes ev pre post eq) h =
        unfold IsBacked with_digest in
        λ d. omega (arith, h d, with_digest-split d s.queued pre post ev eq)
    Step-IsBacked {s} (follows ev by pre post eq) h =
        unfold IsBacked with_digest in λ d. omega (arith, h d, enqueue-with_digest d ev s.queued)
    Step-IsBacked {s} (releases ev bad pre post eq) h = released-IsBacked ev bad pre post s eq h
    Step-IsBacked {s} (loads ev used_up pre post eq) h =
        loaded-IsBacked ev used_up (pre ++ post) s h
    Step-IsBacked {s} (stores ev pre post eq) h = stored-IsBacked ev (pre ++ post) s h
    Step-IsBacked {s} (leaves ev pre post eq) h =
        unfold IsBacked with_digest in
        λ d. omega (arith, h d, with_digest-split d s.held pre post ev eq)

    -- However the calls of `AddFunc`, `UpdateFunc` and `DeleteFunc`, the workers with the events that
    -- they add themselves, and the retries interleave, each access of the set a step of its own, and
    -- while the queue is not shut down: a digest in the set is that of an event that is being added, in
    -- the queue, with a worker, or left by a turn without a trace id; and there are no more such events
    -- with a digest than one if it is in the set, and as many as were added without a new digest.
    pub Reach-IsBacked : {s : System} → Reach H s → IsBacked s
    Reach-IsBacked starts = unfold IsBacked with_digest in λ d. omega arith
    Reach-IsBacked (steps r st) = Step-IsBacked st (Reach-IsBacked r)
