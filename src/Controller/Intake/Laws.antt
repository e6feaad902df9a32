-- ===== src/Controller/Intake/Laws.antt =====
-- The handlers of pkg/controller/controller.go: what they queue once, and what they ignore.
use unstructured_runtime.Prelude.{
  ℕ, ◌≡◌, ◌≢◌, refl, sym, ap, ◌⊎◌, Option, none, some, Bool, true, false, List, [], ◌∷◌, String,
  ◌==◌, string_eq, if◌then◌else◌, update, arith, All, All-map, equals_refl, inl, subst, inr,
}
use unstructured_runtime.Prelude.Int.{ℤ}
use unstructured_runtime.PriorityQueue.Add.{AddOpts}
use unstructured_runtime.Event.{EventType, ObjectRef, Event}
use unstructured_runtime.Event.Actions.{created, get_event_type, observed, updated, deleted}
use unstructured_runtime.Event.Annotations.{AnnotationEvent}
use unstructured_runtime.Meta.{Object, was_deleted}
use unstructured_runtime.Condition.{Condition}
use unstructured_runtime.Controller.{
  Resource, Spec, missing, fields, malformed, low_priority, high_priority, digest_for_event,
}
use unstructured_runtime.Controller.Intake.{
  first_priority, Received, resource, tombstone, unknown, Handling, Intake, add_with_opts,
  add_if_absent, triggers, first_trigger, differ, add_func, compare_versions, update_versions,
  update_func, event_of, same_value, annotation,
}

-- No annotation changes between a version and itself.
same_value_refl : (v : Option String) → same_value v v ≡ true
unfolding same_value
same_value_refl none = refl
same_value_refl (some v) = equals_refl v

triggers-same : (e : AnnotationEvent) (o : Object) → triggers e o o ≡ false
unfolding triggers
triggers-same e o = ground (arith, same_value_refl (annotation e.annotation o))

first_trigger-same : (es : List AnnotationEvent) (o : Object) → first_trigger es o o ≡ none
unfolding first_trigger
first_trigger-same [] o = refl
first_trigger-same (e ∷ es) o = ground (arith, triggers-same e o, first_trigger-same es o)

differ-same : (s : Spec) → differ s s ≡ false
unfolding differ
differ-same missing = refl
differ-same (fields s) = ground (arith, equals_refl s)
differ-same malformed = refl

module _ (H : Handling) (now : ℕ) where
  -- A version that keeps the metadata and the spec of the one before, and is not being deleted, is
  -- ignored if its resource version is another one, whatever its conditions are: the controller's
  -- own writes of the status do not queue it again. With the same resource version, at a resync, it
  -- is queued with low priority, unless its digest is held.
  pub update_func-status :
      (r : Resource) (v : String) (cs : List Condition) (s : Intake)
      → was_deleted r.object ≡ false
      → r.spec ≢ malformed
      → update_func H now
          (resource r)
          (resource (record r { resource_version = v; conditions = cs }))
          s
        ≡ (if r.resource_version == v
            then add_if_absent H.hash low_priority
                (event_of (get_event_type H.actions observed) r now)
                s
            else s)
  unfolding update_func compare_versions
  update_func-status r v cs s h well =
      ground (arith, first_trigger-same H.watch_annotations r.object, differ-same r.spec)

module _ (hash : EventType → ObjectRef → String) where
  abbrev digest_of : AddOpts × Event → String
  digest_of c = digest_for_event hash c.1

  -- Every queued event has its digest in the set.
  abbrev pub Covered : Intake → Type 0
  Covered s = All (λ c. s.items (digest_of c) ≡ true) s.added

  abbrev pub Distinct : List (AddOpts × Event) → Type 0
  Distinct [] = Unit
  Distinct (c ∷ cs) = All (λ d. digest_of d ≢ digest_of c) cs × Distinct cs

  abbrev pub IsDeduplicated : Intake → Type 0
  IsDeduplicated s = Covered s × Distinct s.added

  covered-update :
      (dig : String) (items : String → Bool) (cs : List (AddOpts × Event))
      → All (λ c. items (digest_of c) ≡ true) cs
      → All (λ c. update items dig true (digest_of c) ≡ true) cs
  covered-update dig items cs h = All-map (λ c b. ground arith) cs h

  fresh-differs :
      (dig : String) (items : String → Bool)
      → items dig ≡ false
      → (cs : List (AddOpts × Event)) → All (λ c. items (digest_of c) ≡ true) cs
      → All (λ c. digest_of c ≢ dig) cs
  fresh-differs dig items h cs all = All-map (λ c b eq. ground (arith, ap items eq)) cs all

  after_adding : ℤ → Event → Intake → Intake
  unfolding add_with_opts digest_for_event
  after_adding p ev s =
      add_with_opts p ev (record s { items = update s.items (digest_for_event hash ev) true })

  after_adding-IsDeduplicated :
      (p : ℤ) (ev : Event) (s : Intake)
      → s.items (digest_for_event hash ev) ≡ false
      → IsDeduplicated s
      → IsDeduplicated (after_adding p ev s)
  unfolding after_adding add_with_opts
  after_adding-IsDeduplicated p ev s free v =
      let dig = digest_for_event hash ev in
      (
        (ground (arith, equals_refl dig), covered-update dig s.items s.added v.0),
        (fresh-differs dig s.items free s.added v.0, v.1),
      )

  add_if_absent_cases :
      (p : ℤ) (ev : Event) (s : Intake)
      → (add_if_absent hash p ev s ≡ s)
        ⊎ ((s.items (digest_for_event hash ev) ≡ false)
            × (add_if_absent hash p ev s ≡ after_adding p ev s))
  unfolding add_if_absent after_adding
  add_if_absent_cases p ev s = ground arith

  add_if_absent-IsDeduplicated :
      (p : ℤ) (ev : Event) (s : Intake)
      → IsDeduplicated s
      → IsDeduplicated (add_if_absent hash p ev s)
  add_if_absent-IsDeduplicated p ev s v = elim (add_if_absent_cases p ev s) [
    | inl held ↦ subst (λ t. IsDeduplicated t) (sym held) v
    | inr (free, eq) ↦
        subst (λ t. IsDeduplicated t) (sym eq) (after_adding-IsDeduplicated p ev s free v)
  ]

-- What the informer can tell the handlers.
pub data Signal : Type 0 where
  first : Received → Signal
  second : Received → Received → Signal

-- The state after the signals, the last one first, each with the clock at its time.
abbrev pub signals : Handling → List (ℕ × Signal) → Intake → Intake
signals H [] s = s
signals H ((now, first r) ∷ ss) s = add_func H now r (signals H ss s)
signals H ((now, second old new) ∷ ss) s = update_func H now old new (signals H ss s)

module _ (H : Handling) where
  -- A state that is the one before, or that with an event added behind its digest.
  unfoldable pub AddsOnce : Intake → Intake → Type 0
  AddsOnce s t = (t ≡ s) ⊎ ((p : ℤ) × (ev : Event) × (t ≡ add_if_absent H.hash p ev s))

  AddsOnce-IsDeduplicated :
      (s t : Intake) → AddsOnce s t → IsDeduplicated H.hash s → IsDeduplicated H.hash t
  unfolding AddsOnce
  AddsOnce-IsDeduplicated s t (inl eq) v = subst (λ u. IsDeduplicated H.hash u) (sym eq) v
  AddsOnce-IsDeduplicated s t (inr (p, ev, eq)) v =
      subst (λ u. IsDeduplicated H.hash u) (sym eq) (add_if_absent-IsDeduplicated H.hash p ev s v)

  compare_versions_cases :
      (now : ℕ) (old new : Resource) (s : Intake)
      → (compare_versions H now old new s ≡ s)
        ⊎ ((compare_versions H now old new s
              ≡ add_if_absent H.hash high_priority
                  (event_of (get_event_type H.actions updated) new now)
                  s)
            ⊎ (compare_versions H now old new s
                ≡ add_if_absent H.hash low_priority
                    (event_of (get_event_type H.actions observed) new now)
                    s))
  unfolding compare_versions
  compare_versions_cases now old new s = ground arith

  first_trigger-none :
      (es : List AnnotationEvent) (old new : Object) → es ≡ [] → first_trigger es old new ≡ none
  unfolding first_trigger
  first_trigger-none [] old new h = refl
  first_trigger-none (e ∷ es) old new h = cc

  update_versions_cases :
      (now : ℕ) (old new : Resource) (s : Intake)
      → H.watch_annotations ≡ []
      → (update_versions H now old new s
          ≡ add_if_absent H.hash high_priority
              (event_of (get_event_type H.actions deleted) new now)
              s)
        ⊎ (update_versions H now old new s ≡ compare_versions H now old new s)
  unfolding update_versions
  update_versions_cases now old new s h =
      ground (arith, first_trigger-none H.watch_annotations old.object new.object h)

  pub compare_versions-AddsOnce :
      (now : ℕ) (old new : Resource) (s : Intake) → AddsOnce s (compare_versions H now old new s)
  unfolding AddsOnce
  compare_versions-AddsOnce now old new s = elim (compare_versions_cases now old new s) [
    | inl eq ↦ inl eq
    | inr (inl eq) ↦ inr (high_priority, event_of (get_event_type H.actions updated) new now, eq)
    | inr (inr eq) ↦ inr (low_priority, event_of (get_event_type H.actions observed) new now, eq)
  ]

  update_versions-AddsOnce :
      (now : ℕ) (old new : Resource) (s : Intake)
      → H.watch_annotations ≡ []
      → AddsOnce s (update_versions H now old new s)
  unfolding AddsOnce
  update_versions-AddsOnce now old new s none_watched =
      elim (update_versions_cases now old new s none_watched) [
        | inl eq ↦ inr (high_priority, event_of (get_event_type H.actions deleted) new now, eq)
        | inr eq ↦ subst (λ t. AddsOnce s t) (sym eq) (compare_versions-AddsOnce now old new s)
      ]

  -- Every signal adds at most one event, behind its digest.
  pub signals-AddsOnce :
      H.watch_annotations ≡ []
      → (c : ℕ × Signal) (ss : List (ℕ × Signal)) (s : Intake)
      → AddsOnce (signals H ss s) (signals H (c ∷ ss) s)
  unfolding add_func update_func AddsOnce
  signals-AddsOnce none_watched (now, first (resource el)) ss s =
      inr (first_priority el.object, event_of (get_event_type H.actions created) el now, refl)
  signals-AddsOnce none_watched (now, first (tombstone r)) ss s = inl refl
  signals-AddsOnce none_watched (now, first unknown) ss s = inl refl
  signals-AddsOnce none_watched (now, second (resource old) (resource new)) ss s =
      update_versions-AddsOnce now old new (signals H ss s) none_watched
  signals-AddsOnce none_watched (now, second (resource old) (tombstone r)) ss s = inl refl
  signals-AddsOnce none_watched (now, second (resource old) unknown) ss s = inl refl
  signals-AddsOnce none_watched (now, second (tombstone r) new) ss s = inl refl
  signals-AddsOnce none_watched (now, second unknown new) ss s = inl refl

  -- When no annotations are watched, the events that `AddFunc` and `UpdateFunc` queue, in any
  -- sequence from a state in which it is so, have different digests, and each digest stays in the
  -- set: as long as the worker does not take it out, no event is queued twice.
  pub signals-IsDeduplicated :
      H.watch_annotations ≡ []
      → (ss : List (ℕ × Signal)) (s : Intake) → IsDeduplicated H.hash s
      → IsDeduplicated H.hash (signals H ss s)
  signals-IsDeduplicated none_watched [] s v = v
  signals-IsDeduplicated none_watched (c ∷ ss) s v =
      AddsOnce-IsDeduplicated (signals H ss s) (signals H (c ∷ ss) s)
        (signals-AddsOnce none_watched c ss s) (signals-IsDeduplicated none_watched ss s v)
