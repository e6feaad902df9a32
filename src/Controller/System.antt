-- ===== src/Controller/System.antt =====
-- The informer's handlers (pkg/controller/controller.go) and the workers (pkg/controller/worker.go)
-- together, as they share the set of digests and the queue: each access of the set and each
-- `AddWithOpts` is a step of its own. The queue is the list of the events that wait in it, with or
-- without a delay, and an event that waits is not added again. It is not shut down.
pub mod Digests
pub mod Kept
use unstructured_runtime.Prelude.{
  ℕ, ◌≡◌, Bool, true, false, not, ◌&&◌, List, [], ◌∷◌, ◌++◌, String, ◌==◌, if◌then◌else◌, update,
  string_eq, Comparable,
}
use unstructured_runtime.PriorityQueue.Add.{AddOpts}
use unstructured_runtime.Event.{EventType, ObjectRef, Event}
use unstructured_runtime.Controller.{digest_for_event}
use unstructured_runtime.Controller.Intake.{Received, Handling, Intake, delete_func}
use unstructured_runtime.Controller.Intake.Laws.{Signal, signals}

-- The set of digests; the events whose `AddWithOpts` comes next, in the queue, with a worker, failed
-- and not yet seen by `handleErr`, found to have no digest by it, and left by a turn without a trace
-- id. `unguarded` is not kept by the program: the events that were added without a new digest.
pub record System : Type 0 where
  pub items : String → Bool
  pub adding : List Event
  pub queued : List Event
  pub held : List Event
  pub failed : List Event
  pub storing : List Event
  pub untraced : List Event
  pub unguarded : List Event

abbrev pub empty_system : System
empty_system = record {
  items = λ d. false;
  adding = [];
  queued = [];
  held = [];
  failed = [];
  storing = [];
  untraced = [];
  unguarded = [];
}

abbrev pub events : List (AddOpts × Event) → List Event
events [] = []
events ((o, ev) ∷ cs) = ev ∷ events cs

module _ (hash : EventType → ObjectRef → String) where
  -- The events whose digest was not put in the set by their handler.
  unfoldable pub without_digest : (String → Bool) → (String → Bool) → List Event → List Event
  unfolding digest_for_event
  without_digest before after [] = []
  without_digest before after (ev ∷ evs) =
      let dig = digest_for_event hash ev in
      let rest = without_digest before after evs in
      if not (before dig) && after dig then rest else ev ∷ rest

  -- What a handler did to the set, with the events that it goes on to add.
  unfoldable pub informed : Intake → System → System
  unfolding without_digest
  informed t s = record s {
    items = t.items;
    adding = events t.added ++ s.adding;
    unguarded = without_digest s.items t.items (events t.added) ++ s.unguarded;
  }

  -- `items.Delete`, when `processItem` has returned, with an error or without.
  unfoldable pub released : Event → Bool → List Event → System → System
  unfolding digest_for_event
  released ev bad rest s = record s {
    items = update s.items (digest_for_event hash ev) false;
    held = rest;
    failed = if bad then ev ∷ s.failed else s.failed;
  }

  -- `handleErr`: the retries are used up, or the digest is looked up.
  unfoldable pub loaded : Event → Bool → List Event → System → System
  unfolding digest_for_event
  loaded ev used_up rest s =
      if used_up
      then record s { failed = rest }
      else if s.items (digest_for_event hash ev)
      then record s { failed = rest }
      else record s { failed = rest; storing = ev ∷ s.storing }

  -- `handleErr`: the digest is stored, whether or not it is in the set by now.
  unfoldable pub stored : Event → List Event → System → System
  unfolding digest_for_event
  stored ev rest s =
      let dig = digest_for_event hash ev in
      record s {
        items = update s.items dig true;
        storing = rest;
        adding = ev ∷ s.adding;
        unguarded = if s.items dig then ev ∷ s.unguarded else s.unguarded;
      }

abbrev pub intake : System → Intake
intake s = record { items = s.items; added = [] }

-- The call of `AddFunc` or `UpdateFunc`, and that of `DeleteFunc`.
unfoldable pub signalled : Handling → ℕ → Signal → System → System
unfolding informed
signalled H now sig s = informed H.hash (signals H ((now, sig) ∷ []) (intake s)) s

unfoldable pub deleted : Handling → ℕ → Received → System → System
unfolding informed
deleted H now r s = informed H.hash (delete_func H now r (intake s)) s

module _ ⦃e : Comparable Event⦄ where
  unfoldable pub waits : Event → List Event → Bool
  waits ev [] = false
  waits ev (q ∷ qs) = if q == ev then true else waits ev qs

  -- `AddWithOpts` of an event.
  unfoldable pub enqueue : Event → List Event → List Event
  unfolding waits
  enqueue ev qs = if waits ev qs then qs else ev ∷ qs

  pub data Step (H : Handling) : System → System → Type 0 where
    signal : {s : System} (now : ℕ) (sig : Signal) → Step H s (signalled H now sig s)
    deletes : {s : System} (now : ℕ) (r : Received) → Step H s (deleted H now r s)
    adds :
        {s : System} (ev : Event) (pre post : List Event)
        → s.adding ≡ pre ++ ev ∷ post
        → Step H s (record s { adding = pre ++ post; queued = enqueue ev s.queued })
    takes :
        {s : System} (ev : Event) (pre post : List Event)
        → s.queued ≡ pre ++ ev ∷ post
        → Step H s (record s { queued = pre ++ post; held = ev ∷ s.held })
    -- The worker that has `by` adds an event of its own, as `handleObserve` and the recovery do.
    follows :
        {s : System} (ev by : Event) (pre post : List Event)
        → s.held ≡ pre ++ by ∷ post
        → Step H s (record s { queued = enqueue ev s.queued; unguarded = ev ∷ s.unguarded })
    releases :
        {s : System} (ev : Event) (bad : Bool) (pre post : List Event)
        → s.held ≡ pre ++ ev ∷ post
        → Step H s (released H.hash ev bad (pre ++ post) s)
    loads :
        {s : System} (ev : Event) (used_up : Bool) (pre post : List Event)
        → s.failed ≡ pre ++ ev ∷ post
        → Step H s (loaded H.hash ev used_up (pre ++ post) s)
    stores :
        {s : System} (ev : Event) (pre post : List Event)
        → s.storing ≡ pre ++ ev ∷ post
        → Step H s (stored H.hash ev (pre ++ post) s)
    leaves :
        {s : System} (ev : Event) (pre post : List Event)
        → s.held ≡ pre ++ ev ∷ post
        → Step H s (record s { held = pre ++ post; untraced = ev ∷ s.untraced })

  pub data Reach (H : Handling) : System → Type 0 where
    starts : Reach H empty_system
    steps : {s s' : System} → Reach H s → Step H s s' → Reach H s'
