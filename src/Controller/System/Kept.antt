-- ===== src/Controller/System/Kept.antt =====
-- How long an event is kept (pkg/controller/worker.go, and the handlers of
-- pkg/controller/controller.go).
use unstructured_runtime.Prelude.{ℕ, ◌+◌, ◌≡◌, true, false, String, Comparable}
use unstructured_runtime.Event.{Event}
use unstructured_runtime.Controller.Intake.{Handling, Intake}
use unstructured_runtime.Controller.System.{
  System, Step, signal, deletes, adds, takes, follows, releases, loads, stores, leaves,
}
use unstructured_runtime.Controller.System.Digests.{digest, with_digest, live}

module _ (H : Handling) where
  -- The events with a digest that are still to be processed: the live ones, and those that failed and
  -- that `handleErr` has not done with.
  abbrev pub due : String → System → ℕ
  due d s = live H d s + with_digest H d s.failed + with_digest H d s.storing

  module _ ⦃e : Comparable Event⦄ where
    -- A step that is the end of an event with the digest: its turn succeeds, or its retries are used
    -- up.
    unfoldable pub Ends : String → {s s' : System} → Step H s s' → Type 0
    Ends d (signal now sig) = ⊥
    Ends d (deletes now r) = ⊥
    Ends d (adds ev pre post eq) = ⊥
    Ends d (takes ev pre post eq) = ⊥
    Ends d (follows ev by pre post eq) = ⊥
    Ends d (releases ev bad pre post eq) = (bad ≡ false) × (digest H ev ≡ d)
    Ends d (loads ev used_up pre post eq) = (used_up ≡ true) × (digest H ev ≡ d)
    Ends d (stores ev pre post eq) = ⊥
    Ends d (leaves ev pre post eq) = ⊥
