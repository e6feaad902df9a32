-- ===== src/Controller/Drain/Order.antt =====
-- What holds of `Run` (pkg/controller/controller.go) at every moment.
use unstructured_runtime.Prelude.{
  ℕ, zero, suc, ◌≡◌, ◌≢◌, refl, subst, true, false, List, [], ◌∷◌, ◌++◌, All, arith,
}
use unstructured_runtime.Prelude.Int.{ℤ, pos, negsuc}
use unstructured_runtime.Controller.Drain.{
  Worker, waiting, reconciling, left, unsynced, abrupt, clean, expired, Phase, syncing, working,
  draining, returned, RunState, start, set_graceful_shutdown_timeout, return_with, drain_for,
  begin_drain, Step, launch, abandon, syncs, fails, takes, completes, leaves, sets, cancels, drains,
  expires, Reach, starts, steps,
}

-- What each phase promises.
unfoldable pub Promise : Phase → RunState → Type 0
Promise (syncing n) s =
    (s.queue_down ≡ false) × (s.reconcile_cancelled ≡ false) × All (λ w. w ≡ left) s.workers
Promise working s = (s.queue_down ≡ false) × (s.reconcile_cancelled ≡ false)
Promise (draining grace) s =
    (s.queue_down ≡ true) × (s.reconcile_cancelled ≡ false) × (grace ≢ pos 0)
Promise (returned unsynced) s = (s.queue_down ≡ true) × All (λ w. w ≡ left) s.workers
Promise (returned abrupt) s = (s.queue_down ≡ true) × (s.reconcile_cancelled ≡ true)
Promise (returned expired) s = (s.queue_down ≡ true) × (s.reconcile_cancelled ≡ true)
Promise (returned clean) s =
    (s.queue_down ≡ true) × (s.reconcile_cancelled ≡ true) × All (λ w. w ≡ left) s.workers

drain_for-Promise :
    (d : ℤ) (s : RunState)
    → s.queue_down ≡ true
    → s.reconcile_cancelled ≡ false
    → Promise (drain_for d s).phase (drain_for d s)
unfolding drain_for return_with Promise
drain_for-Promise (pos zero) s down live = (down, refl)
drain_for-Promise (pos (suc n)) s down live = (down, live, λ e. ground (arith, e))
drain_for-Promise (negsuc n) s down live = (down, live, λ e. ground (arith, e))

-- Changing the workers keeps the promise of a phase that says nothing of them.
workers-Promise :
    (p : Phase) (s : RunState) (ws : List Worker)
    → (All (λ w. w ≡ left) s.workers → All (λ w. w ≡ left) ws)
    → Promise p s
    → Promise p (record s { workers = ws })
unfolding Promise
workers-Promise (syncing n) s ws k (up, live, gone) = (up, live, k gone)
workers-Promise working s ws k h = h
workers-Promise (draining grace) s ws k h = h
workers-Promise (returned unsynced) s ws k (down, gone) = (down, k gone)
workers-Promise (returned abrupt) s ws k h = h
workers-Promise (returned expired) s ws k h = h
workers-Promise (returned clean) s ws k (down, over, gone) = (down, over, k gone)

timeout-Promise :
    (p : Phase) (s : RunState) (d : ℤ) → Promise p s → Promise p (set_graceful_shutdown_timeout d s)
unfolding Promise set_graceful_shutdown_timeout
timeout-Promise (syncing n) s d h = h
timeout-Promise working s d h = h
timeout-Promise (draining grace) s d h = h
timeout-Promise (returned unsynced) s d h = h
timeout-Promise (returned abrupt) s d h = h
timeout-Promise (returned expired) s d h = h
timeout-Promise (returned clean) s d h = h

not_gone :
    (w : Worker) → w ≢ left → (pre post : List Worker) → All (λ v. v ≡ left) (pre ++ w ∷ post) → ⊥
not_gone w ne [] post (same, rest) = ne same
not_gone w ne (v ∷ pre) post (same, rest) = not_gone w ne pre post rest

-- A worker that has not left is among the workers.
still_here :
    (w : Worker) (s : RunState) (pre post ws : List Worker)
    → w ≢ left
    → s.workers ≡ pre ++ w ∷ post
    → All (λ v. v ≡ left) s.workers
    → All (λ v. v ≡ left) ws
still_here w s pre post ws ne eq gone =
    absurd (not_gone w ne pre post (subst (All (λ v. v ≡ left)) eq gone))

pub draining_down : (grace : ℤ) (s : RunState) → Promise (draining grace) s → s.queue_down ≡ true
unfolding Promise
draining_down grace s h = h.0

-- Before the workers start, the queue is open and nothing is cancelled.
pub syncing_open :
    (n : ℕ) (s : RunState)
    → s.phase ≡ syncing n
    → Promise s.phase s
    → (s.queue_down ≡ false) × (s.reconcile_cancelled ≡ false) × All (λ w. w ≡ left) s.workers
syncing_open n s p h = unfold Promise in subst (λ q. Promise q s) p h

pub Step-Promise : {s s' : RunState} → Step s s' → Promise s.phase s → Promise s'.phase s'
Step-Promise {s} (syncs n p) h =
    let (up, live, gone) = syncing_open n s p h in unfold launch Promise in (up, live)
Step-Promise {s} (fails n p) h =
    let (up, live, gone) = syncing_open n s p h in unfold abandon Promise in (refl, gone)
Step-Promise {s} (takes pre post eq up) h =
    workers-Promise s.phase s (pre ++ reconciling ∷ post)
      (still_here waiting s pre post (pre ++ reconciling ∷ post) (λ e. ground (arith, e)) eq) h
Step-Promise {s} (completes pre post eq) h =
    workers-Promise s.phase s (pre ++ waiting ∷ post)
      (still_here reconciling s pre post (pre ++ waiting ∷ post) (λ e. ground (arith, e)) eq) h
Step-Promise {s} (leaves pre post eq down) h =
    workers-Promise s.phase s (pre ++ left ∷ post)
      (still_here waiting s pre post (pre ++ left ∷ post) (λ e. ground (arith, e)) eq) h
Step-Promise {s} (sets d) h = unfold set_graceful_shutdown_timeout in timeout-Promise s.phase s d h
Step-Promise {s} (cancels w) h =
    let (up, live) : (s.queue_down ≡ false) × (s.reconcile_cancelled ≡ false) =
      unfold Promise in subst (λ p. Promise p s) w h in
    unfold begin_drain in
    drain_for-Promise s.graceful_shutdown_timeout (record s { queue_down = true }) refl live
Step-Promise {s} (drains grace p gone) h =
    let down = draining_down grace s (subst (λ q. Promise q s) p h) in
    unfold return_with Promise in (down, refl, gone)
Step-Promise {s} (expires n p) h =
    let down = draining_down (pos n) s (subst (λ q. Promise q s) p h) in
    unfold return_with Promise in (down, refl)

-- Whether the caches sync, whenever the context is cancelled, workers come and go and the window is
-- set: while `Run` works or drains, the context of the reconciles is not cancelled; every return has
-- shut the queue down; a drain has too, and has a grace period that is not 0; and no worker is in its
-- loop before the caches have synced, when they have not, and after a clean return.
pub Reach-Promise : {s : RunState} → Reach s → Promise s.phase s
Reach-Promise (starts timeout n) = unfold start Promise in (refl, refl, tt)
Reach-Promise (steps r st) = Step-Promise st (Reach-Promise r)
