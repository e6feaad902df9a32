-- ===== src/Controller/Drain/Progress.antt =====
-- The end of a drain of `Run` (pkg/controller/controller.go).
use mathlib.Core.List.{append_assoc, append-nil}
use unstructured_runtime.Prelude.{
  ℕ, zero, suc, ◌+◌, ◌*◌, ◌≡◌, ◌≢◌, ◌≤◌, ◌<◌, refl, sym, ap, ◌∙◌, subst, true, List, [], ◌∷◌, ◌++◌,
  All, arith, length, some-eq, get_elem?, get_elem?-append, All-append,
}
use unstructured_runtime.Prelude.Int.{ℤ, pos, negsuc}
use unstructured_runtime.Controller.Drain.{
  Worker, waiting, reconciling, left, clean, draining, RunState, set_graceful_shutdown_timeout,
  return_with, drain_for, begin_drain, Step, launch, abandon, syncs, fails, takes, completes,
  leaves, sets, cancels, drains, expires, Reach,
}
use unstructured_runtime.Controller.Drain.Order.{
  Promise, Reach-Promise, draining_down, syncing_open, Step-Promise,
}

-- What the workers still have to do: to complete, and to leave.
unfoldable pub remaining : List Worker → ℕ
remaining [] = 0
remaining (waiting ∷ ws) = suc (remaining ws)
remaining (reconciling ∷ ws) = suc (suc (remaining ws))
remaining (left ∷ ws) = remaining ws

-- A number of steps of the workers, one after the other.
pub data Works : ℕ → RunState → RunState → Type 0 where
  rests : {s : RunState} → Works 0 s s
  works :
      {n : ℕ} {s s' s'' : RunState}
      → Step s s'
      → s.workers ≢ s'.workers
      → Works n s' s''
      → Works (suc n) s s''

-- A run of the system in which the workers make a number of steps; the other steps are those of `Run`
-- and of whoever sets the window.
pub data Runs : ℕ → RunState → RunState → Type 0 where
  stands : {s : RunState} → Runs 0 s s
  worked :
      {n : ℕ} {s s' s'' : RunState}
      → Step s s'
      → s.workers ≢ s'.workers
      → Runs n s' s''
      → Runs (suc n) s s''
  other :
      {n : ℕ} {s s' s'' : RunState}
      → Step s s'
      → s.workers ≡ s'.workers
      → Runs n s' s''
      → Runs n s s''

remaining-append : (ws vs : List Worker) → remaining (ws ++ vs) ≡ remaining ws + remaining vs
unfolding remaining
remaining-append [] vs = omega arith
remaining-append (waiting ∷ ws) vs = omega (arith, remaining-append ws vs)
remaining-append (reconciling ∷ ws) vs = omega (arith, remaining-append ws vs)
remaining-append (left ∷ ws) vs = remaining-append ws vs

remaining-length : (ws : List Worker) → remaining ws ≤ 2 * length ws
unfolding remaining
remaining-length [] = omega arith
remaining-length (waiting ∷ ws) = omega (arith, remaining-length ws)
remaining-length (reconciling ∷ ws) = omega (arith, remaining-length ws)
remaining-length (left ∷ ws) = omega (arith, remaining-length ws)

drain_for-workers : (d : ℤ) (s : RunState) → (drain_for d s).workers ≡ s.workers
unfolding drain_for return_with
drain_for-workers (pos zero) s = refl
drain_for-workers (pos (suc n)) s = refl
drain_for-workers (negsuc n) s = refl

drain_for-down : (d : ℤ) (s : RunState) → (drain_for d s).queue_down ≡ s.queue_down
unfolding drain_for return_with
drain_for-down (pos zero) s = refl
drain_for-down (pos (suc n)) s = refl
drain_for-down (negsuc n) s = refl

module _ (pre post : List Worker) (ws : List Worker) where
  less_waiting : ws ≡ pre ++ reconciling ∷ post → remaining (pre ++ waiting ∷ post) < remaining ws
  unfolding remaining
  less_waiting eq =
      rw (eq, remaining-append pre (reconciling ∷ post), remaining-append pre (waiting ∷ post))
        (omega arith)

  less_left : ws ≡ pre ++ waiting ∷ post → remaining (pre ++ left ∷ post) < remaining ws
  unfolding remaining
  less_left eq =
      rw (eq, remaining-append pre (waiting ∷ post), remaining-append pre (left ∷ post))
        (omega arith)

Step-remaining :
    {s s' : RunState}
    → Step s s'
    → s.workers ≢ s'.workers
    → Promise s.phase s
    → s.queue_down ≡ true
    → (remaining s'.workers < remaining s.workers) × (s'.queue_down ≡ true)
Step-remaining {s} (syncs n p) ne h down =
    let (up, live, gone) = syncing_open n s p h in absurd (ground (arith, up, down))
Step-remaining {s} (fails n p) ne h down = absurd (unfold abandon in ne refl)
Step-remaining {s} (takes pre post eq up) ne h down = absurd (ground (arith, up, down))
Step-remaining {s} (completes pre post eq) ne h down = (less_waiting pre post s.workers eq, down)
Step-remaining {s} (leaves pre post eq shut) ne h down = (less_left pre post s.workers eq, down)
Step-remaining {s} (sets d) ne h down = absurd (unfold set_graceful_shutdown_timeout in ne refl)
Step-remaining {s} (cancels w) ne h down = absurd (
    ne (
      unfold begin_drain in
      sym (drain_for-workers s.graceful_shutdown_timeout (record s { queue_down = true }))))
Step-remaining {s} (drains grace p gone) ne h down = absurd (unfold return_with in ne refl)
Step-remaining {s} (expires n p) ne h down = absurd (unfold return_with in ne refl)

Step-down : {s s' : RunState} → Step s s' → s.queue_down ≡ true → s'.queue_down ≡ true
Step-down (syncs n p) down = unfold launch in down
Step-down (fails n p) down = unfold abandon in refl
Step-down (takes pre post eq up) down = down
Step-down (completes pre post eq) down = down
Step-down (leaves pre post eq shut) down = down
Step-down (sets d) down = unfold set_graceful_shutdown_timeout in down
Step-down {s} (cancels w) down =
    unfold begin_drain in
    drain_for-down s.graceful_shutdown_timeout (record s { queue_down = true })
Step-down (drains grace p gone) down = unfold return_with in down
Step-down (expires n p) down = unfold return_with in down

Runs-remaining :
    {n : ℕ} {s s' : RunState}
    → Runs n s s'
    → Promise s.phase s
    → s.queue_down ≡ true
    → n + remaining s'.workers ≤ remaining s.workers
Runs-remaining stands h down = omega arith
Runs-remaining (worked st ne more) h down =
    let (less, down') = Step-remaining st ne h down in
    omega (arith, less, Runs-remaining more (Step-Promise st h) down')
Runs-remaining (other st eq more) h down =
    omega (arith, ap remaining eq, Runs-remaining more (Step-Promise st h) (Step-down st down))

-- Once a drain has begun, the workers together make at most two steps for each of them, whatever else
-- happens between these and afterwards: the window is set again, the grace period ends, `Run` returns.
pub Runs-bound :
    {n : ℕ} {s s' : RunState} (grace : ℤ)
    → Reach s
    → s.phase ≡ draining grace
    → Runs n s s'
    → n ≤ 2 * length s.workers
Runs-bound {s = s} grace r p w =
    let down = draining_down grace s (subst (λ q. Promise q s) p (Reach-Promise r)) in
    omega (arith, Runs-remaining w (Reach-Promise r) down, remaining-length s.workers)

-- A drained state that the workers come to from `s`.
unfoldable pub Drained : RunState → Type 0
Drained s =
    (n : ℕ) × (s' : RunState) × Works n s s' × All (λ w. w ≡ left) s'.workers × (s'.phase ≡ s.phase)

other_worker :
    (pre post : List Worker) (w v : Worker) (ws : List Worker)
    → w ≢ v
    → ws ≡ pre ++ w ∷ post
    → ws ≢ pre ++ v ∷ post
other_worker pre post w v ws ne eq eq' = ne (
    some-eq (
      sym (get_elem?-append pre w post)
      ∙ ap (λ l. get_elem? l (length pre)) (sym eq ∙ eq')
      ∙ get_elem?-append pre v post))

Drained-leaves :
    (s : RunState) (pre post : List Worker)
    → s.workers ≡ pre ++ waiting ∷ post
    → s.queue_down ≡ true
    → Drained (record s { workers = pre ++ left ∷ post })
    → Drained s
unfolding Drained
Drained-leaves s pre post eq down (n, s', w, gone, p) = (
  suc n,
  s',
  works (leaves pre post eq down)
      (other_worker pre post waiting left s.workers (λ e. ground (arith, e)) eq) w,
  gone,
  p,
)

Drained-completes :
    (s : RunState) (pre post : List Worker)
    → s.workers ≡ pre ++ reconciling ∷ post
    → Drained (record s { workers = pre ++ waiting ∷ post })
    → Drained s
unfolding Drained
Drained-completes s pre post eq (n, s', w, gone, p) = (
  suc n,
  s',
  works (completes pre post eq)
      (other_worker pre post reconciling waiting s.workers (λ e. ground (arith, e)) eq) w,
  gone,
  p,
)

one_more : (pre : List Worker) → All (λ w. w ≡ left) pre → All (λ w. w ≡ left) (pre ++ left ∷ [])
one_more pre gone = All-append (λ w. w ≡ left) pre (left ∷ []) gone (refl, tt)

Drained-from :
    (pre ws : List Worker) (s : RunState)
    → All (λ w. w ≡ left) pre
    → s.workers ≡ pre ++ ws
    → s.queue_down ≡ true
    → Drained s
unfolding Drained
Drained-from pre [] s gone eq down =
    (0, s, rests, subst (All (λ w. w ≡ left)) (sym (eq ∙ append-nil pre)) gone, refl)
Drained-from pre (left ∷ ws) s gone eq down =
    Drained-from (pre ++ left ∷ []) ws s (one_more pre gone)
      (eq ∙ sym (append_assoc pre (left ∷ []) ws)) down
Drained-from pre (waiting ∷ ws) s gone eq down = Drained-leaves s pre ws eq down (
    Drained-from (pre ++ left ∷ []) ws (record s { workers = pre ++ left ∷ ws }) (one_more pre gone)
      (sym (append_assoc pre (left ∷ []) ws)) down)
Drained-from pre (reconciling ∷ ws) s gone eq down =
    let s' : RunState = record s { workers = pre ++ waiting ∷ ws } in
    Drained-completes s pre ws eq (
      Drained-leaves s' pre ws refl down (
        Drained-from (pre ++ left ∷ []) ws (record s { workers = pre ++ left ∷ ws })
          (one_more pre gone) (sym (append_assoc pre (left ∷ []) ws)) down))

-- A drain can always come to its end: from any moment of it, whatever is in flight, the workers can
-- complete and leave, and then `Run` returns cleanly; with a negative window too.
pub drain_returns :
    {s : RunState} (grace : ℤ)
    → Reach s
    → s.phase ≡ draining grace
    → (n : ℕ) × (s' : RunState) × Works n s s' × Step s' (return_with clean s')
unfolding Drained
drain_returns {s} grace r p =
    let down = draining_down grace s (subst (λ q. Promise q s) p (Reach-Promise r)) in
    let (n, s', w, gone, same) = Drained-from [] s.workers s tt refl down in
    (n, s', w, drains grace (same ∙ p) gone)
