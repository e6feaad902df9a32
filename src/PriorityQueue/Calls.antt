-- ===== src/PriorityQueue/Calls.antt =====
-- The other calls of pkg/controller/priorityqueue/priorityqueue.go, which are made of `AddWithOpts`,
-- `GetWithPriority` and `ShutDown`, and the options of `New`.
use unstructured_runtime.Prelude.{
  ℕ, ◌+◌, ◌<◌, ◌^◌, ◌≡◌, Option, none, some, Bool, true, false, List, [], ◌∷◌, Comparable, update,
}
use unstructured_runtime.Prelude.Int.{ℤ, pos}
use unstructured_runtime.PriorityQueue.Item.{Item}
use unstructured_runtime.PriorityQueue.Tree.{BTree}
use unstructured_runtime.PriorityQueue.Invariant.{IsValid}
use unstructured_runtime.PriorityQueue.State.{RateLimiter, PriorityQueue}
use unstructured_runtime.PriorityQueue.Add.{AddOpts, add_with_opts, delay, ready_instant}
use unstructured_runtime.PriorityQueue.Add.Merging.{view, join, join_all, view-add_with_opts}
use unstructured_runtime.PriorityQueue.Spin.{end_get, shut_down}

-- The options, of values `H` of other packages; nil is `none`.
pub record Opts (H : Type 0) : Type 0 where
  pub rate_limiter : Option H
  pub metric_provider : Option H
  pub log : Option H

module _ {H : Type 0} where
  -- The options of `New` in order, from none set.
  unfoldable pub apply_opts : List (Opts H → Opts H) → Opts H → Opts H
  apply_opts [] o = o
  apply_opts (f ∷ fs) o = apply_opts fs (f o)

  abbrev pub default_to : Option H → H → Option H
  default_to none d = some d
  default_to (some h) d = some h

  -- The options with the defaults of `New`.
  unfoldable pub new_opts : H → H → H → List (Opts H → Opts H) → Opts H
  unfolding apply_opts
  new_opts limiter provider nop fs =
      let o = apply_opts fs (record { rate_limiter = none; metric_provider = none; log = none }) in
      record {
        rate_limiter = default_to o.rate_limiter limiter;
        metric_provider = default_to o.metric_provider provider;
        log = default_to o.log nop;
      }

-- `AddOpts{}`
abbrev pub plain_opts : AddOpts
plain_opts = record { after = pos 0; rate_limited = false; priority = pos 0 }

module _ {T : Type 0} ⦃e : Comparable T⦄ {B : BTree T} {R : RateLimiter T} where
  unfoldable pub add : (ℕ → ℕ) → T → PriorityQueue B R → Option (PriorityQueue B R)
  add clock k s = add_with_opts clock plain_opts (k ∷ []) s

  unfoldable pub add_after : (ℕ → ℕ) → T → ℤ → PriorityQueue B R → Option (PriorityQueue B R)
  add_after clock k after s = add_with_opts clock (record plain_opts { after = after }) (k ∷ []) s

  unfoldable pub add_rate_limited : (ℕ → ℕ) → T → PriorityQueue B R → Option (PriorityQueue B R)
  add_rate_limited clock k s =
      add_with_opts clock (record plain_opts { rate_limited = true }) (k ∷ []) s

  -- The end of `Get`, on the item that it received.
  unfoldable pub get : Item T → PriorityQueue B R → T × Bool
  unfolding end_get
  get it s = let (k, p, shut) = end_get it s in (k, shut)

  unfoldable pub shutting_down : PriorityQueue B R → Bool
  shutting_down s = s.shutdown

  unfoldable pub shut_down_with_drain : PriorityQueue B R → PriorityQueue B R
  unfolding shut_down
  shut_down_with_drain s = shut_down s

  -- The queue after an add of the key at an instant.
  Queued : T → Option ℕ → PriorityQueue B R → Option (PriorityQueue B R) → Type 0
  Queued k ready s r =
      (s' : PriorityQueue B R) × (r ≡ some s')
      × (view s' ≡ update (view s) k (some (join (pos 0, ready) (view s k))))

  -- On a well-formed queue that runs, `Add` queues the key at once, `AddAfter` after the delay, and
  -- `AddRateLimited` after what the limiter gives, all with the priority 0, and none faults; a key that is
  -- queued keeps a higher priority and an earlier instant, and no other key changes.
  adds_lem :
      (clock : ℕ → ℕ) (k : T) (after : ℤ) (s : PriorityQueue B R)
      → IsValid s
      → s.added_counter + 1 < 2 ^ 64
      → s.shutdown ≡ false
      → Queued k none s (add clock k s)
        × Queued k (ready_instant (clock 0) after) s (add_after clock k after s)
        × Queued k
            (ready_instant (clock 0) (R.when k s.rate_limiter).0)
            s
            (add_rate_limited clock k s)
  unfolding add add_after add_rate_limited Queued join_all delay ready_instant
  adds_lem clock k after s v room running = (
    view-add_with_opts clock plain_opts (k ∷ []) s v room running,
    view-add_with_opts clock (record plain_opts { after = after }) (k ∷ []) s v room running,
    view-add_with_opts clock (record plain_opts { rate_limited = true }) (k ∷ []) s v room running,
  )
