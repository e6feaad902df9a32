-- ===== src/PriorityQueue/Spin.antt =====
-- `spin`, `GetWithPriority`, `Done`, `ShutDown` and `Len` of
-- pkg/controller/priorityqueue/priorityqueue.go. A pass of `spin` visits the items of the tree in
-- order; what other goroutines and the clock do meanwhile is a `Moment` for each item visited.
pub mod Invariant
pub mod Cases
pub mod Exclusion
pub mod Order
pub mod Reachability
use unstructured_runtime.Prelude.{
  ℕ, zero, suc, ◌+◌, ◌-◌, ◌≡◌, Option, none, some, Bool, true, false, ◌&&◌, not, List, [], ◌∷◌,
  ◌++◌, Comparable, ◌==◌, ltb, leb, nat_beq, if◌then◌else◌, update,
}
use unstructured_runtime.Prelude.Int.{ℤ, pos}
use unstructured_runtime.PriorityQueue.Item.{Item}
use unstructured_runtime.PriorityQueue.Tree.{BTree}
use unstructured_runtime.PriorityQueue.State.{
  RateLimiter, PriorityQueue, MetricCall, add, get, done,
}
use unstructured_runtime.PriorityQueue.Add.{notify}

-- What is so when an item is visited: the reading of the clock, the calls of `Get` that came since
-- the visit before, and whether the hand-off wakes by `done` and not by a receiver.
pub record Moment : Type 0 where
  pub now : ℕ
  pub arrivals : ℕ
  pub abandoned : Bool

-- The variables of a pass: the queue, `toDelete` and `nextReady` (the time that is left).
pub record Pass {T : Type 0} (B : BTree T) (R : RateLimiter T) : Type 0 where
  pub state : PriorityQueue B R
  pub to_delete : List (Item T)
  pub next_ready : Option ℕ

module _ {T : Type 0} where
  -- An item that is not ready: the time that is left.
  abbrev pub time_left : Moment → Item T → Option ℕ
  time_left m it = elim it.ready_at [
    | none ↦ none
    | some t ↦ if ltb m.now t then some (t - m.now) else none
  ]

  abbrev pub is_delayed : Item T → Bool
  is_delayed it = elim it.ready_at [ none ↦ false | some t ↦ true ]

  unfoldable pub delete_all : (B : BTree T) → List (Item T) → B.Tree → B.Tree
  delete_all B [] t = t
  delete_all B (it ∷ its) t = delete_all B its (B.delete it t).1

  -- `Len` stops at the first item that is not ready.
  unfoldable pub count_ready : (ℕ → ℕ) → List (Item T) → ℕ
  count_ready clock [] = 0
  count_ready clock (it ∷ its) =
      let rest = count_ready (λ n. clock (suc n)) its in
      elim it.ready_at [ none ↦ suc rest | some t ↦ if leb t (clock 0) then suc rest else 0 ]

module _ {T : Type 0} ⦃e : Comparable T⦄ {B : BTree T} {R : RateLimiter T} where
  -- An item whose instant has come is counted once.
  unfoldable pub mark_ready : Item T → PriorityQueue B R → PriorityQueue B R
  mark_ready it s =
      let fresh = is_delayed it && not (s.became_ready it.key) in
      record s {
        metrics = if fresh then add it.key it.priority ∷ s.metrics else s.metrics;
        became_ready = if fresh then update s.became_ready it.key true else s.became_ready;
      }

  unfoldable pub arrive : ℕ → PriorityQueue B R → PriorityQueue B R
  arrive n s = record s { waiters = s.waiters + n }

  -- The item is locked and leaves the map; the tree is changed after the pass.
  unfoldable pub take_item : Item T → PriorityQueue B R → PriorityQueue B R
  take_item it s = record s {
    metrics = get it.key it.priority ∷ s.metrics;
    locked = update s.locked it.key true;
    locked_priority = update s.locked_priority it.key (some it.priority);
    waiters = s.waiters - 1;
    items = update s.items it.key none;
    became_ready = update s.became_ready it.key false;
  }

  unfoldable pub hand_off : Item T → PriorityQueue B R → PriorityQueue B R
  hand_off it s = record s { delivered = s.delivered ++ it ∷ [] }

  -- The ways in which a visit leaves the pass: not ready, passed over, taken but not delivered,
  -- taken and delivered.
  unfoldable pub wait_for : Moment → ℕ → Pass B R → Pass B R
  wait_for m left p = record p { state = arrive m.arrivals p.state; next_ready = some left }

  unfoldable pub pass_over : Moment → Item T → Pass B R → Pass B R
  pass_over m it p = record p { state = mark_ready it (arrive m.arrivals p.state) }

  unfoldable pub take_out_of : Moment → Item T → Pass B R → Pass B R
  take_out_of m it p = record p {
    state = take_item it (mark_ready it (arrive m.arrivals p.state));
    to_delete = p.to_delete ++ it ∷ [];
  }

  unfoldable pub give : Moment → Item T → Pass B R → Pass B R
  give m it p = record p {
    state = hand_off it (take_item it (mark_ready it (arrive m.arrivals p.state)));
    to_delete = p.to_delete ++ it ∷ [];
  }

  -- The callback of `Ascend`: the pass after the item, and whether to go on.
  unfoldable pub visit : Moment → Item T → Pass B R → Pass B R × Bool
  visit m it p = elim (time_left m it) [
    | some left ↦ (wait_for m left p, false)
    | none ↦
        if nat_beq (p.state.waiters + m.arrivals) 0
        then (pass_over m it p, true)
        else if p.state.locked it.key
        then (pass_over m it p, true)
        else if m.abandoned
        then (take_out_of m it p, false)
        else (give m it p, true)
  ]

  unfoldable pub ascend : (ℕ → Moment) → List (Item T) → Pass B R → Pass B R
  ascend moments [] p = p
  ascend moments (it ∷ its) p =
      let (p', more) = visit (moments 0) it p in
      elim more [ false ↦ p' | true ↦ ascend (λ n. moments (suc n)) its p' ]

  -- One round of the loop of `spin`: the queue after it, and the timer that it set.
  unfoldable pub spin_round : (ℕ → Moment) → PriorityQueue B R → PriorityQueue B R × Option ℕ
  spin_round moments s =
      let p =
        ascend moments (B.ascend s.queue)
          (record { state = s; to_delete = []; next_ready = none }) in
      (record p.state { queue = delete_all B p.to_delete p.state.queue }, p.next_ready)

  -- The start of `GetWithPriority`: `false` if the queue is shut down.
  unfoldable pub begin_get : PriorityQueue B R → PriorityQueue B R × Bool
  begin_get s = if s.shutdown then (s, false) else (notify (arrive 1 s), true)

  -- The end of `GetWithPriority`, on the item that it received.
  unfoldable pub end_get : Item T → PriorityQueue B R → T × ℤ × Bool
  end_get it s = (it.key, it.priority, s.shutdown)

  -- `Done`
  unfoldable pub finish : T → PriorityQueue B R → PriorityQueue B R
  finish k s = notify (record s {
    locked = update s.locked k false;
    locked_priority = update s.locked_priority k none;
    metrics = done k (elim (s.locked_priority k) [ none ↦ pos 0 | some p ↦ p ]) ∷ s.metrics;
  })

  unfoldable pub shut_down : PriorityQueue B R → PriorityQueue B R
  shut_down s = record s { shutdown = true }

  unfoldable pub forget : T → PriorityQueue B R → PriorityQueue B R
  forget k s = record s { rate_limiter = R.forget k s.rate_limiter }

  unfoldable pub num_requeues : T → PriorityQueue B R → ℕ
  num_requeues k s = R.num_requeues k s.rate_limiter

  unfoldable pub len : (ℕ → ℕ) → PriorityQueue B R → ℕ
  unfolding count_ready
  len clock s = count_ready clock (B.ascend s.queue)
