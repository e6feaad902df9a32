-- ===== src/PriorityQueue/Spin/Cases.antt =====
-- The four ways in which a visit of `spin` ends, each with what led to it.
use unstructured_runtime.Prelude.{
  ℕ, suc, List, ◌∷◌, ◌+◌, ◌≡◌, ◌⊎◌, none, some, Bool, true, false, Comparable, inl, inr, Bool-cases,
  Option-cases, nat_beq,
}
use unstructured_runtime.PriorityQueue.Item.{Item}
use unstructured_runtime.PriorityQueue.Tree.{BTree}
use unstructured_runtime.PriorityQueue.State.{RateLimiter}
use unstructured_runtime.PriorityQueue.Spin.{
  Moment, Pass, time_left, wait_for, pass_over, take_out_of, give, visit, ascend,
}

module _ {T : Type 0} ⦃e : Comparable T⦄ {B : BTree T} {R : RateLimiter T} where
  pub visit_cases :
      (P : Pass B R × Bool → Type 0) (m : Moment) (it : Item T) (p : Pass B R)
      → ((left : ℕ) → time_left m it ≡ some left → P (wait_for m left p, false))
      → (time_left m it ≡ none
          → (nat_beq (p.state.waiters + m.arrivals) 0 ≡ true) ⊎ (p.state.locked it.key ≡ true)
          → P (pass_over m it p, true))
      → (time_left m it ≡ none
          → nat_beq (p.state.waiters + m.arrivals) 0 ≡ false
          → p.state.locked it.key ≡ false
          → m.abandoned ≡ true
          → P (take_out_of m it p, false))
      → (time_left m it ≡ none
          → nat_beq (p.state.waiters + m.arrivals) 0 ≡ false
          → p.state.locked it.key ≡ false
          → m.abandoned ≡ false
          → P (give m it p, true))
      → P (visit m it p)
  unfolding visit take_out_of give
  visit_cases P m it p waits passes takes gives = elim (Option-cases (time_left m it)) [
    | inr (left, late) ↦ rw (late, visit) (waits left late)
    | inl ready ↦ elim (Bool-cases (nat_beq (p.state.waiters + m.arrivals) 0)) [
      | inl idle ↦ rw (ready, idle, visit) (passes ready (inl idle))
      | inr waiting ↦ elim (Bool-cases (p.state.locked it.key)) [
        | inl held ↦ rw (ready, waiting, held, visit) (passes ready (inr held))
        | inr free ↦ elim (Bool-cases m.abandoned) [
          | inl gone ↦ rw (ready, waiting, free, gone, visit) (takes ready waiting free gone)
          | inr kept ↦ rw (ready, waiting, free, kept, visit) (gives ready waiting free kept)
        ]
      ]
    ]
  ]

  -- The pass goes on after a visit, or ends with it.
  pub ascend_more :
      (moments : ℕ → Moment) (it : Item T) (its : List (Item T)) (p : Pass B R)
      → (visit (moments 0) it p).1 ≡ true
      → ascend moments (it ∷ its) p ≡ ascend (λ n. moments (suc n)) its (visit (moments 0) it p).0
  unfolding ascend
  ascend_more moments it its p more = rw (more, ascend)

  pub ascend_over :
      (moments : ℕ → Moment) (it : Item T) (its : List (Item T)) (p : Pass B R)
      → (visit (moments 0) it p).1 ≡ false
      → ascend moments (it ∷ its) p ≡ (visit (moments 0) it p).0
  unfolding ascend
  ascend_over moments it its p over = rw (over, ascend)
