-- ===== src/PriorityQueue/Add/Depth.antt =====
-- The metrics calls of a merge change the reported depth as the merge changes the item.
use unstructured_runtime.Prelude.{ℕ, ◌+◌, ◌≡◌, Option, Bool, List, arith}
use unstructured_runtime.Prelude.Int.{ℤ}
use unstructured_runtime.PriorityQueue.Item.{Item}
use unstructured_runtime.PriorityQueue.State.{MetricCall}
use unstructured_runtime.PriorityQueue.Add.{
  is_earlier, raise_priority, advance_ready, note_raise, note_ready,
}
use unstructured_runtime.PriorityQueue.Invariant.{weight, depth_incs, depth_decs}

module _ {T : Type 0} where
  pub key-raise_priority : (q : ℤ) (it : Item T) → (raise_priority q it).key ≡ it.key
  unfolding raise_priority
  key-raise_priority q it = ground arith

  pub key-advance_ready : (ready : Option ℕ) (it : Item T) → (advance_ready ready it).key ≡ it.key
  unfolding advance_ready
  key-advance_ready ready it = ground arith

  pub counter-raise_priority :
      (q : ℤ) (it : Item T) → (raise_priority q it).added_counter ≡ it.added_counter
  unfolding raise_priority
  counter-raise_priority q it = ground arith

  pub counter-advance_ready :
      (ready : Option ℕ) (it : Item T) → (advance_ready ready it).added_counter ≡ it.added_counter
  unfolding advance_ready
  counter-advance_ready ready it = ground arith

  pub raise-depth :
      (p q : ℤ) (became : T → Bool) (it : Item T) (calls : List (MetricCall T))
      → depth_incs p (note_raise q (became it.key) it calls)
          + depth_decs p calls
          + weight became p it
        ≡ depth_decs p (note_raise q (became it.key) it calls)
          + depth_incs p calls
          + weight became p (raise_priority q it)
  unfolding note_raise raise_priority depth_incs depth_decs
  raise-depth p q became it calls = ground arith

  pub ready-depth :
      (p : ℤ) (ready : Option ℕ) (became : T → Bool) (it : Item T) (calls : List (MetricCall T))
      → depth_incs p (note_ready ready (became it.key) it calls)
          + depth_decs p calls
          + weight became p it
        ≡ depth_decs p (note_ready ready (became it.key) it calls)
          + depth_incs p calls
          + weight became p (advance_ready ready it)
  unfolding note_ready advance_ready is_earlier depth_incs depth_decs
  ready-depth p ready became it calls = ground arith
