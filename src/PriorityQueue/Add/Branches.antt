-- ===== src/PriorityQueue/Add/Branches.antt =====
-- The two branches of a round of `AddWithOpts`, a new item and one that the queue holds, keep the
-- queue well formed.
use unstructured_runtime.Prelude.{
  ℕ, ◌+◌, ◌^◌, ◌<◌, ◌≤◌, ◌≡◌, sym, ap, ◌∙◌, Option, none, some, List, Comparable, All-map, All-zip,
  arith,
}
use unstructured_runtime.Prelude.Int.{ℤ}
use unstructured_runtime.PriorityQueue.Item.{Item}
use unstructured_runtime.PriorityQueue.Tree.{
  BTree, Fresh, lookup_key, put-All, put-Sorted, put-Distinct, take_out-All, take_out-Sorted,
  take_out-Distinct, lookup_key-put, lookup_key-take_out, lookup_key-none, lookup_key-All,
  Fresh-take_out, tally-put, tally-take_out, take_out,
}
use unstructured_runtime.PriorityQueue.State.{RateLimiter, PriorityQueue}
use unstructured_runtime.PriorityQueue.Add.{
  AddOpts, raise_priority, advance_ready, note_raise, note_ready, insert_new, merge, with_delay,
}
use unstructured_runtime.PriorityQueue.Add.Depth.{
  key-raise_priority, key-advance_ready, counter-raise_priority, counter-advance_ready, raise-depth,
  ready-depth,
}
use unstructured_runtime.PriorityQueue.Invariant.{IsValid, weight, depth_incs, depth_decs}

module _ {T : Type 0} ⦃e : Comparable T⦄ {B : BTree T} {R : RateLimiter T} where
  pub with_delay-IsValid :
      (o : AddOpts) (k : T) (s : PriorityQueue B R) → IsValid s → IsValid (with_delay o k s)
  unfolding with_delay
  with_delay-IsValid o k s v = record {
    sorted = v.sorted;
    distinct = v.distinct;
    indexed = v.indexed;
    below = v.below;
    absent = v.absent;
    depth = λ p. unfold depth_incs depth_decs in ground (arith, v.depth p);
  }

  pub insert_new-IsValid :
      (o : AddOpts) (k : T) (ready : Option ℕ) (s : PriorityQueue B R)
      → IsValid s
      → s.items k ≡ none
      → s.added_counter + 1 < 2 ^ 64
      → IsValid (insert_new o k ready s)
  unfolding insert_new
  insert_new-IsValid o k ready s v new room = record {
    sorted = rw B.ascend-replace_or_insert (put-Sorted item l fresh v.sorted);
    distinct = rw B.ascend-replace_or_insert (put-Distinct item l fresh v.distinct);
    indexed = λ j.
        rw B.ascend-replace_or_insert (ground (arith, v.indexed j, lookup_key-put j item l fresh));
    below =
        rw B.ascend-replace_or_insert
          (put-All _ item l (omega arith) (All-map (λ y h. omega arith) l v.below));
    absent = λ j h. ground (arith, v.absent j);
    depth = λ p. rw B.ascend-replace_or_insert (
        unfold depth_incs depth_decs in
        ground
          (arith, v.depth p, v.absent k new, tally-put (weight s.became_ready p) item l fresh));
  }
    where
      l : List (Item T)
      l = B.ascend s.queue

      item : Item T
      item = record {
        key = k;
        added_counter = s.added_counter;
        priority = o.priority;
        ready_at = ready;
      }

      fresh : Fresh item l
      fresh =
          All-zip _ _ l (lookup_key-none k l (sym (v.indexed k) ∙ new))
            (All-map (λ y h c. omega arith) l v.below)

  pub merge-IsValid :
      (o : AddOpts) (k : T) (ready : Option ℕ) (it : Item T) (rest : B.Tree) (s : PriorityQueue B R)
      → IsValid s
      → s.items k ≡ some it
      → B.ascend rest ≡ take_out it (B.ascend s.queue)
      → IsValid (merge o k ready it rest s)
  unfolding merge
  merge-IsValid o k ready it rest s v found taken = record {
    sorted =
        rw (B.ascend-replace_or_insert, taken)
          (put-Sorted merged l fresh (take_out-Sorted it _ v.sorted));
    distinct =
        rw (B.ascend-replace_or_insert, taken)
          (put-Distinct merged l fresh (take_out-Distinct it _ v.distinct));
    indexed = λ j.
        rw (B.ascend-replace_or_insert, taken)
          (ground (
            arith,
            lookup_key-put j merged l fresh,
            lookup_key-take_out j it l₀ v.distinct present,
            v.indexed j,
            key_eq,
            at.1,
          ));
    below =
        rw (B.ascend-replace_or_insert, taken)
          (put-All _ merged l (omega (arith, counter_eq, at.0)) (take_out-All _ it _ v.below));
    absent = λ j h. ground (arith, v.absent j);
    depth = λ p.
        rw (B.ascend-replace_or_insert, taken)
          (omega (
            arith,
            v.depth p,
            tally-put (weight s.became_ready p) merged l fresh,
            tally-take_out (weight s.became_ready p) it l₀ v.distinct present,
            raised_depth p,
            merged_depth p,
          ));
  }
    where
      raised : Item T
      raised = raise_priority o.priority it

      merged : Item T
      merged = advance_ready ready raised

      l₀ : List (Item T)
      l₀ = B.ascend s.queue

      l : List (Item T)
      l = take_out it l₀

      at : (it.added_counter < s.added_counter) × (it.key ≡ k)
      at = lookup_key-All _ k l₀ it v.below (sym (v.indexed k) ∙ found)

      present : lookup_key it.key l₀ ≡ some it
      present = ap (λ j. lookup_key j l₀) at.1 ∙ sym (v.indexed k) ∙ found

      key_eq : merged.key ≡ it.key
      key_eq = key-advance_ready ready raised ∙ key-raise_priority o.priority it

      counter_eq : merged.added_counter ≡ it.added_counter
      counter_eq = counter-advance_ready ready raised ∙ counter-raise_priority o.priority it

      fresh : Fresh merged l
      fresh =
          All-map (λ y h. (λ c. h.0 (c ∙ key_eq), λ c. h.1 (c ∙ counter_eq))) l
            (Fresh-take_out it l₀ v.distinct present)

      raised_depth :
          (p : ℤ)
          → depth_incs p (note_raise o.priority (s.became_ready k) it s.metrics)
              + depth_decs p s.metrics
              + weight s.became_ready p it
            ≡ depth_decs p (note_raise o.priority (s.became_ready k) it s.metrics)
              + depth_incs p s.metrics
              + weight s.became_ready p raised
      raised_depth p = rw (← at.1) (raise-depth p o.priority s.became_ready it s.metrics)

      merged_depth :
          (p : ℤ)
          → depth_incs p (
                note_ready ready
                  (s.became_ready k)
                  raised
                  (note_raise o.priority (s.became_ready k) it s.metrics))
              + depth_decs p (note_raise o.priority (s.became_ready k) it s.metrics)
              + weight s.became_ready p raised
            ≡ depth_decs p (
                note_ready ready
                  (s.became_ready k)
                  raised
                  (note_raise o.priority (s.became_ready k) it s.metrics))
              + depth_incs p (note_raise o.priority (s.became_ready k) it s.metrics)
              + weight s.became_ready p merged
      merged_depth p =
          rw (← (key-raise_priority o.priority it ∙ at.1))
            (ready-depth p ready s.became_ready raised _)

  pub insert_counter-le :
      (o : AddOpts) (k : T) (ready : Option ℕ) (s : PriorityQueue B R)
      → (insert_new o k ready s).added_counter ≤ s.added_counter + 1
  unfolding insert_new
  insert_counter-le o k ready s = omega arith
