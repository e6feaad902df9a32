-- ===== src/PriorityQueue/Spin/Invariant.antt =====
-- A round of `spin`, `Done` and the calls of `Get` keep the queue well formed.
use unstructured_runtime.Prelude.{
  ℕ, suc, ◌≡◌, ◌≢◌, refl, sym, ◌∙◌, some, Bool, true, false, ◌&&◌, ◌||◌, not, List, [], ◌∷◌, ◌++◌,
  Comparable, All, All-map, arith, inl, inr, Bool-cases, update, equals-false, equals_refl,
}
use unstructured_runtime.Prelude.Int.{ℤ}
use unstructured_runtime.PriorityQueue.Item.{Item}
use unstructured_runtime.PriorityQueue.Tree.{
  BTree, Distinct, Fresh, lookup_key, tally, take_out, take_out-All, take_out-Sorted,
  take_out-Distinct, lookup_key-take_out, Fresh-take_out, tally-take_out, tally-eq, lookup_key_self,
}
use unstructured_runtime.PriorityQueue.State.{RateLimiter, PriorityQueue}
use unstructured_runtime.PriorityQueue.Add.{is_nil, notify}
use unstructured_runtime.PriorityQueue.Invariant.{IsValid, weight, depth_incs, depth_decs}
use unstructured_runtime.PriorityQueue.Spin.{
  Moment, Pass, is_delayed, mark_ready, arrive, wait_for, pass_over, take_out_of, give, take_item,
  hand_off, visit, ascend, delete_all, spin_round, finish,
}
use unstructured_runtime.PriorityQueue.Spin.Cases.{visit_cases}

module _ {T : Type 0} ⦃e : Comparable T⦄ where
  delete_all-append :
      (B : BTree T) (xs : List (Item T)) (x : Item T) (t : B.Tree)
      → delete_all B (xs ++ x ∷ []) t ≡ (B.delete x (delete_all B xs t)).1
  unfolding delete_all
  delete_all-append B [] x t = refl
  delete_all-append B (y ∷ ys) x t = delete_all-append B ys x (B.delete y t).1

  -- Marking one key, or clearing it, does not weigh on the items with other keys.
  tally-update :
      (became : T → Bool) (b : Bool) (p : ℤ) (x : Item T) (l : List (Item T))
      → Fresh x l
      → tally (weight (update became x.key b) p) l ≡ tally (weight became p) l
  tally-update became b p x l f =
      tally-eq _ _ l (All-map (λ y h. rw (equals-false x.key y.key (λ c. h.0 (sym c)))) l f)

module _ {T : Type 0} ⦃e : Comparable T⦄ {B : BTree T} {R : RateLimiter T} where
  mark_ready-IsValid :
      (it : Item T) (s : PriorityQueue B R)
      → IsValid s
      → s.items it.key ≡ some it
      → IsValid (mark_ready it s)
  unfolding mark_ready
  mark_ready-IsValid it s v found = record {
    sorted = v.sorted;
    distinct = v.distinct;
    indexed = v.indexed;
    below = v.below;
    absent = λ j h. ground (arith, v.absent j h, e.equals_iff it.key j);
    depth = λ p. elim (Bool-cases (is_delayed it && not (s.became_ready it.key))) [
      | inl late ↦ rw late (
          unfold depth_incs depth_decs in
          ground (
            arith,
            v.depth p,
            tally-take_out (weight s.became_ready p) it l v.distinct here,
            tally-take_out (weight (update s.became_ready it.key true) p) it l v.distinct here,
            tally-update s.became_ready true p it (take_out it l)
                (Fresh-take_out it l v.distinct here),
            late,
            equals_refl it.key,
          ))
      | inr old ↦ rw old (v.depth p)
    ];
  }
    where
      l : List (Item T)
      l = B.ascend s.queue

      here : lookup_key it.key l ≡ some it
      here = sym (v.indexed it.key) ∙ found

  take_item-IsValid :
      (it : Item T) (s : PriorityQueue B R)
      → IsValid s
      → s.items it.key ≡ some it
      → (is_nil it.ready_at || s.became_ready it.key) ≡ true
      → IsValid (record (take_item it s) { queue = (B.delete it s.queue).1 })
  unfolding take_item
  take_item-IsValid it s v found counted = record {
    sorted = rw B.ascend-delete (take_out-Sorted it l v.sorted);
    distinct = rw B.ascend-delete (take_out-Distinct it l v.distinct);
    indexed = λ j.
        rw (B.ascend-delete, lookup_key-take_out j it l v.distinct here)
          (ground (arith, v.indexed j));
    below = rw B.ascend-delete (take_out-All _ it l v.below);
    absent = λ j h. ground (arith, v.absent j);
    depth = λ p.
        rw
          (
            B.ascend-delete,
            tally-update s.became_ready false p it (take_out it l)
                (Fresh-take_out it l v.distinct here),
          )
          (unfold depth_incs depth_decs in
            ground
              (arith, v.depth p, tally-take_out (weight s.became_ready p) it l v.distinct here));
  }
    where
      l : List (Item T)
      l = B.ascend s.queue

      here : lookup_key it.key l ≡ some it
      here = sym (v.indexed it.key) ∙ found

  mark_ready-counted :
      (it : Item T) (s : PriorityQueue B R)
      → (is_nil it.ready_at || (mark_ready it s).became_ready it.key) ≡ true
  unfolding mark_ready
  mark_ready-counted it s = ground (arith, equals_refl it.key)

  -- The queue as it is once the items to delete have left the tree.
  abbrev settle : Pass B R → PriorityQueue B R
  settle p = record p.state { queue = delete_all B p.to_delete p.state.queue }

  arrive-IsValid : (n : ℕ) (s : PriorityQueue B R) → IsValid s → IsValid (arrive n s)
  unfolding arrive
  arrive-IsValid n s v = record {
    sorted = v.sorted;
    distinct = v.distinct;
    indexed = v.indexed;
    below = v.below;
    absent = v.absent;
    depth = v.depth;
  }

  hand_off-IsValid : (it : Item T) (s : PriorityQueue B R) → IsValid s → IsValid (hand_off it s)
  unfolding hand_off
  hand_off-IsValid it s v = record {
    sorted = v.sorted;
    distinct = v.distinct;
    indexed = v.indexed;
    below = v.below;
    absent = v.absent;
    depth = v.depth;
  }

  wait_for-IsValid :
      (m : Moment) (left : ℕ) (p : Pass B R)
      → IsValid (settle p)
      → IsValid (settle (wait_for m left p))
  unfolding wait_for arrive
  wait_for-IsValid m left p v = arrive-IsValid m.arrivals (settle p) v

  pass_over-IsValid :
      (m : Moment) (it : Item T) (p : Pass B R)
      → IsValid (settle p)
      → p.state.items it.key ≡ some it
      → IsValid (settle (pass_over m it p))
  unfolding pass_over mark_ready arrive
  pass_over-IsValid m it p v found =
      mark_ready-IsValid it (arrive m.arrivals (settle p)) (arrive-IsValid m.arrivals (settle p) v)
        found

  take_out_of-IsValid :
      (m : Moment) (it : Item T) (p : Pass B R)
      → IsValid (settle p)
      → p.state.items it.key ≡ some it
      → IsValid (settle (take_out_of m it p))
  unfolding take_out_of take_item mark_ready arrive
  take_out_of-IsValid m it p v found =
      let s = mark_ready it (arrive m.arrivals (settle p)) in
      rw (delete_all-append B p.to_delete it p.state.queue) (
        take_item-IsValid it s
          (mark_ready-IsValid it (arrive m.arrivals (settle p))
            (arrive-IsValid m.arrivals (settle p) v) found)
          found (mark_ready-counted it (arrive m.arrivals (settle p))))

  give-IsValid :
      (m : Moment) (it : Item T) (p : Pass B R)
      → IsValid (settle p)
      → p.state.items it.key ≡ some it
      → IsValid (settle (give m it p))
  unfolding give take_out_of hand_off
  give-IsValid m it p v found =
      hand_off-IsValid it (settle (take_out_of m it p)) (take_out_of-IsValid m it p v found)

  visit-IsValid :
      (m : Moment) (it : Item T) (p : Pass B R)
      → IsValid (settle p)
      → p.state.items it.key ≡ some it
      → IsValid (settle (visit m it p).0)
  visit-IsValid m it p v found =
      visit_cases (λ r. IsValid (settle r.0)) m it p (λ left late. wait_for-IsValid m left p v)
        (λ ready why. pass_over-IsValid m it p v found)
        (λ ready waiting free woken. take_out_of-IsValid m it p v found)
        (λ ready waiting free woken. give-IsValid m it p v found)

  -- A visit leaves the other keys in the map.
  visit-items :
      (m : Moment) (it : Item T) (p : Pass B R) (j : T)
      → it.key ≢ j
      → (visit m it p).0.state.items j ≡ p.state.items j
  unfolding wait_for pass_over take_out_of give take_item mark_ready arrive hand_off
  visit-items m it p j other =
      visit_cases (λ r. r.0.state.items j ≡ p.state.items j) m it p (λ left late. refl)
        (λ ready why. refl) (λ ready waiting free woken. rw (equals-false it.key j other))
        (λ ready waiting free woken. rw (equals-false it.key j other))

  visit-present :
      (m : Moment) (it : Item T) (p : Pass B R) (its : List (Item T))
      → Fresh it its
      → All (λ x. p.state.items x.key ≡ some x) its
      → All (λ x. (visit m it p).0.state.items x.key ≡ some x) its
  visit-present m it p [] f h = tt
  visit-present m it p (x ∷ xs) f h =
      (visit-items m it p x.key (λ c. f.0.0 (sym c)) ∙ h.0, visit-present m it p xs f.1 h.1)

  ascend-IsValid :
      (moments : ℕ → Moment) (its : List (Item T)) (p : Pass B R)
      → Distinct its
      → All (λ x. p.state.items x.key ≡ some x) its
      → IsValid (settle p)
      → IsValid (settle (ascend moments its p))
  unfolding ascend
  ascend-IsValid moments [] p d h v = v
  ascend-IsValid moments (it ∷ its) p d h v =
      let q = visit (moments 0) it p in
      let v' = visit-IsValid (moments 0) it p v h.0 in
      let h' = visit-present (moments 0) it p its d.0 h.1 in
      elim (Bool-cases q.1) [
        | inl more ↦ rw (more, ascend) (ascend-IsValid (λ n. moments (suc n)) its q.0 d.1 h' v')
        | inr over ↦ rw (over, ascend) v'
      ]

  items-present :
      (s : PriorityQueue B R) (l : List (Item T))
      → ((k : T) → s.items k ≡ lookup_key k (B.ascend s.queue))
      → All (λ x. lookup_key x.key (B.ascend s.queue) ≡ some x) l
      → All (λ x. s.items x.key ≡ some x) l
  items-present s l i h = All-map (λ x found. i x.key ∙ found) l h

  -- Whatever the clock, the callers of `Get` and the shutdown do while it runs, a round of `spin`
  -- keeps a well-formed queue so: what it hands out has left the tree and the map alike, each item
  -- that becomes ready is counted once, and the depth that the metrics report stays exact.
  pub spin_round-IsValid :
      (moments : ℕ → Moment) (s : PriorityQueue B R) → IsValid s → IsValid (spin_round moments s).0
  unfolding spin_round delete_all
  spin_round-IsValid moments s v =
      ascend-IsValid moments (B.ascend s.queue) _ v.distinct
        (items-present s (B.ascend s.queue) v.indexed
          (lookup_key_self (B.ascend s.queue) v.distinct))
        v

  -- `Done` keeps a well-formed queue so.
  pub finish-IsValid : (k : T) (s : PriorityQueue B R) → IsValid s → IsValid (finish k s)
  unfolding finish notify depth_incs depth_decs
  finish-IsValid k s v = record {
    sorted = v.sorted;
    distinct = v.distinct;
    indexed = v.indexed;
    below = v.below;
    absent = v.absent;
    depth = v.depth;
  }
