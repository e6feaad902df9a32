-- ===== src/PriorityQueue/Add/Invariant.antt =====
-- `AddWithOpts` keeps the queue well formed, and does not fault.
use unstructured_runtime.Prelude.{
  ℕ, suc, ◌+◌, ◌^◌, ◌<◌, ◌≤◌, ◌≡◌, refl, sym, ap, ◌∙◌, none, some, false, List, [], ◌∷◌, Comparable,
  arith, length, inl, inr, Bool-cases, Option-cases,
}
use unstructured_runtime.PriorityQueue.Item.{Item}
use unstructured_runtime.PriorityQueue.Tree.{BTree, lookup_key, lookup_key-All, find_equal_lem}
use unstructured_runtime.PriorityQueue.State.{RateLimiter, PriorityQueue}
use unstructured_runtime.PriorityQueue.Add.{
  AddOpts, insert_new, merge, with_delay, add_one, add_all, add_with_opts, notify, ready_instant,
  delay,
}
use unstructured_runtime.PriorityQueue.Invariant.{IsValid}
use unstructured_runtime.PriorityQueue.Add.Branches.{
  with_delay-IsValid, insert_new-IsValid, merge-IsValid, insert_counter-le,
}

module _ {T : Type 0} ⦃e : Comparable T⦄ {B : BTree T} {R : RateLimiter T} where
  delete_present :
      (k : T) (it : Item T) (s : PriorityQueue B R)
      → IsValid s
      → s.items k ≡ some it
      → (B.delete it s.queue).0 ≡ some it
  delete_present k it s v found =
      let here : lookup_key k (B.ascend s.queue) ≡ some it = sym (v.indexed k) ∙ found in
      let at = lookup_key-All _ k (B.ascend s.queue) it v.below here in
      B.delete-found it s.queue
      ∙ find_equal_lem it (B.ascend s.queue) v.distinct
          (ap (λ j. lookup_key j (B.ascend s.queue)) at.1 ∙ here)

  pub add_one_new :
      (now : ℕ) (o : AddOpts) (k : T) (s : PriorityQueue B R)
      → s.items k ≡ none
      → add_one now o k s
        ≡ some
            (insert_new o k (ready_instant now (delay R o k s.rate_limiter).0) (with_delay o k s))
  unfolding add_one
  add_one_new now o k s new = rw (new, add_one)

  pub add_one_present :
      (now : ℕ) (o : AddOpts) (k : T) (it : Item T) (s : PriorityQueue B R)
      → IsValid s
      → s.items k ≡ some it
      → add_one now o k s
        ≡ some (
            merge o k
              (ready_instant now (delay R o k s.rate_limiter).0)
              it
              (B.delete it s.queue).1
              (with_delay o k s))
  unfolding add_one
  add_one_present now o k it s v found = rw (found, delete_present k it s v found, add_one)

  -- One round does not fault and keeps the queue well formed.
  pub add_one-IsValid :
      (now : ℕ) (o : AddOpts) (k : T) (s : PriorityQueue B R)
      → IsValid s
      → s.added_counter + 1 < 2 ^ 64
      → (s' : PriorityQueue B R) × (add_one now o k s ≡ some s')
        × IsValid s'
        × (s'.added_counter ≤ s.added_counter + 1)
  add_one-IsValid now o k s v room =
      let s₁ = with_delay o k s in
      let v₁ = with_delay-IsValid o k s v in
      let ready = ready_instant now (delay R o k s.rate_limiter).0 in
      elim (Option-cases (s.items k)) [
        | inl new ↦ (
          insert_new o k ready s₁,
          add_one_new now o k s new,
          unfold with_delay in insert_new-IsValid o k ready s₁ v₁ new room,
          unfold with_delay in insert_counter-le o k ready s₁,
        )
        | inr (it, found) ↦ (
          merge o k ready it (B.delete it s.queue).1 s₁,
          add_one_present now o k it s v found,
          unfold with_delay in
              merge-IsValid o k ready it (B.delete it s.queue).1 s₁ v₁ found
                (B.ascend-delete it s.queue),
          unfold merge with_delay in omega arith,
        )
      ]

  pub add_all-IsValid :
      (clock : ℕ → ℕ) (o : AddOpts) (ks : List T) (s : PriorityQueue B R)
      → IsValid s
      → s.added_counter + length ks < 2 ^ 64
      → (s' : PriorityQueue B R) × (add_all clock o ks s ≡ some s') × IsValid s'
  unfolding add_all
  add_all-IsValid clock o [] s v room = (s, refl, v)
  add_all-IsValid clock o (k ∷ ks) s v room =
      let (s₁, step, v₁, grown) = add_one-IsValid (clock 0) o k s v (omega arith) in
      let (s₂, rest, v₂) = add_all-IsValid (λ n. clock (suc n)) o ks s₁ v₁ (omega arith) in
      (s₂, rw (step, add_all) rest, v₂)

  notify-IsValid : (s : PriorityQueue B R) → IsValid s → IsValid (notify s)
  unfolding notify
  notify-IsValid s v = record {
    sorted = v.sorted;
    distinct = v.distinct;
    indexed = v.indexed;
    below = v.below;
    absent = v.absent;
    depth = v.depth;
  }

  pub add_with_opts_running :
      (clock : ℕ → ℕ) (o : AddOpts) (k : T) (ks : List T) (s s' : PriorityQueue B R)
      → s.shutdown ≡ false
      → add_all clock o (k ∷ ks) s ≡ some s'
      → add_with_opts clock o (k ∷ ks) s ≡ some (notify s')
  unfolding add_with_opts
  add_with_opts_running clock o k ks s s' running all = ground arith

  -- While the 64-bit counter does not wrap, `AddWithOpts` returns, on a well-formed queue that is
  -- shut down or not and with any options and keys, without reading through a nil pointer, and keeps
  -- the queue well formed: sorted, with the map and the tree in step, and with a depth, as the calls
  -- of the metrics report it for each priority, that is the number of items that are ready.
  pub add_with_opts-IsValid :
      (clock : ℕ → ℕ) (o : AddOpts) (ks : List T) (s : PriorityQueue B R)
      → IsValid s
      → s.added_counter + length ks < 2 ^ 64
      → (s' : PriorityQueue B R) × (add_with_opts clock o ks s ≡ some s') × IsValid s'
  unfolding add_with_opts
  add_with_opts-IsValid clock o [] s v room = (s, unfold add_all in ground arith, v)
  add_with_opts-IsValid clock o (k ∷ ks) s v room =
      let (s', all, v') = add_all-IsValid clock o (k ∷ ks) s v room in
      elim (Bool-cases s.shutdown) [
        | inl shut ↦ (s, ground arith, v)
        | inr running ↦
            (notify s', add_with_opts_running clock o k ks s s' running all, notify-IsValid s' v')
      ]
