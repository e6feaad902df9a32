-- ===== src/PriorityQueue/Spin/Reachability.antt =====
-- The well-formedness of every queue that the program can reach
-- (pkg/controller/priorityqueue/priorityqueue.go).
use unstructured_runtime.Prelude.{
  ℕ, suc, ◌+◌, ◌^◌, ◌<◌, ◌≤◌, ◌≡◌, refl, sym, ap, subst, ◌∙◌, none, some, Bool, true, false, List,
  [], ◌∷◌, Comparable, arith, length, inl, inr, Bool-cases, Option-cases, some-eq, if◌then◌else◌,
}
use unstructured_runtime.PriorityQueue.Item.{Item}
use unstructured_runtime.PriorityQueue.Tree.{BTree}
use unstructured_runtime.PriorityQueue.Invariant.{IsValid, new-IsValid}
use unstructured_runtime.PriorityQueue.State.{RateLimiter, PriorityQueue, new}
use unstructured_runtime.PriorityQueue.Add.{
  AddOpts, notify, add_one, add_all, add_with_opts, insert_new, merge, with_delay,
}
use unstructured_runtime.PriorityQueue.Add.Invariant.{add_with_opts-IsValid}
use unstructured_runtime.PriorityQueue.Spin.{
  Moment, Pass, mark_ready, arrive, take_item, hand_off, wait_for, pass_over, take_out_of, give,
  visit, ascend, spin_round, begin_get, finish, shut_down,
}
use unstructured_runtime.PriorityQueue.Spin.Cases.{visit_cases, ascend_more, ascend_over}
use unstructured_runtime.PriorityQueue.Spin.Invariant.{spin_round-IsValid, finish-IsValid}
use unstructured_runtime.PriorityQueue.Spin.Exclusion.{
  Step, adds, spins, gets, finishes, shuts, Reach, start, next,
}

module _ {T : Type 0} ⦃e : Comparable T⦄ {B : BTree T} {R : RateLimiter T} where
  -- The counter of the items grows by one at most for each key that is added.
  add_one-counter :
      (now : ℕ) (o : AddOpts) (k : T) (s s' : PriorityQueue B R)
      → add_one now o k s ≡ some s'
      → s'.added_counter ≤ s.added_counter + 1
  unfolding add_one insert_new merge with_delay
  add_one-counter now o k s s' step = ground (arith, step)

  add_all-counter :
      (clock : ℕ → ℕ) (o : AddOpts) (ks : List T) (s s' : PriorityQueue B R)
      → add_all clock o ks s ≡ some s'
      → s'.added_counter ≤ s.added_counter + length ks
  unfolding add_all
  add_all-counter clock o [] s s' all =
      omega (arith, ap (λ (q : PriorityQueue B R). q.added_counter) (some-eq all))
  add_all-counter clock o (k ∷ ks) s s' all = elim (Option-cases (add_one (clock 0) o k s)) [
    | inl fault ↦ absurd (let no : none ≡ some s' = rw (fault, add_all) at all in cc)
    | inr (s₁, step) ↦ omega (
      arith,
      add_one-counter (clock 0) o k s s₁ step,
      add_all-counter (λ n. clock (suc n)) o ks s₁ s' (rw (step, add_all) at all),
    )
  ]

  add_with_opts-counter :
      (clock : ℕ → ℕ) (o : AddOpts) (ks : List T) (s s' : PriorityQueue B R)
      → add_with_opts clock o ks s ≡ some s'
      → s'.added_counter ≤ s.added_counter + length ks
  unfolding add_with_opts notify
  add_with_opts-counter clock o [] s s' added = unfold add_all in ground arith
  add_with_opts-counter clock o (k ∷ ks) s s' added =
      elim (Option-cases (add_all clock o (k ∷ ks) s)) [
        | inl fault ↦ ground (arith, fault)
        | inr (s₁, all) ↦ ground (arith, add_all-counter clock o (k ∷ ks) s s₁ all, all)
      ]

  visit-counter :
      (m : Moment) (it : Item T) (p : Pass B R)
      → (visit m it p).0.state.added_counter ≡ p.state.added_counter
  unfolding wait_for pass_over take_out_of give take_item mark_ready arrive hand_off
  visit-counter m it p =
      visit_cases (λ r. r.0.state.added_counter ≡ p.state.added_counter) m it p (λ left late. refl)
        (λ ready why. refl) (λ ready waiting free woken. refl) (λ ready waiting free woken. refl)

  ascend-counter :
      (moments : ℕ → Moment) (its : List (Item T)) (p : Pass B R)
      → (ascend moments its p).state.added_counter ≡ p.state.added_counter
  ascend-counter moments [] p = unfold ascend in refl
  ascend-counter moments (it ∷ its) p = elim (Bool-cases (visit (moments 0) it p).1) [
    | inl more ↦
        ap (λ (q : Pass B R). q.state.added_counter) (ascend_more moments it its p more)
        ∙ ascend-counter (λ n. moments (suc n)) its (visit (moments 0) it p).0
        ∙ visit-counter (moments 0) it p
    | inr over ↦
        ap (λ (q : Pass B R). q.state.added_counter) (ascend_over moments it its p over)
        ∙ visit-counter (moments 0) it p
  ]

  spin_round-counter :
      (moments : ℕ → Moment) (s : PriorityQueue B R)
      → (spin_round moments s).0.added_counter ≡ s.added_counter
  unfolding spin_round
  spin_round-counter moments s =
      ascend-counter moments (B.ascend s.queue)
        (record { state = s; to_delete = []; next_ready = none })

  wake-IsValid : (s : PriorityQueue B R) → IsValid s → IsValid (notify (arrive 1 s))
  unfolding notify arrive
  wake-IsValid s v = record {
    sorted = v.sorted;
    distinct = v.distinct;
    indexed = v.indexed;
    below = v.below;
    absent = v.absent;
    depth = v.depth;
  }

  begin_get-IsValid : (s : PriorityQueue B R) → IsValid s → IsValid (begin_get s).0
  unfolding begin_get
  begin_get-IsValid s v =
      elim s.shutdown
        as (λ b.
          IsValid
            (if◌then◌else◌ {A = PriorityQueue B R × Bool} b (s, false)
              (notify (arrive 1 s), true)).0) [ true ↦ v | false ↦ wake-IsValid s v ]

  begin_get-counter : (s : PriorityQueue B R) → (begin_get s).0.added_counter ≡ s.added_counter
  unfolding begin_get notify arrive
  begin_get-counter s = ground arith

  shut_down-IsValid : (s : PriorityQueue B R) → IsValid s → IsValid (shut_down s)
  unfolding shut_down
  shut_down-IsValid s v = record {
    sorted = v.sorted;
    distinct = v.distinct;
    indexed = v.indexed;
    below = v.below;
    absent = v.absent;
    depth = v.depth;
  }

  -- How many keys were given to `AddWithOpts`.
  unfoldable keys_of : {s s' : PriorityQueue B R} {f f' : List T} → Step s f s' f' → ℕ
  keys_of (adds clock o ks added) = length ks
  keys_of (spins moments xs given) = 0
  keys_of gets = 0
  keys_of (finishes k) = 0
  keys_of shuts = 0

  unfoldable pub keys_added :
      {limiter : R.State} {s : PriorityQueue B R} {f : List T} → Reach limiter s f → ℕ
  unfolding keys_of
  keys_added start = 0
  keys_added (next r st) = keys_added r + keys_of st

  -- A well-formed queue with a counter of at most `n`.
  IsWithin : ℕ → PriorityQueue B R → Type 0
  IsWithin n s = IsValid s × (s.added_counter ≤ n)

  Step-IsWithin :
      {s s' : PriorityQueue B R} {f f' : List T} (st : Step s f s' f') (n : ℕ)
      → n + keys_of st < 2 ^ 64
      → IsWithin n s
      → IsWithin (n + keys_of st) s'
  unfolding IsWithin keys_of
  Step-IsWithin {s} {s'} (adds clock o ks added) n room (v, low) =
      let (s₁, same, v₁) = add_with_opts-IsValid clock o ks s v (omega arith) in
      (
        subst IsValid (some-eq (sym same ∙ added)) v₁,
        omega (arith, add_with_opts-counter clock o ks s s' added),
      )
  Step-IsWithin {s} (spins moments xs given) n room (v, low) =
      (spin_round-IsValid moments s v, omega (arith, spin_round-counter moments s))
  Step-IsWithin {s} gets n room (v, low) =
      (begin_get-IsValid s v, omega (arith, begin_get-counter s))
  Step-IsWithin {s} (finishes k) n room (v, low) =
      (finish-IsValid k s v, unfold finish notify in omega arith)
  Step-IsWithin {s} shuts n room (v, low) = (shut_down-IsValid s v, unfold shut_down in omega arith)

  Reach-IsWithin :
      {limiter : R.State} {s : PriorityQueue B R} {f : List T} (r : Reach limiter s f)
      → keys_added r < 2 ^ 64
      → IsWithin (keys_added r) s
  unfolding keys_added IsWithin new
  Reach-IsWithin {limiter} start room = (new-IsValid B R limiter, omega arith)
  Reach-IsWithin (next r st) room =
      Step-IsWithin st (keys_added r) room (Reach-IsWithin r (omega arith))

  -- However adds, rounds of `spin`, calls of `Get`, `Done` and the shutdown interleave from a new
  -- queue on, the queue is well-formed as long as fewer than 2^64 keys were added: map and tree hold
  -- the same items, in order, and the depth metric is that of the items. No further add of keys, the
  -- bound included, faults.
  pub Reach-IsValid :
      {limiter : R.State} {s : PriorityQueue B R} {f : List T} (r : Reach limiter s f)
      (clock : ℕ → ℕ) (o : AddOpts) (ks : List T)
      → keys_added r + length ks < 2 ^ 64
      → IsValid s × ((s' : PriorityQueue B R) × (add_with_opts clock o ks s ≡ some s'))
  unfolding IsWithin
  Reach-IsValid {s = s} r clock o ks room =
      let (v, low) = Reach-IsWithin r (omega arith) in
      let (s', added, v') = add_with_opts-IsValid clock o ks s v (omega arith) in (v, (s', added))
