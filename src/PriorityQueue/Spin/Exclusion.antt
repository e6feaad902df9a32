-- ===== src/PriorityQueue/Spin/Exclusion.antt =====
-- Mutual exclusion: no key is with two workers at a time.
use mathlib.Core.List.{append-nil, append_assoc, append_cancel_left}
use unstructured_runtime.Prelude.{
  ℕ, suc, ◌≡◌, ◌≢◌, ◌⊎◌, refl, sym, ap, ◌∙◌, none, some, Bool, true, false, not, List, [], ◌∷◌,
  ◌++◌, Comparable, ◌==◌, All, All-map, arith, inl, inr, Bool-cases, update, select, some-eq,
  Option-cases, subst, equals_refl,
}
use unstructured_runtime.PriorityQueue.Item.{Item}
use unstructured_runtime.PriorityQueue.Tree.{BTree}
use unstructured_runtime.PriorityQueue.State.{RateLimiter, PriorityQueue, new}
use unstructured_runtime.PriorityQueue.Add.{
  AddOpts, notify, add_one, add_all, add_with_opts, insert_new, merge, with_delay,
}
use unstructured_runtime.PriorityQueue.Spin.{
  Moment, Pass, mark_ready, arrive, take_item, hand_off, wait_for, pass_over, take_out_of, give,
  visit, ascend, spin_round, begin_get, finish, shut_down,
}
use unstructured_runtime.PriorityQueue.Spin.Cases.{visit_cases, ascend_more, ascend_over}

-- The keys of the items, each put in front of those before it.
abbrev pub push_keys : {T : Type 0} → List (Item T) → List T → List T
push_keys [] f = f
push_keys (x ∷ xs) f = push_keys xs (x.key ∷ f)

abbrev pub NoTwins : {T : Type 0} → List T → Type 0
NoTwins [] = Unit
NoTwins (k ∷ ks) = All (λ j. j ≢ k) ks × NoTwins ks

module _ {T : Type 0} ⦃e : Comparable T⦄ where
  -- The keys `f` are locked, each once.
  abbrev Held : (T → Bool) → List T → Type 0
  Held locked f = All (λ k. locked k ≡ true) f × NoTwins f

  Held-lock :
      (locked : T → Bool) (k : T) (f : List T) → Held locked f → Held (update locked k true) f
  Held-lock locked k f h = (All-map (λ j l. ground (arith, l)) f h.0, h.1)

  Held-take :
      (locked : T → Bool) (k : T) (f : List T)
      → locked k ≡ false
      → Held locked f
      → Held (update locked k true) (k ∷ f)
  Held-take locked k f free h =
      ((rw (equals_refl k), (Held-lock locked k f h).0), (All-map (λ j l c. cc) f h.0, h.1))

  abbrev pub drop_key : T → List T → List T
  drop_key k = select λ j. not (k == j)

  drop_key-All : (P : T → Type 0) (k : T) (f : List T) → All P f → All P (drop_key k f)
  drop_key-All P k [] h = tt
  drop_key-All P k (j ∷ js) h = ground (arith, drop_key-All P k js h.1)

  drop_key-locked :
      (locked : T → Bool) (k : T) (f : List T)
      → All (λ j. locked j ≡ true) f
      → All (λ j. update locked k false j ≡ true) (drop_key k f)
  drop_key-locked locked k [] h = tt
  drop_key-locked locked k (j ∷ js) h = ground (arith, drop_key-locked locked k js h.1)

  drop_key-NoTwins : (k : T) (f : List T) → NoTwins f → NoTwins (drop_key k f)
  drop_key-NoTwins k [] h = tt
  drop_key-NoTwins k (j ∷ js) h =
      ground (arith, drop_key-All (λ i. i ≢ j) k js h.0, drop_key-NoTwins k js h.1)

module _ {T : Type 0} ⦃e : Comparable T⦄ {B : BTree T} {R : RateLimiter T} where
  -- A visit delivers nothing, or the one item.
  abbrev After : Item T → Pass B R → List T → Pass B R → Type 0
  After it p f q =
      ((q.state.delivered ≡ p.state.delivered) × Held q.state.locked f)
      ⊎ ((q.state.delivered ≡ p.state.delivered ++ it ∷ []) × Held q.state.locked (it.key ∷ f))

  visit-After :
      (m : Moment) (it : Item T) (p : Pass B R) (f : List T)
      → Held p.state.locked f
      → After it p f (visit m it p).0
  unfolding wait_for pass_over take_out_of give take_item mark_ready arrive hand_off
  visit-After m it p f h =
      visit_cases (λ r. After it p f r.0) m it p (λ left late. inl (refl, h))
        (λ ready why. inl (refl, h))
        (λ ready waiting free woken. inl (refl, Held-lock p.state.locked it.key f h))
        (λ ready waiting free woken. inr (refl, Held-take p.state.locked it.key f free h))

  Delivers : PriorityQueue B R → List T → PriorityQueue B R → List (Item T) → Type 0
  Delivers s f s' xs = (s'.delivered ≡ s.delivered ++ xs) × Held s'.locked (push_keys xs f)

  ascend-Delivers :
      (moments : ℕ → Moment) (its : List (Item T)) (p : Pass B R) (f : List T)
      → Held p.state.locked f
      → (xs : List (Item T)) × Delivers p.state f (ascend moments its p).state xs
  unfolding ascend Delivers
  ascend-Delivers moments [] p f h = ([], (sym (append-nil _), h))
  ascend-Delivers moments (it ∷ its) p f h =
      let q = visit (moments 0) it p in
      elim (Bool-cases q.1) [
        | inl more ↦
            continue (visit-After (moments 0) it p f h) more
              (ascend-Delivers (λ n. moments (suc n)) its q.0)
        | inr over ↦ stop (visit-After (moments 0) it p f h) over
      ]
    where
      q₀ : Pass B R
      q₀ = (visit (moments 0) it p).0

      stop :
          After it p f q₀
          → (visit (moments 0) it p).1 ≡ false
          → (xs : List (Item T)) × Delivers p.state f (ascend moments (it ∷ its) p).state xs
      stop (inl (same, h')) over =
          subst (λ r. (xs : List (Item T)) × Delivers p.state f r.state xs)
            (sym (ascend_over moments it its p over)) ([], (same ∙ sym (append-nil _), h'))
      stop (inr (one, h')) over =
          subst (λ r. (xs : List (Item T)) × Delivers p.state f r.state xs)
            (sym (ascend_over moments it its p over)) (it ∷ [], (one, h'))

      continue :
          After it p f q₀
          → (visit (moments 0) it p).1 ≡ true
          → ((g : List T)
              → Held q₀.state.locked g
              → (xs : List (Item T)) × Delivers q₀.state g
                  (ascend (λ n. moments (suc n)) its q₀).state
                  xs)
          → (xs : List (Item T)) × Delivers p.state f (ascend moments (it ∷ its) p).state xs
      continue (inl (same, h')) more rest =
          let (xs, dk) = rest f h' in
          subst (λ r. (ys : List (Item T)) × Delivers p.state f r.state ys)
            (sym (ascend_more moments it its p more)) (xs, (dk.0 ∙ ap (λ l. l ++ xs) same, dk.1))
      continue (inr (one, h')) more rest =
          let (xs, dk) = rest (it.key ∷ f) h' in
          subst (λ r. (ys : List (Item T)) × Delivers p.state f r.state ys)
            (sym (ascend_more moments it its p more))
            (
              it ∷ xs,
              (dk.0 ∙ ap (λ l. l ++ xs) one ∙ append_assoc p.state.delivered (it ∷ []) xs, dk.1),
            )

  add_one-locked :
      (now : ℕ) (o : AddOpts) (k : T) (s s' : PriorityQueue B R)
      → add_one now o k s ≡ some s'
      → s'.locked ≡ s.locked
  unfolding add_one insert_new merge with_delay
  add_one-locked now o k s s' step = ground arith

  add_all-locked :
      (clock : ℕ → ℕ) (o : AddOpts) (ks : List T) (s s' : PriorityQueue B R)
      → add_all clock o ks s ≡ some s'
      → s'.locked ≡ s.locked
  unfolding add_all
  add_all-locked clock o [] s s' all = ap (λ q. q.locked) (sym (some-eq all))
  add_all-locked clock o (k ∷ ks) s s' all = elim (Option-cases (add_one (clock 0) o k s)) [
    | inl fault ↦ absurd (let no : none ≡ some s' = rw (fault, add_all) at all in cc)
    | inr (s₁, step) ↦
        add_all-locked (λ n. clock (suc n)) o ks s₁ s' (rw (step, add_all) at all)
        ∙ add_one-locked (clock 0) o k s s₁ step
  ]

  add_with_opts-locked :
      (clock : ℕ → ℕ) (o : AddOpts) (ks : List T) (s s' : PriorityQueue B R)
      → add_with_opts clock o ks s ≡ some s'
      → s'.locked ≡ s.locked
  unfolding add_with_opts notify
  add_with_opts-locked clock o [] s s' added = unfold add_all in ground arith
  add_with_opts-locked clock o (k ∷ ks) s s' added =
      elim (Option-cases (add_all clock o (k ∷ ks) s)) [
        | inl fault ↦ ground (arith, fault)
        | inr (s₁, all) ↦ ground (arith, add_all-locked clock o (k ∷ ks) s s₁ all, all)
      ]

  begin_get-locked : (s : PriorityQueue B R) → (begin_get s).0.locked ≡ s.locked
  unfolding begin_get notify arrive
  begin_get-locked s = ground arith

  -- What a step of the program does to the queue and to the keys that workers hold: a round of
  -- `spin` gives them the keys that it delivers, and `Done` takes one back.
  pub data Step : PriorityQueue B R → List T → PriorityQueue B R → List T → Type 0 where
    adds :
        {s s' : PriorityQueue B R} {f : List T} (clock : ℕ → ℕ) (o : AddOpts) (ks : List T)
        → add_with_opts clock o ks s ≡ some s'
        → Step s f s' f
    spins :
        {s : PriorityQueue B R} {f : List T} (moments : ℕ → Moment) (xs : List (Item T))
        → (spin_round moments s).0.delivered ≡ s.delivered ++ xs
        → Step s f (spin_round moments s).0 (push_keys xs f)
    gets : {s : PriorityQueue B R} {f : List T} → Step s f (begin_get s).0 f
    finishes : {s : PriorityQueue B R} {f : List T} (k : T) → Step s f (finish k s) (drop_key k f)
    shuts : {s : PriorityQueue B R} {f : List T} → Step s f (shut_down s) f

  pub data Reach (limiter : R.State) : PriorityQueue B R → List T → Type 0 where
    start : Reach limiter (new B R limiter) []
    next :
        {s s' : PriorityQueue B R} {f f' : List T}
        → Reach limiter s f
        → Step s f s' f'
        → Reach limiter s' f'

  spin-Held :
      (moments : ℕ → Moment) (s : PriorityQueue B R) (f : List T) (xs : List (Item T))
      → Held s.locked f
      → (spin_round moments s).0.delivered ≡ s.delivered ++ xs
      → Held (spin_round moments s).0.locked (push_keys xs f)
  unfolding spin_round Delivers
  spin-Held moments s f xs h given =
      let (ys, dk) =
        ascend-Delivers moments (B.ascend s.queue)
          (record { state = s; to_delete = []; next_ready = none }) f h in
      subst (λ l. Held (spin_round moments s).0.locked (push_keys l f))
        (append_cancel_left s.delivered _ _ (sym dk.0 ∙ given)) dk.1

  Step-Held :
      {s s' : PriorityQueue B R} {f f' : List T}
      → Step s f s' f'
      → Held s.locked f
      → Held s'.locked f'
  Step-Held {s} {s'} {f} (adds clock o ks added) h =
      subst (λ l. Held l f) (sym (add_with_opts-locked clock o ks s s' added)) h
  Step-Held {s} {f = f} (spins moments xs given) h = spin-Held moments s f xs h given
  Step-Held {s} {f = f} gets h = subst (λ l. Held l f) (sym (begin_get-locked s)) h
  Step-Held {s} {f = f} (finishes k) h =
      unfold finish notify in (drop_key-locked s.locked k f h.0, drop_key-NoTwins k f h.1)
  Step-Held shuts h = unfold shut_down in h

  Reach-Held :
      {limiter : R.State} {s : PriorityQueue B R} {f : List T} → Reach limiter s f → Held s.locked f
  Reach-Held start = (tt, tt)
  Reach-Held (next r st) = Step-Held st (Reach-Held r)

  -- However adds, rounds of `spin`, calls of `Get`, `Done` and the shutdown interleave, from a new
  -- queue on, the keys that workers hold are all different: no key is handed to a second worker
  -- before `Done` was called for the first.
  pub Reach-NoTwins :
      {limiter : R.State} {s : PriorityQueue B R} {f : List T} → Reach limiter s f → NoTwins f
  Reach-NoTwins r = (Reach-Held r).1
