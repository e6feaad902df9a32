-- ===== src/PriorityQueue/Add/Merging.antt =====
-- What `AddWithOpts` promises: a queued key keeps the highest priority and the earliest instant that
-- it was added with (the comment on `PriorityQueue` in the source).
use mathlib.Core.Path.{ap₂}
use unstructured_runtime.Prelude.{
  ℕ, suc, ◌+◌, ◌<◌, ◌^◌, subst, length, some-eq, ◌≡◌, refl, sym, ap, ◌∙◌, Option, none, some, false,
  List, [], ◌∷◌, Comparable, if◌then◌else◌, arith, inl, inr, Option-cases, update, ltb, fun_ext,
}
use unstructured_runtime.Prelude.Int.{ℤ, ltb_ℤ}
use unstructured_runtime.PriorityQueue.Item.{Item}
use unstructured_runtime.PriorityQueue.Tree.{BTree}
use unstructured_runtime.PriorityQueue.State.{RateLimiter, PriorityQueue}
use unstructured_runtime.PriorityQueue.Add.{
  AddOpts, is_earlier, raise_priority, advance_ready, insert_new, merge, with_delay, add_one,
  add_all, add_with_opts, notify, ready_instant, delay,
}
use unstructured_runtime.PriorityQueue.Invariant.{IsValid}
use unstructured_runtime.PriorityQueue.Add.Invariant.{
  add_one_new, add_one_present, add_one-IsValid, add_all-IsValid, add_with_opts_running,
}

-- What a client can tell of a queued key: its priority and its instant.
abbrev pub Entry : Type 0
Entry = ℤ × Option ℕ

abbrev pub max_ℤ : ℤ → ℤ → ℤ
max_ℤ a b = if ltb_ℤ a b then b else a

abbrev pub earliest : Option ℕ → Option ℕ → Option ℕ
earliest none t = none
earliest (some s) none = none
earliest (some s) (some t) = if ltb t s then some t else some s

abbrev pub join : Entry → Option Entry → Entry
join new none = new
join (p, r) (some (q, s)) = (max_ℤ q p, earliest s r)

abbrev entry : {T : Type 0} → Option (Item T) → Option Entry
entry none = none
entry (some it) = some (it.priority, it.ready_at)

module _ {T : Type 0} ⦃e : Comparable T⦄ (R : RateLimiter T) where
  -- The entries after the keys were added one after another.
  unfoldable pub join_all :
      (ℕ → ℕ) → AddOpts → List T → R.State → (T → Option Entry) → T → Option Entry
  join_all clock o [] limiter m = m
  join_all clock o (k ∷ ks) limiter m =
      join_all (λ n. clock (suc n)) o ks (delay R o k limiter).1
        (update m k
          (some (join (o.priority, ready_instant (clock 0) (delay R o k limiter).0) (m k))))

merged_entry :
    {T : Type 0} (p : ℤ) (ready : Option ℕ) (it : Item T)
    → entry (some (advance_ready ready (raise_priority p it)))
      ≡ some (join (p, ready) (entry (some it)))
unfolding advance_ready raise_priority is_earlier
merged_entry p ready it = ground arith

module _ {T : Type 0} ⦃e : Comparable T⦄ {B : BTree T} {R : RateLimiter T} where
  unfoldable pub view : PriorityQueue B R → T → Option Entry
  view s k = entry (s.items k)

  -- The state `s'` has the entries of `s` joined with one more key, and asked the limiter once.
  Joined : ℕ → AddOpts → T → PriorityQueue B R → PriorityQueue B R → Type 0
  Joined now o k s s' =
      (view s'
        ≡ update (view s) k
            (some (join (o.priority, ready_instant now (delay R o k s.rate_limiter).0) (view s k))))
      × (s'.rate_limiter ≡ (delay R o k s.rate_limiter).1)

  insert_new-Joined :
      (now : ℕ) (o : AddOpts) (k : T) (s : PriorityQueue B R)
      → s.items k ≡ none
      → Joined now o k s
          (insert_new o k (ready_instant now (delay R o k s.rate_limiter).0) (with_delay o k s))
  unfolding Joined view insert_new with_delay
  insert_new-Joined now o k s new = (fun_ext λ j. ground (arith, new), refl)

  merge-Joined :
      (now : ℕ) (o : AddOpts) (k : T) (it : Item T) (rest : B.Tree) (s : PriorityQueue B R)
      → s.items k ≡ some it
      → Joined now o k s
          (merge o k (ready_instant now (delay R o k s.rate_limiter).0) it rest (with_delay o k s))
  unfolding Joined view merge with_delay
  merge-Joined now o k it rest s found = (
    fun_ext λ j. ground (
      arith,
      merged_entry o.priority (ready_instant now (delay R o k s.rate_limiter).0) it,
      found,
    ),
    refl,
  )

  add_one-Joined :
      (now : ℕ) (o : AddOpts) (k : T) (s s' : PriorityQueue B R)
      → IsValid s
      → add_one now o k s ≡ some s'
      → Joined now o k s s'
  add_one-Joined now o k s s' v step = elim (Option-cases (s.items k)) [
    | inl new ↦
        subst (Joined now o k s) (some-eq (sym (add_one_new now o k s new) ∙ step))
          (insert_new-Joined now o k s new)
    | inr (it, found) ↦
        subst (Joined now o k s) (some-eq (sym (add_one_present now o k it s v found) ∙ step))
          (merge-Joined now o k it (B.delete it s.queue).1 s found)
  ]

  view-add_all :
      (clock : ℕ → ℕ) (o : AddOpts) (ks : List T) (s s' : PriorityQueue B R)
      → IsValid s
      → s.added_counter + length ks < 2 ^ 64
      → add_all clock o ks s ≡ some s'
      → view s' ≡ join_all R clock o ks s.rate_limiter (view s)
  unfolding join_all add_all Joined
  view-add_all clock o [] s s' v room all = ap view (sym (some-eq all))
  view-add_all clock o (k ∷ ks) s s' v room all =
      let (s₁, step, v₁, grown) = add_one-IsValid (clock 0) o k s v (omega arith) in
      let joined = add_one-Joined (clock 0) o k s s₁ v step in
      let rest : add_all (λ n. clock (suc n)) o ks s₁ ≡ some s' = rw (step, add_all) at all in
      view-add_all (λ n. clock (suc n)) o ks s₁ s' v₁ (omega arith) rest
      ∙ ap₂ (λ l m. join_all R (λ n. clock (suc n)) o ks l m) joined.1 joined.0

  -- On a well-formed queue that runs, while the 64-bit counter does not wrap, `AddWithOpts` returns and leaves each key with the highest of the
  -- priorities and the earliest of the instants that it had or was given, nil being the earliest,
  -- as though the keys were joined to a map one after another; the other keys keep their entries.
  pub view-add_with_opts :
      (clock : ℕ → ℕ) (o : AddOpts) (ks : List T) (s : PriorityQueue B R)
      → IsValid s
      → s.added_counter + length ks < 2 ^ 64
      → s.shutdown ≡ false
      → (s' : PriorityQueue B R) × (add_with_opts clock o ks s ≡ some s')
        × (view s' ≡ join_all R clock o ks s.rate_limiter (view s))
  view-add_with_opts clock o [] s v room running =
      (s, unfold add_with_opts add_all in ground arith, unfold join_all in refl)
  view-add_with_opts clock o (k ∷ ks) s v room running =
      let (s₁, all, _) = add_all-IsValid clock o (k ∷ ks) s v room in
      (
        notify s₁,
        add_with_opts_running clock o k ks s s₁ running all,
        unfold view notify in view-add_all clock o (k ∷ ks) s s₁ v room all,
      )
