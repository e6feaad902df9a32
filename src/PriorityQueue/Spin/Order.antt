-- ===== src/PriorityQueue/Spin/Order.antt =====
-- What a round of `spin` hands out, and what `Len` counts, when the clock stands still and nobody
-- interferes: the first ready and unlocked items, in the order of the tree.
use mathlib.Core.Path.{ap₂}
use mathlib.Core.List.{append-nil, append_assoc}
use unstructured_runtime.Prelude.{
  ℕ, zero, suc, ◌+◌, ◌-◌, ◌≡◌, ◌⊎◌, refl, sym, ap, ◌∙◌, none, some, Bool, true, false, ◌&&◌, not,
  List, [], ◌∷◌, ◌++◌, Comparable, All, All-map, arith, inl, inr, Bool-cases, update, select, take,
  length, leb, nat_beq, equals-false,
}
use unstructured_runtime.PriorityQueue.Item.{Item, less}
use unstructured_runtime.PriorityQueue.Tree.{BTree, Sorted, Distinct, Fresh}
use unstructured_runtime.PriorityQueue.State.{RateLimiter, PriorityQueue}
use unstructured_runtime.PriorityQueue.Invariant.{IsValid}
use unstructured_runtime.PriorityQueue.Spin.{
  Moment, Pass, time_left, mark_ready, arrive, take_item, hand_off, wait_for, pass_over, give,
  ascend, spin_round, count_ready, len,
}
use unstructured_runtime.PriorityQueue.Spin.Cases.{visit_cases}

abbrev pub is_ready : {T : Type 0} → ℕ → Item T → Bool
is_ready now it = elim it.ready_at [ none ↦ true | some t ↦ leb t now ]

abbrev pub quiet : ℕ → Moment
quiet now = record { now = now; arrivals = 0; abandoned = false }

module _ {T : Type 0} where
  -- After an item that is not ready nothing is ready: the instants come first in the order.
  less-ready :
      (now : ℕ) (x y : Item T) → less x y ≡ true → is_ready now x ≡ false → is_ready now y ≡ false
  unfolding less
  less-ready now x y h late = ground arith

  select-none : (p : Item T → Bool) (l : List (Item T)) → All (λ y. p y ≡ false) l → select p l ≡ []
  select-none p [] h = refl
  select-none p (y ∷ ys) h = ground (arith, select-none p ys h.1)

  select-eq :
      (p q : Item T → Bool) (l : List (Item T)) → All (λ y. p y ≡ q y) l → select p l ≡ select q l
  select-eq p q [] h = refl
  select-eq p q (y ∷ ys) h = ground (arith, select-eq p q ys h.1)

  late-rest :
      (now : ℕ) (x : Item T) (l : List (Item T))
      → All (λ y. less x y ≡ true) l
      → is_ready now x ≡ false
      → All (λ y. is_ready now y ≡ false) l
  late-rest now x l h late = All-map (λ y b. less-ready now x y b late) l h

  take-nil : (n : ℕ) → take {A = Item T} n [] ≡ []
  take-nil zero = refl
  take-nil (suc n) = refl

  -- `Len` stops early and still counts every item that is ready.
  count_ready_lem :
      (now : ℕ) (l : List (Item T))
      → Sorted l
      → count_ready (λ n. now) l ≡ length (select (is_ready now) l)
  unfolding count_ready
  count_ready_lem now [] h = refl
  count_ready_lem now (y ∷ ys) h = elim (Bool-cases (is_ready now y)) [
    | inl ready ↦ ground (arith, count_ready_lem now ys h.1)
    | inr late ↦ ground (arith, late, select-none (is_ready now) ys (late-rest now y ys h.0 late))
  ]

module _ {T : Type 0} where
  -- The item is ready, and no worker holds its key.
  abbrev pub can_go : ℕ → (T → Bool) → Item T → Bool
  can_go now locked it = is_ready now it && not (locked it.key)

  select-late :
      (now : ℕ) (locked : T → Bool) (x : Item T) (l : List (Item T))
      → All (λ y. less x y ≡ true) l
      → is_ready now x ≡ false
      → select (can_go now locked) (x ∷ l) ≡ []
  select-late now locked x l h late =
      select-none (can_go now locked) (x ∷ l)
        (ground (arith, late), All-map (λ y b. ground (arith, b)) l (late-rest now x l h late))

  select-held :
      (now : ℕ) (locked : T → Bool) (x : Item T) (l : List (Item T))
      → locked x.key ≡ true
      → select (can_go now locked) (x ∷ l) ≡ select (can_go now locked) l
  select-held now locked x l held = ground arith

  select-free :
      (now : ℕ) (locked : T → Bool) (x : Item T) (l : List (Item T))
      → is_ready now x ≡ true
      → locked x.key ≡ false
      → select (can_go now locked) (x ∷ l) ≡ x ∷ select (can_go now locked) l
  select-free now locked x l ready free = ground arith

  -- Locking a key changes nothing for the items with other keys.
  select-locked :
      ⦃e : Comparable T⦄ (now : ℕ) (locked : T → Bool) (x : Item T) (l : List (Item T))
      → Fresh x l
      → select (can_go now (update locked x.key true)) l ≡ select (can_go now locked) l
  select-locked now locked x l f =
      select-eq _ _ l (All-map (λ y h. rw (equals-false x.key y.key (λ c. h.0 (sym c)))) l f)

  take_idle :
      (n : ℕ) (xs ys : List (Item T)) → nat_beq (n + 0) 0 ≡ true → take (n + 0) xs ≡ take n ys
  take_idle zero xs ys h = refl
  take_idle (suc n) xs ys h = ground arith

  take-cons :
      (n : ℕ) (x : Item T) (xs : List (Item T))
      → nat_beq (n + 0) 0 ≡ false
      → take n (x ∷ xs) ≡ x ∷ take (n + 0 - 1) xs
  take-cons zero x xs h = ground arith
  take-cons (suc n) x xs h = ap (λ m. x ∷ take m xs) (omega arith)

module _ {T : Type 0} ⦃e : Comparable T⦄ {B : BTree T} {R : RateLimiter T} where
  -- With the clock at `now`, `Len` is the number of a well-formed queue's items that are ready, although it looks no further than the
  -- first item that is not.
  pub len_lem :
      (now : ℕ) (s : PriorityQueue B R)
      → IsValid s
      → len (λ n. now) s ≡ length (select (is_ready now) (B.ascend s.queue))
  unfolding len
  len_lem now s v = count_ready_lem now (B.ascend s.queue) v.sorted

  resume : ℕ → List (Item T) → Pass B R × Bool → Pass B R
  resume now its (p, true) = ascend (λ n. quiet now) its p
  resume now its (p, false) = p

  -- What the items `its` add to what was delivered.
  abbrev chosen : ℕ → List (Item T) → Pass B R → List (Item T)
  chosen now its p =
      p.state.delivered ++ take p.state.waiters (select (can_go now p.state.locked) its)

  waits :
      (now left : ℕ) (it : Item T) (its : List (Item T)) (p : Pass B R)
      → Sorted (it ∷ its)
      → time_left (quiet now) it ≡ some left
      → (wait_for (quiet now) left p).state.delivered ≡ chosen now (it ∷ its) p
  unfolding wait_for arrive
  waits now left it its p h late =
      let not_ready : is_ready now it ≡ false = ground arith in
      rw (select-late now p.state.locked it its h.0 not_ready, take-nil p.state.waiters)
        (sym (append-nil p.state.delivered))

  passes :
      (now : ℕ) (it : Item T) (its : List (Item T)) (p : Pass B R)
      → (nat_beq (p.state.waiters + 0) 0 ≡ true) ⊎ (p.state.locked it.key ≡ true)
      → chosen now its (pass_over (quiet now) it p) ≡ chosen now (it ∷ its) p
  unfolding pass_over mark_ready arrive
  passes now it its p (inl idle) =
      ap (λ l. p.state.delivered ++ l) (take_idle p.state.waiters _ _ idle)
  passes now it its p (inr held) =
      ap (λ l. p.state.delivered ++ l)
        (ap₂ take (omega arith) (sym (select-held now p.state.locked it its held)))

  gives :
      (now : ℕ) (it : Item T) (its : List (Item T)) (p : Pass B R)
      → Distinct (it ∷ its)
      → time_left (quiet now) it ≡ none
      → nat_beq (p.state.waiters + 0) 0 ≡ false
      → p.state.locked it.key ≡ false
      → chosen now its (give (quiet now) it p) ≡ chosen now (it ∷ its) p
  unfolding give take_item hand_off mark_ready arrive
  gives now it its p d ready waiting free =
      append_assoc p.state.delivered (it ∷ []) _
      ∙ ap (λ l. p.state.delivered ++ l)
          (ap (λ l. it ∷ take (p.state.waiters + 0 - 1) l)
              (select-locked now p.state.locked it its d.0)
            ∙ sym (take-cons p.state.waiters it _ waiting)
            ∙ ap (take p.state.waiters)
                (sym (select-free now p.state.locked it its (ground arith) free)))

  ascend-quiet :
      (now : ℕ) (its : List (Item T)) (p : Pass B R)
      → Sorted its
      → Distinct its
      → (ascend (λ n. quiet now) its p).state.delivered ≡ chosen now its p
  unfolding ascend resume
  ascend-quiet now [] p h d =
      sym (append-nil _) ∙ ap (λ l. p.state.delivered ++ l) (sym (take-nil p.state.waiters))
  ascend-quiet now (it ∷ its) p h d =
      let rest = λ (q : Pass B R). ascend-quiet now its q h.1 d.1 in
      visit_cases (λ r. (resume now its r).state.delivered ≡ chosen now (it ∷ its) p) (quiet now) it
        p (λ left late. waits now left it its p h late)
        (λ ready why. rest (pass_over (quiet now) it p) ∙ passes now it its p why)
        (λ ready waiting free woken. absurd (let no : false ≡ true = woken in cc))
        (λ ready waiting free woken.
          rest (give (quiet now) it p) ∙ gives now it its p d ready waiting free)

  -- With the clock at `now` and nobody interfering, on a well-formed queue, a round of `spin` hands out exactly the first
  -- of the ready and unlocked items, in the order of `less`, as many as there are waiting workers:
  -- it passes over locked keys and misses no item that is ready.
  pub spin_round_delivers :
      (now : ℕ) (s : PriorityQueue B R)
      → IsValid s
      → (spin_round (λ n. quiet now) s).0.delivered
        ≡ s.delivered ++ take s.waiters (select (can_go now s.locked) (B.ascend s.queue))
  unfolding spin_round
  spin_round_delivers now s v =
      ascend-quiet now (B.ascend s.queue) (record { state = s; to_delete = []; next_ready = none })
        v.sorted v.distinct
