-- ===== src/PriorityQueue/Tree/Order.antt =====
-- `put` and `take_out` keep the list sorted and its keys and counters distinct.
use unstructured_runtime.Prelude.{
  ◌≡◌, ◌≢◌, sym, true, false, List, [], ◌∷◌, All, All-map, arith, inl, inr, Bool-cases,
}
use unstructured_runtime.PriorityQueue.Item.{Item, less}
use unstructured_runtime.PriorityQueue.Item.Order.{less_irrefl, less_trans, less_total}
use unstructured_runtime.PriorityQueue.Tree.Lists.{same, put, take_out, Fresh, Distinct, Sorted}

module _ {T : Type 0} where
  pub same_refl : (x : Item T) → same x x ≡ true
  unfolding same
  same_refl x = ground (arith, less_irrefl x)

  pub same-false : (x y : Item T) → y.added_counter ≢ x.added_counter → same x y ≡ false
  unfolding same
  same-false x y n = ground (arith, less_total x y)

  pub put-All :
      (P : Item T → Type 0) (x : Item T) (xs : List (Item T)) → P x → All P xs → All P (put x xs)
  unfolding put
  put-All P x [] p h = (p, tt)
  put-All P x (y ∷ ys) p h = ground (arith, put-All P x ys p h.1)

  pub take_out-All :
      (P : Item T → Type 0) (x : Item T) (xs : List (Item T)) → All P xs → All P (take_out x xs)
  unfolding take_out
  take_out-All P x [] h = tt
  take_out-All P x (y ∷ ys) h = ground (arith, take_out-All P x ys h.1)

  pub put-Sorted : (x : Item T) (xs : List (Item T)) → Fresh x xs → Sorted xs → Sorted (put x xs)
  unfolding put
  put-Sorted x [] f s = (tt, tt)
  put-Sorted x (y ∷ ys) f s = rw (same-false x y f.0.1) (elim (Bool-cases (less x y)) [
    | inl h ↦ rw h ((h, All-map (λ z k. less_trans x y z h k) ys s.0), s)
    | inr h ↦ rw h (
      put-All (λ z. less y z ≡ true) x ys (less_total x y (λ e. f.0.1 (sym e)) h) s.0,
      put-Sorted x ys f.1 s.1,
    )
  ])

  pub take_out-Sorted : (x : Item T) (xs : List (Item T)) → Sorted xs → Sorted (take_out x xs)
  unfolding take_out
  take_out-Sorted x [] s = tt
  take_out-Sorted x (y ∷ ys) s =
      ground (arith, take_out-All (λ z. less y z ≡ true) x ys s.0, take_out-Sorted x ys s.1)

  pub put-Distinct :
      (x : Item T) (xs : List (Item T)) → Fresh x xs → Distinct xs → Distinct (put x xs)
  unfolding put
  put-Distinct x [] f d = (tt, tt)
  put-Distinct x (y ∷ ys) f d = rw (same-false x y f.0.1) (elim (Bool-cases (less x y)) [
    | inl h ↦ rw h (f, d)
    | inr h ↦
        rw h
          (put-All _ x ys (λ e. f.0.0 (sym e), λ e. f.0.1 (sym e)) d.0, put-Distinct x ys f.1 d.1)
  ])

  pub take_out-Distinct : (x : Item T) (xs : List (Item T)) → Distinct xs → Distinct (take_out x xs)
  unfolding take_out
  take_out-Distinct x [] d = tt
  take_out-Distinct x (y ∷ ys) d =
      ground (arith, take_out-All _ x ys d.0, take_out-Distinct x ys d.1)
