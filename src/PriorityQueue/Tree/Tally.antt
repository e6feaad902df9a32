-- ===== src/PriorityQueue/Tree/Tally.antt =====
-- Sums over the tree's items, after `put` and `take_out`.
use unstructured_runtime.Prelude.{
  ℕ, ◌+◌, ◌≡◌, refl, some, List, [], ◌∷◌, All, Comparable, arith, inl, inr,
}
use unstructured_runtime.PriorityQueue.Item.{Item}
use unstructured_runtime.PriorityQueue.Tree.Lists.{
  put, take_out, tally, lookup_key, Fresh, Distinct,
}
use unstructured_runtime.PriorityQueue.Tree.Order.{same_refl, same-false}
use unstructured_runtime.PriorityQueue.Tree.Lookup.{lookup_key-cons}

module _ {T : Type 0} (f : Item T → ℕ) where
  pub tally-put : (x : Item T) (l : List (Item T)) → Fresh x l → tally f (put x l) ≡ f x + tally f l
  unfolding tally put
  tally-put x [] h = omega arith
  tally-put x (y ∷ ys) h = ground (arith, tally-put x ys h.1, same-false x y h.0.1)

  -- Two weights that agree on the items of a list have one sum.
  pub tally-eq :
      (g : Item T → ℕ) (l : List (Item T)) → All (λ y. f y ≡ g y) l → tally f l ≡ tally g l
  unfolding tally
  tally-eq g [] h = refl
  tally-eq g (y ∷ ys) h = omega (arith, tally-eq g ys h.1)

module _ {T : Type 0} ⦃e : Comparable T⦄ (f : Item T → ℕ) where
  pub tally-take_out :
      (x : Item T) (l : List (Item T))
      → Distinct l
      → lookup_key x.key l ≡ some x
      → tally f l ≡ f x + tally f (take_out x l)
  unfolding tally take_out
  tally-take_out x [] d h = unfold lookup_key in cc
  tally-take_out x (y ∷ ys) d h = elim (lookup_key-cons x y ys d.0 h) [
    | inl eq ↦ rw (eq, same_refl x) (refl)
    | inr (other, _, rest) ↦ rw other (omega (arith, tally-take_out x ys d.1 rest))
  ]
