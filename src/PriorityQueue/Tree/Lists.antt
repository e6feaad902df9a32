-- ===== src/PriorityQueue/Tree/Lists.antt =====
-- The documented behaviour of the tree's operations, on the list of its items in order.
use unstructured_runtime.Prelude.{
  ℕ, ◌+◌, ◌≡◌, ◌≢◌, Option, none, some, Bool, true, ◌&&◌, not, List, [], ◌∷◌, All, Comparable, ◌==◌,
  if◌then◌else◌,
}
use unstructured_runtime.PriorityQueue.Item.{Item, less}

module _ {T : Type 0} where
  -- Neither is less than the other: the tree takes them for one.
  unfoldable pub same : Item T → Item T → Bool
  same x y = not (less x y) && not (less y x)

  unfoldable pub put : Item T → List (Item T) → List (Item T)
  put x [] = x ∷ []
  put x (y ∷ ys) =
      let rest = put x ys in if same x y then x ∷ ys else if less x y then x ∷ y ∷ ys else y ∷ rest

  unfoldable pub find_equal : Item T → List (Item T) → Option (Item T)
  find_equal x [] = none
  find_equal x (y ∷ ys) = let rest = find_equal x ys in if same x y then some y else rest

  unfoldable pub take_out : Item T → List (Item T) → List (Item T)
  take_out x [] = []
  take_out x (y ∷ ys) = let rest = take_out x ys in if same x y then ys else y ∷ rest

  -- The sum of a weight over the items.
  unfoldable pub tally : (Item T → ℕ) → List (Item T) → ℕ
  tally f [] = 0
  tally f (y ∷ ys) = f y + tally f ys

  -- No item of the list has the key or the counter of `x`.
  abbrev pub Fresh : Item T → List (Item T) → Type 0
  Fresh x = All λ y. (y.key ≢ x.key) × (y.added_counter ≢ x.added_counter)

  abbrev pub Distinct : List (Item T) → Type 0
  Distinct [] = Unit
  Distinct (x ∷ xs) = Fresh x xs × Distinct xs

  abbrev pub Sorted : List (Item T) → Type 0
  Sorted [] = Unit
  Sorted (x ∷ xs) = All (λ y. less x y ≡ true) xs × Sorted xs

unfoldable pub lookup_key : {T : Type 0} ⦃e : Comparable T⦄ → T → List (Item T) → Option (Item T)
lookup_key k [] = none
lookup_key k (y ∷ ys) = if y.key == k then some y else lookup_key k ys
