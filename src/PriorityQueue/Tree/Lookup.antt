-- ===== src/PriorityQueue/Tree/Lookup.antt =====
-- Lookups by key in the list of the tree's items, after `put` and `take_out`.
use unstructured_runtime.Prelude.{
  ◌≡◌, ◌≢◌, refl, sym, subst, none, some, false, List, [], ◌∷◌, All, All-map, Comparable, ◌==◌,
  arith, inl, inr, ◌⊎◌, Bool-cases, equals_refl, equals-false, if◌then◌else◌,
}
use unstructured_runtime.PriorityQueue.Item.{Item}
use unstructured_runtime.PriorityQueue.Tree.Lists.{
  same, put, find_equal, take_out, lookup_key, Fresh, Distinct,
}
use unstructured_runtime.PriorityQueue.Tree.Order.{same_refl, same-false}

module _ {T : Type 0} ⦃e : Comparable T⦄ where
  -- What a lookup finds has the key, and satisfies what all items do.
  pub lookup_key-All :
      (P : Item T → Type 0) (k : T) (l : List (Item T)) (x : Item T)
      → All P l
      → lookup_key k l ≡ some x
      → P x × (x.key ≡ k)
  unfolding lookup_key
  lookup_key-All P k [] x h f = cc
  lookup_key-All P k (y ∷ ys) x h f =
      ground (arith, lookup_key-All P k ys x h.1, e.equals_iff y.key k)

  pub lookup_key-none : (k : T) (l : List (Item T)) → lookup_key k l ≡ none → All (λ y. y.key ≢ k) l
  unfolding lookup_key
  lookup_key-none k [] h = tt
  lookup_key-none k (y ∷ ys) h = ground (arith, lookup_key-none k ys, e.equals_iff y.key k)

  pub none-lookup_key : (k : T) (l : List (Item T)) → All (λ y. y.key ≢ k) l → lookup_key k l ≡ none
  unfolding lookup_key
  none-lookup_key k [] h = refl
  none-lookup_key k (y ∷ ys) h = rw (equals-false y.key k h.0) (none-lookup_key k ys h.1)

  pub Fresh-lookup : (x : Item T) (l : List (Item T)) → Fresh x l → lookup_key x.key l ≡ none
  Fresh-lookup x l f = none-lookup_key x.key l (All-map (λ z h. h.0) l f)

  pub lookup_key-put :
      (k : T) (x : Item T) (l : List (Item T))
      → Fresh x l
      → lookup_key k (put x l) ≡ (if x.key == k then some x else lookup_key k l)
  unfolding lookup_key put
  lookup_key-put k x [] f = refl
  lookup_key-put k x (y ∷ ys) f = ground (
    arith,
    lookup_key-put k x ys f.1,
    same-false x y f.0.1,
    e.equals_iff x.key k,
    e.equals_iff y.key k,
  )

  -- A present item is the head, or the head is another item and it stands in the rest.
  pub lookup_key-cons :
      (x y : Item T) (ys : List (Item T))
      → Fresh y ys
      → lookup_key x.key (y ∷ ys) ≡ some x
      → (y ≡ x) ⊎ ((same x y ≡ false) × ((y.key == x.key) ≡ false) × (lookup_key x.key ys ≡ some x))
  unfolding lookup_key
  lookup_key-cons x y ys f h = elim (Bool-cases (y.key == x.key)) [
    | inl eq ↦ inl (ground arith)
    | inr ne ↦ inr (
      same-false x y (λ c. (lookup_key-All _ x.key ys x f (ground arith)).0.1 (sym c)),
      ne,
      ground arith,
    )
  ]

  pub find_equal_lem :
      (x : Item T) (l : List (Item T))
      → Distinct l
      → lookup_key x.key l ≡ some x
      → find_equal x l ≡ some x
  unfolding find_equal
  find_equal_lem x [] d h = unfold lookup_key in cc
  find_equal_lem x (y ∷ ys) d h = elim (lookup_key-cons x y ys d.0 h) [
    | inl eq ↦ rw (eq, same_refl x)
    | inr (other, _, rest) ↦ rw other (find_equal_lem x ys d.1 rest)
  ]

  pub lookup_key-take_out :
      (k : T) (x : Item T) (l : List (Item T))
      → Distinct l
      → lookup_key x.key l ≡ some x
      → lookup_key k (take_out x l) ≡ (if x.key == k then none else lookup_key k l)
  unfolding lookup_key take_out
  lookup_key-take_out k x [] d h = cc
  lookup_key-take_out k x (y ∷ ys) d h = elim (lookup_key-cons x y ys d.0 h) [
    | inl eq ↦ rw (eq, same_refl x) (ground (arith, Fresh-lookup y ys d.0, e.equals_iff x.key k))
    | inr (other, ne, rest) ↦ rw other (
        ground (
          arith,
          lookup_key-take_out k x ys d.1 rest,
          e.equals_iff x.key k,
          e.equals_iff y.key k,
          e.equals_iff y.key x.key,
        ))
  ]

  -- Once an item is taken out, no other item has its key or its counter.
  pub Fresh-take_out :
      (x : Item T) (l : List (Item T))
      → Distinct l
      → lookup_key x.key l ≡ some x
      → Fresh x (take_out x l)
  unfolding take_out
  Fresh-take_out x [] d h = tt
  Fresh-take_out x (y ∷ ys) d h = elim (lookup_key-cons x y ys d.0 h) [
    | inl eq ↦ rw (eq, same_refl x) (subst (λ z. Fresh z ys) eq d.0)
    | inr (other, _, rest) ↦
        let apart = (lookup_key-All _ x.key ys x d.0 rest).0 in
        rw other ((λ c. apart.0 (sym c), λ c. apart.1 (sym c)), Fresh-take_out x ys d.1 rest)
  ]

  lookup_key-later :
      (y : Item T) (ys l : List (Item T))
      → Fresh y l
      → All (λ x. lookup_key x.key ys ≡ some x) l
      → All (λ x. lookup_key x.key (y ∷ ys) ≡ some x) l
  unfolding lookup_key
  lookup_key-later y ys [] f h = tt
  lookup_key-later y ys (x ∷ xs) f h =
      (rw (equals-false y.key x.key (λ c. f.0.0 (sym c))) h.0, lookup_key-later y ys xs f.1 h.1)

  -- In a list with distinct keys each item is what a lookup of its key finds.
  pub lookup_key_self : (l : List (Item T)) → Distinct l → All (λ x. lookup_key x.key l ≡ some x) l
  unfolding lookup_key
  lookup_key_self [] d = tt
  lookup_key_self (y ∷ ys) d =
      (rw (equals_refl y.key), lookup_key-later y ys ys d.0 (lookup_key_self ys d.1))
