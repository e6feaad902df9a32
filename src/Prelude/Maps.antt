-- ===== src/Prelude/Maps.antt =====
-- Go maps as association lists, for maps that are counted or gone through.
use Prim.Native.Nat.{suc}
use mathlib.Core.Path.{◌≡◌, refl, ◌∙◌}
use mathlib.Core.Option.{Option, none, some}
use mathlib.Core.Bool.{false}
use mathlib.Core.List.{List, [], ◌∷◌}
use mathlib.Core.Logic.{inl, inr}
use native.Mathlib.Omega.{arith}
use unstructured_runtime.Prelude.Tests.{if◌then◌else◌, Bool-cases}
use unstructured_runtime.Prelude.Lists.{length}
use unstructured_runtime.Prelude.Classes.{Comparable, ◌==◌}

module _ {K V : Type 0} ⦃e : Comparable K⦄ where
  unfoldable pub find : K → List (K × V) → Option V
  find k [] = none
  find k ((j, v) ∷ m) = if j == k then some v else find k m

  -- `m[k] = v`
  unfoldable pub insert : K → V → List (K × V) → List (K × V)
  insert k v [] = (k, v) ∷ []
  insert k v ((j, w) ∷ m) = let rest = insert k v m in if j == k then (j, v) ∷ m else (j, w) ∷ rest

  -- `delete(m, k)`; a key stands in a map once.
  unfoldable pub erase : K → List (K × V) → List (K × V)
  erase k [] = []
  erase k ((j, w) ∷ m) = let rest = erase k m in if j == k then m else (j, w) ∷ rest

  pub find-insert :
      (k j : K) (v : V) (m : List (K × V))
      → find j (insert k v m) ≡ (if k == j then some v else find j m)
  unfolding find insert
  find-insert k j v [] = refl
  find-insert k j v ((i, w) ∷ m) =
      ground (arith, e.equals_iff k j, e.equals_iff i k, e.equals_iff i j, find-insert k j v m)

  pub length-insert :
      (k : K) (v : V) (m : List (K × V))
      → length (insert k v m) ≡ elim (find k m) [ none ↦ suc (length m) | some w ↦ length m ]
  unfolding find insert
  length-insert k v [] = refl
  length-insert k v ((i, w) ∷ m) = ground (arith, length-insert k v m)

  pub length-erase :
      (k : K) (m : List (K × V))
      → length m ≡ elim (find k m) [ none ↦ length (erase k m) | some w ↦ suc (length (erase k m)) ]
  unfolding find erase
  length-erase k [] = refl
  length-erase k ((i, w) ∷ m) = ground (arith, length-erase k m)

  pub find-erase_other :
      (k j : K) (m : List (K × V)) → (k == j) ≡ false → find j (erase k m) ≡ find j m
  unfolding find erase
  find-erase_other k j [] h = refl
  find-erase_other k j ((i, w) ∷ m) h =
      ground
        (arith, h, e.equals_iff k j, e.equals_iff i k, e.equals_iff i j, find-erase_other k j m h)

  -- No key stands twice.
  unfoldable pub IsMap : List (K × V) → Type 0
  IsMap [] = Unit
  IsMap ((k, v) ∷ m) = (find k m ≡ none) × IsMap m

  pub empty-IsMap : (m : List (K × V)) → m ≡ [] → IsMap m
  unfolding IsMap
  empty-IsMap m h = rw h tt

  pub find-erase : (k : K) (m : List (K × V)) → IsMap m → find k (erase k m) ≡ none
  unfolding find erase IsMap
  find-erase k [] h = refl
  find-erase k ((i, w) ∷ m) (fresh, rest) =
      ground (arith, fresh, e.equals_iff i k, find-erase k m rest)

  pub insert-IsMap : (k : K) (v : V) (m : List (K × V)) → IsMap m → IsMap (insert k v m)
  unfolding find insert IsMap
  insert-IsMap k v [] h = (refl, tt)
  insert-IsMap k v ((i, w) ∷ m) (fresh, rest) = elim (Bool-cases (i == k)) [
    | inl same ↦ rw same (fresh, rest)
    | inr other ↦ rw other (kept other, insert-IsMap k v m rest)
  ]
    where
      kept : (i == k) ≡ false → find i (insert k v m) ≡ none
      kept other =
          ground (arith, find-insert k i v m, e.equals_iff k i, e.equals_iff i k, fresh, other)

  pub erase-IsMap : (k : K) (m : List (K × V)) → IsMap m → IsMap (erase k m)
  unfolding find erase IsMap
  erase-IsMap k [] h = tt
  erase-IsMap k ((i, w) ∷ m) (fresh, rest) = elim (Bool-cases (i == k)) [
    | inl same ↦ rw same rest
    | inr other ↦ rw other (kept other, erase-IsMap k m rest)
  ]
    where
      kept : (i == k) ≡ false → find i (erase k m) ≡ none
      kept other =
          find-erase_other k i m (ground (arith, other, e.equals_iff k i, e.equals_iff i k)) ∙ fresh
