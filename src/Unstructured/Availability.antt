-- ===== src/Unstructured/Availability.antt =====
-- `IsAvailable` and `GetFieldsFromUnstructured` of pkg/tools/unstructured/unstructured.go.
use Prim.Native.String.{find, len}
use unstructured_runtime.Prelude.{
  ◌≡◌, ◌↔◌, refl, Option, none, some, Bool, true, false, ◌&&◌, not, List, [], ◌∷◌, String, ◌==◌,
  string_eq, leb, if◌then◌else◌, arith, All, ap, some-eq,
}
use unstructured_runtime.Event.{ObjectRef}
use unstructured_runtime.Condition.{Condition}
use unstructured_runtime.Unstructured.{Fields, lookup}
use unstructured_runtime.Unstructured.Nested.{absent, submap, blocked, holding}

-- `strings.Contains(s, t)`: the position of `t` is within `s`.
abbrev pub contains_text : String → String → Bool
contains_text s t = leb (find s t) (len s)

abbrev pub positives : List String
positives = "ready" ∷ "complete" ∷ "healthy" ∷ "active" ∷ "able" ∷ []

-- The outcomes of `IsAvailable`: available, or an error with the object and the reason.
pub data Availability : Type 0 where
  available : Availability
  not_available : ObjectRef → String → Availability

-- The functions of other packages: `strings.ToLower`, and `NestedFieldNoCopy` of k8s.io/apimachinery at
-- one field, which finds the value of that field.
module _ (to_lower : String → String) where
  unfoldable pub has : List String → String → Bool
  has [] str = false
  has (v ∷ vs) str = if contains_text (to_lower str) v then true else has vs str

  -- The loop over the conditions.
  unfoldable pub check_conditions : ObjectRef → List Condition → Availability
  unfolding has
  check_conditions un [] = available
  check_conditions un (c ∷ cs) =
      if has positives c.type && not (c.status == "True")
      then not_available un c.reason
      else check_conditions un cs

  -- `none` is a panic of `GetConditions`.
  unfoldable pub is_available : ObjectRef → Option (List Condition) → Option Availability
  unfolding check_conditions
  is_available un none = none
  is_available un (some conds) = some (check_conditions un conds)

  -- A condition that does not keep the object from being available.
  abbrev pub IsFine : Condition → Type 0
  IsFine c = has positives c.type ≡ true → c.status ≡ "True"

  check-IsFine :
      (un : ObjectRef) (c : Condition) (cs : List Condition)
      → (check_conditions un (c ∷ cs) ≡ available)
        ↔ (IsFine c × (check_conditions un cs ≡ available))
  unfolding check_conditions
  check-IsFine un c cs =
      ground (arith, string_eq.equals_iff c.status "True", not_available_ne un c.reason)
    where
      not_available_ne : (r : ObjectRef) (s : String) → not_available r s ≡ available → ⊥
      not_available_ne r s h = ground (arith, h)

  check_iff :
      (un : ObjectRef) (cs : List Condition) → (check_conditions un cs ≡ available) ↔ All IsFine cs
  check_iff un [] = (λ h. tt, λ v. unfold check_conditions in refl)
  check_iff un (c ∷ cs) =
      let (to, from) = check-IsFine un c cs in
      let (to_rest, from_rest) = check_iff un cs in
      (λ h. ((to h).0, to_rest (to h).1), λ v. from (v.0, from_rest v.1))

  -- The object is available exactly if each condition with a positive word in its type has the
  -- status True.
  pub is_available_iff :
      (un : ObjectRef) (cs : List Condition)
      → (is_available un (some cs) ≡ some available) ↔ All IsFine cs
  unfolding is_available
  is_available_iff un cs =
      (λ h. (check_iff un cs).0 (some-eq h), λ v. ap some ((check_iff un cs).1 v))

-- `GetFieldsFromUnstructured`: `MapRange` panics on a value that is not a map.
pub data FieldsResult : Type 0 where
  nil_object not_found crash : FieldsResult
  got : Fields → FieldsResult

unfoldable pub get_fields_from_unstructured : Option Fields → String → FieldsResult
unfolding holding
get_fields_from_unstructured none name = nil_object
get_fields_from_unstructured (some u) name = elim (holding (lookup name u)) [
  | absent ↦ not_found
  | submap m ↦ got m
  | blocked ↦ crash
]
