-- ===== src/Unstructured/Nested.antt =====
-- `setNestedFieldNoCopy` and `removeNestedField` of pkg/tools/unstructured/unstructured.go. The path is
-- the fields that are gone through and the last one. The map of each field is changed in place; a map
-- that was changed is put back here, and after an error nothing was changed.
pub mod Laws
pub mod Removal
pub mod Steps
use unstructured_runtime.Prelude.{
  ◌≡◌, refl, sym, ap, ◌∙◌, ◌⊎◌, inl, inr, Option, none, some, Bool, true, false, subst, List, [],
  ◌∷◌, ◌++◌, String, ◌==◌, string_eq, if◌then◌else◌, arith, equals_refl, Option-cases,
}
use unstructured_runtime.Unstructured.{
  Value, Fields, null, boolean, text, int64, int32, int, float64, float32, number, other, array,
  object, end, field, lookup, assign, delete_key, lookup-assign, lookup-delete_key,
}

-- The part of the path that has no map.
pub record NotAMap : Type 0 where
  pub path : List String

-- What a field holds: nothing, a map, or another value.
pub data Holding : Type 0 where
  absent : Holding
  submap : Fields → Holding
  blocked : Holding

unfoldable pub holding : Option Value → Holding
holding none = absent
holding (some (object m)) = submap m
holding (some null) = blocked
holding (some (boolean b)) = blocked
holding (some (text s)) = blocked
holding (some (int64 i)) = blocked
holding (some (int32 i)) = blocked
holding (some (int i)) = blocked
holding (some (float64 b)) = blocked
holding (some (float32 b)) = blocked
holding (some (number s)) = blocked
holding (some (other s)) = blocked
holding (some (array xs)) = blocked

-- The map with a field changed, or the error of the change.
unfoldable pub put_back : String → Fields → NotAMap ⊎ Fields → NotAMap ⊎ Fields
put_back f m (inl e) = inl e
put_back f m (inr r) = inr (assign f (object r) m)

-- `seen` are the fields before.
unfoldable pub set_from : List String → Value → List String → String → Fields → NotAMap ⊎ Fields
set_from seen v [] last m = inr (assign last v m)
set_from seen v (f ∷ fs) last m =
    let seen' = seen ++ f ∷ [] in
    elim (holding (lookup f m)) [
      | absent ↦ put_back f m (set_from seen' v fs last end)
      | submap r ↦ put_back f m (set_from seen' v fs last r)
      | blocked ↦ inl (record { path = seen' })
    ]

unfoldable pub set_nested_field_no_copy : Value → List String → String → Fields → NotAMap ⊎ Fields
unfolding set_from
set_nested_field_no_copy = set_from []

unfoldable pub remove_nested_field : List String → String → Fields → Fields
remove_nested_field [] last m = delete_key last m
remove_nested_field (f ∷ fs) last m = elim (holding (lookup f m)) [
  | absent ↦ m
  | submap r ↦ assign f (object (remove_nested_field fs last r)) m
  | blocked ↦ m
]

-- The value at a path of maps.
unfoldable pub value_at : List String → String → Fields → Option Value
value_at [] last m = lookup last m
value_at (f ∷ fs) last m = elim (holding (lookup f m)) [
  | absent ↦ none
  | submap r ↦ value_at fs last r
  | blocked ↦ none
]

-- What a successful write leaves at the path, and at the other fields of the same map.
unfoldable pub Written : Value → List String → String → Fields → Fields → Type 0
Written v fs last m r =
    (value_at fs last r ≡ some v)
    × ((other : String) → (last == other) ≡ false → value_at fs other r ≡ value_at fs other m)

-- Nothing but maps stands on the path.
unfoldable pub is_open : List String → Fields → Bool
is_open [] m = true
is_open (f ∷ fs) m = elim (holding (lookup f m)) [
  | absent ↦ true
  | submap r ↦ is_open fs r
  | blocked ↦ false
]
