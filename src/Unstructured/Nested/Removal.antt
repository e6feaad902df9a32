-- ===== src/Unstructured/Nested/Removal.antt =====
-- What RemoveNestedField of pkg/tools/unstructured/unstructured.go leaves in the object.
use unstructured_runtime.Prelude.{
  ◌≡◌, refl, sym, ap, ◌∙◌, inl, inr, none, false, List, [], ◌∷◌, String, ◌==◌, string_eq, arith,
  equals_refl,
}
use unstructured_runtime.Unstructured.{Fields, object, lookup, assign, lookup-delete_key}
use unstructured_runtime.Unstructured.Nested.{
  absent, submap, blocked, holding, remove_nested_field, value_at, is_open,
}
use unstructured_runtime.Unstructured.Nested.Steps.{
  Holding-cases, value_at-assign, value_at-absent, value_at-submap, value_at-blocked,
  is_open-assign, open_submap,
}

remove_submap :
    (f : String) (fs : List String) (last : String) (m r : Fields)
    → holding (lookup f m) ≡ submap r
    → remove_nested_field (f ∷ fs) last m ≡ assign f (object (remove_nested_field fs last r)) m
unfolding remove_nested_field
remove_submap f fs last m r h = rw (h, remove_nested_field) refl

remove_absent :
    (f : String) (fs : List String) (last : String) (m : Fields)
    → holding (lookup f m) ≡ absent
    → remove_nested_field (f ∷ fs) last m ≡ m
unfolding remove_nested_field
remove_absent f fs last m h = rw (h, remove_nested_field) refl

remove_blocked :
    (f : String) (fs : List String) (last : String) (m : Fields)
    → holding (lookup f m) ≡ blocked
    → remove_nested_field (f ∷ fs) last m ≡ m
unfolding remove_nested_field
remove_blocked f fs last m h = rw (h, remove_nested_field) refl

-- Nothing is left at the path, and the other fields of the same map stay.
pub value_at-remove :
    (fs : List String) (last : String) (m : Fields)
    → (value_at fs last (remove_nested_field fs last m) ≡ none)
      × ((other : String)
          → (last == other) ≡ false
          → value_at fs other (remove_nested_field fs last m) ≡ value_at fs other m)
value_at-remove [] last m =
    unfold value_at remove_nested_field in
    (
      ground (arith, lookup-delete_key last last m, equals_refl last),
      λ other ne. ground (arith, lookup-delete_key last other m, ne),
    )
value_at-remove (f ∷ fs) last m = elim (Holding-cases (holding (lookup f m))) [
  | inl none_there ↦ (
    ap (value_at (f ∷ fs) last) (remove_absent f fs last m none_there)
        ∙ value_at-absent f fs last m none_there,
    λ other ne. ap (value_at (f ∷ fs) other) (remove_absent f fs last m none_there),
  )
  | inr (inl (sub, there)) ↦
      let (gone, kept) = value_at-remove fs last sub in
      (
        ap (value_at (f ∷ fs) last) (remove_submap f fs last m sub there)
            ∙ value_at-assign f fs last (remove_nested_field fs last sub) m
            ∙ gone,
        λ other ne.
            ap (value_at (f ∷ fs) other) (remove_submap f fs last m sub there)
            ∙ value_at-assign f fs other (remove_nested_field fs last sub) m
            ∙ kept other ne
            ∙ sym (value_at-submap f fs other m sub there),
      )
  | inr (inr stuck) ↦ (
    ap (value_at (f ∷ fs) last) (remove_blocked f fs last m stuck)
        ∙ value_at-blocked f fs last m stuck,
    λ other ne. ap (value_at (f ∷ fs) other) (remove_blocked f fs last m stuck),
  )
]

pub is_open-remove :
    (fs : List String) (last : String) (m : Fields)
    → is_open fs (remove_nested_field fs last m) ≡ is_open fs m
is_open-remove [] last m = unfold is_open in refl
is_open-remove (f ∷ fs) last m = elim (Holding-cases (holding (lookup f m))) [
  | inl none_there ↦ ap (is_open (f ∷ fs)) (remove_absent f fs last m none_there)
  | inr (inl (sub, there)) ↦
      ap (is_open (f ∷ fs)) (remove_submap f fs last m sub there)
      ∙ is_open-assign f fs (remove_nested_field fs last sub) m
      ∙ is_open-remove fs last sub
      ∙ sym (open_submap f fs m sub there)
  | inr (inr stuck) ↦ ap (is_open (f ∷ fs)) (remove_blocked f fs last m stuck)
]
