-- ===== src/Unstructured/FailedRef.antt =====
-- `SetFailedObjectRef`, `ExtractFailedObjectRef` and `UnsetFailedObjectRef` of
-- pkg/tools/unstructured/unstructured.go. A nil pointer is `none`.
use unstructured_runtime.Prelude.{
  ◌≡◌, refl, ap, ◌∙◌, ◌⊎◌, inl, inr, Option, none, some, true, false, List, [], ◌∷◌, String, ◌==◌,
  string_eq,
}
use unstructured_runtime.Event.{ObjectRef}
use unstructured_runtime.Unstructured.{Value, Fields, text, object, end, field}
use unstructured_runtime.Unstructured.Nested.{
  NotAMap, set_nested_field_no_copy, remove_nested_field, value_at, is_open, Written,
}
use unstructured_runtime.Unstructured.Nested.Laws.{
  set_from-Written, set_from_open, is_open-set_from,
}
use unstructured_runtime.Unstructured.Nested.Removal.{value_at-remove, is_open-remove}

-- What `NestedFieldNoCopy` of k8s.io/apimachinery returns: the value, not found, or an error.
pub data Found : Type 0 where
  found : Value → Found
  missing : Found
  failed : Found

-- The value that `SetFailedObjectRef` writes.
abbrev pub ref_value : ObjectRef → Value
ref_value ref = object (
    field "apiVersion" (text ref.api_version) (
      field "kind" (text ref.kind)
        (field "name" (text ref.name) (field "namespace" (text ref.namespace) end))))

-- `NestedFieldNoCopy`, which goes through maps and fails on another value, and encoding/json, which
-- reads the fields of an `ObjectRef` by their names.
pub record Library : Type 0 where
  pub nested : List String → String → Fields → Found
  pub nested-found :
      (fs : List String) (last : String) (m : Fields) (v : Value)
      → value_at fs last m ≡ some v
      → nested fs last m ≡ found v
  pub nested-missing :
      (fs : List String) (last : String) (m : Fields)
      → is_open fs m ≡ true
      → value_at fs last m ≡ none
      → nested fs last m ≡ missing
  pub decode : Value → Option ObjectRef
  pub decode-ref_value : (ref : ObjectRef) → decode (ref_value ref) ≡ some ref

pub data RefError : Type 0 where
  nil_ref nil_object bad_json : RefError
  not_a_map : NotAMap → RefError
  not_traversed : RefError

abbrev pub status_path : List String
status_path = "status" ∷ []

abbrev from_nested : NotAMap ⊎ Fields → RefError ⊎ Fields
from_nested (inl e) = inl (not_a_map e)
from_nested (inr m) = inr m

unfoldable pub set_failed_object_ref : Option Fields → Option ObjectRef → RefError ⊎ Fields
unfolding set_nested_field_no_copy
set_failed_object_ref un none = inl nil_ref
set_failed_object_ref none (some ref) = inl nil_object
set_failed_object_ref (some m) (some ref) =
    from_nested (set_nested_field_no_copy (ref_value ref) status_path "failedObjectRef" m)

unfoldable pub unset_failed_object_ref : Option Fields → Option Fields
unfolding remove_nested_field
unset_failed_object_ref none = none
unset_failed_object_ref (some m) = some (remove_nested_field status_path "failedObjectRef" m)

module _ (L : Library) where
  -- No reference is `inr none`.
  unfoldable pub extract_failed_object_ref : Option Fields → RefError ⊎ Option ObjectRef
  extract_failed_object_ref none = inl nil_object
  extract_failed_object_ref (some m) = elim (L.nested status_path "failedObjectRef" m) [
    | failed ↦ inl not_traversed
    | missing ↦ inr none
    | found v ↦ elim (L.decode v) [ none ↦ inl bad_json | some ref ↦ inr (some ref) ]
  ]

  extract_found :
      (m : Fields) (ref : ObjectRef)
      → value_at status_path "failedObjectRef" m ≡ some (ref_value ref)
      → extract_failed_object_ref (some m) ≡ inr (some ref)
  unfolding extract_failed_object_ref
  extract_found m ref h =
      rw
        (
          L.nested-found status_path "failedObjectRef" m (ref_value ref) h,
          extract_failed_object_ref,
        )
        (rw (L.decode-ref_value ref) refl)

  extract_missing :
      (m : Fields)
      → is_open status_path m ≡ true
      → value_at status_path "failedObjectRef" m ≡ none
      → extract_failed_object_ref (some m) ≡ inr none
  unfolding extract_failed_object_ref
  extract_missing m open_path h =
      rw (L.nested-missing status_path "failedObjectRef" m open_path h, extract_failed_object_ref)
        refl

  -- A reference that is set in an object whose status is a map, or is absent, is the one that is
  -- extracted; the other fields of the status stay; and after it is unset none is extracted.
  pub extract-set_failed_object_ref :
      (m : Fields) (ref : ObjectRef)
      → is_open status_path m ≡ true
      → (m' : Fields) × (set_failed_object_ref (some m) (some ref) ≡ inr m')
        × (extract_failed_object_ref (some m') ≡ inr (some ref))
        × ((k : String)
            → ("failedObjectRef" == k) ≡ false
            → value_at status_path k m' ≡ value_at status_path k m)
        × (extract_failed_object_ref (unset_failed_object_ref (some m')) ≡ inr none)
  extract-set_failed_object_ref m ref open_path =
      let (m', written) =
        set_from_open [] (ref_value ref) status_path "failedObjectRef" m open_path in
      let facts = set_from-Written [] (ref_value ref) status_path "failedObjectRef" m m' written in
      let removed = value_at-remove status_path "failedObjectRef" m' in
      (
        m',
        unfold set_failed_object_ref set_nested_field_no_copy in ap from_nested written,
        extract_found m' ref (unfold Written in facts.0),
        unfold Written in facts.1,
        unfold unset_failed_object_ref in
            extract_missing (remove_nested_field status_path "failedObjectRef" m')
              (is_open-remove status_path "failedObjectRef" m'
                ∙ is_open-set_from [] (ref_value ref) status_path "failedObjectRef" m m' written)
              removed.0,
      )
