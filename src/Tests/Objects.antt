-- ===== src/Tests/Objects.antt =====
-- Examples of the fields of an object.
use unstructured_runtime.Prelude.{
  ◌^◌, ◌≡◌, refl, Option, none, some, Bool, true, false, List, [], ◌∷◌, ◌++◌, String, ◌==◌,
  string_eq, inr, arith, map,
}
use unstructured_runtime.Prelude.Int.{ℤ, pos}
use unstructured_runtime.Unstructured.{float64}
use unstructured_runtime.Unstructured.Native.{is_native}
use unstructured_runtime.Event.{ObjectRef}
use unstructured_runtime.Condition.{Condition, condition, upsert_all}
use unstructured_runtime.Unstructured.{
  Value, Items, Fields, null, text, array, object, nil, end, field, lookup,
}
use unstructured_runtime.Unstructured.Nested.{set_nested_field_no_copy, value_at, is_open, holding}
use unstructured_runtime.Unstructured.FailedRef.{
  Library, Found, found, missing, failed, ref_value, status_path, set_failed_object_ref,
  unset_failed_object_ref, extract_failed_object_ref, extract-set_failed_object_ref,
}
use unstructured_runtime.Unstructured.Conditions.{
  as_text, Encoding, condition_items, changed, get_conditions, set_conditions, collect,
}
use unstructured_runtime.Unstructured.Conditions.Roundtrip.{IsDated, as_read, get-set_conditions}
use unstructured_runtime.Tests.{three_seconds, reference}

abbrev found_or : Bool → Option Value → Found
found_or b (some v) = found v
found_or true none = missing
found_or false none = failed

abbrev ref_of : Option String → Option String → Option String → Option String → Option ObjectRef
ref_of (some a) (some k) (some n) (some s) =
    some (record { api_version = a; kind = k; name = n; namespace = s })
ref_of _ _ _ _ = none

abbrev decode_ref : Value → Option ObjectRef
decode_ref (object m) =
    ref_of (as_text (lookup "apiVersion" m)) (as_text (lookup "kind" m)) (as_text (lookup "name" m))
      (as_text (lookup "namespace" m))
decode_ref _ = none

decode-ref : (ref : ObjectRef) → decode_ref (ref_value ref) ≡ some ref
unfolding lookup
decode-ref ref = refl

nested_found :
    (fs : List String) (last : String) (m : Fields) (v : Value)
    → value_at fs last m ≡ some v
    → found_or (is_open fs m) (value_at fs last m) ≡ found v
nested_found fs last m v h = rw h refl

nested_missing :
    (fs : List String) (last : String) (m : Fields)
    → is_open fs m ≡ true
    → value_at fs last m ≡ none
    → found_or (is_open fs m) (value_at fs last m) ≡ missing
nested_missing fs last m h n = rw (h, n) refl

abbrev library : Library
library = record {
  nested = λ fs last m. found_or (is_open fs m) (value_at fs last m);
  nested-found = nested_found;
  nested-missing = nested_missing;
  decode = decode_ref;
  decode-ref_value = decode-ref;
}

-- An object with a status that has a phase.
abbrev phased : Fields
phased = field "status" (object (field "phase" (text "old") end)) end

phased_open : is_open status_path phased ≡ true
unfolding is_open holding lookup
phased_open = refl

extract-set_failed_object_ref_example :
    (m' : Fields) × (set_failed_object_ref (some phased) (some reference) ≡ inr m')
    × (extract_failed_object_ref library (some m') ≡ inr (some reference))
    × ((k : String)
        → ("failedObjectRef" == k) ≡ false
        → value_at status_path k m' ≡ value_at status_path k phased)
    × (extract_failed_object_ref library (unset_failed_object_ref (some m')) ≡ inr none)
extract-set_failed_object_ref_example =
    extract-set_failed_object_ref library phased reference phased_open

abbrev items_of : Option Value → Items
items_of (some (array xs)) = xs
items_of _ = nil

slice_found :
    (fs : List String) (last : String) (m : Fields) (xs : Items)
    → value_at fs last m ≡ some (array xs)
    → items_of (value_at fs last m) ≡ xs
slice_found fs last m xs h = rw h refl

-- The float of the generation 3, the only one here.
abbrev generation_bits : ℤ → Value
generation_bits g = float64 4613937818241073152

abbrev encode : List Condition → Option Value
encode [] = some null
encode (c ∷ cs) = some (array (condition_items three_seconds generation_bits (c ∷ cs)))

abbrev encoding : Encoding three_seconds
encoding = record {
  nested_slice = λ fs last m. items_of (value_at fs last m);
  nested_slice-found = λ fs last m xs native h. slice_found fs last m xs h;
  set_nested_field = set_nested_field_no_copy;
  set_nested_field-native = λ v fs last m native. refl;
  generation = generation_bits;
  generation-native = λ g. unfold is_native in refl;
  encode_struct = encode;
  encode_struct_lem = λ c cs. refl;
}

abbrev ready : Condition
ready = record (condition "Ready" "True" "Available" (10 ^ 9)) { observed_generation = pos 3 }

abbrev undated : Condition
undated = condition "Synced" "True" "Created" 0

ready-IsDated : IsDated three_seconds ready
ready-IsDated = (λ e. omega (arith, e), omega arith)

no_conditions : get_conditions three_seconds encoding (some phased) ≡ some []
unfolding get_conditions collect value_at holding lookup
no_conditions = refl

get-set_conditions_example :
    (m' : Fields) × (set_conditions three_seconds encoding (ready ∷ []) phased ≡ changed m')
    × (get_conditions three_seconds encoding (some m')
        ≡ some (map (as_read three_seconds) (upsert_all (ready ∷ []) [])))
get-set_conditions_example =
    get-set_conditions three_seconds encoding ready [] [] phased phased_open no_conditions
      (ready-IsDated, tt) tt

abbrev with_undated : Fields
with_undated =
    field "status"
      (object (
        field "conditions"
          (array (condition_items three_seconds generation_bits (ready ∷ undated ∷ []))) end))
      end

undated_there :
    value_at ("status" ∷ []) "conditions" with_undated
    ≡ some (array (condition_items three_seconds generation_bits ((ready ∷ []) ++ undated ∷ [])))
unfolding value_at holding lookup
undated_there = refl
