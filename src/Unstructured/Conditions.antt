-- ===== src/Unstructured/Conditions.antt =====
-- `GetConditions`, `SetConditions`, `GetCondition` and `IsConditionSet` of
-- pkg/tools/unstructured/unstructured.go.
pub mod Roundtrip
use unstructured_runtime.Prelude.{
  ℕ, ◌≡◌, Option, none, some, Bool, true, false, ◌&&◌, List, [], ◌∷◌, ◌++◌, String, ◌==◌, string_eq,
  nat_beq, if◌then◌else◌, ◌⊎◌, inl, inr,
}
use unstructured_runtime.Prelude.Int.{ℤ, pos, negsuc}
use unstructured_runtime.Meta.{TimeFormat}
use unstructured_runtime.Condition.{Condition, upsert_all}
use unstructured_runtime.Unstructured.{
  Value, Items, Fields, null, boolean, text, int64, int32, int, float64, float32, number, other,
  array, object, nil, cons, end, field, lookup,
}
use unstructured_runtime.Unstructured.Native.{is_native, is_native_items}
use unstructured_runtime.Unstructured.Nested.{NotAMap, set_nested_field_no_copy, value_at}

-- `v.(string)`, with whether it is one.
abbrev pub as_text : Option Value → Option String
as_text (some (text s)) = some s
as_text _ = none

-- A field that may be absent; `none` is the panic of the assertion on another value.
abbrev pub optional_text : Option Value → Option String
optional_text none = some ""
optional_text (some v) = as_text (some v)

-- What an item does to the loop: `GetConditions` returns nil, it panics, or there is a condition.
pub data Reading : Type 0 where
  stops : Reading
  crashes : Reading
  reads : Condition → Reading

module _ (F : TimeFormat) where
  unfoldable pub read_times : String → String → String → String → String → Reading
  read_times type status reason message t = elim (F.parse t) [
    | none ↦ stops
    | some tm ↦ reads (record {
      type = type;
      status = status;
      observed_generation = pos 0;
      last_transition_time = tm;
      reason = reason;
      message = message;
    })
  ]

  unfoldable pub read_texts : String → String → Fields → Reading
  unfolding read_times
  read_texts type status m = elim (optional_text (lookup "reason" m)) [
    | none ↦ crashes
    | some reason ↦ elim (optional_text (lookup "message" m)) [
      | none ↦ crashes
      | some message ↦ elim (optional_text (lookup "lastTransitionTime" m)) [
        | none ↦ crashes
        | some t ↦ read_times type status reason message t
      ]
    ]
  ]

  unfoldable pub read_fields : Fields → Reading
  unfolding read_texts
  read_fields m = elim (as_text (lookup "type" m)) [
    | none ↦ stops
    | some type ↦ elim (as_text (lookup "status" m)) [
      | none ↦ stops
      | some status ↦ read_texts type status m
    ]
  ]

  unfoldable pub read_condition : Value → Reading
  unfolding read_fields
  read_condition (object m) = read_fields m
  read_condition _ = stops

  -- The loop, with the conditions that it has; `none` is the panic.
  unfoldable pub collect : List Condition → Items → Option (List Condition)
  collect x nil = some x
  collect x (cons item items) = elim (read_condition item) [
    | stops ↦ some []
    | crashes ↦ none
    | reads c ↦ collect (x ++ c ∷ []) items
  ]

-- The calls of other libraries: `NestedSlice` and `SetNestedField` of k8s.io/apimachinery, which do
-- as the functions without a copy do on values that decoding gives, and `encodeStruct`, which is
-- encoding/json there and back. A zero time is encoded as null, and so is a nil slice; a generation
-- that is zero is left out, and another one is a number, `generation`.
abbrev pub time_value : TimeFormat → ℕ → Value
time_value F t = if nat_beq t 0 then null else text (F.format t)

-- Go's `==` with zero.
abbrev pub is_zero : ℤ → Bool
is_zero (pos n) = nat_beq n 0
is_zero (negsuc n) = false

module _ (F : TimeFormat) (generation : ℤ → Value) where
  abbrev pub generation_fields : ℤ → Fields
  generation_fields g = if is_zero g then end else field "observedGeneration" (generation g) end

  abbrev pub condition_value : Condition → Value
  condition_value c = object (
      field "type" (text c.type) (
        field "status" (text c.status) (
          field "lastTransitionTime" (time_value F c.last_transition_time) (
            field "reason" (text c.reason)
              (field "message" (text c.message) (generation_fields c.observed_generation))))))

  unfoldable pub condition_items : List Condition → Items
  condition_items [] = nil
  condition_items (c ∷ cs) = cons (condition_value c) (condition_items cs)

pub record Encoding (F : TimeFormat) : Type 0 where
  -- No slice, or an error, is the empty one.
  pub nested_slice : List String → String → Fields → Items
  pub nested_slice-found :
      (fs : List String) (last : String) (m : Fields) (xs : Items)
      → is_native_items xs ≡ true
      → value_at fs last m ≡ some (array xs)
      → nested_slice fs last m ≡ xs
  pub set_nested_field : Value → List String → String → Fields → NotAMap ⊎ Fields
  pub set_nested_field-native :
      (v : Value) (fs : List String) (last : String) (m : Fields)
      → is_native v ≡ true
      → set_nested_field v fs last m ≡ set_nested_field_no_copy v fs last m
  pub generation : ℤ → Value
  pub generation-native : (g : ℤ) → is_native (generation g) ≡ true
  pub encode_struct : List Condition → Option Value
  pub encode_struct_lem :
      (c : Condition) (cs : List Condition)
      → encode_struct (c ∷ cs) ≡ some (array (condition_items F generation (c ∷ cs)))

-- How `SetConditions` ends.
pub data Outcome : Type 0 where
  crash : Outcome
  bad_json : Outcome
  not_a_map : NotAMap → Outcome
  changed : Fields → Outcome

module _ (F : TimeFormat) (E : Encoding F) where
  unfoldable pub get_conditions : Option Fields → Option (List Condition)
  unfolding collect
  get_conditions none = some []
  get_conditions (some m) = collect F [] (E.nested_slice ("status" ∷ []) "conditions" m)

  abbrev pub written : NotAMap ⊎ Fields → Outcome
  written (inl e) = not_a_map e
  written (inr m) = changed m

  unfoldable pub write_conditions : List Condition → Fields → Outcome
  write_conditions cs m = elim (E.encode_struct cs) [
    | none ↦ bad_json
    | some res ↦ written (E.set_nested_field res ("status" ∷ []) "conditions" m)
  ]

  unfoldable pub set_conditions : List Condition → Fields → Outcome
  unfolding get_conditions write_conditions
  set_conditions conds m = elim (get_conditions (some m)) [
    | none ↦ crash
    | some conditions ↦ write_conditions (upsert_all conds conditions) m
  ]

  -- The loops of `GetCondition` and `IsConditionSet`; `none` is the panic.
  unfoldable pub first_with : String → String → List Condition → Option Condition
  first_with type reason [] = none
  first_with type reason (c ∷ cs) =
      if c.type == type && c.reason == reason then some c else first_with type reason cs

  unfoldable pub get_condition : String → String → Option Fields → Option (Option Condition)
  unfolding get_conditions first_with
  get_condition type reason un = elim (get_conditions un) [
    | none ↦ none
    | some cs ↦ some (first_with type reason cs)
  ]

  unfoldable pub holds_in : Condition → List Condition → Bool
  holds_in cond [] = false
  holds_in cond (c ∷ cs) =
      if c.type == cond.type && (c.status == cond.status && c.reason == cond.reason)
      then true
      else holds_in cond cs

  unfoldable pub is_condition_set : Condition → Option Fields → Option Bool
  unfolding get_conditions holds_in
  is_condition_set cond none = some false
  is_condition_set cond (some m) = elim (get_conditions (some m)) [
    | none ↦ none
    | some cs ↦ some (holds_in cond cs)
  ]
