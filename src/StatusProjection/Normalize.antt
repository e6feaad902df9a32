-- ===== src/StatusProjection/Normalize.antt =====
-- `normalize` of pkg/tools/statusprojection/statusprojection.go. The parsers of a `json.Number` and the
-- widening of a `float32` are those of encoding/json and of the language.
use unstructured_runtime.Prelude.{ℕ, ◌≡◌, refl, ap, Option, none, some, true, String, arith}
use unstructured_runtime.Prelude.Int.{ℤ}
use unstructured_runtime.Unstructured.{
  Value, Items, Fields, null, boolean, text, int64, int32, int, float64, float32, number, other,
  array, object, nil, cons, end, field,
}
use unstructured_runtime.Unstructured.Native.{
  is_native, is_plain, is_plain_items, is_plain_fields, is_native-is_plain,
}

-- `float64` and `float32` are bit patterns.
pub record Numbers : Type 0 where
  pub parse_int : String → Option ℤ
  pub parse_float : String → Option ℕ
  pub widen : ℕ → ℕ

module _ (N : Numbers) where
  unfoldable pub normalize_number : String → Value
  normalize_number s = elim (N.parse_int s) [
    | some i ↦ int64 i
    | none ↦ elim (N.parse_float s) [ some f ↦ float64 f | none ↦ text s ]
  ]

  unfoldable mutual
    unfolding normalize_number

    pub normalize : Value → Value
    normalize null = null
    normalize (boolean b) = boolean b
    normalize (text s) = text s
    normalize (int64 i) = int64 i
    normalize (int32 i) = int64 i
    normalize (int i) = int64 i
    normalize (float64 b) = float64 b
    normalize (float32 b) = float64 (N.widen b)
    normalize (number s) = normalize_number s
    normalize (other s) = text s
    normalize (array xs) = array (normalize_items xs)
    normalize (object m) = object (normalize_fields m)

    pub normalize_items : Items → Items
    normalize_items nil = nil
    normalize_items (cons x xs) = cons (normalize x) (normalize_items xs)

    pub normalize_fields : Fields → Fields
    normalize_fields end = end
    normalize_fields (field k v m) = field k (normalize v) (normalize_fields m)

  normalize_number-is_plain : (s : String) → is_plain (normalize_number s) ≡ true
  unfolding normalize_number is_plain
  normalize_number-is_plain s = ground arith

  mutual
    unfolding normalize is_plain

    plain_value : (v : Value) → is_plain (normalize v) ≡ true
    plain_value null = refl
    plain_value (boolean b) = refl
    plain_value (text s) = refl
    plain_value (int64 i) = refl
    plain_value (int32 i) = refl
    plain_value (int i) = refl
    plain_value (float64 b) = refl
    plain_value (float32 b) = refl
    plain_value (number s) = normalize_number-is_plain s
    plain_value (other s) = refl
    plain_value (array xs) = plain_items xs
    plain_value (object m) = plain_fields m

    plain_items : (xs : Items) → is_plain_items (normalize_items xs) ≡ true
    plain_items nil = refl
    plain_items (cons x xs) = ground (arith, plain_value x, plain_items xs)

    plain_fields : (m : Fields) → is_plain_fields (normalize_fields m) ≡ true
    plain_fields end = refl
    plain_fields (field k v m) = ground (arith, plain_value v, plain_fields m)

  mutual
    unfolding normalize is_plain

    same_value : (v : Value) → is_plain v ≡ true → normalize v ≡ v
    same_value null h = refl
    same_value (boolean b) h = refl
    same_value (text s) h = refl
    same_value (int64 i) h = refl
    same_value (int32 i) h = cc
    same_value (int i) h = cc
    same_value (float64 b) h = refl
    same_value (float32 b) h = cc
    same_value (number s) h = cc
    same_value (other s) h = cc
    same_value (array xs) h = ap array (same_items xs h)
    same_value (object m) h = ap object (same_fields m h)

    same_items : (xs : Items) → is_plain_items xs ≡ true → normalize_items xs ≡ xs
    same_items nil h = refl
    same_items (cons x xs) h = ground (arith, same_value x, same_items xs)

    same_fields : (m : Fields) → is_plain_fields m ≡ true → normalize_fields m ≡ m
    same_fields end h = refl
    same_fields (field k v m) h = ground (arith, same_value v, same_fields m)

  -- Whatever a value holds, at any depth, `normalize` gives one that `DeepCopyJSONValue` accepts and
  -- that holds no json.Number; it changes no accepted value without a json.Number, and so no value
  -- twice.
  pub normalize-is_native :
      (v : Value)
      → (is_native (normalize v) ≡ true)
        × (is_plain (normalize v) ≡ true)
        × (is_plain v ≡ true → normalize v ≡ v)
        × (normalize (normalize v) ≡ normalize v)
  normalize-is_native v = (
    is_native-is_plain (normalize v) (plain_value v),
    plain_value v,
    same_value v,
    same_value (normalize v) (plain_value v),
  )
