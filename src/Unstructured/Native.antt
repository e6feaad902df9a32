-- ===== src/Unstructured/Native.antt =====
-- The values that `DeepCopyJSONValue` of k8s.io/apimachinery accepts, json.Number among them, and
-- those without one.
use unstructured_runtime.Prelude.{◌≡◌, refl, Bool, true, false, ◌&&◌, arith}
use unstructured_runtime.Unstructured.{
  Value, Items, Fields, null, boolean, text, int64, int32, int, float64, float32, number, other,
  array, object, nil, cons, end, field,
}

unfoldable mutual
  pub is_native : Value → Bool
  is_native null = true
  is_native (boolean b) = true
  is_native (text s) = true
  is_native (int64 i) = true
  is_native (int32 i) = false
  is_native (int i) = false
  is_native (float64 b) = true
  is_native (float32 b) = false
  is_native (number s) = true
  is_native (other s) = false
  is_native (array xs) = is_native_items xs
  is_native (object m) = is_native_fields m

  pub is_native_items : Items → Bool
  is_native_items nil = true
  is_native_items (cons x xs) = is_native x && is_native_items xs

  pub is_native_fields : Fields → Bool
  is_native_fields end = true
  is_native_fields (field k v m) = is_native v && is_native_fields m

-- Accepted, and without a json.Number.
unfoldable mutual
  pub is_plain : Value → Bool
  is_plain null = true
  is_plain (boolean b) = true
  is_plain (text s) = true
  is_plain (int64 i) = true
  is_plain (int32 i) = false
  is_plain (int i) = false
  is_plain (float64 b) = true
  is_plain (float32 b) = false
  is_plain (number s) = false
  is_plain (other s) = false
  is_plain (array xs) = is_plain_items xs
  is_plain (object m) = is_plain_fields m

  pub is_plain_items : Items → Bool
  is_plain_items nil = true
  is_plain_items (cons x xs) = is_plain x && is_plain_items xs

  pub is_plain_fields : Fields → Bool
  is_plain_fields end = true
  is_plain_fields (field k v m) = is_plain v && is_plain_fields m

mutual
  unfolding is_native is_plain

  pub is_native-is_plain : (v : Value) → is_plain v ≡ true → is_native v ≡ true
  is_native-is_plain null h = refl
  is_native-is_plain (boolean b) h = refl
  is_native-is_plain (text s) h = refl
  is_native-is_plain (int64 i) h = refl
  is_native-is_plain (int32 i) h = h
  is_native-is_plain (int i) h = h
  is_native-is_plain (float64 b) h = refl
  is_native-is_plain (float32 b) h = h
  is_native-is_plain (number s) h = refl
  is_native-is_plain (other s) h = h
  is_native-is_plain (array xs) h = native_items_plain xs h
  is_native-is_plain (object m) h = native_fields_plain m h

  native_items_plain : (xs : Items) → is_plain_items xs ≡ true → is_native_items xs ≡ true
  native_items_plain nil h = refl
  native_items_plain (cons x xs) h = ground (arith, is_native-is_plain x, native_items_plain xs)

  native_fields_plain : (m : Fields) → is_plain_fields m ≡ true → is_native_fields m ≡ true
  native_fields_plain end h = refl
  native_fields_plain (field k v m) h = ground (arith, is_native-is_plain v, native_fields_plain m)
