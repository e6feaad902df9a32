-- ===== src/Unstructured.antt =====
-- pkg/tools/unstructured/unstructured.go: the content of an unstructured object, and the fields in it.
pub mod Native
pub mod Nested
pub mod FailedRef
pub mod Conditions
pub mod Availability
use unstructured_runtime.Prelude.{
  ℕ, ◌≡◌, refl, Option, none, some, Bool, true, false, String, ◌==◌, string_eq, if◌then◌else◌,
  arith,
}
use unstructured_runtime.Prelude.Int.{ℤ}

-- What an `interface{}` of an object's content may hold. A `float64` and a `float32` are their bit
-- patterns, a `json.Number` is its text, and a value of any other type is the text that `%v` prints.
-- A map is the list of its keys with their values.
mutual
  pub data Value : Type 0 where
    null : Value
    boolean : Bool → Value
    text : String → Value
    int64 : ℤ → Value
    int32 : ℤ → Value
    int : ℤ → Value
    float64 : ℕ → Value
    float32 : ℕ → Value
    number : String → Value
    other : String → Value
    array : Items → Value
    object : Fields → Value

  pub data Items : Type 0 where
    nil : Items
    cons : Value → Items → Items

  pub data Fields : Type 0 where
    end : Fields
    field : String → Value → Fields → Fields

-- `m[k]`, `m[k] = v` and `delete(m, k)`.
unfoldable pub lookup : String → Fields → Option Value
lookup k end = none
lookup k (field j v m) = if j == k then some v else lookup k m

unfoldable pub assign : String → Value → Fields → Fields
assign k v end = field k v end
assign k v (field j w m) = if j == k then field k v m else field j w (assign k v m)

unfoldable pub delete_key : String → Fields → Fields
delete_key k end = end
delete_key k (field j w m) = let rest = delete_key k m in if j == k then rest else field j w rest

pub lookup-assign :
    (k j : String) (v : Value) (m : Fields)
    → lookup j (assign k v m) ≡ (if k == j then some v else lookup j m)
unfolding lookup assign
lookup-assign k j v end = refl
lookup-assign k j v (field i w m) = ground (
  arith,
  string_eq.equals_iff k j,
  string_eq.equals_iff i k,
  string_eq.equals_iff i j,
  lookup-assign k j v m,
)

pub lookup-delete_key :
    (k j : String) (m : Fields) → lookup j (delete_key k m) ≡ (if k == j then none else lookup j m)
unfolding lookup delete_key
lookup-delete_key k j end = ground arith
lookup-delete_key k j (field i w m) = ground (
  arith,
  string_eq.equals_iff k j,
  string_eq.equals_iff i k,
  string_eq.equals_iff i j,
  lookup-delete_key k j m,
)
