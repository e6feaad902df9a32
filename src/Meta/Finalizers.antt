-- ===== src/Meta/Finalizers.antt =====
-- The finalizers of pkg/meta/meta.go. `RemoveFinalizer` changes the array that it ranges over: the
-- loop reads the array as it is, while `f` is a prefix of it that gets shorter.
pub mod Removal
use unstructured_runtime.Prelude.{
  ℕ, zero, suc, ◌+◌, ◌-◌, ◌≤◌, ◌<◌, ◌≡◌, ◌≢◌, refl, sym, ap, ◌∙◌, Option, none, some, Bool, true,
  false, not, List, [], ◌∷◌, ◌++◌, String, ◌==◌, if◌then◌else◌, string_eq, arith, equals_refl,
  equals-false, inl, inr, All, select, take, drop, length, length-append, leb, get_elem?,
}
use unstructured_runtime.Meta.{Object}

-- `for _, e := range f { if e == finalizer { return true } }`
unfoldable pub contains : String → List String → Bool
contains x [] = false
contains x (y ∷ ys) = if y == x then true else contains x ys

unfoldable pub finalizer_exists : String → Object → Bool
finalizer_exists x o = contains x o.finalizers

unfoldable pub add_finalizer : String → Object → Object
add_finalizer x o =
    if contains x o.finalizers then o else record o { finalizers = o.finalizers ++ x ∷ [] }

-- `append(f[:i], f[i+1:]...)` on an array whose first `m` elements are `f`: the array after it.
unfoldable pub cut_at : ℕ → ℕ → List String → List String
cut_at i m a = take i a ++ (drop (suc i) (take m a) ++ drop (m - 1) a)

-- The rounds that are left, the index, the array and the length of `f`; `none` is the panic of a
-- slice expression out of range.
unfoldable pub remove_loop : String → ℕ → ℕ → List String → ℕ → Option (List String × ℕ)
remove_loop x zero i a m = some (a, m)
remove_loop x (suc r) i a m = elim (get_elem? a i) [
  | none ↦ none
  | some y ↦ elim (y == x) [
    | false ↦ remove_loop x r (suc i) a m
    | true ↦ elim (leb (suc i) m) [
      | true ↦ remove_loop x r (suc i) (cut_at i m a) (m - 1)
      | false ↦ none
    ]
  ]
]

unfoldable pub remove_all : String → List String → Option (List String)
unfolding remove_loop cut_at
remove_all x f = elim (remove_loop x (length f) 0 f (length f)) [
  | none ↦ none
  | some (a, m) ↦ some (take m a)
]

unfoldable pub remove_finalizer : String → Object → Option Object
unfolding remove_all
remove_finalizer x o = elim (remove_all x o.finalizers) [
  | none ↦ none
  | some f ↦ some (record o { finalizers = f })
]
