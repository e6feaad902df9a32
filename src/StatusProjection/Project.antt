-- ===== src/StatusProjection/Project.antt =====
-- `Project` and `SetObservedGeneration` of pkg/tools/statusprojection/statusprojection.go. The source
-- root holds the object's own maps, so it is read anew at each mapping: `self` and `status` show what
-- the mappings before it wrote, but `status` is there only if the object had one at the start.
pub mod Laws
pub mod Scope
use Prim.Native.Char.{Char, code}
use Prim.Native.String.{[] as no_text, ◌∷◌ as push}
use unstructured_runtime.Prelude.{
  ℕ, ◌≡◌, Option, none, some, Bool, true, false, List, [], ◌∷◌, ◌++◌, String, ◌==◌, string_eq,
  nat_beq, if◌then◌else◌, ◌⊎◌, inl, inr,
}
use unstructured_runtime.Prelude.Int.{ℤ}
use unstructured_runtime.Unstructured.{
  Value, Fields, text, int64, object, end, field, lookup, assign,
}
use unstructured_runtime.Unstructured.Native.{is_native}
use unstructured_runtime.Unstructured.Nested.{NotAMap, set_nested_field_no_copy}
use unstructured_runtime.StatusProjection.Normalize.{Numbers, normalize}

pub record Mapping : Type 0 where
  pub for_path : String
  pub expression : String

-- The functions of other packages: `DeepCopyJSONValue` (`none` is its panic) and `SetNestedField` of
-- k8s.io/apimachinery, and `MaybeQuery`, `Eval` and `InferType` of plumbing/jqutil.
pub record Engine : Type 0 where
  pub numbers : Numbers
  pub deep_copy : Value → Option Value
  pub set_nested_field : Value → List String → String → Fields → NotAMap ⊎ Fields
  pub set_nested_field-native :
      (v : Value) (fs : List String) (last : String) (m : Fields)
      → is_native v ≡ true
      → set_nested_field v fs last m ≡ set_nested_field_no_copy v fs last m
  pub maybe_query : String → Option String
  pub eval : String → Value → String ⊎ String
  pub infer_type : String → Value

pub data ProjectError : Type 0 where
  empty_for_path : ProjectError
  unsafe_source : String → ProjectError
  not_evaluated : String → String → ProjectError
  not_set : String → NotAMap → ProjectError

pub data Evaluation : Type 0 where
  failed : String → Evaluation
  no_output : Evaluation
  output : Value → Evaluation

-- `strings.Split(s, ".")`: the first part and the others.
abbrev pub push_part : Char → String × List String → String × List String
push_part c (part, parts) = (push c part, parts)

abbrev pub split_char : Char → String × List String → String × List String
split_char c (part, parts) =
    if nat_beq (code c) 46 then ("", part ∷ parts) else push_part c (part, parts)

unfoldable pub split_dots : String → String × List String
split_dots no_text = ("", [])
split_dots (push c s) = split_char c (split_dots s)

-- The parts without the last one, and the last one.
unfoldable pub init_last : String → List String → List String × String
init_last part [] = ([], part)
init_last part (next ∷ parts) = let (init, last) = init_last next parts in (part ∷ init, last)

-- The path of `setStatusField`.
unfoldable pub status_path : String → List String × String
unfolding split_dots init_last
status_path for_path = let (part, parts) = split_dots for_path in init_last "status" (part ∷ parts)

abbrev pub assign_found : String → Option Value → Fields → Fields
assign_found k none m = m
assign_found k (some v) m = assign k v m

unfoldable pub build_root : Bool → Fields → Fields → Fields
build_root had_status resolved cr =
    let with_spec = assign_found "spec" (lookup "spec" cr) (assign "self" (object cr) resolved) in
    if had_status then assign_found "status" (lookup "status" cr) with_spec else with_spec

module _ (E : Engine) where
  unfoldable pub eval_one : String → Value → Evaluation
  unfolding normalize
  eval_one expression source = elim (E.maybe_query expression) [
    | none ↦ output (normalize E.numbers (E.infer_type expression))
    | some q ↦ elim (E.eval q source) [
      | inl e ↦ failed e
      | inr out ↦ if out == "" then no_output else output (normalize E.numbers (E.infer_type out))
    ]
  ]

  unfoldable pub set_status_field : String → Value → Fields → NotAMap ⊎ Fields
  unfolding status_path
  set_status_field for_path v cr =
      let (init, last) = status_path for_path in E.set_nested_field v init last cr

  -- A mapping: its error, or none, and the object after it.
  abbrev pub after_set : String → Fields → NotAMap ⊎ Fields → Option ProjectError × Fields
  after_set for_path cr (inl e) = (some (not_set for_path e), cr)
  after_set for_path cr (inr cr') = (none, cr')

  unfoldable pub write_output : String → Fields → Evaluation → Option ProjectError × Fields
  unfolding set_status_field
  write_output for_path cr (failed e) = (some (not_evaluated for_path e), cr)
  write_output for_path cr no_output = (none, cr)
  write_output for_path cr (output v) = after_set for_path cr (set_status_field for_path v cr)

  unfoldable pub project_copy : Mapping → Fields → Option Value → Option ProjectError × Fields
  unfolding eval_one write_output
  project_copy m cr none = (some (unsafe_source m.for_path), cr)
  project_copy m cr (some source) = write_output m.for_path cr (eval_one m.expression source)

  unfoldable pub project_one : Bool → Fields → Mapping → Fields → Option ProjectError × Fields
  unfolding build_root project_copy
  project_one had_status resolved m cr =
      if m.for_path == ""
      then (some empty_for_path, cr)
      else project_copy m cr (E.deep_copy (object (build_root had_status resolved cr)))

  abbrev pub add_error : Option ProjectError → List ProjectError → List ProjectError
  add_error none es = es
  add_error (some e) es = e ∷ es

  -- The loop: the errors in order, and the object.
  unfoldable pub project_all : Bool → Fields → List Mapping → Fields → List ProjectError × Fields
  unfolding project_one
  project_all had_status resolved [] cr = ([], cr)
  project_all had_status resolved (m ∷ ms) cr =
      let (e, cr') = project_one had_status resolved m cr in
      let (es, cr'') = project_all had_status resolved ms cr' in (add_error e es, cr'')

  -- No object is `none`; the joined error is the list of them, empty for nil.
  unfoldable pub project :
      Fields → List Mapping → Option Fields → Option (List ProjectError × Fields)
  unfolding project_all
  project resolved ms none = none
  project resolved ms (some cr) =
      let had_status : Bool = elim (lookup "status" cr) [ none ↦ false | some v ↦ true ] in
      some (project_all had_status resolved ms cr)

  unfoldable pub set_observed_generation : ℤ → Option Fields → Option (NotAMap ⊎ Fields)
  set_observed_generation generation none = none
  set_observed_generation generation (some cr) =
      some (E.set_nested_field (int64 generation) ("status" ∷ []) "observedGeneration" cr)
