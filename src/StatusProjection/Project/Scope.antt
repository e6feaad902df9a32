-- ===== src/StatusProjection/Project/Scope.antt =====
-- Which fields of the object `Project` of pkg/tools/statusprojection/statusprojection.go can change.
use unstructured_runtime.Prelude.{
  ◌≡◌, refl, sym, ap, ◌∙◌, Option, none, some, Bool, true, false, List, [], ◌∷◌, String, ◌==◌,
  string_eq, if◌then◌else◌, ◌⊎◌, inl, inr,
}
use unstructured_runtime.Unstructured.{Value, Fields, object, lookup}
use unstructured_runtime.Unstructured.Native.{is_native}
use unstructured_runtime.Unstructured.Nested.{NotAMap, set_nested_field_no_copy}
use unstructured_runtime.Unstructured.Nested.Laws.{set_from_elsewhere}
use unstructured_runtime.StatusProjection.Normalize.{normalize, normalize-is_native}
use unstructured_runtime.StatusProjection.Project.{
  Mapping, Engine, ProjectError, Evaluation, failed, no_output, output, status_path, init_last,
  split_dots, build_root, eval_one, set_status_field, write_output, project_copy, project_one,
  project_all, after_set,
}

-- The fields below `status` on the path, and the last field.
abbrev below : String → List String × String
unfolding init_last split_dots
below path = let (part, parts) = split_dots path in init_last part parts

status_path-below : (path : String) → status_path path ≡ ("status" ∷ (below path).0, (below path).1)
unfolding status_path init_last below split_dots
status_path-below path = refl

-- Every field but `status` is what it was.
unfoldable Elsewhere : Fields → Fields → Type 0
Elsewhere cr cr' = (k : String) → ("status" == k) ≡ false → lookup k cr' ≡ lookup k cr

Elsewhere_refl : (cr : Fields) → Elsewhere cr cr
unfolding Elsewhere
Elsewhere_refl cr k ne = refl

Elsewhere_trans : (a b c : Fields) → Elsewhere a b → Elsewhere b c → Elsewhere a c
unfolding Elsewhere
Elsewhere_trans a b c h h' k ne = h' k ne ∙ h k ne

module _ (E : Engine) where
  set_status :
      (path : String) (v : Value) (cr : Fields)
      → is_native v ≡ true
      → set_status_field E path v cr
        ≡ set_nested_field_no_copy v ("status" ∷ (below path).0) (below path).1 cr
  unfolding set_status_field
  set_status path v cr native =
      ap (λ p. E.set_nested_field v p.0 p.1 cr) (status_path-below path)
      ∙ E.set_nested_field-native v ("status" ∷ (below path).0) (below path).1 cr native

  set_status_elsewhere :
      (path : String) (v : Value) (cr r : Fields)
      → is_native v ≡ true
      → set_status_field E path v cr ≡ inr r
      → Elsewhere cr r
  unfolding Elsewhere set_nested_field_no_copy
  set_status_elsewhere path v cr r native h k ne =
      set_from_elsewhere [] v "status" (below path).0 (below path).1 cr r
        (sym (set_status path v cr native) ∙ h) k ne

  after_set_elsewhere :
      (path : String) (cr : Fields) (x : NotAMap ⊎ Fields)
      → ((r : Fields) → x ≡ inr r → Elsewhere cr r)
      → Elsewhere cr (after_set E path cr x).1
  after_set_elsewhere path cr (inl e) h = Elsewhere_refl cr
  after_set_elsewhere path cr (inr r) h = h r refl

  data IsNativeOutput : Evaluation → Type 0 where
    of_failed : (s : String) → IsNativeOutput (failed s)
    of_no_output : IsNativeOutput no_output
    of_output : (v : Value) → is_native v ≡ true → IsNativeOutput (output v)

  normalized : (v : Value) → IsNativeOutput (output (normalize E.numbers v))
  normalized v = of_output (normalize E.numbers v) (normalize-is_native E.numbers v).0

  eval_one-IsNativeOutput : (e : String) (source : Value) → IsNativeOutput (eval_one E e source)
  unfolding eval_one
  eval_one-IsNativeOutput e source = by_query (E.maybe_query e)
    where
      by_out :
          (b : Bool) (out : String)
          → IsNativeOutput
              (if b then no_output else output (normalize E.numbers (E.infer_type out)))
      by_out true out = of_no_output
      by_out false out = normalized (E.infer_type out)

      by_result :
          (x : String ⊎ String)
          → IsNativeOutput (elim x [
            | inl e ↦ failed e
            | inr out ↦
                if out == "" then no_output else output (normalize E.numbers (E.infer_type out))
          ])
      by_result (inl s) = of_failed s
      by_result (inr out) = by_out (out == "") out

      by_query :
          (x : Option String)
          → IsNativeOutput (elim x [
            | none ↦ output (normalize E.numbers (E.infer_type e))
            | some q ↦ elim (E.eval q source) [
              | inl e ↦ failed e
              | inr out ↦
                  if out == "" then no_output else output (normalize E.numbers (E.infer_type out))
            ]
          ])
      by_query none = normalized (E.infer_type e)
      by_query (some q) = by_result (E.eval q source)

  write_output_elsewhere :
      (path : String) (cr : Fields) (x : Evaluation)
      → IsNativeOutput x
      → Elsewhere cr (write_output E path cr x).1
  unfolding write_output
  write_output_elsewhere path cr _ (of_failed s) = Elsewhere_refl cr
  write_output_elsewhere path cr _ of_no_output = Elsewhere_refl cr
  write_output_elsewhere path cr _ (of_output v native) =
      after_set_elsewhere path cr (set_status_field E path v cr)
        (λ r. set_status_elsewhere path v cr r native)

  project_copy_elsewhere :
      (m : Mapping) (cr : Fields) (source : Option Value)
      → Elsewhere cr (project_copy E m cr source).1
  unfolding project_copy
  project_copy_elsewhere m cr none = Elsewhere_refl cr
  project_copy_elsewhere m cr (some source) =
      write_output_elsewhere m.for_path cr (eval_one E m.expression source)
        (eval_one-IsNativeOutput m.expression source)

  module _ (had : Bool) (resolved : Fields) where
    project_one_elsewhere :
        (m : Mapping) (cr : Fields) → Elsewhere cr (project_one E had resolved m cr).1
    unfolding project_one
    project_one_elsewhere m cr =
        by_path (m.for_path == "")
          (project_copy E m cr (E.deep_copy (object (build_root had resolved cr))))
          (project_copy_elsewhere m cr (E.deep_copy (object (build_root had resolved cr))))
      where
        by_path :
            (b : Bool) (p : Option ProjectError × Fields)
            → Elsewhere cr p.1
            → Elsewhere cr (if b then (some ProjectError.empty_for_path, cr) else p).1
        by_path true p h = Elsewhere_refl cr
        by_path false p h = h

    elsewhere :
        (ms : List Mapping) (cr : Fields) → Elsewhere cr (project_all E had resolved ms cr).1
    unfolding project_all
    elsewhere [] cr = Elsewhere_refl cr
    elsewhere (m ∷ ms) cr =
        let cr' = (project_one E had resolved m cr).1 in
        Elsewhere_trans cr cr' (project_all E had resolved ms cr').1 (project_one_elsewhere m cr)
          (elsewhere ms cr')

  -- Whatever the mappings are and whatever they evaluate to, no field of the object but `status`
  -- changes.
  pub project_all_elsewhere :
      (had : Bool) (resolved : Fields) (ms : List Mapping) (cr : Fields) (k : String)
      → ("status" == k) ≡ false
      → lookup k (project_all E had resolved ms cr).1 ≡ lookup k cr
  unfolding elsewhere Elsewhere
  project_all_elsewhere had resolved ms cr k ne = elsewhere had resolved ms cr k ne
