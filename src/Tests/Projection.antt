-- ===== src/Tests/Projection.antt =====
-- Examples of the projection of the status, with an engine that gives back the expression.
use unstructured_runtime.Prelude.{
  ◌≡◌, refl, none, some, true, false, [], ◌∷◌, ◌++◌, String, string_eq, if◌then◌else◌, inr,
}
use unstructured_runtime.Prelude.Int.{pos}
use unstructured_runtime.Unstructured.{
  Value, Fields, text, int32, float32, number, array, object, nil, cons, end, field, lookup,
}
use unstructured_runtime.Unstructured.Native.{is_native, is_plain}
use unstructured_runtime.Unstructured.Nested.{set_nested_field_no_copy}
use unstructured_runtime.StatusProjection.Normalize.{Numbers, normalize, normalize-is_native}
use unstructured_runtime.StatusProjection.Project.{
  Mapping, Engine, empty_for_path, project_one, project_all,
}
use unstructured_runtime.StatusProjection.Project.Laws.{project_all_failing}
use unstructured_runtime.StatusProjection.Project.Scope.{project_all_elsewhere}

abbrev no_numbers : Numbers
no_numbers = record { parse_int = λ s. none; parse_float = λ s. none; widen = λ b. b }

-- A source that holds a value that cannot be copied is refused.
abbrev engine : Engine
engine = record {
  numbers = no_numbers;
  deep_copy = λ v. if is_native v then some v else none;
  set_nested_field = set_nested_field_no_copy;
  set_nested_field-native = λ v fs last m native. refl;
  maybe_query = λ s. none;
  eval = λ q v. inr q;
  infer_type = text;
}

abbrev mapping : String → String → Mapping
mapping path expression = record { for_path = path; expression = expression }

-- A list with numbers of several types.
abbrev mixed : Value
mixed = array (cons (int32 (pos 3)) (cons (number "1e3") (cons (float32 7) nil)))

normalize-is_native_example :
    (is_native (normalize no_numbers mixed) ≡ true)
    × (is_plain (normalize no_numbers mixed) ≡ true)
    × (is_plain mixed ≡ true → normalize no_numbers mixed ≡ mixed)
    × (normalize no_numbers (normalize no_numbers mixed) ≡ normalize no_numbers mixed)
normalize-is_native_example = normalize-is_native no_numbers mixed

abbrev chart : Fields
chart = field "spec" (object end) end

no_path :
    (project_one engine false end
      (mapping "" "1")
      (project_all engine false end (mapping "a.b" "x" ∷ []) chart).1).0
    ≡ some empty_for_path
unfolding project_one
no_path = refl

project_all_failing_example :
    ((project_all engine false end
        ((mapping "a.b" "x" ∷ []) ++ mapping "" "1" ∷ mapping "c" "y" ∷ [])
        chart).0
      ≡ (project_all engine false end (mapping "a.b" "x" ∷ []) chart).0
        ++ empty_for_path
          ∷ (project_all engine false end
              (mapping "c" "y" ∷ [])
              (project_all engine false end (mapping "a.b" "x" ∷ []) chart).1).0)
    × ((project_all engine false end
          ((mapping "a.b" "x" ∷ []) ++ mapping "" "1" ∷ mapping "c" "y" ∷ [])
          chart).1
        ≡ (project_all engine false end ((mapping "a.b" "x" ∷ []) ++ mapping "c" "y" ∷ []) chart).1)
project_all_failing_example =
    project_all_failing engine false end (mapping "a.b" "x" ∷ []) (mapping "c" "y" ∷ [])
      (mapping "" "1") chart empty_for_path no_path

project_all_elsewhere_example :
    lookup "spec" (project_all engine false end (mapping "a.b" "x" ∷ []) chart).1
    ≡ lookup "spec" chart
project_all_elsewhere_example =
    project_all_elsewhere engine false end (mapping "a.b" "x" ∷ []) chart "spec" refl
