-- ===== src/StatusProjection/Project/Laws.antt =====
-- What `Project` of pkg/tools/statusprojection/statusprojection.go does to the object.
use mathlib.Core.Path.{ap₂}
use unstructured_runtime.Prelude.{
  ◌≡◌, refl, sym, ap, ◌∙◌, Option, none, some, Bool, true, false, List, [], ◌∷◌, ◌++◌, String, ◌==◌,
  string_eq, if◌then◌else◌, ◌⊎◌, inl, inr, arith,
}
use unstructured_runtime.Unstructured.{Value, Fields, object}
use unstructured_runtime.Unstructured.Nested.{NotAMap}
use unstructured_runtime.StatusProjection.Project.{
  Mapping, Engine, ProjectError, Evaluation, failed, no_output, output, build_root, eval_one,
  set_status_field, write_output, project_copy, project_one, project_all, after_set, add_error,
}

module _ (E : Engine) where
  after_set_error :
      (path : String) (cr : Fields) (r : NotAMap ⊎ Fields) (e : ProjectError)
      → (after_set E path cr r).0 ≡ some e
      → (after_set E path cr r).1 ≡ cr
  after_set_error path cr (inl x) e h = refl
  after_set_error path cr (inr x) e h = absurd (ground (arith, h))

  write_output_error :
      (path : String) (cr : Fields) (x : Evaluation) (e : ProjectError)
      → (write_output E path cr x).0 ≡ some e
      → (write_output E path cr x).1 ≡ cr
  unfolding write_output
  write_output_error path cr (failed s) e h = refl
  write_output_error path cr no_output e h = refl
  write_output_error path cr (output v) e h =
      after_set_error path cr (set_status_field E path v cr) e h

  project_copy_error :
      (m : Mapping) (cr : Fields) (source : Option Value) (e : ProjectError)
      → (project_copy E m cr source).0 ≡ some e
      → (project_copy E m cr source).1 ≡ cr
  unfolding project_copy
  project_copy_error m cr none e h = refl
  project_copy_error m cr (some source) e h =
      write_output_error m.for_path cr (eval_one E m.expression source) e h

  project_one_error :
      (had : Bool) (resolved : Fields) (m : Mapping) (cr : Fields) (e : ProjectError)
      → (project_one E had resolved m cr).0 ≡ some e
      → (project_one E had resolved m cr).1 ≡ cr
  unfolding project_one
  project_one_error had resolved m cr e h =
      by_path (m.for_path == "")
        (project_copy E m cr (E.deep_copy (object (build_root had resolved cr))))
        (project_copy_error m cr (E.deep_copy (object (build_root had resolved cr))) e) h
    where
      by_path :
          (b : Bool) (p : Option ProjectError × Fields)
          → (p.0 ≡ some e → p.1 ≡ cr)
          → (if b then (some ProjectError.empty_for_path, cr) else p).0 ≡ some e
          → (if b then (some ProjectError.empty_for_path, cr) else p).1 ≡ cr
      by_path true p v h = refl
      by_path false p v h = v h

  module _ (had : Bool) (resolved : Fields) where
    errors : List Mapping → Fields → List ProjectError
    unfolding project_all
    errors ms cr = (project_all E had resolved ms cr).0

    result : List Mapping → Fields → Fields
    unfolding project_all
    result ms cr = (project_all E had resolved ms cr).1

    one : Mapping → Fields → Option ProjectError × Fields
    unfolding project_one
    one m cr = project_one E had resolved m cr

    one_kept :
        (m : Mapping) (cr : Fields) (e : ProjectError) → (one m cr).0 ≡ some e → (one m cr).1 ≡ cr
    unfolding one
    one_kept m cr e h = project_one_error had resolved m cr e h

    errors_cons :
        (m : Mapping) (ms : List Mapping) (cr : Fields)
        → errors (m ∷ ms) cr ≡ add_error E (one m cr).0 (errors ms (one m cr).1)
    unfolding errors project_all one
    errors_cons m ms cr = refl

    result_cons :
        (m : Mapping) (ms : List Mapping) (cr : Fields)
        → result (m ∷ ms) cr ≡ result ms (one m cr).1
    unfolding result project_all one
    result_cons m ms cr = refl

    result-append :
        (xs ys : List Mapping) (cr : Fields) → result (xs ++ ys) cr ≡ result ys (result xs cr)
    result-append [] ys cr = unfold result project_all in refl
    result-append (m ∷ xs) ys cr =
        result_cons m (xs ++ ys) cr
        ∙ result-append xs ys (one m cr).1
        ∙ ap (result ys) (sym (result_cons m xs cr))

    add_error-append :
        (e : Option ProjectError) (es fs : List ProjectError)
        → add_error E e (es ++ fs) ≡ add_error E e es ++ fs
    add_error-append none es fs = refl
    add_error-append (some e) es fs = refl

    errors-append :
        (xs ys : List Mapping) (cr : Fields)
        → errors (xs ++ ys) cr ≡ errors xs cr ++ errors ys (result xs cr)
    errors-append [] ys cr = unfold errors result project_all in refl
    errors-append (m ∷ xs) ys cr =
        errors_cons m (xs ++ ys) cr
        ∙ ap (add_error E (one m cr).0) (errors-append xs ys (one m cr).1)
        ∙ add_error-append (one m cr).0 (errors xs (one m cr).1)
            (errors ys (result xs (one m cr).1))
        ∙ ap₂ (λ a b. a ++ errors ys b) (sym (errors_cons m xs cr)) (sym (result_cons m xs cr))

    failing :
        (pre post : List Mapping) (m : Mapping) (cr : Fields) (e : ProjectError)
        → (one m (result pre cr)).0 ≡ some e
        → (errors (pre ++ m ∷ post) cr ≡ errors pre cr ++ e ∷ errors post (result pre cr))
          × (result (pre ++ m ∷ post) cr ≡ result (pre ++ post) cr)
    failing pre post m cr e h = (
      errors-append pre (m ∷ post) cr ∙ ap (λ es. errors pre cr ++ es) added,
      result-append pre (m ∷ post) cr
          ∙ result_cons m post (result pre cr)
          ∙ ap (result post) kept
          ∙ sym (result-append pre post cr),
    )
      where
        kept : (one m (result pre cr)).1 ≡ result pre cr
        kept = one_kept m (result pre cr) e h

        added : errors (m ∷ post) (result pre cr) ≡ e ∷ errors post (result pre cr)
        added =
            errors_cons m post (result pre cr)
            ∙ ap (λ x. add_error E x (errors post (one m (result pre cr)).1)) h
            ∙ ap (λ r. e ∷ errors post r) kept

  -- A mapping that fails after those before it costs its own field only: its error stands between the
  -- errors of the others, in order, and the object is the one that the others alone give.
  pub project_all_failing :
      (had : Bool) (resolved : Fields) (pre post : List Mapping) (m : Mapping) (cr : Fields)
      (e : ProjectError)
      → (project_one E had resolved m (project_all E had resolved pre cr).1).0 ≡ some e
      → ((project_all E had resolved (pre ++ m ∷ post) cr).0
          ≡ (project_all E had resolved pre cr).0
            ++ e ∷ (project_all E had resolved post (project_all E had resolved pre cr).1).0)
        × ((project_all E had resolved (pre ++ m ∷ post) cr).1
            ≡ (project_all E had resolved (pre ++ post) cr).1)
  unfolding failing errors result one
  project_all_failing had resolved pre post m cr e h = failing had resolved pre post m cr e h
