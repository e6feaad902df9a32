-- ===== src/Tests/Metadata.antt =====
-- Examples of the metadata, the errors, the conditions and the events.
use unstructured_runtime.Prelude.{
  ◌*◌, ◌^◌, ◌<◌, ◌≡◌, ◌↔◌, none, some, true, false, List, [], ◌∷◌, ◌++◌, String, string_eq, arith,
}
use unstructured_runtime.Meta.{
  Object, external_create_incomplete, set_external_create_pending, set_external_create_succeeded,
  set_external_create_failed, get_external_create_succeeded, get_external_create_failed,
  remove_annotations, key_external_create_pending,
}
use unstructured_runtime.Meta.Tracking.{seconds, set_pending-incomplete, outcome_complete}
use unstructured_runtime.Meta.Finalizers.{remove_finalizer}
use unstructured_runtime.Meta.Finalizers.Removal.{Avoids, remove_finalizer_once}
use unstructured_runtime.Condition.{Condition, available, reconcile_success, find, upsert_all}
use unstructured_runtime.Condition.Laws.{Distinct, find_last, find-upsert_all}
use unstructured_runtime.Tests.{three_seconds, bare}

set_pending-incomplete_example :
    (external_create_incomplete three_seconds
        (set_external_create_pending three_seconds (2 * 10 ^ 9) bare)
      ≡ true)
    ↔ ((get_external_create_succeeded three_seconds bare < seconds (2 * 10 ^ 9))
        × (get_external_create_failed three_seconds bare < seconds (2 * 10 ^ 9)))
set_pending-incomplete_example =
    set_pending-incomplete three_seconds (2 * 10 ^ 9) bare (omega arith) (omega arith)

outcome_complete_example :
    let started = set_external_create_pending three_seconds (10 ^ 9) bare in
    (external_create_incomplete three_seconds
        (set_external_create_succeeded three_seconds (2 * 10 ^ 9) started)
      ≡ false)
    × (external_create_incomplete three_seconds
          (set_external_create_failed three_seconds (2 * 10 ^ 9) started)
        ≡ false)
    × (external_create_incomplete three_seconds
          (remove_annotations (key_external_create_pending ∷ []) started)
        ≡ false)
outcome_complete_example =
    outcome_complete three_seconds (10 ^ 9) (2 * 10 ^ 9) bare (omega arith) (omega arith)
      (omega arith)

Avoids-kept : Avoids "dropped" ("kept" ∷ [])
Avoids-kept = (λ c. ground (arith, (string_eq.equals_iff "kept" "dropped").1 c), tt)

remove_finalizer_once_example :
    (bare.finalizers ≡ ("kept" ∷ []) ++ "dropped" ∷ []
      → remove_finalizer "dropped" bare ≡ some (record bare { finalizers = ("kept" ∷ []) ++ [] }))
    × (bare.finalizers ≡ ("kept" ∷ []) ++ [] → remove_finalizer "dropped" bare ≡ some bare)
remove_finalizer_once_example = remove_finalizer_once "dropped" bare ("kept" ∷ []) [] Avoids-kept tt

abbrev doubled : Object
doubled = record bare { finalizers = "kept" ∷ "dropped" ∷ "dropped" ∷ [] }

abbrev two_conditions : List Condition
two_conditions = available 1 ∷ reconcile_success 2 ∷ []

two_conditions-Distinct : Distinct two_conditions
unfolding available reconcile_success
two_conditions-Distinct =
    ((λ c. ground (arith, (string_eq.equals_iff "Synced" "Ready").1 c), tt), (tt, tt))

find-upsert_all_example :
    Distinct (upsert_all (available 9 ∷ []) two_conditions)
    × ((t : String)
        → find t (upsert_all (available 9 ∷ []) two_conditions)
          ≡ (elim (find_last t (available 9 ∷ [])) [
            | none ↦ find t two_conditions
            | some d ↦ some d
          ]))
find-upsert_all_example = find-upsert_all (available 9 ∷ []) two_conditions two_conditions-Distinct
