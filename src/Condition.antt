-- ===== src/Condition.antt =====
-- pkg/tools/unstructured/condition/condition.go: the conditions of a resource. `LastTransitionTime`
-- is the reading of the clock that `metav1.Now` makes.
pub mod Laws
use unstructured_runtime.Prelude.Int.{ℤ, pos}
use unstructured_runtime.Prelude.{
  ℕ, Bool, true, false, Option, none, some, List, [], ◌∷◌, ◌++◌, String, ◌==◌, string_eq,
  if◌then◌else◌,
}

pub record Condition : Type 0 where
  pub type : String
  pub status : String
  pub observed_generation : ℤ
  pub last_transition_time : ℕ
  pub reason : String
  pub message : String

abbrev pub type_ready : String
type_ready = "Ready"

abbrev pub type_synced : String
type_synced = "Synced"

abbrev pub condition : String → String → String → ℕ → Condition
condition type status reason now = record {
  type = type;
  status = status;
  observed_generation = pos 0;
  last_transition_time = now;
  reason = reason;
  message = "";
}

unfoldable pub unavailable : ℕ → Condition
unavailable = condition type_ready "False" "Unavailable"

unfoldable pub creating : ℕ → Condition
creating = condition type_ready "False" "Creating"

unfoldable pub fail_with_reason : String → ℕ → Condition
fail_with_reason reason = condition type_ready "False" reason

unfoldable pub deleting : ℕ → Condition
deleting = condition type_ready "False" "Deleting"

unfoldable pub available : ℕ → Condition
available = condition type_ready "True" "Available"

unfoldable pub reconcile_success : ℕ → Condition
reconcile_success = condition type_synced "True" "ReconcileSuccess"

-- `message` is the text of the error.
unfoldable pub reconcile_error : String → ℕ → Condition
reconcile_error message now = record (condition type_synced "False" "ReconcileError" now) {
  message = message;
}

unfoldable pub reconcile_paused : ℕ → Condition
reconcile_paused = condition type_synced "False" "ReconcilePaused"

unfoldable pub upsert : Condition → List Condition → List Condition
upsert c [] = c ∷ []
upsert c (d ∷ ds) = if d.type == c.type then c ∷ ds else d ∷ upsert c ds

-- The loop of `Join` over the conditions that it was given; `all` is not read.
unfoldable pub upsert_all : List Condition → List Condition → List Condition
upsert_all [] cs = cs
upsert_all (d ∷ ds) cs = upsert_all ds (upsert d cs)

unfoldable pub join : List Condition → List Condition → List Condition
join cs all = upsert_all cs cs

unfoldable pub remove : String → List Condition → List Condition
remove t [] = []
remove t (d ∷ ds) = if d.type == t then ds else d ∷ remove t ds

-- The condition of a type.
unfoldable pub find : String → List Condition → Option Condition
find t [] = none
find t (d ∷ ds) = if d.type == t then some d else find t ds
