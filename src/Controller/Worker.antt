-- ===== src/Controller/Worker.antt =====
-- The calls that pkg/controller/worker.go makes of the cluster, the external client, the queue and
-- the clock, and programs that make them. A program is what the code does of each answer; logs,
-- traces and durations are left out.
pub mod Handlers
pub mod Process
pub mod Retry
pub mod History
pub mod Handling
pub mod Creation
pub mod Permission
pub mod Paused
pub mod Deletion
pub mod Recording
use Prim.Native.String.{◌++◌ as str_append}
use unstructured_runtime.Prelude.{
  ℕ, Option, none, some, Bool, true, false, List, [], ◌∷◌, String, if◌then◌else◌, ◌⊎◌, inl, inr,
}
use unstructured_runtime.PriorityQueue.Add.{AddOpts}
use unstructured_runtime.Errors.{Error, text, wrapped}
use unstructured_runtime.Event.{ObjectRef, Event}
use unstructured_runtime.Condition.{Condition, upsert_all}
use unstructured_runtime.Controller.{Resource}

pub record ExternalObservation : Type 0 where
  pub resource_exists : Bool
  pub resource_up_to_date : Bool

pub data Call : Type 0 where
  -- The dynamic client; `resolve` is the pluralizer's `GVKtoGVR`.
  get : ObjectRef → Call
  resolve : ObjectRef → Call
  write : String → Resource → Call
  write_status : String → Resource → Call
  -- The encoding of the conditions and their place in the object.
  encode : Resource → List Condition → Call
  -- The external client.
  observe_external : Resource → Call
  create_external : Resource → Call
  update_external : Resource → Call
  delete_external : Resource → Call
  -- The clock, the queue, and the recorder of events, with the reason that it is given.
  clock : Call
  enqueue : AddOpts → Event → Call
  recorded : String → Call

-- The external client may change the object that it is given.
abbrev pub Answer : Call → Type 0
Answer (get r) = Error ⊎ Resource
Answer (resolve r) = Error ⊎ String
Answer (write g r) = Error ⊎ Resource
Answer (write_status g r) = Error ⊎ Resource
Answer (encode r cs) = Option Error
Answer (observe_external r) = (Error ⊎ ExternalObservation) × Resource
Answer (create_external r) = Option Error × Resource
Answer (update_external r) = Option Error × Resource
Answer (delete_external r) = Option Error × Resource
Answer clock = ℕ
Answer (enqueue o ev) = Unit
Answer (recorded reason) = Unit

-- `done` returns an error or nil.
pub data Prog : Type 0 where
  done : Option Error → Prog
  crash : Prog
  call : (c : Call) → (Answer c → Prog) → Prog

pub record Controller : Type 0 where
  pub has_external_client : Bool
  pub has_dynamic_client : Bool
  pub has_pluralizer : Bool

abbrev pub on_result {ℓ} : {A : Type ℓ} → (Error → Prog) → (A → Prog) → Error ⊎ A → Prog
on_result fail k (inl e) = fail e
on_result fail k (inr a) = k a

abbrev pub on_error : (Error → Prog) → Prog → Option Error → Prog
on_error fail k none = k
on_error fail k (some e) = fail e

abbrev pub return_error : Error → Prog
return_error e = done (some e)

abbrev pub record_event : String → Prog → Prog
record_event reason p = call (recorded reason) λ u. p

unfoldable pub fetch : Controller → ObjectRef → (Error → Prog) → (Resource → Prog) → Prog
fetch C ref fail k =
    if C.has_dynamic_client
    then call (get ref) (on_result fail k)
    else fail (text "dynamic client is not configured")

-- `Update` and `UpdateStatus` of pkg/tools/tools.go.
abbrev pub guarded_write :
    Controller → (String → Resource → Call) → Resource → (Error → Prog) → (String → Prog) → Prog
guarded_write C w el fail k =
    if C.has_pluralizer
    then if C.has_dynamic_client
      then call (resolve el.ref) (on_result fail k)
      else fail (text "dynamic client cannot be nil")
    else fail (text "pluralizer cannot be nil")

unfoldable pub update : Controller → Resource → (Error → Prog) → (Resource → Prog) → Prog
update C el fail k = guarded_write C write el fail λ gvr. call (write gvr el) (on_result fail k)

unfoldable pub update_status : Controller → Resource → (Error → Prog) → (Resource → Prog) → Prog
update_status C el fail k =
    guarded_write C write_status el fail λ gvr. call (write_status gvr el) (on_result fail k)

-- The conditions of a call, each with its own reading of the clock.
unfoldable pub stamp : List (ℕ → Condition) → (List Condition → Prog) → Prog
stamp [] k = k []
stamp (c ∷ cs) k = call clock λ now. stamp cs λ ds. k (c now ∷ ds)

-- `SetConditions` of pkg/tools/unstructured/unstructured.go.
unfoldable pub set_conditions :
    Resource → List (ℕ → Condition) → (Error → Prog) → (Resource → Prog) → Prog
unfolding stamp
set_conditions el cs fail k = stamp cs λ ds.
    let conditions = upsert_all ds el.conditions in
    call (encode el conditions) (on_error fail (k (record el { conditions = conditions })))

-- `err.Error()`
unfoldable pub message : Error → String
message (text t) = t
message (wrapped m e) = str_append m (str_append ": " (message e))
