-- ===== src/Tests/Signals.antt =====
-- Examples of the telemetry, the contexts and the logs.
use unstructured_runtime.Prelude.{
  ℕ, ◌+◌, ◌*◌, ◌≡◌, refl, sym, ap, ◌∙◌, none, some, Bool, true, false, List, [], ◌∷◌, ◌++◌, String,
  string_eq, find, ◌==◌, if◌then◌else◌, length, inr, ◌&&◌, nat_beq, All,
}
use unstructured_runtime.Prelude.Int.{pos, negsuc, sub_ℕ}
use unstructured_runtime.Event.{EventType, ObjectRef}
use unstructured_runtime.Controller.Loop.{Any, event, unexpected, Turn, run_worker}
use unstructured_runtime.Controller.Loop.Turns.{sum, processes, turns_with, is_unexpected}
use unstructured_runtime.Telemetry.Instruments.{Metrics, Call, Instrument}
use unstructured_runtime.Telemetry.Methods.{Method, perform_all}
use unstructured_runtime.Telemetry.Requeues.{total, Reason, counted, Returned}
use unstructured_runtime.Telemetry.Absent.{any_requeue, perform_all_lem}
use unstructured_runtime.Telemetry.Effects.{all_methods, successes, failures}
use unstructured_runtime.Telemetry.Reconciles.{is_failing, run_worker-measured}
use unstructured_runtime.Telemetry.Creation.{Result, ok, failed, Meter, create_all, new_metrics}
use unstructured_runtime.Telemetry.Creation.Uses.{Served, new_metrics-serves}
use unstructured_runtime.Telemetry.Methods.{add_queue_depth, inc_get_failure}
use unstructured_runtime.Telemetry.Creation.Laws.{IsOutcome, new_metrics_lem}
use unstructured_runtime.Telemetry.Setup.{
  Config, Library, build_resource, setup, setup_tracing, setup_otlp_logs, resource_attributes,
}
use unstructured_runtime.Telemetry.Setup.Outcomes.{
  Settles, Configured, is_ok, is_none, setups_settle,
}
use unstructured_runtime.Telemetry.Setup.Attributes.{
  configured, or_else, find-append, Merges, build_resource_attributes,
}
use unstructured_runtime.Telemetry.Tracing.{
  Propagator, text_at, key_traceparent, key_tracestate, span_context, inject_traceparent,
}
use unstructured_runtime.Telemetry.Tracing.Carrier.{
  carrier_of, parent_of, state_of, annotated, text_at-carrier_of, Propagates, trace_continues,
}
use unstructured_runtime.Context.{Context, trace_id_in, logger_in}
use unstructured_runtime.Context.Worker.{is_traced, worker_context, last_id, worker_context_grows}
use unstructured_runtime.Tests.{creation}

abbrev handle : Metrics
handle = record { deployment_name = "runtime"; reconcile_in_flight_count = pos 0 }

abbrev calls : List Method
calls = Method.inc_reconcile_error_requeue ∷ Method.inc_get_failure ∷ []

perform_all_lem_example :
    Returned handle (perform_all calls (some handle))
    × (perform_all calls none ≡ (if any_requeue calls then none else some (none, [])))
perform_all_lem_example = perform_all_lem calls handle

abbrev one_hash : EventType → ObjectRef → String
one_hash t r = "digest"

abbrev turn : Any → Bool → Turn
turn o traced = record {
  obj = o;
  priority = pos 0;
  shutdown = false;
  has_trace_id = traced;
  start = 7;
  finish = 9;
  err = none;
}

abbrev turns : List Turn
turns = turn (event creation) true ∷ turn (unexpected 3) true ∷ turn (event creation) false ∷ []

run_worker-measured_example :
    (m' : Metrics) × (cs : List Call) × (perform_all
        (all_methods (run_worker one_hash true turns))
        (some handle)
      ≡ some (some m', cs))
    × (m'.reconcile_in_flight_count ≡ sub_ℕ 0 (turns_with is_unexpected turns))
    × (total successes cs + total failures cs ≡ sum processes (run_worker one_hash true turns))
    × (total failures cs ≡ turns_with is_failing turns)
    × (total (counted Reason.error) cs ≡ turns_with is_failing turns)
run_worker-measured_example = run_worker-measured one_hash turns handle refl

-- An instrument is its name.
abbrev named : Meter String
named = record { create = λ kind name. ok name; register_callback = none }

abbrev handle_of : String → Metrics
handle_of d = record { deployment_name = d; reconcile_in_flight_count = pos 0 }

new_metrics_lem_example : IsOutcome named "runtime" (new_metrics named "runtime")
new_metrics_lem_example = new_metrics_lem named "runtime"

abbrev Resource : Type 0
Resource = List (String × String)

-- The attributes that are given come first.
abbrev library : Library Resource
library = record {
  exporter_error = none;
  default_resource = ("telemetry.sdk.language", "go") ∷ [];
  merge_default = λ kvs. ok (kvs ++ ("telemetry.sdk.language", "go") ∷ []);
}

ok-eq : {A : Type 0} {a b : A} → ok a ≡ ok b → a ≡ b
ok-eq h = cc

library-Merges : Merges library (λ k r. find k r)
library-Merges kvs r k distinct merged =
    ap (find k) (sym (ok-eq merged)) ∙ find-append k kvs (("telemetry.sdk.language", "go") ∷ [])

abbrev config : Config
config = record {
  enabled = true;
  tracing_enabled = true;
  service_name = "";
  export_interval = pos 0;
  deployment_name = "runtime";
  namespace = "demo";
  version = "";
  composition_id = "";
}

build_resource_attributes_example :
    find "service.name" (resource_attributes config ++ ("telemetry.sdk.language", "go") ∷ [])
    ≡ or_else (configured config "service.name") (find "service.name" library.default_resource)
build_resource_attributes_example =
    build_resource_attributes library (λ k r. find k r) config
      (resource_attributes config ++ ("telemetry.sdk.language", "go") ∷ []) "service.name"
      library-Merges (unfold build_resource in refl)

setups_settle_example :
    Settles (config.enabled && is_ok (setup library named config).0) (setup library named config).1
    × Configured (build_resource library config) (setup library named config).1
    × Settles
        (config.tracing_enabled && is_none (setup_tracing library config).0)
        (setup_tracing library config).1
    × Configured (build_resource library config) (setup_tracing library config).1
    × Settles
        (true && is_none (setup_otlp_logs library true "runtime").0)
        (setup_otlp_logs library true "runtime").1
setups_settle_example = setups_settle library config named true "runtime"

-- A context is its `traceparent` and `tracestate`.
abbrev w3c : Propagator (String × String)
w3c = record {
  inject = λ c. carrier_of c.0 c.1;
  extract = λ base carrier. (text_at "traceparent" carrier, text_at "tracestate" carrier);
}

w3c-Propagates : Propagates w3c (λ c. c)
w3c-Propagates base c carrier active parent state =
    let fields = text_at-carrier_of w3c c.0 c.1 in
    λ i. ((parent ∙ fields.0) i, (state ∙ fields.1) i)

abbrev traced : String × String
traced = ("00-ab-cd-01", "")

abbrev labels : List (String × String)
labels = ("team", "red") ∷ []

trace_continues_example :
    (inject_traceparent w3c traced (some labels) ≡ some (some (annotated w3c traced labels)))
    × (span_context w3c ("", "") (some (annotated w3c traced labels)) ≡ traced)
    × (find "team" (annotated w3c traced labels) ≡ (
        if key_traceparent == "team"
        then some (parent_of w3c traced)
        else if key_tracestate == "team"
        then (if state_of w3c traced == "" then find "team" labels else some (state_of w3c traced))
        else find "team" labels))
trace_continues_example =
    trace_continues w3c (λ c. c) ("", "") traced labels "team" w3c-Propagates (unfold find in refl)
      (inr (unfold find in refl))

abbrev numbered : ℕ → String
numbered n = "id"

abbrev empty_context : Context ℕ
empty_context = record { span_trace_id = none; entries = [] }

worker_context_grows_example :
    (length (worker_context (λ b. 0) false 1 numbered turns empty_context).entries
      ≡ length empty_context.entries + 2 * turns_with is_traced turns)
    × (trace_id_in (worker_context (λ b. 0) false 1 numbered turns empty_context).entries
        ≡ last_id numbered turns (trace_id_in empty_context.entries))
    × (logger_in (worker_context (λ b. 0) false 1 numbered turns empty_context).entries ≡ (
        if nat_beq (turns_with is_traced turns) 0 then logger_in empty_context.entries else some 1))
    × ((worker_context (λ b. 0) false 1 numbered turns empty_context).span_trace_id
        ≡ empty_context.span_trace_id)
worker_context_grows_example = worker_context_grows (λ b. 0) false 1 numbered turns empty_context

abbrev instruments : Result (Metrics × List (Instrument × String)) → List (Instrument × String)
instruments (ok (m, hs)) = hs
instruments (failed e) = []

new_metrics_ok :
    new_metrics named "runtime"
    ≡ ok (handle_of "runtime", instruments (new_metrics named "runtime"))
unfolding new_metrics create_all
new_metrics_ok = refl

new_metrics-serves_example :
    (m' : Metrics) × (calls : List Call) × (perform_all
        (add_queue_depth (negsuc 1) ∷ inc_get_failure ∷ [])
        (some (handle_of "runtime"))
      ≡ some (some m', calls))
    × All (Served named (instruments (new_metrics named "runtime"))) calls
new_metrics-serves_example =
    new_metrics-serves named "runtime" (handle_of "runtime")
      (instruments (new_metrics named "runtime"))
      (add_queue_depth (negsuc 1) ∷ inc_get_failure ∷ []) new_metrics_ok
