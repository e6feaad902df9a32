-- ===== src/Telemetry/Tracing.antt =====
-- The spans of pkg/telemetry/tracing.go, and the annotations that carry a trace from one resource to
-- the next. The propagator of OpenTelemetry and the context are interfaces; a nil map is `none`.
pub mod Carrier
use unstructured_runtime.Prelude.{
  Option, none, some, List, [], ◌∷◌, String, if◌then◌else◌, ◌==◌, string_eq, find, insert,
}
use unstructured_runtime.Errors.{Error}

-- `AnnotationKeyTraceparent` and `AnnotationKeyTracestate` of pkg/meta/meta.go
abbrev pub key_traceparent : String
key_traceparent = "krateo.io/traceparent"

abbrev pub key_tracestate : String
key_tracestate = "krateo.io/tracestate"

-- The global propagator, on contexts `C`: the carrier that `Inject` fills, from an empty one, and
-- `Extract`.
pub record Propagator (C : Type 0) : Type 0 where
  pub inject : C → List (String × String)
  pub extract : C → List (String × String) → C

-- `m[k]`, the empty text where the key is missing.
abbrev pub text_at : String → List (String × String) → String
text_at k m = elim (find k m) [ none ↦ "" | some v ↦ v ]

-- What is read of the object.
pub record ReconcileObject : Type 0 where
  pub kind : String
  pub name : String
  pub namespace : String
  pub annotations : Option (List (String × String))

module _ {C : Type 0} (p : Propagator C) where
  -- The context in which the span starts.
  unfoldable pub span_context : C → Option (List (String × String)) → C
  span_context ctx none = ctx
  span_context ctx (some []) = ctx
  span_context ctx (some (kv ∷ kvs)) =
      let tp = text_at key_traceparent (kv ∷ kvs) in
      let ts = text_at key_tracestate (kv ∷ kvs) in
      if tp == ""
      then ctx
      else p.extract ctx (("traceparent", tp) ∷ (if ts == "" then [] else ("tracestate", ts) ∷ []))

  -- `StartReconcileSpan`: the context and the attributes with which the tracer starts the span.
  unfoldable pub start_reconcile_span : C → ReconcileObject → C × List (String × String)
  unfolding span_context
  start_reconcile_span ctx obj = (
    span_context ctx obj.annotations,
    ("k8s.object.kind", obj.kind)
        ∷ ("k8s.object.name", obj.name)
        ∷ ("k8s.object.namespace", obj.namespace)
        ∷ [],
  )

  -- `InjectTraceparent`: the annotations after it; `none` is the panic of a write to a nil map.
  unfoldable pub inject_traceparent :
      C → Option (List (String × String)) → Option (Option (List (String × String)))
  inject_traceparent ctx annotations =
      let tp = text_at "traceparent" (p.inject ctx) in
      let ts = text_at "tracestate" (p.inject ctx) in
      if tp == "" then some annotations else elim annotations [
        | none ↦ none
        | some m ↦
            let written = insert key_traceparent tp m in
            some (some (if ts == "" then written else insert key_tracestate ts written))
      ]

pub data SpanCall : Type 0 where
  record_error : Error → SpanCall
  set_status_error : Error → SpanCall

unfoldable pub record_span_error : Option Error → List SpanCall
record_span_error none = []
record_span_error (some err) = record_error err ∷ set_status_error err ∷ []
