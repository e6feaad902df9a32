-- ===== src/Telemetry/Tracing/Carrier.antt =====
-- A trace that is carried by annotations (pkg/telemetry/tracing.go).
use unstructured_runtime.Prelude.{
  ◌≡◌, refl, Option, none, some, false, List, [], ◌∷◌, String, if◌then◌else◌, ◌==◌, string_eq, find,
  insert, find-insert, arith, ◌⊎◌, ap, ◌∙◌,
}
use unstructured_runtime.Telemetry.Tracing.{
  Propagator, text_at, key_traceparent, key_tracestate, span_context, inject_traceparent,
}

-- The carrier that `StartReconcileSpan` makes of two texts.
abbrev pub carrier_of : String → String → List (String × String)
carrier_of tp ts = ("traceparent", tp) ∷ (if ts == "" then [] else ("tracestate", ts) ∷ [])

module _ {C : Type 0} (p : Propagator C) where
  -- What `Inject` gives.
  abbrev pub parent_of : C → String
  parent_of c = text_at "traceparent" (p.inject c)

  abbrev pub state_of : C → String
  state_of c = text_at "tracestate" (p.inject c)

  -- The state that the annotations carry after it.
  abbrev pub state_after : C → List (String × String) → String
  state_after c m = if state_of c == "" then text_at key_tracestate m else state_of c

  span_context-some :
      (base : C) (m : List (String × String))
      → span_context p base (some m) ≡ (
          if text_at key_traceparent m == ""
          then base
          else p.extract base (carrier_of (text_at key_traceparent m) (text_at key_tracestate m)))
  unfolding span_context find
  span_context-some base [] = refl
  span_context-some base (kv ∷ kvs) = refl

  -- The annotations after `InjectTraceparent`.
  unfoldable pub annotated : C → List (String × String) → List (String × String)
  annotated c m =
      let written = insert key_traceparent (parent_of c) m in
      if state_of c == "" then written else insert key_tracestate (state_of c) written

  module _ (c : C) (m : List (String × String)) where
    find-annotated :
        (k : String)
        → find k (annotated c m) ≡ (
            if key_traceparent == k
            then some (parent_of c)
            else if key_tracestate == k
            then (if state_of c == "" then find k m else some (state_of c))
            else find k m)
    unfolding annotated
    find-annotated k = ground (
      arith,
      find-insert key_traceparent k (parent_of c) m,
      find-insert key_tracestate k (state_of c) (insert key_traceparent (parent_of c) m),
      string_eq.equals_iff key_traceparent k,
      string_eq.equals_iff key_tracestate k,
      string_eq.equals_iff key_traceparent key_tracestate,
    )

    parent-annotated : text_at key_traceparent (annotated c m) ≡ parent_of c
    parent-annotated =
        ap (λ (o : Option String). elim o [ none ↦ "" | some v ↦ v ])
          (find-annotated key_traceparent)

    state-annotated : text_at key_tracestate (annotated c m) ≡ state_after c m
    state-annotated =
        ap (λ (o : Option String). elim o [ none ↦ "" | some v ↦ v ])
          (find-annotated key_tracestate)
        ∙ ground arith

    inject_traceparent-some :
        (parent_of c == "") ≡ false → inject_traceparent p c (some m) ≡ some (some (annotated c m))
    unfolding inject_traceparent annotated
    inject_traceparent-some h = rw h refl

    -- Where the propagator gives a `traceparent`, the annotations carry it, and the context in which the
    -- next span starts is what `Extract` makes of it and of the `tracestate`; when the propagator gives
    -- no `tracestate`, that of the annotations before stays, and is joined to the new `traceparent`.
    carried_trace :
        (base : C)
        → (parent_of c == "") ≡ false
        → span_context p base (some (annotated c m))
          ≡ p.extract base (carrier_of (parent_of c) (state_after c m))
    carried_trace base h =
        span_context-some base (annotated c m) ∙ rw (parent-annotated, state-annotated, h) refl

  pub text_at-carrier_of :
      (tp ts : String)
      → (text_at "traceparent" (carrier_of tp ts) ≡ tp)
        × (text_at "tracestate" (carrier_of tp ts) ≡ ts)
  unfolding find
  text_at-carrier_of tp ts = (refl, ground (arith, string_eq.equals_iff ts ""))

  -- What the propagator documents: the fields that `Inject` gives make `Extract` give the span context
  -- again, as a remote one.
  abbrev pub Propagates : {S : Type 0} → (C → S) → Type 0
  Propagates span =
      (base c : C) (carrier : List (String × String))
      → (parent_of c == "") ≡ false
      → text_at "traceparent" carrier ≡ parent_of c
      → text_at "tracestate" carrier ≡ state_of c
      → span (p.extract base carrier) ≡ span c

  -- A trace that is active is continued by the next reconcile: `InjectTraceparent` writes it, changes
  -- no other annotation, and `StartReconcileSpan` on the annotations starts in the same span context,
  -- when the trace has a `tracestate` or the annotations had none.
  pub trace_continues :
      {S : Type 0} (span : C → S) (base c : C) (m : List (String × String)) (k : String)
      → Propagates span
      → (parent_of c == "") ≡ false
      → ((state_of c == "") ≡ false) ⊎ (text_at key_tracestate m ≡ "")
      → (inject_traceparent p c (some m) ≡ some (some (annotated c m)))
        × (span (span_context p base (some (annotated c m))) ≡ span c)
        × (find k (annotated c m) ≡ (
            if key_traceparent == k
            then some (parent_of c)
            else if key_tracestate == k
            then (if state_of c == "" then find k m else some (state_of c))
            else find k m))
  trace_continues span base c m k propagates active fresh =
      let kept : state_after c m ≡ state_of c =
        ground (arith, fresh, string_eq.equals_iff (state_of c) "") in
      let fields = text_at-carrier_of (parent_of c) (state_after c m) in
      (
        inject_traceparent-some c m active,
        ap span (carried_trace c m base active)
            ∙ propagates base c (carrier_of (parent_of c) (state_after c m)) active fields.0
                (fields.1 ∙ kept),
        find-annotated c m k,
      )
