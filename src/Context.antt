-- ===== src/Context.antt =====
-- pkg/context/context.go: the logger and the trace id that a context carries. A context is a chain of
-- the values that were put into it, the latest first, with the trace id of the live span, if there is
-- one, in hexadecimal. A logger is an `L`, and nil is `none`.
pub mod Worker
use unstructured_runtime.Prelude.{
  ◌≡◌, refl, Option, none, some, Bool, true, false, List, [], ◌∷◌, String, if◌then◌else◌,
}

pub data Entry (L : Type 0) : Type 0 where
  logger_value : L → Entry L
  trace_id_value : String → Entry L

pub record Context (L : Type 0) : Type 0 where
  pub span_trace_id : Option String
  pub entries : List (Entry L)

module _ {L : Type 0} where
  -- `ctx.Value` at the two keys.
  unfoldable pub logger_in : List (Entry L) → Option L
  logger_in [] = none
  logger_in (logger_value l ∷ es) = some l
  logger_in (trace_id_value t ∷ es) = logger_in es

  unfoldable pub trace_id_in : List (Entry L) → Option String
  trace_id_in [] = none
  trace_id_in (logger_value l ∷ es) = trace_id_in es
  trace_id_in (trace_id_value t ∷ es) = some t

  abbrev pub with_value : Entry L → Context L → Context L
  with_value e ctx = record ctx { entries = e ∷ ctx.entries }

  -- `Logger`, where `fallback` is the logger that it makes at the level of information.
  unfoldable pub logger : L → Context L → L
  unfolding logger_in
  logger fallback ctx = elim (logger_in ctx.entries) [ none ↦ fallback | some l ↦ l ]

  -- `WithLogger`, where `make` gives a new logger, for debugging or not.
  unfoldable pub with_logger : (Bool → L) → Bool → Option L → Context L → Context L
  with_logger make debug root ctx =
      with_value (logger_value (elim root [ none ↦ make debug | some l ↦ l ])) ctx

  unfoldable pub with_trace_id : String → Context L → Context L
  with_trace_id t ctx = with_value (trace_id_value t) ctx

  -- `TraceId`, where `fresh` is what `shortid` generates.
  unfoldable pub trace_id : String → Bool → Context L → String
  unfolding trace_id_in
  trace_id fresh generate ctx = elim ctx.span_trace_id [
    | some t ↦ t
    | none ↦ elim (trace_id_in ctx.entries) [ some t ↦ t | none ↦ if generate then fresh else "" ]
  ]

  -- `BuildContext`; a nil function is `none`.
  unfoldable pub build_context : List (Option (Context L → Context L)) → Context L → Context L
  build_context [] ctx = ctx
  build_context (none ∷ fs) ctx = build_context fs ctx
  build_context (some f ∷ fs) ctx = build_context fs (f ctx)
