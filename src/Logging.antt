-- ===== src/Logging.antt =====
-- pkg/logging: the handlers of jsonhandler.go and otelbridge.go, and the loggers of logging.go over
-- those of slog and of logr. The handlers and loggers of other packages are interfaces; a value is a
-- `V`, and the writing of lines is left out.
pub mod Tee
use unstructured_runtime.Prelude.{
  ℕ, Option, none, some, Bool, true, false, ◌||◌, List, [], ◌∷◌, ◌++◌, String, if◌then◌else◌, map,
}
use unstructured_runtime.Prelude.Int.{ℤ, pos, negsuc, ltb_ℤ}
use unstructured_runtime.Errors.{Error}

-- The levels of `log/slog`.
abbrev pub level_debug : ℤ
level_debug = negsuc 3

abbrev pub level_info : ℤ
level_info = pos 0

abbrev pub level_warn : ℤ
level_warn = pos 4

abbrev pub level_error : ℤ
level_error = pos 8

unfoldable pub otel_severity_number : ℤ → ℕ
otel_severity_number l =
    if ltb_ℤ l level_debug
    then 1
    else if ltb_ℤ l level_info
    then 5
    else if ltb_ℤ l level_warn
    then 9
    else if ltb_ℤ l level_error
    then 13
    else 17

pub data Value (V : Type 0) : Type 0 where
  number : ℕ → Value V
  text_value : String → Value V
  other : V → Value V

-- `slog.Record`, as far as it is read.
pub record Record (V : Type 0) : Type 0 where
  pub level : ℤ
  pub msg : String
  pub attrs : List (String × Value V)

-- The valid span context of a context: the trace and span ids.
pub record Span : Type 0 where
  pub trace : String
  pub span : String

-- The interface `slog.Handler`, on handlers `H`.
pub record Handler (H V : Type 0) : Type 0 where
  pub enabled : H → ℤ → Bool
  pub handle : H → Record V → Option Error
  pub with_attrs : List (String × Value V) → H → H
  pub with_group : String → H → H

module _ {V : Type 0} where
  abbrev pub add_attrs : List (String × Value V) → Record V → Record V
  add_attrs kvs r = record r { attrs = r.attrs ++ kvs }

  -- The record that `otelHandler.Handle` passes on.
  unfoldable pub otel_record : Option Span → Record V → Record V
  unfolding otel_severity_number
  otel_record sc r =
      let numbered = add_attrs (("SeverityNumber", number (otel_severity_number r.level)) ∷ []) r in
      elim sc [
        | none ↦ numbered
        | some s ↦
            add_attrs (("trace_id", text_value s.trace) ∷ ("span_id", text_value s.span) ∷ [])
              numbered
      ]

  unfoldable pub service_name_attr : String → List (String × Value V)
  service_name_attr name = ("service.name", text_value name) ∷ ("service", text_value name) ∷ []

module _ {H V : Type 0} (i : Handler H V) where
  -- `otelHandler` over a handler, as a handler of the same interface.
  unfoldable pub otel_handler : Option Span → Handler H V
  unfolding otel_record
  otel_handler sc = record {
    enabled = i.enabled;
    handle = λ h r. i.handle h (otel_record sc r);
    with_attrs = i.with_attrs;
    with_group = i.with_group;
  }

  -- `teeHandler`, on its list of handlers.
  unfoldable pub tee_enabled : List H → ℤ → Bool
  tee_enabled [] l = false
  tee_enabled (h ∷ hs) l = let rest = tee_enabled hs l in if i.enabled h l then true else rest

  -- The handlers that get the record, and the first error.
  unfoldable pub tee_handle : List H → Record V → Option Error → List H × Option Error
  tee_handle [] r first = ([], first)
  tee_handle (h ∷ hs) r first =
      let on = i.enabled h r.level in
      let err : Option Error = elim first [ some e ↦ some e | none ↦ i.handle h r ] in
      let (got, last) = tee_handle hs r (if on then err else first) in
      (if on then h ∷ got else got, last)

  unfoldable pub tee_with_attrs : List (String × Value V) → List H → List H
  tee_with_attrs kvs [] = []
  tee_with_attrs kvs (h ∷ hs) = i.with_attrs kvs h ∷ tee_with_attrs kvs hs

  unfoldable pub tee_with_group : String → List H → List H
  tee_with_group name [] = []
  tee_with_group name (h ∷ hs) = i.with_group name h ∷ tee_with_group name hs

-- The methods that log of `Logger`, with keys and values in one list.
pub data LogCall (A : Type 0) : Type 0 where
  info : String → List A → LogCall A
  debug : String → List A → LogCall A
  error : A → String → List A → LogCall A
  warn : String → List A → LogCall A

-- The calls of a `logr.Logger`: `V(n).Info` and `Error`.
pub data LogrCall (A : Type 0) : Type 0 where
  info_at : ℕ → String → List A → LogrCall A
  logr_error : A → String → List A → LogrCall A

module _ {A : Type 0} where
  unfoldable pub logr_call : LogCall A → LogrCall A
  logr_call (info msg kvs) = info_at 0 msg kvs
  logr_call (debug msg kvs) = info_at 1 msg kvs
  logr_call (error err msg kvs) = logr_error err msg kvs
  logr_call (warn msg kvs) = info_at 0 msg kvs

  -- The level, the message and the attributes that `slog` gets; `err_attr` is `slog.Any("err", err)`.
  unfoldable pub slog_call : (A → A) → LogCall A → ℤ × String × List A
  slog_call err_attr (info msg kvs) = (level_info, msg, kvs)
  slog_call err_attr (debug msg kvs) = (level_debug, msg, kvs)
  slog_call err_attr (error err msg kvs) = (level_error, msg, kvs ++ err_attr err ∷ [])
  slog_call err_attr (warn msg kvs) = (level_warn, msg, kvs)
