-- ===== src/Telemetry/Setup.antt =====
-- `Setup` and `buildResource` of pkg/telemetry/metrics.go, `SetupTracing` of
-- pkg/telemetry/tracing.go and `SetupOTLPLogs` of pkg/telemetry/logs.go. The exporters, providers and
-- resources of OpenTelemetry are interfaces: what is asked of them, and of its globals, is a list of
-- calls. The logger is left out.
pub mod Outcomes
pub mod Attributes
use unstructured_runtime.Prelude.{
  ℕ, zero, suc, ◌+◌, ◌≡◌, refl, Option, none, some, Bool, true, false, List, [], ◌∷◌, ◌++◌, String,
  if◌then◌else◌, ◌==◌, string_eq, ltb, arith,
}
use unstructured_runtime.Prelude.Int.{ℤ, pos, ltb_ℤ}
use unstructured_runtime.Errors.{Error}
use unstructured_runtime.Telemetry.Instruments.{Metrics, Instrument}
use unstructured_runtime.Telemetry.Creation.{Result, ok, failed, Meter, new_metrics}

pub record Config : Type 0 where
  pub enabled : Bool
  pub tracing_enabled : Bool
  pub service_name : String
  pub export_interval : ℤ
  pub deployment_name : String
  pub namespace : String
  pub version : String
  pub composition_id : String

abbrev pub default_service_name : String
default_service_name = "unstructured-runtime"

-- 30 seconds
abbrev pub default_export_interval : ℤ
default_export_interval = pos 30000000000

abbrev pub name_or : String → String → String
name_or d s = if s == "" then d else s

unfoldable pub unless_empty : String → String → List (String × String)
unless_empty k v = if v == "" then [] else (k, v) ∷ []

unfoldable pub deployment_attributes : String → List (String × String)
deployment_attributes d =
    if d == "" then [] else ("k8s.deployment.name", d) ∷ ("service.instance.id", d) ∷ []

-- The attributes that `buildResource` puts over those of the default resource.
unfoldable pub resource_attributes : Config → List (String × String)
unfolding unless_empty deployment_attributes
resource_attributes cfg =
    ("service.name", name_or default_service_name cfg.service_name)
      ∷ unless_empty "service.namespace" cfg.namespace
    ++ unless_empty "service.version" cfg.version
    ++ unless_empty "krateo.io/composition-id" cfg.composition_id
    ++ deployment_attributes cfg.deployment_name

-- What is asked of OpenTelemetry; a provider is made with the resource, and a reader with the interval.
pub data SetupCall (R : Type 0) : Type 0 where
  new_exporter : SetupCall R
  new_reader : ℤ → SetupCall R
  new_provider : R → SetupCall R
  shut_down_provider : SetupCall R
  set_provider : SetupCall R
  set_propagator : SetupCall R

-- The libraries: whether the exporter can be made, `resource.Default`, and `resource.Merge` of it with
-- attributes without a schema.
pub record Library (R : Type 0) : Type 0 where
  pub exporter_error : Option Error
  pub default_resource : R
  pub merge_default : List (String × String) → Result R

module _ {R : Type 0} (lib : Library R) where
  unfoldable pub build_resource : Config → Result R
  unfolding resource_attributes
  build_resource cfg = lib.merge_default (resource_attributes cfg)

  abbrev pub interval_of : Config → ℤ
  interval_of cfg =
      if ltb_ℤ (pos 0) cfg.export_interval then cfg.export_interval else default_export_interval

  -- `Setup`: the handle, which is nil when the metrics are disabled, with its instruments.
  unfoldable pub setup :
      {H : Type 0}
      → Meter H
      → Config
      → Result (Option (Metrics × List (Instrument × H))) × List (SetupCall R)
  unfolding build_resource new_metrics
  setup meter cfg =
      if cfg.enabled
      then elim lib.exporter_error [
        | some e ↦ (failed e, [])
        | none ↦ elim (build_resource cfg) [
          | failed e ↦ (failed e, new_exporter ∷ [])
          | ok r ↦ elim (new_metrics meter cfg.deployment_name) [
            | failed e ↦ (
              failed e,
              new_exporter
                  ∷ new_reader (interval_of cfg)
                  ∷ new_provider r
                  ∷ shut_down_provider
                  ∷ [],
            )
            | ok m ↦ (
              ok (some m),
              new_exporter ∷ new_reader (interval_of cfg) ∷ new_provider r ∷ set_provider ∷ [],
            )
          ]
        ]
      ]
      else (ok none, [])

  -- `SetupTracing`, up to the function that it returns to shut down.
  unfoldable pub setup_tracing : Config → Option Error × List (SetupCall R)
  unfolding build_resource
  setup_tracing cfg =
      if cfg.tracing_enabled
      then elim lib.exporter_error [
        | some e ↦ (some e, set_propagator ∷ [])
        | none ↦ elim (build_resource cfg) [
          | failed e ↦ (some e, set_propagator ∷ new_exporter ∷ [])
          | ok r ↦ (none, set_propagator ∷ new_exporter ∷ new_provider r ∷ set_provider ∷ [])
        ]
      ]
      else (none, set_propagator ∷ [])

  -- `SetupOTLPLogs`, up to the function that it returns to shut down.
  unfoldable pub setup_otlp_logs : Bool → String → Option Error × List (SetupCall R)
  setup_otlp_logs enabled service_name =
      if enabled
      then elim lib.exporter_error [
        | some e ↦ (some e, [])
        | none ↦
            let r : R = elim (lib.merge_default (("service.name", service_name) ∷ [])) [
              | failed e ↦ lib.default_resource
              | ok r ↦ r
            ] in
            (none, new_exporter ∷ new_provider r ∷ set_provider ∷ [])
      ]
      else (none, [])
