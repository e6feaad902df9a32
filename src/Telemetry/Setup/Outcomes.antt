-- ===== src/Telemetry/Setup/Outcomes.antt =====
-- How the setups of the three signals end (pkg/telemetry/metrics.go, tracing.go and logs.go).
use unstructured_runtime.Prelude.{
  ℕ, ◌+◌, ◌≡◌, ◌<◌, Option, none, some, Bool, true, false, ◌&&◌, List, [], ◌∷◌, String,
  if◌then◌else◌, arith, All,
}
use unstructured_runtime.Prelude.Int.{pos_part}
use unstructured_runtime.Telemetry.Creation.{Result, ok, failed, Meter}
use unstructured_runtime.Telemetry.Setup.{
  Config, SetupCall, new_reader, new_provider, shut_down_provider, set_provider, Library,
  build_resource, setup, setup_tracing, setup_otlp_logs,
}

module _ {R : Type 0} where
  -- How often a call of a kind is made.
  unfoldable pub count : (SetupCall R → ℕ) → List (SetupCall R) → ℕ
  count f [] = 0
  count f (c ∷ cs) = f c + count f cs

  abbrev pub made : SetupCall R → ℕ
  made c = elim c [ new_provider r ↦ 1 | _ ↦ 0 ]

  abbrev pub shut : SetupCall R → ℕ
  shut c = elim c [ shut_down_provider ↦ 1 | _ ↦ 0 ]

  abbrev pub set : SetupCall R → ℕ
  set c = elim c [ set_provider ↦ 1 | _ ↦ 0 ]

  -- A provider that is made is either set or shut down again, and is set exactly if it says so.
  abbrev pub Settles : Bool → List (SetupCall R) → Type 0
  Settles installed cs =
      (count made cs ≡ count set cs + count shut cs) × (count set cs ≡ (if installed then 1 else 0))

  -- Every provider has the resource, and every reader an interval above 0.
  abbrev pub Configured : Result R → List (SetupCall R) → Type 0
  Configured res cs =
      All
        (λ c. elim c as (λ k. Type 0) [
          | new_provider r ↦ res ≡ ok r
          | new_reader d ↦ 0 < pos_part d
          | _ ↦ Unit
        ])
        cs

abbrev pub is_none {ℓ} : {A : Type ℓ} → Option A → Bool
is_none none = true
is_none (some a) = false

abbrev pub is_ok {ℓ} : {A : Type ℓ} → Result A → Bool
is_ok (ok a) = true
is_ok (failed e) = false

module _ {R : Type 0} (lib : Library R) (cfg : Config) where
  setup_ends :
      {H : Type 0} (meter : Meter H)
      → Settles (cfg.enabled && is_ok (setup lib meter cfg).0) (setup lib meter cfg).1
  unfolding setup count
  setup_ends meter = ground arith

  setup-Configured :
      {H : Type 0} (meter : Meter H) → Configured (build_resource lib cfg) (setup lib meter cfg).1
  unfolding setup
  setup-Configured meter = ground arith

  setup_tracing_ends :
      Settles (cfg.tracing_enabled && is_none (setup_tracing lib cfg).0) (setup_tracing lib cfg).1
  unfolding setup_tracing count
  setup_tracing_ends = ground arith

  setup_tracing-Configured : Configured (build_resource lib cfg) (setup_tracing lib cfg).1
  unfolding setup_tracing
  setup_tracing-Configured = ground arith

  setup_otlp_logs_ends :
      (enabled : Bool) (name : String)
      → Settles
          (enabled && is_none (setup_otlp_logs lib enabled name).0)
          (setup_otlp_logs lib enabled name).1
  unfolding setup_otlp_logs count
  setup_otlp_logs_ends enabled name = ground arith

  -- Whatever fails, a provider that was made for a signal is set globally, or shut down again; it is
  -- set exactly when the signal is enabled and its setup returns no error. The providers of metrics
  -- and of traces have the resource of `buildResource`, and metrics are read at an interval above 0.
  pub setups_settle :
      {H : Type 0} (meter : Meter H) (logs : Bool) (name : String)
      → Settles (cfg.enabled && is_ok (setup lib meter cfg).0) (setup lib meter cfg).1
        × Configured (build_resource lib cfg) (setup lib meter cfg).1
        × Settles
            (cfg.tracing_enabled && is_none (setup_tracing lib cfg).0)
            (setup_tracing lib cfg).1
        × Configured (build_resource lib cfg) (setup_tracing lib cfg).1
        × Settles
            (logs && is_none (setup_otlp_logs lib logs name).0)
            (setup_otlp_logs lib logs name).1
  setups_settle meter logs name = (
    setup_ends meter,
    setup-Configured meter,
    setup_tracing_ends,
    setup_tracing-Configured,
    setup_otlp_logs_ends logs name,
  )
