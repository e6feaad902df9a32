-- ===== src/Tests/Building.antt =====
-- Examples of the options and of `Build`.
use unstructured_runtime.Prelude.{ℕ, ◌≡◌, ◌↔◌, refl, none, true, false, List, [], ◌∷◌, All}
use unstructured_runtime.Prelude.Int.{pos}
use unstructured_runtime.Event.Annotations.{AnnotationEvent, on_any, events_of}
use unstructured_runtime.Builder.{
  Defaults, FuncOption, with_max_retries, with_watch_annotations, with_namespace,
  default_annotations, default_options, apply_all, Configuration, validate_configuration, panicked,
  built, is_set, build,
}
use unstructured_runtime.Builder.Outcomes.{is_sound, build_outcomes}
use unstructured_runtime.Builder.Annotations.{last_or, given, apply_all-watched}

abbrev defaults : Defaults ℕ
defaults = record { nop_logger = 1; pluralizer = 2; limiter = 3; no_metrics = 4 }

abbrev configuration : Configuration
configuration = record {
  has_config = true;
  group = "apps";
  version = "v1";
  resource = "charts";
  provider_name = "charts-provider";
}

abbrev paused : AnnotationEvent
paused = record { event_type = "Update"; annotation = "krateo.io/paused"; on_action = on_any }

abbrev chosen : List (FuncOption ℕ)
chosen =
    with_namespace "demo" ∷ with_watch_annotations (paused ∷ []) ∷ with_max_retries (pos 3) ∷ []

valid : validate_configuration configuration ≡ none
unfolding validate_configuration
valid = refl

build_outcomes_example :
    ((build defaults true configuration chosen ≡ panicked)
      ↔ (is_set (apply_all chosen (default_options defaults)).logger ≡ false))
    × (true ≡ true
        → All (λ f. is_sound f ≡ true) chosen
        → build defaults true configuration chosen ≡ built)
build_outcomes_example = build_outcomes defaults true configuration chosen valid

apply_all-watched_example :
    events_of "krateo.io/paused" (apply_all chosen (default_options defaults)).watch_annotations
    ≡ last_or "krateo.io/paused" (given chosen) (events_of "krateo.io/paused" default_annotations)
apply_all-watched_example = apply_all-watched defaults chosen "krateo.io/paused"
