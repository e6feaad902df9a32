-- ===== src/Builder.antt =====
-- `Build` and the options of pkg/controller/builder, with the validation in `New` of
-- pkg/controller/controller.go. A value of an interface or of a struct of another package is an `H`,
-- and nil is `none`. The constructors of other packages succeed or fail; logging with a nil logger
-- panics.
pub mod Outcomes
pub mod Annotations
use unstructured_runtime.Prelude.{
  ℕ, Option, none, some, Bool, true, false, not, ◌&&◌, ◌||◌, List, [], ◌∷◌, String, ◌==◌, string_eq,
  if◌then◌else◌,
}
use unstructured_runtime.Prelude.Int.{ℤ, pos, ltb_ℤ}
use unstructured_runtime.Meta.{key_reconciliation_paused, key_external_create_pending}
use unstructured_runtime.Event.{EventType, observe, create}
use unstructured_runtime.Event.Actions.{ActionsEvent, new_default_actions_event, mutate_event}
use unstructured_runtime.Event.Annotations.{AnnotationEvent, on_any, on_delete, add}

pub record BuildOptions (H : Type 0) : Type 0 where
  pub pluralizer : Option H
  pub namespace : String
  pub resync_interval : ℤ
  pub logger : Option H
  pub label_selector : Option String
  pub field_selector : Option String
  pub global_rate_limiter : Option H
  pub metrics_recorder : Option H
  pub metrics : H
  pub max_retries : ℤ
  pub watch_annotations : List AnnotationEvent
  pub actions_event : ActionsEvent
  pub graceful_shutdown_timeout : Option ℤ

-- The values that the defaults take from other packages.
pub record Defaults (H : Type 0) : Type 0 where
  pub nop_logger : H
  pub pluralizer : H
  pub limiter : H
  pub no_metrics : H

-- The functions `With…`.
pub data FuncOption (H : Type 0) : Type 0 where
  with_pluralizer : Option H → FuncOption H
  with_namespace : String → FuncOption H
  with_graceful_shutdown_timeout : ℤ → FuncOption H
  with_resync_interval : ℤ → FuncOption H
  with_logger : Option H → FuncOption H
  with_list_watcher : Option String → Option String → FuncOption H
  with_global_rate_limiter : Option H → FuncOption H
  with_telemetry_metrics : Option H → FuncOption H
  with_metrics : H → FuncOption H
  with_max_retries : ℤ → FuncOption H
  with_watch_annotations : List AnnotationEvent → FuncOption H
  with_action_event : String → EventType → FuncOption H

abbrev pub default_annotations : List AnnotationEvent
default_annotations =
    add create key_external_create_pending on_delete false
      (add observe key_reconciliation_paused on_any false [])

unfoldable pub add_all : List AnnotationEvent → List AnnotationEvent → List AnnotationEvent
add_all [] es = es
add_all (a ∷ anns) es = add_all anns (add a.event_type a.annotation a.on_action true es)

module _ {H : Type 0} where
  unfoldable pub default_options : Defaults H → BuildOptions H
  default_options d = record {
    pluralizer = some d.pluralizer;
    namespace = "";
    resync_interval = pos 180000000000;
    logger = some d.nop_logger;
    label_selector = none;
    field_selector = none;
    global_rate_limiter = some d.limiter;
    metrics_recorder = none;
    metrics = d.no_metrics;
    max_retries = pos 5;
    watch_annotations = default_annotations;
    actions_event = new_default_actions_event;
    graceful_shutdown_timeout = none;
  }

  unfoldable pub apply_option : FuncOption H → BuildOptions H → BuildOptions H
  unfolding add_all
  apply_option (with_pluralizer p) o = record o { pluralizer = p }
  apply_option (with_namespace n) o = record o { namespace = n }
  apply_option (with_graceful_shutdown_timeout d) o = record o {
    graceful_shutdown_timeout = some d;
  }
  apply_option (with_resync_interval d) o = record o { resync_interval = d }
  apply_option (with_logger l) o = record o { logger = l }
  apply_option (with_list_watcher l f) o = record o { label_selector = l; field_selector = f }
  apply_option (with_global_rate_limiter r) o = record o { global_rate_limiter = r }
  apply_option (with_telemetry_metrics m) o = record o { metrics_recorder = m }
  apply_option (with_metrics m) o = record o { metrics = m }
  apply_option (with_max_retries r) o = record o { max_retries = r }
  apply_option (with_watch_annotations anns) o = record o {
    watch_annotations = add_all anns o.watch_annotations;
  }
  apply_option (with_action_event a t) o = record o {
    actions_event = mutate_event a t o.actions_event;
  }

  unfoldable pub apply_all : List (FuncOption H) → BuildOptions H → BuildOptions H
  unfolding apply_option
  apply_all [] o = o
  apply_all (f ∷ fs) o = apply_all fs (apply_option f o)

pub record Configuration : Type 0 where
  pub has_config : Bool
  pub group : String
  pub version : String
  pub resource : String
  pub provider_name : String

pub data ConfigurationError : Type 0 where
  no_config no_gvr no_provider_name : ConfigurationError

unfoldable pub validate_configuration : Configuration → Option ConfigurationError
validate_configuration c =
    if not c.has_config
    then some no_config
    else if c.group == "" || (c.version == "" || c.resource == "")
    then some no_gvr
    else if c.provider_name == ""
    then some no_provider_name
    else none

-- What `New` validates.
pub record Options : Type 0 where
  pub has_client : Bool
  pub is_gvr_empty : Bool
  pub has_recorder : Bool
  pub has_logger : Bool
  pub has_pluralizer : Bool
  pub has_rate_limiter : Bool
  pub resync_interval : ℤ
  pub max_retries : ℤ

pub data OptionsError : Type 0 where
  client_required gvr_required recorder_required logger_required pluralizer_required : OptionsError
  rate_limiter_required bad_resync_interval bad_max_retries : OptionsError

unfoldable pub validate : Options → Option OptionsError
validate o =
    if not o.has_client
    then some client_required
    else if o.is_gvr_empty
    then some gvr_required
    else if not o.has_recorder
    then some recorder_required
    else if not o.has_logger
    then some logger_required
    else if not o.has_pluralizer
    then some pluralizer_required
    else if not o.has_rate_limiter
    then some rate_limiter_required
    else if not (ltb_ℤ (pos 0) o.resync_interval)
    then some bad_resync_interval
    else if ltb_ℤ o.max_retries (pos 0)
    then some bad_max_retries
    else none

pub data BuildResult : Type 0 where
  panicked : BuildResult
  bad_configuration : ConfigurationError → BuildResult
  not_constructed : BuildResult
  refused : OptionsError → BuildResult
  built : BuildResult

-- `New`: an error is logged and returned.
unfoldable pub new_controller : Options → BuildResult
unfolding validate
new_controller o = elim (validate o) [
  | none ↦ built
  | some e ↦ if o.has_logger then refused e else panicked
]

abbrev pub is_set : {H : Type 0} → Option H → Bool
is_set none = false
is_set (some h) = true

module _ {H : Type 0} where
  abbrev pub controller_options : Configuration → BuildOptions H → Options
  controller_options c o = record {
    has_client = true;
    is_gvr_empty = c.group == "" && (c.version == "" && c.resource == "");
    has_recorder = true;
    has_logger = is_set o.logger;
    has_pluralizer = is_set o.pluralizer;
    has_rate_limiter = is_set o.global_rate_limiter;
    resync_interval = o.resync_interval;
    max_retries = o.max_retries;
  }

  -- `constructed` is whether the constructors of the short id, the recorders, the metrics server and
  -- the client all succeed; the first that fails is logged.
  unfoldable pub build_with : Bool → Configuration → BuildOptions H → BuildResult
  unfolding new_controller
  build_with constructed c o =
      if constructed
      then new_controller (controller_options c o)
      else if is_set o.logger
      then not_constructed
      else panicked

  unfoldable pub build : Defaults H → Bool → Configuration → List (FuncOption H) → BuildResult
  unfolding validate_configuration build_with apply_all default_options
  build d constructed c fs = elim (validate_configuration c) [
    | some e ↦ bad_configuration e
    | none ↦ build_with constructed c (apply_all fs (default_options d))
  ]
