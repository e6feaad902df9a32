-- ===== src/Builder/Annotations.antt =====
-- The watched annotations that the options of pkg/controller/builder/options.go leave.
use unstructured_runtime.Prelude.{
  ◌≡◌, refl, sym, ap, ◌∙◌, true, List, [], ◌∷◌, ◌++◌, String, ◌==◌, string_eq, if◌then◌else◌,
}
use unstructured_runtime.Event.Annotations.{AnnotationEvent, add, events_of, events_of-add}
use unstructured_runtime.Builder.{
  BuildOptions, Defaults, FuncOption, with_pluralizer, with_namespace,
  with_graceful_shutdown_timeout, with_resync_interval, with_logger, with_list_watcher,
  with_global_rate_limiter, with_telemetry_metrics, with_metrics, with_max_retries,
  with_watch_annotations, with_action_event, default_annotations, default_options, apply_option,
  apply_all, add_all,
}

-- The last entry for an annotation, or else the events before.
unfoldable pub last_or : String → List AnnotationEvent → List AnnotationEvent → List AnnotationEvent
last_or b [] es = es
last_or b (a ∷ anns) es = last_or b anns (if a.annotation == b then a ∷ [] else es)

-- All entries that the options give, in order.
unfoldable pub given : {H : Type 0} → List (FuncOption H) → List AnnotationEvent
given [] = []
given (with_watch_annotations anns ∷ fs) = anns ++ given fs
given (with_pluralizer p ∷ fs) = given fs
given (with_namespace n ∷ fs) = given fs
given (with_graceful_shutdown_timeout d ∷ fs) = given fs
given (with_resync_interval d ∷ fs) = given fs
given (with_logger l ∷ fs) = given fs
given (with_list_watcher l f ∷ fs) = given fs
given (with_global_rate_limiter r ∷ fs) = given fs
given (with_telemetry_metrics m ∷ fs) = given fs
given (with_metrics m ∷ fs) = given fs
given (with_max_retries r ∷ fs) = given fs
given (with_action_event a t ∷ fs) = given fs

last_or-append :
    (b : String) (xs ys es : List AnnotationEvent)
    → last_or b (xs ++ ys) es ≡ last_or b ys (last_or b xs es)
unfolding last_or
last_or-append b [] ys es = refl
last_or-append b (x ∷ xs) ys es = last_or-append b xs ys (if x.annotation == b then x ∷ [] else es)

events_of-add_all :
    (b : String) (anns es : List AnnotationEvent)
    → events_of b (add_all anns es) ≡ last_or b anns (events_of b es)
unfolding add_all last_or
events_of-add_all b [] es = refl
events_of-add_all b (a ∷ anns) es =
    events_of-add_all b anns (add a.event_type a.annotation a.on_action true es)
    ∙ ap (last_or b anns) (events_of-add a.event_type a.annotation a.on_action true b es)

module _ {H : Type 0} where
  watched_from :
      (b : String) (fs : List (FuncOption H)) (o : BuildOptions H)
      → events_of b (apply_all fs o).watch_annotations
        ≡ last_or b (given fs) (events_of b o.watch_annotations)
  unfolding apply_all apply_option last_or given
  watched_from b [] o = refl
  watched_from b (with_watch_annotations anns ∷ fs) o =
      watched_from b fs (apply_option (with_watch_annotations anns) o)
      ∙ ap (last_or b (given fs)) (events_of-add_all b anns o.watch_annotations)
      ∙ sym (last_or-append b anns (given fs) (events_of b o.watch_annotations))
  watched_from b (with_pluralizer p ∷ fs) o = watched_from b fs (apply_option (with_pluralizer p) o)
  watched_from b (with_namespace n ∷ fs) o = watched_from b fs (apply_option (with_namespace n) o)
  watched_from b (with_graceful_shutdown_timeout d ∷ fs) o =
      watched_from b fs (apply_option (with_graceful_shutdown_timeout d) o)
  watched_from b (with_resync_interval d ∷ fs) o =
      watched_from b fs (apply_option (with_resync_interval d) o)
  watched_from b (with_logger l ∷ fs) o = watched_from b fs (apply_option (with_logger l) o)
  watched_from b (with_list_watcher l f ∷ fs) o =
      watched_from b fs (apply_option (with_list_watcher l f) o)
  watched_from b (with_global_rate_limiter r ∷ fs) o =
      watched_from b fs (apply_option (with_global_rate_limiter r) o)
  watched_from b (with_telemetry_metrics m ∷ fs) o =
      watched_from b fs (apply_option (with_telemetry_metrics m) o)
  watched_from b (with_metrics m ∷ fs) o = watched_from b fs (apply_option (with_metrics m) o)
  watched_from b (with_max_retries r ∷ fs) o =
      watched_from b fs (apply_option (with_max_retries r) o)
  watched_from b (with_action_event a t ∷ fs) o =
      watched_from b fs (apply_option (with_action_event a t) o)

  -- Whatever the options and their order, the events of an annotation are the last entry that was
  -- given for it, alone, and where none was given those of the defaults.
  pub apply_all-watched :
      (d : Defaults H) (fs : List (FuncOption H)) (b : String)
      → events_of b (apply_all fs (default_options d)).watch_annotations
        ≡ last_or b (given fs) (events_of b default_annotations)
  unfolding default_options
  apply_all-watched d fs b = watched_from b fs (default_options d)
