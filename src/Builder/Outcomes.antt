-- ===== src/Builder/Outcomes.antt =====
-- How `Build` of pkg/controller/builder/builder.go ends.
use unstructured_runtime.Prelude.{
  ◌≡◌, ◌↔◌, refl, ap, ◌∙◌, none, Bool, true, false, not, List, [], ◌∷◌, ◌==◌, string_eq, arith, All,
}
use unstructured_runtime.Prelude.Int.{pos, ltb_ℤ}
use unstructured_runtime.Builder.{
  BuildOptions, Defaults, FuncOption, with_pluralizer, with_namespace,
  with_graceful_shutdown_timeout, with_resync_interval, with_logger, with_list_watcher,
  with_global_rate_limiter, with_telemetry_metrics, with_metrics, with_max_retries,
  with_watch_annotations, with_action_event, default_options, apply_option, apply_all,
  Configuration, validate_configuration, validate, panicked, built, new_controller, is_set,
  build_with, build,
}

group_given : (c : Configuration) → validate_configuration c ≡ none → (c.group == "") ≡ false
unfolding validate_configuration
group_given c valid = ground (arith, valid)

module _ {H : Type 0} where
  -- An option that sets no nil value, no interval of zero or less and no negative retries.
  unfoldable pub is_sound : FuncOption H → Bool
  is_sound (with_pluralizer p) = is_set p
  is_sound (with_namespace n) = true
  is_sound (with_graceful_shutdown_timeout d) = true
  is_sound (with_resync_interval d) = ltb_ℤ (pos 0) d
  is_sound (with_logger l) = is_set l
  is_sound (with_list_watcher l f) = true
  is_sound (with_global_rate_limiter r) = is_set r
  is_sound (with_telemetry_metrics m) = true
  is_sound (with_metrics m) = true
  is_sound (with_max_retries r) = not (ltb_ℤ r (pos 0))
  is_sound (with_watch_annotations anns) = true
  is_sound (with_action_event a t) = true

  unfoldable IsSound : BuildOptions H → Type 0
  IsSound o =
      (is_set o.logger ≡ true)
      × (is_set o.pluralizer ≡ true)
      × (is_set o.global_rate_limiter ≡ true)
      × (ltb_ℤ (pos 0) o.resync_interval ≡ true)
      × (ltb_ℤ o.max_retries (pos 0) ≡ false)

  default-IsSound : (d : Defaults H) → IsSound (default_options d)
  unfolding default_options IsSound
  default-IsSound d = (refl, refl, refl, refl, refl)

  apply-IsSound :
      (f : FuncOption H) (o : BuildOptions H)
      → is_sound f ≡ true
      → IsSound o
      → IsSound (apply_option f o)
  unfolding is_sound apply_option IsSound
  apply-IsSound (with_pluralizer p) o h (l, _, g, i, r) = (l, h, g, i, r)
  apply-IsSound (with_resync_interval d) o h (l, p, g, _, r) = (l, p, g, h, r)
  apply-IsSound (with_logger l) o h (_, p, g, i, r) = (h, p, g, i, r)
  apply-IsSound (with_global_rate_limiter g) o h (l, p, _, i, r) = (l, p, h, i, r)
  apply-IsSound (with_max_retries r) o h (l, p, g, i, _) = (l, p, g, i, ground (arith, h))
  apply-IsSound (with_namespace n) o h s = s
  apply-IsSound (with_graceful_shutdown_timeout d) o h s = s
  apply-IsSound (with_list_watcher l f) o h s = s
  apply-IsSound (with_telemetry_metrics m) o h s = s
  apply-IsSound (with_metrics m) o h s = s
  apply-IsSound (with_watch_annotations anns) o h s = s
  apply-IsSound (with_action_event a t) o h s = s

  all-IsSound :
      (fs : List (FuncOption H)) (o : BuildOptions H)
      → All (λ f. is_sound f ≡ true) fs
      → IsSound o
      → IsSound (apply_all fs o)
  unfolding apply_all
  all-IsSound [] o h s = s
  all-IsSound (f ∷ fs) o (h, rest) s =
      all-IsSound fs (apply_option f o) rest (apply-IsSound f o h s)

  module _ (c : Configuration) (valid : validate_configuration c ≡ none) where
    built_with : (o : BuildOptions H) → IsSound o → build_with true c o ≡ built
    unfolding build_with new_controller validate IsSound
    built_with o (l, p, g, i, r) = ground (arith, l, p, g, i, r, group_given c valid)

    panicked_with :
        (constructed : Bool) (o : BuildOptions H)
        → (build_with constructed c o ≡ panicked) ↔ (is_set o.logger ≡ false)
    unfolding build_with new_controller validate
    panicked_with constructed o = ground (arith, group_given c valid)

    build_valid :
        (d : Defaults H) (constructed : Bool) (fs : List (FuncOption H))
        → build d constructed c fs ≡ build_with constructed c (apply_all fs (default_options d))
    unfolding build
    build_valid d constructed fs = rw (valid, build) refl

  -- Under a valid configuration, `Build` panics exactly when the logger that the options leave is nil:
  -- no error is returned then, not even that the logger is missing. When the constructors succeed and
  -- no option sets a nil value, an interval of zero or less or negative retries, it builds.
  pub build_outcomes :
      (d : Defaults H) (constructed : Bool) (c : Configuration) (fs : List (FuncOption H))
      → validate_configuration c ≡ none
      → ((build d constructed c fs ≡ panicked)
          ↔ (is_set (apply_all fs (default_options d)).logger ≡ false))
        × (constructed ≡ true → All (λ f. is_sound f ≡ true) fs → build d constructed c fs ≡ built)
  build_outcomes d constructed c fs valid = (
    rw (build_valid c valid d constructed fs)
        (panicked_with c valid constructed (apply_all fs (default_options d))),
    λ ok sound.
        build_valid c valid d constructed fs
        ∙ ap (λ b. build_with b c (apply_all fs (default_options d))) ok
        ∙ built_with c valid (apply_all fs (default_options d))
            (all-IsSound fs (default_options d) sound (default-IsSound d)),
  )
