-- ===== src/Telemetry/Creation/Laws.antt =====
-- How `newMetrics` (pkg/telemetry/metrics.go) ends.
use unstructured_runtime.Prelude.{
  ◌≡◌, refl, ◌⊎◌, inl, inr, Option, none, some, List, [], ◌∷◌, String,
}
use unstructured_runtime.Prelude.Int.{pos}
use unstructured_runtime.Errors.{Error}
use unstructured_runtime.Telemetry.Instruments.{Metrics, Instrument}
use unstructured_runtime.Telemetry.Creation.{
  Kind, Result, ok, failed, Meter, fields, create_all, new_metrics,
}

-- Each instrument is what the meter made for the field.
unfoldable pub Created :
    {H : Type 0} → Meter H → List (Instrument × Kind × String) → List (Instrument × H) → Type 0
Created meter [] [] = Unit
Created meter ((i, kind, name) ∷ fs) ((j, h) ∷ hs) =
    (j ≡ i) × (meter.create kind name ≡ ok h) × Created meter fs hs
Created meter [] (_ ∷ _) = ⊥
Created meter (_ ∷ _) [] = ⊥

-- The first field that fails does so with the error.
unfoldable pub Fails : {H : Type 0} → Meter H → List (Instrument × Kind × String) → Error → Type 0
Fails meter [] e = ⊥
Fails {H} meter ((i, kind, name) ∷ fs) e =
    (meter.create kind name ≡ failed e)
    ⊎ (((h : H) × (meter.create kind name ≡ ok h)) × Fails meter fs e)

abbrev pub CreatedOr :
    {H : Type 0}
    → Meter H
    → List (Instrument × Kind × String)
    → Result (List (Instrument × H))
    → Type 0
CreatedOr meter fs (ok hs) = Created meter fs hs
CreatedOr meter fs (failed e) = Fails meter fs e

Result-cases : {A : Type 0} (o : Result A) → ((a : A) × (o ≡ ok a)) ⊎ ((e : Error) × (o ≡ failed e))
Result-cases (ok a) = inl (a, refl)
Result-cases (failed e) = inr (e, refl)

module _ {H : Type 0} (meter : Meter H) where
  create_all_lem :
      (fs : List (Instrument × Kind × String)) → CreatedOr meter fs (create_all meter fs)
  unfolding create_all Created Fails
  create_all_lem [] = tt
  create_all_lem ((i, kind, name) ∷ fs) = elim (Result-cases (meter.create kind name)) [
    | inr (e, bad) ↦ rw (bad, create_all) (inl bad)
    | inl (h, good) ↦ later h good (create_all meter fs) (create_all_lem fs)
  ]
    where
      later :
          (h : H)
          → meter.create kind name ≡ ok h
          → (o : Result (List (Instrument × H))) → CreatedOr meter fs o
          → CreatedOr meter ((i, kind, name) ∷ fs) (elim (meter.create kind name) [
            | failed e ↦ failed e
            | ok h' ↦ elim o [ failed e ↦ failed e | ok hs ↦ ok ((i, h') ∷ hs) ]
          ])
      later h good (ok hs) c = rw good (refl, good, c)
      later h good (failed e) c = rw good (inr ((h, good), c))

  abbrev pub IsOutcome : String → Result (Metrics × List (Instrument × H)) → Type 0
  IsOutcome d (ok (m, hs)) =
      Created meter fields hs
      × (meter.register_callback ≡ none)
      × (m ≡ record { deployment_name = d; reconcile_in_flight_count = pos 0 })
  IsOutcome d (failed e) =
      Fails meter fields e
      ⊎ (((hs : List (Instrument × H)) × Created meter fields hs)
          × (meter.register_callback ≡ some e))

  -- Either the handle is new, with the name, nothing in flight and the callback registered, and each
  -- field holds what the meter made under the name of the field; or the error is that of the first
  -- field that could not be made, or of the callback where all could.
  pub new_metrics_lem : (d : String) → IsOutcome d (new_metrics meter d)
  unfolding new_metrics
  new_metrics_lem d =
      by_result (create_all meter fields) (create_all_lem fields) meter.register_callback refl
    where
      by_result :
          (o : Result (List (Instrument × H)))
          → CreatedOr meter fields o
          → (r : Option Error) → meter.register_callback ≡ r
          → IsOutcome d (elim o [
            | failed e ↦ failed e
            | ok hs ↦ elim r [
              | some e ↦ failed e
              | none ↦ ok (record { deployment_name = d; reconcile_in_flight_count = pos 0 }, hs)
            ]
          ])
      by_result (failed e) c r same = inl c
      by_result (ok hs) c none same = (c, same, refl)
      by_result (ok hs) c (some e) same = inr ((hs, c), same)
