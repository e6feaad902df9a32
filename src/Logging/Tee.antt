-- ===== src/Logging/Tee.antt =====
-- The handlers of pkg/logging/otelbridge.go and jsonhandler.go.
use unstructured_runtime.Prelude.{
  ◌≤◌, ◌≡◌, refl, Option, none, some, false, List, [], ◌∷◌, arith, select, ◌↔◌, ◌+◌,
}
use unstructured_runtime.Prelude.Int.{ℤ, pos_part, neg_part}
use unstructured_runtime.Errors.{Error}
use unstructured_runtime.Logging.{otel_severity_number, Record, Handler, tee_enabled, tee_handle}

-- A level that is not lower does not get a lower number.
pub severity_monotone :
    (a b : ℤ)
    → pos_part a + neg_part b ≤ pos_part b + neg_part a
    → otel_severity_number a ≤ otel_severity_number b
unfolding otel_severity_number
severity_monotone a b h = ground arith

module _ {H V : Type 0} (i : Handler H V) where
  -- The first error of the handlers, in order.
  unfoldable pub first_error : Record V → List H → Option Error
  first_error r [] = none
  first_error r (h ∷ hs) =
      let rest = first_error r hs in elim (i.handle h r) [ some e ↦ some e | none ↦ rest ]

  abbrev pub enabled_at : ℤ → List H → List H
  enabled_at l = select (λ h. i.enabled h l)

  tee_handle_from :
      (hs : List H) (r : Record V) (first : Option Error)
      → tee_handle i hs r first ≡ (
        enabled_at r.level hs,
        elim first [ some e ↦ some e | none ↦ first_error r (enabled_at r.level hs) ],
      )
  unfolding tee_handle first_error
  tee_handle_from [] r none = refl
  tee_handle_from [] r (some e) = refl
  tee_handle_from (h ∷ hs) r none =
      ground (arith, tee_handle_from hs r none, tee_handle_from hs r (i.handle h r))
  tee_handle_from (h ∷ hs) r (some e) = ground (arith, tee_handle_from hs r (some e))

  tee_enabled_iff : (hs : List H) (l : ℤ) → (tee_enabled i hs l ≡ false) ↔ (enabled_at l hs ≡ [])
  unfolding tee_enabled
  tee_enabled_iff [] l = (λ h. refl, λ h. refl)
  tee_enabled_iff (h ∷ hs) l = ground (arith, tee_enabled_iff hs l)

  -- A record goes to every handler that is enabled at its level, in order, whatever fails, and the
  -- error is the first of theirs; the tee is enabled at a level unless no handler is.
  pub tee_handle_lem :
      (hs : List H) (r : Record V) (l : ℤ)
      → (tee_handle i hs r none ≡ (enabled_at r.level hs, first_error r (enabled_at r.level hs)))
        × ((tee_enabled i hs l ≡ false) ↔ (enabled_at l hs ≡ []))
  tee_handle_lem hs r l = (tee_handle_from hs r none, tee_enabled_iff hs l)
