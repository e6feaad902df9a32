-- ===== src/Telemetry/Effects.antt =====
-- The calls of `runWorker` (pkg/controller/worker.go) that reach the metrics of
-- pkg/telemetry/metrics.go, and the counts that they leave.
use mathlib.Core.List.{append_assoc}
use unstructured_runtime.Prelude.{
  ℕ, ◌+◌, ◌≡◌, refl, ◌∙◌, Option, none, some, List, [], ◌∷◌, ◌++◌, arith, inl, inr, Bool-cases,
  Option-cases, ap, sym,
}
use unstructured_runtime.Prelude.Int.{ℤ, pos, pos_part, neg_part, beq_ℤ}
use unstructured_runtime.Controller.Loop.{
  Effect, process_item, forget, done, delete_digest, handle_err, reconcile_in_flight,
  queue_wait_duration, queue_work_duration, reconcile_duration, reconcile_success,
  reconcile_failure, reconcile_error_requeue,
}
use unstructured_runtime.Controller.Loop.Turns.{rise, fall, sum}
use unstructured_runtime.Telemetry.Instruments.{Metrics, Call, add, record_value, Instrument, sum_ℤ}
use unstructured_runtime.Telemetry.Instruments
use unstructured_runtime.Telemetry.Methods.{Method, perform, perform_all}
use unstructured_runtime.Telemetry.Requeues.{total, total-append, Reason, counted}

-- The calls of the methods among the calls of a turn.
abbrev pub methods_of : Effect → List Method
methods_of e = elim e [
  | reconcile_in_flight d ↦ Method.add_reconcile_in_flight d ∷ []
  | queue_wait_duration d ↦ Method.record_queue_wait_duration (pos d) ∷ []
  | queue_work_duration d ↦ Method.record_queue_work_duration (pos d) ∷ []
  | reconcile_duration d ↦ Method.record_reconcile_duration (pos d) ∷ []
  | reconcile_success ↦ Method.inc_reconcile_success ∷ []
  | reconcile_failure ↦ Method.inc_reconcile_failure ∷ []
  | reconcile_error_requeue ↦ Method.inc_reconcile_error_requeue ∷ []
  | _ ↦ []
]

unfoldable pub all_methods : List Effect → List Method
all_methods [] = []
all_methods (e ∷ es) = methods_of e ++ all_methods es

-- What a call adds to the counters of successes and of failures.
abbrev pub successes : Call → ℕ
successes (add i d kvs) = elim i [ Instrument.reconcile_success ↦ pos_part d | _ ↦ 0 ]
successes (record_value i d) = 0

abbrev pub failures : Call → ℕ
failures (add i d kvs) = elim i [ Instrument.reconcile_failure ↦ pos_part d | _ ↦ 0 ]
failures (record_value i d) = 0

abbrev pub succeeds : Effect → ℕ
succeeds e = elim e [ reconcile_success ↦ 1 | _ ↦ 0 ]

abbrev pub fails : Effect → ℕ
fails e = elim e [ reconcile_failure ↦ 1 | _ ↦ 0 ]

abbrev pub requeues : Effect → ℕ
requeues e = elim e [ reconcile_error_requeue ↦ 1 | _ ↦ 0 ]

-- The counts that the calls leave, when they raise and lower what is in flight as given.
abbrev pub Measured : Metrics → Metrics → List Call → ℕ → ℕ → ℕ → ℕ → ℕ → Type 0
Measured m m' cs up down ok bad again =
    (pos_part m'.reconcile_in_flight_count + neg_part m.reconcile_in_flight_count + down
      ≡ neg_part m'.reconcile_in_flight_count + pos_part m.reconcile_in_flight_count + up)
    × (total successes cs ≡ ok)
    × (total failures cs ≡ bad)
    × (total (counted Reason.error) cs ≡ again)

abbrev pub After : List Method → Metrics → ℕ → ℕ → ℕ → ℕ → ℕ → Type 0
After ms m up down ok bad again =
    (m' : Metrics) × (cs : List Call) × (perform_all ms (some m) ≡ some (some m', cs))
    × Measured m m' cs up down ok bad again

flight-count :
    (d : ℤ) (m : Metrics)
    → (m' : Metrics) × (Instruments.add_reconcile_in_flight d (some m) ≡ some m')
      × (pos_part m'.reconcile_in_flight_count + neg_part m.reconcile_in_flight_count + neg_part d
          ≡ neg_part m'.reconcile_in_flight_count
            + pos_part m.reconcile_in_flight_count
            + pos_part d)
unfolding Instruments.add_reconcile_in_flight
flight-count d m = elim (Bool-cases (beq_ℤ d (pos 0))) [
  | inl still ↦ (m, rw (still, Instruments.add_reconcile_in_flight) refl, ground (arith, still))
  | inr moved ↦ (
    record m { reconcile_in_flight_count = sum_ℤ m.reconcile_in_flight_count d },
    rw (moved, Instruments.add_reconcile_in_flight) refl,
    ground arith,
  )
]

effect-After :
    (e : Effect) (m : Metrics)
    → After (methods_of e) m (rise e) (fall e) (succeeds e) (fails e) (requeues e)
unfolding perform perform_all total Instruments.record_requeue Instruments.inc_reconcile_success
    Instruments.inc_reconcile_failure Instruments.inc_reconcile_error_requeue
    Instruments.record_queue_wait_duration Instruments.record_queue_work_duration
    Instruments.record_reconcile_duration
effect-After (forget o) m = (m, [], refl, (omega arith, refl, refl, refl))
effect-After (done o) m = (m, [], refl, (omega arith, refl, refl, refl))
effect-After (delete_digest d) m = (m, [], refl, (omega arith, refl, refl, refl))
effect-After (process_item ev) m = (m, [], refl, (omega arith, refl, refl, refl))
effect-After (handle_err err ev p) m = (m, [], refl, (omega arith, refl, refl, refl))
effect-After (reconcile_in_flight d) m =
    let (m', moved, balance) = flight-count d m in
    (m', [], rw (moved, perform, perform_all) refl, (balance, refl, refl, refl))
effect-After (queue_wait_duration d) m = (m, _, refl, (omega arith, refl, refl, refl))
effect-After (queue_work_duration d) m = (m, _, refl, (omega arith, refl, refl, refl))
effect-After (reconcile_duration d) m = (m, _, refl, (omega arith, refl, refl, refl))
effect-After reconcile_success m = (m, _, refl, (omega arith, refl, refl, refl))
effect-After reconcile_failure m = (m, _, refl, (omega arith, refl, refl, refl))
effect-After reconcile_error_requeue m = (m, _, refl, (omega arith, refl, refl, refl))

-- The calls of a method, then those of the methods after it.
perform_all-cons :
    (c : Method) (cs : List Method) (m m₁ m₂ : Option Metrics) (made later : List Call)
    → perform c m ≡ some (m₁, made)
    → perform_all cs m₁ ≡ some (m₂, later)
    → perform_all (c ∷ cs) m ≡ some (m₂, made ++ later)
unfolding perform_all
perform_all-cons c cs m m₁ m₂ made later first rest = rw (first, rest, perform_all) refl

perform_all-append :
    (cs ds : List Method) (m m₁ m₂ : Option Metrics) (made later : List Call)
    → perform_all cs m ≡ some (m₁, made)
    → perform_all ds m₁ ≡ some (m₂, later)
    → perform_all (cs ++ ds) m ≡ some (m₂, made ++ later)
unfolding perform_all
perform_all-append [] ds m m₁ m₂ made later first rest = cc
perform_all-append (c ∷ cs) ds m m₁ m₂ made later first rest = elim (Option-cases (perform c m)) [
  | inl fault ↦ absurd (let no : none ≡ some (m₁, made) = rw (fault, perform_all) at first in cc)
  | inr ((m₀, now), step) ↦ elim (Option-cases (perform_all cs m₀)) [
    | inl fault ↦
        absurd (let no : none ≡ some (m₁, made) = rw (step, fault, perform_all) at first in cc)
    | inr ((m₃, soon), next) ↦
        let both : ◌≡◌ {A = Option (Option Metrics × List Call)} (some (m₃, now ++ soon))
            (some (m₁, made)) =
          rw (step, next, perform_all) at first in
        let same : m₃ ≡ m₁ = cc in
        let parts : now ++ soon ≡ made = cc in
        perform_all-cons c (cs ++ ds) m m₀ m₂ now (soon ++ later) step (
          perform_all-append cs ds m₀ m₃ m₂ soon later next
            (ap (λ k. perform_all ds k) same ∙ rest))
        ∙ ap (λ l. some (m₂, l)) (sym (append_assoc now soon later) ∙ ap (λ l. l ++ later) parts)
  ]
]

pub effects-After :
    (es : List Effect) (m : Metrics)
    → After
        (all_methods es)
        m
        (sum rise es)
        (sum fall es)
        (sum succeeds es)
        (sum fails es)
        (sum requeues es)
unfolding all_methods sum total perform_all
effects-After [] m = (m, [], refl, (omega arith, refl, refl, refl))
effects-After (e ∷ es) m =
    let (m₁, made, first, (b₁, ok₁, bad₁, again₁)) = effect-After e m in
    let (m₂, later, rest, (b₂, ok₂, bad₂, again₂)) = effects-After es m₁ in
    (
      m₂,
      made ++ later,
      perform_all-append (methods_of e) (all_methods es) (some m) (some m₁) (some m₂) made later
          first rest,
      (
        omega arith,
        omega (arith, total-append successes made later),
        omega (arith, total-append failures made later),
        omega (arith, total-append (counted Reason.error) made later),
      ),
    )
