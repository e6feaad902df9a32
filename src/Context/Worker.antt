-- ===== src/Context/Worker.antt =====
-- The context that `runWorker` (pkg/controller/worker.go) gives to `processItem`, turn after turn.
use unstructured_runtime.Prelude.{
  ℕ, suc, ◌+◌, ◌*◌, ◌≡◌, refl, Option, some, Bool, false, List, [], ◌∷◌, String, if◌then◌else◌,
  arith, length, nat_beq, Bool-cases, inl, inr, ◌∙◌,
}
use unstructured_runtime.Controller.Loop.{Turn, event, unexpected}
use unstructured_runtime.Controller.Loop.Turns.{turns_with}
use unstructured_runtime.Context.{
  Context, logger_in, trace_id_in, with_logger, with_trace_id, build_context,
}

-- An event that got a trace id, and so is processed.
abbrev pub is_traced : Turn → Bool
is_traced t = elim t.obj [ event ev ↦ t.has_trace_id | unexpected x ↦ false ]

-- The trace id of the last event that was processed.
unfoldable pub last_id : (ℕ → String) → List Turn → Option String → Option String
last_id ids [] before = before
last_id ids (t ∷ ts) before =
    let next = last_id (λ n. ids (suc n)) ts (if is_traced t then some (ids 0) else before) in
    if t.shutdown then before else next

module _ {L : Type 0} (make : Bool → L) (debug : Bool) (root : L) where
  -- The assignment in the loop, with the trace id that was generated.
  unfoldable pub turn_context : String → Context L → Context L
  unfolding build_context with_logger with_trace_id
  turn_context id ctx =
      build_context (some (with_logger make debug (some root)) ∷ some (with_trace_id id) ∷ []) ctx

  unfoldable pub next_context : String → Turn → Context L → Context L
  unfolding turn_context
  next_context id t ctx = if is_traced t then turn_context id ctx else ctx

  -- The context after the turns; `ids n` is what is generated in the turn `n`.
  unfoldable pub worker_context : (ℕ → String) → List Turn → Context L → Context L
  unfolding next_context
  worker_context ids [] ctx = ctx
  worker_context ids (t ∷ ts) ctx =
      let next = worker_context (λ n. ids (suc n)) ts (next_context (ids 0) t ctx) in
      if t.shutdown then ctx else next

  next_context_lem :
      (id : String) (t : Turn) (ctx : Context L)
      → (length (next_context id t ctx).entries
          ≡ length ctx.entries + (if is_traced t then 2 else 0))
        × (trace_id_in (next_context id t ctx).entries
            ≡ (if is_traced t then some id else trace_id_in ctx.entries))
        × (logger_in (next_context id t ctx).entries
            ≡ (if is_traced t then some root else logger_in ctx.entries))
        × ((next_context id t ctx).span_trace_id ≡ ctx.span_trace_id)
  unfolding next_context turn_context build_context with_logger with_trace_id trace_id_in logger_in
  next_context_lem id t ctx = elim (Bool-cases (is_traced t)) [
    | inl yes_traced ↦ rw (yes_traced, next_context) (omega arith, refl, refl, refl)
    | inr untraced ↦ rw (untraced, next_context) (omega arith, refl, refl, refl)
  ]

  worker_context-next :
      (ids : ℕ → String) (t : Turn) (ts : List Turn) (ctx : Context L)
      → t.shutdown ≡ false
      → worker_context ids (t ∷ ts) ctx
        ≡ worker_context (λ n. ids (suc n)) ts (next_context (ids 0) t ctx)
  unfolding worker_context
  worker_context-next ids t ts ctx running = rw running refl

  -- Each event that a worker processes before the shutdown puts the logger of the controller and the
  -- trace id that was generated for it in front, and both stay in the context of the worker: it has
  -- grown by two values for each of them, and gives the last trace id.
  pub worker_context_grows :
      (ids : ℕ → String) (ts : List Turn) (ctx : Context L)
      → (length (worker_context ids ts ctx).entries
          ≡ length ctx.entries + 2 * turns_with is_traced ts)
        × (trace_id_in (worker_context ids ts ctx).entries
            ≡ last_id ids ts (trace_id_in ctx.entries))
        × (logger_in (worker_context ids ts ctx).entries
            ≡ (if nat_beq (turns_with is_traced ts) 0 then logger_in ctx.entries else some root))
        × ((worker_context ids ts ctx).span_trace_id ≡ ctx.span_trace_id)
  unfolding turns_with last_id
  worker_context_grows ids [] ctx = unfold worker_context in (omega arith, refl, refl, refl)
  worker_context_grows ids (t ∷ ts) ctx = elim (Bool-cases t.shutdown) [
    | inl stop ↦ unfold worker_context in simp stop (omega arith, refl, refl, refl)
    | inr running ↦
        let (n₁, id₁, l₁, s₁) = next_context_lem (ids 0) t ctx in
        let (n₂, id₂, l₂, s₂) =
          worker_context_grows (λ n. ids (suc n)) ts (next_context (ids 0) t ctx) in
        rw (worker_context-next ids t ts ctx running) (
          ground (arith, n₁, n₂, running),
          ground (arith, id₁, id₂, running),
          ground (arith, l₁, l₂, running),
          s₂ ∙ s₁,
        )
  ]
