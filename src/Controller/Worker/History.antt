-- ===== src/Controller/Worker/History.antt =====
-- Runs of the programs of pkg/controller/worker.go against a cluster and an external client, and the
-- calls that they make, each with what was called and answered before it.
use unstructured_runtime.Prelude.{
  ℕ, ◌≡◌, refl, Option, none, some, Bool, true, false, List, [], ◌∷◌, String, if◌then◌else◌, ◌⊎◌,
  inl, inr,
}
use unstructured_runtime.Errors.{Error, text}
use unstructured_runtime.Event.{ObjectRef}
use unstructured_runtime.Condition.{Condition, upsert_all}
use unstructured_runtime.Controller.{Resource}
use unstructured_runtime.Controller.Worker.{
  Call, Answer, Prog, done, crash, call, get, resolve, write, write_status, encode, clock, recorded,
  Controller, fetch, update, on_result, guarded_write, record_event, return_error, update_status,
  stamp, set_conditions,
}
use unstructured_runtime.Controller.Worker.Handlers.{
  save_status, update_failed, cannot_update_managed, cannot_set_conditions,
}

-- A call with its answer; a history has the newest first.
abbrev pub Step : Type 0
Step = (c : Call) × Answer c

abbrev pub History : Type 0
History = List Step

-- What answers the calls, with a state of its own.
pub record World : Type 1 where
  pub State : Type 0
  pub answer : (c : Call) → State → Answer c × State

-- The history after a program; `none` of the result is the panic.
unfoldable pub run :
    (W : World) → Prog → W.State → History → Option (Option Error) × History × W.State
run W (done e) w h = (some e, h, w)
run W crash w h = (none, h, w)
run W (call c k) w h = let (a, w') = W.answer c w in run W (k a) w' ((c, a) ∷ h)

-- Every call of a program satisfies `Q` with the history before it, whatever is answered.
unfoldable pub Always : (History → Call → Type 0) → History → Prog → Type 0
Always Q h (done e) = Unit
Always Q h crash = Unit
Always Q h (call c k) = Q h c × ((a : Answer c) → Always Q ((c, a) ∷ h) (k a))

-- Every call of a history satisfies `Q` with the history before it.
unfoldable pub Holds : (History → Call → Type 0) → History → Type 0
Holds Q [] = Unit
Holds Q (s ∷ h) = Q h s.0 × Holds Q h

pub run-Holds :
    (Q : History → Call → Type 0) (W : World) (p : Prog) (w : W.State) (h : History)
    → Always Q h p
    → Holds Q h
    → Holds Q (run W p w h).1
unfolding run Always Holds
run-Holds Q W (done e) w h a v = v
run-Holds Q W crash w h a v = v
run-Holds Q W (call c k) w h a v =
    run-Holds Q W (k (W.answer c w).0) (W.answer c w).1 ((c, (W.answer c w).0) ∷ h)
      (a.1 (W.answer c w).0) (a.0, v)

-- The calls that do not reach the external client.
abbrev pub is_internal : Call → Bool
is_internal (get r) = true
is_internal (resolve r) = true
is_internal (write_status g r) = true
is_internal (encode r cs) = true
is_internal clock = true
is_internal (recorded reason) = true
is_internal _ = false

pub if-Always :
    (Q : History → Call → Type 0) (h : History) (b : Bool) (p q : Prog)
    → Always Q h p
    → Always Q h q
    → Always Q h (if b then p else q)
if-Always Q h true p q v w = v
if-Always Q h false p q v w = w

pub on_result-Always {ℓ} :
    {A : Type ℓ} (Q : History → Call → Type 0) (h : History) (fail : Error → Prog) (k : A → Prog)
    → ((e : Error) → Always Q h (fail e))
    → ((a : A) → Always Q h (k a))
    → (r : Error ⊎ A) → Always Q h (on_result fail k r)
on_result-Always Q h fail k v w (inl e) = v e
on_result-Always Q h fail k v w (inr a) = w a

module _ (Q : History → Call → Type 0)
    (admits : (h : History) (c : Call) → is_internal c ≡ true → Q h c) (C : Controller) where
  pub fetch-Always :
      (h : History) (ref : ObjectRef) (fail : Error → Prog) (k : Resource → Prog)
      → ((e : Error) (h' : History) → Always Q h' (fail e))
      → ((el : Resource) (h' : History) → Always Q h' (k el))
      → Always Q h (fetch C ref fail k)
  unfolding fetch Always
  fetch-Always h ref fail k on_fail on_k =
      if-Always Q h C.has_dynamic_client (call (get ref) (on_result fail k))
        (fail (text "dynamic client is not configured"))
        (
          admits h (get ref) refl,
          λ r. on_result-Always Q _ fail k (λ e. on_fail e _) (λ el. on_k el _) r,
        )
        (on_fail _ h)

  guarded_write-Always :
      (h : History) (w : String → Resource → Call) (el : Resource) (fail : Error → Prog)
      (k : String → Prog)
      → ((e : Error) (h' : History) → Always Q h' (fail e))
      → ((g : String) (h' : History) → Always Q h' (k g))
      → Always Q h (guarded_write C w el fail k)
  unfolding Always
  guarded_write-Always h w el fail k on_fail on_k =
      if-Always Q h C.has_pluralizer
        (if C.has_dynamic_client
          then call (resolve el.ref) (on_result fail k)
          else fail (text "dynamic client cannot be nil"))
        (fail (text "pluralizer cannot be nil"))
        (if-Always Q h C.has_dynamic_client (call (resolve el.ref) (on_result fail k))
          (fail (text "dynamic client cannot be nil"))
          (
            admits h (resolve el.ref) refl,
            λ r. on_result-Always Q _ fail k (λ e. on_fail e _) (λ g. on_k g _) r,
          )
          (on_fail _ h))
        (on_fail _ h)

  -- A write of the object is a call of its own, with whatever `Q` asks of it.
  pub update-Always :
      (h : History) (el : Resource) (fail : Error → Prog) (k : Resource → Prog)
      → ((g : String) (h' : History) → Q h' (write g el))
      → ((e : Error) (h' : History) → Always Q h' (fail e))
      → ((el' : Resource) (h' : History) → Always Q h' (k el'))
      → Always Q h (update C el fail k)
  unfolding update Always
  update-Always h el fail k writes on_fail on_k =
      guarded_write-Always h write el fail (λ gvr. call (write gvr el) (on_result fail k)) on_fail
        (λ g h'.
          (writes g h', λ r. on_result-Always Q _ fail k (λ e. on_fail e _) (λ el'. on_k el' _) r))

  update_status-Always :
      (h : History) (el : Resource) (fail : Error → Prog) (k : Resource → Prog)
      → ((e : Error) (h' : History) → Always Q h' (fail e))
      → ((el' : Resource) (h' : History) → Always Q h' (k el'))
      → Always Q h (update_status C el fail k)
  unfolding update_status Always
  update_status-Always h el fail k on_fail on_k =
      guarded_write-Always h write_status el fail
        (λ gvr. call (write_status gvr el) (on_result fail k)) on_fail
        (λ g h'. (
          admits h' (write_status g el) refl,
          λ r. on_result-Always Q _ fail k (λ e. on_fail e _) (λ el'. on_k el' _) r,
        ))

  stamp-Always :
      (h : History) (cs : List (ℕ → Condition)) (k : List Condition → Prog)
      → ((ds : List Condition) (h' : History) → Always Q h' (k ds))
      → Always Q h (stamp cs k)
  unfolding stamp Always
  stamp-Always h [] k on_k = on_k [] h
  stamp-Always h (c ∷ cs) k on_k = (
    admits h clock refl,
    λ now. stamp-Always _ cs (λ ds. k (c now ∷ ds)) (λ ds h'. on_k (c now ∷ ds) h'),
  )

  record_event-Always :
      (h : History) (reason : String) (p : Prog)
      → ((h' : History) → Always Q h' p)
      → Always Q h (record_event reason p)
  unfolding Always
  record_event-Always h reason p on_p = (admits h (recorded reason) refl, λ u. on_p _)

  pub save_status-Always :
      (h : History) (el : Resource) (cs : List (ℕ → Condition)) (k : Resource → Prog)
      → ((el' : Resource) (h' : History) → Always Q h' (k el'))
      → Always Q h (save_status C el cs k)
  unfolding save_status set_conditions Always
  save_status-Always h el cs k on_k = stamp-Always h cs _ λ ds h'. (
    admits h' (encode el (upsert_all ds el.conditions)) refl,
    elim [
      | none ↦
          update_status-Always _ _ update_failed k
            (λ e h''. record_event-Always h'' cannot_update_managed (return_error e) (λ h3. tt))
            on_k
      | some e ↦ record_event-Always _ cannot_set_conditions (return_error e) (λ h''. tt)
    ],
  )
