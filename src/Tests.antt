-- ===== src/Tests.antt =====
-- Instances of the interfaces and inputs that the examples use.
mod Queues
mod Metadata
mod Controllers
mod Objects
mod Projection
mod Building
mod Limits
mod Workers
mod Signals
use unstructured_runtime.Prelude.{
  ℕ, zero, suc, ◌+◌, ◌*◌, ◌/◌, ◌^◌, ◌<◌, ◌≡◌, ◌↔◌, refl, Option, none, some, Bool, true, false,
  ◌&&◌, List, [], ◌∷◌, String, Comparable, ◌==◌, nat_beq, string_eq, nat_eq, equals_refl,
  if◌then◌else◌, update, arith,
}
use unstructured_runtime.Prelude.Int.{ℤ, pos}
use unstructured_runtime.PriorityQueue.State.{RateLimiter}
use unstructured_runtime.Event.{ObjectRef, Event, EventType}
use unstructured_runtime.Meta.{Object, TimeFormat}

-- A limiter that counts, and delays one more each time.
abbrev pub counting : (T : Type 0) ⦃e : Comparable T⦄ → RateLimiter T
counting T = record {
  State = T → ℕ;
  when = λ k r. (pos (suc (r k)), update r k (suc (r k)));
  forget = λ k r. update r k 0;
  num_requeues = λ k r. r k;
}

-- The instants of the first three seconds.
abbrev pub digit : ℕ → String
digit zero = "0"
digit (suc zero) = "1"
digit (suc (suc n)) = "2"

abbrev pub read_digit : String → Option ℕ
read_digit s =
    if s == "0"
    then some 0
    else if s == "1"
    then some (1 * 10 ^ 9)
    else if s == "2"
    then some (2 * 10 ^ 9)
    else none

read_digit-digit : (n : ℕ) → n < 3 → read_digit (digit n) ≡ some (n * 10 ^ 9)
read_digit-digit zero h = refl
read_digit-digit (suc zero) h = refl
read_digit-digit (suc (suc zero)) h = refl
read_digit-digit (suc (suc (suc n))) h = absurd (omega (arith, h))

pub parse-format_digit :
    (t : ℕ) → t < 3 * 10 ^ 9 → read_digit (digit (t / 10 ^ 9)) ≡ some (t / 10 ^ 9 * 10 ^ 9)
parse-format_digit t h = read_digit-digit (t / 10 ^ 9) (omega (arith, h))

abbrev pub three_seconds : TimeFormat
three_seconds = record {
  format = λ t. digit (t / 10 ^ 9);
  parse = read_digit;
  limit = 3 * 10 ^ 9;
  parse-format = parse-format_digit;
  parse-empty = refl;
}

abbrev pub bare : Object
bare = record {
  annotations = none;
  labels = none;
  finalizers = "kept" ∷ "dropped" ∷ [];
  deletion_timestamp = none;
  creation_timestamp = 1;
}

abbrev pub reference : ObjectRef
reference = record { api_version = "v1"; kind = "Chart"; name = "web"; namespace = "demo" }

abbrev pub creation : Event
creation = record { event_type = "Create"; object_ref = reference; queued_at = 5 }

abbrev pub same_ref : ObjectRef → ObjectRef → Bool
same_ref r s =
    (r.api_version == s.api_version)
    && ((r.kind == s.kind) && ((r.name == s.name) && (r.namespace == s.namespace)))

pub same_ref_iff : (r s : ObjectRef) → (same_ref r s ≡ true) ↔ (r ≡ s)
same_ref_iff r s = ground (
  arith,
  string_eq.equals_iff r.api_version s.api_version,
  string_eq.equals_iff r.kind s.kind,
  string_eq.equals_iff r.name s.name,
  string_eq.equals_iff r.namespace s.namespace,
)

abbrev pub same_event : Event → Event → Bool
same_event a b =
    (a.event_type == b.event_type)
    && (same_ref a.object_ref b.object_ref && nat_beq a.queued_at b.queued_at)

pub same_event_iff : (a b : Event) → (same_event a b ≡ true) ↔ (a ≡ b)
same_event_iff a b =
    ground (
      arith,
      string_eq.equals_iff a.event_type b.event_type,
      same_ref_iff a.object_ref b.object_ref,
    )

instance abbrev pub event_eq : Comparable Event
event_eq = record { equals = same_event; equals_iff = same_event_iff }
