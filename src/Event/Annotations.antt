-- ===== src/Event/Annotations.antt =====
-- pkg/controller/event/annotationevents.go: the annotations that trigger events.
use unstructured_runtime.Prelude.{
  ◌≡◌, refl, ap, Bool, true, false, not, List, [], ◌∷◌, ◌++◌, String, ◌==◌, string_eq,
  if◌then◌else◌, arith, select,
}
use unstructured_runtime.Event.{EventType}

abbrev pub on_change : String
on_change = "OnChange"

abbrev pub on_delete : String
on_delete = "OnDelete"

abbrev pub on_create : String
on_create = "OnCreate"

abbrev pub on_any : String
on_any = "OnAny"

pub record AnnotationEvent : Type 0 where
  pub event_type : EventType
  pub annotation : String
  pub on_action : String

unfoldable pub has_annotation : String → List AnnotationEvent → Bool
has_annotation a [] = false
has_annotation a (e ∷ es) = if e.annotation == a then true else has_annotation a es

unfoldable pub remove : String → List AnnotationEvent → List AnnotationEvent
remove a es = select (λ e. not (e.annotation == a)) es

unfoldable pub add :
    EventType → String → String → Bool → List AnnotationEvent → List AnnotationEvent
unfolding has_annotation remove
add t a action overwrite es =
    let event : AnnotationEvent = record { event_type = t; annotation = a; on_action = action } in
    if overwrite
    then remove a es ++ event ∷ []
    else if has_annotation a es
    then es
    else es ++ event ∷ []

-- The events of one annotation, in order.
unfoldable pub events_of : String → List AnnotationEvent → List AnnotationEvent
events_of a es = select (λ e. e.annotation == a) es

events_of-append :
    (a : String) (xs ys : List AnnotationEvent)
    → events_of a (xs ++ ys) ≡ events_of a xs ++ events_of a ys
unfolding events_of
events_of-append a [] ys = refl
events_of-append a (x ∷ xs) ys = ground (arith, events_of-append a xs ys)

events_of-remove :
    (a b : String) (es : List AnnotationEvent)
    → events_of b (remove a es) ≡ (if a == b then [] else events_of b es)
unfolding events_of remove
events_of-remove a b [] = ground arith
events_of-remove a b (e ∷ es) = ground (
  arith,
  events_of-remove a b es,
  string_eq.equals_iff e.annotation a,
  string_eq.equals_iff e.annotation b,
  string_eq.equals_iff a b,
)

has_annotation-events_of :
    (a : String) (es : List AnnotationEvent) → has_annotation a es ≡ false → events_of a es ≡ []
unfolding has_annotation events_of
has_annotation-events_of a [] h = refl
has_annotation-events_of a (e ∷ es) h = ground (arith, has_annotation-events_of a es)

events_of_one :
    (b : String) (e : AnnotationEvent)
    → events_of b (e ∷ []) ≡ (if e.annotation == b then e ∷ [] else [])
unfolding events_of
events_of_one b e = ground arith

append-nil : (xs : List AnnotationEvent) → xs ++ [] ≡ xs
append-nil [] = refl
append-nil (x ∷ xs) = ap (λ ys. x ∷ ys) (append-nil xs)

-- An annotation has the events it had, unless it is the one added to: that one has the new event
-- alone when the call overwrites or when there was none, and keeps its events otherwise.
pub events_of-add :
    (t : EventType) (a action : String) (overwrite : Bool) (b : String) (es : List AnnotationEvent)
    → events_of b (add t a action overwrite es) ≡ (
        if a == b
        then if overwrite
          then record { event_type = t; annotation = a; on_action = action } ∷ []
          else if has_annotation a es
          then events_of b es
          else record { event_type = t; annotation = a; on_action = action } ∷ []
        else events_of b es)
unfolding add
events_of-add t a action overwrite b es =
    let added : AnnotationEvent = record { event_type = t; annotation = a; on_action = action } in
    ground (
      arith,
      events_of-append b (remove a es) (added ∷ []),
      events_of-append b es (added ∷ []),
      events_of-remove a b es,
      has_annotation-events_of a es,
      events_of_one b added,
      append-nil (events_of b es),
      string_eq.equals_iff a b,
    )
