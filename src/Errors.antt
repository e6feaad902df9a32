-- ===== src/Errors.antt =====
-- pkg/errors/errors.go: errors that wrap one another. The standard library's `errors.New` makes an
-- error with a text, and `fmt.Errorf` with `%w` one that unwraps to its operand; nil is `none`.
use unstructured_runtime.Prelude.{◌≡◌, refl, Option, none, some, String, List, [], ◌∷◌}

pub data Error : Type 0 where
  text : String → Error
  wrapped : String → Error → Error

unfoldable pub unwrap : Error → Option Error
unwrap (text t) = none
unwrap (wrapped m e) = some e

unfoldable pub with_message : Option Error → String → Option Error
with_message none m = none
with_message (some e) m = some (wrapped m e)

unfoldable pub wrap : Option Error → String → Option Error
unfolding with_message
wrap e m = with_message e m

-- The loop of `Cause`, on an error that is not nil.
unfoldable pub cause_of : Error → Error
cause_of (text t) = text t
cause_of (wrapped m e) = cause_of e

unfoldable pub cause : Option Error → Option Error
unfolding cause_of
cause none = none
cause (some e) = some (cause_of e)

-- Wrapping an error in a list of messages, the first one innermost.
unfoldable pub wrap_all : Option Error → List String → Option Error
wrap_all e [] = e
wrap_all e (m ∷ ms) = wrap_all (wrap e m) ms

-- However often an error is wrapped, nil stays nil, and the cause is that of the error; what
-- `Cause` returns does not unwrap any further.
cause-wrap_all :
    (e : Option Error) (ms : List String)
    → (cause (wrap_all e ms) ≡ cause e) × (wrap_all none ms ≡ none)
unfolding cause wrap wrap_all
cause-wrap_all e [] = (refl, refl)
cause-wrap_all none (m ∷ ms) = cause-wrap_all none ms
cause-wrap_all (some e) (m ∷ ms) =
    ((cause-wrap_all (some (wrapped m e)) ms).0, (cause-wrap_all none ms).1)

pub unwrap-cause_of : (e : Error) → unwrap (cause_of e) ≡ none
unfolding unwrap cause_of
unwrap-cause_of (text t) = refl
unwrap-cause_of (wrapped m e) = unwrap-cause_of e

-- The variants with a format, where `sprintf` is `fmt.Sprintf`.
module _ {A : Type 0} (sprintf : String → List A → String) where
  unfoldable pub with_messagef : Option Error → String → List A → Option Error
  with_messagef none format args = none
  with_messagef (some e) format args = some (wrapped (sprintf format args) e)

  unfoldable pub wrapf : Option Error → String → List A → Option Error
  unfolding with_messagef
  wrapf e format args = with_messagef e format args

  -- Wrapping with a format is wrapping with the formatted message, and so keeps the cause.
  wrapf-wrap :
      (e : Option Error) (format : String) (args : List A)
      → (wrapf e format args ≡ wrap e (sprintf format args))
        × (cause (wrapf e format args) ≡ cause e)
  unfolding wrapf with_messagef wrap with_message cause cause_of
  wrapf-wrap none format args = (refl, refl)
  wrapf-wrap (some e) format args = (refl, refl)

-- `New`
unfoldable pub new : String → Error
new t = text t
