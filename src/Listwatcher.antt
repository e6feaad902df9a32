-- ===== src/Listwatcher.antt =====
-- pkg/listwatcher/listwatcher.go: what a list and a watch ask of the dynamic client. The client and the
-- options of the caller are interfaces; an `O` is a `metav1.ListOptions`.
use unstructured_runtime.Prelude.{◌≡◌, refl, Option, none, some, String, arith}

-- The two selectors of `metav1.ListOptions` that are set, and the other fields.
pub record ListOptions (O : Type 0) : Type 0 where
  pub label_selector : String
  pub field_selector : String
  pub rest : O

pub record CreateOption (G : Type 0) : Type 0 where
  pub gvr : G
  pub label_selector : Option String
  pub field_selector : Option String
  pub namespace : String

-- A call of the dynamic client: the resource, the namespace and the options.
pub record Asked (G O : Type 0) : Type 0 where
  pub gvr : G
  pub namespace : String
  pub options : ListOptions O

abbrev pub or_given : String → Option String → String
or_given s none = s
or_given s (some t) = t

module _ {G O : Type 0} (opts : CreateOption G) where
  unfoldable pub selected : ListOptions O → ListOptions O
  selected lo = record lo {
    label_selector = or_given lo.label_selector opts.label_selector;
    field_selector = or_given lo.field_selector opts.field_selector;
  }

  -- `ListFunc` and `WatchFunc`
  unfoldable pub list_func : ListOptions O → Asked G O
  unfolding selected
  list_func lo = record { gvr = opts.gvr; namespace = opts.namespace; options = selected lo }

  unfoldable pub watch_func : ListOptions O → Asked G O
  unfolding selected
  watch_func lo = record { gvr = opts.gvr; namespace = opts.namespace; options = selected lo }

  -- What is watched is what is listed, and choosing the selectors again changes nothing.
  watch_func-list_func :
      (lo : ListOptions O) → (watch_func lo ≡ list_func lo) × (selected (selected lo) ≡ selected lo)
  unfolding watch_func list_func selected
  watch_func-list_func lo = (refl, ground arith)
