-- ===== src/Meta.antt =====
-- pkg/meta/meta.go: the metadata of a Kubernetes object. The interface `metav1.Object` is read as a
-- record of what its getters return and its setters write; a nil map is `none`.
pub mod Finalizers
pub mod Tracking
pub mod Policy
use unstructured_runtime.Prelude.{
  ℕ, ◌+◌, ◌-◌, ◌*◌, ◌/◌, ◌^◌, ◌<◌, ◌≡◌, Option, none, some, Bool, true, false, ◌&&◌, ◌||◌, not,
  List, [], ◌∷◌, String, ◌==◌, ltb, nat_beq, if◌then◌else◌, update, string_eq,
}

abbrev pub Annotations : Type 0
Annotations = String → Option String

pub record Object : Type 0 where
  pub annotations : Option Annotations
  pub labels : Option Annotations
  pub finalizers : List String
  -- Zero is Go's zero time; the pointer is nil when the object was not deleted.
  pub deletion_timestamp : Option ℕ
  pub creation_timestamp : ℕ

-- The package `time` at the layout RFC 3339: whole seconds of an instant in nanoseconds, up to the
-- year that four digits can write, and an error on the empty text.
pub record TimeFormat : Type 0 where
  pub format : ℕ → String
  pub parse : String → Option ℕ
  pub limit : ℕ
  pub parse-format : (t : ℕ) → t < limit → parse (format t) ≡ some (t / 10 ^ 9 * 10 ^ 9)
  pub parse-empty : parse "" ≡ none

-- Keys and values of the annotations.
abbrev pub key_external_name : String
key_external_name = "krateo.io/external-name"

abbrev pub key_external_create_pending : String
key_external_create_pending = "krateo.io/external-create-pending"

abbrev pub key_external_create_succeeded : String
key_external_create_succeeded = "krateo.io/external-create-succeeded"

abbrev pub key_external_create_failed : String
key_external_create_failed = "krateo.io/external-create-failed"

abbrev pub key_reconciliation_paused : String
key_reconciliation_paused = "krateo.io/paused"

abbrev pub key_connector_verbose : String
key_connector_verbose = "krateo.io/connector-verbose"

abbrev pub key_management_policy : String
key_management_policy = "krateo.io/management-policy"

abbrev pub key_deletion_policy : String
key_deletion_policy = "krateo.io/deletion-policy"

abbrev pub assign : List (String × String) → Annotations → Annotations
assign [] m = m
assign ((k, v) ∷ kvs) m = assign kvs (update m k (some v))

abbrev pub delete_keys : List String → Annotations → Annotations
delete_keys [] m = m
delete_keys (k ∷ ks) m = delete_keys ks (update m k none)

-- `m[k]` of a map that may be nil: the empty text where there is none.
abbrev pub read : Option Annotations → String → String
read none k = ""
read (some m) k = elim (m k) [ none ↦ "" | some v ↦ v ]

unfoldable pub add_annotations : List (String × String) → Object → Object
add_annotations kvs o = elim o.annotations [
  | none ↦ record o { annotations = some (assign kvs λ k. none) }
  | some m ↦ record o { annotations = some (assign kvs m) }
]

unfoldable pub remove_annotations : List String → Object → Object
remove_annotations ks o = elim o.annotations [
  | none ↦ o
  | some m ↦ record o { annotations = some (delete_keys ks m) }
]

unfoldable pub add_labels : List (String × String) → Object → Object
add_labels kvs o = elim o.labels [
  | none ↦ record o { labels = some (assign kvs λ k. none) }
  | some m ↦ record o { labels = some (assign kvs m) }
]

unfoldable pub remove_labels : List String → Object → Object
remove_labels ks o = elim o.labels [
  | none ↦ o
  | some m ↦ record o { labels = some (delete_keys ks m) }
]

unfoldable pub was_deleted : Object → Bool
was_deleted o = elim o.deletion_timestamp [ none ↦ false | some t ↦ not (nat_beq t 0) ]

unfoldable pub was_created : Object → Bool
was_created o = not (nat_beq o.creation_timestamp 0)

unfoldable pub get_external_name : Object → String
get_external_name o = read o.annotations key_external_name

unfoldable pub set_external_name : String → Object → Object
unfolding add_annotations
set_external_name name o = add_annotations ((key_external_name, name) ∷ []) o

unfoldable pub is_paused : Object → Bool
is_paused o = read o.annotations key_reconciliation_paused == "true"

unfoldable pub is_verbose : Object → Bool
is_verbose o = read o.annotations key_connector_verbose == "true"

module _ (F : TimeFormat) where
  -- The zero time where the annotation does not parse.
  abbrev pub read_time : String → Object → ℕ
  read_time k o = elim (F.parse (read o.annotations k)) [ none ↦ 0 | some t ↦ t ]

  unfoldable pub get_external_create_pending : Object → ℕ
  get_external_create_pending o = read_time key_external_create_pending o

  unfoldable pub set_external_create_pending : ℕ → Object → Object
  set_external_create_pending t o =
      add_annotations ((key_external_create_pending, F.format t) ∷ []) o

  unfoldable pub get_external_create_succeeded : Object → ℕ
  get_external_create_succeeded o = read_time key_external_create_succeeded o

  unfoldable pub set_external_create_succeeded : ℕ → Object → Object
  set_external_create_succeeded t o =
      add_annotations ((key_external_create_succeeded, F.format t) ∷ []) o

  unfoldable pub get_external_create_failed : Object → ℕ
  get_external_create_failed o = read_time key_external_create_failed o

  unfoldable pub set_external_create_failed : ℕ → Object → Object
  set_external_create_failed t o = add_annotations ((key_external_create_failed, F.format t) ∷ []) o

  unfoldable pub external_create_incomplete : Object → Bool
  external_create_incomplete o =
      let pending = get_external_create_pending o in
      let succeeded = get_external_create_succeeded o in
      let failed = get_external_create_failed o in
      let latest = if ltb succeeded failed then failed else succeeded in
      if nat_beq pending 0 then false else ltb latest pending

  -- `time.Since(t) < d`, with the clock at `now` and a duration that is not negative.
  unfoldable pub external_create_succeeded_during : ℕ → ℕ → Object → Bool
  external_create_succeeded_during now d o =
      let t = get_external_create_succeeded o in if nat_beq t 0 then false else ltb now (t + d)

  unfoldable pub external_create_pending_during : ℕ → ℕ → Object → Bool
  external_create_pending_during now d o =
      let t = get_external_create_pending o in if nat_beq t 0 then false else ltb now (t + d)
