-- ===== src/Telemetry/Setup/Attributes.antt =====
-- The attributes of `buildResource` (pkg/telemetry/metrics.go) and of the log resource
-- (pkg/telemetry/logs.go).
use unstructured_runtime.Prelude.{
  ◌≡◌, refl, Option, none, some, true, List, [], ◌∷◌, ◌++◌, String, if◌then◌else◌, ◌==◌, string_eq,
  arith, find, IsMap, ◌∙◌, Bool-cases, inl, inr, subst, ap,
}
use unstructured_runtime.Telemetry.Creation.{ok}
use unstructured_runtime.Telemetry.Setup.{
  Config, Library, build_resource, resource_attributes, name_or, unless_empty, default_service_name,
  deployment_attributes,
}

-- A value that is not empty.
abbrev pub given : String → Option String
given v = if v == "" then none else some v

-- What a configuration says of an attribute.
unfoldable pub configured : Config → String → Option String
configured cfg k =
    if "service.name" == k
    then some (name_or default_service_name cfg.service_name)
    else if "service.namespace" == k
    then given cfg.namespace
    else if "service.version" == k
    then given cfg.version
    else if "krateo.io/composition-id" == k
    then given cfg.composition_id
    else if "k8s.deployment.name" == k
    then given cfg.deployment_name
    else if "service.instance.id" == k
    then given cfg.deployment_name
    else none

-- `a`, or else `b`.
unfoldable pub or_else : Option String → Option String → Option String
or_else none b = b
or_else (some a) b = some a

pub find-append :
    (k : String) (xs ys : List (String × String))
    → find k (xs ++ ys) ≡ or_else (find k xs) (find k ys)
unfolding find or_else
find-append k [] ys = refl
find-append k ((j, v) ∷ xs) ys = ground (arith, find-append k xs ys)

find-unless_empty :
    (k j v : String) → find k (unless_empty j v) ≡ (if j == k then given v else none)
unfolding find unless_empty
find-unless_empty k j v = ground arith

find-deployment_attributes :
    (k d : String)
    → find k (deployment_attributes d) ≡ (
        if "k8s.deployment.name" == k
        then given d
        else if "service.instance.id" == k
        then given d
        else none)
unfolding find deployment_attributes
find-deployment_attributes k d = ground arith

find-cons :
    (k j v : String) (m : List (String × String))
    → find k ((j, v) ∷ m) ≡ (if j == k then some v else find k m)
unfolding find
find-cons k j v m = refl

-- The two agree at a name.
AgreeAt : Config → String → Type 0
AgreeAt cfg k = find k (resource_attributes cfg) ≡ configured cfg k

AgreeAt-equal : (cfg : Config) (a k : String) → AgreeAt cfg a → (a == k) ≡ true → AgreeAt cfg k
AgreeAt-equal cfg a k h same = subst (AgreeAt cfg) ((string_eq.equals_iff a k).0 same) h

agrees : (cfg : Config) (k : String) → AgreeAt cfg k
unfolding AgreeAt
agrees cfg k = elim (Bool-cases ("service.name" == k)) [
  | inl same ↦
      AgreeAt-equal cfg "service.name" k
        (unfold find resource_attributes configured unless_empty deployment_attributes in
          ground arith)
        same
  | inr other0 ↦ elim (Bool-cases ("service.namespace" == k)) [
    | inl same ↦
        AgreeAt-equal cfg "service.namespace" k
          (unfold find resource_attributes configured unless_empty deployment_attributes in
            ground arith)
          same
    | inr other1 ↦ elim (Bool-cases ("service.version" == k)) [
      | inl same ↦
          AgreeAt-equal cfg "service.version" k
            (unfold find resource_attributes configured unless_empty deployment_attributes in
              ground arith)
            same
      | inr other2 ↦ elim (Bool-cases ("krateo.io/composition-id" == k)) [
        | inl same ↦
            AgreeAt-equal cfg "krateo.io/composition-id" k
              (unfold find resource_attributes configured unless_empty deployment_attributes in
                ground arith)
              same
        | inr other3 ↦ elim (Bool-cases ("k8s.deployment.name" == k)) [
          | inl same ↦
              AgreeAt-equal cfg "k8s.deployment.name" k
                (unfold find resource_attributes configured unless_empty deployment_attributes in
                  ground arith)
                same
          | inr other4 ↦ elim (Bool-cases ("service.instance.id" == k)) [
            | inl same ↦
                AgreeAt-equal cfg "service.instance.id" k
                  (unfold find resource_attributes configured unless_empty deployment_attributes in
                    ground arith)
                  same
            | inr other5 ↦
                unfold resource_attributes configured or_else in
                simp
                  (
                    find-cons, find-append, find-unless_empty, find-deployment_attributes, other0,
                    other1, other2, other3, other4, other5,
                  )
                  refl
          ]
        ]
      ]
    ]
  ]
]

find-resource_attributes :
    (cfg : Config) (k : String) → find k (resource_attributes cfg) ≡ configured cfg k
unfolding AgreeAt
find-resource_attributes cfg k = agrees cfg k

resource_attributes-IsMap : (cfg : Config) → IsMap (resource_attributes cfg)
unfolding find IsMap resource_attributes unless_empty deployment_attributes
resource_attributes-IsMap cfg = ground arith

-- What `resource.Merge` documents: an attribute has the value of the second resource, where it has
-- one, and that of the default resource otherwise.
abbrev pub Merges : {R : Type 0} → Library R → (String → R → Option String) → Type 0
Merges {R} lib attribute =
    (kvs : List (String × String)) (r : R) (k : String)
    → IsMap kvs
    → lib.merge_default kvs ≡ ok r
    → attribute k r ≡ or_else (find k kvs) (attribute k lib.default_resource)

-- The resource of the metrics and of the traces has the name of the service or its default, the
-- namespace, version, composition and deployment where they are not empty, the deployment also as the
-- instance, and every other attribute, and those that are empty, as the default resource has it.
pub build_resource_attributes :
    {R : Type 0} (lib : Library R) (attribute : String → R → Option String) (cfg : Config) (r : R)
    (k : String)
    → Merges lib attribute
    → build_resource lib cfg ≡ ok r
    → attribute k r ≡ or_else (configured cfg k) (attribute k lib.default_resource)
unfolding build_resource
build_resource_attributes lib attribute cfg r k merges built =
    merges (resource_attributes cfg) r k (resource_attributes-IsMap cfg) built
    ∙ ap (λ o. or_else o (attribute k lib.default_resource)) (find-resource_attributes cfg k)
