-- ===== src/Pluralizer.antt =====
-- pkg/pluralizer/pluralizer.go. The discovery of the plural name, with its cache, is a parameter.
use unstructured_runtime.Prelude.{◌⊎◌, inl, inr, String}
use unstructured_runtime.Errors.{Error}

pub record GroupVersionKind : Type 0 where
  pub group : String
  pub version : String
  pub kind : String

pub record GroupVersionResource : Type 0 where
  pub group : String
  pub version : String
  pub resource : String

-- `GVKtoGVR`, where `plural` is the plural name or an error.
unfoldable pub gvk_to_gvr :
    (GroupVersionKind → Error ⊎ String) → GroupVersionKind → Error ⊎ GroupVersionResource
gvk_to_gvr plural gvk = elim (plural gvk) [
  | inl err ↦ inl err
  | inr name ↦ inr (record { group = gvk.group; version = gvk.version; resource = name })
]
