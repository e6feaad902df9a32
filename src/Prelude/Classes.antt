-- ===== src/Prelude/Classes.antt =====
-- Equality of comparable types as an instance, and maps of such keys as functions.
use Prim.Native.Nat.{ℕ}
use Prim.Native.String.{String}
use mathlib.Core.Path.{◌≡◌, refl}
use mathlib.Core.Logic.{◌↔◌, inl, inr, ◌≢◌}
use mathlib.Core.Bool.{Bool, true, false}
use text.Mathlib.Text.{◌==◌ as str_beq}
use text.Mathlib.TextEquality.{eq_iff}
use unstructured_runtime.Prelude.Tests.{nat_beq, nat_beq_iff, if◌then◌else◌, Bool-cases}

-- The `==` of a Go type parameter with the constraint `comparable`.
pub record Comparable {ℓ} (A : Type ℓ) : Type ℓ where
  pub equals : A → A → Bool
  pub equals_iff : (a b : A) → (equals a b ≡ true) ↔ (a ≡ b)

-- Texts, as the keys of annotations and of the digests.
instance abbrev pub string_eq : Comparable String
string_eq = record { equals = str_beq; equals_iff = eq_iff }

-- `==` at any comparable type.
infix 50 ◌==◌
abbrev pub ◌==◌ {ℓ} : {A : Type ℓ} ⦃e : Comparable A⦄ → A → A → Bool
◌==◌ ⦃e⦄ = e.equals

-- Numbers, as the keys of the examples.
instance abbrev pub nat_eq : Comparable ℕ
nat_eq = record { equals = nat_beq; equals_iff = nat_beq_iff }

module _ {ℓ} {A : Type ℓ} ⦃e : Comparable A⦄ where
  pub equals_refl : (a : A) → (a == a) ≡ true
  equals_refl a = (e.equals_iff a a).1 refl

  pub equals-false : (a b : A) → a ≢ b → (a == b) ≡ false
  equals-false a b h = elim (Bool-cases (a == b)) [
    | inl eq ↦ absurd (h ((e.equals_iff a b).0 eq))
    | inr ne ↦ ne
  ]

-- A Go map as a function: `m[k] = v`, `delete(m, k)`; a set as a Boolean function.
module _ {ℓ κ} {K : Type ℓ} {V : Type κ} ⦃e : Comparable K⦄ where
  abbrev pub update : (K → V) → K → V → K → V
  update m k v j = if k == j then v else m j
