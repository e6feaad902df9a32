-- ===== src/Condition/Laws.antt =====
-- `Upsert`, `Remove` and `Join` (pkg/tools/unstructured/condition/condition.go) on conditions of
-- different types.
use unstructured_runtime.Prelude.{
  ◌≡◌, ◌≢◌, refl, sym, ◌∙◌, true, Option, none, some, List, [], ◌∷◌, String, ◌==◌, string_eq,
  if◌then◌else◌, All, arith, equals_refl, equals-false, inl, inr, Bool-cases, subst,
}
use unstructured_runtime.Condition.{Condition, upsert, upsert_all, join, remove, find}

-- No two conditions have one type.
abbrev pub Distinct : List Condition → Type 0
Distinct [] = Unit
Distinct (c ∷ cs) = All (λ d. d.type ≢ c.type) cs × Distinct cs

-- The last condition of a type.
unfoldable pub find_last : String → List Condition → Option Condition
find_last t [] = none
find_last t (d ∷ ds) = elim (find_last t ds) [
  | some c ↦ some c
  | none ↦ if d.type == t then some d else none
]

find-none : (t : String) (cs : List Condition) → All (λ d. d.type ≢ t) cs → find t cs ≡ none
unfolding find
find-none t [] h = refl
find-none t (d ∷ ds) h = rw (equals-false d.type t h.0) (find-none t ds h.1)

-- `Upsert` sets the condition of its type and leaves the others.
pub find-upsert :
    (t : String) (c : Condition) (cs : List Condition)
    → find t (upsert c cs) ≡ (if c.type == t then some c else find t cs)
unfolding find upsert
find-upsert t c [] = refl
find-upsert t c (d ∷ ds) = ground (
  arith,
  find-upsert t c ds,
  string_eq.equals_iff d.type c.type,
  string_eq.equals_iff d.type t,
  string_eq.equals_iff c.type t,
)

upsert-All :
    (P : Condition → Type 0) (c : Condition) (cs : List Condition)
    → P c
    → All P cs
    → All P (upsert c cs)
unfolding upsert
upsert-All P c [] p h = (p, tt)
upsert-All P c (d ∷ ds) p h = ground (arith, upsert-All P c ds p h.1)

pub upsert-Distinct : (c : Condition) (cs : List Condition) → Distinct cs → Distinct (upsert c cs)
unfolding upsert
upsert-Distinct c [] h = (tt, tt)
upsert-Distinct c (d ∷ ds) h = elim (Bool-cases (d.type == c.type)) [
  | inl hit ↦
      let same : d.type ≡ c.type = (string_eq.equals_iff d.type c.type).0 hit in
      rw hit (subst (λ t. All (λ z. z.type ≢ t) ds) same h.0, h.1)
  | inr miss ↦
      let other : c.type ≢ d.type = λ e.
        let yes₀ : (d.type == c.type) ≡ true = (string_eq.equals_iff d.type c.type).1 (sym e) in
        cc in
      rw miss (upsert-All (λ z. z.type ≢ d.type) c ds other h.0, upsert-Distinct c ds h.1)
]

-- Among conditions of different types `Remove` takes the condition of its type away and leaves the others.
find-remove :
    (t u : String) (cs : List Condition)
    → Distinct cs
    → find u (remove t cs) ≡ (if t == u then none else find u cs)
unfolding find remove
find-remove t u [] h = ground arith
find-remove t u (d ∷ ds) h = ground (
  arith,
  find-remove t u ds h.1,
  find-none d.type ds h.0,
  string_eq.equals_iff d.type t,
  string_eq.equals_iff d.type u,
  string_eq.equals_iff t u,
)

upsert-same : (c : Condition) (cs : List Condition) → find c.type cs ≡ some c → upsert c cs ≡ cs
unfolding find upsert
upsert-same c [] h = cc
upsert-same c (d ∷ ds) h = ground (arith, upsert-same c ds)

find-later :
    (d : Condition) (ds cs : List Condition)
    → All (λ z. z.type ≢ d.type) cs
    → All (λ z. find z.type ds ≡ some z) cs
    → All (λ z. find z.type (d ∷ ds) ≡ some z) cs
unfolding find
find-later d ds [] n h = tt
find-later d ds (c ∷ cs) n h =
    (rw (equals-false d.type c.type (λ e. n.0 (sym e))) h.0, find-later d ds cs n.1 h.1)

find_self : (cs : List Condition) → Distinct cs → All (λ z. find z.type cs ≡ some z) cs
unfolding find
find_self [] h = tt
find_self (d ∷ ds) h = (rw (equals_refl d.type), find-later d ds ds h.0 (find_self ds h.1))

upsert_all-same :
    (ds cs : List Condition) → All (λ z. find z.type cs ≡ some z) ds → upsert_all ds cs ≡ cs
unfolding upsert_all
upsert_all-same [] cs h = refl
upsert_all-same (d ∷ ds) cs h = rw (upsert-same d cs h.0) (upsert_all-same ds cs h.1)

-- `Join` of conditions with different types changes nothing, whatever it is asked to join.
join_ignores : (cs all : List Condition) → Distinct cs → join cs all ≡ cs
unfolding join
join_ignores cs all h = upsert_all-same cs cs (find_self cs h)

-- After a list of conditions is set in conditions of different types, each type that is in the list has the last one of its type,
-- each other type has what it had, and the types still differ.
pub find-upsert_all :
    (ds cs : List Condition)
    → Distinct cs
    → Distinct (upsert_all ds cs)
      × ((t : String)
          → find t (upsert_all ds cs)
            ≡ (elim (find_last t ds) [ none ↦ find t cs | some d ↦ some d ]))
unfolding upsert_all find_last
find-upsert_all [] cs h = (h, λ t. refl)
find-upsert_all (d ∷ ds) cs h =
    let (distinct, found) = find-upsert_all ds (upsert d cs) (upsert-Distinct d cs h) in
    (distinct, λ t. found t ∙ ground (arith, find-upsert t d cs))
