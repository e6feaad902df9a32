-- ===== src/Unstructured/Nested/Laws.antt =====
-- What the nested writes of pkg/tools/unstructured/unstructured.go leave in the object.
use unstructured_runtime.Prelude.{
  ◌≡◌, refl, sym, ap, ◌∙◌, ◌⊎◌, inl, inr, true, false, subst, List, [], ◌∷◌, ◌++◌, String, ◌==◌,
  string_eq, arith, equals_refl,
}
use unstructured_runtime.Unstructured.{Value, Fields, object, end, lookup, assign, lookup-assign}
use unstructured_runtime.Unstructured.Nested.{
  NotAMap, holding, put_back, set_from, value_at, Written, is_open,
}
use unstructured_runtime.Unstructured.Nested.Steps.{
  Holding-cases, put_back-inr, put_back_ok, value_at-assign, value_at-end, value_at-absent,
  value_at-submap, set_from_absent, set_from_submap, set_from_blocked, is_open-assign, open_submap,
  open_blocked, open_end,
}

Written-deeper :
    (v : Value) (f : String) (fs : List String) (last : String) (m from r' : Fields)
    → ((other : String) → value_at (f ∷ fs) other m ≡ value_at fs other from)
    → Written v fs last from r'
    → Written v (f ∷ fs) last m (assign f (object r') m)
unfolding Written
Written-deeper v f fs last m from r' same (new, old) = (
  value_at-assign f fs last r' m ∙ new,
  λ other ne. value_at-assign f fs other r' m ∙ old other ne ∙ sym (same other),
)

write_here :
    (seen : List String) (v : Value) (last : String) (m r : Fields)
    → set_from seen v [] last m ≡ inr r
    → r ≡ assign last v m
unfolding set_from
write_here seen v last m r h = ground (arith, h)

Written-here : (v : Value) (last : String) (m : Fields) → Written v [] last m (assign last v m)
unfolding Written value_at
Written-here v last m = (
  ground (arith, lookup-assign last last v m, equals_refl last),
  λ other ne. ground (arith, lookup-assign last other v m, ne),
)

pub set_from-Written :
    (seen : List String) (v : Value) (fs : List String) (last : String) (m r : Fields)
    → set_from seen v fs last m ≡ inr r
    → Written v fs last m r
set_from-Written seen v [] last m r h =
    subst (Written v [] last m) (sym (write_here seen v last m r h)) (Written-here v last m)
set_from-Written seen v (f ∷ fs) last m r h = elim (Holding-cases (holding (lookup f m))) [
  | inl none_there ↦
      let (r', deeper, eq) =
        put_back-inr f m _ r (sym (set_from_absent seen v f fs last m none_there) ∙ h) in
      subst (Written v (f ∷ fs) last m) (sym eq) (
        Written-deeper v f fs last m end r'
          (λ other. value_at-absent f fs other m none_there ∙ sym (value_at-end fs other))
          (set_from-Written (seen ++ f ∷ []) v fs last end r' deeper))
  | inr (inl (sub, there)) ↦
      let (r', deeper, eq) =
        put_back-inr f m _ r (sym (set_from_submap seen v f fs last m sub there) ∙ h) in
      subst (Written v (f ∷ fs) last m) (sym eq) (
        Written-deeper v f fs last m sub r' (λ other. value_at-submap f fs other m sub there)
          (set_from-Written (seen ++ f ∷ []) v fs last sub r' deeper))
  | inr (inr stuck) ↦ absurd (ground (arith, sym (set_from_blocked seen v f fs last m stuck) ∙ h))
]

put_back_elsewhere :
    (f : String) (m : Fields) (x : NotAMap ⊎ Fields) (r : Fields)
    → put_back f m x ≡ inr r
    → (k : String) → (f == k) ≡ false
    → lookup k r ≡ lookup k m
put_back_elsewhere f m x r h k ne =
    let (r', deeper, eq) = put_back-inr f m x r h in
    ap (lookup k) eq ∙ ground (arith, lookup-assign f k (object r') m, ne)

pub set_from_elsewhere :
    (seen : List String) (v : Value) (f : String) (fs : List String) (last : String) (m r : Fields)
    → set_from seen v (f ∷ fs) last m ≡ inr r
    → (k : String) → (f == k) ≡ false
    → lookup k r ≡ lookup k m
set_from_elsewhere seen v f fs last m r h = elim (Holding-cases (holding (lookup f m))) [
  | inl none_there ↦
      put_back_elsewhere f m _ r (sym (set_from_absent seen v f fs last m none_there) ∙ h)
  | inr (inl (sub, there)) ↦
      put_back_elsewhere f m _ r (sym (set_from_submap seen v f fs last m sub there) ∙ h)
  | inr (inr stuck) ↦ absurd (ground (arith, sym (set_from_blocked seen v f fs last m stuck) ∙ h))
]

pub set_from_open :
    (seen : List String) (v : Value) (fs : List String) (last : String) (m : Fields)
    → is_open fs m ≡ true
    → (r : Fields) × (set_from seen v fs last m ≡ inr r)
set_from_open seen v [] last m h = (assign last v m, unfold set_from in refl)
set_from_open seen v (f ∷ fs) last m h = elim (Holding-cases (holding (lookup f m))) [
  | inl none_there ↦
      let (r, eq) = set_from_open (seen ++ f ∷ []) v fs last end (open_end fs) in
      (
        assign f (object r) m,
        set_from_absent seen v f fs last m none_there ∙ ap (put_back f m) eq ∙ put_back_ok f m r,
      )
  | inr (inl (sub, there)) ↦
      let (r, eq) =
        set_from_open (seen ++ f ∷ []) v fs last sub (sym (open_submap f fs m sub there) ∙ h) in
      (
        assign f (object r) m,
        set_from_submap seen v f fs last m sub there ∙ ap (put_back f m) eq ∙ put_back_ok f m r,
      )
  | inr (inr stuck) ↦ absurd (ground (arith, h, open_blocked f fs m stuck))
]

-- A path that was written is open, and taking its end out keeps the path as it was.
pub is_open-set_from :
    (seen : List String) (v : Value) (fs : List String) (last : String) (m r : Fields)
    → set_from seen v fs last m ≡ inr r
    → is_open fs r ≡ true
is_open-set_from seen v [] last m r h = unfold is_open in refl
is_open-set_from seen v (f ∷ fs) last m r h = elim (Holding-cases (holding (lookup f m))) [
  | inl none_there ↦
      let (r', deeper, eq) =
        put_back-inr f m _ r (sym (set_from_absent seen v f fs last m none_there) ∙ h) in
      ap (is_open (f ∷ fs)) eq
      ∙ is_open-assign f fs r' m
      ∙ is_open-set_from (seen ++ f ∷ []) v fs last end r' deeper
  | inr (inl (sub, there)) ↦
      let (r', deeper, eq) =
        put_back-inr f m _ r (sym (set_from_submap seen v f fs last m sub there) ∙ h) in
      ap (is_open (f ∷ fs)) eq
      ∙ is_open-assign f fs r' m
      ∙ is_open-set_from (seen ++ f ∷ []) v fs last sub r' deeper
  | inr (inr stuck) ↦ absurd (ground (arith, sym (set_from_blocked seen v f fs last m stuck) ∙ h))
]
