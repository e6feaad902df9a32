-- ===== src/Unstructured/Nested/Steps.antt =====
-- One field of a path in the nested reads and writes of pkg/tools/unstructured/unstructured.go.
use unstructured_runtime.Prelude.{
  ◌≡◌, refl, ◌⊎◌, inl, inr, none, true, false, List, [], ◌∷◌, ◌++◌, String, string_eq, arith,
  equals_refl,
}
use unstructured_runtime.Unstructured.{Value, Fields, object, end, lookup, assign, lookup-assign}
use unstructured_runtime.Unstructured.Nested.{
  NotAMap, Holding, absent, submap, blocked, holding, put_back, set_from, value_at, is_open,
}

pub Holding-cases : (h : Holding) → (h ≡ absent) ⊎ (((m : Fields) × (h ≡ submap m)) ⊎ (h ≡ blocked))
Holding-cases absent = inl refl
Holding-cases (submap m) = inr (inl (m, refl))
Holding-cases blocked = inr (inr refl)

pub put_back-inr :
    (f : String) (m : Fields) (x : NotAMap ⊎ Fields) (r : Fields)
    → put_back f m x ≡ inr r
    → (r' : Fields) × (x ≡ inr r') × (r ≡ assign f (object r') m)
unfolding put_back
put_back-inr f m (inl e) r h = absurd (ground (arith, h))
put_back-inr f m (inr r') r h = (r', refl, ground (arith, h))

pub put_back_ok : (f : String) (m r : Fields) → put_back f m (inr r) ≡ inr (assign f (object r) m)
unfolding put_back
put_back_ok f m r = refl

pub value_at-assign :
    (f : String) (fs : List String) (last : String) (r m : Fields)
    → value_at (f ∷ fs) last (assign f (object r) m) ≡ value_at fs last r
unfolding value_at holding
value_at-assign f fs last r m = ground (arith, lookup-assign f f (object r) m, equals_refl f)

pub value_at-end : (fs : List String) (last : String) → value_at fs last end ≡ none
unfolding value_at lookup holding
value_at-end [] last = refl
value_at-end (f ∷ fs) last = refl

pub value_at-absent :
    (f : String) (fs : List String) (last : String) (m : Fields)
    → holding (lookup f m) ≡ absent
    → value_at (f ∷ fs) last m ≡ none
unfolding value_at
value_at-absent f fs last m h = rw (h, value_at) refl

pub value_at-submap :
    (f : String) (fs : List String) (last : String) (m r : Fields)
    → holding (lookup f m) ≡ submap r
    → value_at (f ∷ fs) last m ≡ value_at fs last r
unfolding value_at
value_at-submap f fs last m r h = rw (h, value_at) refl

module _ (seen : List String) (v : Value) (f : String) (fs : List String) (last : String) where
  pub set_from_absent :
      (m : Fields)
      → holding (lookup f m) ≡ absent
      → set_from seen v (f ∷ fs) last m ≡ put_back f m (set_from (seen ++ f ∷ []) v fs last end)
  unfolding set_from
  set_from_absent m h = rw (h, set_from) refl

  pub set_from_submap :
      (m r : Fields)
      → holding (lookup f m) ≡ submap r
      → set_from seen v (f ∷ fs) last m ≡ put_back f m (set_from (seen ++ f ∷ []) v fs last r)
  unfolding set_from
  set_from_submap m r h = rw (h, set_from) refl

  pub set_from_blocked :
      (m : Fields)
      → holding (lookup f m) ≡ blocked
      → set_from seen v (f ∷ fs) last m ≡ inl (record { path = seen ++ f ∷ [] })
  unfolding set_from
  set_from_blocked m h = rw (h, set_from) refl

pub value_at-blocked :
    (f : String) (fs : List String) (last : String) (m : Fields)
    → holding (lookup f m) ≡ blocked
    → value_at (f ∷ fs) last m ≡ none
unfolding value_at
value_at-blocked f fs last m h = rw (h, value_at) refl

pub is_open-assign :
    (f : String) (fs : List String) (r m : Fields)
    → is_open (f ∷ fs) (assign f (object r) m) ≡ is_open fs r
unfolding is_open holding
is_open-assign f fs r m = ground (arith, lookup-assign f f (object r) m, equals_refl f)

pub open_submap :
    (f : String) (fs : List String) (m r : Fields)
    → holding (lookup f m) ≡ submap r
    → is_open (f ∷ fs) m ≡ is_open fs r
unfolding is_open
open_submap f fs m r h = rw (h, is_open) refl

pub open_blocked :
    (f : String) (fs : List String) (m : Fields)
    → holding (lookup f m) ≡ blocked
    → is_open (f ∷ fs) m ≡ false
unfolding is_open
open_blocked f fs m h = rw (h, is_open) refl

pub open_end : (fs : List String) → is_open fs end ≡ true
unfolding is_open lookup holding
open_end [] = refl
open_end (f ∷ fs) = refl
