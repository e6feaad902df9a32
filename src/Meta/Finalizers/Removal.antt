-- ===== src/Meta/Finalizers/Removal.antt =====
-- `RemoveFinalizer` (pkg/meta/meta.go) removes the one occurrence of a finalizer; at two adjacent
-- occurrences at the end it panics.
use mathlib.Core.Path.{ap₂}
use mathlib.Core.List.{append-nil, append_assoc}
use unstructured_runtime.Prelude.{
  ℕ, suc, ◌+◌, ◌-◌, ◌≡◌, ◌≢◌, refl, sym, ap, ◌∙◌, none, some, true, false, List, [], ◌∷◌, ◌++◌,
  String, string_eq, arith, equals_refl, equals-false, All, All-append, All-drop, take, drop,
  length, length-append, get_elem?, get_elem?-append, take-append, drop-append_add,
  length-drop_last, take-length, subst, leb,
}
use unstructured_runtime.Meta.{Object}
use unstructured_runtime.Meta.Finalizers.{cut_at, remove_loop, remove_all, remove_finalizer}

module _ (x : String) where
  abbrev pub Avoids : List String → Type 0
  Avoids = All λ y. y ≢ x

  -- Where the rest of the array has no `x` the loop changes nothing.
  skip :
      (pre rest a : List String) (i m : ℕ)
      → a ≡ pre ++ rest
      → i ≡ length pre
      → Avoids rest
      → remove_loop x (length rest) i a m ≡ some (a, m)
  unfolding remove_loop
  skip pre [] a i m e ei h = refl
  skip pre (y ∷ ys) a i m e ei h =
      rw (read_here, equals-false y x h.0, remove_loop)
        (skip (pre ++ y ∷ []) ys a (suc i) m (e ∙ sym (append_assoc pre (y ∷ []) ys))
          (omega (arith, ei, length-append pre (y ∷ []))) h.1)
    where
      read_here : get_elem? a i ≡ some y
      read_here = ap₂ get_elem? e ei ∙ get_elem?-append pre y ys

  -- The array after the one occurrence, behind `pre`, was cut out.
  shifted : List String → List String → List String
  shifted pre post = pre ++ (post ++ drop (length post) (x ∷ post))

  cut_at_lem :
      (pre post a : List String) (i m : ℕ)
      → a ≡ pre ++ x ∷ post
      → i ≡ length pre
      → m ≡ length a
      → cut_at i m a ≡ shifted pre post
  unfolding cut_at shifted
  cut_at_lem pre post a i m e ei em = ap₂ ◌++◌ (ap₂ take ei e ∙ take-append pre (x ∷ post)) (
      ap₂ ◌++◌
        (ap (drop (suc i)) (ap (λ j. take j a) em ∙ take-length a ∙ e)
          ∙ drop-append_add pre (x ∷ post) 1 (suc i) (omega (arith, ei)))
        (ap (drop (m - 1)) e
          ∙ drop-append_add pre (x ∷ post) (length post) (m - 1)
              (omega (arith, em, ap length e, length-append pre (x ∷ post)))))

  after_cut :
      (pre post : List String) (m : ℕ)
      → Avoids post
      → remove_loop x (length post) (suc (length pre)) (shifted pre post) m
        ≡ some (shifted pre post, m)
  unfolding shifted remove_loop
  after_cut pre [] m h = refl
  after_cut pre (p ∷ ps) m h =
      let last : List String = drop (length ps) (p ∷ ps) in
      let rounds : length (ps ++ last) ≡ suc (length ps) =
        omega (arith, length-append ps last, length-drop_last p ps) in
      subst
        (λ r.
          remove_loop x r (suc (length pre)) (shifted pre (p ∷ ps)) m
          ≡ some (shifted pre (p ∷ ps), m))
        rounds
        (skip (pre ++ p ∷ []) (ps ++ last) (shifted pre (p ∷ ps)) (suc (length pre)) m
          (sym (append_assoc pre (p ∷ []) (ps ++ last))) (omega (arith, length-append pre (p ∷ [])))
          (All-append _ ps last h.1 (All-drop _ (length ps) (p ∷ ps) h)))

  -- The loop over `todo`, the occurrence and `post`, when `done` was read.
  remove_loop_once :
      (done todo post a : List String) (i m : ℕ)
      → a ≡ done ++ (todo ++ x ∷ post)
      → i ≡ length done
      → m ≡ length a
      → Avoids todo
      → Avoids post
      → remove_loop x (length (todo ++ x ∷ post)) i a m ≡ some (shifted (done ++ todo) post, m - 1)
  unfolding remove_loop
  remove_loop_once done [] post a i m e ei em ht hp =
      rw (read_here, equals_refl x, room, remove_loop)
        (rw (append-nil done, cut_at_lem done post a i m e ei em, ei)
          (after_cut done post (m - 1) hp))
    where
      read_here : get_elem? a i ≡ some x
      read_here = ap₂ get_elem? e ei ∙ get_elem?-append done x post

      long : m ≡ length done + suc (length post)
      long = omega (arith, em, ap length e, length-append done (x ∷ post))

      room : leb (suc i) m ≡ true
      room = ground (arith, long, ei)
  remove_loop_once done (y ∷ ys) post a i m e ei em ht hp =
      rw (read_here, equals-false y x ht.0, remove_loop)
        (remove_loop_once (done ++ y ∷ []) ys post a (suc i) m
            (e ∙ sym (append_assoc done (y ∷ []) (ys ++ x ∷ post)))
            (omega (arith, ei, length-append done (y ∷ []))) em ht.1 hp
          ∙ ap (λ l. some (shifted l post, m - 1)) (append_assoc done (y ∷ []) ys))
    where
      read_here : get_elem? a i ≡ some y
      read_here = ap₂ get_elem? e ei ∙ get_elem?-append done y (ys ++ x ∷ post)

  remove_all_once :
      (pre post : List String)
      → Avoids pre
      → Avoids post
      → remove_all x (pre ++ x ∷ post) ≡ some (pre ++ post)
  unfolding remove_all
  remove_all_once pre post hp hq =
      let a : List String = pre ++ x ∷ post in
      rw (remove_loop_once [] pre post a 0 (length a) refl refl refl hp hq, remove_all)
        (ap some (
          unfold shifted in
          ap (λ l. take (length a - 1) l) (sym (append_assoc pre post _))
          ∙ ap (λ n. take n ((pre ++ post) ++ drop (length post) (x ∷ post)))
              (let short : length a - 1 ≡ length (pre ++ post) =
                  omega (arith, length-append pre (x ∷ post), length-append pre post) in
                short)
          ∙ take-append (pre ++ post) _))

  remove_all_absent : (f : List String) → Avoids f → remove_all x f ≡ some f
  unfolding remove_all
  remove_all_absent f h =
      rw (skip [] f f 0 (length f) refl refl h, remove_all) (ap some (take-length f))

  remove_finalizer_to :
      (o : Object) (f : List String)
      → remove_all x o.finalizers ≡ some f
      → remove_finalizer x o ≡ some (record o { finalizers = f })
  unfolding remove_finalizer
  remove_finalizer_to o f e = ground (arith, e)

  -- Of a finalizer that stands in the list once `RemoveFinalizer` removes exactly that occurrence
  -- and keeps the order; an object without it stays as it is.
  pub remove_finalizer_once :
      (o : Object) (pre post : List String)
      → Avoids pre
      → Avoids post
      → (o.finalizers ≡ pre ++ x ∷ post
          → remove_finalizer x o ≡ some (record o { finalizers = pre ++ post }))
        × (o.finalizers ≡ pre ++ post → remove_finalizer x o ≡ some o)
  unfolding remove_finalizer
  remove_finalizer_once o pre post hp hq = (
    λ e. remove_finalizer_to o (pre ++ post) (ap (remove_all x) e ∙ remove_all_once pre post hp hq),
    λ e.
        remove_finalizer_to o o.finalizers
          (remove_all_absent o.finalizers (subst Avoids (sym e) (All-append _ pre post hp hq))),
  )

  remove_loop_twice :
      (done todo a : List String) (i m : ℕ)
      → a ≡ done ++ (todo ++ x ∷ x ∷ [])
      → i ≡ length done
      → m ≡ length a
      → Avoids todo
      → remove_loop x (length (todo ++ x ∷ x ∷ [])) i a m ≡ none
  unfolding remove_loop
  remove_loop_twice done [] a i m e ei em h =
      rw (read_here, equals_refl x, room, remove_loop)
        (rw
          (cut_at_lem done (x ∷ []) a i m e ei em, read_next, equals_refl x, no_room, remove_loop))
    where
      read_here : get_elem? a i ≡ some x
      read_here = ap₂ get_elem? e ei ∙ get_elem?-append done x (x ∷ [])

      here_again : shifted done (x ∷ []) ≡ (done ++ x ∷ []) ++ x ∷ []
      here_again = unfold shifted in sym (append_assoc done (x ∷ []) (x ∷ []))

      read_next : get_elem? (shifted done (x ∷ [])) (suc i) ≡ some x
      read_next =
          ap₂ get_elem? here_again (
            let next : suc i ≡ length (done ++ x ∷ []) =
              omega (arith, ei, length-append done (x ∷ [])) in
            next)
          ∙ get_elem?-append (done ++ x ∷ []) x []

      long : m ≡ length done + 2
      long = omega (arith, em, ap length e, length-append done (x ∷ x ∷ []))

      room : leb (suc i) m ≡ true
      room = ground (arith, long, ei)

      no_room : leb (suc (suc i)) (m - 1) ≡ false
      no_room = ground (arith, long, ei)
  remove_loop_twice done (y ∷ ys) a i m e ei em h =
      rw (read_here, equals-false y x h.0, remove_loop)
        (remove_loop_twice (done ++ y ∷ []) ys a (suc i) m
          (e ∙ sym (append_assoc done (y ∷ []) (ys ++ x ∷ x ∷ [])))
          (omega (arith, ei, length-append done (y ∷ []))) em h.1)
    where
      read_here : get_elem? a i ≡ some y
      read_here = ap₂ get_elem? e ei ∙ get_elem?-append done y (ys ++ x ∷ x ∷ [])

  -- Where the finalizer stands twice at the end of the list, and nowhere else, it panics.
  pub remove_finalizer_twice :
      (o : Object) (pre : List String)
      → Avoids pre
      → o.finalizers ≡ pre ++ x ∷ x ∷ []
      → remove_finalizer x o ≡ none
  unfolding remove_finalizer remove_all
  remove_finalizer_twice o pre hp e = ground (
    arith,
    remove_loop_twice [] pre o.finalizers 0 (length o.finalizers) e refl refl hp,
    ap length e,
  )
