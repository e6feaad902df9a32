-- ===== src/Meta/Tracking.antt =====
-- The annotations of pkg/meta/meta.go that track the creation of the external resource.
use unstructured_runtime.Prelude.{
  ℕ, ◌*◌, ◌/◌, ◌^◌, ◌≤◌, ◌<◌, ◌≡◌, ◌↔◌, true, false, [], ◌∷◌, String, ◌==◌, if◌then◌else◌,
  string_eq, arith, equals_refl,
}
use unstructured_runtime.Meta.{
  Object, TimeFormat, read, read_time, add_annotations, key_external_create_pending,
  key_external_create_succeeded, key_external_create_failed, get_external_create_pending,
  get_external_create_succeeded, get_external_create_failed, set_external_create_pending,
  set_external_create_succeeded, set_external_create_failed, external_create_incomplete,
  remove_annotations,
}

-- An instant at whole seconds.
abbrev pub seconds : ℕ → ℕ
seconds t = t / 10 ^ 9 * 10 ^ 9

read-add :
    (k v j : String) (o : Object)
    → read (add_annotations ((k, v) ∷ []) o).annotations j
      ≡ (if k == j then v else read o.annotations j)
unfolding add_annotations
read-add k v j o = ground arith

read-remove : (k : String) (o : Object) → read (remove_annotations (k ∷ []) o).annotations k ≡ ""
unfolding remove_annotations
read-remove k o = ground (arith, equals_refl k)

seconds_mono : (t u : ℕ) → t ≤ u → seconds t ≤ seconds u
seconds_mono t u h = omega arith

module _ (F : TimeFormat) where
  -- A tracking annotation that was set reads as the instant at whole seconds; the others stay.
  read_time-add :
      (k j : String) (t : ℕ) (o : Object)
      → t < F.limit
      → read_time F j (add_annotations ((k, F.format t) ∷ []) o)
        ≡ (if k == j then seconds t else read_time F j o)
  read_time-add k j t o h = ground (arith, read-add k (F.format t) j o, F.parse-format t h)

  -- A creation that is started is incomplete exactly if no outcome was recorded in that second or a
  -- later one; the annotations hold whole seconds, so a start in the second of the last outcome is
  -- not seen as incomplete.
  pub set_pending-incomplete :
      (t : ℕ) (o : Object)
      → t < F.limit
      → 10 ^ 9 ≤ t
      → (external_create_incomplete F (set_external_create_pending F t o) ≡ true) ↔ (
          (get_external_create_succeeded F o < seconds t)
          × (get_external_create_failed F o < seconds t))
  unfolding external_create_incomplete set_external_create_pending get_external_create_pending
      get_external_create_succeeded get_external_create_failed
  set_pending-incomplete t o h later = ground (
    arith,
    read_time-add key_external_create_pending key_external_create_pending t o h,
    read_time-add key_external_create_pending key_external_create_succeeded t o h,
    read_time-add key_external_create_pending key_external_create_failed t o h,
  )

  -- Once an outcome is recorded, at or after the start, or the mark of the start is taken away, the
  -- creation is no longer incomplete.
  pub outcome_complete :
      (t u : ℕ) (o : Object)
      → t < F.limit
      → u < F.limit
      → t ≤ u
      → let started = set_external_create_pending F t o in
        (external_create_incomplete F (set_external_create_succeeded F u started) ≡ false)
        × (external_create_incomplete F (set_external_create_failed F u started) ≡ false)
        × (external_create_incomplete F
              (remove_annotations (key_external_create_pending ∷ []) started)
            ≡ false)
  unfolding external_create_incomplete set_external_create_pending set_external_create_succeeded
      set_external_create_failed get_external_create_pending get_external_create_succeeded
      get_external_create_failed
  outcome_complete t u o h k le =
      let started = add_annotations ((key_external_create_pending, F.format t) ∷ []) o in
      let start = read_time-add key_external_create_pending key_external_create_pending t o h in
      (
        ground (
          arith,
          start,
          seconds_mono t u le,
          read_time-add key_external_create_succeeded key_external_create_pending u started k,
          read_time-add key_external_create_succeeded key_external_create_succeeded u started k,
        ),
        ground (
          arith,
          start,
          seconds_mono t u le,
          read_time-add key_external_create_failed key_external_create_pending u started k,
          read_time-add key_external_create_failed key_external_create_failed u started k,
        ),
        ground (arith, read-remove key_external_create_pending started, F.parse-empty),
      )
