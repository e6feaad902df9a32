-- ===== src/Unstructured/Conditions/Roundtrip.antt =====
-- What `GetConditions` reads of what `SetConditions` wrote
-- (pkg/tools/unstructured/unstructured.go).
use mathlib.Core.List.{append-nil, append_assoc}
use unstructured_runtime.Prelude.{
  ℕ, ◌<◌, ◌≡◌, ◌≢◌, refl, sym, ap, ◌∙◌, none, some, Bool, true, false, List, [], ◌∷◌, ◌++◌, map,
  String, ◌==◌, string_eq, if◌then◌else◌, inl, inr, arith, All, subst, Bool-cases,
}
use unstructured_runtime.Prelude.Int.{ℤ, pos}
use unstructured_runtime.Meta.{TimeFormat}
use unstructured_runtime.Meta.Tracking.{seconds}
use unstructured_runtime.Condition.{Condition, upsert, upsert_all}
use unstructured_runtime.Unstructured.{Value, Items, Fields, text, array, cons, lookup}
use unstructured_runtime.Unstructured.Native.{is_native, is_native_items, is_native_fields}
use unstructured_runtime.Unstructured.Nested.{set_nested_field_no_copy, value_at, is_open, Written}
use unstructured_runtime.Unstructured.Nested.Laws.{set_from-Written, set_from_open}
use unstructured_runtime.Unstructured.Conditions.{
  crashes, reads, read_times, read_texts, read_fields, read_condition, collect, time_value,
  generation_fields, condition_value, condition_items, Encoding, changed, get_conditions,
  write_conditions, set_conditions, written,
}

module _ (F : TimeFormat) where
  -- A time that the encoding keeps, up to its part of a second; the generation is not read.
  abbrev pub IsDated : Condition → Type 0
  IsDated c = (c.last_transition_time ≢ 0) × (c.last_transition_time < F.limit)

  abbrev pub as_read : Condition → Condition
  as_read c = record c {
    observed_generation = pos 0;
    last_transition_time = seconds c.last_transition_time;
  }

  dated_value : (t : ℕ) → t ≢ 0 → time_value F t ≡ text (F.format t)
  dated_value t h = ground (arith, h)

  read_times-parsed :
      (type status reason message t : String) (tm : ℕ)
      → F.parse t ≡ some tm
      → read_times F type status reason message t
        ≡ reads (record {
          type = type;
          status = status;
          observed_generation = pos 0;
          last_transition_time = tm;
          reason = reason;
          message = message;
        })
  unfolding read_times
  read_times-parsed type status reason message t tm h = rw (h, read_times) refl

  collect_step :
      (x : List Condition) (item : Value) (items : Items) (c : Condition)
      → read_condition F item ≡ reads c
      → collect F x (cons item items) ≡ collect F (x ++ c ∷ []) items
  unfolding collect
  collect_step x item items c h = rw (h, collect) refl

  collect_crash :
      (x : List Condition) (item : Value) (items : Items)
      → read_condition F item ≡ crashes
      → collect F x (cons item items) ≡ none
  unfolding collect
  collect_crash x item items h = rw (h, collect) refl

  time_native : (t : ℕ) → is_native (time_value F t) ≡ true
  unfolding is_native
  time_native t = ground arith

  module _ (gen : ℤ → Value) (gen_native : (g : ℤ) → is_native (gen g) ≡ true) where
    read-condition_value :
        (c : Condition) → IsDated c → read_condition F (condition_value F gen c) ≡ reads (as_read c)
    unfolding read_condition read_fields read_texts lookup
    read-condition_value c h = rw (dated_value c.last_transition_time h.0) (
        read_times-parsed c.type c.status c.reason c.message (F.format c.last_transition_time) _
          (F.parse-format c.last_transition_time h.1))

    condition_items_lem :
        (c : Condition) (cs : List Condition)
        → condition_items F gen (c ∷ cs) ≡ cons (condition_value F gen c) (condition_items F gen cs)
    unfolding condition_items
    condition_items_lem c cs = refl

    generation_native : (g : ℤ) → is_native_fields (generation_fields F gen g) ≡ true
    unfolding is_native
    generation_native g = ground (arith, gen_native g)

    condition_value-native : (c : Condition) → is_native (condition_value F gen c) ≡ true
    unfolding is_native
    condition_value-native c =
        ground (arith, time_native c.last_transition_time, generation_native c.observed_generation)

    condition_items-is_native :
        (cs : List Condition) → is_native_items (condition_items F gen cs) ≡ true
    unfolding condition_items is_native
    condition_items-is_native [] = refl
    condition_items-is_native (c ∷ cs) =
        ground (arith, condition_items-is_native cs, condition_value-native c)

    collect-condition_items :
        (x cs : List Condition)
        → All IsDated cs
        → collect F x (condition_items F gen cs) ≡ some (x ++ map as_read cs)
    collect-condition_items x [] h = unfold collect condition_items in ap some (sym (append-nil x))
    collect-condition_items x (c ∷ cs) (dated, rest) =
        collect_items x c cs
        ∙ collect_step x (condition_value F gen c) (condition_items F gen cs) (as_read c)
            (read-condition_value c dated)
        ∙ collect-condition_items (x ++ as_read c ∷ []) cs rest
        ∙ ap some (append_assoc x (as_read c ∷ []) (map as_read cs))
      where
        collect_items :
            (x : List Condition) (c : Condition) (cs : List Condition)
            → collect F x (condition_items F gen (c ∷ cs))
              ≡ collect F x (cons (condition_value F gen c) (condition_items F gen cs))
        collect_items x c cs = ap (collect F x) (condition_items_lem c cs)

    -- A condition with a zero time is written as null, on which reading it panics.
    read_zero :
        (c : Condition)
        → c.last_transition_time ≡ 0
        → read_condition F (condition_value F gen c) ≡ crashes
    unfolding read_condition read_fields read_texts read_times lookup
    read_zero c h = ground (arith, h)

    collect_zero :
        (x pre post : List Condition) (c : Condition)
        → All IsDated pre
        → c.last_transition_time ≡ 0
        → collect F x (condition_items F gen (pre ++ c ∷ post)) ≡ none
    collect_zero x [] post c h zero_time =
        ap (collect F x) (condition_items_lem c post) ∙ collect_crash x _ _ (read_zero c zero_time)
    collect_zero x (d ∷ pre) post c (dated, rest) zero_time =
        ap (collect F x) (condition_items_lem d (pre ++ c ∷ post))
        ∙ collect_step x (condition_value F gen d) _ (as_read d) (read-condition_value d dated)
        ∙ collect_zero (x ++ as_read d ∷ []) pre post c rest zero_time

  upsert-All :
      (P : Condition → Type 0) (c : Condition) (cs : List Condition)
      → P c
      → All P cs
      → All P (upsert c cs)
  unfolding upsert
  upsert-All P c [] p h = (p, tt)
  upsert-All P c (d ∷ ds) p (q, h) =
      upsert_step (d.type == c.type) (p, h) (q, upsert-All P c ds p h)
    where
      upsert_step :
          (b : Bool)
          → All P (c ∷ ds)
          → All P (d ∷ upsert c ds)
          → All P (if b then c ∷ ds else d ∷ upsert c ds)
      upsert_step true v w = v
      upsert_step false v w = w

  upsert_all-All :
      (P : Condition → Type 0) (ds cs : List Condition)
      → All P ds
      → All P cs
      → All P (upsert_all ds cs)
  unfolding upsert_all
  upsert_all-All P [] cs v h = h
  upsert_all-All P (d ∷ ds) cs (p, v) h =
      upsert_all-All P ds (upsert d cs) v (upsert-All P d cs p h)

  -- A list that starts with a condition.
  abbrev Starts : List Condition → Type 0
  Starts cs = (c : Condition) × (rest : List Condition) × (cs ≡ c ∷ rest)

  upsert-Starts : (d : Condition) (cs : List Condition) → Starts (upsert d cs)
  unfolding upsert
  upsert-Starts d [] = (d, [], refl)
  upsert-Starts d (c ∷ cs) = elim (Bool-cases (c.type == d.type)) [
    | inl eq ↦ (d, cs, ground (arith, eq))
    | inr ne ↦ (c, upsert d cs, ground (arith, ne))
  ]

  upsert_all-Starts :
      (ds : List Condition) (cs : List Condition) → Starts cs → Starts (upsert_all ds cs)
  unfolding upsert_all
  upsert_all-Starts [] cs s = s
  upsert_all-Starts (d ∷ ds) cs s = upsert_all-Starts ds (upsert d cs) (upsert-Starts d cs)

  module _ (E : Encoding F) where
    encoded :
        (cs : List Condition)
        → Starts cs
        → E.encode_struct cs ≡ some (array (condition_items F E.generation cs))
    encoded cs (c, rest, eq) =
        subst (λ l. E.encode_struct l ≡ some (array (condition_items F E.generation l))) (sym eq)
          (E.encode_struct_lem c rest)

    array_native :
        (cs : List Condition) → is_native (array (condition_items F E.generation cs)) ≡ true
    array_native cs =
        unfold is_native in condition_items-is_native E.generation E.generation-native cs

    write-conditions :
        (cs : List Condition) (m m' : Fields)
        → Starts cs
        → set_nested_field_no_copy
            (array (condition_items F E.generation cs))
            ("status" ∷ [])
            "conditions"
            m
          ≡ inr m'
        → write_conditions F E cs m ≡ changed m'
    unfolding write_conditions
    write-conditions cs m m' starts set =
        rw (encoded cs starts, write_conditions)
          (ap (written F E)
            (E.set_nested_field-native _ ("status" ∷ []) "conditions" m (array_native cs) ∙ set))

    read-back :
        (cs : List Condition) (m' : Fields)
        → All IsDated cs
        → value_at ("status" ∷ []) "conditions" m'
          ≡ some (array (condition_items F E.generation cs))
        → get_conditions F E (some m') ≡ some (map as_read cs)
    unfolding get_conditions
    read-back cs m' dated there =
        ap (collect F []) (
          E.nested_slice-found ("status" ∷ []) "conditions" m' (condition_items F E.generation cs)
            (condition_items-is_native E.generation E.generation-native cs) there)
        ∙ collect-condition_items E.generation E.generation-native [] cs dated

    set_conditions_reading :
        (ds cs : List Condition) (m : Fields)
        → get_conditions F E (some m) ≡ some cs
        → set_conditions F E ds m ≡ write_conditions F E (upsert_all ds cs) m
    unfolding set_conditions
    set_conditions_reading ds cs m h = rw (h, set_conditions) refl

    -- On an object whose status is a map, or is absent, and whose conditions are read without a panic,
    -- `SetConditions` of at least one condition succeeds, and what `GetConditions` reads then is what
    -- `Upsert` makes of the conditions of before, in order, with the times at whole seconds and
    -- without the observed generations, as long as the times are not zero and can be written.
    pub get-set_conditions :
        (d : Condition) (ds cs : List Condition) (m : Fields)
        → is_open ("status" ∷ []) m ≡ true
        → get_conditions F E (some m) ≡ some cs
        → All IsDated (d ∷ ds)
        → All IsDated cs
        → (m' : Fields) × (set_conditions F E (d ∷ ds) m ≡ changed m')
          × (get_conditions F E (some m') ≡ some (map as_read (upsert_all (d ∷ ds) cs)))
    get-set_conditions d ds cs m open_path before dated_new dated_old =
        let now = upsert_all (d ∷ ds) cs in
        let starts : Starts now =
          unfold upsert_all in upsert_all-Starts ds (upsert d cs) (upsert-Starts d cs) in
        let res = array (condition_items F E.generation now) in
        let (m', set) = set_from_open [] res ("status" ∷ []) "conditions" m open_path in
        let facts = set_from-Written [] res ("status" ∷ []) "conditions" m m' set in
        (
          m',
          set_conditions_reading (d ∷ ds) cs m before
              ∙ write-conditions now m m' starts (unfold set_nested_field_no_copy in set),
          read-back now m' (upsert_all-All IsDated (d ∷ ds) cs dated_new dated_old)
              (unfold Written in facts.0),
        )

    -- Where the written conditions hold one with the zero time, behind others with a time,
    -- `GetConditions` panics.
    pub get_conditions_zero :
        (pre post : List Condition) (c : Condition) (m : Fields)
        → value_at ("status" ∷ []) "conditions" m
          ≡ some (array (condition_items F E.generation (pre ++ c ∷ post)))
        → All IsDated pre
        → c.last_transition_time ≡ 0
        → get_conditions F E (some m) ≡ none
    unfolding get_conditions
    get_conditions_zero pre post c m there dated zero_time =
        ap (collect F []) (
          E.nested_slice-found ("status" ∷ []) "conditions" m
            (condition_items F E.generation (pre ++ c ∷ post))
            (condition_items-is_native E.generation E.generation-native (pre ++ c ∷ post)) there)
        ∙ collect_zero E.generation E.generation-native [] pre post c dated zero_time
