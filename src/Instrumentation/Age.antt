-- ===== src/Instrumentation/Age.antt =====
-- The age that `recordOldestItemAge` of pkg/controller/queue_instrumentation.go reports.
use unstructured_runtime.Prelude.{
  ℕ, ◌-◌, ◌≤◌, ◌≡◌, refl, true, List, [], ◌∷◌, ◌⊎◌, inl, inr, ltb, if◌then◌else◌, arith, All,
  Bool-cases,
}
use unstructured_runtime.Instrumentation.{
  Tracker, record_queue_oldest_item_age, record_oldest_item_age, oldest_age,
}

abbrev larger : ℕ → ℕ → ℕ
larger a b = if ltb a b then b else a

module _ {T : Type 0} (now : ℕ) where
  -- The entries that are at most so old.
  abbrev AtMost : ℕ → List (T × ℕ) → Type 0
  AtMost age m = All (λ c. now - c.1 ≤ age) m

  oldest_above : (m : List (T × ℕ)) (a : ℕ) → a ≤ oldest_age now m a
  unfolding oldest_age
  oldest_above [] a = omega arith
  oldest_above ((item, t) ∷ m) a = ground (arith, oldest_above m (larger a (now - t)))

  oldest-AtMost : (m : List (T × ℕ)) (a : ℕ) → AtMost (oldest_age now m a) m
  unfolding oldest_age
  oldest-AtMost [] a = tt
  oldest-AtMost ((item, t) ∷ m) a =
      (ground (arith, oldest_above m (larger a (now - t))), oldest-AtMost m (larger a (now - t)))

  -- An entry of the list.
  pub data Has : T → ℕ → List (T × ℕ) → Type 0 where
    here : {item : T} {t : ℕ} {m : List (T × ℕ)} → Has item t ((item, t) ∷ m)
    there :
        {item other : T} {t u : ℕ} {m : List (T × ℕ)} → Has item t m → Has item t ((other, u) ∷ m)

  unfoldable pub Reached : List (T × ℕ) → ℕ → Type 0
  Reached m age = (item : T) × (t : ℕ) × Has item t m × (age ≡ now - t)

  Reached-there :
      (item : T) (t : ℕ) (m : List (T × ℕ)) (age : ℕ) → Reached m age → Reached ((item, t) ∷ m) age
  unfolding Reached
  Reached-there item t m age (i, u, h, eq) = (i, u, there h, eq)

  oldest-Reached :
      (m : List (T × ℕ)) (a : ℕ) → (oldest_age now m a ≡ a) ⊎ Reached m (oldest_age now m a)
  unfolding oldest_age
  oldest-Reached [] a = inl refl
  oldest-Reached ((item, t) ∷ m) a = elim (oldest-Reached m (larger a (now - t))) [
    | inr deeper ↦ inr (Reached-there item t m (oldest_age now m (larger a (now - t))) deeper)
    | inl same ↦ elim (Bool-cases (ltb a (now - t))) [
      | inl older ↦ inr (unfold Reached in (item, t, here, ground (arith, same, older)))
      | inr younger ↦ inl (ground (arith, same, younger))
    ]
  ]

  -- What is reported is the age of a tracked item, and no tracked item is older; nothing is reported
  -- when no tracked item has a positive age.
  pub oldest_item_age :
      (s : Tracker T)
      → s.has_recorder ≡ true
      → let age = oldest_age now s.enqueued_at 0 in
        All (λ c. now - c.1 ≤ age) s.enqueued_at
        × (((age ≡ 0) × (record_oldest_item_age now s ≡ s))
            ⊎ (Reached s.enqueued_at age
                × (record_oldest_item_age now s
                    ≡ record s { recorded = record_queue_oldest_item_age age ∷ s.recorded })))
  unfolding record_oldest_item_age
  oldest_item_age s has = (
    oldest-AtMost s.enqueued_at 0,
    elim (Bool-cases (ltb 0 (oldest_age now s.enqueued_at 0))) [
      | inr zero_age ↦ inl (ground (arith, zero_age), rw zero_age refl)
      | inl positive ↦ elim (oldest-Reached s.enqueued_at 0) [
        | inl same ↦ absurd (ground (arith, same, positive))
        | inr found ↦ inr (found, rw (positive, has) refl)
      ]
    ],
  )
