-- ===== src/PriorityQueue/Add.antt =====
-- `AddWithOpts` of pkg/controller/priorityqueue/priorityqueue.go, one key after another.
pub mod Branches
pub mod Depth
pub mod Invariant
pub mod Merging
use unstructured_runtime.Prelude.{
  ℕ, suc, ◌+◌, ◌%◌, ◌^◌, ◌≡◌, Option, none, some, Bool, true, false, ◌&&◌, ◌||◌, not, List, [], ◌∷◌,
  Comparable, ◌==◌, ltb, if◌then◌else◌, update,
}
use unstructured_runtime.Prelude.Int.{ℤ, pos, ltb_ℤ, beq_ℤ, pos_part}
use unstructured_runtime.PriorityQueue.Item.{Item}
use unstructured_runtime.PriorityQueue.Tree.{BTree}
use unstructured_runtime.PriorityQueue.State.{
  RateLimiter, PriorityQueue, MetricCall, add, update_depth, retry,
}

pub record AddOpts : Type 0 where
  pub after : ℤ
  pub rate_limited : Bool
  pub priority : ℤ

abbrev pub is_nil : Option ℕ → Bool
is_nil none = true
is_nil (some t) = false

-- The delay that is used, and the rate limiter after it was asked.
unfoldable pub delay : {T : Type 0} (R : RateLimiter T) → AddOpts → T → R.State → ℤ × R.State
delay R o k limiter =
    if o.rate_limited
    then (
      if beq_ℤ o.after (pos 0) || ltb_ℤ (R.when k limiter).0 o.after
          then (R.when k limiter).0
          else o.after,
      (R.when k limiter).1,
    )
    else (o.after, limiter)

-- `readyAt`: nil unless the delay is positive.
unfoldable pub ready_instant : ℕ → ℤ → Option ℕ
ready_instant now after = if ltb_ℤ (pos 0) after then some (now + pos_part after) else none

-- `item.ReadyAt != nil && (readyAt == nil || readyAt.Before(*item.ReadyAt))`
unfoldable pub is_earlier : Option ℕ → Option ℕ → Bool
is_earlier ready none = false
is_earlier none (some t) = true
is_earlier (some r) (some t) = ltb r t

unfoldable pub raise_priority : {T : Type 0} → ℤ → Item T → Item T
raise_priority p it = if ltb_ℤ it.priority p then record it { priority = p } else it

unfoldable pub advance_ready : {T : Type 0} → Option ℕ → Item T → Item T
advance_ready ready it = if is_earlier ready it.ready_at then record it { ready_at = ready } else it

-- The metrics calls of the two changes; `became` is `becameReady.Has(key)`.
unfoldable pub note_raise :
    {T : Type 0} → ℤ → Bool → Item T → List (MetricCall T) → List (MetricCall T)
note_raise p became it calls =
    if ltb_ℤ it.priority p && (is_nil it.ready_at || became)
    then update_depth it.priority p ∷ calls
    else calls

unfoldable pub note_ready :
    {T : Type 0} → Option ℕ → Bool → Item T → List (MetricCall T) → List (MetricCall T)
note_ready ready became it calls =
    if is_earlier ready it.ready_at && (is_nil ready && not became)
    then add it.key it.priority ∷ calls
    else calls

module _ {T : Type 0} ⦃e : Comparable T⦄ {B : BTree T} {R : RateLimiter T} where
  unfoldable pub insert_new : AddOpts → T → Option ℕ → PriorityQueue B R → PriorityQueue B R
  insert_new o k ready s = record s {
    items = update s.items k (some item);
    queue = B.replace_or_insert item s.queue;
    metrics = if is_nil ready then add k o.priority ∷ s.metrics else s.metrics;
    added_counter = (s.added_counter + 1) % 2 ^ 64;
  }
    where
      item : Item T
      item = record {
        key = k;
        added_counter = s.added_counter;
        priority = o.priority;
        ready_at = ready;
      }

  unfoldable pub merge :
      AddOpts → T → Option ℕ → Item T → B.Tree → PriorityQueue B R → PriorityQueue B R
  merge o k ready it rest s =
      let raised = raise_priority o.priority it in
      let merged = advance_ready ready raised in
      record s {
        items = update s.items k (some merged);
        queue = B.replace_or_insert merged rest;
        metrics =
            note_ready ready (s.became_ready k) raised
              (note_raise o.priority (s.became_ready k) it s.metrics);
      }

  unfoldable pub with_delay : AddOpts → T → PriorityQueue B R → PriorityQueue B R
  unfolding delay
  with_delay o k s = record s {
    rate_limiter = (delay R o k s.rate_limiter).1;
    metrics = if ltb_ℤ (pos 0) (delay R o k s.rate_limiter).0 then retry ∷ s.metrics else s.metrics;
  }

  -- One round of the loop. `none` is the fault of reading through the nil pointer that `Delete`
  -- returns when the tree does not hold the item.
  unfoldable pub add_one : ℕ → AddOpts → T → PriorityQueue B R → Option (PriorityQueue B R)
  unfolding with_delay ready_instant insert_new merge
  add_one now o k s =
      let ready = ready_instant now (delay R o k s.rate_limiter).0 in
      elim (s.items k) [
        | none ↦ some (insert_new o k ready (with_delay o k s))
        | some old ↦ elim (B.delete old s.queue).0 [
          | none ↦ none
          | some it ↦ some (merge o k ready it (B.delete old s.queue).1 (with_delay o k s))
        ]
      ]

  -- The clock is read once in each round.
  unfoldable pub add_all :
      (ℕ → ℕ) → AddOpts → List T → PriorityQueue B R → Option (PriorityQueue B R)
  add_all clock o [] s = some s
  add_all clock o (k ∷ ks) s = elim (add_one (clock 0) o k s) [
    | none ↦ none
    | some s' ↦ add_all (λ n. clock (suc n)) o ks s'
  ]

  unfoldable pub notify : PriorityQueue B R → PriorityQueue B R
  notify s = record s { notified = true }

  unfoldable pub add_with_opts :
      (ℕ → ℕ) → AddOpts → List T → PriorityQueue B R → Option (PriorityQueue B R)
  add_with_opts clock o ks s =
      let added = add_all clock o ks s in
      if s.shutdown
      then some s
      else elim ks [ [] ↦ added | _ ∷ _ ↦ elim added [ none ↦ none | some s' ↦ some (notify s') ] ]
