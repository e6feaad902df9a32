-- ===== src/Workqueue.antt =====
-- The rate limiter of pkg/workqueue/workqueue.go. Times are nanoseconds, the delays are not negative,
-- and the number of attempts does not overflow. A call of `When` reads the clock twice.
pub mod Delays
use unstructured_runtime.Prelude.{
  ℕ, ◌+◌, ◌-◌, ◌*◌, ◌%◌, ◌^◌, ◌≤◌, ◌<◌, ◌≡◌, Option, none, some, Bool, List, [], ◌∷◌, Comparable,
  ltb, if◌then◌else◌, find, insert, erase, not, ◌&&◌, leb, nat_beq,
}
use unstructured_runtime.Prelude.Int.{ℤ, pos, negsuc, sub_ℕ, ltb_ℤ}

-- Go's conversions between 64-bit integers and floats: `float64` keeps an integer up to 2^53, and
-- `int64` keeps a whole float below 2^63. What they do to other values, and to what is not a number,
-- is not fixed here.
pub record Floats : Type 0 where
  pub rounded : ℕ → ℕ
  pub rounded_exact : (n : ℕ) → n ≤ 2 ^ 53 → rounded n ≡ n
  pub truncated : ℕ → ℤ
  pub truncated_exact : (n : ℕ) → n < 2 ^ 63 → truncated n ≡ pos n
  pub truncated_nan : ℤ

pub record FailureRequest : Type 0 where
  pub attempts : ℕ
  pub last_attempt : ℕ

pub record Limiter (T : Type 0) : Type 0 where
  pub failures : List (T × FailureRequest)
  pub base_delay : ℕ
  pub max_delay : ℕ

unfoldable pub new_limiter : {T : Type 0} → ℕ → ℕ → Limiter T
new_limiter base max = record { failures = []; base_delay = base; max_delay = max }

-- The product of two 64-bit integers, wrapped.
unfoldable pub to_int64 : ℕ → ℤ
to_int64 n = let r = n % 2 ^ 64 in if ltb r (2 ^ 63) then pos r else negsuc (2 ^ 64 - 1 - r)

-- `time.Since`: a difference of times is cut at the ends of `int64`.
unfoldable pub saturated : ℤ → ℤ
saturated (pos n) = if ltb n (2 ^ 63) then pos n else pos (2 ^ 63 - 1)
saturated (negsuc n) = if ltb n (2 ^ 63) then negsuc n else negsuc (2 ^ 63 - 1)

-- More than `2*r.maxDelay` lies between the last attempt and now.
unfoldable pub is_stale : ℕ → FailureRequest → ℕ → Bool
unfolding to_int64 saturated
is_stale max f now = ltb_ℤ (to_int64 (2 * max)) (saturated (sub_ℕ now f.last_attempt))

-- Zero times the infinity that `math.Pow` gives from 2^1024 on is not a number.
unfoldable pub is_nan : ℕ → ℕ → Bool
is_nan base exp = nat_beq base 0 && leb 1024 exp

-- Otherwise the product is exact, since a float is doubled without rounding, or it is infinite, and so
-- above 2^63 as the product here is.
unfoldable pub backoff : Floats → ℕ → ℕ → ℕ → ℤ
unfolding is_nan
backoff F base max exp =
    let product = F.rounded base * 2 ^ exp in
    if not (is_nan (F.rounded base) exp) && ltb (2 ^ 63) product
    then pos max
    else let calculated =
        if is_nan (F.rounded base) exp then F.truncated_nan else F.truncated product in
      if ltb_ℤ (pos max) calculated then pos max else calculated

module _ {T : Type 0} ⦃e : Comparable T⦄ where
  abbrev pub put : T → ℕ → ℕ → Limiter T → Limiter T
  put item attempts now l = record l {
    failures = insert item (record { attempts = attempts; last_attempt = now }) l.failures;
  }

  unfoldable pub when : Floats → T → ℕ → ℕ → Limiter T → ℤ × Limiter T
  unfolding is_stale backoff
  when F item now later l = elim (find item l.failures) [
    | none ↦ (pos l.base_delay, put item 1 now l)
    | some f ↦
        if is_stale l.max_delay f now
        then (pos 0, l)
        else (backoff F l.base_delay l.max_delay f.attempts, put item (f.attempts + 1) later l)
  ]

  unfoldable pub num_requeues : T → Limiter T → ℕ
  num_requeues item l = elim (find item l.failures) [ none ↦ 0 | some f ↦ f.attempts ]

  -- The zero time of an item without failures decides nothing: there is nothing to delete.
  unfoldable pub forget : T → ℕ → Limiter T → Limiter T
  unfolding is_stale
  forget item now l = elim (find item l.failures) [
    | none ↦ l
    | some f ↦
        if is_stale l.max_delay f now then record l { failures = erase item l.failures } else l
  ]

  -- Calls of `When` for one item, in order, and the delays that they give.
  unfoldable pub when_all : Floats → T → List (ℕ × ℕ) → Limiter T → List ℤ × Limiter T
  unfolding when
  when_all F item [] l = ([], l)
  when_all F item ((now, later) ∷ calls) l =
      let (d, l') = when F item now later l in
      let (ds, l'') = when_all F item calls l' in (d ∷ ds, l'')
