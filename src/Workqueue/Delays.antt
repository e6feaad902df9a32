-- ===== src/Workqueue/Delays.antt =====
-- The delays that `When` of pkg/workqueue/workqueue.go gives, and what `Forget` forgets.
use mathlib.Core.Path.{ap₂}
use unstructured_runtime.Prelude.{
  ℕ, suc, ◌+◌, ◌*◌, ◌^◌, ◌≤◌, ◌<◌, ◌≡◌, ◌≢◌, refl, ap, ◌∙◌, none, some, true, false, List, [], ◌∷◌,
  Comparable, ltb, leb, if◌then◌else◌, arith, All, find, Bool-cases, map, inl, inr, find-insert,
  equals_refl,
}
use unstructured_runtime.Prelude.Int.{ℤ, pos, ltb_ℤ}
use unstructured_runtime.Workqueue.{
  Floats, FailureRequest, Limiter, put, is_stale, is_nan, backoff, when, when_all,
}

-- The delay of the attempt after `n` others: doubled each time, up to the largest.
unfoldable pub doubled : ℕ → ℕ → ℕ → ℤ
doubled base max n = if leb (base * 2 ^ n) max then pos (base * 2 ^ n) else pos max

unfoldable pub series : ℕ → ℕ → ℕ → List (ℕ × ℕ) → List ℤ
unfolding doubled
series base max n [] = []
series base max n (c ∷ calls) = doubled base max n ∷ series base max (suc n) calls

-- Each call comes within the window after the one before it.
unfoldable pub IsRecent : ℕ → FailureRequest → List (ℕ × ℕ) → Type 0
IsRecent max f [] = Unit
IsRecent max f ((now, later) ∷ calls) =
    (is_stale max f now ≡ false)
    × IsRecent max (record { attempts = f.attempts + 1; last_attempt = later }) calls

-- The delays for which the float arithmetic is exact.
pub record IsExact (base max : ℕ) : Type 0 where
  pub base_positive : 0 < base
  pub base_small : base ≤ 2 ^ 53
  pub max_small : max < 2 ^ 63
  pub never_limit : (n : ℕ) → base * 2 ^ n ≢ 2 ^ 63

capped :
    (F : Floats) (max p : ℕ)
    → max < 2 ^ 63
    → p ≢ 2 ^ 63
    → (if ltb (2 ^ 63) p
        then pos max
        else if ltb_ℤ (pos max) (F.truncated p)
        then pos max
        else F.truncated p)
      ≡ (if leb p max then pos p else pos max)
capped F max p small apart = elim (Bool-cases (ltb p (2 ^ 63))) [
  | inl below ↦ rw (F.truncated_exact p (ground (arith, below))) (ground (arith, below))
  | inr above ↦ ground (arith, above, apart, small)
]

module _ (F : Floats) (base max : ℕ) (x : IsExact base max) where
  never_nan : (n : ℕ) → is_nan base n ≡ false
  unfolding is_nan
  never_nan n = ground (arith, x.base_positive)

  backoff-doubled : (n : ℕ) → backoff F base max n ≡ doubled base max n
  unfolding backoff doubled
  backoff-doubled n =
      rw (F.rounded_exact base x.base_small, never_nan n)
        (capped F max (base * 2 ^ n) x.max_small (x.never_limit n))

module _ {T : Type 0} ⦃e : Comparable T⦄ (F : Floats) (item : T) where
  module _ (l : Limiter T) (f : FailureRequest) (found : find item l.failures ≡ some f) where
    when_recent :
        (now later : ℕ)
        → is_stale l.max_delay f now ≡ false
        → when F item now later l
          ≡ (backoff F l.base_delay l.max_delay f.attempts, put item (f.attempts + 1) later l)
    unfolding when
    when_recent now later h = rw (found, h, when) refl

    when_stale :
        (now later : ℕ) → is_stale l.max_delay f now ≡ true → when F item now later l ≡ (pos 0, l)
    unfolding when
    when_stale now later h = rw (found, h, when) refl

  when_new :
      (now later : ℕ) (l : Limiter T)
      → find item l.failures ≡ none
      → when F item now later l ≡ (pos l.base_delay, put item 1 now l)
  unfolding when
  when_new now later l h = rw (h, when) refl

  find-put :
      (attempts now : ℕ) (l : Limiter T)
      → find item (put item attempts now l).failures
        ≡ some (record { attempts = attempts; last_attempt = now })
  find-put attempts now l = ground (
    arith,
    find-insert item item (record { attempts = attempts; last_attempt = now }) l.failures,
    equals_refl item,
  )

  all_cons :
      (now later : ℕ) (calls : List (ℕ × ℕ)) (l : Limiter T) (p : ℤ × Limiter T)
      → when F item now later l ≡ p
      → when_all F item ((now, later) ∷ calls) l
        ≡ (p.0 ∷ (when_all F item calls p.1).0, (when_all F item calls p.1).1)
  unfolding when_all
  all_cons now later calls l p h = rw h refl

  recent_series :
      (calls : List (ℕ × ℕ)) (l : Limiter T) (f : FailureRequest)
      → IsExact l.base_delay l.max_delay
      → find item l.failures ≡ some f
      → IsRecent l.max_delay f calls
      → (when_all F item calls l).0 ≡ series l.base_delay l.max_delay f.attempts calls
  unfolding series IsRecent
  recent_series [] l f x found h = unfold when_all in refl
  recent_series ((now, later) ∷ calls) l f x found (near, rest) =
      ap (λ p. p.0)
        (all_cons now later calls l
          (backoff F l.base_delay l.max_delay f.attempts, put item (f.attempts + 1) later l)
          (when_recent l f found now later near))
      ∙ ap₂ (λ d ds. d ∷ ds) (backoff-doubled F l.base_delay l.max_delay x f.attempts)
          (recent_series calls (put item (f.attempts + 1) later l)
              (record { attempts = f.attempts + 1; last_attempt = later }) x
              (find-put (f.attempts + 1) later l) rest
            ∙ ap (λ n. series l.base_delay l.max_delay n calls) (omega arith))

  -- Failures that follow each other within the window are given the base delay, doubled each time, and
  -- never more than the largest delay: the float arithmetic loses nothing and nothing overflows, when
  -- the base delay is positive, at most 2^53 ns and the largest delay, which is below 2^63, and no power
  -- of two makes it 2^63.
  pub when_all-doubled :
      (l : Limiter T) (now later : ℕ) (calls : List (ℕ × ℕ))
      → IsExact l.base_delay l.max_delay
      → l.base_delay ≤ l.max_delay
      → find item l.failures ≡ none
      → IsRecent l.max_delay (record { attempts = 1; last_attempt = now }) calls
      → (when_all F item ((now, later) ∷ calls) l).0
        ≡ series l.base_delay l.max_delay 0 ((now, later) ∷ calls)
  unfolding series doubled
  when_all-doubled l now later calls x small fresh recent =
      ap (λ p. p.0)
        (all_cons now later calls l (pos l.base_delay, put item 1 now l)
          (when_new now later l fresh))
      ∙ ap₂ (λ d ds. d ∷ ds) (ground (arith, small))
          (recent_series calls (put item 1 now l) (record { attempts = 1; last_attempt = now }) x
            (find-put 1 now l) recent)

  -- After the window has passed since the last failure of an item, every further failure is given no
  -- delay at all, and the calls of `When` change nothing: the record of the item stays, with its count.
  pub when_all_stale :
      (l : Limiter T) (f : FailureRequest) (calls : List (ℕ × ℕ))
      → find item l.failures ≡ some f
      → All (λ c. is_stale l.max_delay f c.0 ≡ true) calls
      → when_all F item calls l ≡ (map (λ c. pos 0) calls, l)
  when_all_stale l f [] found h = unfold when_all in refl
  when_all_stale l f ((now, later) ∷ calls) found (late, rest) =
      all_cons now later calls l (pos 0, l) (when_stale l f found now later late)
      ∙ ap (λ p. (pos 0 ∷ p.0, p.1)) (when_all_stale l f calls found rest)
