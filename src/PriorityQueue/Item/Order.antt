-- ===== src/PriorityQueue/Item/Order.antt =====
-- `less` is a strict order that tells items with different counters apart.
use unstructured_runtime.Prelude.{ℕ, ◌≡◌, ◌≢◌, true, false, arith, none, some, Option}
use unstructured_runtime.PriorityQueue.Item.{Item, less, less_at, less_ready}

module _ {T : Type 0} where
  pub less_irrefl : (a : Item T) → less a a ≡ false
  unfolding less
  less_irrefl a = ground arith

  less_ready_trans :
      (a b c : Item T) → less_ready a b ≡ true → less_ready b c ≡ true → less_ready a c ≡ true
  unfolding less_ready
  less_ready_trans a b c h k = ground arith

  less_at_trans :
      (r s t : Option ℕ) (a b c : Item T)
      → less_at r s a b ≡ true
      → less_at s t b c ≡ true
      → less_at r t a c ≡ true
  unfolding less_at
  less_at_trans none none none a b c h k = less_ready_trans a b c h k
  less_at_trans none none (some t) a b c h k = ground arith
  less_at_trans none (some s) none a b c h k = ground arith
  less_at_trans none (some s) (some t) a b c h k = ground arith
  less_at_trans (some r) none none a b c h k = ground arith
  less_at_trans (some r) none (some t) a b c h k = ground arith
  less_at_trans (some r) (some s) none a b c h k = ground arith
  less_at_trans (some r) (some s) (some t) a b c h k = ground (arith, less_ready_trans a b c)

  pub less_trans : (a b c : Item T) → less a b ≡ true → less b c ≡ true → less a c ≡ true
  unfolding less
  less_trans a b c h k = less_at_trans a.ready_at b.ready_at c.ready_at a b c h k

  pub less_asym : (a b : Item T) → less a b ≡ true → less b a ≡ false
  unfolding less
  less_asym a b h = ground arith

  pub less_total :
      (a b : Item T) → a.added_counter ≢ b.added_counter → less a b ≡ false → less b a ≡ true
  unfolding less
  less_total a b n h = ground arith
