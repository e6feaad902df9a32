-- ===== src/PriorityQueue/Item.antt =====
-- `item` and `less` of pkg/controller/priorityqueue/priorityqueue.go. Instants are numbers, and
-- `ReadyAt` is a pointer that is nil for an item with no delay.
pub mod Order
use unstructured_runtime.Prelude.{
  ℕ, Option, none, some, Bool, true, false, ltb, nat_beq, not, if◌then◌else◌, ◌==◌,
}
use unstructured_runtime.Prelude.Int.{ℤ, ltb_ℤ, beq_ℤ}

pub record Item (T : Type 0) : Type 0 where
  pub key : T
  pub added_counter : ℕ
  pub priority : ℤ
  pub ready_at : Option ℕ

-- The two tests after the instants: priority first, then the order of arrival.
unfoldable pub less_ready : {T : Type 0} → Item T → Item T → Bool
less_ready a b =
    if not (beq_ℤ a.priority b.priority)
    then ltb_ℤ b.priority a.priority
    else ltb a.added_counter b.added_counter

less_at : {T : Type 0} → Option ℕ → Option ℕ → Item T → Item T → Bool
less_at none (some t) a b = true
less_at (some s) none a b = false
less_at (some s) (some t) a b = if not (nat_beq s t) then ltb s t else less_ready a b
less_at none none a b = less_ready a b

unfoldable pub less : {T : Type 0} → Item T → Item T → Bool
unfolding less_at less_ready
less a b = less_at a.ready_at b.ready_at a b
