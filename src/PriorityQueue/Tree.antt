-- ===== src/PriorityQueue/Tree.antt =====
-- The ordered tree that the queue keeps its items in (`bTree` of
-- pkg/controller/priorityqueue/priorityqueue.go). The tree itself is the third-party package
-- github.com/google/btree: an interface, with what that package documents as laws.
pub mod Lists
pub mod Order
pub mod Lookup
pub mod Tally
pub use Lists.{same, put, find_equal, take_out, lookup_key, tally, Fresh, Distinct, Sorted}
unfoldable pub use Lists.{put, find_equal, take_out, lookup_key, tally}
pub use Order.{put-All, take_out-All, put-Sorted, take_out-Sorted, put-Distinct, take_out-Distinct}
pub use Lookup.*
pub use Tally.*
use unstructured_runtime.Prelude.{◌≡◌, refl, Option, List, []}
use unstructured_runtime.PriorityQueue.Item.{Item}

pub record BTree (T : Type 0) : Type 1 where
  pub Tree : Type 0
  pub empty : Tree
  pub replace_or_insert : Item T → Tree → Tree
  -- The item that was found, and the tree without it.
  pub delete : Item T → Tree → Option (Item T) × Tree
  pub ascend : Tree → List (Item T)
  pub ascend-empty : ascend empty ≡ []
  pub ascend-replace_or_insert :
      (x : Item T) (t : Tree) → ascend (replace_or_insert x t) ≡ put x (ascend t)
  pub delete-found : (x : Item T) (t : Tree) → (delete x t).0 ≡ find_equal x (ascend t)
  pub ascend-delete : (x : Item T) (t : Tree) → ascend (delete x t).1 ≡ take_out x (ascend t)

-- A sorted list meets the interface.
unfoldable pub list_tree : (T : Type 0) → BTree T
list_tree T = record {
  Tree = List (Item T);
  empty = [];
  replace_or_insert = put;
  delete = λ x t. (find_equal x t, take_out x t);
  ascend = λ t. t;
  ascend-empty = refl;
  ascend-replace_or_insert = λ x t. refl;
  delete-found = λ x t. refl;
  ascend-delete = λ x t. refl;
}
