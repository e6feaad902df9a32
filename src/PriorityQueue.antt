-- ===== src/PriorityQueue.antt =====
-- pkg/controller/priorityqueue/priorityqueue.go: the de-duplicating priority queue.
pub mod Item
pub mod Tree
pub mod State
pub mod Add
pub mod Invariant
pub mod Spin
pub mod Metrics
pub mod Calls
