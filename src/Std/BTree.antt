-- ===== src/Std/BTree.antt =====
-- The ordered set of the standard library (concordium-std/src/state_btree.rs).
pub mod Node
pub mod Sorted
pub mod Search
pub mod View
pub mod Iter
pub mod Slots
pub mod Frame
pub mod Insert
pub mod Remove
pub mod Merge
pub mod Leaf
pub mod Tree
pub mod Samples
