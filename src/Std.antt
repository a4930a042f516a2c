-- ===== src/Std.antt =====
-- The standard library of contracts (concordium-std/src).
pub mod Ord
pub mod BumpAlloc
pub mod BTree
