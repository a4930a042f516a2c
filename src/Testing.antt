-- ===== src/Testing.antt =====
-- The crate contract-testing: a local chain for testing smart contracts.
pub mod Sdk
pub mod Delta
pub mod Types
pub mod ChangeSet
pub mod Handler
pub mod States
pub mod Persist
pub mod Energy
pub mod Chain
pub mod Deploy
pub mod Init
pub mod Update
mod Samples
