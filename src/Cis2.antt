-- ===== src/Cis2.antt =====
-- The CIS-2 library (concordium-cis2/src/lib.rs): the token types and their serialization.
pub mod Common
pub mod Amount
pub mod TokenId
pub mod Hex
mod Samples
