-- ===== src/Models.antt =====
-- crates/core/src/models: Starknet data and its conversion to Ethereum data.
pub mod Felt
pub mod Balance
pub mod Event
pub mod Signature
pub mod Transaction
pub mod Block
