-- ===== src/Client.antt =====
-- crates/core/src/client: the client of the Starknet node, and its helpers.
pub mod Constants
pub mod Calls
pub mod Config
pub mod Decode
pub mod Helpers
pub mod Api
pub mod Contracts
pub mod Transactions
pub mod Receipts
pub mod Chain
pub mod Tokens
pub mod Provider
pub mod ReadOnly
pub mod WellFormed
pub mod Panics
