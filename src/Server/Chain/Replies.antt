-- ===== src/Server/Chain/Replies.antt =====
-- The implementation of the queries for blocks, transactions and receipts: the methods of the server,
-- crates/eth-rpc/src/eth_rpc.rs and crates/eth-rpc/src/eth_api.rs.
use kakarot_rpc_adapter.Types.{IsArray}
use kakarot_rpc_adapter.Errors.Codes.{ErrorObject}
use kakarot_rpc_adapter.Crates.{Crates}
use kakarot_rpc_adapter.Eth.{BlockId}
use kakarot_rpc_adapter.Async.{Async}
use kakarot_rpc_adapter.Client.Contracts.{KakarotClient}
use kakarot_rpc_adapter.Client.Provider.{kakarot_provider}
use kakarot_rpc_adapter.Server.{Method, JsonTypes, serve}
use kakarot_rpc_adapter.Server.Chain.Queries.{
  receipt, newest_number, Query, Shown, block, transaction_count, transaction_at, transaction,
}

module _ ⦃crates : Crates⦄ (types : JsonTypes) (client : KakarotClient) where
  -- The implementation: the server's method for each query.
  unfoldable pub reply : (q : Query) → Async ErrorObject (Shown q)
  reply (block (BlockId.hash h) full) =
      serve types (kakarot_provider client) Method.block_by_hash (h, full)
  reply (block (BlockId.number n) full) =
      serve types (kakarot_provider client) Method.block_by_number (n, full)
  reply (transaction_count (BlockId.hash h)) =
      serve types (kakarot_provider client) Method.block_transaction_count_by_hash h
  reply (transaction_count (BlockId.number n)) =
      serve types (kakarot_provider client) Method.block_transaction_count_by_number n
  reply (transaction_at (BlockId.hash h) index) =
      serve types (kakarot_provider client) Method.transaction_by_block_hash_and_index (h, index)
  reply (transaction_at (BlockId.number n) index) =
      serve types (kakarot_provider client) Method.transaction_by_block_number_and_index (n, index)
  reply (transaction h) = serve types (kakarot_provider client) Method.transaction_by_hash h
  reply (receipt h) = serve types (kakarot_provider client) Method.transaction_receipt h
  reply newest_number = serve types (kakarot_provider client) Method.block_number tt

-- The hashes of a query have 32 bytes.
abbrev pub IsBlockId : BlockId → Type 0
IsBlockId (BlockId.hash h) = IsArray 32 h
IsBlockId (BlockId.number n) = Unit

abbrev pub IsQuery : Query → Type 0
IsQuery (block id full) = IsBlockId id
IsQuery (transaction_count id) = IsBlockId id
IsQuery (transaction_at id index) = IsBlockId id
IsQuery (transaction h) = IsArray 32 h
IsQuery (receipt h) = IsArray 32 h
IsQuery newest_number = Unit
