-- ===== src/Client/WellFormed.antt =====
-- When the data that the client gives is well formed: the widths of hashes, addresses and words, and
-- that what stands in a block names that block. It is about crates/core/src/client/mod.rs and the
-- conversions of crates/core/src/models that it calls.
pub mod Words
pub mod Transactions
pub mod Blocks
pub mod Receipts
pub mod Accounts
use kakarot_rpc_adapter.Prelude.{ℕ, ◌^◌, ◌<◌, ◌≡◌, Bool, true, false, List, All, Option, none, some}
use kakarot_rpc_adapter.Prelude.Bytes.{IsBytes}
use kakarot_rpc_adapter.Types.{H256, U256, IsArray}
use kakarot_rpc_adapter.Eth
use kakarot_rpc_adapter.Eth.{BlockTransactions}
use kakarot_rpc_adapter.Async.Yields.{Given}
use kakarot_rpc_adapter.Client.Constants

abbrev pub IsWord : ℕ → Type 0
IsWord v = v < 2 ^ 256

-- A transaction at that place.
pub record IsTransaction (block_hash : Option H256) (block_number transaction_index : Option U256)
    (tx : Eth.Transaction) : Type 0 where
  pub hash : IsArray 32 tx.hash
  pub nonce : IsWord tx.nonce
  pub from : IsArray 20 tx.from
  pub input : IsBytes tx.input
  pub in_block : tx.block_hash ≡ block_hash
  pub at_number : tx.block_number ≡ block_number
  pub at_index : tx.transaction_index ≡ transaction_index
  pub chain_id : tx.chain_id ≡ some Constants.chain_id

-- A transaction in some block or in none, at that index.
abbrev pub IsPlaced : Option U256 → Eth.Transaction → Type 0
IsPlaced index tx =
    IsTransaction tx.block_hash tx.block_number index tx × Given (IsArray 32) tx.block_hash

-- The transactions of a block with that hash and number: themselves, or their hashes.
abbrev pub AreTransactions : Bool → Option H256 → Option U256 → BlockTransactions → Type 0
AreTransactions false hash number (BlockTransactions.hashes hs) = All (IsArray 32) hs
AreTransactions true hash number (BlockTransactions.full txs) =
    All (IsTransaction hash number none) txs
AreTransactions _ hash number _ = ⊥

-- A block with its transactions, or with their hashes.
pub record IsBlock (full : Bool) (b : Eth.Block) : Type 0 where
  pub hash : Given (IsArray 32) b.header.hash
  pub parent_hash : IsArray 32 b.header.parent_hash
  pub miner : IsArray 20 b.header.miner
  pub transactions : AreTransactions full b.header.hash b.header.number b.transactions

pub record IsLog (log : Eth.Log) : Type 0 where
  pub address : IsArray 20 log.address
  pub topics : All (IsArray 32) log.topics
  pub log_data : IsBytes log.log_data

pub record IsReceipt (r : Eth.TransactionReceipt) : Type 0 where
  pub transaction_hash : Given (IsArray 32) r.transaction_hash
  pub block_hash : Given (IsArray 32) r.block_hash
  pub block_number : Given IsWord r.block_number
  pub from : IsArray 20 r.from
  pub contract_address : Given (IsArray 20) r.contract_address
  pub logs : All IsLog r.logs
  pub status_code : Given (λ c. c < 2) r.status_code
