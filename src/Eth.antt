-- ===== src/Eth.antt =====
-- The data of the Ethereum JSON-RPC interface (crates reth_rpc_types and reth_primitives) that
-- the program builds and reads. `RichBlock` is a `Block`: the program adds nothing to it.
use kakarot_rpc_adapter.Prelude.{ℕ, Bool, Option, List}
use kakarot_rpc_adapter.Types.{H64, H160, H256, Bloom, Bytes, U8, U64, U128, U256}

pub data BlockNumberOrTag : Type 0 where
  latest finalized safe earliest pending : BlockNumberOrTag
  number : U64 → BlockNumberOrTag

-- `hash` holds the field `block_hash` of an `RpcBlockHash`.
pub data BlockId : Type 0 where
  hash : H256 → BlockId
  number : BlockNumberOrTag → BlockId

-- reth_rpc_types::Signature
pub record Signature : Type 0 where
  pub r : U256
  pub s : U256
  pub v : U256

pub record Transaction : Type 0 where
  pub hash : H256
  pub nonce : U256
  pub block_hash : Option H256
  pub block_number : Option U256
  pub transaction_index : Option U256
  pub from : H160
  pub to : Option H160
  pub value : U256
  pub gas_price : Option U128
  pub gas : U256
  pub max_fee_per_gas : Option U128
  pub max_priority_fee_per_gas : Option U128
  pub input : Bytes
  pub signature : Option Signature
  pub chain_id : Option U64
  pub access_list : Option Bytes
  pub transaction_type : Option U64

pub data BlockTransactions : Type 0 where
  hashes : List H256 → BlockTransactions
  full : List Transaction → BlockTransactions
  uncle : BlockTransactions

pub record Header : Type 0 where
  pub hash : Option H256
  pub parent_hash : H256
  pub uncles_hash : H256
  pub miner : H160
  pub state_root : H256
  pub transactions_root : H256
  pub receipts_root : H256
  pub number : Option U256
  pub gas_used : U256
  pub gas_limit : U256
  pub extra_data : Bytes
  pub logs_bloom : Bloom
  pub timestamp : U256
  pub difficulty : U256
  pub nonce : Option H64
  pub base_fee_per_gas : Option U256
  pub mix_hash : H256
  pub withdrawals_root : Option H256

-- `withdrawals` counts the withdrawals of the list, which the program leaves empty.
pub record Block : Type 0 where
  pub header : Header
  pub total_difficulty : Option U256
  pub uncles : List H256
  pub transactions : BlockTransactions
  pub size : Option U256
  pub withdrawals : Option (List ℕ)

pub record Log : Type 0 where
  pub address : H160
  pub topics : List H256
  pub log_data : Bytes
  pub block_hash : Option H256
  pub block_number : Option U256
  pub transaction_hash : Option H256
  pub log_index : Option U256
  pub transaction_index : Option U256
  pub removed : Bool

pub record TransactionReceipt : Type 0 where
  pub transaction_hash : Option H256
  pub transaction_index : Option U256
  pub block_hash : Option H256
  pub block_number : Option U256
  pub from : H160
  pub to : Option H160
  pub cumulative_gas_used : U256
  pub gas_used : Option U256
  pub contract_address : Option H160
  pub logs : List Log
  pub logs_bloom : Bloom
  pub state_root : Option H256
  pub status_code : Option U64
  pub effective_gas_price : U128
  pub transaction_type : U8

pub record SyncInfo : Type 0 where
  pub starting_block : U256
  pub current_block : U256
  pub highest_block : U256
  pub warp_chunks_amount : Option U256
  pub warp_chunks_processed : Option U256

pub data SyncStatus : Type 0 where
  info : SyncInfo → SyncStatus
  none : SyncStatus

-- A ratio is counted in tenths.
pub record FeeHistory : Type 0 where
  pub base_fee_per_gas : List U256
  pub gas_used_ratio : List ℕ
  pub oldest_block : U256
  pub reward : Option (List ℕ)

-- The fields of a call request that the program reads.
pub record CallRequest : Type 0 where
  pub to : Option H160
  pub calldata : Option Bytes
