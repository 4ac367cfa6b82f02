-- ===== src/Rpc/Unfinished.antt =====
-- The JSON-RPC methods of crates/eth-rpc/src/eth_rpc.rs that are refused by name or not written yet:
-- the body todo!() is a panic. The types that no other method reads are parameters.
use kakarot_rpc_adapter.Prelude.{ℕ, Bool, List, Option}
use kakarot_rpc_adapter.Types.{Bytes, H64, H160, H256, U256}
use kakarot_rpc_adapter.Errors.Codes.{ErrorObject}
use kakarot_rpc_adapter.Crates.{Crates}
use kakarot_rpc_adapter.Eth
use kakarot_rpc_adapter.Eth.{BlockId, BlockNumberOrTag}
use kakarot_rpc_adapter.Async.{Async, crash}
use kakarot_rpc_adapter.Rpc.{unsupported}

unfoldable pub author : Async ErrorObject H160
author = crash

unfoldable pub block_uncles_count_by_hash : H256 → Async ErrorObject U256
block_uncles_count_by_hash _ = crash

unfoldable pub block_uncles_count_by_number : BlockNumberOrTag → Async ErrorObject U256
block_uncles_count_by_number _ = crash

unfoldable pub uncle_by_block_hash_and_index : H256 → ℕ → Async ErrorObject (Option Eth.Block)
uncle_by_block_hash_and_index _ _ = crash

unfoldable pub uncle_by_block_number_and_index :
    BlockNumberOrTag → ℕ → Async ErrorObject (Option Eth.Block)
uncle_by_block_number_and_index _ _ = crash

unfoldable pub storage_at : H160 → U256 → Option BlockId → Async ErrorObject H256
storage_at _ _ _ = crash

unfoldable pub submit_hashrate : U256 → H256 → Async ErrorObject Bool
submit_hashrate _ _ = crash

unfoldable pub submit_work : H64 → H256 → H256 → Async ErrorObject Bool
submit_work _ _ _ = crash

unfoldable pub sign : H160 → Bytes → Async ErrorObject Bytes
sign _ _ = crash

unfoldable pub sign_transaction : Eth.CallRequest → Async ErrorObject Bytes
sign_transaction _ = crash

module _ (AccessListWithGasUsed TransactionRequest Value AccountProof : Type 0) where
  unfoldable pub create_access_list :
      Eth.CallRequest → Option BlockId → Async ErrorObject AccessListWithGasUsed
  create_access_list _ _ = crash

  unfoldable pub send_transaction : TransactionRequest → Async ErrorObject H256
  send_transaction _ = crash

  unfoldable pub sign_typed_data : H160 → Value → Async ErrorObject Bytes
  sign_typed_data _ _ = crash

  unfoldable pub get_proof : H160 → List H256 → Option BlockId → Async ErrorObject AccountProof
  get_proof _ _ _ = crash

unfoldable pub get_work : ⦃crates : Crates⦄ → {Work : Type 0} → Async ErrorObject Work
get_work =
    unsupported
      "Unsupported method: eth_getWork. See available methods at https://github.com/sayajin-labs/kakarot-rpc/blob/main/docs/rpc_api_status.md"
