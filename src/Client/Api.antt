-- ===== src/Client/Api.antt =====
-- The trait `KakarotProvider` of crates/core/src/client/client_api.rs. The conversions of the
-- models take a client `&dyn KakarotProvider`, and the client's methods call the conversions with
-- `self`; so its methods are grouped by what the conversions of one kind need: transactions, then
-- blocks, then the rest, which the RPC server calls.
use kakarot_rpc_adapter.Prelude.{ℕ, Bool, List, Option}
use kakarot_rpc_adapter.Types.{FieldElement, Bytes, H160, H256, U64, U128, U256}
use kakarot_rpc_adapter.Errors.{EthApiError}
use kakarot_rpc_adapter.Async.{Async}
use kakarot_rpc_adapter.Starknet
use kakarot_rpc_adapter.Eth
use kakarot_rpc_adapter.Models.Balance.{TokenBalances}

pub record TransactionClient : Type 0 where
  pub kakarot_address : FieldElement
  pub proxy_account_class_hash : FieldElement
  pub get_evm_address : FieldElement → Starknet.BlockId → Async EthApiError H160
  pub max_priority_fee_per_gas : U128

pub record BlockClient : Type 0 where
  pub transaction_client : TransactionClient
  pub open transaction_client use *
  pub base_fee_per_gas : U256
  pub filter_starknet_into_eth_txs :
      List Starknet.Transaction
      → Option H256
      → Option U256
      → Async EthApiError Eth.BlockTransactions

pub record KakarotProvider : Type 0 where
  pub block_client : BlockClient
  pub open block_client use *
  pub block_number : Async EthApiError U64
  pub transaction_by_hash : H256 → Async EthApiError Eth.Transaction
  pub get_eth_block_from_starknet_block : Starknet.BlockId → Bool → Async EthApiError Eth.Block
  pub get_code : H160 → Starknet.BlockId → Async EthApiError Bytes
  pub call_view : H160 → Bytes → Starknet.BlockId → Async EthApiError Bytes
  pub transaction_by_block_id_and_index : Starknet.BlockId → ℕ → Async EthApiError Eth.Transaction
  pub syncing : Async EthApiError Eth.SyncStatus
  pub block_transaction_count_by_number : Eth.BlockNumberOrTag → Async EthApiError U64
  pub block_transaction_count_by_hash : H256 → Async EthApiError U64
  pub compute_starknet_address : H160 → Starknet.BlockId → Async EthApiError FieldElement
  pub submit_starknet_transaction : Starknet.BroadcastedInvokeTransactionV1 → Async EthApiError H256
  pub transaction_receipt : H256 → Async EthApiError (Option Eth.TransactionReceipt)
  pub nonce : H160 → Starknet.BlockId → Async EthApiError U256
  pub balance : H160 → Starknet.BlockId → Async EthApiError U256
  pub token_balances : H160 → List H160 → Async EthApiError TokenBalances
  pub send_transaction : Bytes → Async EthApiError H256
  pub get_transaction_count_by_block : Starknet.BlockId → Async EthApiError U64
  pub fee_history : U256 → Eth.BlockNumberOrTag → Async EthApiError Eth.FeeHistory
  pub estimate_gas : Eth.CallRequest → Option Eth.BlockId → Async EthApiError U256
