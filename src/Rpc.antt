-- ===== src/Rpc.antt =====
-- crates/eth-rpc/src/eth_rpc.rs: the JSON-RPC methods (the trait of crates/eth-rpc/src/eth_api.rs)
-- over a client. Each is named as the source names it.
pub mod EthCall
pub mod ReadOnly
pub mod Unfinished
use kakarot_rpc_adapter.Prelude.{ℕ, Bool, List, [], Option, none, some, String}
use kakarot_rpc_adapter.Prelude.Int.{ℤ, neg}
use kakarot_rpc_adapter.Types.{Bytes, H64, H160, H256, U64, U128, U256}
use kakarot_rpc_adapter.Errors.{EthApiError}
use kakarot_rpc_adapter.Errors.Codes.{ErrorObject, rpc_err, to_error_object}
use kakarot_rpc_adapter.Outcome.{Outcome, map_err, map_ok, ok_or, unwrap}
use kakarot_rpc_adapter.Crates.{Crates}
use kakarot_rpc_adapter.Starknet
use kakarot_rpc_adapter.Eth
use kakarot_rpc_adapter.Eth.{BlockId, BlockNumberOrTag}
use kakarot_rpc_adapter.Async.{Async, ask, pure, throw, lift, crash, map_error, ◌>>=◌}
use kakarot_rpc_adapter.Models.Balance.{TokenBalances}
use kakarot_rpc_adapter.Models.Transaction.{latest_block}
use kakarot_rpc_adapter.Client.Constants
use kakarot_rpc_adapter.Client.Helpers.{ethers_block_id_to_starknet_block_id}
use kakarot_rpc_adapter.Client.Api.{KakarotProvider}

-- `unwrap_or(BlockId::Number(BlockNumberOrTag::Latest))`
unfoldable pub or_latest : Option BlockId → BlockId
or_latest none = BlockId.number BlockNumberOrTag.latest
or_latest (some block_id) = block_id

module _ ⦃crates : Crates⦄ where
  open crates use {internal_error_code, method_not_found_code}

  -- `?` on a method of the client, and on a conversion of a block id.
  abbrev pub asked : {A : Type 0} → Async EthApiError A → Async ErrorObject A
  asked m = map_error to_error_object m

  unfoldable pub starknet_block : BlockId → Async ErrorObject Starknet.BlockId
  starknet_block block_id =
      lift (map_err to_error_object (ethers_block_id_to_starknet_block_id block_id))

  -- The error of the methods that are refused by name.
  unfoldable pub unsupported : {A : Type 0} → String → Async ErrorObject A
  unsupported message = throw (rpc_err (neg method_not_found_code) message)

  module _ (kakarot_client : KakarotProvider) where
    unfoldable pub block_number : Async ErrorObject U64
    block_number = asked kakarot_client.block_number

    unfoldable pub syncing : Async ErrorObject Eth.SyncStatus
    syncing = asked kakarot_client.syncing

    unfoldable pub block_by_hash : H256 → Bool → Async ErrorObject (Option Eth.Block)
    block_by_hash hash full = do
      starknet_block_id ← starknet_block (BlockId.hash hash)
      block ← asked (kakarot_client.get_eth_block_from_starknet_block starknet_block_id full)
      pure (some block)

    unfoldable pub block_by_number : BlockNumberOrTag → Bool → Async ErrorObject (Option Eth.Block)
    block_by_number number_or_tag full = do
      starknet_block_id ← starknet_block (BlockId.number number_or_tag)
      block ← asked (kakarot_client.get_eth_block_from_starknet_block starknet_block_id full)
      pure (some block)

    unfoldable pub block_transaction_count_by_hash : H256 → Async ErrorObject U64
    block_transaction_count_by_hash hash =
        asked (kakarot_client.block_transaction_count_by_hash hash)

    unfoldable pub block_transaction_count_by_number : BlockNumberOrTag → Async ErrorObject U64
    block_transaction_count_by_number number_or_tag =
        asked (kakarot_client.block_transaction_count_by_number number_or_tag)

    unfoldable pub transaction_by_hash : H256 → Async ErrorObject (Option Eth.Transaction)
    transaction_by_hash hash = do
      ether_tx ← asked (kakarot_client.transaction_by_hash hash)
      pure (some ether_tx)

    unfoldable pub transaction_by_block_hash_and_index :
        H256 → ℕ → Async ErrorObject (Option Eth.Transaction)
    transaction_by_block_hash_and_index hash index = do
      starknet_block_id ← starknet_block (BlockId.hash hash)
      tx ← asked (kakarot_client.transaction_by_block_id_and_index starknet_block_id index)
      pure (some tx)

    unfoldable pub transaction_by_block_number_and_index :
        BlockNumberOrTag → ℕ → Async ErrorObject (Option Eth.Transaction)
    transaction_by_block_number_and_index number_or_tag index = do
      starknet_block_id ← starknet_block (BlockId.number number_or_tag)
      tx ← asked (kakarot_client.transaction_by_block_id_and_index starknet_block_id index)
      pure (some tx)

    unfoldable pub transaction_receipt : H256 → Async ErrorObject (Option Eth.TransactionReceipt)
    transaction_receipt hash = asked (kakarot_client.transaction_receipt hash)

    unfoldable pub balance : H160 → Option BlockId → Async ErrorObject U256
    unfolding or_latest
    balance address block_number = do
      starknet_block_id ← starknet_block (or_latest block_number)
      asked (kakarot_client.balance address starknet_block_id)

    -- The match on the mapped conversion: with no block it is the latest.
    unfoldable pub transaction_count : H160 → Option BlockId → Async ErrorObject U256
    transaction_count address none = asked (kakarot_client.nonce address latest_block)
    transaction_count address (some block_id) = do
      starknet_block_id ← starknet_block block_id
      asked (kakarot_client.nonce address starknet_block_id)

    unfoldable pub get_code : H160 → Option BlockId → Async ErrorObject Bytes
    get_code address block_number = do
      block_id ← lift (unwrap block_number)
      starknet_block_id ← starknet_block block_id
      asked (kakarot_client.get_code address starknet_block_id)

    unfoldable pub call : Eth.CallRequest → Option BlockId → Async ErrorObject Bytes
    unfolding or_latest
    call request block_number = do
      to ← lift (
          ok_or
            (rpc_err (neg internal_error_code)
              "CallRequest `to` field is None. Cannot process a Kakarot call")
            request.to)
      calldata ← lift (
          ok_or
            (rpc_err (neg internal_error_code)
              "CallRequest `data` field is None. Cannot process a Kakarot call")
            request.calldata)
      starknet_block_id ← starknet_block (or_latest block_number)
      asked (kakarot_client.call_view to calldata starknet_block_id)

    unfoldable pub gas_price : Async ErrorObject U256
    gas_price = pure kakarot_client.base_fee_per_gas

    unfoldable pub fee_history : U256 → BlockNumberOrTag → Async ErrorObject Eth.FeeHistory
    fee_history block_count newest_block =
        asked (kakarot_client.fee_history block_count newest_block)

    unfoldable pub max_priority_fee_per_gas : Async ErrorObject U128
    max_priority_fee_per_gas = pure kakarot_client.max_priority_fee_per_gas

    unfoldable pub send_raw_transaction : Bytes → Async ErrorObject H256
    send_raw_transaction bytes = asked (kakarot_client.send_transaction bytes)

    unfoldable pub token_balances : H160 → List H160 → Async ErrorObject TokenBalances
    token_balances address contract_addresses =
        asked (kakarot_client.token_balances address contract_addresses)

  unfoldable pub protocol_version : Async ErrorObject U64
  protocol_version = pure 1

  unfoldable pub accounts : Async ErrorObject (List H160)
  accounts = pure []

  unfoldable pub chain_id : Async ErrorObject (Option U64)
  chain_id = pure (some Constants.chain_id)

  unfoldable pub estimate_gas : Eth.CallRequest → Option BlockId → Async ErrorObject U256
  estimate_gas _ _ = pure Constants.estimate_gas

  unfoldable pub is_mining : Async ErrorObject Bool
  is_mining =
      unsupported
        "Unsupported method: eth_mining. See available methods at https://github.com/sayajin-labs/kakarot-rpc/blob/main/docs/rpc_api_status.md"

  unfoldable pub hashrate : Async ErrorObject U256
  hashrate =
      unsupported
        "Unsupported method: eth_hashrate. See available methods at https://github.com/sayajin-labs/kakarot-rpc/blob/main/docs/rpc_api_status.md"
