-- ===== src/Client/Provider.antt =====
-- `impl KakarotProvider for KakarotClient` of crates/core/src/client/mod.rs: the methods of the
-- client as the trait's, and the conversion of blocks that calls them with `self`.
use kakarot_rpc_adapter.Prelude.{Bool, true, false}
use kakarot_rpc_adapter.Errors.{EthApiError}
use kakarot_rpc_adapter.Crates.{Crates}
use kakarot_rpc_adapter.Starknet
use kakarot_rpc_adapter.Eth
use kakarot_rpc_adapter.Async.{Async, Request, ask, ◌>>=◌}
use kakarot_rpc_adapter.Models.Block.{
  block_with_tx_hashes_to_eth_block, block_with_txs_to_eth_block,
}
use kakarot_rpc_adapter.Client.Api.{BlockClient, KakarotProvider}
use kakarot_rpc_adapter.Client.Contracts
use kakarot_rpc_adapter.Client.Contracts.{KakarotClient}
use kakarot_rpc_adapter.Client.Transactions
use kakarot_rpc_adapter.Client.Receipts
use kakarot_rpc_adapter.Client.Chain
use kakarot_rpc_adapter.Client.Tokens

module _ ⦃crates : Crates⦄ where
  abbrev pub block_client : KakarotClient → BlockClient
  block_client client = record {
    transaction_client = Transactions.transaction_client client;
    base_fee_per_gas = Chain.base_fee_per_gas;
    filter_starknet_into_eth_txs = Transactions.filter_starknet_into_eth_txs client;
  }

  unfoldable pub get_eth_block_from_starknet_block :
      KakarotClient → Starknet.BlockId → Bool → Async EthApiError Eth.Block
  get_eth_block_from_starknet_block client block_id true = do
    block ← ask (Request.get_block_with_txs block_id)
    block_with_txs_to_eth_block block (block_client client)
  get_eth_block_from_starknet_block client block_id false = do
    block ← ask (Request.get_block_with_tx_hashes block_id)
    block_with_tx_hashes_to_eth_block block (block_client client)

  abbrev pub kakarot_provider : KakarotClient → KakarotProvider
  kakarot_provider client = record {
    block_client = block_client client;
    block_number = Chain.block_number;
    transaction_by_hash = Transactions.transaction_by_hash client;
    get_eth_block_from_starknet_block = get_eth_block_from_starknet_block client;
    get_code = Contracts.get_code client;
    call_view = Contracts.call_view client;
    transaction_by_block_id_and_index = Transactions.transaction_by_block_id_and_index client;
    syncing = Chain.syncing;
    block_transaction_count_by_number = Transactions.block_transaction_count_by_number client;
    block_transaction_count_by_hash = Transactions.block_transaction_count_by_hash client;
    compute_starknet_address = Contracts.compute_starknet_address client;
    submit_starknet_transaction = Transactions.submit_starknet_transaction;
    transaction_receipt = Receipts.transaction_receipt client;
    nonce = Contracts.nonce client;
    balance = Contracts.balance client;
    token_balances = Tokens.token_balances client;
    send_transaction = Transactions.send_transaction client;
    get_transaction_count_by_block = Transactions.get_transaction_count_by_block client;
    fee_history = Chain.fee_history;
    estimate_gas = Chain.estimate_gas;
  }
