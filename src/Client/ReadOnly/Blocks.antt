-- ===== src/Client/ReadOnly/Blocks.antt =====
-- Which requests transactions, receipts and blocks, and what asks for them, make:
-- crates/core/src/client/mod.rs and crates/core/src/models.
use kakarot_rpc_adapter.Prelude.{ℕ, Bool, true, false, List, [], ◌∷◌, Option, none}
use kakarot_rpc_adapter.Types.{FieldElement, H160, H256, U256}
use kakarot_rpc_adapter.Crates.{Crates}
use kakarot_rpc_adapter.Starknet
use kakarot_rpc_adapter.Starknet.{
  MaybePendingBlockWithTxs, MaybePendingBlockWithTxHashes, MaybePendingTransactionReceipt,
}
use kakarot_rpc_adapter.Eth
use kakarot_rpc_adapter.Async.{Request}
use kakarot_rpc_adapter.Async.Only.{
  ReadsOnly, ReadsOnly-join_all, ReadsOnly-ret, ReadsOnly-bind, ReadsOnly-ask, reads_rules,
}
use kakarot_rpc_adapter.Models.Transaction.{StarknetTransaction, to_eth_transaction}
use kakarot_rpc_adapter.Client.Api.{TransactionClient, BlockClient}
use kakarot_rpc_adapter.Models.Block.{
  block_with_tx_hashes_to_eth_block, block_with_txs_to_eth_block,
}
use kakarot_rpc_adapter.Client.Receipts.{
  log_of_event, logs_of_events, receipt_of_invoke, receipt_of_reply, transaction_receipt,
}
use kakarot_rpc_adapter.Client.Chain.{block_number, newest_block_number, fee_history}
use kakarot_rpc_adapter.Client.Tokens.{token_balances}
use kakarot_rpc_adapter.Client.Provider.{block_client, get_eth_block_from_starknet_block}
use kakarot_rpc_adapter.Client.Contracts.{KakarotClient}
use kakarot_rpc_adapter.Client.Transactions.{
  transaction_client, filter_starknet_into_eth_txs, block_transactions,
  get_transaction_count_by_block, transaction_by_hash, transaction_by_block_id_and_index,
  block_transaction_count_by_number, block_transaction_count_by_hash,
}
use kakarot_rpc_adapter.Client.ReadOnly.Accounts.{
  address_rules, get_evm_address-ReadsOnly, safe_get_evm_address-ReadsOnly, call_view-ReadsOnly,
}

module _ ⦃crates : Crates⦄ where
  pub to_eth_transaction-ReadsOnly :
      (tx : StarknetTransaction) (client : TransactionClient) (bh : Option H256)
      (bn ti : Option U256)
      → ((a : FieldElement) (b : Starknet.BlockId) → ReadsOnly (client.get_evm_address a b))
      → ReadsOnly (to_eth_transaction tx client bh bn ti)
  unfolding to_eth_transaction
  to_eth_transaction-ReadsOnly tx client bh bn ti h = search address_rules depth 20

  pub eth_transaction-ReadsOnly :
      (client : KakarotClient) (tx : StarknetTransaction) (bh : Option H256) (bn ti : Option U256)
      → ReadsOnly (to_eth_transaction tx (transaction_client client) bh bn ti)
  eth_transaction-ReadsOnly client tx bh bn ti =
      to_eth_transaction-ReadsOnly tx (transaction_client client) bh bn ti
        (get_evm_address-ReadsOnly client)

  pub filter-ReadsOnly :
      (client : KakarotClient) (txs : List Starknet.Transaction) (bh : Option H256)
      (bn : Option U256)
      → ReadsOnly (filter_starknet_into_eth_txs client txs bh bn)
  unfolding filter_starknet_into_eth_txs
  filter-ReadsOnly client txs bh bn =
      ReadsOnly-bind _ _
        (ReadsOnly-join_all _ (λ tx. eth_transaction-ReadsOnly client _ bh bn none) txs)
        (λ results. ReadsOnly-ret _)

  pub block_transactions-ReadsOnly :
      (client : KakarotClient) (b : MaybePendingBlockWithTxs)
      → ReadsOnly (block_transactions client b)
  unfolding block_transactions
  block_transactions-ReadsOnly client (MaybePendingBlockWithTxs.block b) =
      search (reads_rules, filter-ReadsOnly)
  block_transactions-ReadsOnly client (MaybePendingBlockWithTxs.pending_block b) =
      search (reads_rules, filter-ReadsOnly)

  pub count-ReadsOnly :
      (client : KakarotClient) (block_id : Starknet.BlockId)
      → ReadsOnly (get_transaction_count_by_block client block_id)
  unfolding get_transaction_count_by_block
  count-ReadsOnly client block_id = search (reads_rules, block_transactions-ReadsOnly)

  pub count_by_number-ReadsOnly :
      (client : KakarotClient) (number_or_tag : Eth.BlockNumberOrTag)
      → ReadsOnly (block_transaction_count_by_number client number_or_tag)
  unfolding block_transaction_count_by_number
  count_by_number-ReadsOnly client number_or_tag = search (reads_rules, count-ReadsOnly)

  pub count_by_hash-ReadsOnly :
      (client : KakarotClient) (hash : H256)
      → ReadsOnly (block_transaction_count_by_hash client hash)
  unfolding block_transaction_count_by_hash
  count_by_hash-ReadsOnly client hash = search (reads_rules, count-ReadsOnly)

  pub by_hash-ReadsOnly :
      (client : KakarotClient) (hash : H256) → ReadsOnly (transaction_by_hash client hash)
  unfolding transaction_by_hash
  by_hash-ReadsOnly client hash = search (reads_rules, eth_transaction-ReadsOnly) depth 12

  pub by_index-ReadsOnly :
      (client : KakarotClient) (block_id : Starknet.BlockId) (index : ℕ)
      → ReadsOnly (transaction_by_block_id_and_index client block_id index)
  unfolding transaction_by_block_id_and_index
  by_index-ReadsOnly client block_id index =
      search (reads_rules, eth_transaction-ReadsOnly) depth 12

  pub log-ReadsOnly :
      (client : KakarotClient) (event : Starknet.Event) → ReadsOnly (log_of_event client event)
  unfolding log_of_event
  log-ReadsOnly client event = search (reads_rules, safe_get_evm_address-ReadsOnly) depth 12

  pub logs-ReadsOnly :
      (client : KakarotClient) (events : List Starknet.Event)
      → ReadsOnly (logs_of_events client events)
  unfolding logs_of_events
  logs-ReadsOnly client [] = ReadsOnly-ret _
  logs-ReadsOnly client (event ∷ events) =
      ReadsOnly-bind (log_of_event client event) _ (log-ReadsOnly client event) λ log.
        ReadsOnly-bind (logs_of_events client events) _ (logs-ReadsOnly client events)
          λ logs. ReadsOnly-ret _

  pub receipt_of_invoke-ReadsOnly :
      (client : KakarotClient) (receipt : Starknet.InvokeTransactionReceipt)
      → ReadsOnly (receipt_of_invoke client receipt)
  unfolding receipt_of_invoke
  receipt_of_invoke-ReadsOnly client receipt =
      search
        (reads_rules, safe_get_evm_address-ReadsOnly, eth_transaction-ReadsOnly, logs-ReadsOnly)
        depth 20

  pub receipt_of_reply-ReadsOnly :
      (client : KakarotClient) (reply : MaybePendingTransactionReceipt)
      → ReadsOnly (receipt_of_reply client reply)
  unfolding receipt_of_reply
  receipt_of_reply-ReadsOnly client
        (MaybePendingTransactionReceipt.receipt (Starknet.TransactionReceipt.invoke r)) =
      search (reads_rules, receipt_of_invoke-ReadsOnly)
  receipt_of_reply-ReadsOnly client
        (MaybePendingTransactionReceipt.receipt Starknet.TransactionReceipt.l1_handler) =
      ReadsOnly-ret _
  receipt_of_reply-ReadsOnly client
        (MaybePendingTransactionReceipt.receipt Starknet.TransactionReceipt.declare) =
      ReadsOnly-ret _
  receipt_of_reply-ReadsOnly client
        (MaybePendingTransactionReceipt.receipt Starknet.TransactionReceipt.deploy) =
      ReadsOnly-ret _
  receipt_of_reply-ReadsOnly client
        (MaybePendingTransactionReceipt.receipt Starknet.TransactionReceipt.deploy_account) =
      ReadsOnly-ret _
  receipt_of_reply-ReadsOnly client MaybePendingTransactionReceipt.pending_receipt = ReadsOnly-ret _

  pub receipt-ReadsOnly :
      (client : KakarotClient) (hash : H256) → ReadsOnly (transaction_receipt client hash)
  unfolding transaction_receipt
  receipt-ReadsOnly client hash = search (reads_rules, receipt_of_reply-ReadsOnly)

  pub newest-ReadsOnly :
      (number_or_tag : Eth.BlockNumberOrTag) → ReadsOnly (newest_block_number number_or_tag)
  unfolding newest_block_number block_number
  newest-ReadsOnly (Eth.BlockNumberOrTag.number n) = ReadsOnly-ret _
  newest-ReadsOnly Eth.BlockNumberOrTag.earliest = ReadsOnly-ret _
  newest-ReadsOnly _ = ReadsOnly-ask Request.block_number tt

  pub fees-ReadsOnly :
      (count : U256) (number_or_tag : Eth.BlockNumberOrTag)
      → ReadsOnly (fee_history count number_or_tag)
  unfolding fee_history
  fees-ReadsOnly count number_or_tag = search (reads_rules, newest-ReadsOnly)

  pub tokens-ReadsOnly :
      (client : KakarotClient) (address : H160) (contracts : List H160)
      → ReadsOnly (token_balances client address contracts)
  unfolding token_balances
  tokens-ReadsOnly client address contracts = ReadsOnly-bind _ _ (ReadsOnly-ret _) λ calldata.
      ReadsOnly-bind _ _
        (ReadsOnly-join_all _ (λ token. call_view-ReadsOnly client token calldata _) contracts)
        λ results. search reads_rules

  pub hashes_block-ReadsOnly :
      (b : MaybePendingBlockWithTxHashes) (client : BlockClient)
      → ReadsOnly (block_with_tx_hashes_to_eth_block b client)
  unfolding block_with_tx_hashes_to_eth_block
  hashes_block-ReadsOnly (MaybePendingBlockWithTxHashes.block b) client =
      search reads_rules depth 20
  hashes_block-ReadsOnly (MaybePendingBlockWithTxHashes.pending_block b) client =
      search reads_rules depth 20

  pub txs_block-ReadsOnly :
      (b : MaybePendingBlockWithTxs) (client : KakarotClient)
      → ReadsOnly (block_with_txs_to_eth_block b (block_client client))
  unfolding block_with_txs_to_eth_block
  txs_block-ReadsOnly (MaybePendingBlockWithTxs.block b) client =
      search (reads_rules, filter-ReadsOnly) depth 20
  txs_block-ReadsOnly (MaybePendingBlockWithTxs.pending_block b) client =
      search (reads_rules, filter-ReadsOnly) depth 20

  pub block-ReadsOnly :
      (client : KakarotClient) (block_id : Starknet.BlockId) (hydrated_tx : Bool)
      → ReadsOnly (get_eth_block_from_starknet_block client block_id hydrated_tx)
  unfolding get_eth_block_from_starknet_block
  block-ReadsOnly client block_id true = search (reads_rules, txs_block-ReadsOnly)
  block-ReadsOnly client block_id false = search (reads_rules, hashes_block-ReadsOnly)
