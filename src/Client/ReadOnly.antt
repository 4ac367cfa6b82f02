-- ===== src/Client/ReadOnly.antt =====
-- Which requests the methods of the client make: crates/core/src/client/mod.rs.
mod Accounts
mod Blocks
use kakarot_rpc_adapter.Prelude.{ℕ, Bool, true, false, List, [], ◌∷◌, Option, none, ◌⊎◌, inl, inr}
use kakarot_rpc_adapter.Types.{FieldElement, Bytes, H160, H256, U256}
use kakarot_rpc_adapter.Errors.{EthApiError}
use kakarot_rpc_adapter.Crates.{Crates}
use kakarot_rpc_adapter.Starknet
use kakarot_rpc_adapter.Starknet.{
  MaybePendingBlockWithTxs, MaybePendingBlockWithTxHashes, MaybePendingTransactionReceipt,
}
use kakarot_rpc_adapter.Eth
use kakarot_rpc_adapter.Async.{Request}
use kakarot_rpc_adapter.Async.Only.{
  ReadsOnly, ReadsOnly-join_all, ReadsOnly-ret, ReadsOnly-bind, ReadsOnly-ask, reads_rules,
}
use kakarot_rpc_adapter.Models.Transaction.{StarknetTransaction, is_kakarot_tx, to_eth_transaction}
use kakarot_rpc_adapter.Client.Api.{TransactionClient, BlockClient, KakarotProvider}
use kakarot_rpc_adapter.Models.Block.{
  block_with_tx_hashes_to_eth_block, block_with_txs_to_eth_block,
}
use kakarot_rpc_adapter.Client.Receipts.{
  log_of_event, logs_of_events, receipt_of_invoke, receipt_of_reply, transaction_receipt,
}
use kakarot_rpc_adapter.Client.Chain.{block_number, newest_block_number, fee_history, syncing}
use kakarot_rpc_adapter.Client.Tokens.{token_balances}
use kakarot_rpc_adapter.Client.Provider.{
  block_client, get_eth_block_from_starknet_block, kakarot_provider,
}
use kakarot_rpc_adapter.Client.Contracts.{
  KakarotClient, compute_starknet_address, get_evm_address, or_sliced, safe_get_evm_address,
  get_code, call_view, nonce, balance,
}
use kakarot_rpc_adapter.Client.Transactions.{
  transaction_client, filter_starknet_into_eth_txs, block_transactions,
  get_transaction_count_by_block, transaction_by_hash, transaction_by_block_id_and_index,
  block_transaction_count_by_number, block_transaction_count_by_hash,
}
use kakarot_rpc_adapter.Client.ReadOnly.Accounts.{
  compute_starknet_address-ReadsOnly, get_evm_address-ReadsOnly, is_kakarot_tx-ReadsOnly,
  or_sliced-ReadsOnly, safe_get_evm_address-ReadsOnly, get_code-ReadsOnly, call_view-ReadsOnly,
  nonce-ReadsOnly, balance-ReadsOnly,
}
use kakarot_rpc_adapter.Client.ReadOnly.Blocks.{
  to_eth_transaction-ReadsOnly, eth_transaction-ReadsOnly, filter-ReadsOnly,
  block_transactions-ReadsOnly, count-ReadsOnly, count_by_number-ReadsOnly, count_by_hash-ReadsOnly,
  by_hash-ReadsOnly, by_index-ReadsOnly, log-ReadsOnly, logs-ReadsOnly, receipt_of_invoke-ReadsOnly,
  receipt_of_reply-ReadsOnly, receipt-ReadsOnly, newest-ReadsOnly, fees-ReadsOnly, tokens-ReadsOnly,
  hashes_block-ReadsOnly, txs_block-ReadsOnly, block-ReadsOnly,
}

-- The methods that read a chain read it only.
pub record IsReader (p : KakarotProvider) : Type 0 where
  pub get_evm_address :
      (a : FieldElement) (b : Starknet.BlockId) → ReadsOnly (p.get_evm_address a b)
  pub filter :
      (txs : List Starknet.Transaction) (bh : Option H256) (bn : Option U256)
      → ReadsOnly (p.filter_starknet_into_eth_txs txs bh bn)
  pub block_number : ReadsOnly p.block_number
  pub transaction_by_hash : (h : H256) → ReadsOnly (p.transaction_by_hash h)
  pub eth_block :
      (b : Starknet.BlockId) (full : Bool) → ReadsOnly (p.get_eth_block_from_starknet_block b full)
  pub get_code : (a : H160) (b : Starknet.BlockId) → ReadsOnly (p.get_code a b)
  pub call_view : (a : H160) (c : Bytes) (b : Starknet.BlockId) → ReadsOnly (p.call_view a c b)
  pub by_index :
      (b : Starknet.BlockId) (i : ℕ) → ReadsOnly (p.transaction_by_block_id_and_index b i)
  pub syncing : ReadsOnly p.syncing
  pub count_by_number :
      (number_or_tag : Eth.BlockNumberOrTag)
      → ReadsOnly (p.block_transaction_count_by_number number_or_tag)
  pub count_by_hash : (h : H256) → ReadsOnly (p.block_transaction_count_by_hash h)
  pub compute_starknet_address :
      (a : H160) (b : Starknet.BlockId) → ReadsOnly (p.compute_starknet_address a b)
  pub transaction_receipt : (h : H256) → ReadsOnly (p.transaction_receipt h)
  pub nonce : (a : H160) (b : Starknet.BlockId) → ReadsOnly (p.nonce a b)
  pub balance : (a : H160) (b : Starknet.BlockId) → ReadsOnly (p.balance a b)
  pub token_balances : (a : H160) (cs : List H160) → ReadsOnly (p.token_balances a cs)
  pub count : (b : Starknet.BlockId) → ReadsOnly (p.get_transaction_count_by_block b)
  pub fee_history :
      (count : U256) (number_or_tag : Eth.BlockNumberOrTag)
      → ReadsOnly (p.fee_history count number_or_tag)

module _ ⦃crates : Crates⦄ where
  -- Whatever the node replies, no method of the client that reads the chain submits a
  -- transaction.
  pub kakarot_provider-IsReader : (client : KakarotClient) → IsReader (kakarot_provider client)
  kakarot_provider-IsReader client = record {
    get_evm_address = get_evm_address-ReadsOnly client;
    filter = filter-ReadsOnly client;
    block_number = unfold block_number in ReadsOnly-ask Request.block_number tt;
    transaction_by_hash = by_hash-ReadsOnly client;
    eth_block = block-ReadsOnly client;
    get_code = get_code-ReadsOnly client;
    call_view = call_view-ReadsOnly client;
    by_index = by_index-ReadsOnly client;
    syncing = unfold syncing in search reads_rules;
    count_by_number = count_by_number-ReadsOnly client;
    count_by_hash = count_by_hash-ReadsOnly client;
    compute_starknet_address = compute_starknet_address-ReadsOnly client;
    transaction_receipt = receipt-ReadsOnly client;
    nonce = nonce-ReadsOnly client;
    balance = balance-ReadsOnly client;
    token_balances = tokens-ReadsOnly client;
    count = count-ReadsOnly client;
    fee_history = fees-ReadsOnly;
  }
