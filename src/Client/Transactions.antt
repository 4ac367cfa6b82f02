-- ===== src/Client/Transactions.antt =====
-- Transactions in crates/core/src/client/mod.rs: those of a block, one by its hash or place, and
-- the submission of one.
pub mod Submission
pub mod Filtered
pub mod AnyOrder
pub mod Counted
pub mod Schedule
use kakarot_rpc_adapter.Prelude.{
  ℕ, List, [], ◌∷◌, map, filter_map, Option, none, some, inl, inr, ◌⊎◌, length,
}
use kakarot_rpc_adapter.Types.{FieldElement, Bytes, H160, H256, U64, U256}
use kakarot_rpc_adapter.Errors.{EthApiError, other_error, eth_of_felt_error}
use kakarot_rpc_adapter.Outcome.{Outcome, ok, err, ok_or, unwrap, map_err, map_ok, of_result}
use kakarot_rpc_adapter.Crates.{Crates}
use kakarot_rpc_adapter.Starknet
use kakarot_rpc_adapter.Starknet.{
  MaybePendingBlockWithTxs, MaybePendingTransactionReceipt, TransactionReceipt,
  BroadcastedInvokeTransactionV1,
}
use kakarot_rpc_adapter.Eth
use kakarot_rpc_adapter.Eth.{BlockTransactions, BlockNumberOrTag}
use kakarot_rpc_adapter.Async.{Async, Request, ask, pure, throw, lift, attempt, ◌>>=◌}
use kakarot_rpc_adapter.Async.Join.{join_all}
use kakarot_rpc_adapter.Models.Felt.{from_felt, to_felt, from_u64, to_h256, to_u256, try_from_h256}
use kakarot_rpc_adapter.Models.Transaction.{
  from_transaction, from_transactions, into_transactions, to_eth_transaction, transaction_hash,
  converted, latest_block,
}
use kakarot_rpc_adapter.Client.Constants
use kakarot_rpc_adapter.Client.Api.{TransactionClient}
use kakarot_rpc_adapter.Client.Calls.{raw_starknet_calldata}
use kakarot_rpc_adapter.Client.Helpers.{ethers_block_id_to_starknet_block_id}
use kakarot_rpc_adapter.Client.Contracts.{KakarotClient, get_evm_address, compute_starknet_address}

-- `result.ok()`
unfoldable pub ok_value : {E A : Type 0} → E ⊎ A → Option A
ok_value (inl _) = none
ok_value (inr a) = some a

-- The `len` of the match on `BlockTransactions`.
unfoldable pub transactions_len : BlockTransactions → ℕ
transactions_len (BlockTransactions.full transactions) = length transactions
transactions_len (BlockTransactions.hashes _) = 0
transactions_len BlockTransactions.uncle = 0

module _ ⦃crates : Crates⦄ where
  open crates use {felt_to_bytes_be, felt_from_uint, transaction_decode, recover_signer}

  -- `self`, as the conversions of transactions use it.
  abbrev pub transaction_client : KakarotClient → TransactionClient
  transaction_client client = record {
    kakarot_address = client.kakarot_address;
    proxy_account_class_hash = client.proxy_account_class_hash;
    get_evm_address = get_evm_address client;
    max_priority_fee_per_gas = Constants.max_priority_fee_per_gas;
  }

  -- The callers wrap the transactions into StarknetTransactions, which is undone here.
  unfoldable pub filter_starknet_into_eth_txs :
      KakarotClient
      → List Starknet.Transaction
      → Option H256
      → Option U256
      → Async EthApiError BlockTransactions
  unfolding ok_value
  filter_starknet_into_eth_txs client initial_transactions block_hash block_number = do
    results ← join_all (
        map
          (λ tx.
            to_eth_transaction (from_transaction tx) (transaction_client client) block_hash
              block_number none)
          (into_transactions (from_transactions initial_transactions)))
    pure (BlockTransactions.full (filter_map ok_value results))

  -- The match on the block: a final one hands its hash and number on.
  unfoldable pub block_transactions :
      KakarotClient → MaybePendingBlockWithTxs → Async EthApiError BlockTransactions
  block_transactions client (MaybePendingBlockWithTxs.pending_block b) =
      filter_starknet_into_eth_txs client b.transactions none none
  block_transactions client (MaybePendingBlockWithTxs.block b) = do
    block_hash ← lift (to_h256 (from_felt b.block_hash))
    filter_starknet_into_eth_txs client b.transactions (some block_hash)
        (some (to_u256 (from_u64 b.block_number)))

  unfoldable pub get_transaction_count_by_block :
      KakarotClient → Starknet.BlockId → Async EthApiError U64
  unfolding transactions_len block_transactions
  get_transaction_count_by_block client starknet_block_id = do
    starknet_block ← ask (Request.get_block_with_txs starknet_block_id)
    transactions ← block_transactions client starknet_block
    pure (transactions_len transactions)

  unfoldable pub block_transaction_count_by_number :
      KakarotClient → BlockNumberOrTag → Async EthApiError U64
  block_transaction_count_by_number client block_number = do
    starknet_block_id ←
        lift (ethers_block_id_to_starknet_block_id (Eth.BlockId.number block_number))
    get_transaction_count_by_block client starknet_block_id

  unfoldable pub block_transaction_count_by_hash : KakarotClient → H256 → Async EthApiError U64
  block_transaction_count_by_hash client hash = do
    starknet_block_id ← lift (ethers_block_id_to_starknet_block_id (Eth.BlockId.hash hash))
    get_transaction_count_by_block client starknet_block_id

  -- Only the receipt of an invoke transaction places it in a block.
  unfoldable pub place_of_receipt :
      MaybePendingTransactionReceipt → Outcome EthApiError (Option H256 × Option U256)
  place_of_receipt (MaybePendingTransactionReceipt.receipt (TransactionReceipt.invoke tr)) =
      map_ok (λ block_hash. (some block_hash, some tr.block_number))
        (to_h256 (from_felt tr.block_hash))
  place_of_receipt _ = ok (none, none)

  unfoldable pub transaction_by_block_id_and_index :
      KakarotClient → Starknet.BlockId → ℕ → Async EthApiError Eth.Transaction
  unfolding place_of_receipt
  transaction_by_block_id_and_index client block_id index = do
    starknet_tx ← ask (Request.get_transaction_by_block_id_and_index block_id index)
    tx_hash ← converted (transaction_hash (from_transaction starknet_tx))
    tx_receipt ← ask (Request.get_transaction_receipt (to_felt tx_hash))
    (block_hash, block_num) ← lift (place_of_receipt tx_receipt)
    to_eth_transaction (from_transaction starknet_tx) (transaction_client client) block_hash
        block_num (some index)

  unfoldable pub transaction_by_hash : KakarotClient → H256 → Async EthApiError Eth.Transaction
  unfolding place_of_receipt
  transaction_by_hash client hash = do
    hash ← lift (map_err eth_of_felt_error (try_from_h256 hash))
    transaction ← ask (Request.get_transaction_by_hash (to_felt hash))
    tx_receipt ← ask (Request.get_transaction_receipt (to_felt hash))
    (block_hash, block_num) ← lift (place_of_receipt tx_receipt)
    to_eth_transaction (from_transaction transaction) (transaction_client client) block_hash
        block_num none

  -- The conversion of the 32 bytes into an H256 keeps them.
  unfoldable pub submit_starknet_transaction :
      BroadcastedInvokeTransactionV1 → Async EthApiError H256
  submit_starknet_transaction request = do
    transaction_hash ← ask (Request.add_invoke_transaction request)
    pure (felt_to_bytes_be transaction_hash)

  unfoldable pub send_transaction : KakarotClient → Bytes → Async EthApiError H256
  send_transaction client [] =
      throw (other_error "Kakarot send_transaction: Transaction bytes are empty")
  send_transaction client (b ∷ bs) = do
    transaction ← lift (
        map_err
          (λ _. other_error "Kakarot send_transaction: transaction bytes failed to be decoded")
          (of_result (transaction_decode (b ∷ bs))))
    evm_address ← lift (
        ok_or (other_error "Kakarot send_transaction: signature ecrecover failed")
          (recover_signer transaction))
    starknet_address ← compute_starknet_address client evm_address latest_block
    submit_starknet_transaction (record {
      max_fee = Constants.max_fee;
      signature = [];
      nonce = felt_from_uint transaction.nonce;
      sender_address = starknet_address;
      calldata = raw_starknet_calldata client.kakarot_address (b ∷ bs);
    })
