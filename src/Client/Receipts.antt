-- ===== src/Client/Receipts.antt =====
-- `transaction_receipt` of crates/core/src/client/mod.rs.
pub mod Topics
pub mod Logs
pub mod Whole
use kakarot_rpc_adapter.Prelude.{ℕ, List, [], ◌∷◌, map, Option, none, some, false}
use kakarot_rpc_adapter.Types.{FieldElement, H160, H256}
use kakarot_rpc_adapter.Errors.{EthApiError, eth_of_felt_error}
use kakarot_rpc_adapter.Outcome.{Outcome, ok, unwrap, map_err, map_ok}
use kakarot_rpc_adapter.Crates.{Crates}
use kakarot_rpc_adapter.Starknet
use kakarot_rpc_adapter.Starknet.{
  TransactionStatus, Event, InvokeTransactionReceipt, MaybePendingTransactionReceipt,
}
use kakarot_rpc_adapter.Eth
use kakarot_rpc_adapter.Eth.{Log}
use kakarot_rpc_adapter.Async.{Async, Request, ask, pure, lift, ◌>>=◌}
use kakarot_rpc_adapter.Models.Felt.{from_felt, to_felt, to_h256, to_u256, from_u64, try_from_h256}
use kakarot_rpc_adapter.Models.Transaction.{
  from_transaction, to_eth_transaction, sender_address, converted, latest_block,
}
use kakarot_rpc_adapter.Client.Constants
use kakarot_rpc_adapter.Client.Helpers.{vec_felt_to_bytes}
use kakarot_rpc_adapter.Client.Contracts.{KakarotClient, safe_get_evm_address}
use kakarot_rpc_adapter.Client.Transactions.{transaction_client}

unfoldable pub status_code : TransactionStatus → ℕ
status_code TransactionStatus.rejected = 0
status_code TransactionStatus.pending = 0
status_code TransactionStatus.accepted_on_l1 = 1
status_code TransactionStatus.accepted_on_l2 = 1

module _ ⦃crates : Crates⦄ where
  open crates use {felt_add, felt_mul, felt_from_hex_be, felt_to_bytes_be, from_slice}

  -- `event.keys[i] + next_key * two_pow_16` for `i` in steps of 2; a last key with none behind it
  -- has `ZERO` for the next.
  unfoldable pub key_pairs : FieldElement → List FieldElement → List FieldElement
  key_pairs two_pow_16 [] = []
  key_pairs two_pow_16 (key ∷ []) = felt_add key (felt_mul 0 two_pow_16) ∷ []
  key_pairs two_pow_16 (key ∷ next_key ∷ keys) =
      felt_add key (felt_mul next_key two_pow_16) ∷ key_pairs two_pow_16 keys

  -- The conversion of the 32 bytes into an H256 keeps them. The constant is parsed for each pair,
  -- with an `unwrap`; it does not depend on the pair.
  unfoldable pub topics_of_keys : List FieldElement → Outcome EthApiError (List H256)
  topics_of_keys [] = ok []
  topics_of_keys (key ∷ keys) =
      map_ok (λ two_pow_16. map felt_to_bytes_be (key_pairs two_pow_16 (key ∷ keys)))
        (unwrap (felt_from_hex_be "0x100000000000000000000000000000000"))

  unfoldable pub log_of_event : KakarotClient → Event → Async EthApiError Log
  log_of_event client event = do
    contract_address ← safe_get_evm_address client event.from_address latest_block
    topics ← lift (topics_of_keys event.keys)
    address ← lift (unwrap (from_slice 20 contract_address))
    pure (record {
      address = address;
      topics = topics;
      log_data = vec_felt_to_bytes event.event_data;
      block_hash = none;
      block_number = none;
      transaction_hash = none;
      transaction_index = none;
      log_index = none;
      removed = false;
    })

  -- The loop `for event in events`.
  unfoldable pub logs_of_events : KakarotClient → List Event → Async EthApiError (List Log)
  logs_of_events client [] = pure []
  logs_of_events client (event ∷ events) = do
    log ← log_of_event client event
    logs ← logs_of_events client events
    pure (log ∷ logs)

  unfoldable pub receipt_of_invoke :
      KakarotClient → InvokeTransactionReceipt → Async EthApiError Eth.TransactionReceipt
  receipt_of_invoke client receipt = do
    starknet_tx ← ask (Request.get_transaction_by_hash receipt.transaction_hash)
    starknet_sender_address ← converted (sender_address (from_transaction starknet_tx))
    contract_address ← safe_get_evm_address client (to_felt starknet_sender_address) latest_block
    transaction_hash ← lift (to_h256 (from_felt receipt.transaction_hash))
    block_hash ← lift (to_h256 (from_felt receipt.block_hash))
    eth_tx ←
        to_eth_transaction (from_transaction starknet_tx) (transaction_client client) none none none
    logs ← logs_of_events client receipt.events
    pure (record {
      transaction_hash = some transaction_hash;
      transaction_index = none;
      block_hash = some block_hash;
      block_number = some (to_u256 (from_u64 receipt.block_number));
      from = eth_tx.from;
      to = eth_tx.to;
      cumulative_gas_used = 1_000_000;
      gas_used = some 500_000;
      contract_address = some contract_address;
      logs = logs;
      state_root = none;
      logs_bloom = Constants.bloom_default;
      status_code = some (status_code receipt.status);
      effective_gas_price = 1_000_000;
      transaction_type = 0;
    })

  -- The match on the receipt.
  unfoldable pub receipt_of_reply :
      KakarotClient
      → MaybePendingTransactionReceipt
      → Async EthApiError (Option Eth.TransactionReceipt)
  receipt_of_reply client
        (MaybePendingTransactionReceipt.receipt (Starknet.TransactionReceipt.invoke receipt)) =
      do res_receipt ← receipt_of_invoke client receipt; pure (some res_receipt)
  receipt_of_reply client _ = pure none

  unfoldable pub transaction_receipt :
      KakarotClient → H256 → Async EthApiError (Option Eth.TransactionReceipt)
  transaction_receipt client hash = do
    transaction_hash ← lift (map_err eth_of_felt_error (try_from_h256 hash))
    starknet_tx_receipt ← ask (Request.get_transaction_receipt (to_felt transaction_hash))
    receipt_of_reply client starknet_tx_receipt
