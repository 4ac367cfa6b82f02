-- ===== src/Client/Receipts/Whole.antt =====
-- A whole receipt, from `transaction_receipt` of crates/core/src/client/mod.rs.
use kakarot_rpc_adapter.Prelude.{ℕ, suc, ◌+◌, ◌<◌, ◌≡◌, refl, none, some, inr, drop, length, lt→ltb}
use kakarot_rpc_adapter.Prelude.Bytes.{be_value}
use kakarot_rpc_adapter.Types.{FieldElement, H256, IsArray, prime}
use kakarot_rpc_adapter.Errors.{EthApiError}
use kakarot_rpc_adapter.Outcome.{ok}
use kakarot_rpc_adapter.Crates.{Crates}
use kakarot_rpc_adapter.Starknet
use kakarot_rpc_adapter.Starknet.{InvokeTransactionReceipt, MaybePendingTransactionReceipt}
use kakarot_rpc_adapter.Eth
use kakarot_rpc_adapter.Async.{Request, ◌>>=◌}
use kakarot_rpc_adapter.Async.Run.{Script, run, run->>=, run-ask}
use kakarot_rpc_adapter.Models.Felt.{from_felt, to_u256, from_u64}
use kakarot_rpc_adapter.Models.Felt.RoundTrip.{to_h160_lem, to_h256_lem, try_from_h256_lem}
use kakarot_rpc_adapter.Models.Transaction.{
  from_transaction, sender_address, to_eth_transaction, latest_block,
}
use kakarot_rpc_adapter.Client.Constants
use kakarot_rpc_adapter.Client.Contracts.{KakarotClient}
use kakarot_rpc_adapter.Client.Contracts.Answers.{
  evm_address_request, evm_address_source, safe_get_evm_address_lem,
}
use kakarot_rpc_adapter.Client.Transactions.{transaction_client}
use kakarot_rpc_adapter.Client.Receipts.{
  status_code, receipt_of_invoke, receipt_of_reply, transaction_receipt, logs_of_events,
}
use kakarot_rpc_adapter.Client.Receipts.Logs.{logs_from, logs_of_events_lem}

module _ ⦃crates : Crates⦄ (client : KakarotClient) (s : Script) where
  open crates use {felt_to_bytes_be}

  -- The receipt for a transaction whose sender is asked for its address at the `n`-th request, and
  -- whose events are asked for from the `m`-th on.
  abbrev pub receipt_at :
      InvokeTransactionReceipt → FieldElement → Eth.Transaction → ℕ → ℕ → Eth.TransactionReceipt
  receipt_at receipt sender eth_tx n m = record {
    transaction_hash = some (felt_to_bytes_be receipt.transaction_hash);
    transaction_index = none;
    block_hash = some (felt_to_bytes_be receipt.block_hash);
    block_number = some (to_u256 (from_u64 receipt.block_number));
    from = eth_tx.from;
    to = eth_tx.to;
    cumulative_gas_used = 1_000_000;
    gas_used = some 500_000;
    contract_address = some (
        drop 12 (
          felt_to_bytes_be
            (evm_address_source (s n (evm_address_request client latest_block sender)) sender)));
    logs = logs_from client s m receipt.events;
    state_root = none;
    logs_bloom = Constants.bloom_default;
    status_code = some (status_code receipt.status);
    effective_gas_price = 1_000_000;
    transaction_type = 0;
  }

  run-receipt_of_invoke :
      (receipt : InvokeTransactionReceipt) (tx : Starknet.Transaction) (sender : FieldElement)
      (eth_tx : Eth.Transaction) (n m : ℕ)
      → s n (Request.get_transaction_by_hash receipt.transaction_hash) ≡ inr tx
      → sender_address (from_transaction tx) ≡ ok (from_felt sender)
      → run
          (to_eth_transaction (from_transaction tx) (transaction_client client) none none none)
          s
          (suc (suc n))
        ≡ (ok eth_tx, m)
      → run (receipt_of_invoke client receipt) s n
        ≡ (ok (receipt_at receipt sender eth_tx (suc n) m), m + length receipt.events)
  unfolding receipt_of_invoke
  run-receipt_of_invoke receipt tx sender eth_tx n m et es ec =
      rw (run->>=, run-ask (Request.get_transaction_by_hash receipt.transaction_hash) s n tx et, es)
        (rw (run->>=) (
          unfold run in
          rw (run->>=, safe_get_evm_address_lem client latest_block sender s (suc n), to_h160_lem)
            (rw
              (
                to_h256_lem {E = EthApiError} (from_felt receipt.transaction_hash),
                to_h256_lem {E = EthApiError} (from_felt receipt.block_hash),
              )
              (unfold ◌>>=◌ in
                rw
                  (
                    run->>= (
                        to_eth_transaction (from_transaction tx) (transaction_client client) none
                          none none),
                    ec,
                    run->>= (logs_of_events client receipt.events),
                    logs_of_events_lem client s receipt.events m,
                  )
                  refl))))

  pub transaction_receipt_lem :
      (hash : H256) (receipt : InvokeTransactionReceipt) (tx : Starknet.Transaction)
      (sender : FieldElement) (eth_tx : Eth.Transaction) (n m : ℕ)
      → IsArray 32 hash
      → be_value hash < prime
      → s n (Request.get_transaction_receipt (be_value hash))
        ≡ inr (MaybePendingTransactionReceipt.receipt (Starknet.TransactionReceipt.invoke receipt))
      → s (suc n) (Request.get_transaction_by_hash receipt.transaction_hash) ≡ inr tx
      → sender_address (from_transaction tx) ≡ ok (from_felt sender)
      → run
          (to_eth_transaction (from_transaction tx) (transaction_client client) none none none)
          s
          (suc (suc (suc n)))
        ≡ (ok eth_tx, m)
      → run (transaction_receipt client hash) s n
        ≡ (ok (some (receipt_at receipt sender eth_tx (suc (suc n)) m)), m + length receipt.events)
  unfolding transaction_receipt receipt_of_reply
  transaction_receipt_lem hash receipt tx sender eth_tx n m a h er et es ec =
      rw (try_from_h256_lem hash a, lt→ltb (be_value hash) prime h, run->>=)
        (unfold run in
          rw (run->>=, run-ask (Request.get_transaction_receipt (be_value hash)) s n _ er)
            (rw (run->>=, run-receipt_of_invoke receipt tx sender eth_tx (suc n) m et es ec) refl))
