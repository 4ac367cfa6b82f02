-- ===== src/Client/WellFormed/Receipts.antt =====
-- Every log and receipt that the client gives is well formed, whatever the node replies:
-- `transaction_receipt` of crates/core/src/client/mod.rs.
use kakarot_rpc_adapter.Prelude.{◌<◌, arith, List, [], ◌∷◌, All, map, ◌⊎◌, inl, inr, none}
use kakarot_rpc_adapter.Types.{FieldElement, H160, H256, IsArray}
use kakarot_rpc_adapter.Errors.{EthApiError}
use kakarot_rpc_adapter.Outcome.{unwrap}
use kakarot_rpc_adapter.Crates.{Crates}
use kakarot_rpc_adapter.Starknet
use kakarot_rpc_adapter.Starknet.{
  MaybePendingBlockWithTxs, MaybePendingBlockWithTxHashes, MaybePendingTransactionReceipt,
}
use kakarot_rpc_adapter.Async.Yields.{
  Ends, Given, Right, Yields, Yields-ret, Yields-bind, Yields-after,
}
use kakarot_rpc_adapter.Client.Contracts.{KakarotClient}
use kakarot_rpc_adapter.Client.WellFormed.{IsTransaction}
use kakarot_rpc_adapter.Client.WellFormed.Words.{
  to_h256-IsArray, to_u256-IsWord, vec_felt_to_bytes-IsBytes, sliced-IsArray,
}
use kakarot_rpc_adapter.Starknet.{TransactionStatus, Event, InvokeTransactionReceipt}
use kakarot_rpc_adapter.Async.Yields.{Yields-attempt, map_ok-Ends, Ends-any}
use kakarot_rpc_adapter.Models.Felt.{from_u64}
use kakarot_rpc_adapter.Client.Contracts.{or_sliced, safe_get_evm_address}
use kakarot_rpc_adapter.Client.Receipts.{
  status_code, key_pairs, topics_of_keys, log_of_event, logs_of_events, receipt_of_invoke,
  receipt_of_reply, transaction_receipt,
}
use kakarot_rpc_adapter.Client.WellFormed.{IsLog, IsReceipt}
use kakarot_rpc_adapter.Client.WellFormed.Words.{from_slice_20}
use kakarot_rpc_adapter.Client.WellFormed.Transactions.{
  get_evm_address-IsArray, to_eth_transaction-IsTransaction,
}

status_code-lt : (s : TransactionStatus) → status_code s < 2
unfolding status_code
status_code-lt TransactionStatus.rejected = omega arith
status_code-lt TransactionStatus.pending = omega arith
status_code-lt TransactionStatus.accepted_on_l1 = omega arith
status_code-lt TransactionStatus.accepted_on_l2 = omega arith

module _ ⦃crates : Crates⦄ (client : KakarotClient) where
  open crates use {felt_to_bytes_be, felt_to_bytes_be-IsArray, felt_from_hex_be}

  bytes-IsArray : (xs : List FieldElement) → All (IsArray 32) (map felt_to_bytes_be xs)
  bytes-IsArray [] = tt
  bytes-IsArray (x ∷ xs) = (felt_to_bytes_be-IsArray x, bytes-IsArray xs)

  topics-IsArray : (keys : List FieldElement) → Ends (All (IsArray 32)) (topics_of_keys keys)
  unfolding topics_of_keys
  topics-IsArray [] = tt
  topics-IsArray (key ∷ keys) =
      map_ok-Ends (λ _. Unit) (All (IsArray 32)) _
        (unwrap (felt_from_hex_be "0x100000000000000000000000000000000"))
        (Ends-any {E = EthApiError}
          (unwrap (felt_from_hex_be "0x100000000000000000000000000000000")))
        λ two_pow_16 _. bytes-IsArray (key_pairs two_pow_16 (key ∷ keys))

  or_sliced-IsArray :
      (address : FieldElement) (r : EthApiError ⊎ H160)
      → Right (IsArray 20) r
      → Yields (IsArray 20) (or_sliced address r)
  or_sliced-IsArray address (inl e) h = Yields-ret _ _ (sliced-IsArray address)
  or_sliced-IsArray address (inr a) h = Yields-ret _ _ h

  safe_get_evm_address-IsArray :
      (address : FieldElement) (block_id : Starknet.BlockId)
      → Yields (IsArray 20) (safe_get_evm_address client address block_id)
  unfolding safe_get_evm_address
  safe_get_evm_address-IsArray address block_id =
      Yields-bind (Right (IsArray 20)) _ _
        (Yields-attempt _ (get_evm_address-IsArray client address block_id))
        λ r h. or_sliced-IsArray address r h

  log_of_event-IsLog : (event : Event) → Yields IsLog (log_of_event client event)
  unfolding log_of_event
  log_of_event-IsLog event =
      Yields-bind (IsArray 20) _ _ (safe_get_evm_address-IsArray _ _) λ contract size.
        Yields-bind (All (IsArray 32)) _ _ (Yields-ret _ _ (topics-IsArray event.keys))
          λ topics all.
            Yields-bind (IsArray 20) _ _ (Yields-ret _ _ (from_slice_20 contract size))
              λ address width. Yields-ret _ _ (record {
                address = width;
                topics = all;
                log_data = vec_felt_to_bytes-IsBytes event.event_data;
              })

  logs-IsLog : (events : List Event) → Yields (All IsLog) (logs_of_events client events)
  unfolding logs_of_events
  logs-IsLog [] = Yields-ret _ _ tt
  logs-IsLog (event ∷ events) =
      Yields-bind IsLog _ _ (log_of_event-IsLog event)
        λ log h. Yields-bind (All IsLog) _ _ (logs-IsLog events) λ logs hs. Yields-ret _ _ (h, hs)

  invoke-IsReceipt :
      (receipt : InvokeTransactionReceipt) → Yields IsReceipt (receipt_of_invoke client receipt)
  unfolding receipt_of_invoke
  invoke-IsReceipt receipt = Yields-after _ _ _ λ starknet_tx. Yields-after _ _ _ λ sender.
      Yields-bind (IsArray 20) _ _ (safe_get_evm_address-IsArray _ _) λ contract width.
        Yields-bind (IsArray 32) _ _ (Yields-ret _ _ (to_h256-IsArray _)) λ hash hash_size.
          Yields-bind (IsArray 32) _ _ (Yields-ret _ _ (to_h256-IsArray _)) λ block block_size.
            Yields-bind (IsTransaction none none none) _ _
              (to_eth_transaction-IsTransaction client _ none none none)
              λ eth_tx t. Yields-bind (All IsLog) _ _ (logs-IsLog receipt.events) λ logs all.
                Yields-ret _ _ (record {
                  transaction_hash = hash_size;
                  block_hash = block_size;
                  block_number = to_u256-IsWord (from_u64 receipt.block_number);
                  from = t.from;
                  contract_address = width;
                  logs = all;
                  status_code = status_code-lt receipt.status;
                })

  reply-IsReceipt :
      (r : MaybePendingTransactionReceipt) → Yields (Given IsReceipt) (receipt_of_reply client r)
  unfolding receipt_of_reply
  reply-IsReceipt (MaybePendingTransactionReceipt.receipt (Starknet.TransactionReceipt.invoke r)) =
      Yields-bind IsReceipt _ _ (invoke-IsReceipt r) λ res h. Yields-ret _ _ h
  reply-IsReceipt (MaybePendingTransactionReceipt.receipt _) = Yields-ret _ _ tt
  reply-IsReceipt MaybePendingTransactionReceipt.pending_receipt = Yields-ret _ _ tt

  pub transaction_receipt-IsReceipt :
      (hash : H256) → Yields (Given IsReceipt) (transaction_receipt client hash)
  unfolding transaction_receipt
  transaction_receipt-IsReceipt hash =
      Yields-after _ _ _ λ felt. Yields-after _ _ _ λ reply. reply-IsReceipt reply
