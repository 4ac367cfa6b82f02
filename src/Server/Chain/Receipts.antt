-- ===== src/Server/Chain/Receipts.antt =====
-- The receipts that the client gives, over a node that holds a chain, are the ones that the chain shows:
-- crates/core/src/client/mod.rs.
use kakarot_rpc_adapter.Prelude.{
  ◌^◌, ◌<◌, ◌≡◌, refl, ap, ◌∙◌, Option, none, some, Option-cases, inl, inr, ltb, Bool-cases,
  All-imp,
}
use kakarot_rpc_adapter.Prelude.Bytes.{be_value}
use kakarot_rpc_adapter.Types.{FieldElement, H256, IsArray, U64, prime}
use kakarot_rpc_adapter.Errors.{transaction_hash_not_found, eth_of_felt_error}
use kakarot_rpc_adapter.Outcome
use kakarot_rpc_adapter.Outcome.{
  Outcome, ok, err, panic, map_ok, map_ok_lem, map_ok_ext, map_ok-map_ok, ok_or,
}
use kakarot_rpc_adapter.Crates.{Crates}
use kakarot_rpc_adapter.Starknet
use kakarot_rpc_adapter.Starknet.{
  Event, InvokeTransactionReceipt, MaybePendingTransactionReceipt, TransactionReceipt,
}
use kakarot_rpc_adapter.Async
use kakarot_rpc_adapter.Async.{Request}
use kakarot_rpc_adapter.Async.Interleaving.{Node, final}
use kakarot_rpc_adapter.Async.Final.{final->>=, final-ask}
use kakarot_rpc_adapter.Models.Felt.{from_felt}
use kakarot_rpc_adapter.Models.Felt.RoundTrip.{to_h256_lem, to_u256-from_u64, try_from_h256_lem}
use kakarot_rpc_adapter.Models.Transaction.{
  from_transaction, sender_address, to_eth_transaction, invoke_transaction_field, latest_block,
}
use kakarot_rpc_adapter.Client.Contracts.{KakarotClient, safe_get_evm_address}
use kakarot_rpc_adapter.Client.Transactions.{transaction_client}
use kakarot_rpc_adapter.Client.Receipts.{
  logs_of_events, receipt_of_invoke, receipt_of_reply, transaction_receipt,
}
use kakarot_rpc_adapter.Server.Chain.{Block, Chain, locate, all_blocks}
use kakarot_rpc_adapter.Server.Chain.Shown.{missing, invoked, show_invoked, show_transaction}
use kakarot_rpc_adapter.Server.Chain.Queries.{felt_of_hash, receipt_of, show_receipt}
use kakarot_rpc_adapter.Server.Chain.Told.{
  Represents, Fits, IsPlace, IsTransaction, IsListed, IsChain,
}
use kakarot_rpc_adapter.Server.Chain.Found.{locate_in-All}
use kakarot_rpc_adapter.Server.Chain.Transactions.{final-show_transaction}
use kakarot_rpc_adapter.Server.Chain.Logs.{final-safe_get_evm_address, final-logs_of_events}

module _ ⦃crates : Crates⦄ (client : KakarotClient) (node : Node) (chain : Chain)
    (represents : Represents client node chain) where
  -- The part of a receipt after the sender is known.
  final-sender :
      (b : Block) (tr : InvokeTransactionReceipt) (tx : Starknet.Transaction) (hash : FieldElement)
      (sender : FieldElement)
      → locate chain tr.transaction_hash ≡ some (b, tx)
      → sender_address (from_transaction tx) ≡ ok (from_felt sender)
      → IsTransaction hash tx
      → tr.block_number < 2 ^ 64
      → final node (receipt_of_invoke client tr)
        ≡ map_ok (receipt_of client chain tr sender) (show_transaction client chain none none tx)
  unfolding receipt_of_invoke
  final-sender b tr tx hash sender held es h small =
      rw (final->>=, final-ask, represents.located_told tr.transaction_hash, held)
        (unfold Async.◌>>=◌ in
          rw
            (
              es,
              final->>= node (safe_get_evm_address client sender latest_block),
              final-safe_get_evm_address client node chain represents sender,
              to_h256_lem,
              to_h256_lem,
              final->>= node (
                  to_eth_transaction (from_transaction tx) (transaction_client client) none none
                    none),
              final-show_transaction client node chain represents none none hash tx h,
            )
            (map_ok_ext (receipt_of client chain tr sender) _
              (show_transaction client chain none none tx)
              (λ eth_tx.
                rw
                  (
                    final->>= node (logs_of_events client tr.events),
                    final-logs_of_events client node chain represents,
                    to_u256-from_u64 tr.block_number small,
                  )
                  (unfold final in refl))))

  -- The receipt of an invoke transaction in a final block.
  final-receipt_of_invoke :
      (b : Block) (hash : FieldElement) (tx : Starknet.InvokeTransaction)
      (tr : InvokeTransactionReceipt)
      → IsListed chain b (hash, Starknet.Transaction.invoke tx)
      → tr.transaction_hash ≡ hash
      → tr.block_number < 2 ^ 64
      → final node (receipt_of_invoke client tr)
        ≡ map_ok
            (receipt_of client chain tr (invoked tx).sender)
            (show_transaction client chain none none (Starknet.Transaction.invoke tx))
  unfolding sender_address invoke_transaction_field
  final-receipt_of_invoke b hash (Starknet.InvokeTransaction.v0 tx) tr h e small =
      final-sender b tr _ hash _ (ap (locate chain) e ∙ h.located) refl h.is_transaction small
  final-receipt_of_invoke b hash (Starknet.InvokeTransaction.v1 tx) tr h e small =
      final-sender b tr _ hash _ (ap (locate chain) e ∙ h.located) refl h.is_transaction small

  -- The receipt that fits a transaction of a block.
  final-fitting :
      (r : MaybePendingTransactionReceipt) (tx : Starknet.Transaction) (b : Block)
      (place : Option (FieldElement × U64)) (hash : FieldElement)
      → IsPlace place
      → IsListed chain b (hash, tx)
      → Fits place (hash, tx) r
      → final node (receipt_of_reply client r) ≡ show_receipt client chain r tx
  unfolding receipt_of_reply final
  final-fitting (MaybePendingTransactionReceipt.receipt (TransactionReceipt.invoke tr))
        (Starknet.Transaction.invoke tx) b (some (block_hash, number)) hash small h fits =
      rw
        (
          final->>= node (receipt_of_invoke client tr),
          final-receipt_of_invoke b hash tx tr h fits.2 (rw fits.1 small),
        )
        (map_ok_lem some (
            map_ok (receipt_of client chain tr (invoked tx).sender)
              (show_invoked client chain none none (invoked tx)))
          ∙ map_ok-map_ok some (receipt_of client chain tr (invoked tx).sender)
              (show_invoked client chain none none (invoked tx)))
  final-fitting (MaybePendingTransactionReceipt.receipt (TransactionReceipt.invoke tr))
        (Starknet.Transaction.invoke tx) b none hash small h fits =
      absurd fits
  final-fitting (MaybePendingTransactionReceipt.receipt (TransactionReceipt.invoke tr))
        Starknet.Transaction.l1_handler b none hash small h fits =
      absurd fits
  final-fitting (MaybePendingTransactionReceipt.receipt (TransactionReceipt.invoke tr))
        Starknet.Transaction.l1_handler b (some (block_hash, number)) hash small h fits =
      absurd fits
  final-fitting (MaybePendingTransactionReceipt.receipt (TransactionReceipt.invoke tr))
        Starknet.Transaction.declare b none hash small h fits =
      absurd fits
  final-fitting (MaybePendingTransactionReceipt.receipt (TransactionReceipt.invoke tr))
        Starknet.Transaction.declare b (some (block_hash, number)) hash small h fits =
      absurd fits
  final-fitting (MaybePendingTransactionReceipt.receipt (TransactionReceipt.invoke tr))
        Starknet.Transaction.deploy b none hash small h fits =
      absurd fits
  final-fitting (MaybePendingTransactionReceipt.receipt (TransactionReceipt.invoke tr))
        Starknet.Transaction.deploy b (some (block_hash, number)) hash small h fits =
      absurd fits
  final-fitting (MaybePendingTransactionReceipt.receipt (TransactionReceipt.invoke tr))
        Starknet.Transaction.deploy_account b none hash small h fits =
      absurd fits
  final-fitting (MaybePendingTransactionReceipt.receipt (TransactionReceipt.invoke tr))
        Starknet.Transaction.deploy_account b (some (block_hash, number)) hash small h fits =
      absurd fits
  final-fitting (MaybePendingTransactionReceipt.receipt TransactionReceipt.l1_handler) tx b place
        hash small h fits =
      refl
  final-fitting (MaybePendingTransactionReceipt.receipt TransactionReceipt.declare) tx b place hash
        small h fits =
      refl
  final-fitting (MaybePendingTransactionReceipt.receipt TransactionReceipt.deploy) tx b place hash
        small h fits =
      refl
  final-fitting (MaybePendingTransactionReceipt.receipt TransactionReceipt.deploy_account) tx b
        place hash small h fits =
      refl
  final-fitting MaybePendingTransactionReceipt.pending_receipt tx b place hash small h fits = refl

  final-asked :
      (hash : FieldElement)
      → IsChain chain
      → final node
          (Async.◌>>=◌ (Async.ask (Request.get_transaction_receipt hash)) (receipt_of_reply client))
        ≡ Outcome.◌>>=◌
            (ok_or (missing transaction_hash_not_found) (locate chain hash))
            (λ t. show_receipt client chain (chain.receipt hash) t.1)
  final-asked hash h = elim (Option-cases (locate chain hash)) [
    | inl absent ↦ rw (absent, final->>=, final-ask, represents.receipt_told hash, absent)
    | inr (t, held) ↦
        let (small, listed) =
          locate_in-All (λ b t. IsPlace b.place × IsListed chain b t) (all_blocks chain) hash t.0
            t.1
            (All-imp (all_blocks chain)
              (λ b l. All-imp b.transactions (λ t i. (l.is_place, i)) l.are_listed) h)
            held in
        rw (held, final->>=, final-ask, represents.receipt_told hash, held)
          (final-fitting (chain.receipt hash) t.1 t.0 t.0.place hash small listed listed.fits)
  ]

  -- The receipt of the transaction with a hash is the one that the chain shows.
  pub final-show_receipt :
      (h : H256)
      → IsArray 32 h
      → IsChain chain
      → final node (transaction_receipt client h)
        ≡ Outcome.◌>>=◌ (felt_of_hash h) (λ hash.
          Outcome.◌>>=◌
            (ok_or (missing transaction_hash_not_found) (locate chain hash))
            (λ t. show_receipt client chain (chain.receipt hash) t.1))
  unfolding transaction_receipt eth_of_felt_error
  final-show_receipt h a chained = elim (Bool-cases (ltb (be_value h) prime)) [
    | inl lt ↦
        rw (try_from_h256_lem h a, lt) (unfold Async.◌>>=◌ in final-asked (be_value h) chained)
    | inr ge ↦ rw (try_from_h256_lem h a, ge) (unfold Async.◌>>=◌ final in refl)
  ]
