-- ===== src/Server/Chain/Places.antt =====
-- The transactions that the client gives by their hash, or by their place in a block, over a node that
-- holds a chain, are the ones that the chain shows: crates/core/src/client/mod.rs.
use kakarot_rpc_adapter.Prelude.{
  ℕ, ◌≡◌, refl, ap, none, some, Option-cases, inl, inr, get_elem?, ltb, Bool-cases, All-imp,
}
use kakarot_rpc_adapter.Prelude.Bytes.{be_value}
use kakarot_rpc_adapter.Types.{FieldElement, IsArray, H256, prime}
use kakarot_rpc_adapter.Errors.{
  block_not_found, invalid_transaction_index, transaction_hash_not_found, conversion_error,
  transaction_conversion_error, eth_of_felt_error,
}
use kakarot_rpc_adapter.Outcome
use kakarot_rpc_adapter.Outcome.{Outcome, ok, err, ok_or}
use kakarot_rpc_adapter.Crates.{Crates}
use kakarot_rpc_adapter.Starknet
use kakarot_rpc_adapter.Starknet.{MaybePendingTransactionReceipt, TransactionReceipt}
use kakarot_rpc_adapter.Async
use kakarot_rpc_adapter.Async.{Async, Request}
use kakarot_rpc_adapter.Async.Interleaving.{Node, final}
use kakarot_rpc_adapter.Async.Final.{final->>=, final-ask}
use kakarot_rpc_adapter.Models.Felt.{from_felt}
use kakarot_rpc_adapter.Models.Felt.RoundTrip.{try_from_h256_lem}
use kakarot_rpc_adapter.Models.Transaction.{
  from_transaction, transaction_hash, invoke_transaction_field,
}
use kakarot_rpc_adapter.Client.Constants.{invalid_transaction_type}
use kakarot_rpc_adapter.Client.Contracts.{KakarotClient}
use kakarot_rpc_adapter.Client.Transactions.{transaction_by_block_id_and_index, transaction_by_hash}
use kakarot_rpc_adapter.Server.Chain.{Block, Chain, find, locate, all_blocks}
use kakarot_rpc_adapter.Server.Chain.Shown.{missing, show_transaction}
use kakarot_rpc_adapter.Server.Chain.Queries.{felt_of_hash}
use kakarot_rpc_adapter.Server.Chain.Told.{Represents, IsListed, IsBlock, IsChain}
use kakarot_rpc_adapter.Server.Chain.Found.{find-All, get_elem?-All, locate_in-All}
use kakarot_rpc_adapter.Server.Chain.Placed.{placed, final-placed}

module _ ⦃crates : Crates⦄ (client : KakarotClient) (node : Node) (chain : Chain)
    (represents : Represents client node chain) where
  final-hashed :
      (id : Starknet.BlockId) (index : ℕ) (b : Block) (hash : FieldElement)
      (tx : Starknet.InvokeTransaction)
      → transaction_hash (from_transaction (Starknet.Transaction.invoke tx)) ≡ ok (from_felt hash)
      → IsListed chain b (hash, Starknet.Transaction.invoke tx)
      → find chain id ≡ some b
      → get_elem? b.transactions index ≡ some (hash, Starknet.Transaction.invoke tx)
      → final node (transaction_by_block_id_and_index client id index)
        ≡ show_transaction client chain b.place (some index) (Starknet.Transaction.invoke tx)
  unfolding transaction_by_block_id_and_index placed
  final-hashed id index b hash tx eh h e eg =
      rw (final->>=, final-ask, represents.transaction_told id index, e, eg, eh)
        (unfold Async.◌>>=◌ in
          rw
            (
              final->>= node (Async.ask (Request.get_transaction_receipt hash)),
              final-ask,
              represents.receipt_told hash,
              h.located,
            )
            (unfold Async.◌>>=◌ in
              final-placed client node chain represents b hash (Starknet.Transaction.invoke tx)
                (some index) h))

  -- A transaction without a hash that can be read is a conversion error.
  final-unhashed :
      (id : Starknet.BlockId) (index : ℕ) (b : Block) (hash : FieldElement)
      (tx : Starknet.Transaction)
      → transaction_hash (from_transaction tx)
        ≡ err (transaction_conversion_error invalid_transaction_type)
      → find chain id ≡ some b
      → get_elem? b.transactions index ≡ some (hash, tx)
      → final node (transaction_by_block_id_and_index client id index)
        ≡ err (conversion_error (transaction_conversion_error invalid_transaction_type))
  unfolding transaction_by_block_id_and_index
  final-unhashed id index b hash tx eh e eg =
      rw (final->>=, final-ask, represents.transaction_told id index, e, eg, eh)
        (unfold Async.◌>>=◌ final in refl)

  final-at :
      (id : Starknet.BlockId) (index : ℕ) (b : Block) (hash : FieldElement)
      (tx : Starknet.Transaction)
      → IsListed chain b (hash, tx)
      → find chain id ≡ some b
      → get_elem? b.transactions index ≡ some (hash, tx)
      → final node (transaction_by_block_id_and_index client id index)
        ≡ show_transaction client chain b.place (some index) tx
  unfolding transaction_hash invoke_transaction_field
  final-at id index b hash (Starknet.Transaction.invoke (Starknet.InvokeTransaction.v0 tx)) h e eg =
      final-hashed id index b hash (Starknet.InvokeTransaction.v0 tx)
        (ap (λ x. ok (from_felt x)) h.is_transaction.0) h e eg
  final-at id index b hash (Starknet.Transaction.invoke (Starknet.InvokeTransaction.v1 tx)) h e eg =
      final-hashed id index b hash (Starknet.InvokeTransaction.v1 tx)
        (ap (λ x. ok (from_felt x)) h.is_transaction.0) h e eg
  final-at id index b hash Starknet.Transaction.l1_handler h e eg =
      final-unhashed id index b hash _ refl e eg
  final-at id index b hash Starknet.Transaction.declare h e eg =
      final-unhashed id index b hash _ refl e eg
  final-at id index b hash Starknet.Transaction.deploy h e eg =
      final-unhashed id index b hash _ refl e eg
  final-at id index b hash Starknet.Transaction.deploy_account h e eg =
      final-unhashed id index b hash _ refl e eg

  final-in_block :
      (id : Starknet.BlockId) (index : ℕ) (b : Block)
      → IsBlock chain b
      → find chain id ≡ some b
      → final node (transaction_by_block_id_and_index client id index)
        ≡ Outcome.◌>>=◌
            (ok_or (missing invalid_transaction_index) (get_elem? b.transactions index))
            (λ t. show_transaction client chain b.place (some index) t.1)
  final-in_block id index b h e = elim (Option-cases (get_elem? b.transactions index)) [
    | inl absent ↦ rw absent (
        unfold transaction_by_block_id_and_index in
        rw (final->>=, final-ask, represents.transaction_told id index, e, absent) refl)
    | inr (t, held) ↦ rw held (
        final-at id index b t.0 t.1
          (get_elem?-All (IsListed chain b) b.transactions index t h.are_listed held) e held)
  ]

  -- The transaction at a place of a block is the one that the chain shows.
  pub final-show_at :
      (id : Starknet.BlockId) (index : ℕ)
      → IsChain chain
      → final node (transaction_by_block_id_and_index client id index)
        ≡ Outcome.◌>>=◌ (ok_or (missing block_not_found) (find chain id)) (λ b.
          Outcome.◌>>=◌
            (ok_or (missing invalid_transaction_index) (get_elem? b.transactions index))
            (λ t. show_transaction client chain b.place (some index) t.1))
  final-show_at id index h = elim (Option-cases (find chain id)) [
    | inl absent ↦ rw absent (
        unfold transaction_by_block_id_and_index in
        rw (final->>=, final-ask, represents.transaction_told id index, absent) refl)
    | inr (b, held) ↦
        rw held (final-in_block id index b (find-All (IsBlock chain) chain id b h held) held)
  ]

  final-located :
      (hash : FieldElement)
      → IsChain chain
      → final node (
          Async.◌>>=◌ (Async.ask (Request.get_transaction_by_hash hash)) λ tx.
            Async.◌>>=◌
              (Async.ask (Request.get_transaction_receipt hash))
              λ r. placed client node chain represents r tx none)
        ≡ Outcome.◌>>=◌
            (ok_or (missing transaction_hash_not_found) (locate chain hash))
            (λ t. show_transaction client chain t.0.place none t.1)
  final-located hash h = elim (Option-cases (locate chain hash)) [
    | inl absent ↦ rw (absent, final->>=, final-ask, represents.located_told hash, absent)
    | inr (t, held) ↦
        rw
          (
            held,
            final->>=,
            final-ask,
            represents.located_told hash,
            held,
            final->>= node (Async.ask (Request.get_transaction_receipt hash)),
            final-ask node (Request.get_transaction_receipt hash),
            represents.receipt_told hash,
            held,
          )
          (final-placed client node chain represents t.0 hash t.1 none (
            locate_in-All (IsListed chain) (all_blocks chain) hash t.0 t.1
              (All-imp (all_blocks chain) (λ b l. l.are_listed) h) held))
  ]

  -- The transaction with a hash is the one that the chain shows.
  pub final-show_hash :
      (h : H256)
      → IsArray 32 h
      → IsChain chain
      → final node (transaction_by_hash client h)
        ≡ Outcome.◌>>=◌ (felt_of_hash h) (λ hash.
          Outcome.◌>>=◌
            (ok_or (missing transaction_hash_not_found) (locate chain hash))
            (λ t. show_transaction client chain t.0.place none t.1))
  unfolding transaction_by_hash eth_of_felt_error
  final-show_hash h a chained = elim (Bool-cases (ltb (be_value h) prime)) [
    | inl lt ↦
        rw (try_from_h256_lem h a, lt)
          (unfold Async.◌>>=◌ in (unfold placed in final-located (be_value h) chained))
    | inr ge ↦ rw (try_from_h256_lem h a, ge) (unfold Async.◌>>=◌ final in refl)
  ]
