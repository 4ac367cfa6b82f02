-- ===== src/Server/Chain/Transactions.antt =====
-- The conversion of a transaction, over a node that holds a chain, gives what the chain shows of it:
-- crates/core/src/models/transaction.rs.
use kakarot_rpc_adapter.Prelude.{
  ◌≡◌, refl, ap, ◌∙◌, Option, none, some, false, ◌==◌, ==_iff, Bool-cases, Option-cases, inl, inr,
}
use kakarot_rpc_adapter.Types.{FieldElement, IsFelt, U64, U256}
use kakarot_rpc_adapter.Errors.{
  EthApiError, contract_not_found, contract_error, conversion_error, transaction_conversion_error,
}
use kakarot_rpc_adapter.Client.Constants.{invalid_transaction_type}
use kakarot_rpc_adapter.Outcome.{ok, err, map_ok, map_err}
use kakarot_rpc_adapter.Crates.{Crates}
use kakarot_rpc_adapter.Starknet
use kakarot_rpc_adapter.Eth
use kakarot_rpc_adapter.Async.{Async, ◌>>=◌}
use kakarot_rpc_adapter.Async.Interleaving.{Node, final}
use kakarot_rpc_adapter.Async.Final.{final->>=, final-pure}
use kakarot_rpc_adapter.Models.Felt.{from_felt}
use kakarot_rpc_adapter.Models.Felt.RoundTrip.{to_h256_lem, to_u256_lem}
use kakarot_rpc_adapter.Models.Transaction.{
  StarknetTransaction, from_transaction, transaction_hash, nonce, calldata, sender_address,
  invoke_transaction_field, is_kakarot_tx, to_eth_transaction, signature_v, latest_block,
}
use kakarot_rpc_adapter.Client.Calls.{decode_signature_from_tx_calldata}
use kakarot_rpc_adapter.Client.Contracts.{KakarotClient, get_evm_address}
use kakarot_rpc_adapter.Client.Transactions.{transaction_client}
use kakarot_rpc_adapter.Server.Chain.{Chain}
use kakarot_rpc_adapter.Server.Chain.Shown.{
  missing, Invoked, invoked, hash_at, number_at, kakarot_transaction, show_signed, show_invoked,
  show_transaction,
}
use kakarot_rpc_adapter.Server.Chain.Senders.{final-is_kakarot_tx, final-get_evm_address}
use kakarot_rpc_adapter.Server.Chain.Told.{Represents, answered, IsTransaction}

-- What the functions of a transaction read, and that its nonce is a field element.
record Reads (tx : StarknetTransaction) (t : Invoked) : Type 0 where
  sender_read : sender_address tx ≡ ok (from_felt t.sender)
  hash_read : transaction_hash tx ≡ ok (from_felt t.hash)
  nonce_read : nonce tx ≡ ok (from_felt t.nonce)
  calldata_read : calldata tx ≡ ok t.calldata
  nonce-IsFelt : IsFelt t.nonce

module _ ⦃crates : Crates⦄ (client : KakarotClient) (node : Node) where
  module _ (chain : Chain) (represents : Represents client node chain)
      (place : Option (FieldElement × U64)) (index : Option U256) where
    -- The conversion of a transaction at its place.
    abbrev convert : StarknetTransaction → Async EthApiError Eth.Transaction
    convert tx =
        to_eth_transaction tx (transaction_client client) (hash_at place) (number_at place) index

    final-answered :
        (tx : StarknetTransaction) (t : Invoked) (a : FieldElement)
        → Reads tx t
        → chain.class_hash t.sender ≡ some client.proxy_account_class_hash
        → chain.evm_address t.sender ≡ some a
        → final node (convert tx)
          ≡ map_ok (kakarot_transaction client place index t a) (
              map_err EthApiError.data_decoding_error
                (decode_signature_from_tx_calldata t.calldata))
    unfolding to_eth_transaction signature_v
    final-answered tx t a reads h held =
        rw
          (
            final->>=,
            final-is_kakarot_tx client node tx t.sender reads.sender_read,
            represents.class_told t.sender,
            h,
            (==_iff client.proxy_account_class_hash client.proxy_account_class_hash).1 refl,
          )
          (unfold ◌>>=◌ in
            rw
              (
                reads.sender_read,
                reads.hash_read,
                to_h256_lem,
                reads.nonce_read,
                final->>= node (get_evm_address client t.sender latest_block),
                final-get_evm_address client node t.sender (some a)
                    (represents.address_told t.sender ∙ ap answered held),
                reads.calldata_read,
                to_u256_lem t.nonce reads.nonce-IsFelt,
              )
              (final-pure node
                (map_err EthApiError.data_decoding_error
                  (decode_signature_from_tx_calldata t.calldata))
                (kakarot_transaction client place index t a)))

    final-unanswered :
        (tx : StarknetTransaction) (t : Invoked)
        → Reads tx t
        → chain.class_hash t.sender ≡ some client.proxy_account_class_hash
        → chain.evm_address t.sender ≡ none
        → final node (convert tx) ≡ err (missing contract_error)
    unfolding to_eth_transaction signature_v
    final-unanswered tx t reads h held =
        rw
          (
            final->>=,
            final-is_kakarot_tx client node tx t.sender reads.sender_read,
            represents.class_told t.sender,
            h,
            (==_iff client.proxy_account_class_hash client.proxy_account_class_hash).1 refl,
          )
          (unfold ◌>>=◌ in
            rw
              (
                reads.sender_read,
                reads.hash_read,
                to_h256_lem,
                reads.nonce_read,
                final->>= node (get_evm_address client t.sender latest_block),
                final-get_evm_address client node t.sender none
                    (represents.address_told t.sender ∙ ap answered held),
              )
              refl)

    final-to_eth_transaction :
        (tx : StarknetTransaction) (t : Invoked)
        → Reads tx t
        → chain.class_hash t.sender ≡ some client.proxy_account_class_hash
        → final node (convert tx) ≡ show_signed client chain place index t
    final-to_eth_transaction tx t reads h = elim (Option-cases (chain.evm_address t.sender)) [
      | inl absent ↦ rw absent (final-unanswered tx t reads h absent)
      | inr (a, held) ↦ rw held (final-answered tx t a reads h held)
    ]

    final-absent :
        (tx : StarknetTransaction) (t : Invoked)
        → sender_address tx ≡ ok (from_felt t.sender)
        → chain.class_hash t.sender ≡ none
        → final node (convert tx) ≡ err (missing contract_not_found)
    unfolding to_eth_transaction
    final-absent tx t es h = rw (
      final->>=,
      final-is_kakarot_tx client node tx t.sender es,
      represents.class_told t.sender,
      h,
    )

    final-refused :
        (tx : StarknetTransaction) (t : Invoked) (c : FieldElement)
        → sender_address tx ≡ ok (from_felt t.sender)
        → chain.class_hash t.sender ≡ some c
        → (c == client.proxy_account_class_hash) ≡ false
        → final node (convert tx)
          ≡ err (EthApiError.other_error "Kakarot Filter: Tx is not part of Kakarot")
    unfolding to_eth_transaction
    final-refused tx t c es h other =
        rw
          (
            final->>=,
            final-is_kakarot_tx client node tx t.sender es,
            represents.class_told t.sender,
            h,
            other,
          )
          (unfold final in refl)

    -- The three ways in which the node may answer for the class of the sender.
    final-invoked :
        (tx : StarknetTransaction) (t : Invoked)
        → Reads tx t
        → final node (convert tx) ≡ show_invoked client chain place index t
    final-invoked tx t reads = elim (Option-cases (chain.class_hash t.sender)) [
      | inl absent ↦ rw absent (final-absent tx t reads.sender_read absent)
      | inr (c, held) ↦ elim (Bool-cases (c == client.proxy_account_class_hash)) [
        | inl same ↦
            rw (held, same)
              (final-to_eth_transaction tx t reads
                (rw held (ap some ((==_iff c client.proxy_account_class_hash).0 same))))
        | inr other ↦ rw (held, other) (final-refused tx t c reads.sender_read held other)
      ]
    ]

    final-other :
        (tx : StarknetTransaction)
        → sender_address tx ≡ err (transaction_conversion_error invalid_transaction_type)
        → final node (convert tx)
          ≡ err (conversion_error (transaction_conversion_error invalid_transaction_type))
    unfolding to_eth_transaction is_kakarot_tx ◌>>=◌ final
    final-other tx e = rw e

    -- The conversion of a transaction gives what the chain shows of it.
    pub final-show_transaction :
        (hash : FieldElement) (tx : Starknet.Transaction)
        → IsTransaction hash tx
        → final node (
            to_eth_transaction
              (from_transaction tx)
              (transaction_client client)
              (hash_at place)
              (number_at place)
              index)
          ≡ show_transaction client chain place index tx
    unfolding sender_address transaction_hash nonce calldata invoke_transaction_field
    final-show_transaction hash (Starknet.Transaction.invoke (Starknet.InvokeTransaction.v0 tx)) h =
        final-invoked _ (invoked (Starknet.InvokeTransaction.v0 tx)) (record {
          sender_read = refl;
          hash_read = refl;
          nonce_read = refl;
          calldata_read = refl;
          nonce-IsFelt = h.1;
        })
    final-show_transaction hash (Starknet.Transaction.invoke (Starknet.InvokeTransaction.v1 tx)) h =
        final-invoked _ (invoked (Starknet.InvokeTransaction.v1 tx)) (record {
          sender_read = refl;
          hash_read = refl;
          nonce_read = refl;
          calldata_read = refl;
          nonce-IsFelt = h.1;
        })
    final-show_transaction hash Starknet.Transaction.l1_handler h = final-other _ refl
    final-show_transaction hash Starknet.Transaction.declare h = final-other _ refl
    final-show_transaction hash Starknet.Transaction.deploy h = final-other _ refl
    final-show_transaction hash Starknet.Transaction.deploy_account h = final-other _ refl
