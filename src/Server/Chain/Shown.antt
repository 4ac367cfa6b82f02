-- ===== src/Server/Chain/Shown.antt =====
-- How a chain shows its blocks and transactions: the specification of the conversions of
-- crates/core/src/models and crates/core/src/client/mod.rs.
use kakarot_rpc_adapter.Prelude.{
  ◌+◌, ◌*◌, List, [], ◌∷◌, map, Option, none, some, Bool, true, false, ◌==◌, if◌then◌else◌, drop,
}
use kakarot_rpc_adapter.Types.{FieldElement, H256, U64, U256, Signature}
use kakarot_rpc_adapter.Errors.{
  EthApiError, StarknetError, request_error, conversion_error, other_error, starknet_error,
  contract_not_found, contract_error, transaction_conversion_error,
}
use kakarot_rpc_adapter.Outcome.{Outcome, ok, err, panic, map_err, map_ok, ok_or, ◌>>=◌}
use kakarot_rpc_adapter.Crates.{Crates}
use kakarot_rpc_adapter.Starknet
use kakarot_rpc_adapter.Eth
use kakarot_rpc_adapter.Eth.{BlockId, BlockNumberOrTag, BlockTransactions}
use kakarot_rpc_adapter.Models.Block.{block_of}
use kakarot_rpc_adapter.Client.Constants
use kakarot_rpc_adapter.Client.Constants.{chain_id, invalid_transaction_type}
use kakarot_rpc_adapter.Client.Calls.{decode_signature_from_tx_calldata}
use kakarot_rpc_adapter.Client.Helpers.{vec_felt_to_bytes}
use kakarot_rpc_adapter.Client.Contracts.{KakarotClient}
use kakarot_rpc_adapter.Client.Provider.{block_client}
use kakarot_rpc_adapter.Server.Chain.{Block, Chain}

-- An error of the node.
abbrev pub missing : StarknetError → EthApiError
missing e = request_error (starknet_error e)

-- What either version of an invoke transaction holds.
pub record Invoked : Type 0 where
  pub hash : FieldElement
  pub nonce : FieldElement
  pub sender : FieldElement
  pub calldata : List FieldElement

abbrev pub invoked : Starknet.InvokeTransaction → Invoked
invoked (Starknet.InvokeTransaction.v0 tx) = record {
  hash = tx.transaction_hash;
  nonce = tx.nonce;
  sender = tx.contract_address;
  calldata = tx.calldata;
}
invoked (Starknet.InvokeTransaction.v1 tx) = record {
  hash = tx.transaction_hash;
  nonce = tx.nonce;
  sender = tx.sender_address;
  calldata = tx.calldata;
}

-- The values among the results, in their order; a panic is one of the whole.
abbrev pub values : {E A : Type 0} → List (Outcome E A) → Outcome E (List A)
values [] = ok []
values (ok a ∷ os) = map_ok (λ as'. a ∷ as') (values os)
values (err e ∷ os) = values os
values (panic ∷ os) = panic

module _ ⦃crates : Crates⦄ where
  open crates use {felt_to_bytes_be}

  abbrev pub hash_at : Option (FieldElement × U64) → Option H256
  hash_at none = none
  hash_at (some (hash, number)) = some (felt_to_bytes_be hash)

  abbrev pub number_at : Option (FieldElement × U64) → Option U64
  number_at none = none
  number_at (some (hash, number)) = some number

  module _ (client : KakarotClient) where
    -- The Ethereum transaction that a transaction of Kakarot is.
    abbrev pub kakarot_transaction :
        Option (FieldElement × U64)
        → Option U256
        → Invoked
        → FieldElement
        → Signature
        → Eth.Transaction
    kakarot_transaction place index tx address signature = record {
      hash = felt_to_bytes_be tx.hash;
      nonce = tx.nonce;
      block_hash = hash_at place;
      block_number = number_at place;
      transaction_index = index;
      from = drop 12 (felt_to_bytes_be address);
      to = none;
      value = 100;
      gas_price = none;
      gas = 100;
      max_fee_per_gas = none;
      max_priority_fee_per_gas = some Constants.max_priority_fee_per_gas;
      input = vec_felt_to_bytes tx.calldata;
      signature = some (record {
        r = signature.r;
        s = signature.s;
        v = (if signature.odd_y_parity then 1 else 0) + 35 + 2 * chain_id;
      });
      chain_id = some chain_id;
      access_list = none;
      transaction_type = none;
    }

    module _ (chain : Chain) where
      -- A transaction whose sender has the class of the proxy accounts.
      abbrev pub show_signed :
          Option (FieldElement × U64) → Option U256 → Invoked → Outcome EthApiError Eth.Transaction
      show_signed place index tx = do
        address ← ok_or (missing contract_error) (chain.evm_address tx.sender)
        map_ok (kakarot_transaction place index tx address) (
            map_err EthApiError.data_decoding_error (decode_signature_from_tx_calldata tx.calldata))

      -- An invoke transaction is one of Kakarot if the class of its sender is the one of the proxy
      -- accounts, its sender answers an address and its calldata has a signature.
      abbrev pub show_invoked :
          Option (FieldElement × U64) → Option U256 → Invoked → Outcome EthApiError Eth.Transaction
      show_invoked place index tx = do
        class_hash ← ok_or (missing contract_not_found) (chain.class_hash tx.sender)
        if class_hash == client.proxy_account_class_hash
            then show_signed place index tx
            else err (other_error "Kakarot Filter: Tx is not part of Kakarot")

      -- A transaction as Ethereum shows it.
      abbrev pub show_transaction :
          Option (FieldElement × U64)
          → Option U256
          → Starknet.Transaction
          → Outcome EthApiError Eth.Transaction
      show_transaction place index (Starknet.Transaction.invoke tx) =
          show_invoked place index (invoked tx)
      show_transaction place index _ =
          err (conversion_error (transaction_conversion_error invalid_transaction_type))

      -- The transactions of Kakarot in a block, in its order.
      abbrev pub listed : Block → Outcome EthApiError (List Eth.Transaction)
      listed b = values (map (λ t. show_transaction b.place none t.1) b.transactions)

      abbrev pub show_header : Option (FieldElement × U64) → Block → BlockTransactions → Eth.Block
      show_header place b transactions =
          block_of (block_client client) (hash_at place) (felt_to_bytes_be b.parent_hash)
            (drop 12 (felt_to_bytes_be b.sequencer_address)) b.timestamp (number_at place)
            transactions

      -- A block with the transactions of Kakarot in it, or with the hashes of all its transactions.
      abbrev pub show_block : Bool → Block → Outcome EthApiError Eth.Block
      show_block true b =
          map_ok (λ ts. show_header b.place b (BlockTransactions.full ts)) (listed b)
      show_block false b = ok (
          show_header b.place b
            (BlockTransactions.hashes (map felt_to_bytes_be (map (λ t. t.0) b.transactions))))
