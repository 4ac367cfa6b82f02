-- ===== src/Models/Transaction.antt =====
-- crates/core/src/models/transaction.rs: a Starknet transaction as an Ethereum transaction.
pub mod Kakarot
use kakarot_rpc_adapter.Prelude.{
  ℕ, ◌+◌, ◌*◌, List, [], Option, none, some, Bool, not, ◌==◌, if◌then◌else◌,
}
use kakarot_rpc_adapter.Types.{FieldElement, H256, U256}
use kakarot_rpc_adapter.Errors.{EthApiError, ConversionError, transaction_conversion_error}
use kakarot_rpc_adapter.Outcome.{Outcome, ok, err, panic, map_err}
use kakarot_rpc_adapter.Crates.{Crates}
use kakarot_rpc_adapter.Starknet
use kakarot_rpc_adapter.Eth
use kakarot_rpc_adapter.Async.{Async, Request, ask, pure, throw, lift, ◌>>=◌}
use kakarot_rpc_adapter.Models.Felt.{Felt252Wrapper, from_felt, to_felt, to_h256, to_u256}
use kakarot_rpc_adapter.Client.Constants.{chain_id, invalid_transaction_type}
use kakarot_rpc_adapter.Client.Calls.{decode_signature_from_tx_calldata}
use kakarot_rpc_adapter.Client.Helpers.{vec_felt_to_bytes}
use kakarot_rpc_adapter.Client.Api.{TransactionClient}

pub record StarknetTransaction : Type 0 where
  pub inner : Starknet.Transaction

-- From<Transaction>
abbrev pub from_transaction : Starknet.Transaction → StarknetTransaction
from_transaction tx = record { inner = tx }

-- From<StarknetTransaction> for Transaction
abbrev pub into_transaction : StarknetTransaction → Starknet.Transaction
into_transaction tx = tx.inner

pub record StarknetTransactions : Type 0 where
  pub inner : List Starknet.Transaction

-- From<Vec<Transaction>>
abbrev pub from_transactions : List Starknet.Transaction → StarknetTransactions
from_transactions txs = record { inner = txs }

-- From<StarknetTransactions> for Vec<Transaction>
abbrev pub into_transactions : StarknetTransactions → List Starknet.Transaction
into_transactions txs = txs.inner

-- The macro `get_invoke_transaction_field`: a field of either version of an invoke transaction.
unfoldable pub invoke_transaction_field :
    {A : Type 0}
    → (Starknet.InvokeTransactionV0 → A)
    → (Starknet.InvokeTransactionV1 → A)
    → Starknet.Transaction
    → Outcome ConversionError A
invoke_transaction_field field_v0 field_v1
      (Starknet.Transaction.invoke (Starknet.InvokeTransaction.v0 tx)) =
    ok (field_v0 tx)
invoke_transaction_field field_v0 field_v1
      (Starknet.Transaction.invoke (Starknet.InvokeTransaction.v1 tx)) =
    ok (field_v1 tx)
invoke_transaction_field field_v0 field_v1 _ =
    err (transaction_conversion_error invalid_transaction_type)

unfoldable pub transaction_hash : StarknetTransaction → Outcome ConversionError Felt252Wrapper
unfolding invoke_transaction_field
transaction_hash tx =
    invoke_transaction_field (λ t. from_felt t.transaction_hash) (λ t. from_felt t.transaction_hash)
      tx.inner

unfoldable pub nonce : StarknetTransaction → Outcome ConversionError Felt252Wrapper
unfolding invoke_transaction_field
nonce tx = invoke_transaction_field (λ t. from_felt t.nonce) (λ t. from_felt t.nonce) tx.inner

unfoldable pub calldata : StarknetTransaction → Outcome ConversionError (List FieldElement)
unfolding invoke_transaction_field
calldata tx = invoke_transaction_field (λ t. t.calldata) (λ t. t.calldata) tx.inner

unfoldable pub sender_address : StarknetTransaction → Outcome ConversionError Felt252Wrapper
unfolding invoke_transaction_field
sender_address tx =
    invoke_transaction_field (λ t. from_felt t.contract_address) (λ t. from_felt t.sender_address)
      tx.inner

-- `?` on a getter.
abbrev pub converted : {A : Type 0} → Outcome ConversionError A → Async EthApiError A
converted o = lift (map_err EthApiError.conversion_error o)

-- `unwrap_or_default` of a list.
abbrev pub list_or_empty : {E A : Type 0} → Outcome E (List A) → Outcome E (List A)
list_or_empty (ok xs) = ok xs
list_or_empty (err e) = ok []
list_or_empty panic = panic

abbrev pub latest_block : Starknet.BlockId
latest_block = Starknet.BlockId.tag Starknet.BlockTag.latest

unfoldable pub is_kakarot_tx : StarknetTransaction → TransactionClient → Async EthApiError Bool
is_kakarot_tx tx client = do
  sender_address ← converted (sender_address tx)
  class_hash ← ask (Request.get_class_hash_at latest_block (to_felt sender_address))
  pure (class_hash == client.proxy_account_class_hash)

-- `v` of the signature; in 64 bits the sum does not wrap.
unfoldable pub signature_v : Bool → ℕ
signature_v odd_y_parity = (if odd_y_parity then 1 else 0) + 35 + 2 * chain_id

module _ ⦃crates : Crates⦄ where
  unfoldable pub to_eth_transaction :
      StarknetTransaction
      → TransactionClient
      → Option H256
      → Option U256
      → Option U256
      → Async EthApiError Eth.Transaction
  to_eth_transaction tx client block_hash block_number transaction_index = do
    kakarot ← is_kakarot_tx tx client
    if not kakarot
        then throw (EthApiError.other_error "Kakarot Filter: Tx is not part of Kakarot")
        else do
          sender_address ← converted (sender_address tx)
          hash_felt ← converted (transaction_hash tx)
          hash ← lift (to_h256 hash_felt)
          nonce_felt ← converted (nonce tx)
          from ← client.get_evm_address (to_felt sender_address) latest_block
          calldata ← converted (list_or_empty (calldata tx))
          signature ←
              lift (
                map_err EthApiError.data_decoding_error
                  (decode_signature_from_tx_calldata calldata))
          pure (record {
            hash = hash;
            nonce = to_u256 nonce_felt;
            block_hash = block_hash;
            block_number = block_number;
            transaction_index = transaction_index;
            from = from;
            to = none;
            value = 100;
            gas_price = none;
            gas = 100;
            max_fee_per_gas = none;
            max_priority_fee_per_gas = some client.max_priority_fee_per_gas;
            input = vec_felt_to_bytes calldata;
            signature = some (record {
              r = signature.r;
              s = signature.s;
              v = signature_v signature.odd_y_parity;
            });
            chain_id = some chain_id;
            access_list = none;
            transaction_type = none;
          })
