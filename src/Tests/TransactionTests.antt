-- ===== src/Tests/TransactionTests.antt =====
-- The transactions of a block at concrete inputs.
use kakarot_rpc_adapter.Prelude.{
  ◌+◌, ◌*◌, ◌≤◌, ◌≡◌, refl, List, [], ◌∷◌, map, none, some, arith, take, drop,
}
use kakarot_rpc_adapter.Prelude.Bytes.{be_bytes}
use kakarot_rpc_adapter.Errors.{EthApiError, conversion_error, transaction_conversion_error}
use kakarot_rpc_adapter.Outcome.{ok, err}
use kakarot_rpc_adapter.Starknet
use kakarot_rpc_adapter.Eth
use kakarot_rpc_adapter.Client.Constants
use kakarot_rpc_adapter.Async
use kakarot_rpc_adapter.Async.{Async, ask}
use kakarot_rpc_adapter.Async.Interleaving.{Node, steady, final, Steps-ended}
use kakarot_rpc_adapter.Async.Interleaving.Length.{steps_taken}
use kakarot_rpc_adapter.Client.Transactions.Schedule.{steps_taken-conversion}
use kakarot_rpc_adapter.Client.Transactions.AnyOrder.{kept, filter_starknet_into_eth_txs-Steps}
use kakarot_rpc_adapter.Async.Run.{run}
use kakarot_rpc_adapter.Models.Transaction.{
  latest_block, from_transaction, sender_address, invoke_transaction_field,
}
use kakarot_rpc_adapter.Models.Transaction.Kakarot.{
  to_eth_transaction_other, to_eth_transaction_lem,
}
use kakarot_rpc_adapter.Client.Constants.{invalid_transaction_type, eth_send_transaction_selector}
use kakarot_rpc_adapter.Client.Helpers.{vec_felt_to_bytes}
use kakarot_rpc_adapter.Client.Contracts.{get_evm_address}
use kakarot_rpc_adapter.Client.Transactions.{transaction_client, filter_starknet_into_eth_txs}
use kakarot_rpc_adapter.Client.Transactions.Filtered.{
  conversion, in_order, filter_starknet_into_eth_txs_lem,
}
use kakarot_rpc_adapter.Tests.Invoke.{
  sender_of_invoke, hash_of_invoke, nonce_of_invoke, calldata_of_invoke, submitted_signature,
}
use kakarot_rpc_adapter.Tests.Sample.{signed, sample, node, client, submitted, invoke_tx}

dropped_conversion :
    run (conversion client none none Starknet.Transaction.declare) (node []) 0
    ≡ (err (conversion_error (transaction_conversion_error invalid_transaction_type)), 0)
unfolding sender_address invoke_transaction_field
dropped_conversion =
    to_eth_transaction_other (from_transaction Starknet.Transaction.declare)
      (transaction_client client) none none none (node []) 0 refl

abbrev eth_invoke : Eth.Transaction
eth_invoke = record {
  hash = be_bytes 32 5;
  nonce = 9;
  block_hash = none;
  block_number = some 12;
  transaction_index = none;
  from = take 20 (drop 12 (be_bytes 32 11));
  to = none;
  value = 100;
  gas_price = none;
  gas = 100;
  max_fee_per_gas = none;
  max_priority_fee_per_gas = some Constants.max_priority_fee_per_gas;
  input = vec_felt_to_bytes submitted;
  signature = some (record { r = 5; s = 6; v = 1 + 35 + 2 * Constants.chain_id });
  chain_id = some Constants.chain_id;
  access_list = none;
  transaction_type = none;
}

from_of_invoke :
    run (get_evm_address client 42 latest_block) (node (11 ∷ [])) 1
    ≡ (ok (take 20 (drop 12 (be_bytes 32 11))), 2)
unfolding run get_evm_address ask Async.◌>>=◌ be_bytes
from_of_invoke = refl

kept_conversion :
    run (conversion client none (some 12) invoke_tx) (node (11 ∷ [])) 0 ≡ (ok eth_invoke, 2)
kept_conversion =
    to_eth_transaction_lem (from_transaction invoke_tx) (transaction_client client) none (some 12)
      none (node (11 ∷ [])) 0 42 5 9 submitted (take 20 (drop 12 (be_bytes 32 11))) signed.signature
      2 sender_of_invoke hash_of_invoke nonce_of_invoke calldata_of_invoke (omega arith) refl
      from_of_invoke submitted_signature

filter_starknet_into_eth_txs_example :
    run
      (filter_starknet_into_eth_txs client
        (invoke_tx ∷ Starknet.Transaction.declare ∷ [])
        none
        (some 12))
      (node (11 ∷ []))
      0
    ≡ in_order client none
        (some 12)
        (node (11 ∷ []))
        (invoke_tx ∷ Starknet.Transaction.declare ∷ [])
        0
filter_starknet_into_eth_txs_example =
    filter_starknet_into_eth_txs_lem client none (some 12) (node (11 ∷ []))
      (invoke_tx ∷ Starknet.Transaction.declare ∷ []) 0

abbrev calm : Node
calm r = node (11 ∷ []) 0 r

abbrev conversions : List (Async EthApiError Eth.Transaction)
conversions = map (conversion client none (some 12)) (invoke_tx ∷ Starknet.Transaction.declare ∷ [])

filter_starknet_into_eth_txs-Steps_example :
    (run
      (filter_starknet_into_eth_txs client
        (invoke_tx ∷ Starknet.Transaction.declare ∷ [])
        none
        (some 12))
      (steady calm)
      0).0
    ≡ kept (map (final calm) conversions)
filter_starknet_into_eth_txs-Steps_example =
    filter_starknet_into_eth_txs-Steps client none (some 12) calm
      (invoke_tx ∷ Starknet.Transaction.declare ∷ []) (map (final calm) conversions) 0
      (Steps-ended calm conversions)

steps_taken-conversion_example : steps_taken calm (Steps-ended calm conversions) ≤ 4
steps_taken-conversion_example =
    steps_taken-conversion client none (some 12) calm
      (invoke_tx ∷ Starknet.Transaction.declare ∷ []) (Steps-ended calm conversions)
