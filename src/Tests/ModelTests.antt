-- ===== src/Tests/ModelTests.antt =====
-- The conversions of crates/core/src/models at concrete inputs.
use kakarot_rpc_adapter.Prelude.{
  ℕ, ◌+◌, ◌*◌, ◌^◌, ◌≡◌, refl, [], ◌∷◌, ◌++◌, map, none, some, false, inr, arith, length,
  if◌then◌else◌, ltb,
}
use kakarot_rpc_adapter.Prelude.Bytes.{be_value, be_bytes}
use kakarot_rpc_adapter.Types.{IsArray, prime}
use kakarot_rpc_adapter.Errors.{EthApiError, from_byte_array_error}
use kakarot_rpc_adapter.Outcome.{ok, err, ◌>>=◌}
use kakarot_rpc_adapter.Async.{Request}
use kakarot_rpc_adapter.Async.Run.{run}
use kakarot_rpc_adapter.Starknet
use kakarot_rpc_adapter.Eth
use kakarot_rpc_adapter.Client.Constants.{chain_id}
use kakarot_rpc_adapter.Client.Helpers.{vec_felt_to_bytes}
use kakarot_rpc_adapter.Models.Felt.{
  from_h160, to_h160, to_h256, try_from_h256, try_from_u256, to_u256,
}
use kakarot_rpc_adapter.Models.Felt.RoundTrip.{
  to_h160-from_h160, to_h256-try_from_h256, to_u256-try_from_u256,
}
use kakarot_rpc_adapter.Models.Event.{to_eth_log}
use kakarot_rpc_adapter.Models.Event.Logs.{topic_keys, to_eth_log-topic_keys, to_eth_log_only}
use kakarot_rpc_adapter.Models.Transaction.{from_transaction, to_eth_transaction}
use kakarot_rpc_adapter.Models.Transaction.Kakarot.{to_eth_transaction_only, to_eth_transaction_lem}
use kakarot_rpc_adapter.Tests.Invoke.{
  sender_of_invoke, hash_of_invoke, nonce_of_invoke, calldata_of_invoke, submitted_signature,
}
use kakarot_rpc_adapter.Tests.Sample.{
  address_of, signed, sample, node, tx_client, block_client, submitted, invoke_tx,
}

address-IsArray : IsArray 20 (address_of 3)
address-IsArray = (refl, grind arith)

to_h160-from_h160_example :
    (from_h160 {E = EthApiError} (address_of 3) >>= to_h160) ≡ ok (address_of 3)
to_h160-from_h160_example = to_h160-from_h160 (address_of 3) address-IsArray

to_eth_log-topic_keys_example :
    to_eth_log
      (record {
        from_address = 100;
        keys = topic_keys (2 ^ 255 ∷ 6 ∷ []) ++ be_value (address_of 3) ∷ [];
        event_data = 8 ∷ [];
      })
      tx_client
      none
      (some 4)
      none
      none
      none
    ≡ ok (record {
      address = address_of 3;
      topics = map (be_bytes 32) (2 ^ 255 ∷ 6 ∷ []);
      log_data = vec_felt_to_bytes (8 ∷ []);
      block_hash = none;
      block_number = some 4;
      transaction_hash = none;
      log_index = none;
      transaction_index = none;
      removed = false;
    })
to_eth_log-topic_keys_example =
    to_eth_log-topic_keys tx_client (address_of 3) (2 ^ 255 ∷ 6 ∷ []) (8 ∷ []) none none (some 4)
      none none address-IsArray (omega arith, (omega arith, tt))

to_eth_log_only_example :
    (◌≡◌ {A = ℕ} 100 100)
    × (length (topic_keys (6 ∷ []) ++ be_value (address_of 3) ∷ []) ≡ 2 * 1 + 1)
to_eth_log_only_example =
    to_eth_log_only
      (record {
        from_address = 100;
        keys = topic_keys (6 ∷ []) ++ be_value (address_of 3) ∷ [];
        event_data = 8 ∷ [];
      })
      tx_client none none none none none
      (record {
        address = address_of 3;
        topics = map (be_bytes 32) (6 ∷ []);
        log_data = vec_felt_to_bytes (8 ∷ []);
        block_hash = none;
        block_number = none;
        transaction_hash = none;
        log_index = none;
        transaction_index = none;
        removed = false;
      })
      (to_eth_log-topic_keys tx_client (address_of 3) (6 ∷ []) (8 ∷ []) none none none none none
        address-IsArray (omega arith, tt))

to_h256-try_from_h256_example : (try_from_h256 (be_bytes 32 (2 ^ 255)) >>= to_h256) ≡ (
    if ltb (be_value (be_bytes 32 (2 ^ 255))) prime
    then ok (be_bytes 32 (2 ^ 255))
    else err from_byte_array_error)
to_h256-try_from_h256_example =
    to_h256-try_from_h256 (be_bytes 32 (2 ^ 255)) (sample.felt_to_bytes_be-IsArray (2 ^ 255))

to_u256-try_from_u256_example :
    (try_from_u256 (2 ^ 255) >>= λ w. ok (to_u256 w)) ≡ err from_byte_array_error
to_u256-try_from_u256_example = to_u256-try_from_u256 (2 ^ 255) (omega arith)

from_of_invoke :
    run (tx_client.get_evm_address 42 (Starknet.BlockId.tag Starknet.BlockTag.latest)) (node []) 1
    ≡ (ok (address_of 3), 1)
unfolding run
from_of_invoke = refl

abbrev eth_invoke : Eth.Transaction
eth_invoke = record {
  hash = be_bytes 32 5;
  nonce = 9;
  block_hash = none;
  block_number = some 12;
  transaction_index = some 0;
  from = address_of 3;
  to = none;
  value = 100;
  gas_price = none;
  gas = 100;
  max_fee_per_gas = none;
  max_priority_fee_per_gas = some 1;
  input = vec_felt_to_bytes submitted;
  signature = some (record { r = 5; s = 6; v = 1 + 35 + 2 * chain_id });
  chain_id = some chain_id;
  access_list = none;
  transaction_type = none;
}

to_eth_transaction_example :
    run
      (to_eth_transaction (from_transaction invoke_tx) tx_client none (some 12) (some 0))
      (node [])
      0
    ≡ (ok eth_invoke, 1)
to_eth_transaction_example =
    to_eth_transaction_lem (from_transaction invoke_tx) tx_client none (some 12) (some 0) (node [])
      0 42 5 9 submitted (address_of 3) signed.signature 1 sender_of_invoke hash_of_invoke
      nonce_of_invoke calldata_of_invoke (omega arith) refl from_of_invoke submitted_signature

to_eth_transaction_only_example :
    node [] 0 (Request.get_class_hash_at (Starknet.BlockId.tag Starknet.BlockTag.latest) 42)
    ≡ inr 77
to_eth_transaction_only_example =
    to_eth_transaction_only (from_transaction invoke_tx) tx_client none (some 12) (some 0) (node [])
      0 42 eth_invoke 1 sender_of_invoke
      (to_eth_transaction_lem (from_transaction invoke_tx) tx_client none (some 12) (some 0)
        (node []) 0 42 5 9 submitted (address_of 3) signed.signature 1 sender_of_invoke
        hash_of_invoke nonce_of_invoke calldata_of_invoke (omega arith) refl from_of_invoke
        submitted_signature)

abbrev final_block : Starknet.MaybePendingBlockWithTxs
final_block = Starknet.MaybePendingBlockWithTxs.block (record {
  block_hash = 1;
  parent_hash = 2;
  block_number = 3;
  timestamp = 4;
  sequencer_address = 5;
  transactions = [];
})

run-filter :
    run (block_client.filter_starknet_into_eth_txs [] (some (be_bytes 32 1)) (some 3)) (node []) 0
    ≡ (ok (Eth.BlockTransactions.full []), 0)
unfolding run
run-filter = refl
