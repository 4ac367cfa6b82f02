-- ===== src/Tests/ClientTests.antt =====
-- The client and the JSON-RPC methods (crates/core/src/client, crates/eth-rpc/src) at concrete inputs.
use kakarot_rpc_adapter.Prelude.{
  ◌%◌, ◌^◌, ◌≡◌, refl, List, [], ◌∷◌, map, replicate, none, some, inr, arith,
}
use kakarot_rpc_adapter.Prelude.Bytes.{be_bytes}
use kakarot_rpc_adapter.Types.{IsArray, prime}
use kakarot_rpc_adapter.Errors.{signature_decoding_error}
use kakarot_rpc_adapter.Outcome.{ok, ◌>>=◌, map_err, of_result}
use kakarot_rpc_adapter.Starknet
use kakarot_rpc_adapter.Eth
use kakarot_rpc_adapter.Async.Run.{run}
use kakarot_rpc_adapter.Models.Transaction.{latest_block}
use kakarot_rpc_adapter.Models.Event.Logs.{topic_keys}
use kakarot_rpc_adapter.Client.Decode.Loops.{
  decode_eth_call_return_while, decode_eth_send_transaction_return_while,
}
use kakarot_rpc_adapter.Client.Decode.Total.{
  decode_eth_call_return_while_lem, decode_eth_send_transaction_return_while_lem,
}
use kakarot_rpc_adapter.Client.Calls.{
  try_from_calldata, execute_calldata_of, raw_starknet_calldata, decode_signature_from_tx_calldata,
}
use kakarot_rpc_adapter.Client.Calls.Layout.{shifted, try_from_calldata-execute_calldata_of}
use kakarot_rpc_adapter.Client.Calls.Submitted.{decode_signature-raw_starknet_calldata}
use kakarot_rpc_adapter.Client.Decode.{
  felt_array, decode_eth_call_return, decode_eth_send_transaction_return,
}
use kakarot_rpc_adapter.Client.Decode.Segments.{
  SendTransactionReturn, cells, segments, decode_eth_call_return_lem,
  decode_eth_send_transaction_return-cells,
}
use kakarot_rpc_adapter.Client.Helpers.{
  ethers_block_id_to_starknet_block_id, ethers_block_number_to_starknet_block_id,
}
use kakarot_rpc_adapter.Client.Transactions.{send_transaction}
use kakarot_rpc_adapter.Client.Transactions.Submission.{send_transaction_lem}
use kakarot_rpc_adapter.Client.Receipts.{topics_of_keys}
use kakarot_rpc_adapter.Client.Receipts.Topics.{topics_of_keys-topic_keys}
use kakarot_rpc_adapter.Client.Chain.{fee_history, base_fee_per_gas}
use kakarot_rpc_adapter.Client.Chain.Fees.{fee_history_lem}
use kakarot_rpc_adapter.Client.Provider.{kakarot_provider}
use kakarot_rpc_adapter.Client.Receipts.{logs_of_events}
use kakarot_rpc_adapter.Client.Receipts.Logs.{logs_from, logs_of_events_lem}
use kakarot_rpc_adapter.Rpc
use kakarot_rpc_adapter.Rpc.{or_latest}
use kakarot_rpc_adapter.Rpc.EthCall.{call_lem}
use kakarot_rpc_adapter.Tests.Sample.{address_of, signed, sample, node, broken, client}

address-IsArray : IsArray 20 (address_of 3)
address-IsArray = (refl, grind arith)

latest_id : ethers_block_id_to_starknet_block_id (or_latest none) ≡ ok latest_block
unfolding ethers_block_id_to_starknet_block_id or_latest ethers_block_number_to_starknet_block_id
latest_id = refl

call_example :
    run
      (Rpc.call
        (kakarot_provider client)
        (record { to = some (address_of 3); calldata = some (1 ∷ []) })
        none)
      (node (2 ∷ 200 ∷ 201 ∷ 9 ∷ []))
      0
    ≡ (ok (200 ∷ 201 ∷ []), 1)
call_example =
    call_lem client (address_of 3) (1 ∷ []) (200 ∷ 201 ∷ []) none latest_block (9 ∷ [])
      (node (2 ∷ 200 ∷ 201 ∷ 9 ∷ [])) 0 latest_id address-IsArray (omega arith, (omega arith, tt))
      (omega arith) refl

send_transaction_example :
    run (send_transaction client (4 ∷ 2 ∷ [])) (node (11 ∷ [])) 0 ≡ (ok (be_bytes 32 55), 2)
send_transaction_example =
    send_transaction_lem client 4 (2 ∷ []) signed (address_of 3) (node (11 ∷ [])) 0 11 [] 55 refl
      refl address-IsArray (omega arith) refl refl

topics_of_keys-topic_keys_example :
    topics_of_keys (topic_keys (2 ^ 255 ∷ []))
    ≡ ok (map (λ t. be_bytes 32 (t % prime)) (2 ^ 255 ∷ []))
topics_of_keys-topic_keys_example = topics_of_keys-topic_keys (2 ^ 255 ∷ []) (omega arith, tt)

fee_history_example : run (fee_history 10 (Eth.BlockNumberOrTag.number 50)) (node []) 0 ≡ (
  ok (record {
    base_fee_per_gas = replicate 17 base_fee_per_gas;
    gas_used_ratio = replicate 16 9;
    oldest_block = 40;
    reward = none;
  }),
  0,
)
fee_history_example = fee_history_lem 10 50 (node []) 0 (omega arith) (omega arith) (omega arith)

decode_eth_call_return_example :
    decode_eth_call_return (1 ∷ 8 ∷ 9 ∷ []) ≡ ok (felt_array (8 ∷ []) ∷ [])
decode_eth_call_return_example = decode_eth_call_return_lem 1 (8 ∷ 9 ∷ []) (omega arith)

abbrev returned : SendTransactionReturn
returned = record {
  stack_accesses = 1 ∷ 2 ∷ [];
  stack_len = 3;
  memory_accesses = 4 ∷ [];
  memory_len = 5;
  evm_address = 6;
  starknet_address = 7;
  return_data = 8 ∷ 9 ∷ [];
  gas_used = 10;
}

decode_eth_send_transaction_return-cells_example :
    decode_eth_send_transaction_return (cells returned) ≡ ok (segments returned)
decode_eth_send_transaction_return-cells_example =
    decode_eth_send_transaction_return-cells returned (omega arith) (omega arith) (omega arith)

abbrev two_calls : List Starknet.Call
two_calls =
    record { to = 1; selector = 2; calldata = 3 ∷ [] }
    ∷ record { to = 4; selector = 5; calldata = 6 ∷ 7 ∷ [] }
    ∷ []

try_from_calldata-execute_calldata_of_example :
    try_from_calldata (execute_calldata_of two_calls) ≡ ok (shifted 0 two_calls)
try_from_calldata-execute_calldata_of_example =
    try_from_calldata-execute_calldata_of two_calls (omega arith) (omega arith, (omega arith, tt))

decode_signature-raw_starknet_calldata_example :
    decode_signature_from_tx_calldata (raw_starknet_calldata 100 (4 ∷ 2 ∷ []))
    ≡ (map_err signature_decoding_error (of_result (inr signed)) >>= λ tx. ok tx.signature)
decode_signature-raw_starknet_calldata_example =
    decode_signature-raw_starknet_calldata 100 (4 ∷ 2 ∷ []) (omega arith, (omega arith, tt))
      (omega arith)

abbrev events : List Starknet.Event
events =
    record { from_address = 42; keys = 1 ∷ 2 ∷ 3 ∷ []; event_data = 4 ∷ [] }
    ∷ record { from_address = 43; keys = []; event_data = [] }
    ∷ []

logs_of_events_example :
    run (logs_of_events client events) broken 0 ≡ (ok (logs_from client broken 0 events), 2)
logs_of_events_example = logs_of_events_lem client broken events 0

decode_eth_call_return_while_example :
    decode_eth_call_return_while 4 (2 ∷ 8 ∷ 9 ∷ []) ≡ some (decode_eth_call_return (2 ∷ 8 ∷ 9 ∷ []))
decode_eth_call_return_while_example =
    decode_eth_call_return_while_lem (2 ∷ 8 ∷ 9 ∷ []) 3 (omega arith)

decode_eth_send_transaction_return_while_example :
    decode_eth_send_transaction_return_while 8 (1 ∷ 8 ∷ 9 ∷ 0 ∷ 3 ∷ 4 ∷ 5 ∷ [])
    ≡ some (decode_eth_send_transaction_return (1 ∷ 8 ∷ 9 ∷ 0 ∷ 3 ∷ 4 ∷ 5 ∷ []))
decode_eth_send_transaction_return_while_example =
    decode_eth_send_transaction_return_while_lem (1 ∷ 8 ∷ 9 ∷ 0 ∷ 3 ∷ 4 ∷ 5 ∷ []) 7 (omega arith)
