-- ===== src/Tests/Invoke.antt =====
-- What the getters of the invoke transaction of the tests give.
use kakarot_rpc_adapter.Prelude.{◌≡◌, refl, [], ◌∷◌, arith}
use kakarot_rpc_adapter.Outcome.{ok, ◌>>=◌, map_err, of_result}
use kakarot_rpc_adapter.Models.Felt.{from_felt}
use kakarot_rpc_adapter.Models.Transaction.{
  from_transaction, sender_address, transaction_hash, nonce, calldata, invoke_transaction_field,
}
use kakarot_rpc_adapter.Client.Calls.{decode_signature_from_tx_calldata}
use kakarot_rpc_adapter.Client.Calls.Submitted.{
  raw_starknet_calldata_lem, decode_signature-raw_starknet_calldata,
}
use kakarot_rpc_adapter.Tests.Sample.{signed, sample, submitted, invoke_tx}

pub sender_of_invoke : sender_address (from_transaction invoke_tx) ≡ ok (from_felt 42)
unfolding sender_address invoke_transaction_field
sender_of_invoke = refl

pub hash_of_invoke : transaction_hash (from_transaction invoke_tx) ≡ ok (from_felt 5)
unfolding transaction_hash invoke_transaction_field
hash_of_invoke = refl

pub nonce_of_invoke : nonce (from_transaction invoke_tx) ≡ ok (from_felt 9)
unfolding nonce invoke_transaction_field
nonce_of_invoke = refl

pub calldata_of_invoke : calldata (from_transaction invoke_tx) ≡ ok submitted
unfolding calldata invoke_transaction_field
calldata_of_invoke = refl

pub submitted_signature : decode_signature_from_tx_calldata submitted ≡ ok signed.signature
unfolding ◌>>=◌ map_err of_result
submitted_signature =
    rw (← raw_starknet_calldata_lem 100 (4 ∷ 2 ∷ []) (omega arith, (omega arith, tt)) (omega arith))
      (decode_signature-raw_starknet_calldata 100 (4 ∷ 2 ∷ []) (omega arith, (omega arith, tt))
        (omega arith))
