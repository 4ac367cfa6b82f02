-- ===== src/Client/Calls.antt =====
-- The calldata of an account's `__execute__`, written and read:
-- crates/core/src/client/helpers.rs.
pub mod Layout
pub mod Submitted
use kakarot_rpc_adapter.Prelude.{
  ℕ, zero, suc, ◌+◌, ◌*◌, List, [], ◌∷◌, ◌++◌, map, filter_map, Option, String, ◌⊎◌, length,
  get_elem?, slice,
}
use kakarot_rpc_adapter.Types.{FieldElement, Bytes, Signature}
use kakarot_rpc_adapter.Errors.{DataDecodingError, signature_decoding_error}
use kakarot_rpc_adapter.Outcome.{Outcome, ok, ok_or, unwrap, of_result, map_err, ◌>>=◌}
use kakarot_rpc_adapter.Starknet.{Call}
use kakarot_rpc_adapter.Crates.{Crates}
use kakarot_rpc_adapter.Client.Constants.{eth_send_transaction_selector}

-- starknet::core::types::ValueOutOfRangeError
pub data ValueOutOfRangeError : Type 0 where
  value_out_of_range_error : ValueOutOfRangeError

module _ ⦃crates : Crates⦄ where
  open crates use {
    felt_from_uint, u8_try_from, u32_try_from, transaction_decode, value_out_of_range,
  }

  unfoldable pub u32_of_felt : FieldElement → Outcome ValueOutOfRangeError ℕ
  u32_of_felt a = ok_or value_out_of_range_error (u32_try_from a)

  -- The loop over `i` in `calls_len - remaining .. calls_len`. `offset` counts in a usize of 64
  -- bits; it stays within `value`, or the slice panics.
  unfoldable pub calls_loop :
      List FieldElement → ℕ → ℕ → ℕ → List Call → Outcome ValueOutOfRangeError (List Call)
  calls_loop value zero i offset calls = ok calls
  calls_loop value (suc remaining) i offset calls = do
    calldata_len_felt ← unwrap (get_elem? value (i * 4 + 4))
    calldata_len ← u32_of_felt calldata_len_felt
    to ← unwrap (get_elem? value (i * 4 + 2))
    selector ← unwrap (get_elem? value (i * 4 + 3))
    calldata ← unwrap (slice value offset (offset + calldata_len))
    calls_loop value remaining (i + 1) (offset + calldata_len)
        (calls ++ record { to = to; selector = selector; calldata = calldata } ∷ [])

  -- TryFrom<Vec<FieldElement>> for Calls
  unfoldable pub try_from_calldata : List FieldElement → Outcome ValueOutOfRangeError (List Call)
  unfolding u32_of_felt
  try_from_calldata value = do
    calls_len_felt ← unwrap (get_elem? value 0)
    calls_len ← u32_of_felt calls_len_felt
    calls_loop value calls_len 0 (calls_len * 4 + 2) []

  -- The text of the error is that of a `ValueOutOfRangeError`.
  unfoldable pub decode_signature_from_tx_calldata :
      List FieldElement → Outcome DataDecodingError Signature
  decode_signature_from_tx_calldata calldata = do
    calls ← map_err (λ _. signature_decoding_error value_out_of_range) (try_from_calldata calldata)
    call ← unwrap (get_elem? calls 0)
    decoded_tx ←
        map_err signature_decoding_error
          (of_result (transaction_decode (filter_map u8_try_from call.calldata)))
    ok decoded_tx.signature

  unfoldable pub bytes_to_felt_vec : Bytes → List FieldElement
  bytes_to_felt_vec bytes = map felt_from_uint bytes

  -- The loop over the calls: what it has pushed to `execute_calldata` and `concated_calldata`.
  execute_loop :
      List Call → List FieldElement → List FieldElement → List FieldElement × List FieldElement
  execute_loop [] execute_calldata concated_calldata = (execute_calldata, concated_calldata)
  execute_loop (call ∷ calls) execute_calldata concated_calldata =
      execute_loop calls
        (execute_calldata
          ++ call.to
            ∷ call.selector
            ∷ felt_from_uint (length concated_calldata)
            ∷ felt_from_uint (length call.calldata)
            ∷ [])
        (concated_calldata ++ call.calldata)

  -- What follows the loop: the length of the calldata, and the calldata.
  pub execute_calldata_of : List Call → List FieldElement
  unfolding execute_loop
  execute_calldata_of calls =
      let (execute_calldata, concated_calldata) =
        execute_loop calls (felt_from_uint (length calls) ∷ []) [] in
      execute_calldata ++ felt_from_uint (length concated_calldata) ∷ concated_calldata

  pub raw_starknet_calldata : FieldElement → Bytes → List FieldElement
  raw_starknet_calldata kakarot_address bytes = execute_calldata_of (
      record {
        to = kakarot_address;
        selector = eth_send_transaction_selector;
        calldata = bytes_to_felt_vec bytes;
      }
      ∷ [])
