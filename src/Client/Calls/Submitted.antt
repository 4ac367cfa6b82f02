-- ===== src/Client/Calls/Submitted.antt =====
-- The calldata of a submitted transaction, `raw_starknet_calldata`, and the signature that
-- `decode_signature_from_tx_calldata` finds in it: crates/core/src/client/helpers.rs.
use kakarot_rpc_adapter.Prelude.{
  ◌^◌, ◌<◌, ◌≡◌, refl, ap, List, [], ◌∷◌, filter_map, length, arith, lt→ltb,
}
use kakarot_rpc_adapter.Prelude.Bytes.{IsBytes}
use kakarot_rpc_adapter.Types.{FieldElement, Bytes}
use kakarot_rpc_adapter.Errors.{signature_decoding_error}
use kakarot_rpc_adapter.Outcome.{ok, panic, of_result, map_err, ◌>>=◌}
use kakarot_rpc_adapter.Starknet.{Call}
use kakarot_rpc_adapter.Crates.{Crates}
use kakarot_rpc_adapter.Client.Constants.{eth_send_transaction_selector}
use kakarot_rpc_adapter.Client.Calls.{
  calls_loop, try_from_calldata, decode_signature_from_tx_calldata, bytes_to_felt_vec,
  raw_starknet_calldata, execute_calldata_of,
}
use kakarot_rpc_adapter.Client.Calls.Layout.{try_from_calldata-execute_calldata_of}

module _ ⦃crates : Crates⦄ where
  open crates use {
    felt_from_uint, felt_from_uint_lem, u8_try_from, u8_try_from_lem, u32_try_from_lem,
    transaction_decode,
  }

  map-felt_from_uint : (bytes : Bytes) → IsBytes bytes → bytes_to_felt_vec bytes ≡ bytes
  unfolding bytes_to_felt_vec
  map-felt_from_uint [] h = refl
  map-felt_from_uint (b ∷ bytes) (hb, h) =
      rw (felt_from_uint_lem b (omega arith), map-felt_from_uint bytes h)

  -- Field elements that are bytes are read back as those bytes.
  pub filter_map-u8_try_from :
      (bytes : Bytes) → IsBytes bytes → filter_map u8_try_from bytes ≡ bytes
  unfolding filter_map
  filter_map-u8_try_from [] h = refl
  filter_map-u8_try_from (b ∷ bytes) (hb, h) =
      rw (u8_try_from_lem b (omega arith), lt→ltb b 256 hb)
        (ap (λ bs. b ∷ bs) (filter_map-u8_try_from bytes h))

  -- The calldata of a submitted transaction, for fewer than 2 ^ 64 bytes: one call of
  -- `eth_send_transaction` on Kakarot, at data offset 0, with the length of the bytes twice and
  -- then the bytes, an element each.
  pub raw_starknet_calldata_lem :
      (kakarot_address : FieldElement) (bytes : Bytes)
      → IsBytes bytes
      → length bytes < 2 ^ 64
      → raw_starknet_calldata kakarot_address bytes
        ≡ 1
          ∷ kakarot_address
          ∷ eth_send_transaction_selector
          ∷ 0
          ∷ length bytes
          ∷ length bytes
          ∷ bytes
  unfolding raw_starknet_calldata execute_calldata_of
  raw_starknet_calldata_lem kakarot_address bytes h short = rw (
    map-felt_from_uint bytes h,
    felt_from_uint_lem 1 (omega arith),
    felt_from_uint_lem 0 (omega arith),
    felt_from_uint_lem (length bytes) short,
  )

  -- For fewer than 2 ^ 32 bytes, the signature that is found in the calldata written for them is
  -- the one of the transaction that they decode to; if they do not decode, that is the error.
  pub decode_signature-raw_starknet_calldata :
      (kakarot_address : FieldElement) (bytes : Bytes)
      → IsBytes bytes
      → length bytes < 2 ^ 32
      → decode_signature_from_tx_calldata (raw_starknet_calldata kakarot_address bytes) ≡ (
          map_err signature_decoding_error (of_result (transaction_decode bytes)) >>= λ decoded_tx.
          ok decoded_tx.signature)
  unfolding decode_signature_from_tx_calldata raw_starknet_calldata
  decode_signature-raw_starknet_calldata kakarot_address bytes h short = rw (
    try_from_calldata-execute_calldata_of (call ∷ []) (omega arith)
        (rw (map-felt_from_uint bytes h) short, tt),
    map-felt_from_uint bytes h,
    filter_map-u8_try_from bytes h,
  )
    where
      call : Call
      call = record {
        to = kakarot_address;
        selector = eth_send_transaction_selector;
        calldata = bytes_to_felt_vec bytes;
      }

  -- Calldata with no cell, and calldata that counts no call, panics instead of being refused.
  pub decode_signature_panics :
      (decode_signature_from_tx_calldata [] ≡ panic)
      × ((rest : List FieldElement) → decode_signature_from_tx_calldata (0 ∷ rest) ≡ panic)
  unfolding decode_signature_from_tx_calldata try_from_calldata calls_loop
  decode_signature_panics = (refl, λ rest. rw (u32_try_from_lem 0 (omega arith)))
