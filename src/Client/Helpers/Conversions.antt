-- ===== src/Client/Helpers/Conversions.antt =====
-- What the conversions of crates/core/src/client/helpers.rs give.
use kakarot_rpc_adapter.Prelude.{
  ℕ, ◌*◌, ◌≡◌, List, [], ◌∷◌, length, arith, ltb, drop, take, take_all, take-append_exact,
  drop-append_add, suc, flat_map, ◌+◌, ◌++◌, if◌then◌else◌, length-append, length-drop,
}
use kakarot_rpc_adapter.Prelude.Bytes.{be_value}
use kakarot_rpc_adapter.Types.{FieldElement, prime, IsFelt, IsArray, H256}
use kakarot_rpc_adapter.Errors.{
  conversion_error, felt252_wrapper_conversion_error, from_byte_array_error, eth_of_felt_error,
}
use kakarot_rpc_adapter.Outcome.{ok, err}
use kakarot_rpc_adapter.Crates.{Crates}
use kakarot_rpc_adapter.Starknet
use kakarot_rpc_adapter.Eth
use kakarot_rpc_adapter.Models.Felt.{from_felt, to_h160}
use kakarot_rpc_adapter.Models.Felt.RoundTrip.{
  try_from_h256_lem, to_h160_lem, be_value-felt_to_bytes_be,
}
use kakarot_rpc_adapter.Client.Helpers.{
  ethers_block_id_to_starknet_block_id, vec_felt_to_bytes, starknet_address_to_ethereum_address,
}

module _ ⦃crates : Crates⦄ where
  open crates use {felt_to_bytes_be, felt_to_bytes_be-IsArray, from_slice_lem}

  -- A block hash of 32 bytes names the Starknet block with the hash of the same value, if that
  -- lies below the prime, and is a conversion error if not.
  pub ethers_block_id_to_starknet_block_id-hash :
      (h : H256)
      → IsArray 32 h
      → ethers_block_id_to_starknet_block_id (Eth.BlockId.hash h) ≡ (
          if ltb (be_value h) prime
          then ok (Starknet.BlockId.hash (be_value h))
          else err (conversion_error (felt252_wrapper_conversion_error from_byte_array_error)))
  unfolding ethers_block_id_to_starknet_block_id eth_of_felt_error
  ethers_block_id_to_starknet_block_id-hash h a = ground (arith, try_from_h256_lem h a)

  length-last : (a : FieldElement) → length (drop 12 (felt_to_bytes_be a)) ≡ 20
  length-last a = rw (length-drop 12, (felt_to_bytes_be-IsArray a).0)

  -- The address that is cut from a Starknet address is the one that `Felt252Wrapper` converts to:
  -- its last 20 bytes.
  pub starknet_address_to_ethereum_address_lem :
      {E : Type 0} (a : FieldElement)
      → starknet_address_to_ethereum_address {E = E} a ≡ to_h160 (from_felt a)
  unfolding starknet_address_to_ethereum_address
  starknet_address_to_ethereum_address_lem a = rw (
    to_h160_lem,
    (felt_to_bytes_be-IsArray a).0,
    take_all 20 _ (length-last a),
    from_slice_lem 20 _ (length-last a),
  )

  -- Every field element takes 32 bytes.
  pub length-vec_felt_to_bytes :
      (felts : List FieldElement) → length (vec_felt_to_bytes felts) ≡ 32 * length felts
  unfolding vec_felt_to_bytes flat_map
  length-vec_felt_to_bytes [] = omega arith
  length-vec_felt_to_bytes (a ∷ felts) =
      rw (length-append, length-vec_felt_to_bytes felts, (felt_to_bytes_be-IsArray a).0)
        (omega arith)

  next_element : (n : ℕ) → 32 * suc n ≡ 32 + 32 * n
  next_element n = omega arith

  -- The bytes of an element below the prime that stands behind others begin at 32 times its
  -- place, and write its value.
  pub vec_felt_to_bytes-element :
      (front felts : List FieldElement) (a : FieldElement)
      → IsFelt a
      → be_value (take 32 (drop (32 * length front) (vec_felt_to_bytes (front ++ a ∷ felts)))) ≡ a
  unfolding vec_felt_to_bytes flat_map
  vec_felt_to_bytes-element [] felts a h =
      rw (take-append_exact 32 (felt_to_bytes_be a) _ (felt_to_bytes_be-IsArray a).0)
        (be_value-felt_to_bytes_be a h)
  vec_felt_to_bytes-element (b ∷ front) felts a h =
      rw
        (
          next_element (length front),
          drop-append_add 32 (32 * length front) (felt_to_bytes_be b) _
              (felt_to_bytes_be-IsArray b).0,
        )
        (vec_felt_to_bytes-element front felts a h)
