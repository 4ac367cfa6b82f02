-- ===== src/Client/Panics.antt =====
-- Methods of the client that end in no panic: crates/core/src/client/mod.rs and the functions of
-- crates/core/src/client/helpers.rs and crates/core/src/models that they call.
pub mod Hashes
use kakarot_rpc_adapter.Prelude.{
  ◌≡◌, List, [], ◌∷◌, String, Bool, true, false, Bool-cases, ◌==◌, inl, inr, Option, none, some,
  if◌then◌else◌, get_elem?,
}
use kakarot_rpc_adapter.Types.{FieldElement, Bytes, H160, IsArray}
use kakarot_rpc_adapter.Errors.{EthApiError}
use kakarot_rpc_adapter.Errors
use kakarot_rpc_adapter.Outcome.{Outcome, ok_or, map_err}
use kakarot_rpc_adapter.Crates.{Crates}
use kakarot_rpc_adapter.Starknet
use kakarot_rpc_adapter.Starknet.{MaybePendingBlockWithTxHashes}
use kakarot_rpc_adapter.Eth.{BlockId}
use kakarot_rpc_adapter.Async.{lift}
use kakarot_rpc_adapter.Async.Panics.{
  IsResult, NeverPanics, NeverPanics-lift, NeverPanics-pure, NeverPanics-throw, result_rules,
  ok_or-IsResult, map_err-IsResult, bind-IsResult, traverse-IsResult,
}
use kakarot_rpc_adapter.Models.Felt.{from_h160, try_from_h256}
use kakarot_rpc_adapter.Models.Felt.RoundTrip.{from_h160_lem, to_h160_lem}
use kakarot_rpc_adapter.Client.Constants
use kakarot_rpc_adapter.Client.Helpers.{
  ethers_block_id_to_starknet_block_id, starknet_address_to_ethereum_address,
}
use kakarot_rpc_adapter.Client.Helpers.Conversions.{starknet_address_to_ethereum_address_lem}
use kakarot_rpc_adapter.Client.Decode.{
  FeltOrFeltArray, felt, felt_array, next, array_loop, decode_eth_call_return,
}
use kakarot_rpc_adapter.Client.Contracts.{
  KakarotClient, compute_starknet_address, only_address, bytes_of_segment, get_code, call_view,
  nonce, balance,
}

module _ ⦃crates : Crates⦄ where
  open crates use {felt_from_hex_be, felt_from_bytes_be}

  from_h160-IsResult : (a : H160) → IsArray 20 a → IsResult (from_h160 {E = EthApiError} a)
  from_h160-IsResult a size = rw (from_h160_lem {E = EthApiError} a size) tt

  pub ethers_block_id_to_starknet_block_id-IsResult :
      (b : BlockId) → IsResult (ethers_block_id_to_starknet_block_id b)
  unfolding ethers_block_id_to_starknet_block_id try_from_h256
  ethers_block_id_to_starknet_block_id-IsResult (BlockId.hash h) =
      bind-IsResult _ _
        (map_err-IsResult Errors.eth_of_felt_error (try_from_h256 h) (
          bind-IsResult (ok_or Errors.from_byte_array_error (felt_from_bytes_be h)) _
            (ok_or-IsResult _ (felt_from_bytes_be h)) λ x. tt))
        λ x. tt
  ethers_block_id_to_starknet_block_id-IsResult (BlockId.number n) = tt

  next-IsResult : (missing : String) (xs : List FieldElement) → IsResult (next missing xs)
  unfolding next
  next-IsResult missing [] = tt
  next-IsResult missing (x ∷ xs) = tt

  array_loop-IsResult :
      (missing : String) (xs : List FieldElement) (n : FieldElement) (s : List FeltOrFeltArray)
      → IsResult (array_loop missing xs n s)
  unfolding array_loop
  array_loop-IsResult missing [] n s = elim (Bool-cases (n == 0)) [
    | inl e ↦ rw e tt
    | inr e ↦ rw e tt
  ]
  array_loop-IsResult missing (x ∷ xs) n s = elim (Bool-cases (n == 0)) [
    | inl e ↦ rw e tt
    | inr e ↦ rw e (array_loop-IsResult missing xs _ _)
  ]

  decode_eth_call_return-IsResult : (xs : List FieldElement) → IsResult (decode_eth_call_return xs)
  unfolding decode_eth_call_return
  decode_eth_call_return-IsResult xs =
      bind-IsResult (next _ xs) _ (next-IsResult _ xs)
        λ p. bind-IsResult (array_loop _ p.1 p.0 _) _ (array_loop-IsResult _ p.1 p.0 _) λ q. tt

  module _ (client : KakarotClient) (block_id : Starknet.BlockId) (address : H160)
      (size : IsArray 20 address) where
    address-NeverPanics : NeverPanics (lift (from_h160 {E = EthApiError} address))
    address-NeverPanics = NeverPanics-lift _ (from_h160-IsResult address size)

    compute_starknet_address-NeverPanics :
        NeverPanics (compute_starknet_address client address block_id)
    unfolding compute_starknet_address
    compute_starknet_address-NeverPanics = search (result_rules, address-NeverPanics)

    pub nonce-NeverPanics : NeverPanics (nonce client address block_id)
    unfolding nonce
    nonce-NeverPanics = search (result_rules, compute_starknet_address-NeverPanics)

    pub balance-NeverPanics :
        (token : FieldElement)
        → felt_from_hex_be Constants.starknet_native_token ≡ some token
        → NeverPanics (balance client address block_id)
    unfolding balance
    balance-NeverPanics token parses =
        rw parses (search (result_rules, compute_starknet_address-NeverPanics))

    only_address-NeverPanics : (xs : List FieldElement) → NeverPanics (lift (only_address xs))
    unfolding only_address
    only_address-NeverPanics [] = NeverPanics-throw _
    only_address-NeverPanics (x ∷ []) = NeverPanics-pure x
    only_address-NeverPanics (x ∷ y ∷ xs) = NeverPanics-throw _

    pub get_code-NeverPanics : NeverPanics (get_code client address block_id)
    unfolding get_code
    get_code-NeverPanics =
        search (result_rules, address-NeverPanics, only_address-NeverPanics) depth 12

    segment-NeverPanics : (s : FeltOrFeltArray) → NeverPanics (lift (bytes_of_segment s))
    unfolding bytes_of_segment
    segment-NeverPanics (felt x) = NeverPanics-throw _
    segment-NeverPanics (felt_array xs) = NeverPanics-pure _

    decode-NeverPanics : (xs : List FieldElement) → NeverPanics (lift (decode_eth_call_return xs))
    decode-NeverPanics xs = NeverPanics-lift _ (decode_eth_call_return-IsResult xs)

    pub call_view-NeverPanics :
        (calldata : Bytes) → NeverPanics (call_view client address calldata block_id)
    unfolding call_view
    call_view-NeverPanics calldata =
        search (result_rules, address-NeverPanics, decode-NeverPanics, segment-NeverPanics) depth 12
