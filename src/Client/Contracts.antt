-- ===== src/Client/Contracts.antt =====
-- The calls of contracts in crates/core/src/client/mod.rs: addresses, code, views, nonces and
-- balances.
pub mod Answers
pub mod Amounts
use kakarot_rpc_adapter.Prelude.{
  ℕ, List, [], ◌∷◌, ◌++◌, map, filter_map, Option, none, some, inl, inr, ◌⊎◌, ◌==◌, if◌then◌else◌,
  length, get_elem?, slice,
}
use kakarot_rpc_adapter.Types.{FieldElement, Bytes, H160, U256}
use kakarot_rpc_adapter.Errors.{EthApiError, other_error}
use kakarot_rpc_adapter.Outcome.{Outcome, ok, err, ok_or, unwrap}
use kakarot_rpc_adapter.Crates.{Crates}
use kakarot_rpc_adapter.Starknet
use kakarot_rpc_adapter.Async.{Async, Request, ask, pure, throw, lift, attempt, ◌>>=◌}
use kakarot_rpc_adapter.Models.Felt.{from_felt, to_felt, from_h160, to_u256}
use kakarot_rpc_adapter.Client.Constants
use kakarot_rpc_adapter.Client.Decode.{FeltOrFeltArray, felt, felt_array, decode_eth_call_return}
use kakarot_rpc_adapter.Client.Helpers.{starknet_address_to_ethereum_address, vec_felt_to_bytes}

-- The provider is the node that the requests go to.
pub record KakarotClient : Type 0 where
  pub kakarot_address : FieldElement
  pub proxy_account_class_hash : FieldElement

module _ ⦃crates : Crates⦄ where
  open crates use {
    felt_to_bytes_be, felt_from_uint, felt_max, felt_from_hex_be, from_slice, u8_try_from,
    u256_from_be_bytes,
  }

  unfoldable pub compute_starknet_address :
      KakarotClient → H160 → Starknet.BlockId → Async EthApiError FieldElement
  compute_starknet_address client ethereum_address starknet_block_id = do
    address ← lift (from_h160 ethereum_address)
    starknet_contract_address ← ask (
        Request.call
          (record {
            contract_address = client.kakarot_address;
            entry_point_selector = Constants.compute_starknet_address_selector;
            calldata = to_felt address ∷ [];
          })
          starknet_block_id)
    lift (
        ok_or (other_error "Kakarot Core: Failed to get Starknet address from Kakarot")
          (get_elem? starknet_contract_address 0))

  -- `evm_address.get(12..32)` fails by an error; the slice that it gives is copied into 20 bytes.
  unfoldable pub get_evm_address :
      KakarotClient → FieldElement → Starknet.BlockId → Async EthApiError H160
  get_evm_address client starknet_address starknet_block_id = do
    evm_address_felt ← ask (
        Request.call
          (record {
            contract_address = starknet_address;
            entry_point_selector = Constants.get_evm_address_selector;
            calldata = [];
          })
          starknet_block_id)
    evm_address ← lift (
        ok_or (other_error "Kakarot Core: Failed to get EVM address from smart contract on Kakarot")
          (get_elem? evm_address_felt 0))
    lift (
        ok_or
          (other_error
            "Kakarot Core: Failed to cast EVM address from 32 bytes to 20 bytes EVM format")
          (slice (felt_to_bytes_be evm_address) 12 32))

  -- `unwrap_or_else`
  abbrev pub or_sliced : FieldElement → EthApiError ⊎ H160 → Async EthApiError H160
  or_sliced starknet_address (inl _) = lift (starknet_address_to_ethereum_address starknet_address)
  or_sliced starknet_address (inr address) = pure address

  unfoldable pub safe_get_evm_address :
      KakarotClient → FieldElement → Starknet.BlockId → Async EthApiError H160
  safe_get_evm_address client starknet_address starknet_block_id = do
    result ← attempt (get_evm_address client starknet_address starknet_block_id)
    or_sliced starknet_address result

  -- The match on `get(0)` with its guard on `len()`.
  unfoldable pub only_address : List FieldElement → Outcome EthApiError FieldElement
  only_address (x ∷ []) = ok x
  only_address _ = err (other_error "Kakarot get_code: starknet_contract_address is empty")

  unfoldable pub get_code : KakarotClient → H160 → Starknet.BlockId → Async EthApiError Bytes
  unfolding only_address
  get_code client ethereum_address starknet_block_id = do
    address ← lift (from_h160 ethereum_address)
    starknet_contract_addresses ← ask (
        Request.call
          (record {
            contract_address = client.kakarot_address;
            entry_point_selector = Constants.compute_starknet_address_selector;
            calldata = to_felt address ∷ [];
          })
          starknet_block_id)
    starknet_contract_address ← lift (only_address starknet_contract_addresses)
    contract_bytecode ← ask (
        Request.call
          (record {
            contract_address = starknet_contract_address;
            entry_point_selector = Constants.bytecode_selector;
            calldata = [];
          })
          starknet_block_id)
    pure (vec_felt_to_bytes contract_bytecode)

  -- `if let FeltOrFeltArray::FeltArray(felt_array) = return_data`
  unfoldable pub bytes_of_segment : FeltOrFeltArray → Outcome EthApiError Bytes
  bytes_of_segment (felt _) =
      err (other_error "Cannot parse and decode the return data of Kakarot call")
  bytes_of_segment (felt_array xs) = ok (filter_map u8_try_from xs)

  unfoldable pub call_view :
      KakarotClient → H160 → Bytes → Starknet.BlockId → Async EthApiError Bytes
  unfolding bytes_of_segment
  call_view client ethereum_address calldata starknet_block_id = do
    address ← lift (from_h160 ethereum_address)
    call_result ← ask (
        Request.call
          (record {
            contract_address = client.kakarot_address;
            entry_point_selector = Constants.eth_call_selector;
            calldata =
                (to_felt address ∷ felt_max ∷ 0 ∷ 0 ∷ felt_from_uint (length calldata) ∷ [])
                ++ map felt_from_uint calldata;
          })
          starknet_block_id)
    segmented_result ← lift (decode_eth_call_return call_result)
    return_data ← lift (
        ok_or (other_error "Cannot parse and decode last argument of Kakarot call")
          (get_elem? segmented_result 0))
    lift (bytes_of_segment return_data)

  unfoldable pub nonce : KakarotClient → H160 → Starknet.BlockId → Async EthApiError U256
  nonce client ethereum_address block_id = do
    starknet_address ← compute_starknet_address client ethereum_address block_id
    nonce ← ask (Request.get_nonce block_id starknet_address)
    pure (to_u256 (from_felt nonce))

  unfoldable pub balance : KakarotClient → H160 → Starknet.BlockId → Async EthApiError U256
  balance client ethereum_address block_id = do
    starknet_address ← compute_starknet_address client ethereum_address block_id
    native_token ← lift (unwrap (felt_from_hex_be Constants.starknet_native_token))
    balance_felt ← ask (
        Request.call
          (record {
            contract_address = native_token;
            entry_point_selector = Constants.balance_of_selector;
            calldata = starknet_address ∷ [];
          })
          block_id)
    balance ← lift (
        ok_or (other_error "Kakarot Core: Failed to get native token balance")
          (get_elem? balance_felt 0))
    pure (u256_from_be_bytes (felt_to_bytes_be balance))
