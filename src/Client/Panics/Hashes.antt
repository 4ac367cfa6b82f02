-- ===== src/Client/Panics/Hashes.antt =====
-- A block with the hashes of its transactions is converted without a panic:
-- crates/core/src/models/block.rs and crates/core/src/client/mod.rs.
use kakarot_rpc_adapter.Prelude.{List, Option, none, some, false}
use kakarot_rpc_adapter.Types.{FieldElement}
use kakarot_rpc_adapter.Errors.{EthApiError}
use kakarot_rpc_adapter.Outcome.{traverse}
use kakarot_rpc_adapter.Crates.{Crates}
use kakarot_rpc_adapter.Starknet
use kakarot_rpc_adapter.Starknet.{MaybePendingBlockWithTxHashes}
use kakarot_rpc_adapter.Async.{lift}
use kakarot_rpc_adapter.Async.Panics.{
  IsResult, NeverPanics, NeverPanics-lift, NeverPanics-pure, result_rules, traverse-IsResult,
}
use kakarot_rpc_adapter.Models.Block.{h256_of_felt, map_option, block_with_tx_hashes_to_eth_block}
use kakarot_rpc_adapter.Models.Felt.{from_felt}
use kakarot_rpc_adapter.Models.Felt.RoundTrip.{to_h160_lem}
use kakarot_rpc_adapter.Client.Helpers.{starknet_address_to_ethereum_address}
use kakarot_rpc_adapter.Client.Helpers.Conversions.{starknet_address_to_ethereum_address_lem}
use kakarot_rpc_adapter.Client.Contracts.{KakarotClient}
use kakarot_rpc_adapter.Client.Provider.{get_eth_block_from_starknet_block}

module _ ⦃crates : Crates⦄ where
  open crates use {from_slice_lem, felt_to_bytes_be, felt_to_bytes_be-IsArray}

  h256_of_felt-IsResult : (a : FieldElement) → IsResult (h256_of_felt {E = EthApiError} a)
  unfolding h256_of_felt
  h256_of_felt-IsResult a =
      rw (from_slice_lem 32 (felt_to_bytes_be a) (felt_to_bytes_be-IsArray a).0) tt

  h256_of_felt-NeverPanics :
      (a : FieldElement) → NeverPanics (lift (h256_of_felt {E = EthApiError} a))
  h256_of_felt-NeverPanics a = NeverPanics-lift _ (h256_of_felt-IsResult a)

  sliced-NeverPanics :
      (a : FieldElement)
      → NeverPanics (lift (starknet_address_to_ethereum_address {E = EthApiError} a))
  sliced-NeverPanics a = NeverPanics-lift _ (
      rw
        (
          starknet_address_to_ethereum_address_lem {E = EthApiError} a,
          to_h160_lem {E = EthApiError} (from_felt a),
        )
        tt)

  map_option-NeverPanics :
      (o : Option FieldElement) → NeverPanics (map_option (h256_of_felt {E = EthApiError}) o)
  map_option-NeverPanics none = NeverPanics-pure none
  map_option-NeverPanics (some a) = search (result_rules, h256_of_felt-NeverPanics)

  traverse-NeverPanics :
      (xs : List FieldElement) → NeverPanics (lift (traverse (h256_of_felt {E = EthApiError}) xs))
  traverse-NeverPanics xs =
      NeverPanics-lift _ (traverse-IsResult h256_of_felt h256_of_felt-IsResult xs)

  pub hashes-NeverPanics :
      (client : KakarotClient) (block_id : Starknet.BlockId)
      → NeverPanics (get_eth_block_from_starknet_block client block_id false)
  unfolding get_eth_block_from_starknet_block block_with_tx_hashes_to_eth_block
  hashes-NeverPanics client block_id =
      search
        (
          result_rules, h256_of_felt-NeverPanics, sliced-NeverPanics, map_option-NeverPanics,
          traverse-NeverPanics,
        )
        depth 14
