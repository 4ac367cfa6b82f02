-- ===== src/Client/Helpers.antt =====
-- The conversions of crates/core/src/client/helpers.rs: block ids, byte strings and addresses.
pub mod Conversions
use kakarot_rpc_adapter.Prelude.{ℕ, List, [], ◌∷◌, flat_map, Option, none, some, slice, replicate}
use kakarot_rpc_adapter.Types.{FieldElement, Bytes, H160}
use kakarot_rpc_adapter.Errors.{EthApiError, eth_of_felt_error}
use kakarot_rpc_adapter.Outcome.{Outcome, ok, unwrap, map_err, ◌>>=◌}
use kakarot_rpc_adapter.Crates.{Crates}
use kakarot_rpc_adapter.Starknet
use kakarot_rpc_adapter.Eth
use kakarot_rpc_adapter.Eth.{BlockNumberOrTag, TransactionReceipt}
use kakarot_rpc_adapter.Models.Felt.{try_from_h256, to_felt}
use kakarot_rpc_adapter.Client.Constants

unfoldable pub ethers_block_number_to_starknet_block_id : BlockNumberOrTag → Starknet.BlockId
ethers_block_number_to_starknet_block_id BlockNumberOrTag.safe =
    Starknet.BlockId.tag Starknet.BlockTag.latest
ethers_block_number_to_starknet_block_id BlockNumberOrTag.latest =
    Starknet.BlockId.tag Starknet.BlockTag.latest
ethers_block_number_to_starknet_block_id BlockNumberOrTag.finalized =
    Starknet.BlockId.tag Starknet.BlockTag.latest
ethers_block_number_to_starknet_block_id BlockNumberOrTag.earliest = Starknet.BlockId.number 0
ethers_block_number_to_starknet_block_id BlockNumberOrTag.pending =
    Starknet.BlockId.tag Starknet.BlockTag.pending
ethers_block_number_to_starknet_block_id (BlockNumberOrTag.number num) = Starknet.BlockId.number num

module _ ⦃crates : Crates⦄ where
  open crates use {felt_to_bytes_be, from_slice}

  unfoldable pub ethers_block_id_to_starknet_block_id :
      Eth.BlockId → Outcome EthApiError Starknet.BlockId
  ethers_block_id_to_starknet_block_id (Eth.BlockId.hash block_hash) = do
    hash ← map_err eth_of_felt_error (try_from_h256 block_hash)
    ok (Starknet.BlockId.hash (to_felt hash))
  ethers_block_id_to_starknet_block_id (Eth.BlockId.number block_number) =
      ok (ethers_block_number_to_starknet_block_id block_number)

  unfoldable pub vec_felt_to_bytes : List FieldElement → Bytes
  vec_felt_to_bytes felt_vec = flat_map felt_to_bytes_be felt_vec

  unfoldable pub starknet_address_to_ethereum_address : {E : Type 0} → FieldElement → Outcome E H160
  starknet_address_to_ethereum_address starknet_address = do
    bytes ← unwrap (slice (felt_to_bytes_be starknet_address) 12 32)
    unwrap (from_slice 20 bytes)

-- `H160::from(0)` is the zero address.
unfoldable pub create_default_transaction_receipt : TransactionReceipt
create_default_transaction_receipt = record {
  transaction_hash = none;
  transaction_index = none;
  block_hash = none;
  block_number = none;
  from = replicate 20 0;
  to = none;
  cumulative_gas_used = Constants.cumulative_gas_used;
  gas_used = some Constants.gas_used;
  contract_address = none;
  logs = [];
  logs_bloom = Constants.bloom_default;
  state_root = none;
  status_code = none;
  effective_gas_price = Constants.effective_gas_price;
  transaction_type = Constants.transaction_type;
}
