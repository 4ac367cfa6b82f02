-- ===== src/Models/Block.antt =====
-- crates/core/src/models/block.rs: a Starknet block as an Ethereum block.
pub mod WithTxHashes
pub mod WithTxs
pub mod Headers
use kakarot_rpc_adapter.Prelude.{ℕ, List, [], ◌∷◌, Option, none, some}
use kakarot_rpc_adapter.Types.{FieldElement, Bytes, H160, H256, U64, U256}
use kakarot_rpc_adapter.Errors.{EthApiError}
use kakarot_rpc_adapter.Outcome.{Outcome, ok, unwrap, traverse}
use kakarot_rpc_adapter.Crates.{Crates}
use kakarot_rpc_adapter.Starknet
use kakarot_rpc_adapter.Starknet.{MaybePendingBlockWithTxs, MaybePendingBlockWithTxHashes}
use kakarot_rpc_adapter.Eth
use kakarot_rpc_adapter.Async.{Async, pure, lift, ◌>>=◌}
use kakarot_rpc_adapter.Models.Block.WithTxHashes
use kakarot_rpc_adapter.Models.Block.WithTxHashes.{hashes_getter, hashes_getter_not_pending}
use kakarot_rpc_adapter.Models.Block.WithTxs
use kakarot_rpc_adapter.Models.Block.WithTxs.{txs_getter, txs_getter_not_pending}
use kakarot_rpc_adapter.Client.Constants
use kakarot_rpc_adapter.Client.Helpers.{starknet_address_to_ethereum_address}
use kakarot_rpc_adapter.Client.Api.{BlockClient}

-- The bytes of the literal b"0x00".
abbrev pub extra_data : Bytes
extra_data = b'0' ∷ b'x' ∷ b'0' ∷ b'0' ∷ []

-- A `map` over an Option whose function may panic.
abbrev pub map_option : {E A B : Type 0} → (A → Outcome E B) → Option A → Async E (Option B)
map_option f none = pure none
map_option f (some a) = do b ← lift (f a); pure (some b)

-- What both conversions put into the header and the block around what they read.
unfoldable pub block_of :
    BlockClient → Option H256 → H256 → H160 → U64 → Option U64 → Eth.BlockTransactions → Eth.Block
block_of client hash parent_hash sequencer timestamp number transactions = record {
  header = record {
    hash = hash;
    parent_hash = parent_hash;
    uncles_hash = parent_hash;
    miner = sequencer;
    state_root = Constants.h256_zero;
    transactions_root = Constants.h256_zero;
    receipts_root = Constants.h256_zero;
    number = number;
    gas_used = Constants.gas_used;
    gas_limit = Constants.gas_limit;
    extra_data = extra_data;
    logs_bloom = Constants.bloom_default;
    timestamp = timestamp;
    difficulty = Constants.difficulty;
    nonce = Constants.nonce;
    base_fee_per_gas = some client.base_fee_per_gas;
    mix_hash = Constants.mix_hash;
    withdrawals_root = some Constants.h256_zero;
  };
  total_difficulty = Constants.total_difficulty;
  uncles = [];
  transactions = transactions;
  size = Constants.size;
  withdrawals = some [];
}

module _ ⦃crates : Crates⦄ where
  open crates use {felt_to_bytes_be, from_slice}

  -- `H256::from_slice(&felt.to_bytes_be())`
  unfoldable pub h256_of_felt : {E : Type 0} → FieldElement → Outcome E H256
  h256_of_felt felt = unwrap (from_slice 32 (felt_to_bytes_be felt))

  unfoldable pub block_with_tx_hashes_to_eth_block :
      MaybePendingBlockWithTxHashes → BlockClient → Async EthApiError Eth.Block
  unfolding hashes_getter hashes_getter_not_pending
  block_with_tx_hashes_to_eth_block inner client = do
    parent_hash ← lift (h256_of_felt (WithTxHashes.parent_hash inner))
    sequencer ← lift (starknet_address_to_ethereum_address (WithTxHashes.sequencer_address inner))
    hash ← map_option h256_of_felt (WithTxHashes.block_hash inner)
    hashes ← lift (traverse h256_of_felt (WithTxHashes.transactions inner))
    pure (
        block_of client hash parent_hash sequencer (WithTxHashes.timestamp inner)
          (WithTxHashes.block_number inner) (Eth.BlockTransactions.hashes hashes))

  unfoldable pub block_with_txs_to_eth_block :
      MaybePendingBlockWithTxs → BlockClient → Async EthApiError Eth.Block
  unfolding txs_getter txs_getter_not_pending
  block_with_txs_to_eth_block inner client = do
    parent_hash ← lift (h256_of_felt (WithTxs.parent_hash inner))
    sequencer ← lift (starknet_address_to_ethereum_address (WithTxs.sequencer_address inner))
    hash ← map_option h256_of_felt (WithTxs.block_hash inner)
    transactions ←
        client.filter_starknet_into_eth_txs (WithTxs.transactions inner) hash
          (WithTxs.block_number inner)
    pure (
        block_of client hash parent_hash sequencer (WithTxs.timestamp inner)
          (WithTxs.block_number inner) transactions)
