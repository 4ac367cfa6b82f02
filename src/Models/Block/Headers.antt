-- ===== src/Models/Block/Headers.antt =====
-- What blocks become: crates/core/src/models/block.rs.
use kakarot_rpc_adapter.Prelude.{ℕ, ◌≡◌, refl, List, [], ◌∷◌, map, Option, none, some, drop}
use kakarot_rpc_adapter.Types.{FieldElement, H256, U64}
use kakarot_rpc_adapter.Errors.{EthApiError}
use kakarot_rpc_adapter.Outcome.{ok, traverse, ◌>>=◌}
use kakarot_rpc_adapter.Crates.{Crates}
use kakarot_rpc_adapter.Starknet
use kakarot_rpc_adapter.Starknet.{MaybePendingBlockWithTxHashes, MaybePendingBlockWithTxs}
use kakarot_rpc_adapter.Eth
use kakarot_rpc_adapter.Async
use kakarot_rpc_adapter.Async.Run.{Script, run, run->>=}
use kakarot_rpc_adapter.Client.Api.{BlockClient}
use kakarot_rpc_adapter.Client.Helpers.Conversions.{starknet_address_to_ethereum_address_lem}
use kakarot_rpc_adapter.Models.Felt.RoundTrip.{to_h160_lem}
use kakarot_rpc_adapter.Models.Block.WithTxHashes.{hashes_getter, hashes_getter_not_pending}
use kakarot_rpc_adapter.Models.Block.WithTxs.{txs_getter, txs_getter_not_pending}
use kakarot_rpc_adapter.Models.Block.{
  block_of, h256_of_felt, block_with_tx_hashes_to_eth_block, block_with_txs_to_eth_block,
}

module _ ⦃crates : Crates⦄ where
  open crates use {felt_to_bytes_be, felt_to_bytes_be-IsArray, from_slice_lem}

  pub h256_of_felt_lem :
      {E : Type 0} (a : FieldElement) → h256_of_felt {E = E} a ≡ ok (felt_to_bytes_be a)
  unfolding h256_of_felt
  h256_of_felt_lem a = rw (from_slice_lem 32 _ (felt_to_bytes_be-IsArray a).0)

  traverse-h256_of_felt :
      {E : Type 0} (hashes : List FieldElement)
      → traverse (h256_of_felt {E = E}) hashes ≡ ok (map felt_to_bytes_be hashes)
  unfolding traverse ◌>>=◌
  traverse-h256_of_felt {E} [] = refl
  traverse-h256_of_felt {E} (a ∷ hashes) =
      rw (h256_of_felt_lem {E = E} a, traverse-h256_of_felt {E = E} hashes) refl

  -- The block that a block of hashes is to become.
  abbrev pub eth_block_of_hashes : BlockClient → MaybePendingBlockWithTxHashes → Eth.Block
  eth_block_of_hashes client (MaybePendingBlockWithTxHashes.pending_block b) =
      block_of client none (felt_to_bytes_be b.parent_hash)
        (drop 12 (felt_to_bytes_be b.sequencer_address)) b.timestamp none
        (Eth.BlockTransactions.hashes (map felt_to_bytes_be b.transactions))
  eth_block_of_hashes client (MaybePendingBlockWithTxHashes.block b) =
      block_of client (some (felt_to_bytes_be b.block_hash)) (felt_to_bytes_be b.parent_hash)
        (drop 12 (felt_to_bytes_be b.sequencer_address)) b.timestamp (some b.block_number)
        (Eth.BlockTransactions.hashes (map felt_to_bytes_be b.transactions))

  -- A block of hashes always becomes an Ethereum block, without a request: parent hash and
  -- transaction hashes in 32 bytes, the miner the last 20 bytes of the sequencer, the timestamp
  -- kept; a pending block has neither hash nor number, a final one has its own.
  pub block_with_tx_hashes_to_eth_block_lem :
      (inner : MaybePendingBlockWithTxHashes) (client : BlockClient) (s : Script) (n : ℕ)
      → run (block_with_tx_hashes_to_eth_block inner client) s n
        ≡ (ok (eth_block_of_hashes client inner), n)
  unfolding block_with_tx_hashes_to_eth_block hashes_getter hashes_getter_not_pending run
      Async.◌>>=◌
  block_with_tx_hashes_to_eth_block_lem (MaybePendingBlockWithTxHashes.pending_block b) client s n =
      rw
        (
          h256_of_felt_lem b.parent_hash,
          starknet_address_to_ethereum_address_lem {E = EthApiError} b.sequencer_address,
          to_h160_lem,
          traverse-h256_of_felt b.transactions,
        )
        refl
  block_with_tx_hashes_to_eth_block_lem (MaybePendingBlockWithTxHashes.block b) client s n =
      rw
        (
          h256_of_felt_lem b.parent_hash,
          starknet_address_to_ethereum_address_lem {E = EthApiError} b.sequencer_address,
          to_h160_lem,
          h256_of_felt_lem b.block_hash,
          traverse-h256_of_felt b.transactions,
        )
        refl

  -- The hash that a block hands to its transactions.
  abbrev pub hash_of_txs_block : MaybePendingBlockWithTxs → Option H256
  hash_of_txs_block (MaybePendingBlockWithTxs.pending_block b) = none
  hash_of_txs_block (MaybePendingBlockWithTxs.block b) = some (felt_to_bytes_be b.block_hash)

  abbrev pub number_of_txs_block : MaybePendingBlockWithTxs → Option U64
  number_of_txs_block (MaybePendingBlockWithTxs.pending_block b) = none
  number_of_txs_block (MaybePendingBlockWithTxs.block b) = some b.block_number

  abbrev pub txs_of_block : MaybePendingBlockWithTxs → List Starknet.Transaction
  txs_of_block (MaybePendingBlockWithTxs.pending_block b) = b.transactions
  txs_of_block (MaybePendingBlockWithTxs.block b) = b.transactions

  -- The block that a block of transactions is to become.
  abbrev pub eth_block_of_txs :
      BlockClient → Eth.BlockTransactions → MaybePendingBlockWithTxs → Eth.Block
  eth_block_of_txs client transactions (MaybePendingBlockWithTxs.pending_block b) =
      block_of client none (felt_to_bytes_be b.parent_hash)
        (drop 12 (felt_to_bytes_be b.sequencer_address)) b.timestamp none transactions
  eth_block_of_txs client transactions (MaybePendingBlockWithTxs.block b) =
      block_of client (some (felt_to_bytes_be b.block_hash)) (felt_to_bytes_be b.parent_hash)
        (drop 12 (felt_to_bytes_be b.sequencer_address)) b.timestamp (some b.block_number)
        transactions

  -- A block of transactions becomes the Ethereum block with the transactions that the filter of
  -- the client gives for them, which is told the hash and the number of a final block and none
  -- of a pending one; the filter makes the only requests.
  pub block_with_txs_to_eth_block_lem :
      (inner : MaybePendingBlockWithTxs) (client : BlockClient) (s : Script) (n m : ℕ)
      (transactions : Eth.BlockTransactions)
      → run
          (client.filter_starknet_into_eth_txs
            (txs_of_block inner)
            (hash_of_txs_block inner)
            (number_of_txs_block inner))
          s
          n
        ≡ (ok transactions, m)
      → run (block_with_txs_to_eth_block inner client) s n
        ≡ (ok (eth_block_of_txs client transactions inner), m)
  unfolding block_with_txs_to_eth_block txs_getter txs_getter_not_pending
  block_with_txs_to_eth_block_lem (MaybePendingBlockWithTxs.pending_block b) client s n m
        transactions e =
      rw
        (
          h256_of_felt_lem {E = EthApiError} b.parent_hash,
          starknet_address_to_ethereum_address_lem {E = EthApiError} b.sequencer_address,
          to_h160_lem,
        )
        (unfold Async.◌>>=◌ in
          rw (run->>= (client.filter_starknet_into_eth_txs b.transactions none none), e)
            (unfold run in refl))
  block_with_txs_to_eth_block_lem (MaybePendingBlockWithTxs.block b) client s n m transactions e =
      rw
        (
          h256_of_felt_lem {E = EthApiError} b.parent_hash,
          starknet_address_to_ethereum_address_lem {E = EthApiError} b.sequencer_address,
          to_h160_lem,
        )
        (unfold Async.◌>>=◌ in
          rw
            (
              h256_of_felt_lem {E = EthApiError} b.block_hash,
              run->>= (
                  client.filter_starknet_into_eth_txs b.transactions
                    (some (felt_to_bytes_be b.block_hash)) (some b.block_number)),
              e,
            )
            (unfold run in refl))
