-- ===== src/Client/WellFormed/Blocks.antt =====
-- Every block that the client gives is well formed, whatever the node replies:
-- crates/core/src/models/block.rs and crates/core/src/client/mod.rs.
use kakarot_rpc_adapter.Prelude.{Bool, true, false, All, Option, none, some}
use kakarot_rpc_adapter.Types.{FieldElement, IsArray}
use kakarot_rpc_adapter.Errors.{EthApiError}
use kakarot_rpc_adapter.Crates.{Crates}
use kakarot_rpc_adapter.Starknet
use kakarot_rpc_adapter.Starknet.{
  MaybePendingBlockWithTxs, MaybePendingBlockWithTxHashes, MaybePendingTransactionReceipt,
}
use kakarot_rpc_adapter.Async.Yields.{
  Ends, Given, Yields, Yields-ret, Yields-bind, Yields-after, Ends-traverse,
}
use kakarot_rpc_adapter.Models.Block.{
  h256_of_felt, map_option, block_of, block_with_tx_hashes_to_eth_block,
  block_with_txs_to_eth_block,
}
use kakarot_rpc_adapter.Client.Contracts.{KakarotClient}
use kakarot_rpc_adapter.Client.Provider.{block_client, get_eth_block_from_starknet_block}
use kakarot_rpc_adapter.Client.WellFormed.{AreTransactions, IsBlock}
use kakarot_rpc_adapter.Client.WellFormed.Words.{h256_bytes, sliced-IsArray}
use kakarot_rpc_adapter.Client.WellFormed.Transactions.{filter-AreTransactions}

module _ ⦃crates : Crates⦄ (client : KakarotClient) where
  h256-IsArray : (a : FieldElement) → Ends {E = EthApiError} (IsArray 32) (h256_of_felt a)
  unfolding h256_of_felt
  h256-IsArray a = h256_bytes a

  map_option-Given :
      (o : Option FieldElement)
      → Yields {E = EthApiError} (Given (IsArray 32)) (map_option h256_of_felt o)
  map_option-Given none = Yields-ret _ _ tt
  map_option-Given (some a) =
      Yields-bind (IsArray 32) _ _ (Yields-ret _ _ (h256-IsArray a)) λ h size. Yields-ret _ _ size

  block_with_tx_hashes_to_eth_block-IsBlock :
      (inner : MaybePendingBlockWithTxHashes)
      → Yields (IsBlock false) (block_with_tx_hashes_to_eth_block inner (block_client client))
  unfolding block_with_tx_hashes_to_eth_block block_of
  block_with_tx_hashes_to_eth_block-IsBlock inner =
      Yields-bind (IsArray 32) _ _ (Yields-ret _ _ (h256-IsArray _)) λ parent_hash parent.
        Yields-bind (IsArray 20) _ _ (Yields-ret _ _ (sliced-IsArray _)) λ sequencer miner.
          Yields-bind (Given (IsArray 32)) _ _ (map_option-Given _) λ hash given.
            Yields-bind (All (IsArray 32)) _ _
              (Yields-ret _ _ (Ends-traverse (IsArray 32) h256_of_felt h256-IsArray _))
              λ hashes all.
                Yields-ret _ _
                  (record { hash = given; parent_hash = parent; miner = miner; transactions = all })

  block_with_txs_to_eth_block-IsBlock :
      (inner : MaybePendingBlockWithTxs)
      → Yields (IsBlock true) (block_with_txs_to_eth_block inner (block_client client))
  unfolding block_with_txs_to_eth_block block_of
  block_with_txs_to_eth_block-IsBlock inner =
      Yields-bind (IsArray 32) _ _ (Yields-ret _ _ (h256-IsArray _)) λ parent_hash parent.
        Yields-bind (IsArray 20) _ _ (Yields-ret _ _ (sliced-IsArray _)) λ sequencer miner.
          Yields-bind (Given (IsArray 32)) _ _ (map_option-Given _) λ hash given.
            Yields-bind (AreTransactions true hash _) _ _ (filter-AreTransactions client _ hash _)
              λ transactions all.
                Yields-ret _ _
                  (record { hash = given; parent_hash = parent; miner = miner; transactions = all })

  -- Whatever the node replies, a block that the client gives has hashes of 32 bytes and a miner
  -- of 20, and it has its transactions if they are asked for, and their hashes if not; each
  -- transaction names that block by its hash and number, and has a hash of 32 bytes, a sender of
  -- 20, an input of bytes and the chain id.
  pub get_eth_block_from_starknet_block-IsBlock :
      (block_id : Starknet.BlockId) (full : Bool)
      → Yields (IsBlock full) (get_eth_block_from_starknet_block client block_id full)
  unfolding get_eth_block_from_starknet_block
  get_eth_block_from_starknet_block-IsBlock block_id true =
      Yields-after _ _ _ λ block. block_with_txs_to_eth_block-IsBlock block
  get_eth_block_from_starknet_block-IsBlock block_id false =
      Yields-after _ _ _ λ block. block_with_tx_hashes_to_eth_block-IsBlock block
