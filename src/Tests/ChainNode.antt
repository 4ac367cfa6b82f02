-- ===== src/Tests/ChainNode.antt =====
-- A node that holds a chain.
use kakarot_rpc_adapter.Prelude.{refl, inl}
use kakarot_rpc_adapter.Errors.{
  block_not_found, transaction_hash_not_found, contract_not_found, no_blocks, rate_limited,
}
use kakarot_rpc_adapter.Async.{Request}
use kakarot_rpc_adapter.Async.Interleaving.{Node}
use kakarot_rpc_adapter.Server.Chain.{
  Chain, find, locate, height, block_with_txs, block_with_tx_hashes,
}
use kakarot_rpc_adapter.Server.Chain.Told.{Represents, told, answered, mapped, transaction_in}
use kakarot_rpc_adapter.Tests.Sample.{sample, client}

abbrev pub node_of : Chain → Node
node_of chain (Request.get_block_with_txs id) =
    told block_not_found (mapped (λ b. block_with_txs b.place b) (find chain id))
node_of chain (Request.get_block_with_tx_hashes id) =
    told block_not_found (mapped (λ b. block_with_tx_hashes b.place b) (find chain id))
node_of chain (Request.get_transaction_by_block_id_and_index id index) =
    transaction_in (find chain id) index
node_of chain (Request.get_transaction_by_hash h) =
    told transaction_hash_not_found (mapped (λ t. t.1) (locate chain h))
node_of chain (Request.get_transaction_receipt h) =
    told transaction_hash_not_found (mapped (λ _. chain.receipt h) (locate chain h))
node_of chain (Request.get_class_hash_at _ sender) =
    told contract_not_found (chain.class_hash sender)
node_of chain (Request.call f _) = answered (chain.evm_address f.contract_address)
node_of chain (Request.get_nonce _ _) = inl rate_limited
node_of chain (Request.add_invoke_transaction _) = inl rate_limited
node_of chain Request.block_number = told no_blocks (height chain.blocks)
node_of chain Request.syncing = inl rate_limited

pub node_of-Represents : (chain : Chain) → Represents client (node_of chain) chain
node_of-Represents chain = record {
  txs_told = λ id. refl;
  hashes_told = λ id. refl;
  transaction_told = λ id index. refl;
  located_told = λ h. refl;
  receipt_told = λ h. refl;
  class_told = λ sender. refl;
  address_told = λ contract. refl;
  height_told = refl;
}
