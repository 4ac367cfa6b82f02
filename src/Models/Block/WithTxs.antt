-- ===== src/Models/Block/WithTxs.antt =====
-- The getters of `BlockWithTxs` in crates/core/src/models/block.rs.
use kakarot_rpc_adapter.Prelude.{List, Option, none, some}
use kakarot_rpc_adapter.Types.{FieldElement, U64}
use kakarot_rpc_adapter.Starknet
use kakarot_rpc_adapter.Starknet.{MaybePendingBlockWithTxs}

-- The two macros: a getter of a field that pending blocks have too, and of one that they lack.
unfoldable pub txs_getter :
    {A : Type 0}
    → (Starknet.PendingBlockWithTxs → A)
    → (Starknet.BlockWithTxs → A)
    → MaybePendingBlockWithTxs
    → A
txs_getter pending final (MaybePendingBlockWithTxs.pending_block b) = pending b
txs_getter pending final (MaybePendingBlockWithTxs.block b) = final b

unfoldable pub txs_getter_not_pending :
    {A : Type 0} → (Starknet.BlockWithTxs → A) → MaybePendingBlockWithTxs → Option A
txs_getter_not_pending field (MaybePendingBlockWithTxs.pending_block b) = none
txs_getter_not_pending field (MaybePendingBlockWithTxs.block b) = some (field b)

abbrev pub parent_hash : MaybePendingBlockWithTxs → FieldElement
parent_hash = txs_getter (λ b. b.parent_hash) (λ b. b.parent_hash)

abbrev pub sequencer_address : MaybePendingBlockWithTxs → FieldElement
sequencer_address = txs_getter (λ b. b.sequencer_address) (λ b. b.sequencer_address)

abbrev pub timestamp : MaybePendingBlockWithTxs → U64
timestamp = txs_getter (λ b. b.timestamp) (λ b. b.timestamp)

abbrev pub transactions : MaybePendingBlockWithTxs → List Starknet.Transaction
transactions = txs_getter (λ b. b.transactions) (λ b. b.transactions)

abbrev pub block_hash : MaybePendingBlockWithTxs → Option FieldElement
block_hash = txs_getter_not_pending (λ b. b.block_hash)

abbrev pub block_number : MaybePendingBlockWithTxs → Option U64
block_number = txs_getter_not_pending (λ b. b.block_number)
