-- ===== src/Models/Block/WithTxHashes.antt =====
-- The getters of `BlockWithTxHashes` in crates/core/src/models/block.rs.
use kakarot_rpc_adapter.Prelude.{List, Option, none, some}
use kakarot_rpc_adapter.Types.{FieldElement, U64}
use kakarot_rpc_adapter.Starknet
use kakarot_rpc_adapter.Starknet.{MaybePendingBlockWithTxHashes}

-- The two macros: a getter of a field that pending blocks have too, and of one that they lack.
unfoldable pub hashes_getter :
    {A : Type 0}
    → (Starknet.PendingBlockWithTxHashes → A)
    → (Starknet.BlockWithTxHashes → A)
    → MaybePendingBlockWithTxHashes
    → A
hashes_getter pending final (MaybePendingBlockWithTxHashes.pending_block b) = pending b
hashes_getter pending final (MaybePendingBlockWithTxHashes.block b) = final b

unfoldable pub hashes_getter_not_pending :
    {A : Type 0} → (Starknet.BlockWithTxHashes → A) → MaybePendingBlockWithTxHashes → Option A
hashes_getter_not_pending field (MaybePendingBlockWithTxHashes.pending_block b) = none
hashes_getter_not_pending field (MaybePendingBlockWithTxHashes.block b) = some (field b)

abbrev pub parent_hash : MaybePendingBlockWithTxHashes → FieldElement
parent_hash = hashes_getter (λ b. b.parent_hash) (λ b. b.parent_hash)

abbrev pub sequencer_address : MaybePendingBlockWithTxHashes → FieldElement
sequencer_address = hashes_getter (λ b. b.sequencer_address) (λ b. b.sequencer_address)

abbrev pub timestamp : MaybePendingBlockWithTxHashes → U64
timestamp = hashes_getter (λ b. b.timestamp) (λ b. b.timestamp)

abbrev pub transactions : MaybePendingBlockWithTxHashes → List FieldElement
transactions = hashes_getter (λ b. b.transactions) (λ b. b.transactions)

abbrev pub block_hash : MaybePendingBlockWithTxHashes → Option FieldElement
block_hash = hashes_getter_not_pending (λ b. b.block_hash)

abbrev pub block_number : MaybePendingBlockWithTxHashes → Option U64
block_number = hashes_getter_not_pending (λ b. b.block_number)
