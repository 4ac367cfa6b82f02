-- ===== src/Server/Chain.antt =====
-- What the JSON-RPC methods that ask for blocks and transactions promise, apart from how the node is
-- asked: the chain of blocks that they show. crates/eth-rpc/src/eth_rpc.rs over
-- crates/core/src/client/mod.rs and crates/core/src/models.
pub mod Shown
pub mod Queries
pub mod Told
pub mod Found
pub mod Senders
pub mod Transactions
pub mod Blocks
pub mod Requests
pub mod Placed
pub mod Places
pub mod Logs
pub mod Receipts
pub mod Replies
pub mod Wrapped
pub mod Refinement
pub mod Agreement
pub mod Newest
pub mod Readable
pub mod Whole
pub mod Crash
use kakarot_rpc_adapter.Prelude.{
  ℕ, List, [], ◌∷◌, map, Option, none, some, ◌==◌, if◌then◌else◌, get_elem?, Bool, true, false,
}
use kakarot_rpc_adapter.Types.{FieldElement, U64}
use kakarot_rpc_adapter.Starknet
use kakarot_rpc_adapter.Starknet.{
  MaybePendingBlockWithTxs, MaybePendingBlockWithTxHashes, MaybePendingTransactionReceipt,
}

-- A block of Starknet: its hash and number, which a pending one has not, and its transactions with
-- their hashes.
pub record Block : Type 0 where
  pub place : Option (FieldElement × U64)
  pub parent_hash : FieldElement
  pub timestamp : U64
  pub sequencer_address : FieldElement
  pub transactions : List (FieldElement × Starknet.Transaction)

-- The final blocks, the newest first, and the pending one; the receipt of each transaction; the class
-- of each contract, and the EVM address that it answers if it does.
pub record Chain : Type 0 where
  pub blocks : List Block
  pub pending : Option Block
  pub receipt : FieldElement → MaybePendingTransactionReceipt
  pub class_hash : FieldElement → Option FieldElement
  pub evm_address : FieldElement → Option FieldElement

abbrev pub with_pending : Option Block → List Block → List Block
with_pending none bs = bs
with_pending (some b) bs = b ∷ bs

abbrev pub all_blocks : Chain → List Block
all_blocks chain = with_pending chain.pending chain.blocks

abbrev pub place_has_hash : FieldElement → Option (FieldElement × U64) → Bool
place_has_hash h none = false
place_has_hash h (some (hash, number)) = hash == h

abbrev pub place_has_number : U64 → Option (FieldElement × U64) → Bool
place_has_number n none = false
place_has_number n (some (hash, number)) = number == n

-- The first block of a list that passes a test.
abbrev pub first : (Block → Bool) → List Block → Option Block
first test [] = none
first test (b ∷ bs) = if test b then some b else first test bs

-- The block that a Starknet block id names.
abbrev pub find : Chain → Starknet.BlockId → Option Block
find chain (Starknet.BlockId.hash h) = first (λ b. place_has_hash h b.place) chain.blocks
find chain (Starknet.BlockId.number n) = first (λ b. place_has_number n b.place) chain.blocks
find chain (Starknet.BlockId.tag Starknet.BlockTag.latest) = first (λ b. true) chain.blocks
find chain (Starknet.BlockId.tag Starknet.BlockTag.pending) = chain.pending

abbrev pub number_of : Option (FieldElement × U64) → Option U64
number_of none = none
number_of (some (hash, number)) = some number

-- The number of the newest block.
abbrev pub height : List Block → Option U64
height [] = none
height (b ∷ bs) = number_of b.place

abbrev pub lookup :
    FieldElement → List (FieldElement × Starknet.Transaction) → Option Starknet.Transaction
lookup h [] = none
lookup h ((hash, tx) ∷ txs) = if hash == h then some tx else lookup h txs

abbrev pub or_else : {A : Type 0} → Option A → Option A → Option A
or_else (some a) o = some a
or_else none o = o

abbrev pub beside : Block → Option Starknet.Transaction → Option (Block × Starknet.Transaction)
beside b none = none
beside b (some tx) = some (b, tx)

abbrev pub locate_in : FieldElement → List Block → Option (Block × Starknet.Transaction)
locate_in h [] = none
locate_in h (b ∷ bs) = or_else (beside b (lookup h b.transactions)) (locate_in h bs)

-- The transaction with a hash, and its block.
abbrev pub locate : Chain → FieldElement → Option (Block × Starknet.Transaction)
locate chain h = locate_in h (all_blocks chain)

-- The block as the node gives it, with its transactions and with their hashes.
abbrev pub block_with_txs : Option (FieldElement × U64) → Block → MaybePendingBlockWithTxs
block_with_txs none b = MaybePendingBlockWithTxs.pending_block (record {
  parent_hash = b.parent_hash;
  timestamp = b.timestamp;
  sequencer_address = b.sequencer_address;
  transactions = map (λ t. t.1) b.transactions;
})
block_with_txs (some (hash, number)) b = MaybePendingBlockWithTxs.block (record {
  block_hash = hash;
  parent_hash = b.parent_hash;
  block_number = number;
  timestamp = b.timestamp;
  sequencer_address = b.sequencer_address;
  transactions = map (λ t. t.1) b.transactions;
})

abbrev pub block_with_tx_hashes :
    Option (FieldElement × U64) → Block → MaybePendingBlockWithTxHashes
block_with_tx_hashes none b = MaybePendingBlockWithTxHashes.pending_block (record {
  parent_hash = b.parent_hash;
  timestamp = b.timestamp;
  sequencer_address = b.sequencer_address;
  transactions = map (λ t. t.0) b.transactions;
})
block_with_tx_hashes (some (hash, number)) b = MaybePendingBlockWithTxHashes.block (record {
  block_hash = hash;
  parent_hash = b.parent_hash;
  block_number = number;
  timestamp = b.timestamp;
  sequencer_address = b.sequencer_address;
  transactions = map (λ t. t.0) b.transactions;
})
