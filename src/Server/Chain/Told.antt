-- ===== src/Server/Chain/Told.antt =====
-- A Starknet node that holds a chain: what it answers to the requests for blocks, transactions, their
-- receipts, and the classes and addresses of contracts.
use kakarot_rpc_adapter.Prelude.{
  ℕ, ◌^◌, ◌<◌, ◌≡◌, List, [], ◌∷◌, Option, none, some, ◌⊎◌, inl, inr, All, get_elem?,
}
use kakarot_rpc_adapter.Types.{FieldElement, IsFelt, U64}
use kakarot_rpc_adapter.Errors.{
  ProviderError, StarknetError, starknet_error, block_not_found, transaction_hash_not_found,
  contract_not_found, contract_error, invalid_transaction_index, no_blocks,
}
use kakarot_rpc_adapter.Crates.{Crates}
use kakarot_rpc_adapter.Starknet
use kakarot_rpc_adapter.Starknet.{MaybePendingTransactionReceipt, TransactionReceipt}
use kakarot_rpc_adapter.Async.{Request}
use kakarot_rpc_adapter.Async.Interleaving.{Node}
use kakarot_rpc_adapter.Models.Transaction.{latest_block}
use kakarot_rpc_adapter.Models.Transaction.Kakarot.{class_request}
use kakarot_rpc_adapter.Client.Contracts.{KakarotClient}
use kakarot_rpc_adapter.Client.Contracts.Answers.{evm_address_request}
use kakarot_rpc_adapter.Server.Chain.{
  Block, Chain, all_blocks, find, locate, height, block_with_txs, block_with_tx_hashes,
}
use kakarot_rpc_adapter.Server.Chain.Shown.{invoked}

abbrev pub told : {A : Type 0} → StarknetError → Option A → ProviderError ⊎ A
told e none = inl (starknet_error e)
told e (some a) = inr a

abbrev pub mapped : {A B : Type 0} → (A → B) → Option A → Option B
mapped f none = none
mapped f (some a) = some (f a)

abbrev pub transaction_in : Option Block → ℕ → ProviderError ⊎ Starknet.Transaction
transaction_in none index = inl (starknet_error block_not_found)
transaction_in (some b) index =
    told invalid_transaction_index (mapped (λ t. t.1) (get_elem? b.transactions index))

-- What a contract answers, or the error of one that does not.
abbrev pub answered : Option FieldElement → ProviderError ⊎ List FieldElement
answered none = inl (starknet_error contract_error)
answered (some address) = inr (address ∷ [])

-- The receipt of an invoke transaction names it and its block, and there is no other one that does; a
-- transaction of a pending block has a pending receipt.
abbrev pub Fits :
    Option (FieldElement × U64)
    → FieldElement × Starknet.Transaction
    → MaybePendingTransactionReceipt
    → Type 0
Fits none t MaybePendingTransactionReceipt.pending_receipt = Unit
Fits (some (hash, number)) (h, Starknet.Transaction.invoke tx)
      (MaybePendingTransactionReceipt.receipt (TransactionReceipt.invoke tr)) =
    (tr.block_hash ≡ hash) × (tr.block_number ≡ number) × (tr.transaction_hash ≡ h)
Fits place (h, Starknet.Transaction.invoke tx) r = ⊥
Fits place t (MaybePendingTransactionReceipt.receipt (TransactionReceipt.invoke tr)) = ⊥
Fits place t r = Unit

-- The hash of a transaction is the one that it is listed by, and its nonce is a field element.
abbrev pub IsTransaction : FieldElement → Starknet.Transaction → Type 0
IsTransaction hash (Starknet.Transaction.invoke tx) =
    ((invoked tx).hash ≡ hash) × IsFelt (invoked tx).nonce
IsTransaction hash _ = Unit

abbrev pub IsPlace : Option (FieldElement × U64) → Type 0
IsPlace none = Unit
IsPlace (some (hash, number)) = number < 2 ^ 64

-- A transaction of a block is found by its hash, and its receipt fits.
pub record IsListed (chain : Chain) (b : Block) (t : FieldElement × Starknet.Transaction)
    : Type 0 where
  pub is_transaction : IsTransaction t.0 t.1
  pub hash-IsFelt : IsFelt t.0
  pub located : locate chain t.0 ≡ some (b, t.1)
  pub fits : Fits b.place t (chain.receipt t.0)

pub record IsBlock (chain : Chain) (b : Block) : Type 0 where
  pub is_place : IsPlace b.place
  pub are_listed : All (IsListed chain b) b.transactions

abbrev pub IsChain : Chain → Type 0
IsChain chain = All (IsBlock chain) (all_blocks chain)

module _ ⦃crates : Crates⦄ (client : KakarotClient) where
  pub record Represents (node : Node) (chain : Chain) : Type 0 where
    pub txs_told :
        (id : Starknet.BlockId)
        → node (Request.get_block_with_txs id)
          ≡ told block_not_found (mapped (λ b. block_with_txs b.place b) (find chain id))
    pub hashes_told :
        (id : Starknet.BlockId)
        → node (Request.get_block_with_tx_hashes id)
          ≡ told block_not_found (mapped (λ b. block_with_tx_hashes b.place b) (find chain id))
    pub transaction_told :
        (id : Starknet.BlockId) (index : ℕ)
        → node (Request.get_transaction_by_block_id_and_index id index)
          ≡ transaction_in (find chain id) index
    pub located_told :
        (h : FieldElement)
        → node (Request.get_transaction_by_hash h)
          ≡ told transaction_hash_not_found (mapped (λ t. t.1) (locate chain h))
    pub receipt_told :
        (h : FieldElement)
        → node (Request.get_transaction_receipt h)
          ≡ told transaction_hash_not_found (mapped (λ _. chain.receipt h) (locate chain h))
    pub class_told :
        (sender : FieldElement)
        → node (class_request sender) ≡ told contract_not_found (chain.class_hash sender)
    pub address_told :
        (contract : FieldElement)
        → node (evm_address_request client latest_block contract)
          ≡ answered (chain.evm_address contract)
    pub height_told : node Request.block_number ≡ told no_blocks (height chain.blocks)
