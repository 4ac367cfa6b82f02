-- ===== src/Server/Chain/Whole.antt =====
-- Which queries for blocks, transactions and receipts end in no panic: crates/eth-rpc/src/eth_rpc.rs
-- over crates/core/src/client/mod.rs.
use kakarot_rpc_adapter.Prelude.{
  ℕ, ◌≡◌, none, some, All, inl, inr, Bool-cases, get_elem?, ltb, length,
}
use kakarot_rpc_adapter.Prelude.Bytes.{be_value}
use kakarot_rpc_adapter.Types.{FieldElement, H256, prime}
use kakarot_rpc_adapter.Errors.{
  EthApiError, block_not_found, no_blocks, transaction_hash_not_found, invalid_transaction_index,
}
use kakarot_rpc_adapter.Errors.Codes.{to_error_object}
use kakarot_rpc_adapter.Outcome
use kakarot_rpc_adapter.Outcome.{
  Outcome, ok, err, panic, map_ok, map_err, ok_or, ok_or-eq-ok, >>=-eq-ok,
}
use kakarot_rpc_adapter.Crates.{Crates}
use kakarot_rpc_adapter.Starknet
use kakarot_rpc_adapter.Starknet.{MaybePendingTransactionReceipt, TransactionReceipt}
use kakarot_rpc_adapter.Eth.{BlockId, BlockNumberOrTag}
use kakarot_rpc_adapter.Async.Run.{run}
use kakarot_rpc_adapter.Async.Interleaving.{Node, steady}
use kakarot_rpc_adapter.Async.Panics.{IsResult, ok_or-IsResult, map_err-IsResult}
use kakarot_rpc_adapter.Client.Contracts.{KakarotClient}
use kakarot_rpc_adapter.Server.{JsonTypes}
use kakarot_rpc_adapter.Server.Chain.{Block, Chain, find, locate, all_blocks, height}
use kakarot_rpc_adapter.Server.Chain.Shown.{missing, show_transaction, show_block, listed}
use kakarot_rpc_adapter.Server.Chain.Queries.{
  Query, block, transaction_count, transaction_at, transaction, receipt, newest_number, show, found,
  felt_of_hash, starknet_id,
}
use kakarot_rpc_adapter.Server.Chain.Told.{Represents, IsChain}
use kakarot_rpc_adapter.Server.Chain.Found.{find-All, get_elem?-All, locate_in-All}
use kakarot_rpc_adapter.Server.Chain.Replies.{reply, IsQuery}
use kakarot_rpc_adapter.Server.Chain.Refinement.{reply-show}
use kakarot_rpc_adapter.Server.Chain.Readable.{
  bind_ok-IsResult, map_ok-IsResult, IsReadable, AreReadable, show_transaction-IsResult,
  listed-IsResult, show_block-IsResult, show_receipt-IsResult,
}

module _ ⦃crates : Crates⦄ (client : KakarotClient) (chain : Chain) where
  felt_of_hash-IsResult : (h : H256) → IsResult (felt_of_hash h)
  felt_of_hash-IsResult h = elim (Bool-cases (ltb (be_value h) prime)) [
    | inl lt ↦ rw lt tt
    | inr ge ↦ rw ge tt
  ]

  starknet_id-IsResult : (id : BlockId) → IsResult (starknet_id id)
  starknet_id-IsResult (BlockId.hash h) =
      map_ok-IsResult _ (felt_of_hash h) (felt_of_hash-IsResult h)
  starknet_id-IsResult (BlockId.number BlockNumberOrTag.latest) = tt
  starknet_id-IsResult (BlockId.number BlockNumberOrTag.finalized) = tt
  starknet_id-IsResult (BlockId.number BlockNumberOrTag.safe) = tt
  starknet_id-IsResult (BlockId.number BlockNumberOrTag.earliest) = tt
  starknet_id-IsResult (BlockId.number BlockNumberOrTag.pending) = tt
  starknet_id-IsResult (BlockId.number (BlockNumberOrTag.number n)) = tt

  found-IsResult : (id : BlockId) → IsResult (found client chain id)
  found-IsResult id =
      bind_ok-IsResult (starknet_id id) _ (starknet_id-IsResult id)
        (λ i _. ok_or-IsResult (missing block_not_found) (find chain i))

  module _ (readable : All (AreReadable client chain) (all_blocks chain)) where
    found-AreReadable :
        (id : BlockId) (b : Block) → found client chain id ≡ ok b → AreReadable client chain b
    found-AreReadable id b e =
        let (i, converted, e') = >>=-eq-ok (starknet_id id) _ e in
        find-All (AreReadable client chain) chain i b readable
          (ok_or-eq-ok (missing block_not_found) (find chain i) e')

    in_found :
        {A : Type 0} (id : BlockId) (f : Block → Outcome EthApiError A)
        → ((b : Block) → AreReadable client chain b → IsResult (f b))
        → IsResult (Outcome.◌>>=◌ (found client chain id) f)
    in_found id f h =
        bind_ok-IsResult (found client chain id) f (found-IsResult id)
          (λ b e. h b (found-AreReadable id b e))

    in_located :
        {A : Type 0} (h : H256)
        (f : FieldElement → Block × Starknet.Transaction → Outcome EthApiError A)
        → ((hash : FieldElement) (t : Block × Starknet.Transaction)
            → IsReadable client chain t.1
            → IsResult (f hash t))
        → IsResult (
            Outcome.◌>>=◌ (felt_of_hash h) λ hash.
              Outcome.◌>>=◌
                (ok_or (missing transaction_hash_not_found) (locate chain hash))
                (f hash))
    in_located h f k = bind_ok-IsResult (felt_of_hash h) _ (felt_of_hash-IsResult h) (λ hash _.
        bind_ok-IsResult (ok_or (missing transaction_hash_not_found) (locate chain hash)) (f hash)
          (ok_or-IsResult (missing transaction_hash_not_found) (locate chain hash))
          (λ t e. k hash t (
            locate_in-All (λ _ t. IsReadable client chain t.1) (all_blocks chain) hash t.0 t.1
              readable (ok_or-eq-ok (missing transaction_hash_not_found) (locate chain hash) e))))

    show-IsResult : (q : Query) → IsResult (show client chain q)
    show-IsResult (block id full) = in_found id _ (λ b h.
        map_ok-IsResult some (show_block client chain full b)
          (show_block-IsResult client chain full b h))
    show-IsResult (transaction_count id) =
        in_found id _
          (λ b h. map_ok-IsResult length (listed client chain b) (listed-IsResult client chain b h))
    show-IsResult (transaction_at id index) = in_found id _ (λ b h.
        bind_ok-IsResult
          (ok_or (missing invalid_transaction_index) (get_elem? b.transactions index)) _
          (ok_or-IsResult (missing invalid_transaction_index) (get_elem? b.transactions index))
          (λ t e. map_ok-IsResult some (show_transaction client chain b.place (some index) t.1) (
            show_transaction-IsResult client chain b.place (some index) t.1 (
              get_elem?-All (λ t. IsReadable client chain t.1) b.transactions index t h
                (ok_or-eq-ok (missing invalid_transaction_index) (get_elem? b.transactions index)
                  e)))))
    show-IsResult (transaction h) = in_located h _ (λ hash t r.
        map_ok-IsResult some (show_transaction client chain t.0.place none t.1)
          (show_transaction-IsResult client chain t.0.place none t.1 r))
    show-IsResult (receipt h) =
        in_located h _ (λ hash t r. show_receipt-IsResult client chain (chain.receipt hash) t.1 r)
    show-IsResult newest_number = ok_or-IsResult (missing no_blocks) (height chain.blocks)

module _ ⦃crates : Crates⦄ (types : JsonTypes) (client : KakarotClient) (node : Node)
    (chain : Chain) (represents : Represents client node chain) (chained : IsChain chain) where
  -- Over a node that holds a chain of blocks whose transactions are found by their hashes, with
  -- receipts that name them and place them in their blocks: if the calldata of every invoke
  -- transaction whose sender has the class of the proxy accounts is decoded to a signature or to
  -- an error, then every query for a block, a count, a transaction, a receipt or the newest
  -- block number, with hashes of 32 bytes, ends in a value or an error object, and not in a
  -- panic.
  pub reply-IsResult :
      (q : Query) (n : ℕ)
      → IsQuery q
      → All (AreReadable client chain) (all_blocks chain)
      → IsResult (run (reply types client q) (steady node) n).0
  reply-IsResult q n h readable = rw (reply-show types client node chain represents chained q n h) (
      map_err-IsResult to_error_object (show client chain q)
        (show-IsResult client chain readable q))
