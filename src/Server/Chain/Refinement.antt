-- ===== src/Server/Chain/Refinement.antt =====
-- The JSON-RPC methods that ask for blocks and transactions show the chain that the node holds:
-- crates/eth-rpc/src/eth_rpc.rs over crates/core/src/client/mod.rs.
use mathlib.Core.Path.{fun_ext}
use kakarot_rpc_adapter.Prelude.{none, get_elem?, ℕ, ◌≡◌, sym, ap, ◌∙◌, some, Bool}
use kakarot_rpc_adapter.Types.{IsArray, H256}
use kakarot_rpc_adapter.Errors.{
  no_blocks, block_not_found, invalid_transaction_index, transaction_hash_not_found,
}
use kakarot_rpc_adapter.Errors.Codes.{to_error_object}
use kakarot_rpc_adapter.Outcome
use kakarot_rpc_adapter.Outcome.{
  Outcome, ok, err, panic, map_ok, map_ok_lem, map_err, ok_or, map_ok-map_err, map_ok->>=,
  >>=_assoc,
}
use kakarot_rpc_adapter.Crates.{Crates}
use kakarot_rpc_adapter.Eth.{BlockId}
use kakarot_rpc_adapter.Async
use kakarot_rpc_adapter.Async.{Async, Request, lift, map_error, pure}
use kakarot_rpc_adapter.Async.Run.{run}
use kakarot_rpc_adapter.Async.Interleaving.{Node, steady, final, run-steady}
use kakarot_rpc_adapter.Async.Final.{of_reply, final->>=, final-ask, final-map_error}
use kakarot_rpc_adapter.Client.Chain.{block_number}
use kakarot_rpc_adapter.Client.Helpers.{ethers_block_id_to_starknet_block_id}
use kakarot_rpc_adapter.Client.Contracts.{KakarotClient}
use kakarot_rpc_adapter.Client.Transactions.{
  transaction_by_block_id_and_index, transaction_by_hash, get_transaction_count_by_block,
  block_transaction_count_by_hash, block_transaction_count_by_number,
}
use kakarot_rpc_adapter.Client.Provider.{get_eth_block_from_starknet_block}
use kakarot_rpc_adapter.Rpc
use kakarot_rpc_adapter.Server.{JsonTypes, serve}
use kakarot_rpc_adapter.Server.Chain.{Chain, find, locate, height}
use kakarot_rpc_adapter.Server.Chain.Shown.{show_block, show_transaction, missing}
use kakarot_rpc_adapter.Server.Chain.Queries.{
  receipt, newest_number, Query, block, transaction_count, transaction_at, transaction, show,
  starknet_id, felt_of_hash, found,
}
use kakarot_rpc_adapter.Server.Chain.Told.{Represents, IsChain}
use kakarot_rpc_adapter.Server.Chain.Replies.{reply, IsBlockId, IsQuery}
use kakarot_rpc_adapter.Server.Chain.Requests.{final-show_block, final-show_count}
use kakarot_rpc_adapter.Server.Chain.Places.{final-show_at, final-show_hash}
use kakarot_rpc_adapter.Server.Chain.Receipts.{final-show_receipt}
use kakarot_rpc_adapter.Server.Chain.Wrapped.{
  of_reply-told, shown_by_id, starknet_id_lem, final-wrapped, final-by_id,
}

module _ ⦃crates : Crates⦄ (types : JsonTypes) (client : KakarotClient) (node : Node)
    (chain : Chain) (represents : Represents client node chain) (chained : IsChain chain) where
  final-show_by_id :
      (id : BlockId) (full : Bool)
      → IsBlockId id
      → final node (
          Async.◌>>=◌ (Rpc.starknet_block id) λ i.
            Async.◌>>=◌
              (map_error to_error_object (get_eth_block_from_starknet_block client i full))
              λ a. pure (some a))
        ≡ map_err to_error_object (show client chain (block id full))
  final-show_by_id id full h =
      final-by_id node id (λ i. get_eth_block_from_starknet_block client i full) h
      ∙ ap (map_err to_error_object) (
          rw (fun_ext (λ i. final-show_block client node chain represents i full chained)) (
            shown_by_id (starknet_id id) (λ i. ok_or (missing block_not_found) (find chain i))
              (show_block client chain full)))

  final-show_in_block :
      (id : BlockId) (index : ℕ)
      → IsBlockId id
      → final node (
          Async.◌>>=◌ (Rpc.starknet_block id) λ i.
            Async.◌>>=◌
              (map_error to_error_object (transaction_by_block_id_and_index client i index))
              λ a. pure (some a))
        ≡ map_err to_error_object (show client chain (transaction_at id index))
  final-show_in_block id index h =
      final-by_id node id (λ i. transaction_by_block_id_and_index client i index) h
      ∙ ap (map_err to_error_object) (
          rw (fun_ext (λ i. final-show_at client node chain represents i index chained)) (
            shown_by_id (starknet_id id) (λ i. ok_or (missing block_not_found) (find chain i)) _
            ∙ ap (λ k. Outcome.◌>>=◌ (found client chain id) k)
                (fun_ext (λ b.
                  map_ok->>= some
                    (ok_or (missing invalid_transaction_index) (get_elem? b.transactions index))
                    (λ t. show_transaction client chain b.place (some index) t.1)))))

  final-show_count_by_id :
      (id : BlockId)
      → IsBlockId id
      → final node (
          map_error to_error_object (
            Async.◌>>=◌
              (lift (ethers_block_id_to_starknet_block_id id))
              (get_transaction_count_by_block client)))
        ≡ map_err to_error_object (show client chain (transaction_count id))
  unfolding final
  final-show_count_by_id id h =
      rw
        (
          final-map_error,
          starknet_id_lem id h,
          final->>=,
          fun_ext (λ i. final-show_count client node chain represents i chained),
        )
        (ap (map_err to_error_object) (sym (>>=_assoc (starknet_id id) _ _)))

  final-show_by_hash :
      (h : H256)
      → IsArray 32 h
      → final node (
          Async.◌>>=◌ (map_error to_error_object (transaction_by_hash client h)) λ a. pure (some a))
        ≡ map_err to_error_object (show client chain (transaction h))
  final-show_by_hash h a =
      final-wrapped node (transaction_by_hash client h)
      ∙ ap (map_err to_error_object) (
          rw (final-show_hash client node chain represents h a chained) (
            map_ok->>= some (felt_of_hash h) _
            ∙ ap (λ k. Outcome.◌>>=◌ (felt_of_hash h) k)
                (fun_ext (λ hash.
                  map_ok->>= some (ok_or (missing transaction_hash_not_found) (locate chain hash))
                    (λ t. show_transaction client chain t.0.place none t.1)))))

  final-show_number :
      final node (map_error to_error_object block_number)
      ≡ map_err to_error_object (show client chain newest_number)
  unfolding block_number
  final-show_number =
      final-map_error node to_error_object _
      ∙ ap (map_err to_error_object) (
          final-ask node Request.block_number
          ∙ ap of_reply represents.height_told
          ∙ of_reply-told no_blocks (height chain.blocks))

  final-show :
      (q : Query)
      → IsQuery q
      → final node (reply types client q) ≡ map_err to_error_object (show client chain q)
  unfolding reply serve Rpc.block_by_hash Rpc.block_by_number Rpc.block_transaction_count_by_hash
      Rpc.block_transaction_count_by_number Rpc.transaction_by_block_hash_and_index
      Rpc.transaction_by_block_number_and_index Rpc.transaction_by_hash Rpc.transaction_receipt
      Rpc.block_number block_transaction_count_by_hash block_transaction_count_by_number
  final-show (block (BlockId.hash h) full) a = final-show_by_id (BlockId.hash h) full a
  final-show (block (BlockId.number n) full) a = final-show_by_id (BlockId.number n) full a
  final-show (transaction_count (BlockId.hash h)) a = final-show_count_by_id (BlockId.hash h) a
  final-show (transaction_count (BlockId.number n)) a = final-show_count_by_id (BlockId.number n) a
  final-show (transaction_at (BlockId.hash h) index) a =
      final-show_in_block (BlockId.hash h) index a
  final-show (transaction_at (BlockId.number n) index) a =
      final-show_in_block (BlockId.number n) index a
  final-show (transaction h) a = final-show_by_hash h a
  final-show (receipt h) a =
      final-map_error node to_error_object _
      ∙ ap (map_err to_error_object) (final-show_receipt client node chain represents h a chained)
  final-show newest_number a = final-show_number

  -- Over a node that holds a chain of blocks whose transactions are found by their hashes, with
  -- receipts that name them and place them in their blocks: to each query for a block, a count
  -- of transactions, a transaction, a receipt or the newest block number, with hashes of 32
  -- bytes, the server replies what the specification shows of the chain. That is a block with
  -- its transactions of Kakarot or with all its hashes, the number of its transactions of
  -- Kakarot, a transaction with its place, the number of the newest block, or the receipt of a
  -- transaction of Kakarot in a final block, with its sender and its logs, and none for
  -- transactions that are no invoke transactions and for the pending block; and the error object
  -- of what is missing, refused or not decoded.
  pub reply-show :
      (q : Query) (n : ℕ)
      → IsQuery q
      → (run (reply types client q) (steady node) n).0
        ≡ map_err to_error_object (show client chain q)
  reply-show q n h = run-steady node (reply types client q) n ∙ final-show q h
