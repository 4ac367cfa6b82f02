-- ===== src/Client/Transactions/Counted.antt =====
-- What `get_transaction_count_by_block` of crates/core/src/client/mod.rs counts.
use kakarot_rpc_adapter.Prelude.{ℕ, suc, ◌≡◌, refl, ap, ◌∙◌, List, map, Option, none, some, inr}
use kakarot_rpc_adapter.Types.{U256}
use kakarot_rpc_adapter.Errors.{EthApiError}
use kakarot_rpc_adapter.Outcome
use kakarot_rpc_adapter.Outcome.{Outcome, ok, err, panic, map_ok, map_ok_lem}
use kakarot_rpc_adapter.Crates.{Crates}
use kakarot_rpc_adapter.Starknet
use kakarot_rpc_adapter.Starknet.{MaybePendingBlockWithTxs}
use kakarot_rpc_adapter.Eth
use kakarot_rpc_adapter.Eth.{BlockTransactions}
use kakarot_rpc_adapter.Async.{Request, Async, pure, ◌>>=◌}
use kakarot_rpc_adapter.Async.Run.{run, run->>=, run-ask}
use kakarot_rpc_adapter.Async.Interleaving.{Node, steady, Steps, ended, bound}
use kakarot_rpc_adapter.Models.Felt.{from_u64, to_u256}
use kakarot_rpc_adapter.Models.Felt.RoundTrip.{to_h256_lem}
use kakarot_rpc_adapter.Models.Block.Headers.{hash_of_txs_block, txs_of_block}
use kakarot_rpc_adapter.Client.Contracts.{KakarotClient}
use kakarot_rpc_adapter.Client.Transactions.{
  transactions_len, block_transactions, get_transaction_count_by_block,
}
use kakarot_rpc_adapter.Client.Transactions.Filtered.{conversion}
use kakarot_rpc_adapter.Client.Transactions.AnyOrder.{kept, filter_starknet_into_eth_txs-Steps}

module _ ⦃crates : Crates⦄ (client : KakarotClient) where
  -- The number that a block hands to its transactions.
  abbrev pub number_in_txs : MaybePendingBlockWithTxs → Option U256
  number_in_txs (MaybePendingBlockWithTxs.pending_block b) = none
  number_in_txs (MaybePendingBlockWithTxs.block b) = some (to_u256 (from_u64 b.block_number))

  -- The conversions of the transactions of a block.
  abbrev pub conversions_of : MaybePendingBlockWithTxs → List (Async EthApiError Eth.Transaction)
  conversions_of b =
      map (conversion client (hash_of_txs_block b) (number_in_txs b)) (txs_of_block b)

  run-block_transactions :
      (answer : Node) (b : MaybePendingBlockWithTxs)
      (os : List (Outcome EthApiError Eth.Transaction)) (n : ℕ)
      → Steps answer (conversions_of b) (ended answer os)
      → (run (block_transactions client b) (steady answer) n).0 ≡ kept os
  unfolding block_transactions
  run-block_transactions answer (MaybePendingBlockWithTxs.pending_block b) os n steps =
      filter_starknet_into_eth_txs-Steps client none none answer b.transactions os n steps
  run-block_transactions answer (MaybePendingBlockWithTxs.block b) os n steps =
      rw (to_h256_lem {E = EthApiError}) (
        unfold ◌>>=◌ in
        filter_starknet_into_eth_txs-Steps client
          (hash_of_txs_block (MaybePendingBlockWithTxs.block b))
          (number_in_txs (MaybePendingBlockWithTxs.block b)) answer b.transactions os n steps)

  pub get_transaction_count_by_block-Steps :
      (answer : Node) (block_id : Starknet.BlockId) (b : MaybePendingBlockWithTxs)
      (os : List (Outcome EthApiError Eth.Transaction)) (n : ℕ)
      → answer (Request.get_block_with_txs block_id) ≡ inr b
      → Steps answer (conversions_of b) (ended answer os)
      → (run (get_transaction_count_by_block client block_id) (steady answer) n).0
        ≡ map_ok transactions_len (kept os)
  unfolding get_transaction_count_by_block
  get_transaction_count_by_block-Steps answer block_id b os n e steps =
      rw (run->>=, run-ask (Request.get_block_with_txs block_id) (steady answer) n b e)
        (rw (run->>=) (
          bound answer (run (block_transactions client b) (steady answer) (suc n))
            (λ ts. pure (transactions_len ts)) (λ ts. ok (transactions_len ts))
            (λ ts k. (unfold run in refl))
          ∙ ap (λ o. Outcome.◌>>=◌ o (λ ts. ok (transactions_len ts)))
              (run-block_transactions answer b os (suc n) steps)
          ∙ map_ok_lem transactions_len (kept os)))
