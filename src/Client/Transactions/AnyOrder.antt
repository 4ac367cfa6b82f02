-- ===== src/Client/Transactions/AnyOrder.antt =====
-- `filter_starknet_into_eth_txs` of crates/core/src/client/mod.rs when the conversions of the
-- transactions run concurrently, as join_all lets them.
use kakarot_rpc_adapter.Prelude.{ℕ, ◌≡◌, refl, ap, ◌∙◌, List, map, filter_map, Option, ◌⊎◌}
use kakarot_rpc_adapter.Types.{H256, U256}
use kakarot_rpc_adapter.Errors.{EthApiError}
use kakarot_rpc_adapter.Outcome.{Outcome, ok, err, panic, map_ok, traverse}
use kakarot_rpc_adapter.Crates.{Crates}
use kakarot_rpc_adapter.Starknet
use kakarot_rpc_adapter.Eth
use kakarot_rpc_adapter.Eth.{BlockTransactions}
use kakarot_rpc_adapter.Async.{caught}
use kakarot_rpc_adapter.Async.Run.{run, run_after, run->>=, Script}
use kakarot_rpc_adapter.Async.Join.{join_all}
use kakarot_rpc_adapter.Async.Interleaving.{Node, steady, Steps, ended, run-join_all-Steps}
use kakarot_rpc_adapter.Client.Contracts.{KakarotClient}
use kakarot_rpc_adapter.Client.Transactions.{filter_starknet_into_eth_txs, ok_value}
use kakarot_rpc_adapter.Client.Transactions.Filtered.{collected, conversion}

-- The transactions of a block, from the ends of the conversions.
abbrev pub kept : List (Outcome EthApiError Eth.Transaction) → Outcome EthApiError BlockTransactions
kept os = map_ok (λ rs. BlockTransactions.full (filter_map ok_value rs)) (traverse caught os)

run_after-collected :
    (p : Outcome EthApiError (List (EthApiError ⊎ Eth.Transaction)) × ℕ) (s : Script)
    → (run_after p collected s).0
      ≡ map_ok (λ rs. BlockTransactions.full (filter_map ok_value rs)) p.0
unfolding run
run_after-collected (ok rs, n) s = refl
run_after-collected (err e, n) s = refl
run_after-collected (panic, n) s = refl

module _ ⦃crates : Crates⦄ (client : KakarotClient) (block_hash : Option H256)
    (block_number : Option U256) where
  pub filter_starknet_into_eth_txs-Steps :
      (answer : Node) (txs : List Starknet.Transaction)
      (os : List (Outcome EthApiError Eth.Transaction)) (n : ℕ)
      → Steps answer (map (conversion client block_hash block_number) txs) (ended answer os)
      → (run (filter_starknet_into_eth_txs client txs block_hash block_number) (steady answer) n).0
        ≡ kept os
  unfolding filter_starknet_into_eth_txs
  filter_starknet_into_eth_txs-Steps answer txs os n steps = rw (run->>=) (
      run_after-collected
        (run (join_all (map (conversion client block_hash block_number) txs)) (steady answer) n)
        (steady answer)
      ∙ ap (map_ok (λ rs. BlockTransactions.full (filter_map ok_value rs))) (
          run-join_all-Steps answer (map (conversion client block_hash block_number) txs) os n
            steps))
