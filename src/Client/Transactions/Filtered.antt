-- ===== src/Client/Transactions/Filtered.antt =====
-- Which transactions of a block `filter_starknet_into_eth_txs` of crates/core/src/client/mod.rs keeps.
use mathlib.Core.Path.{fun_ext}
use kakarot_rpc_adapter.Prelude.{
  ℕ, ◌≡◌, refl, ap, ◌∙◌, List, [], ◌∷◌, map, filter_map, Option, none, inl, inr, ◌⊎◌,
}
use kakarot_rpc_adapter.Types.{H256, U256}
use kakarot_rpc_adapter.Errors.{EthApiError}
use kakarot_rpc_adapter.Outcome.{Outcome, ok, err, panic}
use kakarot_rpc_adapter.Crates.{Crates}
use kakarot_rpc_adapter.Starknet
use kakarot_rpc_adapter.Eth
use kakarot_rpc_adapter.Eth.{BlockTransactions}
use kakarot_rpc_adapter.Async
use kakarot_rpc_adapter.Async.{Async, pure}
use kakarot_rpc_adapter.Async.Run.{Script, run, run_after, run->>=, run-attempt}
use kakarot_rpc_adapter.Async.Join.{join_all}
use kakarot_rpc_adapter.Models.Transaction.{from_transaction, to_eth_transaction}
use kakarot_rpc_adapter.Client.Contracts.{KakarotClient}
use kakarot_rpc_adapter.Client.Transactions.{
  transaction_client, filter_starknet_into_eth_txs, ok_value,
}

-- What the last step makes of the results.
abbrev pub collected : List (EthApiError ⊎ Eth.Transaction) → Async EthApiError BlockTransactions
collected results = pure (BlockTransactions.full (filter_map ok_value results))

-- One more transaction in front.
abbrev pub with_transaction : Eth.Transaction → BlockTransactions → BlockTransactions
with_transaction t (BlockTransactions.full ts) = BlockTransactions.full (t ∷ ts)
with_transaction t (BlockTransactions.hashes hs) = BlockTransactions.hashes hs
with_transaction t BlockTransactions.uncle = BlockTransactions.uncle

abbrev pub mapped : {E A B : Type 0} → (A → B) → Outcome E A × ℕ → Outcome E B × ℕ
mapped f (ok a, n) = (ok (f a), n)
mapped f (err e, n) = (err e, n)
mapped f (panic, n) = (panic, n)

kept_result :
    (t : Eth.Transaction) (s : Script)
    (p : Outcome EthApiError (List (EthApiError ⊎ Eth.Transaction)) × ℕ)
    → run_after (run_after p (λ rs. pure (inr t ∷ rs)) s) collected s
      ≡ mapped (with_transaction t) (run_after p collected s)
unfolding run filter_map ok_value
kept_result t s (ok rs, n) = refl
kept_result t s (err e, n) = refl
kept_result t s (panic, n) = refl

dropped_result :
    (e : EthApiError) (s : Script)
    (p : Outcome EthApiError (List (EthApiError ⊎ Eth.Transaction)) × ℕ)
    → run_after (run_after p (λ rs. pure (inl e ∷ rs)) s) collected s ≡ run_after p collected s
unfolding run filter_map ok_value
dropped_result e s (ok rs, n) = refl
dropped_result e s (err x, n) = refl
dropped_result e s (panic, n) = refl

-- What a transaction makes of the rest of the list, from where its conversion ended.
abbrev pub kept_by :
    Outcome EthApiError Eth.Transaction × ℕ
    → (ℕ → Outcome EthApiError BlockTransactions × ℕ)
    → Outcome EthApiError BlockTransactions × ℕ
kept_by (ok t, m) rest = mapped (with_transaction t) (rest m)
kept_by (err x, m) rest = rest m
kept_by (panic, m) rest = (panic, m)

module _ ⦃crates : Crates⦄ (client : KakarotClient) (block_hash : Option H256)
    (block_number : Option U256) where
  -- The conversion of one transaction.
  abbrev pub conversion : Starknet.Transaction → Async EthApiError Eth.Transaction
  conversion tx =
      to_eth_transaction (from_transaction tx) (transaction_client client) block_hash block_number
        none

module _ ⦃crates : Crates⦄ (client : KakarotClient) (block_hash : Option H256)
    (block_number : Option U256) (s : Script) where
  filter_starknet_into_eth_txs-kept :
      (tx : Starknet.Transaction) (txs : List Starknet.Transaction) (t : Eth.Transaction) (n m : ℕ)
      → run (conversion client block_hash block_number tx) s n ≡ (ok t, m)
      → run (filter_starknet_into_eth_txs client (tx ∷ txs) block_hash block_number) s n
        ≡ mapped
            (with_transaction t)
            (run (filter_starknet_into_eth_txs client txs block_hash block_number) s m)
  unfolding filter_starknet_into_eth_txs
  filter_starknet_into_eth_txs-kept tx txs t n m e =
      rw (run->>=, run->>= (join_all (map (conversion client block_hash block_number) txs)))
        (unfold join_all in
          rw (run->>=, run-attempt, e)
            (rw (run->>= (join_all (map (conversion client block_hash block_number) txs))) (
              kept_result t s
                (run (join_all (map (conversion client block_hash block_number) txs)) s m))))

  filter_starknet_into_eth_txs-dropped :
      (tx : Starknet.Transaction) (txs : List Starknet.Transaction) (x : EthApiError) (n m : ℕ)
      → run (conversion client block_hash block_number tx) s n ≡ (err x, m)
      → run (filter_starknet_into_eth_txs client (tx ∷ txs) block_hash block_number) s n
        ≡ run (filter_starknet_into_eth_txs client txs block_hash block_number) s m
  unfolding filter_starknet_into_eth_txs
  filter_starknet_into_eth_txs-dropped tx txs x n m e =
      rw (run->>=, run->>= (join_all (map (conversion client block_hash block_number) txs)))
        (unfold join_all in
          rw (run->>=, run-attempt, e)
            (rw (run->>= (join_all (map (conversion client block_hash block_number) txs))) (
              dropped_result x s
                (run (join_all (map (conversion client block_hash block_number) txs)) s m))))

  filter_starknet_into_eth_txs-panicked :
      (tx : Starknet.Transaction) (txs : List Starknet.Transaction) (n m : ℕ)
      → run (conversion client block_hash block_number tx) s n ≡ (panic, m)
      → run (filter_starknet_into_eth_txs client (tx ∷ txs) block_hash block_number) s n
        ≡ (panic, m)
  unfolding filter_starknet_into_eth_txs
  filter_starknet_into_eth_txs-panicked tx txs n m e =
      rw run->>= (unfold join_all in rw (run->>=, run-attempt, e) (unfold run in refl))

  filter_starknet_into_eth_txs-cons :
      (tx : Starknet.Transaction) (txs : List Starknet.Transaction) (n : ℕ)
      (first : Outcome EthApiError Eth.Transaction × ℕ)
      → run (conversion client block_hash block_number tx) s n ≡ first
      → run (filter_starknet_into_eth_txs client (tx ∷ txs) block_hash block_number) s n
        ≡ kept_by first (run (filter_starknet_into_eth_txs client txs block_hash block_number) s)
  filter_starknet_into_eth_txs-cons tx txs n (ok t, m) e =
      filter_starknet_into_eth_txs-kept tx txs t n m e
  filter_starknet_into_eth_txs-cons tx txs n (err x, m) e =
      filter_starknet_into_eth_txs-dropped tx txs x n m e
  filter_starknet_into_eth_txs-cons tx txs n (panic, m) e =
      filter_starknet_into_eth_txs-panicked tx txs n m e

  -- The list read from the front, one conversion after the other.
  abbrev pub in_order : List Starknet.Transaction → ℕ → Outcome EthApiError BlockTransactions × ℕ
  in_order [] n = (ok (BlockTransactions.full []), n)
  in_order (tx ∷ txs) n =
      kept_by (run (conversion client block_hash block_number tx) s n) (in_order txs)

  -- Whatever the node replies, the transactions of a block are what the list gives that is read
  -- from the front, one conversion after the other: a transaction that converts is kept, one
  -- whose conversion is an error is left out, and a panic of one is a panic of the whole.
  pub filter_starknet_into_eth_txs_lem :
      (txs : List Starknet.Transaction) (n : ℕ)
      → run (filter_starknet_into_eth_txs client txs block_hash block_number) s n ≡ in_order txs n
  filter_starknet_into_eth_txs_lem [] n =
      unfold filter_starknet_into_eth_txs join_all Async.◌>>=◌ run filter_map in refl
  filter_starknet_into_eth_txs_lem (tx ∷ txs) n =
      filter_starknet_into_eth_txs-cons tx txs n _ refl
      ∙ ap (kept_by (run (conversion client block_hash block_number tx) s n))
          (fun_ext (filter_starknet_into_eth_txs_lem txs))
