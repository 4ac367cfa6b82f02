-- ===== src/Server/Chain/Blocks.antt =====
-- The blocks of the client, over a node that holds a chain, are the ones that the chain shows:
-- crates/core/src/models/block.rs and crates/core/src/client/mod.rs.
use kakarot_rpc_adapter.Prelude.{
  ◌≡◌, refl, sym, ap, ◌∙◌, List, [], ◌∷◌, map, filter_map, Option, none, some, ◌⊎◌, inl, inr, All,
}
use kakarot_rpc_adapter.Types.{FieldElement, U64}
use kakarot_rpc_adapter.Errors.{EthApiError}
use kakarot_rpc_adapter.Outcome
use kakarot_rpc_adapter.Outcome.{Outcome, ok, err, panic, map_ok, map_ok_lem, ok_or, traverse}
use kakarot_rpc_adapter.Crates.{Crates}
use kakarot_rpc_adapter.Starknet
use kakarot_rpc_adapter.Eth
use kakarot_rpc_adapter.Eth.{BlockTransactions}
use kakarot_rpc_adapter.Async.{Async, Request, caught}
use kakarot_rpc_adapter.Async
use kakarot_rpc_adapter.Async.Interleaving.{Node, final, run-steady, Steps-ended, steady}
use kakarot_rpc_adapter.Async.Final.{final->>=}
use kakarot_rpc_adapter.Models.Felt.RoundTrip.{to_h160_lem}
use kakarot_rpc_adapter.Models.Block.{
  block_with_txs_to_eth_block, block_with_tx_hashes_to_eth_block,
}
use kakarot_rpc_adapter.Models.Block.Headers.{
  h256_of_felt_lem, block_with_tx_hashes_to_eth_block_lem,
}
use kakarot_rpc_adapter.Models.Block.WithTxs.{txs_getter, txs_getter_not_pending}
use kakarot_rpc_adapter.Client.Helpers.Conversions.{starknet_address_to_ethereum_address_lem}
use kakarot_rpc_adapter.Client.Contracts.{KakarotClient}
use kakarot_rpc_adapter.Client.Transactions.{ok_value, filter_starknet_into_eth_txs}
use kakarot_rpc_adapter.Client.Transactions.Filtered.{conversion}
use kakarot_rpc_adapter.Client.Transactions.AnyOrder.{kept, filter_starknet_into_eth_txs-Steps}
use kakarot_rpc_adapter.Client.Provider.{block_client}
use kakarot_rpc_adapter.Server.Chain.{Block, Chain, block_with_txs, block_with_tx_hashes}
use kakarot_rpc_adapter.Server.Chain.Shown.{
  values, hash_at, number_at, show_transaction, listed, show_header,
}
use kakarot_rpc_adapter.Server.Chain.Told.{Represents, IsTransaction}
use kakarot_rpc_adapter.Server.Chain.Transactions.{final-show_transaction}

module _ {E A : Type 0} where
  values-next :
      (a : A) (p : Outcome E (List (E ⊎ A)))
      → map_ok (filter_map ok_value) (Outcome.◌>>=◌ p (λ rs. ok (inr a ∷ rs)))
        ≡ map_ok (λ l. a ∷ l) (map_ok (filter_map ok_value) p)
  unfolding filter_map ok_value
  values-next a (ok rs) = refl
  values-next a (err e) = refl
  values-next a panic = refl

  values-skip :
      (e : E) (p : Outcome E (List (E ⊎ A)))
      → map_ok (filter_map ok_value) (Outcome.◌>>=◌ p (λ rs. ok (inl e ∷ rs)))
        ≡ map_ok (filter_map (ok_value {E = E} {A = A})) p
  unfolding filter_map ok_value
  values-skip e (ok rs) = refl
  values-skip e (err x) = refl
  values-skip e panic = refl

  -- `join_all` and the filter keep the values.
  values_lem :
      (os : List (Outcome E A)) → map_ok (filter_map ok_value) (traverse caught os) ≡ values os
  unfolding traverse
  values_lem [] = (unfold filter_map in refl)
  values_lem (ok a ∷ os) =
      values-next a (traverse caught os) ∙ ap (map_ok (λ l. a ∷ l)) (values_lem os)
  values_lem (err e ∷ os) = values-skip e (traverse caught os) ∙ values_lem os
  values_lem (panic ∷ os) = refl

kept-values :
    (os : List (Outcome EthApiError Eth.Transaction))
    → kept os ≡ map_ok BlockTransactions.full (values os)
kept-values os =
    by_results (traverse caught os) ∙ ap (map_ok BlockTransactions.full) (values_lem os)
  where
    by_results :
        (p : Outcome EthApiError (List (EthApiError ⊎ Eth.Transaction)))
        → map_ok (λ rs. BlockTransactions.full (filter_map ok_value rs)) p
          ≡ map_ok BlockTransactions.full (map_ok (filter_map ok_value) p)
    by_results (ok rs) = refl
    by_results (err e) = refl
    by_results panic = refl

module _ ⦃crates : Crates⦄ (client : KakarotClient) (node : Node) (chain : Chain)
    (represents : Represents client node chain) where
  open crates use {felt_to_bytes_be, felt_from_uint_lem}

  conversions_shown :
      (place : Option (FieldElement × U64)) (ts : List (FieldElement × Starknet.Transaction))
      → All (λ t. IsTransaction t.0 t.1) ts
      → map
          (final node)
          (map (conversion client (hash_at place) (number_at place)) (map (λ t. t.1) ts))
        ≡ map (λ t. show_transaction client chain place none t.1) ts
  conversions_shown place [] h = refl
  conversions_shown place ((hash, tx) ∷ ts) (h, hs) =
      rw (final-show_transaction client node chain represents place none hash tx h) (
        ap (λ os. show_transaction client chain place none tx ∷ os) (conversions_shown place ts hs))

  -- The filter gives the transactions of Kakarot in a block.
  pub final-listed :
      (b : Block)
      → All (λ t. IsTransaction t.0 t.1) b.transactions
      → final node (
          filter_starknet_into_eth_txs client
            (map (λ t. t.1) b.transactions)
            (hash_at b.place)
            (number_at b.place))
        ≡ map_ok BlockTransactions.full (listed client chain b)
  final-listed b h =
      sym (
        run-steady node
          (filter_starknet_into_eth_txs client (map (λ t. t.1) b.transactions) (hash_at b.place)
            (number_at b.place))
          0)
      ∙ filter_starknet_into_eth_txs-Steps client (hash_at b.place) (number_at b.place) node
          (map (λ t. t.1) b.transactions) _ 0
          (Steps-ended node (
            map (conversion client (hash_at b.place) (number_at b.place))
              (map (λ t. t.1) b.transactions)))
      ∙ kept-values _
      ∙ ap (λ os. map_ok BlockTransactions.full (values os))
          (conversions_shown b.place b.transactions h)

  pub final-with_txs :
      (place : Option (FieldElement × U64)) (b : Block) (o : Outcome EthApiError BlockTransactions)
      → final node (
          filter_starknet_into_eth_txs client
            (map (λ t. t.1) b.transactions)
            (hash_at place)
            (number_at place))
        ≡ o
      → final node (block_with_txs_to_eth_block (block_with_txs place b) (block_client client))
        ≡ map_ok (show_header client chain place b) o
  unfolding block_with_txs_to_eth_block txs_getter txs_getter_not_pending
  final-with_txs none b o e =
      rw
        (
          h256_of_felt_lem {E = EthApiError} b.parent_hash,
          starknet_address_to_ethereum_address_lem {E = EthApiError} b.sequencer_address,
          to_h160_lem,
        )
        (unfold Async.◌>>=◌ in
          rw
            (
              final->>= node
                  (filter_starknet_into_eth_txs client (map (λ t. t.1) b.transactions) none none),
              e,
            )
            (unfold final in map_ok_lem (show_header client chain none b) o))
  final-with_txs (some (hash, number)) b o e =
      rw
        (
          h256_of_felt_lem {E = EthApiError} b.parent_hash,
          starknet_address_to_ethereum_address_lem {E = EthApiError} b.sequencer_address,
          to_h160_lem,
        )
        (unfold Async.◌>>=◌ in
          rw
            (
              h256_of_felt_lem {E = EthApiError} hash,
              final->>= node (
                  filter_starknet_into_eth_txs client (map (λ t. t.1) b.transactions)
                    (some (felt_to_bytes_be hash)) (some number)),
              e,
            )
            (unfold final in map_ok_lem (show_header client chain (some (hash, number)) b) o))

  pub final-with_tx_hashes :
      (place : Option (FieldElement × U64)) (b : Block)
      → final node
          (block_with_tx_hashes_to_eth_block (block_with_tx_hashes place b) (block_client client))
        ≡ ok (
            show_header client chain place b
              (BlockTransactions.hashes (map felt_to_bytes_be (map (λ t. t.0) b.transactions))))
  final-with_tx_hashes none b =
      sym (run-steady node _ 0)
      ∙ ap (λ p. p.0)
          (block_with_tx_hashes_to_eth_block_lem (block_with_tx_hashes none b) (block_client client)
            (steady node) 0)
  final-with_tx_hashes (some (hash, number)) b =
      sym (run-steady node _ 0)
      ∙ ap (λ p. p.0)
          (block_with_tx_hashes_to_eth_block_lem (block_with_tx_hashes (some (hash, number)) b)
            (block_client client) (steady node) 0)
