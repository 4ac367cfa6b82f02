-- ===== src/Server/Chain/Requests.antt =====
-- What the client gives for a block id, over a node that holds a chain, is
-- what the chain shows: crates/core/src/client/mod.rs.
use kakarot_rpc_adapter.Prelude.{
  ◌≡◌, refl, ◌∙◌, List, map, Option, none, some, Bool, true, false, inl, inr, All, length, All-imp,
  Option-cases,
}
use kakarot_rpc_adapter.Types.{FieldElement, U64}
use kakarot_rpc_adapter.Errors.{EthApiError, block_not_found}
use kakarot_rpc_adapter.Outcome
use kakarot_rpc_adapter.Outcome.{Outcome, ok, err, panic, map_ok, map_ok_lem, ok_or, traverse}
use kakarot_rpc_adapter.Crates.{Crates}
use kakarot_rpc_adapter.Starknet
use kakarot_rpc_adapter.Eth
use kakarot_rpc_adapter.Eth.{BlockTransactions}
use kakarot_rpc_adapter.Async.{Request, pure}
use kakarot_rpc_adapter.Async
use kakarot_rpc_adapter.Async.Interleaving.{Node, final}
use kakarot_rpc_adapter.Async.Final.{final->>=, final-ask}
use kakarot_rpc_adapter.Models.Felt.RoundTrip.{to_h256_lem, to_u256-from_u64}
use kakarot_rpc_adapter.Client.Contracts.{KakarotClient}
use kakarot_rpc_adapter.Client.Transactions.{
  transactions_len, filter_starknet_into_eth_txs, block_transactions,
  get_transaction_count_by_block,
}
use kakarot_rpc_adapter.Client.Provider.{get_eth_block_from_starknet_block}
use kakarot_rpc_adapter.Server.Chain.{Block, Chain, find, block_with_txs}
use kakarot_rpc_adapter.Server.Chain.Shown.{
  missing, hash_at, number_at, listed, show_header, show_block,
}
use kakarot_rpc_adapter.Server.Chain.Told.{Represents, IsTransaction, IsPlace, IsBlock, IsChain}
use kakarot_rpc_adapter.Server.Chain.Found.{find-All}
use kakarot_rpc_adapter.Server.Chain.Blocks.{final-listed, final-with_txs, final-with_tx_hashes}

module _ ⦃crates : Crates⦄ (client : KakarotClient) (node : Node) (chain : Chain)
    (represents : Represents client node chain) where
  transactions_of : (b : Block) → IsBlock chain b → All (λ t. IsTransaction t.0 t.1) b.transactions
  transactions_of b h = All-imp b.transactions (λ t l. l.is_transaction) h.are_listed

  final-shown_block :
      (id : Starknet.BlockId) (full : Bool) (b : Block)
      → IsBlock chain b
      → find chain id ≡ some b
      → final node (get_eth_block_from_starknet_block client id full)
        ≡ show_block client chain full b
  unfolding get_eth_block_from_starknet_block
  final-shown_block id true b h e =
      rw (final->>=, final-ask, represents.txs_told id, e)
        (final-with_txs client node chain represents b.place b _
            (final-listed client node chain represents b (transactions_of b h))
          ∙ map_ok-map_ok (listed client chain b))
    where
      map_ok-map_ok :
          (o : Outcome EthApiError (List Eth.Transaction))
          → map_ok (show_header client chain b.place b) (map_ok BlockTransactions.full o)
            ≡ map_ok (λ ts. show_header client chain b.place b (BlockTransactions.full ts)) o
      map_ok-map_ok (ok ts) = refl
      map_ok-map_ok (err x) = refl
      map_ok-map_ok panic = refl
  final-shown_block id false b h e =
      rw (final->>=, final-ask, represents.hashes_told id, e)
        (final-with_tx_hashes client node chain represents b.place b)

  final-no_block :
      (id : Starknet.BlockId) (full : Bool)
      → find chain id ≡ none
      → final node (get_eth_block_from_starknet_block client id full)
        ≡ err (missing block_not_found)
  unfolding get_eth_block_from_starknet_block
  final-no_block id true e = rw (final->>=, final-ask, represents.txs_told id, e)
  final-no_block id false e = rw (final->>=, final-ask, represents.hashes_told id, e)

  -- The block that the client gives is the one that the chain shows, where there is one.
  pub final-show_block :
      (id : Starknet.BlockId) (full : Bool)
      → IsChain chain
      → final node (get_eth_block_from_starknet_block client id full)
        ≡ Outcome.◌>>=◌
            (ok_or (missing block_not_found) (find chain id))
            (show_block client chain full)
  final-show_block id full h = elim (Option-cases (find chain id)) [
    | inl absent ↦ rw absent (final-no_block id full absent)
    | inr (b, held) ↦
        rw held (final-shown_block id full b (find-All (IsBlock chain) chain id b h held) held)
  ]

  final-block_transactions :
      (place : Option (FieldElement × U64)) (b : Block) (o : Outcome EthApiError BlockTransactions)
      → IsPlace place
      → final node (
          filter_starknet_into_eth_txs client
            (map (λ t. t.1) b.transactions)
            (hash_at place)
            (number_at place))
        ≡ o
      → final node (block_transactions client (block_with_txs place b)) ≡ o
  unfolding block_transactions
  final-block_transactions none b o h e = e
  final-block_transactions (some (hash, number)) b o h e =
      rw (to_h256_lem {E = EthApiError}) (unfold Async.◌>>=◌ in rw (to_u256-from_u64 number h) e)

  final-counted :
      (id : Starknet.BlockId) (b : Block)
      → IsBlock chain b
      → find chain id ≡ some b
      → final node (get_transaction_count_by_block client id)
        ≡ map_ok length (listed client chain b)
  unfolding get_transaction_count_by_block final transactions_len
  final-counted id b h e =
      rw
        (
          final->>=,
          final-ask,
          represents.txs_told id,
          e,
          final->>= node (block_transactions client (block_with_txs b.place b)),
          final-block_transactions b.place b _ h.is_place
              (final-listed client node chain represents b (transactions_of b h)),
        )
        (by_listed (listed client chain b))
    where
      by_listed :
          (o : Outcome EthApiError (List Eth.Transaction))
          → Outcome.◌>>=◌
              (map_ok BlockTransactions.full o)
              (λ ts. final node (pure (transactions_len ts)))
            ≡ map_ok length o
      by_listed (ok ts) = refl
      by_listed (err x) = refl
      by_listed panic = refl

  -- The count that the client gives is the one of the transactions of Kakarot in the block.
  pub final-show_count :
      (id : Starknet.BlockId)
      → IsChain chain
      → final node (get_transaction_count_by_block client id)
        ≡ Outcome.◌>>=◌
            (ok_or (missing block_not_found) (find chain id))
            (λ b. map_ok length (listed client chain b))
  final-show_count id h = elim (Option-cases (find chain id)) [
    | inl absent ↦ rw absent (
        unfold get_transaction_count_by_block in
        rw (final->>=, final-ask, represents.txs_told id, absent) refl)
    | inr (b, held) ↦ rw held (final-counted id b (find-All (IsBlock chain) chain id b h held) held)
  ]
