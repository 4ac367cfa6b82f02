-- ===== src/Client/Transactions/Schedule.antt =====
-- How long the conversions of a block's transactions take, and that they get to their end, when they
-- run concurrently: `filter_starknet_into_eth_txs` of crates/core/src/client/mod.rs.
use kakarot_rpc_adapter.Prelude.{◌*◌, ◌≤◌, List, map, length, Option, not, arith}
use kakarot_rpc_adapter.Types.{FieldElement, H256, U256}
use kakarot_rpc_adapter.Errors.{EthApiError}
use kakarot_rpc_adapter.Crates.{Crates}
use kakarot_rpc_adapter.Starknet
use kakarot_rpc_adapter.Eth
use kakarot_rpc_adapter.Eth.{BlockTransactions}
use kakarot_rpc_adapter.Async.{Async}
use kakarot_rpc_adapter.Async.Bounded.{AtMost, AtMost-ret, AtMost-if, AtMost-bind, AtMost-ask}
use kakarot_rpc_adapter.Async.Interleaving.{Node, Steps}
use kakarot_rpc_adapter.Async.Interleaving.Length.{steps_taken, Steps-total, total-AtMost}
use kakarot_rpc_adapter.Models.Transaction.{StarknetTransaction, is_kakarot_tx, to_eth_transaction}
use kakarot_rpc_adapter.Client.Contracts.{KakarotClient, get_evm_address}
use kakarot_rpc_adapter.Client.Transactions.{transaction_client}
use kakarot_rpc_adapter.Client.Transactions.Filtered.{conversion}

module _ ⦃crates : Crates⦄ (client : KakarotClient) where
  get_evm_address-AtMost :
      (address : FieldElement) (block_id : Starknet.BlockId)
      → AtMost 1 (get_evm_address client address block_id)
  unfolding get_evm_address
  get_evm_address-AtMost address block_id =
      AtMost-bind 1 0 _ (search AtMost-ask)
        λ felts. AtMost-bind 0 0 _ (AtMost-ret 0 _) λ felt. AtMost-ret 0 _

  is_kakarot_tx-AtMost :
      (tx : StarknetTransaction) → AtMost 1 (is_kakarot_tx tx (transaction_client client))
  unfolding is_kakarot_tx
  is_kakarot_tx-AtMost tx =
      AtMost-bind 0 1 _ (AtMost-ret 0 _)
        λ sender_address. AtMost-bind 1 0 _ (search AtMost-ask) λ class_hash. AtMost-ret 0 _

  -- A conversion asks for the class of the sender and for its EVM address.
  to_eth_transaction-AtMost :
      (tx : StarknetTransaction) (hash : Option H256) (number index : Option U256)
      → AtMost 2 (to_eth_transaction tx (transaction_client client) hash number index)
  unfolding to_eth_transaction
  to_eth_transaction-AtMost tx hash number index =
      AtMost-bind 1 1 _ (is_kakarot_tx-AtMost tx) λ kakarot.
        AtMost-if 1 (not kakarot) _ _ (AtMost-ret 1 _) (
          AtMost-bind 0 1 _ (AtMost-ret 0 _) λ sender_address.
            AtMost-bind 0 1 _ (AtMost-ret 0 _) λ hash_felt. AtMost-bind 0 1 _ (AtMost-ret 0 _) λ h.
              AtMost-bind 0 1 _ (AtMost-ret 0 _) λ nonce_felt.
                AtMost-bind 1 0 _ (get_evm_address-AtMost _ _) λ from.
                  AtMost-bind 0 0 _ (AtMost-ret 0 _)
                    λ calldata. AtMost-bind 0 0 _ (AtMost-ret 0 _) λ signature. AtMost-ret 0 _)

module _ ⦃crates : Crates⦄ (client : KakarotClient) (block_hash : Option H256)
    (block_number : Option U256) (answer : Node) (txs : List Starknet.Transaction)
    {ms : List (Async EthApiError Eth.Transaction)}
    (steps : Steps answer (map (conversion client block_hash block_number) txs) ms) where
  -- While the node answers alike whenever it is asked, every interleaving of the conversions of
  -- a block takes at most two steps for each of its transactions.
  pub steps_taken-conversion : steps_taken answer steps ≤ length txs * 2
  steps_taken-conversion = omega (
    arith,
    Steps-total answer steps,
    total-AtMost answer 2 (conversion client block_hash block_number)
        (λ tx. to_eth_transaction-AtMost client _ block_hash block_number _) txs,
  )
