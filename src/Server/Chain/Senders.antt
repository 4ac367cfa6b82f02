-- ===== src/Server/Chain/Senders.antt =====
-- What the client learns of the sender of a transaction, over a node that answers alike:
-- crates/core/src/models/transaction.rs and crates/core/src/client/mod.rs.
use kakarot_rpc_adapter.Prelude.{◌≡◌, refl, Option, none, some, ◌==◌, drop, take_all}
use kakarot_rpc_adapter.Types.{FieldElement}
use kakarot_rpc_adapter.Errors.{contract_error}
use kakarot_rpc_adapter.Outcome.{ok, map_ok, map_ok_lem, ok_or}
use kakarot_rpc_adapter.Crates.{Crates}
use kakarot_rpc_adapter.Async.{◌>>=◌}
use kakarot_rpc_adapter.Async.Interleaving.{Node, final}
use kakarot_rpc_adapter.Async.Final.{of_reply, final->>=, final-ask}
use kakarot_rpc_adapter.Models.Felt.{from_felt}
use kakarot_rpc_adapter.Models.Felt.RoundTrip.{length-tail}
use kakarot_rpc_adapter.Models.Transaction.{
  StarknetTransaction, sender_address, is_kakarot_tx, latest_block,
}
use kakarot_rpc_adapter.Models.Transaction.Kakarot.{class_request}
use kakarot_rpc_adapter.Client.Contracts.{KakarotClient, get_evm_address}
use kakarot_rpc_adapter.Client.Contracts.Answers.{evm_address_request}
use kakarot_rpc_adapter.Client.Transactions.{transaction_client}
use kakarot_rpc_adapter.Server.Chain.Shown.{missing}
use kakarot_rpc_adapter.Server.Chain.Told.{answered}

module _ ⦃crates : Crates⦄ (client : KakarotClient) (node : Node) where
  open crates use {felt_to_bytes_be, felt_to_bytes_be-IsArray}

  pub final-is_kakarot_tx :
      (tx : StarknetTransaction) (sender : FieldElement)
      → sender_address tx ≡ ok (from_felt sender)
      → final node (is_kakarot_tx tx (transaction_client client))
        ≡ map_ok
            (λ c. c == client.proxy_account_class_hash)
            (of_reply (node (class_request sender)))
  unfolding is_kakarot_tx final
  final-is_kakarot_tx tx sender e =
      rw (final->>=, e)
        (rw (final->>=, final-ask)
          (map_ok_lem (λ c. c == client.proxy_account_class_hash)
            (of_reply (node (class_request sender)))))

  pub final-get_evm_address :
      (sender : FieldElement) (address : Option FieldElement)
      → node (evm_address_request client latest_block sender) ≡ answered address
      → final node (get_evm_address client sender latest_block)
        ≡ map_ok (λ a. drop 12 (felt_to_bytes_be a)) (ok_or (missing contract_error) address)
  unfolding get_evm_address
  final-get_evm_address sender none e = rw (final->>=, final-ask, e)
  final-get_evm_address sender (some address) e =
      rw (final->>=, final-ask, e)
        (unfold ◌>>=◌ final in
          rw ((felt_to_bytes_be-IsArray address).0, take_all 20 _ (length-tail address)) refl)
