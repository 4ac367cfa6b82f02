-- ===== src/Server/Chain/Logs.antt =====
-- The addresses of contracts and the logs of events that the client gives, over a node that holds a
-- chain, are the ones that the chain shows: crates/core/src/client/mod.rs.
use kakarot_rpc_adapter.Prelude.{
  ℕ, suc, ◌≡◌, refl, sym, ap, ◌∙◌, List, [], ◌∷◌, map, Option, none, some,
}
use kakarot_rpc_adapter.Types.{FieldElement}
use kakarot_rpc_adapter.Errors.{EthApiError}
use kakarot_rpc_adapter.Outcome.{ok}
use kakarot_rpc_adapter.Crates.{Crates}
use kakarot_rpc_adapter.Starknet.{Event}
use kakarot_rpc_adapter.Async.Interleaving.{Node, final, run-steady, steady}
use kakarot_rpc_adapter.Models.Felt.{from_felt}
use kakarot_rpc_adapter.Models.Felt.RoundTrip.{to_h160_lem}
use kakarot_rpc_adapter.Models.Transaction.{latest_block}
use kakarot_rpc_adapter.Client.Contracts.{KakarotClient, safe_get_evm_address}
use kakarot_rpc_adapter.Client.Contracts.Answers.{
  evm_address_request, evm_address_source, safe_get_evm_address_lem,
}
use kakarot_rpc_adapter.Client.Receipts.{logs_of_events}
use kakarot_rpc_adapter.Client.Receipts.Logs.{logs_from, logs_of_events_lem}
use kakarot_rpc_adapter.Server.Chain.{Chain}
use kakarot_rpc_adapter.Server.Chain.Queries.{or_self, address_of, show_log}
use kakarot_rpc_adapter.Server.Chain.Told.{Represents, answered}

answered_source :
    (o : Option FieldElement) (contract : FieldElement)
    → evm_address_source (answered o) contract ≡ or_self contract o
answered_source none contract = refl
answered_source (some address) contract = refl

module _ ⦃crates : Crates⦄ (client : KakarotClient) (node : Node) (chain : Chain)
    (represents : Represents client node chain) where
  open crates use {felt_to_bytes_be}

  source_shown :
      (contract : FieldElement)
      → evm_address_source (node (evm_address_request client latest_block contract)) contract
        ≡ or_self contract (chain.evm_address contract)
  source_shown contract =
      rw (represents.address_told contract) (answered_source (chain.evm_address contract) contract)

  pub final-safe_get_evm_address :
      (contract : FieldElement)
      → final node (safe_get_evm_address client contract latest_block)
        ≡ ok (address_of client chain contract)
  final-safe_get_evm_address contract =
      sym (run-steady node _ 0)
      ∙ ap (λ p. p.0) (safe_get_evm_address_lem client latest_block contract (steady node) 0)
      ∙ rw (source_shown contract) (
          to_h160_lem {E = EthApiError} (from_felt (or_self contract (chain.evm_address contract))))

  logs_shown :
      (events : List Event) (n : ℕ)
      → logs_from client (steady node) n events ≡ map (show_log client chain) events
  logs_shown [] n = refl
  logs_shown (event ∷ events) n =
      rw (source_shown event.from_address)
        (ap (λ logs. show_log client chain event ∷ logs) (logs_shown events (suc n)))

  pub final-logs_of_events :
      (events : List Event)
      → final node (logs_of_events client events) ≡ ok (map (show_log client chain) events)
  final-logs_of_events events =
      sym (run-steady node _ 0)
      ∙ ap (λ p. p.0) (logs_of_events_lem client (steady node) events 0)
      ∙ ap ok (logs_shown events 0)
