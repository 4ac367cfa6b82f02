-- ===== src/Client/Receipts/Logs.antt =====
-- The logs of a receipt, in `transaction_receipt` of crates/core/src/client/mod.rs.
use kakarot_rpc_adapter.Prelude.{
  ℕ, suc, ◌+◌, ◌^◌, ◌≡◌, refl, ap, List, [], ◌∷◌, map, none, false, drop, length, arith,
}
use kakarot_rpc_adapter.Types.{FieldElement}
use kakarot_rpc_adapter.Outcome.{ok}
use kakarot_rpc_adapter.Crates.{Crates}
use kakarot_rpc_adapter.Starknet.{Event}
use kakarot_rpc_adapter.Eth.{Log}
use kakarot_rpc_adapter.Async.{◌>>=◌}
use kakarot_rpc_adapter.Async.Run.{Script, run, run->>=}
use kakarot_rpc_adapter.Models.Transaction.{latest_block}
use kakarot_rpc_adapter.Models.Felt.RoundTrip.{to_h160_lem, length-tail}
use kakarot_rpc_adapter.Client.Helpers.{vec_felt_to_bytes}
use kakarot_rpc_adapter.Client.Contracts.{KakarotClient}
use kakarot_rpc_adapter.Client.Contracts.Answers.{
  evm_address_request, evm_address_source, safe_get_evm_address_lem,
}
use kakarot_rpc_adapter.Client.Receipts.{key_pairs, topics_of_keys, log_of_event, logs_of_events}

module _ ⦃crates : Crates⦄ where
  open crates use {felt_to_bytes_be, felt_from_hex_be_two_pow_128, from_slice_lem}

  topics_of_keys_lem :
      (keys : List FieldElement)
      → topics_of_keys keys ≡ ok (map felt_to_bytes_be (key_pairs (2 ^ 128) keys))
  unfolding topics_of_keys key_pairs
  topics_of_keys_lem [] = refl
  topics_of_keys_lem (key ∷ keys) = rw felt_from_hex_be_two_pow_128

module _ ⦃crates : Crates⦄ (client : KakarotClient) (s : Script) where
  open crates use {felt_to_bytes_be, from_slice_lem}

  -- The log of an event whose contract is asked for its address at the `n`-th request.
  abbrev pub log_at : ℕ → Event → Log
  log_at n event = record {
    address = drop 12 (
        felt_to_bytes_be (
          evm_address_source (s n (evm_address_request client latest_block event.from_address))
            event.from_address));
    topics = map felt_to_bytes_be (key_pairs (2 ^ 128) event.keys);
    log_data = vec_felt_to_bytes event.event_data;
    block_hash = none;
    block_number = none;
    transaction_hash = none;
    transaction_index = none;
    log_index = none;
    removed = false;
  }

  abbrev pub logs_from : ℕ → List Event → List Log
  logs_from n [] = []
  logs_from n (event ∷ events) = log_at n event ∷ logs_from (suc n) events

  run-log_of_event :
      (event : Event) (n : ℕ) → run (log_of_event client event) s n ≡ (ok (log_at n event), suc n)
  unfolding log_of_event
  run-log_of_event event n =
      rw
        (
          run->>=,
          safe_get_evm_address_lem client latest_block event.from_address s n,
          to_h160_lem,
          topics_of_keys_lem event.keys,
        )
        (unfold ◌>>=◌ in rw (from_slice_lem 20 _ (length-tail _)) (unfold run in refl))

  -- The logs of a receipt, whatever the node replies: one for each event, in their order, after
  -- one request for each, with the address that the contract answers or else the last 20 bytes
  -- of its Starknet address, the topics of the keys and the bytes of the data. None is left out,
  -- and none is an error.
  pub logs_of_events_lem :
      (events : List Event) (n : ℕ)
      → run (logs_of_events client events) s n ≡ (ok (logs_from n events), n + length events)
  unfolding logs_of_events
  logs_of_events_lem [] n = (unfold run in ap (λ (k : ℕ). (ok [], k)) (omega arith))
  logs_of_events_lem (event ∷ events) n =
      rw (run->>=, run-log_of_event event n)
        (rw (run->>=, logs_of_events_lem events (suc n))
          (unfold run in ap (λ (k : ℕ). (ok (logs_from n (event ∷ events)), k)) (omega arith)))
