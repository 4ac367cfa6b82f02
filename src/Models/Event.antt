-- ===== src/Models/Event.antt =====
-- crates/core/src/models/event.rs: a Starknet event of Kakarot as an Ethereum log.
pub mod Topics
pub mod Logs
use kakarot_rpc_adapter.Prelude.{
  ℕ, ◌+◌, ◌-◌, ◌*◌, ◌^◌, List, [], ◌∷◌, ◌++◌, Option, none, some, false, not, ltb, ◌==◌,
  if◌then◌else◌, length, replicate,
}
use kakarot_rpc_adapter.Types.{FieldElement, H256, U256}
use kakarot_rpc_adapter.Errors.{EthApiError, other_error}
use kakarot_rpc_adapter.Outcome.{Outcome, ok, err, panic, ok_or, unwrap, traverse, ◌>>=◌}
use kakarot_rpc_adapter.Crates.{Crates}
use kakarot_rpc_adapter.Starknet.{Event}
use kakarot_rpc_adapter.Eth.{Log}
use kakarot_rpc_adapter.Models.Felt.{from_felt, to_h160}
use kakarot_rpc_adapter.Client.Helpers.{vec_felt_to_bytes}
use kakarot_rpc_adapter.Client.Api.{TransactionClient}

-- `split_last`: the last item, and those before it.
unfoldable pub split_last {ℓ} : {A : Type ℓ} → List A → Option (A × List A)
split_last [] = none
split_last (x ∷ xs) = elim (split_last xs) [
  | none ↦ some (x, [])
  | some (last, front) ↦ some (last, x ∷ front)
]

-- `chunks(2)`: an item and, but perhaps for the last chunk, the one that follows it.
unfoldable pub chunks2 {ℓ} : {A : Type ℓ} → List A → List (A × Option A)
chunks2 [] = []
chunks2 (x ∷ []) = (x, none) ∷ []
chunks2 (x ∷ y ∷ xs) = (x, some y) ∷ chunks2 xs

module _ ⦃crates : Crates⦄ where
  open crates use {felt_to_bytes_be, from_slice, biguint_from_bytes_be, biguint_to_bytes_be}

  -- `32 - bytes.len()` is of type usize: it panics where it would be negative.
  unfoldable pub pad_to_h256 : List ℕ → Outcome EthApiError H256
  pad_to_h256 bytes =
      if ltb 32 (length bytes)
      then panic
      else unwrap (from_slice 32 (replicate (32 - length bytes) 0 ++ bytes))

  unfoldable pub topic_of_chunk : FieldElement × Option FieldElement → Outcome EthApiError H256
  topic_of_chunk (low, none) = err (other_error "Not a convertible event: High value doesn't exist")
  topic_of_chunk (low, some high) = pad_to_h256 (
      biguint_to_bytes_be (
        biguint_from_bytes_be (felt_to_bytes_be low)
        + 2 ^ 128 * biguint_from_bytes_be (felt_to_bytes_be high)))

  unfoldable pub to_eth_log :
      Event
      → TransactionClient
      → Option H256
      → Option U256
      → Option H256
      → Option U256
      → Option U256
      → Outcome EthApiError Log
  to_eth_log event client block_hash block_number transaction_hash log_index transaction_index =
      if not (event.from_address == client.kakarot_address)
      then err (other_error "Kakarot Filter: Event is not part of Kakarot")
      else do
        (evm_contract_address, keys) ←
            ok_or (other_error "Kakarot Filter: Event is not an Kakarot evm event")
              (split_last event.keys)
        address ← to_h160 (from_felt evm_contract_address)
        topics ← traverse topic_of_chunk (chunks2 keys)
        ok (record {
          address = address;
          topics = topics;
          log_data = vec_felt_to_bytes event.event_data;
          block_hash = block_hash;
          block_number = block_number;
          transaction_hash = transaction_hash;
          log_index = log_index;
          transaction_index = transaction_index;
          removed = false;
        })
