-- ===== src/Client/Receipts/Topics.antt =====
-- The topics that `transaction_receipt` of crates/core/src/client/mod.rs reads from the keys.
use kakarot_rpc_adapter.Prelude.{
  ◌+◌, ◌*◌, ◌/◌, ◌%◌, ◌^◌, ◌<◌, ◌≡◌, refl, ap, List, [], ◌∷◌, map, arith,
}
use kakarot_rpc_adapter.Prelude.Bytes.{be_bytes}
use kakarot_rpc_adapter.Types.{prime, U256}
use kakarot_rpc_adapter.Outcome.{ok}
use kakarot_rpc_adapter.Crates.{Crates}
use kakarot_rpc_adapter.Models.Event.Logs.{topic_keys, AllU256}
use kakarot_rpc_adapter.Client.Receipts.{key_pairs, topics_of_keys}

joined_mod : (t : U256) → (t % 2 ^ 128 + t / 2 ^ 128 * 2 ^ 128 % prime) % prime ≡ t % prime
joined_mod t = omega arith

module _ ⦃crates : Crates⦄ where
  open crates use {
    felt_add, felt_mul, felt_add_lem, felt_mul_lem, felt_to_bytes_be, felt_to_bytes_be_lem,
    felt_from_hex_be_two_pow_128,
  }

  pair_lem :
      (t : U256)
      → t < 2 ^ 256
      → felt_add (t % 2 ^ 128) (felt_mul (t / 2 ^ 128) (2 ^ 128)) ≡ t % prime
  pair_lem t h =
      rw
        (
          felt_mul_lem (t / 2 ^ 128) (2 ^ 128) (omega arith) (omega arith),
          felt_add_lem (t % 2 ^ 128) (t / 2 ^ 128 * 2 ^ 128 % prime) (omega arith) (omega arith),
        )
        (joined_mod t)

  key_pairs_lem :
      (topics : List U256)
      → AllU256 topics
      → map felt_to_bytes_be (key_pairs (2 ^ 128) (topic_keys topics))
        ≡ map (λ t. be_bytes 32 (t % prime)) topics
  unfolding key_pairs
  key_pairs_lem [] h = refl
  key_pairs_lem (t ∷ topics) (ht, h) =
      rw (pair_lem t ht, felt_to_bytes_be_lem (t % prime) (omega arith), key_pairs_lem topics h)

  -- The topics that a receipt reads from keys that hold topics of 256 bits in halves are the 32
  -- bytes of those topics modulo the prime of the field, so a topic at the prime or above it
  -- comes out changed.
  pub topics_of_keys-topic_keys :
      (topics : List U256)
      → AllU256 topics
      → topics_of_keys (topic_keys topics) ≡ ok (map (λ t. be_bytes 32 (t % prime)) topics)
  unfolding topics_of_keys
  topics_of_keys-topic_keys [] h = refl
  topics_of_keys-topic_keys (t ∷ topics) h =
      rw (felt_from_hex_be_two_pow_128) (ap ok (key_pairs_lem (t ∷ topics) h))
