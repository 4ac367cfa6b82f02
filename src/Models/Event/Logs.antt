-- ===== src/Models/Event/Logs.antt =====
-- From an event to its log: crates/core/src/models/event.rs.
use kakarot_rpc_adapter.Prelude.{
  ◌+◌, ◌*◌, ◌/◌, ◌%◌, ◌^◌, ◌<◌, ◌≡◌, refl, List, [], ◌∷◌, ◌++◌, map, Option, none, some, false,
  length, All, arith, lt→ltb, ◌≢◌, Option-cases, ◌==◌, Bool-cases, ==_iff, inl, inr,
}
use kakarot_rpc_adapter.Prelude.Bytes.{be_value, be_bytes}
use kakarot_rpc_adapter.Types.{FieldElement, IsArray, H160, H256, U256}
use kakarot_rpc_adapter.Outcome.{ok, ok_or, traverse, >>=-eq-ok, ok_or-eq-ok}
use kakarot_rpc_adapter.Crates.{Crates}
use kakarot_rpc_adapter.Starknet.{Event}
use kakarot_rpc_adapter.Eth.{Log}
use kakarot_rpc_adapter.Models.Felt.{from_felt, to_h160}
use kakarot_rpc_adapter.Models.Felt.RoundTrip.{to_h160_of_address}
use kakarot_rpc_adapter.Client.Helpers.{vec_felt_to_bytes}
use kakarot_rpc_adapter.Client.Api.{TransactionClient}
use kakarot_rpc_adapter.Models.Event.{split_last, chunks2, topic_of_chunk, to_eth_log}
use kakarot_rpc_adapter.Models.Event.Topics.{topic_of_chunk_lem}

-- The keys that carry the topics, low half first.
abbrev pub topic_keys : List U256 → List FieldElement
topic_keys [] = []
topic_keys (n ∷ ns) = (n % 2 ^ 128) ∷ (n / 2 ^ 128) ∷ topic_keys ns

abbrev pub AllU256 : List U256 → Type 0
AllU256 ns = All (λ n. n < 2 ^ 256) ns

split_last-append :
    (xs : List FieldElement) (a : FieldElement) → split_last (xs ++ a ∷ []) ≡ some (a, xs)
unfolding split_last
split_last-append [] a = refl
split_last-append (x ∷ xs) a = rw (split_last-append xs a)

split_last-cons : (x : FieldElement) (xs : List FieldElement) → split_last (x ∷ xs) ≢ none
unfolding split_last
split_last-cons x xs e = ground arith

length-split_last :
    (xs front : List FieldElement) (last : FieldElement)
    → split_last xs ≡ some (last, front)
    → length xs ≡ length front + 1
unfolding split_last
length-split_last [] front last e = cc
length-split_last (x ∷ []) front last e = ground arith
length-split_last (x ∷ y ∷ xs) front last e = elim (Option-cases (split_last (y ∷ xs))) [
  | inl none_left ↦ absurd (split_last-cons y xs none_left)
  | inr ((l, f), some_left) ↦ ground (arith, length-split_last (y ∷ xs) f l some_left)
]

joined : (n : U256) → n % 2 ^ 128 + 2 ^ 128 * (n / 2 ^ 128) ≡ n
joined n = omega arith

module _ ⦃crates : Crates⦄ where
  halves :
      (n : U256)
      → n < 2 ^ 256
      → topic_of_chunk (n % 2 ^ 128, some (n / 2 ^ 128)) ≡ ok (be_bytes 32 n)
  halves n h = rw (
    topic_of_chunk_lem (n % 2 ^ 128) (n / 2 ^ 128) (omega arith) (omega arith),
    joined n,
    lt→ltb n _ h,
  )

  traverse-topic_keys :
      (ns : List U256)
      → AllU256 ns
      → traverse topic_of_chunk (chunks2 (topic_keys ns)) ≡ ok (map (be_bytes 32) ns)
  unfolding traverse chunks2
  traverse-topic_keys [] h = refl
  traverse-topic_keys (n ∷ ns) (hn, h) = rw (halves n hn, traverse-topic_keys ns h)

  -- An event of Kakarot whose keys hold topics of 256 bits, a low and a high half each, and then
  -- an address of 20 bytes, becomes the log with that address, those topics in 32 bytes each,
  -- the bytes of the data, and the given place in the chain.
  pub to_eth_log-topic_keys :
      (client : TransactionClient) (address : H160) (ns : List U256) (payload : List FieldElement)
      (block_hash transaction_hash : Option H256)
      (block_number log_index transaction_index : Option U256)
      → IsArray 20 address
      → AllU256 ns
      → to_eth_log
          (record {
            from_address = client.kakarot_address;
            keys = topic_keys ns ++ be_value address ∷ [];
            event_data = payload;
          })
          client
          block_hash
          block_number
          transaction_hash
          log_index
          transaction_index
        ≡ ok (record {
          address = address;
          topics = map (be_bytes 32) ns;
          log_data = vec_felt_to_bytes payload;
          block_hash = block_hash;
          block_number = block_number;
          transaction_hash = transaction_hash;
          log_index = log_index;
          transaction_index = transaction_index;
          removed = false;
        })
  unfolding to_eth_log
  to_eth_log-topic_keys client address ns payload bh th bn li ti ha hn = rw (
    (==_iff client.kakarot_address client.kakarot_address).1 refl,
    split_last-append (topic_keys ns) (be_value address),
    to_h160_of_address address ha,
    traverse-topic_keys ns hn,
  )

  length-topics :
      (keys : List FieldElement) (topics : List H256)
      → traverse topic_of_chunk (chunks2 keys) ≡ ok topics
      → length keys ≡ 2 * length topics
  unfolding traverse chunks2 topic_of_chunk
  length-topics [] topics e = ground arith
  length-topics (low ∷ []) topics e = cc
  length-topics (low ∷ high ∷ keys) topics e =
      let (topic, _, rest) = >>=-eq-ok (topic_of_chunk (low, some high)) _ e in
      let (topics', traversed, built) = >>=-eq-ok (traverse topic_of_chunk (chunks2 keys)) _ rest in
      ground (arith, length-topics keys topics' traversed)

  -- A log is made only of an event that Kakarot sent and that has an odd number of keys: it has
  -- one topic for each two keys before the last.
  pub to_eth_log_only :
      (event : Event) (client : TransactionClient) (bh th : Option H256) (bn li ti : Option U256)
      (log : Log)
      → to_eth_log event client bh bn th li ti ≡ ok log
      → (event.from_address ≡ client.kakarot_address)
        × (length event.keys ≡ 2 * length log.topics + 1)
  unfolding to_eth_log
  to_eth_log_only event client bh th bn li ti log e =
      elim (Bool-cases (event.from_address == client.kakarot_address)) [
        | inl same ↦
            let ((last, keys), split, rest) =
              >>=-eq-ok (ok_or _ (split_last event.keys)) _ (rw same at e) in
            let (address, _, rest) = >>=-eq-ok (to_h160 (from_felt last)) _ rest in
            let (topics, traversed, built) =
              >>=-eq-ok (traverse topic_of_chunk (chunks2 keys)) _ rest in
            let split_some = ok_or-eq-ok _ (split_last event.keys) split in
            ground (
              arith,
              length-split_last event.keys keys last split_some,
              length-topics keys topics traversed,
            )
        | inr other ↦ cc (rw other at e)
      ]
