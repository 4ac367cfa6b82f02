-- ===== src/Models/Transaction/Kakarot.antt =====
-- Which transactions become Ethereum transactions, and what they become:
-- crates/core/src/models/transaction.rs.
use kakarot_rpc_adapter.Prelude.{
  ℕ, suc, ◌+◌, ◌*◌, ◌≡◌, ◌≢◌, refl, ap, List, Option, none, some, Bool, false, ◌==◌, ==_iff,
  Bool-cases, inl, inr, ◌⊎◌, arith, if◌then◌else◌,
}
use kakarot_rpc_adapter.Types.{FieldElement, H160, H256, U256, IsFelt, Signature}
use kakarot_rpc_adapter.Errors.{
  EthApiError, ProviderError, conversion_error, request_error, transaction_conversion_error,
}
use kakarot_rpc_adapter.Outcome.{Outcome, ok, err}
use kakarot_rpc_adapter.Crates.{Crates}
use kakarot_rpc_adapter.Eth
use kakarot_rpc_adapter.Async.{Async, Request, ask, received, pure, throw, ◌>>=◌}
use kakarot_rpc_adapter.Async.Run.{Script, run, run_after, run->>=}
use kakarot_rpc_adapter.Models.Felt.{from_felt}
use kakarot_rpc_adapter.Models.Felt.RoundTrip.{to_h256_lem, to_u256_lem}
use kakarot_rpc_adapter.Models.Transaction.{
  StarknetTransaction, transaction_hash, nonce, calldata, sender_address, is_kakarot_tx,
  to_eth_transaction, signature_v, latest_block,
}
use kakarot_rpc_adapter.Client.Constants.{chain_id, invalid_transaction_type}
use kakarot_rpc_adapter.Client.Calls.{decode_signature_from_tx_calldata}
use kakarot_rpc_adapter.Client.Helpers.{vec_felt_to_bytes}
use kakarot_rpc_adapter.Client.Api.{TransactionClient}

abbrev pub class_request : FieldElement → Request
class_request sender = Request.get_class_hash_at latest_block sender

-- What the node's reply says of the class of a sender.
abbrev class_check : ProviderError ⊎ FieldElement → FieldElement → Outcome EthApiError Bool
class_check (inl e) proxy = err (request_error e)
class_check (inr class_hash) proxy = ok (class_hash == proxy)

run-is_kakarot_tx :
    (tx : StarknetTransaction) (client : TransactionClient) (sender : FieldElement) (s : Script)
    (n : ℕ)
    → sender_address tx ≡ ok (from_felt sender)
    → run (is_kakarot_tx tx client) s n
      ≡ (class_check (s n (class_request sender)) client.proxy_account_class_hash, suc n)
unfolding is_kakarot_tx run ask ◌>>=◌
run-is_kakarot_tx tx client sender s n e = rw e (by_reply (s n (class_request sender)))
  where
    by_reply :
        (reply : ProviderError ⊎ FieldElement)
        → run
            (received (class_request sender) reply >>= λ class_hash.
              pure (class_hash == client.proxy_account_class_hash))
            s
            (suc n)
          ≡ (class_check reply client.proxy_account_class_hash, suc n)
    by_reply (inl x) = refl
    by_reply (inr x) = refl

-- Where the rest of a function throws unless the test holds, a value shows that it held.
class_passed :
    {A : Type 0} {x : EthApiError} (reply : ProviderError ⊎ FieldElement) (proxy : FieldElement)
    (k m : ℕ) (rest : Bool → Async EthApiError A) (s : Script) (a : A)
    → rest false ≡ throw x
    → run_after (class_check reply proxy, k) rest s ≡ (ok a, m)
    → reply ≡ inr proxy
unfolding run
class_passed (inl y) proxy k m rest s a er e = cc (ap (λ p. p.0) e)
class_passed (inr class_hash) proxy k m rest s a er e = elim (Bool-cases (class_hash == proxy)) [
  | inl same ↦ ap inr ((==_iff class_hash proxy).0 same)
  | inr other ↦ cc (ap (λ p. p.0) (rw (other, er) at e))
]

module _ ⦃crates : Crates⦄ (tx : StarknetTransaction) (client : TransactionClient)
    (block_hash : Option H256) (block_number transaction_index : Option U256) (s : Script)
    (n : ℕ) where
  open crates use {felt_to_bytes_be}

  -- A transaction that is no invoke transaction is a conversion error, without a request.
  pub to_eth_transaction_other :
      sender_address tx ≡ err (transaction_conversion_error invalid_transaction_type)
      → run (to_eth_transaction tx client block_hash block_number transaction_index) s n
        ≡ (err (conversion_error (transaction_conversion_error invalid_transaction_type)), n)
  unfolding to_eth_transaction is_kakarot_tx run ◌>>=◌
  to_eth_transaction_other e = rw e

  -- An invoke transaction whose sender has another class than the proxy accounts is refused,
  -- after the one request that asks for the class.
  pub to_eth_transaction_refused :
      (sender class_hash : FieldElement)
      → sender_address tx ≡ ok (from_felt sender)
      → s n (class_request sender) ≡ inr class_hash
      → class_hash ≢ client.proxy_account_class_hash
      → run (to_eth_transaction tx client block_hash block_number transaction_index) s n
        ≡ (err (EthApiError.other_error "Kakarot Filter: Tx is not part of Kakarot"), suc n)
  unfolding to_eth_transaction
  to_eth_transaction_refused sender class_hash es ec ne =
      rw (run->>=, run-is_kakarot_tx tx client sender s n es, ec, ne_test) (unfold run in refl)
    where
      ne_test : (class_hash == client.proxy_account_class_hash) ≡ false
      ne_test = ground arith

  -- An invoke transaction becomes an Ethereum transaction only if the node says that its sender
  -- has the class of the proxy accounts.
  pub to_eth_transaction_only :
      (sender : FieldElement) (eth_tx : Eth.Transaction) (m : ℕ)
      → sender_address tx ≡ ok (from_felt sender)
      → run (to_eth_transaction tx client block_hash block_number transaction_index) s n
        ≡ (ok eth_tx, m)
      → s n (class_request sender) ≡ inr client.proxy_account_class_hash
  unfolding to_eth_transaction
  to_eth_transaction_only sender eth_tx m es e =
      class_passed (s n (class_request sender)) client.proxy_account_class_hash (suc n) m _ s eth_tx
        refl (rw (run->>=, run-is_kakarot_tx tx client sender s n es) at e)

  -- An invoke transaction becomes the Ethereum transaction with its hash, nonce, sender and
  -- calldata, the given place, and the signature of its calldata with v by EIP-155, if the node
  -- says that its sender has the class of the proxy accounts, the client gives the address of
  -- the sender, the calldata decodes to a signature and the nonce lies below the prime.
  pub to_eth_transaction_lem :
      (sender hash nonce_felt : FieldElement) (cells : List FieldElement) (from : H160)
      (signature : Signature) (m : ℕ)
      → sender_address tx ≡ ok (from_felt sender)
      → transaction_hash tx ≡ ok (from_felt hash)
      → nonce tx ≡ ok (from_felt nonce_felt)
      → calldata tx ≡ ok cells
      → IsFelt nonce_felt
      → s n (class_request sender) ≡ inr client.proxy_account_class_hash
      → run (client.get_evm_address sender latest_block) s (suc n) ≡ (ok from, m)
      → decode_signature_from_tx_calldata cells ≡ ok signature
      → run (to_eth_transaction tx client block_hash block_number transaction_index) s n ≡ (
        ok (record {
          hash = felt_to_bytes_be hash;
          nonce = nonce_felt;
          block_hash = block_hash;
          block_number = block_number;
          transaction_index = transaction_index;
          from = from;
          to = none;
          value = 100;
          gas_price = none;
          gas = 100;
          max_fee_per_gas = none;
          max_priority_fee_per_gas = some client.max_priority_fee_per_gas;
          input = vec_felt_to_bytes cells;
          signature = some (record {
            r = signature.r;
            s = signature.s;
            v = (if signature.odd_y_parity then 1 else 0) + 35 + 2 * chain_id;
          });
          chain_id = some chain_id;
          access_list = none;
          transaction_type = none;
        }),
        m,
      )
  unfolding to_eth_transaction signature_v
  to_eth_transaction_lem sender hash nonce_felt cells from signature m es eh en ec hn er eg ed =
      rw
        (
          run->>=,
          run-is_kakarot_tx tx client sender s n es,
          er,
          (==_iff client.proxy_account_class_hash client.proxy_account_class_hash).1 refl,
        )
        (unfold ◌>>=◌ in
          rw
            (
              es,
              eh,
              to_h256_lem,
              en,
              run->>= (client.get_evm_address sender latest_block),
              eg,
              ec,
              ed,
              to_u256_lem nonce_felt hn,
            )
            (unfold run in refl))
