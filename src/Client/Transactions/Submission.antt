-- ===== src/Client/Transactions/Submission.antt =====
-- What `send_transaction` of crates/core/src/client/mod.rs submits.
use kakarot_rpc_adapter.Prelude.{ℕ, suc, ◌^◌, ◌<◌, ◌≡◌, refl, List, [], ◌∷◌, inl, inr, some, String}
use kakarot_rpc_adapter.Types.{FieldElement, Bytes, H160, IsArray, TransactionSigned}
use kakarot_rpc_adapter.Errors.{other_error}
use kakarot_rpc_adapter.Outcome.{ok, err}
use kakarot_rpc_adapter.Crates.{Crates}
use kakarot_rpc_adapter.Starknet.{BroadcastedInvokeTransactionV1}
use kakarot_rpc_adapter.Async.{Request}
use kakarot_rpc_adapter.Async.Run.{Script, run, run-ask, run->>=}
use kakarot_rpc_adapter.Client.Constants
use kakarot_rpc_adapter.Client.Calls.{raw_starknet_calldata}
use kakarot_rpc_adapter.Client.Contracts.{KakarotClient}
use kakarot_rpc_adapter.Client.Contracts.Answers.{address_request, run-compute_starknet_address}
use kakarot_rpc_adapter.Models.Transaction.{latest_block}
use kakarot_rpc_adapter.Client.Transactions.{send_transaction, submit_starknet_transaction}

module _ ⦃crates : Crates⦄ (client : KakarotClient) where
  open crates use {
    felt_to_bytes_be, felt_from_uint, felt_from_uint_lem, transaction_decode, recover_signer,
  }

  -- The transaction that goes to the node: one call of the Kakarot contract with the bytes.
  abbrev pub invoke_of : FieldElement → ℕ → Bytes → BroadcastedInvokeTransactionV1
  invoke_of starknet_address nonce bytes = record {
    max_fee = Constants.max_fee;
    signature = [];
    nonce = nonce;
    sender_address = starknet_address;
    calldata = raw_starknet_calldata client.kakarot_address bytes;
  }

  -- Bytes that decode to a transaction whose nonce has 64 bits and whose signer is recovered are
  -- submitted in one invoke transaction, after one call of `compute_starknet_address` of
  -- Kakarot, from the Starknet address that this call gives for the signer and with the nonce of
  -- the transaction; the result is the hash that the node gives.
  pub send_transaction_lem :
      (b : ℕ) (bs : Bytes) (tx : TransactionSigned) (signer : H160) (s : Script) (n : ℕ)
      (x : FieldElement) (rest : List FieldElement) (hash : FieldElement)
      → transaction_decode (b ∷ bs) ≡ inr tx
      → recover_signer tx ≡ some signer
      → IsArray 20 signer
      → tx.nonce < 2 ^ 64
      → s n (address_request client latest_block signer) ≡ inr (x ∷ rest)
      → s (suc n) (Request.add_invoke_transaction (invoke_of x tx.nonce (b ∷ bs))) ≡ inr hash
      → run (send_transaction client (b ∷ bs)) s n ≡ (ok (felt_to_bytes_be hash), suc (suc n))
  unfolding send_transaction submit_starknet_transaction
  send_transaction_lem b bs tx signer s n x rest hash ed er a hn ex eh =
      rw (ed, run->>=)
        (unfold run in
          rw (er, run->>=)
            (unfold run in
              rw (run->>=, run-compute_starknet_address client latest_block signer s n x rest a ex)
                (rw
                  (
                    felt_from_uint_lem tx.nonce hn,
                    run->>=,
                    run-ask (Request.add_invoke_transaction (invoke_of x tx.nonce (b ∷ bs))) s
                        (suc n) hash eh,
                  )
                  refl)))

  -- Bytes that do not decode, and a transaction whose signer is not recovered, are errors, and
  -- nothing is submitted.
  pub send_transaction_undecoded :
      (b : ℕ) (bs : Bytes) (text : String) (s : Script) (n : ℕ)
      → transaction_decode (b ∷ bs) ≡ inl text
      → run (send_transaction client (b ∷ bs)) s n
        ≡ (err (other_error "Kakarot send_transaction: transaction bytes failed to be decoded"), n)
  unfolding send_transaction
  send_transaction_undecoded b bs text s n e = rw (e, run->>=) (unfold run in refl)
