-- ===== src/Server/Submissions.antt =====
-- How many transactions a JSON-RPC request submits: crates/eth-rpc/src/eth_rpc.rs and
-- crates/core/src/client/mod.rs.
use mathlib.Core.Bool.{false≢true}
use mathlib.Core.Path.{subst}
use text.Mathlib.Text.{◌==◌}
use text.Mathlib.TextEquality.{eq_iff}
use kakarot_rpc_adapter.Prelude.{◌≡◌, ◌≢◌, ◌⊎◌, sym, ap, ◌∙◌, Bool-cases, [], ◌∷◌, inl, inr}
use kakarot_rpc_adapter.Types.{Bytes}
use kakarot_rpc_adapter.Errors.Codes.{to_error_object}
use kakarot_rpc_adapter.Crates.{Crates}
use kakarot_rpc_adapter.Starknet.{BroadcastedInvokeTransactionV1}
use kakarot_rpc_adapter.Async.{Request, lift}
use kakarot_rpc_adapter.Async.Only.{ReadsOnly-ret}
use kakarot_rpc_adapter.Async.Once.{
  SubmitsOnce, SubmitsOnce-reads, SubmitsOnce-bind, SubmitsOnce-ask, SubmitsOnce-map_error,
}
use kakarot_rpc_adapter.Client.Contracts.{KakarotClient}
use kakarot_rpc_adapter.Client.Provider.{kakarot_provider}
use kakarot_rpc_adapter.Client.Transactions.{send_transaction, submit_starknet_transaction}
use kakarot_rpc_adapter.Client.ReadOnly.{kakarot_provider-IsReader}
use kakarot_rpc_adapter.Rpc
use kakarot_rpc_adapter.Server.{Method, name, JsonTypes, Params, serve}
use kakarot_rpc_adapter.Server.Names.{name-injective}
use kakarot_rpc_adapter.Server.ReadOnly.{serve-ReadsOnly}

is_send_raw : (m : Method) → (m ≡ Method.send_raw_transaction) ⊎ (m ≢ Method.send_raw_transaction)
is_send_raw m = elim (Bool-cases (name m == name Method.send_raw_transaction)) [
  | inl e ↦ inl (name-injective m Method.send_raw_transaction ((eq_iff _ _).0 e))
  | inr e ↦ inr (λ h. false≢true (sym e ∙ (eq_iff _ _).1 (ap name h)))
]

module _ ⦃crates : Crates⦄ (client : KakarotClient) where
  submit-SubmitsOnce :
      (b : BroadcastedInvokeTransactionV1) → SubmitsOnce (submit_starknet_transaction b)
  unfolding submit_starknet_transaction
  submit-SubmitsOnce b =
      SubmitsOnce-ask (Request.add_invoke_transaction b) _ λ hash. ReadsOnly-ret _

  send_transaction-SubmitsOnce : (bytes : Bytes) → SubmitsOnce (send_transaction client bytes)
  unfolding send_transaction
  send_transaction-SubmitsOnce [] = SubmitsOnce-reads _ (ReadsOnly-ret _)
  send_transaction-SubmitsOnce (b ∷ bs) =
      SubmitsOnce-bind (lift _) _ (ReadsOnly-ret _) λ transaction.
        SubmitsOnce-bind (lift _) _ (ReadsOnly-ret _) λ evm_address.
          SubmitsOnce-bind _ _ ((kakarot_provider-IsReader client).compute_starknet_address _ _)
            λ starknet_address. submit-SubmitsOnce _

module _ ⦃crates : Crates⦄ (types : JsonTypes) (client : KakarotClient) where
  abbrev Once : Method → Type 0
  Once m = (ps : Params types m) → SubmitsOnce (serve types (kakarot_provider client) m ps)

  send_raw-SubmitsOnce : Once Method.send_raw_transaction
  unfolding serve Rpc.send_raw_transaction
  send_raw-SubmitsOnce bytes =
      SubmitsOnce-map_error to_error_object _ (send_transaction-SubmitsOnce client bytes)

  -- Whatever the node replies, the answer to one JSON-RPC request submits at most one
  -- transaction.
  pub serve-SubmitsOnce :
      (m : Method) (ps : Params types m) → SubmitsOnce (serve types (kakarot_provider client) m ps)
  serve-SubmitsOnce m ps = elim (is_send_raw m) [
    | inl e ↦ subst Once (sym e) (send_raw-SubmitsOnce) ps
    | inr h ↦ SubmitsOnce-reads _ (serve-ReadsOnly types client m ps h)
  ]
