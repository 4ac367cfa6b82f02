-- ===== src/Rpc/EthCall.antt =====
-- `eth_call` from the JSON-RPC method to the node: crates/eth-rpc/src/eth_rpc.rs over
-- crates/core/src/client/mod.rs.
use kakarot_rpc_adapter.Prelude.{ℕ, suc, ◌≡◌, refl, List, ◌∷◌, ◌++◌, length, Option, some, inl, inr}
use kakarot_rpc_adapter.Prelude.Bytes.{IsBytes}
use kakarot_rpc_adapter.Types.{FieldElement, Bytes, H160, IsFelt, IsArray}
use kakarot_rpc_adapter.Errors.{ProviderError}
use kakarot_rpc_adapter.Errors.Codes.{provider_code, to_error_object, rpc_err}
use kakarot_rpc_adapter.Outcome.{ok, err}
use kakarot_rpc_adapter.Crates.{Crates}
use kakarot_rpc_adapter.Starknet
use kakarot_rpc_adapter.Eth.{BlockId}
use kakarot_rpc_adapter.Async.{◌>>=◌}
use kakarot_rpc_adapter.Async.Run.{Script, run, run-map_error}
use kakarot_rpc_adapter.Client.Helpers.{ethers_block_id_to_starknet_block_id}
use kakarot_rpc_adapter.Client.Contracts.{KakarotClient}
use kakarot_rpc_adapter.Client.Contracts.Answers.{view_request, call_view_lem, call_view_refused}
use kakarot_rpc_adapter.Client.Provider.{kakarot_provider}
use kakarot_rpc_adapter.Rpc
use kakarot_rpc_adapter.Rpc.{or_latest, starknet_block}

module _ ⦃crates : Crates⦄ (client : KakarotClient) where
  open crates use {provider_error_text}

  -- `eth_call` to a contract, at a block whose id converts or at the latest one, gives the bytes
  -- that the contract returns, if the node answers with their count, them and whatever follows,
  -- and the count lies below the prime.
  pub call_lem :
      (to : H160) (calldata answer : Bytes) (block : Option BlockId) (id : Starknet.BlockId)
      (rest : List FieldElement) (s : Script) (n : ℕ)
      → ethers_block_id_to_starknet_block_id (or_latest block) ≡ ok id
      → IsArray 20 to
      → IsBytes answer
      → IsFelt (length answer)
      → s n (view_request client id to calldata) ≡ inr (length answer ∷ answer ++ rest)
      → run
          (Rpc.call
            (kakarot_provider client)
            (record { to = some to; calldata = some calldata })
            block)
          s
          n
        ≡ (ok answer, suc n)
  unfolding Rpc.call starknet_block kakarot_provider
  call_lem to calldata answer block id rest s n eb a b h e = rw (eb) (
      unfold ◌>>=◌ in
      rw (run-map_error, call_view_lem client id to calldata answer rest s n a b h e) refl)

  -- An error of the node reaches the caller of `eth_call`, at a block whose id converts or at
  -- the latest one and to an address of 20 bytes, as the error object with the code of that
  -- error and its text.
  pub call_refused :
      (to : H160) (calldata : Bytes) (block : Option BlockId) (id : Starknet.BlockId)
      (e : ProviderError) (s : Script) (n : ℕ)
      → ethers_block_id_to_starknet_block_id (or_latest block) ≡ ok id
      → IsArray 20 to
      → s n (view_request client id to calldata) ≡ inl e
      → run
          (Rpc.call
            (kakarot_provider client)
            (record { to = some to; calldata = some calldata })
            block)
          s
          n
        ≡ (err (record { code = provider_code e; message = provider_error_text e }), suc n)
  unfolding Rpc.call starknet_block kakarot_provider to_error_object rpc_err
  call_refused to calldata block id e s n eb a er =
      rw (eb) (
        unfold ◌>>=◌ in rw (run-map_error, call_view_refused client id to calldata e s n a er) refl)
