-- ===== src/Client/Contracts/Amounts.antt =====
-- The nonce and the balance of an account: crates/core/src/client/mod.rs.
use kakarot_rpc_adapter.Prelude.{ℕ, suc, ◌≡◌, refl, List, [], ◌∷◌, inr}
use kakarot_rpc_adapter.Types.{FieldElement, H160, IsFelt, IsArray}
use kakarot_rpc_adapter.Outcome.{ok}
use kakarot_rpc_adapter.Crates.{Crates}
use kakarot_rpc_adapter.Starknet
use kakarot_rpc_adapter.Async.{Request, ◌>>=◌}
use kakarot_rpc_adapter.Async.Run.{Script, run, run-ask, run->>=}
use kakarot_rpc_adapter.Client.Constants
use kakarot_rpc_adapter.Client.Contracts.{KakarotClient, nonce, balance}
use kakarot_rpc_adapter.Models.Felt.RoundTrip.{to_u256_lem, be_value-felt_to_bytes_be}
use kakarot_rpc_adapter.Prelude.{some}
use kakarot_rpc_adapter.Client.Contracts.Answers.{address_request, run-compute_starknet_address}

module _ ⦃crates : Crates⦄ (client : KakarotClient) (block_id : Starknet.BlockId) where
  open crates use {
    felt_to_bytes_be, felt_to_bytes_be-IsArray, felt_from_hex_be, u256_from_be_bytes_lem,
  }

  -- The nonce of an account of 20 bytes is the one that the node gives for its Starknet address,
  -- if that lies below the prime.
  pub nonce_lem :
      (address : H160) (s : Script) (n : ℕ) (x : FieldElement) (rest : List FieldElement)
      (count : FieldElement)
      → IsArray 20 address
      → IsFelt count
      → s n (address_request client block_id address) ≡ inr (x ∷ rest)
      → s (suc n) (Request.get_nonce block_id x) ≡ inr count
      → run (nonce client address block_id) s n ≡ (ok count, suc (suc n))
  unfolding nonce
  nonce_lem address s n x rest count a h ex ec =
      rw (run->>=, run-compute_starknet_address client block_id address s n x rest a ex)
        (rw
          (run->>=, run-ask (Request.get_nonce block_id x) s (suc n) count ec, to_u256_lem count h)
          (unfold run in refl))

  abbrev pub balance_request : FieldElement → FieldElement → Request
  balance_request native_token starknet_address =
      Request.call
        (record {
          contract_address = native_token;
          entry_point_selector = Constants.balance_of_selector;
          calldata = starknet_address ∷ [];
        })
        block_id

  -- The balance of an account of 20 bytes is what the native token contract, whose address
  -- parses, answers for its Starknet address, if that lies below the prime.
  pub balance_lem :
      (address : H160) (s : Script) (n : ℕ) (x : FieldElement) (rest : List FieldElement)
      (native_token amount : FieldElement) (more : List FieldElement)
      → IsArray 20 address
      → IsFelt amount
      → felt_from_hex_be Constants.starknet_native_token ≡ some native_token
      → s n (address_request client block_id address) ≡ inr (x ∷ rest)
      → s (suc n) (balance_request native_token x) ≡ inr (amount ∷ more)
      → run (balance client address block_id) s n ≡ (ok amount, suc (suc n))
  unfolding balance
  balance_lem address s n x rest native_token amount more a h et ex eb =
      rw (run->>=, run-compute_starknet_address client block_id address s n x rest a ex, et)
        (rw (run->>=) (
          unfold run in
          rw (run->>=, run-ask (balance_request native_token x) s (suc n) (amount ∷ more) eb)
            (unfold ◌>>=◌ in
              rw
                (
                  u256_from_be_bytes_lem _ (felt_to_bytes_be-IsArray amount),
                  be_value-felt_to_bytes_be amount h,
                )
                refl)))
