-- ===== src/Client/Tokens.antt =====
-- `token_balances` of crates/core/src/client/mod.rs.
pub mod Refused
use Prim.Native.String
use kakarot_rpc_adapter.Prelude.{List, [], ◌∷◌, map, none, some, inl, inr, ◌⊎◌, codes}
use kakarot_rpc_adapter.Types.{Bytes, H160}
use kakarot_rpc_adapter.Errors.{EthApiError, other_error, eth_of_felt_error}
use kakarot_rpc_adapter.Errors.Codes.{api_error_text}
use kakarot_rpc_adapter.Outcome.{Outcome, ok, unwrap, ok_or, map_err, traverse, ◌>>=◌}
use kakarot_rpc_adapter.Crates.{Crates}
use kakarot_rpc_adapter.Async.{Async, lift}
use kakarot_rpc_adapter.Async
use kakarot_rpc_adapter.Async.Join.{join_all}
use kakarot_rpc_adapter.Models.Felt.{to_felt, try_from_h256}
use kakarot_rpc_adapter.Models.Balance.{TokenBalance, TokenBalances}
use kakarot_rpc_adapter.Models.Transaction.{latest_block}
use kakarot_rpc_adapter.Client.Helpers.{vec_felt_to_bytes}
use kakarot_rpc_adapter.Client.Contracts.{KakarotClient, call_view}

module _ ⦃crates : Crates⦄ where
  open crates use {keccak256, h160_to_string, felt_from_str, bytes_to_string, u256_from_str_radix}

  -- The result of one call; a text that is no number in base 16 panics by `unwrap`.
  unfoldable pub token_balance : H160 → EthApiError ⊎ Bytes → Outcome EthApiError TokenBalance
  token_balance address (inr call) = do
    hex_balance ← unwrap (u256_from_str_radix (bytes_to_string call) 16)
    ok (record { contract_address = address; token_balance = some hex_balance; error = none })
  token_balance address (inl e) = ok (record {
    contract_address = address;
    token_balance = none;
    error = some (String.◌++◌ "kakarot_getTokenBalances Error: " (api_error_text e));
  })

  -- The calldata of each call: the whole hash as an element, and the address.
  unfoldable pub balance_calldata : H160 → Outcome EthApiError Bytes
  balance_calldata address = do
    entrypoint ← map_err eth_of_felt_error (try_from_h256 (keccak256 (codes "balanceOf(address)")))
    felt_address ←
        ok_or (other_error "Failed to convert address to FieldElement")
          (felt_from_str (h160_to_string address))
    ok (vec_felt_to_bytes (to_felt entrypoint ∷ felt_address ∷ []))

  unfoldable pub token_balances : KakarotClient → H160 → List H160 → Async EthApiError TokenBalances
  token_balances client address contract_addresses =
      Async.◌>>=◌ (lift (balance_calldata address)) λ calldata.
        Async.◌>>=◌
          (join_all (
            map (λ token_address. call_view client token_address calldata latest_block)
              contract_addresses))
          λ results.
            Async.◌>>=◌ (lift (traverse (token_balance address) results))
              λ balances. Async.pure (record { address = address; token_balances = balances })
