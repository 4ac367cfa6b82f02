-- ===== src/Client/Tokens/Refused.antt =====
-- Why `token_balances` of crates/core/src/client/mod.rs gives no balances, from the JSON-RPC method of
-- crates/eth-rpc/src/eth_rpc.rs down.
use kakarot_rpc_adapter.Prelude.{ℕ, ◌≡◌, refl, List}
use kakarot_rpc_adapter.Prelude.Bytes.{
  be_value, be_bytes, be_value-be_bytes, length-be_bytes, be_bytes-IsBytes,
}
use kakarot_rpc_adapter.Types.{H160, IsArray}
use kakarot_rpc_adapter.Errors.{
  EthApiError, conversion_error, felt252_wrapper_conversion_error, from_byte_array_error,
  eth_of_felt_error,
}
use kakarot_rpc_adapter.Errors.Codes.{to_error_object}
use kakarot_rpc_adapter.Outcome.{err}
use kakarot_rpc_adapter.Crates.{Crates}
use kakarot_rpc_adapter.Async
use kakarot_rpc_adapter.Async.Run.{Script, run, run-map_error}
use kakarot_rpc_adapter.Models.Felt.RoundTrip.{try_from_h256_lem}
use kakarot_rpc_adapter.Client.Contracts.{KakarotClient}
use kakarot_rpc_adapter.Client.Provider.{kakarot_provider}
use kakarot_rpc_adapter.Client.Tokens.{balance_calldata, token_balances}
use kakarot_rpc_adapter.Rpc

-- The hash of the signature of `balanceOf`.
abbrev balance_of_hash : List ℕ
balance_of_hash = be_bytes 32 0x70a08231b98ef4ca268c9cc3f6b4590e4bfec28280db06bb5d45e689f2a360be

-- The error of a hash that is no field element.
abbrev pub out_of_range : EthApiError
out_of_range = conversion_error (felt252_wrapper_conversion_error from_byte_array_error)

balance_of_hash-IsArray : IsArray 32 balance_of_hash
balance_of_hash-IsArray = (length-be_bytes 32 _, be_bytes-IsBytes 32 _)

value_of_hash :
    be_value balance_of_hash ≡ 0x70a08231b98ef4ca268c9cc3f6b4590e4bfec28280db06bb5d45e689f2a360be
value_of_hash = be_value-be_bytes 32 _

module _ ⦃crates : Crates⦄ where
  open crates use {keccak256-balance_of}

  balance_calldata_refused : (address : H160) → balance_calldata address ≡ err out_of_range
  unfolding balance_calldata eth_of_felt_error
  balance_calldata_refused address =
      rw
        (
          keccak256-balance_of,
          try_from_h256_lem balance_of_hash balance_of_hash-IsArray,
          value_of_hash,
        )
        refl

  -- Whatever the node replies, `kakarot_getTokenBalances` gives the error object of a hash that
  -- is no field element, for every wallet and every list of contracts, and asks the node
  -- nothing.
  pub token_balances_refused :
      (client : KakarotClient) (address : H160) (contracts : List H160) (s : Script) (n : ℕ)
      → run (Rpc.token_balances (kakarot_provider client) address contracts) s n
        ≡ (err (to_error_object out_of_range), n)
  unfolding Rpc.token_balances token_balances
  token_balances_refused client address contracts s n =
      rw (run-map_error, balance_calldata_refused address) (unfold Async.◌>>=◌ run in refl)
