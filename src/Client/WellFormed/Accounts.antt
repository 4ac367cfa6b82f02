-- ===== src/Client/WellFormed/Accounts.antt =====
-- The widths of balances, nonces, code and hashes that the client gives, whatever the node replies:
-- crates/core/src/client/mod.rs.
use kakarot_rpc_adapter.Prelude.{
  ℕ, ◌*◌, ◌^◌, ltb, Bool-cases, inl, inr, ◌≡◌, ◌+◌, arith, length, [], ◌∷◌, length-replicate,
}
use kakarot_rpc_adapter.Prelude.Bytes.{IsBytes}
use kakarot_rpc_adapter.Types.{Bytes, H160, U256, IsArray}
use kakarot_rpc_adapter.Errors.{EthApiError}
use kakarot_rpc_adapter.Crates.{Crates}
use kakarot_rpc_adapter.Starknet
use kakarot_rpc_adapter.Eth
use kakarot_rpc_adapter.Eth.{BlockNumberOrTag}
use kakarot_rpc_adapter.Async.Yields.{Ends, Yields-bind, Yields, Yields-ret, Yields-after}
use kakarot_rpc_adapter.Models.Felt.{from_felt, to_u256}
use kakarot_rpc_adapter.Client.Chain.{fee_history, vec_of, block_count_usize}
use kakarot_rpc_adapter.Client.Contracts.{KakarotClient, nonce, balance, get_code}
use kakarot_rpc_adapter.Client.Transactions.{submit_starknet_transaction, send_transaction}
use kakarot_rpc_adapter.Client.WellFormed.{IsWord}
use kakarot_rpc_adapter.Client.WellFormed.Words.{to_u256-IsWord, vec_felt_to_bytes-IsBytes}

-- The fees are one more than the ratios.
abbrev pub IsHistory : Eth.FeeHistory → Type 0
IsHistory r = length r.base_fee_per_gas ≡ length r.gas_used_ratio + 1

module _ ⦃crates : Crates⦄ (client : KakarotClient) where
  open crates use {felt_to_bytes_be-IsArray}

  pub nonce-IsWord :
      (address : H160) (block_id : Starknet.BlockId) → Yields IsWord (nonce client address block_id)
  unfolding nonce
  nonce-IsWord address block_id = Yields-after _ _ _ λ starknet_address.
      Yields-after _ _ _ λ felt. Yields-ret _ _ (to_u256-IsWord (from_felt felt))

  pub balance-IsWord :
      (address : H160) (block_id : Starknet.BlockId)
      → Yields IsWord (balance client address block_id)
  unfolding balance to_u256
  balance-IsWord address block_id = Yields-after _ _ _ λ starknet_address.
      Yields-after _ _ _ λ native_token.
        Yields-after _ _ _
          λ felts. Yields-after _ _ _ λ felt. Yields-ret _ _ (to_u256-IsWord (from_felt felt))

  pub get_code-IsBytes :
      (address : H160) (block_id : Starknet.BlockId)
      → Yields IsBytes (get_code client address block_id)
  unfolding get_code
  get_code-IsBytes address block_id = Yields-after _ _ _ λ felt. Yields-after _ _ _ λ addresses.
      Yields-after _ _ _ λ contract.
        Yields-after _ _ _ λ bytecode. Yields-ret _ _ (vec_felt_to_bytes-IsBytes bytecode)

  pub send_transaction-IsArray :
      (bytes : Bytes) → Yields (IsArray 32) (send_transaction client bytes)
  unfolding send_transaction submit_starknet_transaction
  send_transaction-IsArray [] = Yields-ret _ _ tt
  send_transaction-IsArray (b ∷ bs) = Yields-after _ _ _ λ transaction. Yields-after _ _ _ λ signer.
      Yields-after _ _ _
        λ sender. Yields-after _ _ _ λ hash. Yields-ret _ _ (felt_to_bytes_be-IsArray hash)

module _ ⦃crates : Crates⦄ where
  vec_of-length :
      {A : Type 0} (size : ℕ) (a : A) (n : ℕ)
      → Ends {E = EthApiError} (λ xs. length xs ≡ n) (vec_of size a n)
  unfolding vec_of
  vec_of-length size a n = elim (Bool-cases (ltb (n * size) (2 ^ 63))) [
    | inl fits ↦ rw fits (length-replicate n a)
    | inr large ↦ rw large tt
  ]

  pub fee_history-IsHistory :
      (count : U256) (newest : BlockNumberOrTag) → Yields IsHistory (fee_history count newest)
  unfolding fee_history
  fee_history-IsHistory count newest =
      Yields-bind (λ fees. length fees ≡ block_count_usize count + 1) _ _
        (Yields-ret _ _ (vec_of-length 32 _ _))
        λ fees f. Yields-after _ _ _ λ n.
          Yields-bind (λ ratios. length ratios ≡ block_count_usize count) _ _
            (Yields-ret _ _ (vec_of-length 8 _ _)) λ ratios r. Yields-ret _ _ (omega (arith, f, r))
