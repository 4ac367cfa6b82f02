-- ===== src/Client/ReadOnly/Accounts.antt =====
-- Which requests the calls of contracts and the questions about accounts make:
-- crates/core/src/client/mod.rs.
use kakarot_rpc_adapter.Prelude.{◌⊎◌, inl, inr}
use kakarot_rpc_adapter.Types.{FieldElement, Bytes, H160}
use kakarot_rpc_adapter.Errors.{EthApiError}
use kakarot_rpc_adapter.Crates.{Crates}
use kakarot_rpc_adapter.Starknet
use kakarot_rpc_adapter.Starknet.{
  MaybePendingBlockWithTxs, MaybePendingBlockWithTxHashes, MaybePendingTransactionReceipt,
}
use kakarot_rpc_adapter.Async.Only.{
  ReadsOnly, ReadsOnly-join_all, ReadsOnly-ret, ReadsOnly-bind, ReadsOnly-ask, reads_rules,
}
use kakarot_rpc_adapter.Models.Transaction.{StarknetTransaction, is_kakarot_tx}
use kakarot_rpc_adapter.Client.Api.{TransactionClient}
use kakarot_rpc_adapter.Client.Contracts.{
  KakarotClient, compute_starknet_address, get_evm_address, or_sliced, safe_get_evm_address,
  get_code, call_view, nonce, balance,
}

module _ ⦃crates : Crates⦄ where
  pub compute_starknet_address-ReadsOnly :
      (client : KakarotClient) (address : H160) (block_id : Starknet.BlockId)
      → ReadsOnly (compute_starknet_address client address block_id)
  unfolding compute_starknet_address
  compute_starknet_address-ReadsOnly client address block_id = search reads_rules

  pub get_evm_address-ReadsOnly :
      (client : KakarotClient) (address : FieldElement) (block_id : Starknet.BlockId)
      → ReadsOnly (get_evm_address client address block_id)
  unfolding get_evm_address
  get_evm_address-ReadsOnly client address block_id = search reads_rules

  pub is_kakarot_tx-ReadsOnly :
      (tx : StarknetTransaction) (client : TransactionClient) → ReadsOnly (is_kakarot_tx tx client)
  unfolding is_kakarot_tx
  is_kakarot_tx-ReadsOnly tx client = search reads_rules

  pub ruleset address_rules = (
    reads_rules, compute_starknet_address-ReadsOnly, get_evm_address-ReadsOnly,
    is_kakarot_tx-ReadsOnly,
  )

  pub or_sliced-ReadsOnly :
      (address : FieldElement) (r : EthApiError ⊎ H160) → ReadsOnly (or_sliced address r)
  or_sliced-ReadsOnly address (inl e) = search reads_rules
  or_sliced-ReadsOnly address (inr a) = search reads_rules

  pub safe_get_evm_address-ReadsOnly :
      (client : KakarotClient) (address : FieldElement) (block_id : Starknet.BlockId)
      → ReadsOnly (safe_get_evm_address client address block_id)
  unfolding safe_get_evm_address
  safe_get_evm_address-ReadsOnly client address block_id =
      search (address_rules, or_sliced-ReadsOnly)

  pub get_code-ReadsOnly :
      (client : KakarotClient) (address : H160) (block_id : Starknet.BlockId)
      → ReadsOnly (get_code client address block_id)
  unfolding get_code
  get_code-ReadsOnly client address block_id = search reads_rules depth 12

  pub call_view-ReadsOnly :
      (client : KakarotClient) (address : H160) (calldata : Bytes) (block_id : Starknet.BlockId)
      → ReadsOnly (call_view client address calldata block_id)
  unfolding call_view
  call_view-ReadsOnly client address calldata block_id = search reads_rules depth 12

  pub nonce-ReadsOnly :
      (client : KakarotClient) (address : H160) (block_id : Starknet.BlockId)
      → ReadsOnly (nonce client address block_id)
  unfolding nonce
  nonce-ReadsOnly client address block_id = search address_rules

  pub balance-ReadsOnly :
      (client : KakarotClient) (address : H160) (block_id : Starknet.BlockId)
      → ReadsOnly (balance client address block_id)
  unfolding balance
  balance-ReadsOnly client address block_id = search address_rules depth 12
