-- ===== src/Client/WellFormed/Transactions.antt =====
-- Every transaction and block that the client gives is well formed, whatever the node replies:
-- crates/core/src/models/{transaction,block}.rs and crates/core/src/client/mod.rs.
use mathlib.Core.Path.{subst}
use kakarot_rpc_adapter.Prelude.{
  ℕ, sym, true, not, List, [], ◌∷◌, All, filter_map, ◌⊎◌, inl, inr, Option, none, some, refl,
}
use kakarot_rpc_adapter.Types.{FieldElement, H256, U256, IsArray}
use kakarot_rpc_adapter.Errors.{EthApiError}
use kakarot_rpc_adapter.Crates.{Crates}
use kakarot_rpc_adapter.Starknet
use kakarot_rpc_adapter.Starknet.{
  MaybePendingBlockWithTxs, MaybePendingBlockWithTxHashes, MaybePendingTransactionReceipt,
}
use kakarot_rpc_adapter.Eth
use kakarot_rpc_adapter.Async.Yields.{
  Ends, Given, Right, Yields, Yields-weaken, Yields-ret, Yields-if, Yields-bind, Yields-after,
  Yields-join_all, map_ok-Ends,
}
use kakarot_rpc_adapter.Models.Felt.{from_felt, to_h256}
use kakarot_rpc_adapter.Models.Transaction.{StarknetTransaction, to_eth_transaction}
use kakarot_rpc_adapter.Client.Contracts.{KakarotClient, get_evm_address}
use kakarot_rpc_adapter.Client.Transactions.{
  transaction_client, ok_value, filter_starknet_into_eth_txs, place_of_receipt, transaction_by_hash,
  transaction_by_block_id_and_index,
}
use kakarot_rpc_adapter.Client.WellFormed.{IsTransaction, IsPlaced, AreTransactions}
use kakarot_rpc_adapter.Client.WellFormed.Words.{
  to_h256-IsArray, to_u256-IsWord, vec_felt_to_bytes-IsBytes, last_20, last_20_or,
}

module _ ⦃crates : Crates⦄ (client : KakarotClient) where
  open crates use {felt_to_bytes_be, felt_to_bytes_be-IsArray}

  pub get_evm_address-IsArray :
      (address : FieldElement) (block_id : Starknet.BlockId)
      → Yields (IsArray 20) (get_evm_address client address block_id)
  unfolding get_evm_address
  get_evm_address-IsArray address block_id = Yields-after (IsArray 20) _ _ λ felts.
      Yields-after (IsArray 20) _ _ λ evm_address.
        Yields-ret (IsArray 20) _
          (last_20_or _ _ (last_20 (felt_to_bytes_be evm_address) (felt_to_bytes_be-IsArray _)))

  pub to_eth_transaction-IsTransaction :
      (tx : StarknetTransaction) (hash : Option H256) (number index : Option U256)
      → Yields
          (IsTransaction hash number index)
          (to_eth_transaction tx (transaction_client client) hash number index)
  unfolding to_eth_transaction
  to_eth_transaction-IsTransaction tx hash number index = Yields-after _ _ _ λ kakarot.
      Yields-if _ (not kakarot) _ _ (Yields-ret _ _ tt) (
        Yields-after _ _ _ λ sender_address. Yields-after _ _ _ λ hash_felt.
          Yields-bind (IsArray 32) _ _ (Yields-ret _ _ (to_h256-IsArray hash_felt)) λ h hash_size.
            Yields-after _ _ _ λ nonce_felt.
              Yields-bind (IsArray 20) _ _ (get_evm_address-IsArray _ _) λ from from_size.
                Yields-after _ _ _ λ calldata. Yields-after _ _ _ λ signature.
                  Yields-ret _ _ (record {
                    hash = hash_size;
                    nonce = to_u256-IsWord nonce_felt;
                    from = from_size;
                    input = vec_felt_to_bytes-IsBytes calldata;
                    in_block = refl;
                    at_number = refl;
                    at_index = refl;
                    chain_id = refl;
                  }))

  kept :
      (hash : Option H256) (number : Option U256) (rs : List (EthApiError ⊎ Eth.Transaction))
      → All (Right (IsTransaction hash number none)) rs
      → All (IsTransaction hash number none) (filter_map ok_value rs)
  unfolding filter_map ok_value
  kept hash number [] h = tt
  kept hash number (inl e ∷ rs) (_, h) = kept hash number rs h
  kept hash number (inr tx ∷ rs) (htx, h) = (htx, kept hash number rs h)

  pub filter-AreTransactions :
      (txs : List Starknet.Transaction) (hash : Option H256) (number : Option U256)
      → Yields
          (AreTransactions true hash number)
          (filter_starknet_into_eth_txs client txs hash number)
  unfolding filter_starknet_into_eth_txs
  filter-AreTransactions txs hash number =
      Yields-bind (All (Right (IsTransaction hash number none))) _ _
        (Yields-join_all _ _ (λ tx. to_eth_transaction-IsTransaction _ hash number none) txs)
        λ rs h. Yields-ret _ _ (kept hash number rs h)

  -- The place of a transaction: its block's hash, if there is one, has 32 bytes.
  abbrev IsPlace : Option H256 × Option U256 → Type 0
  IsPlace p = Given (IsArray 32) p.0

  place_of_receipt-IsPlace :
      (r : MaybePendingTransactionReceipt) → Ends IsPlace (place_of_receipt r)
  unfolding place_of_receipt
  place_of_receipt-IsPlace
        (MaybePendingTransactionReceipt.receipt (Starknet.TransactionReceipt.invoke tr)) =
      map_ok-Ends (IsArray 32) IsPlace _ (to_h256 (from_felt tr.block_hash)) (to_h256-IsArray _)
        λ hash h. h
  place_of_receipt-IsPlace (MaybePendingTransactionReceipt.receipt _) = tt
  place_of_receipt-IsPlace MaybePendingTransactionReceipt.pending_receipt = tt

  -- A transaction that is placed by a hash of 32 bytes, or by none.
  placed :
      (hash : Option H256) (number index : Option U256)
      → Given (IsArray 32) hash
      → (tx : Eth.Transaction) → IsTransaction hash number index tx
      → IsPlaced index tx
  placed hash number index h tx t = (
    record {
      hash = t.hash;
      nonce = t.nonce;
      from = t.from;
      input = t.input;
      in_block = refl;
      at_number = refl;
      at_index = t.at_index;
      chain_id = t.chain_id;
    },
    subst (Given (IsArray 32)) (sym t.in_block) h,
  )

  to_eth_transaction-IsPlaced :
      (tx : StarknetTransaction) (hash : Option H256) (number index : Option U256)
      → Given (IsArray 32) hash
      → Yields
          (IsPlaced index)
          (to_eth_transaction tx (transaction_client client) hash number index)
  to_eth_transaction-IsPlaced tx hash number index h =
      Yields-weaken (IsTransaction hash number index) _ (placed hash number index h)
        (to_eth_transaction-IsTransaction tx hash number index)

  pub transaction_by_hash-IsPlaced :
      (hash : H256) → Yields (IsPlaced none) (transaction_by_hash client hash)
  unfolding transaction_by_hash
  transaction_by_hash-IsPlaced hash = Yields-after _ _ _ λ felt. Yields-after _ _ _ λ transaction.
      Yields-after _ _ _ λ receipt.
        Yields-bind IsPlace _ _ (Yields-ret _ _ (place_of_receipt-IsPlace receipt))
          λ place h. to_eth_transaction-IsPlaced _ _ _ none h

  pub transaction_by_index-IsPlaced :
      (block_id : Starknet.BlockId) (index : ℕ)
      → Yields (IsPlaced (some index)) (transaction_by_block_id_and_index client block_id index)
  unfolding transaction_by_block_id_and_index
  transaction_by_index-IsPlaced block_id index = Yields-after _ _ _ λ transaction.
      Yields-after _ _ _ λ hash. Yields-after _ _ _ λ receipt.
        Yields-bind IsPlace _ _ (Yields-ret _ _ (place_of_receipt-IsPlace receipt))
          λ place h. to_eth_transaction-IsPlaced _ _ _ (some index) h
