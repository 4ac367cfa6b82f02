-- ===== src/Server/Answers.antt =====
-- What the answers of the JSON-RPC methods are like: crates/eth-rpc/src/eth_rpc.rs.
use kakarot_rpc_adapter.Prelude.{◌≡◌, refl, Option, none, some, [], arith}
use kakarot_rpc_adapter.Prelude.Bytes.{IsBytes}
use kakarot_rpc_adapter.Types.{H160, IsArray}
use kakarot_rpc_adapter.Errors.Codes.{to_error_object}
use kakarot_rpc_adapter.Crates.{Crates}
use kakarot_rpc_adapter.Eth.{BlockId}
use kakarot_rpc_adapter.Async.Yields.{
  Given, Yields, Yields-ret, Yields-bind, Yields-after, Yields-any, Yields-map_error,
}
use kakarot_rpc_adapter.Client.Chain
use kakarot_rpc_adapter.Client.Constants
use kakarot_rpc_adapter.Client.Contracts.{KakarotClient}
use kakarot_rpc_adapter.Client.Provider.{kakarot_provider}
use kakarot_rpc_adapter.Client.WellFormed.{IsWord, IsPlaced, IsBlock, IsReceipt}
use kakarot_rpc_adapter.Client.WellFormed.Accounts.{
  nonce-IsWord, balance-IsWord, get_code-IsBytes, send_transaction-IsArray, IsHistory,
  fee_history-IsHistory,
}
use kakarot_rpc_adapter.Client.WellFormed.Blocks.{get_eth_block_from_starknet_block-IsBlock}
use kakarot_rpc_adapter.Client.WellFormed.Receipts.{transaction_receipt-IsReceipt}
use kakarot_rpc_adapter.Client.WellFormed.Transactions.{
  transaction_by_hash-IsPlaced, transaction_by_index-IsPlaced,
}
use kakarot_rpc_adapter.Rpc
use kakarot_rpc_adapter.Rpc.Unfinished
use kakarot_rpc_adapter.Server.{Method, JsonTypes, Params, Response, serve}

-- What a method promises of its answer. A method that promises `⊥` never gives one.
abbrev pub IsAnswer : (types : JsonTypes) (m : Method) → Params types m → Response types m → Type 0
IsAnswer types Method.block_number _ r = Unit
IsAnswer types Method.protocol_version _ r = r ≡ 1
IsAnswer types Method.syncing _ r = Unit
IsAnswer types Method.author _ r = ⊥
IsAnswer types Method.accounts _ r = r ≡ []
IsAnswer types Method.chain_id _ r = r ≡ some Constants.chain_id
IsAnswer types Method.block_by_hash (_, full) r = Given (IsBlock full) r
IsAnswer types Method.block_by_number (_, full) r = Given (IsBlock full) r
IsAnswer types Method.block_transaction_count_by_hash _ r = Unit
IsAnswer types Method.block_transaction_count_by_number _ r = Unit
IsAnswer types Method.block_uncles_count_by_hash _ r = ⊥
IsAnswer types Method.block_uncles_count_by_number _ r = ⊥
IsAnswer types Method.uncle_by_block_hash_and_index _ r = ⊥
IsAnswer types Method.uncle_by_block_number_and_index _ r = ⊥
IsAnswer types Method.transaction_by_hash _ r = Given (IsPlaced none) r
IsAnswer types Method.transaction_by_block_hash_and_index (_, index) r =
    Given (IsPlaced (some index)) r
IsAnswer types Method.transaction_by_block_number_and_index (_, index) r =
    Given (IsPlaced (some index)) r
IsAnswer types Method.transaction_receipt _ r = Given IsReceipt r
IsAnswer types Method.balance _ r = IsWord r
IsAnswer types Method.storage_at _ r = ⊥
IsAnswer types Method.transaction_count _ r = IsWord r
IsAnswer types Method.get_code _ r = IsBytes r
IsAnswer types Method.call _ r = Unit
IsAnswer types Method.create_access_list _ r = ⊥
IsAnswer types Method.estimate_gas _ r = IsWord r
IsAnswer types Method.gas_price _ r = IsWord r
IsAnswer types Method.fee_history _ r = IsHistory r
IsAnswer types Method.max_priority_fee_per_gas _ r = Unit
IsAnswer types Method.is_mining _ r = ⊥
IsAnswer types Method.hashrate _ r = ⊥
IsAnswer types Method.get_work _ r = ⊥
IsAnswer types Method.submit_hashrate _ r = ⊥
IsAnswer types Method.submit_work _ r = ⊥
IsAnswer types Method.send_transaction _ r = ⊥
IsAnswer types Method.send_raw_transaction _ r = IsArray 32 r
IsAnswer types Method.sign _ r = ⊥
IsAnswer types Method.sign_transaction _ r = ⊥
IsAnswer types Method.sign_typed_data _ r = ⊥
IsAnswer types Method.get_proof _ r = ⊥

module _ ⦃crates : Crates⦄ (types : JsonTypes) (client : KakarotClient) where
  transaction_count-IsWord :
      (a : H160) (o : Option BlockId)
      → Yields IsWord (Rpc.transaction_count (kakarot_provider client) a o)
  unfolding Rpc.transaction_count
  transaction_count-IsWord a none = Yields-map_error _ to_error_object (nonce-IsWord client a _)
  transaction_count-IsWord a (some b) =
      Yields-after _ _ _ λ b. Yields-map_error _ to_error_object (nonce-IsWord client a b)

  -- Whatever the node replies, a value that a method of the server gives is what the method
  -- promises: the blocks, transactions and receipts are well formed, words lie below 2 ^ 256,
  -- code consists of bytes, hashes have 32 bytes, a fee history has one fee more than ratios,
  -- and a method that is refused or not written gives no value.
  pub serve-IsAnswer :
      (m : Method) (ps : Params types m)
      → Yields (IsAnswer types m ps) (serve types (kakarot_provider client) m ps)
  unfolding serve
  serve-IsAnswer Method.block_number _ = Yields-any _
  serve-IsAnswer Method.protocol_version _ = unfold Rpc.protocol_version in Yields-ret _ _ refl
  serve-IsAnswer Method.syncing _ = Yields-any _
  serve-IsAnswer Method.author _ = unfold Unfinished.author in Yields-ret _ _ tt
  serve-IsAnswer Method.accounts _ = unfold Rpc.accounts in Yields-ret _ _ refl
  serve-IsAnswer Method.chain_id _ = unfold Rpc.chain_id in Yields-ret _ _ refl
  serve-IsAnswer Method.block_by_hash (_, full) =
      unfold Rpc.block_by_hash in
      Yields-after _ _ _ λ b.
        Yields-bind (IsBlock full) _ _
          (Yields-map_error _ to_error_object
            (get_eth_block_from_starknet_block-IsBlock client b full))
          λ block h. Yields-ret _ _ h
  serve-IsAnswer Method.block_by_number (_, full) =
      unfold Rpc.block_by_number in
      Yields-after _ _ _ λ b.
        Yields-bind (IsBlock full) _ _
          (Yields-map_error _ to_error_object
            (get_eth_block_from_starknet_block-IsBlock client b full))
          λ block h. Yields-ret _ _ h
  serve-IsAnswer Method.block_transaction_count_by_hash _ = Yields-any _
  serve-IsAnswer Method.block_transaction_count_by_number _ = Yields-any _
  serve-IsAnswer Method.block_uncles_count_by_hash _ =
      unfold Unfinished.block_uncles_count_by_hash in Yields-ret _ _ tt
  serve-IsAnswer Method.block_uncles_count_by_number _ =
      unfold Unfinished.block_uncles_count_by_number in Yields-ret _ _ tt
  serve-IsAnswer Method.uncle_by_block_hash_and_index _ =
      unfold Unfinished.uncle_by_block_hash_and_index in Yields-ret _ _ tt
  serve-IsAnswer Method.uncle_by_block_number_and_index _ =
      unfold Unfinished.uncle_by_block_number_and_index in Yields-ret _ _ tt
  serve-IsAnswer Method.transaction_by_hash hash =
      unfold Rpc.transaction_by_hash in
      Yields-bind (IsPlaced none) _ _
        (Yields-map_error _ to_error_object (transaction_by_hash-IsPlaced client hash))
        λ tx h. Yields-ret _ _ h
  serve-IsAnswer Method.transaction_by_block_hash_and_index (_, index) =
      unfold Rpc.transaction_by_block_hash_and_index in
      Yields-after _ _ _ λ b.
        Yields-bind (IsPlaced (some index)) _ _
          (Yields-map_error _ to_error_object (transaction_by_index-IsPlaced client b index))
          λ tx h. Yields-ret _ _ h
  serve-IsAnswer Method.transaction_by_block_number_and_index (_, index) =
      unfold Rpc.transaction_by_block_number_and_index in
      Yields-after _ _ _ λ b.
        Yields-bind (IsPlaced (some index)) _ _
          (Yields-map_error _ to_error_object (transaction_by_index-IsPlaced client b index))
          λ tx h. Yields-ret _ _ h
  serve-IsAnswer Method.transaction_receipt hash =
      unfold Rpc.transaction_receipt in
      Yields-map_error _ to_error_object (transaction_receipt-IsReceipt client hash)
  serve-IsAnswer Method.balance (a, _) =
      unfold Rpc.balance in
      Yields-after _ _ _ λ b. Yields-map_error _ to_error_object (balance-IsWord client a b)
  serve-IsAnswer Method.storage_at _ = unfold Unfinished.storage_at in Yields-ret _ _ tt
  serve-IsAnswer Method.transaction_count (a, o) = transaction_count-IsWord a o
  serve-IsAnswer Method.get_code (a, _) =
      unfold Rpc.get_code in
      Yields-after _ _ _ λ c.
        Yields-after _ _ _ λ b. Yields-map_error _ to_error_object (get_code-IsBytes client a b)
  serve-IsAnswer Method.call _ = Yields-any _
  serve-IsAnswer Method.create_access_list _ =
      unfold Unfinished.create_access_list in Yields-ret _ _ tt
  serve-IsAnswer Method.estimate_gas _ = unfold Rpc.estimate_gas in Yields-ret _ _ (omega arith)
  serve-IsAnswer Method.gas_price _ =
      unfold Rpc.gas_price Chain.base_fee_per_gas in Yields-ret _ _ (omega arith)
  serve-IsAnswer Method.fee_history (count, newest, _) =
      unfold Rpc.fee_history in
      Yields-map_error _ to_error_object (fee_history-IsHistory count newest)
  serve-IsAnswer Method.max_priority_fee_per_gas _ = Yields-any _
  serve-IsAnswer Method.is_mining _ = unfold Rpc.is_mining Rpc.unsupported in Yields-ret _ _ tt
  serve-IsAnswer Method.hashrate _ = unfold Rpc.hashrate Rpc.unsupported in Yields-ret _ _ tt
  serve-IsAnswer Method.get_work _ = unfold Unfinished.get_work Rpc.unsupported in Yields-ret _ _ tt
  serve-IsAnswer Method.submit_hashrate _ = unfold Unfinished.submit_hashrate in Yields-ret _ _ tt
  serve-IsAnswer Method.submit_work _ = unfold Unfinished.submit_work in Yields-ret _ _ tt
  serve-IsAnswer Method.send_transaction _ = unfold Unfinished.send_transaction in Yields-ret _ _ tt
  serve-IsAnswer Method.send_raw_transaction bytes =
      unfold Rpc.send_raw_transaction in
      Yields-map_error _ to_error_object (send_transaction-IsArray client bytes)
  serve-IsAnswer Method.sign _ = unfold Unfinished.sign in Yields-ret _ _ tt
  serve-IsAnswer Method.sign_transaction _ = unfold Unfinished.sign_transaction in Yields-ret _ _ tt
  serve-IsAnswer Method.sign_typed_data _ = unfold Unfinished.sign_typed_data in Yields-ret _ _ tt
  serve-IsAnswer Method.get_proof _ = unfold Unfinished.get_proof in Yields-ret _ _ tt
