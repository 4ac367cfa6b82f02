-- ===== src/Server/Panics.antt =====
-- Methods of the server that never panic: crates/eth-rpc/src/eth_rpc.rs over
-- crates/core/src/client/mod.rs.
use kakarot_rpc_adapter.Prelude.{
  ℕ, ◌*◌, ◌^◌, ◌<◌, lt→ltb, arith, ◌≡◌, ◌≢◌, refl, false, Option, none, some,
}
use kakarot_rpc_adapter.Types.{U256, FieldElement, Bytes, H160, IsArray}
use kakarot_rpc_adapter.Errors.{EthApiError}
use kakarot_rpc_adapter.Errors.Codes.{to_error_object}
use kakarot_rpc_adapter.Crates.{Crates}
use kakarot_rpc_adapter.Eth.{BlockId, BlockNumberOrTag}
use kakarot_rpc_adapter.Async.{Request, lift, ◌>>=◌}
use kakarot_rpc_adapter.Async.Panics.{
  NeverPanics, NeverPanics-lift, NeverPanics-pure, NeverPanics-throw, NeverPanics-ask,
  NeverPanics-bind, NeverPanics-map_error, result_rules, map_err-IsResult,
}
use kakarot_rpc_adapter.Async.Yields.{Given}
use kakarot_rpc_adapter.Client.Chain
use kakarot_rpc_adapter.Client.Chain.Counts.{block_count_usize-lt}
use kakarot_rpc_adapter.Client.Constants
use kakarot_rpc_adapter.Client.Contracts.{KakarotClient}
use kakarot_rpc_adapter.Client.Helpers.{ethers_block_id_to_starknet_block_id}
use kakarot_rpc_adapter.Client.Panics.{
  ethers_block_id_to_starknet_block_id-IsResult, nonce-NeverPanics, balance-NeverPanics,
  get_code-NeverPanics, call_view-NeverPanics,
}
use kakarot_rpc_adapter.Client.Panics.Hashes.{hashes-NeverPanics}
use kakarot_rpc_adapter.Client.Provider.{kakarot_provider}
use kakarot_rpc_adapter.Rpc
use kakarot_rpc_adapter.Rpc.{starknet_block, or_latest}
use kakarot_rpc_adapter.Rpc.Unfinished
use kakarot_rpc_adapter.Server.{Method, JsonTypes, Params, serve}

-- The parameters for which the method is said not to panic.
abbrev pub IsSafe : (types : JsonTypes) (m : Method) → Params types m → Type 0
IsSafe types Method.block_number _ = Unit
IsSafe types Method.protocol_version _ = Unit
IsSafe types Method.syncing _ = Unit
IsSafe types Method.accounts _ = Unit
IsSafe types Method.chain_id _ = Unit
IsSafe types Method.block_by_hash (_, full) = full ≡ false
IsSafe types Method.block_by_number (_, full) = full ≡ false
IsSafe types Method.balance (a, _) = IsArray 20 a
IsSafe types Method.transaction_count (a, _) = IsArray 20 a
IsSafe types Method.get_code (a, b) = IsArray 20 a × (b ≢ none)
IsSafe types Method.call (request, _) = Given (IsArray 20) request.to
IsSafe types Method.estimate_gas _ = Unit
IsSafe types Method.gas_price _ = Unit
IsSafe types Method.fee_history (count, _, _) = count < 10 ^ 14
IsSafe types Method.max_priority_fee_per_gas _ = Unit
IsSafe types Method.is_mining _ = Unit
IsSafe types Method.hashrate _ = Unit
IsSafe types Method.get_work _ = Unit
IsSafe types _ _ = ⊥

module _ ⦃crates : Crates⦄ where
  starknet_block-NeverPanics : (b : BlockId) → NeverPanics (starknet_block b)
  unfolding starknet_block
  starknet_block-NeverPanics b = NeverPanics-lift _ (
      map_err-IsResult to_error_object (ethers_block_id_to_starknet_block_id b)
        (ethers_block_id_to_starknet_block_id-IsResult b))

  block_number-NeverPanics : NeverPanics Chain.block_number
  unfolding Chain.block_number
  block_number-NeverPanics = NeverPanics-ask Request.block_number

  vec_of-NeverPanics :
      {A : Type 0} (size : ℕ) (a : A) (n : ℕ)
      → n * size < 2 ^ 63
      → NeverPanics (lift {E = EthApiError} (Chain.vec_of size a n))
  unfolding Chain.vec_of
  vec_of-NeverPanics size a n h = rw (lt→ltb (n * size) (2 ^ 63) h) (NeverPanics-pure _)

  newest-NeverPanics : (n : BlockNumberOrTag) → NeverPanics (Chain.newest_block_number n)
  unfolding Chain.newest_block_number
  newest-NeverPanics BlockNumberOrTag.latest = block_number-NeverPanics
  newest-NeverPanics BlockNumberOrTag.finalized = block_number-NeverPanics
  newest-NeverPanics BlockNumberOrTag.safe = block_number-NeverPanics
  newest-NeverPanics BlockNumberOrTag.earliest = NeverPanics-pure 1
  newest-NeverPanics BlockNumberOrTag.pending = block_number-NeverPanics
  newest-NeverPanics (BlockNumberOrTag.number n) = NeverPanics-pure n

  fees-NeverPanics :
      (count : U256) (n : BlockNumberOrTag)
      → count < 10 ^ 14
      → NeverPanics (Chain.fee_history count n)
  unfolding Chain.fee_history
  fees-NeverPanics count n h =
      let read = block_count_usize-lt count h in
      NeverPanics-bind _ (vec_of-NeverPanics 32 _ _ (omega (arith, read))) λ fees.
        NeverPanics-bind _ (newest-NeverPanics n) λ newest.
          NeverPanics-bind _ (vec_of-NeverPanics 8 _ _ (omega (arith, read)))
            λ ratios. NeverPanics-pure _

module _ ⦃crates : Crates⦄ (client : KakarotClient) where
  count-NeverPanics :
      (a : H160) (b : Option BlockId)
      → IsArray 20 a
      → NeverPanics (Rpc.transaction_count (kakarot_provider client) a b)
  unfolding Rpc.transaction_count
  count-NeverPanics a none size = search (result_rules, nonce-NeverPanics client _ a size)
  count-NeverPanics a (some b) size =
      NeverPanics-bind _ (starknet_block-NeverPanics b)
        λ id. search (result_rules, nonce-NeverPanics client id a size)

  get_code_at :
      (a : H160) (b : Option BlockId)
      → IsArray 20 a × (b ≢ none)
      → NeverPanics (Rpc.get_code (kakarot_provider client) a b)
  unfolding Rpc.get_code
  get_code_at a none (size, given) = absurd (given refl)
  get_code_at a (some b) (size, given) = NeverPanics-bind _ (NeverPanics-pure b) λ b.
      NeverPanics-bind _ (starknet_block-NeverPanics b)
        λ id. search (result_rules, get_code-NeverPanics client id a size)

  call_to :
      (to : Option H160) (calldata : Option Bytes) (b : Option BlockId)
      → Given (IsArray 20) to
      → NeverPanics (Rpc.call (kakarot_provider client) (record { to = to; calldata = calldata }) b)
  unfolding Rpc.call ◌>>=◌
  call_to none calldata b size = NeverPanics-throw _
  call_to (some to) none b size = NeverPanics-throw _
  call_to (some to) (some calldata) b size =
      NeverPanics-bind _ (starknet_block-NeverPanics (or_latest b))
        λ id. search (result_rules, call_view-NeverPanics client id to size)

module _ ⦃crates : Crates⦄ (types : JsonTypes) (client : KakarotClient) (token : FieldElement)
    (parses : crates.felt_from_hex_be Constants.starknet_native_token ≡ some token) where
  -- Whatever the node replies, if the address of the native token parses, these methods end in a
  -- value or an error and never panic: the block number, syncing, accounts, versions, the fixed
  -- fees and estimates, the fee history of fewer than 10 ^ 14 blocks, those that are refused by
  -- name, the blocks with the hashes of their transactions, and balance, transaction count, code
  -- and call for an address of 20 bytes, the code at a block that is named.
  pub serve-NeverPanics :
      (m : Method) (ps : Params types m)
      → IsSafe types m ps
      → NeverPanics (serve types (kakarot_provider client) m ps)
  unfolding serve Rpc.balance
  serve-NeverPanics Method.block_number _ h =
      unfold Rpc.block_number in search (result_rules, block_number-NeverPanics)
  serve-NeverPanics Method.protocol_version _ h = unfold Rpc.protocol_version in NeverPanics-pure _
  serve-NeverPanics Method.syncing _ h = unfold Rpc.syncing Chain.syncing in search result_rules
  serve-NeverPanics Method.author _ h = absurd h
  serve-NeverPanics Method.accounts _ h = unfold Rpc.accounts in NeverPanics-pure _
  serve-NeverPanics Method.chain_id _ h = unfold Rpc.chain_id in NeverPanics-pure _
  serve-NeverPanics Method.block_by_hash (hash, full) h = rw h (
      unfold Rpc.block_by_hash in
      search (result_rules, starknet_block-NeverPanics, hashes-NeverPanics))
  serve-NeverPanics Method.block_by_number (n, full) h = rw h (
      unfold Rpc.block_by_number in
      search (result_rules, starknet_block-NeverPanics, hashes-NeverPanics))
  serve-NeverPanics Method.block_transaction_count_by_hash _ h = absurd h
  serve-NeverPanics Method.block_transaction_count_by_number _ h = absurd h
  serve-NeverPanics Method.block_uncles_count_by_hash _ h = absurd h
  serve-NeverPanics Method.block_uncles_count_by_number _ h = absurd h
  serve-NeverPanics Method.uncle_by_block_hash_and_index _ h = absurd h
  serve-NeverPanics Method.uncle_by_block_number_and_index _ h = absurd h
  serve-NeverPanics Method.transaction_by_hash _ h = absurd h
  serve-NeverPanics Method.transaction_by_block_hash_and_index _ h = absurd h
  serve-NeverPanics Method.transaction_by_block_number_and_index _ h = absurd h
  serve-NeverPanics Method.transaction_receipt _ h = absurd h
  serve-NeverPanics Method.balance (a, b) h =
      NeverPanics-bind _ (starknet_block-NeverPanics (or_latest b))
        λ id. search (result_rules, balance-NeverPanics client id a h token parses)
  serve-NeverPanics Method.storage_at _ h = absurd h
  serve-NeverPanics Method.transaction_count (a, b) h = count-NeverPanics client a b h
  serve-NeverPanics Method.get_code (a, b) h = get_code_at client a b h
  serve-NeverPanics Method.call (r, b) h = call_to client r.to r.calldata b h
  serve-NeverPanics Method.create_access_list _ h = absurd h
  serve-NeverPanics Method.estimate_gas _ h = unfold Rpc.estimate_gas in NeverPanics-pure _
  serve-NeverPanics Method.gas_price _ h = unfold Rpc.gas_price in NeverPanics-pure _
  serve-NeverPanics Method.fee_history (c, n, _) h =
      unfold Rpc.fee_history in NeverPanics-map_error _ (fees-NeverPanics c n h)
  serve-NeverPanics Method.max_priority_fee_per_gas _ h =
      unfold Rpc.max_priority_fee_per_gas in NeverPanics-pure _
  serve-NeverPanics Method.is_mining _ h =
      unfold Rpc.is_mining Rpc.unsupported in NeverPanics-throw _
  serve-NeverPanics Method.hashrate _ h = unfold Rpc.hashrate Rpc.unsupported in NeverPanics-throw _
  serve-NeverPanics Method.get_work _ h =
      unfold Unfinished.get_work Rpc.unsupported in NeverPanics-throw _
  serve-NeverPanics Method.submit_hashrate _ h = absurd h
  serve-NeverPanics Method.submit_work _ h = absurd h
  serve-NeverPanics Method.send_transaction _ h = absurd h
  serve-NeverPanics Method.send_raw_transaction _ h = absurd h
  serve-NeverPanics Method.sign _ h = absurd h
  serve-NeverPanics Method.sign_transaction _ h = absurd h
  serve-NeverPanics Method.sign_typed_data _ h = absurd h
  serve-NeverPanics Method.get_proof _ h = absurd h
