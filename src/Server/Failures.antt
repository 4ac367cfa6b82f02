-- ===== src/Server/Failures.antt =====
-- The errors of the JSON-RPC methods: crates/eth-rpc/src/eth_rpc.rs over
-- crates/core/src/client/errors.rs.
use kakarot_rpc_adapter.Prelude.{ℕ, ◌≡◌, refl, Option, none, some, String}
use kakarot_rpc_adapter.Prelude.Int.{ℤ, pos, neg}
use kakarot_rpc_adapter.Types.{H160}
use kakarot_rpc_adapter.Errors.{
  StarknetError, EthApiError, starknet_error, array_length_mismatch, rate_limited, other,
  request_error, conversion_error, other_error, block_not_found, class_hash_not_found,
  contract_not_found, no_blocks, transaction_hash_not_found, contract_error, invalid_contract_class,
  invalid_continuation_token, invalid_transaction_index, page_size_too_big, too_many_keys_in_filter,
  class_already_declared, failed_to_receive_transaction,
}
use kakarot_rpc_adapter.Errors.Codes.{
  ErrorObject, to_error_object, rpc_err, provider_code, starknet_code, to_i32,
}
use kakarot_rpc_adapter.Outcome.{err, unwrap, ok_or}
use kakarot_rpc_adapter.Crates.{Crates}
use kakarot_rpc_adapter.Eth
use kakarot_rpc_adapter.Async.{Async, pure, lift, ◌>>=◌}
use kakarot_rpc_adapter.Async.Run.{Script, run}
use kakarot_rpc_adapter.Async.Raises.{
  Raises, Raises-ret, Raises-ok_or, Raises-bind, Raises-map_error, Raises-run, map_err-Fails,
}
use kakarot_rpc_adapter.Client.Api.{KakarotProvider}
use kakarot_rpc_adapter.Rpc
use kakarot_rpc_adapter.Rpc.{asked, starknet_block, or_latest}
use kakarot_rpc_adapter.Rpc.Unfinished
use kakarot_rpc_adapter.Server.{Method, JsonTypes, Params, serve}

module _ ⦃crates : Crates⦄ where
  open crates use {
    internal_error_code, invalid_params_code, method_not_found_code, server_is_busy_code,
    unknown_error_code,
  }

  -- The codes of the errors of a request: those of Ethereum for an execution, an input, a resource
  -- and a transaction, and four of JSON-RPC.
  pub data IsRequestCode : ℤ → Type 0 where
    of_execution : IsRequestCode (pos 3)
    of_input : IsRequestCode (neg 32000)
    of_resource : IsRequestCode (neg 32001)
    of_transaction : IsRequestCode (neg 32003)
    of_internal : IsRequestCode (neg internal_error_code)
    of_params : IsRequestCode (neg invalid_params_code)
    of_busy : IsRequestCode (neg server_is_busy_code)
    of_unknown : IsRequestCode (neg unknown_error_code)

  -- The error objects of a method: a method that is refused by name has the code of a method that is
  -- not found, one that asks the client has the code of a request, and the others have no error.
  abbrev pub IsErrorOf : Method → ErrorObject → Type 0
  IsErrorOf Method.block_number o = IsRequestCode o.code
  IsErrorOf Method.syncing o = IsRequestCode o.code
  IsErrorOf Method.block_by_hash o = IsRequestCode o.code
  IsErrorOf Method.block_by_number o = IsRequestCode o.code
  IsErrorOf Method.block_transaction_count_by_hash o = IsRequestCode o.code
  IsErrorOf Method.block_transaction_count_by_number o = IsRequestCode o.code
  IsErrorOf Method.transaction_by_hash o = IsRequestCode o.code
  IsErrorOf Method.transaction_by_block_hash_and_index o = IsRequestCode o.code
  IsErrorOf Method.transaction_by_block_number_and_index o = IsRequestCode o.code
  IsErrorOf Method.transaction_receipt o = IsRequestCode o.code
  IsErrorOf Method.balance o = IsRequestCode o.code
  IsErrorOf Method.transaction_count o = IsRequestCode o.code
  IsErrorOf Method.get_code o = IsRequestCode o.code
  IsErrorOf Method.call o = IsRequestCode o.code
  IsErrorOf Method.fee_history o = IsRequestCode o.code
  IsErrorOf Method.send_raw_transaction o = IsRequestCode o.code
  IsErrorOf Method.is_mining o = o.code ≡ neg method_not_found_code
  IsErrorOf Method.hashrate o = o.code ≡ neg method_not_found_code
  IsErrorOf Method.get_work o = o.code ≡ neg method_not_found_code
  IsErrorOf _ o = ⊥

  starknet_code-IsRequestCode : (e : StarknetError) → IsRequestCode (to_i32 (starknet_code e))
  unfolding starknet_code to_i32
  starknet_code-IsRequestCode block_not_found = of_resource
  starknet_code-IsRequestCode class_hash_not_found = of_resource
  starknet_code-IsRequestCode contract_not_found = of_resource
  starknet_code-IsRequestCode no_blocks = of_resource
  starknet_code-IsRequestCode transaction_hash_not_found = of_resource
  starknet_code-IsRequestCode contract_error = of_execution
  starknet_code-IsRequestCode invalid_contract_class = of_input
  starknet_code-IsRequestCode invalid_continuation_token = of_input
  starknet_code-IsRequestCode invalid_transaction_index = of_input
  starknet_code-IsRequestCode page_size_too_big = of_input
  starknet_code-IsRequestCode too_many_keys_in_filter = of_input
  starknet_code-IsRequestCode class_already_declared = of_input
  starknet_code-IsRequestCode failed_to_receive_transaction = of_transaction

  abbrev HasRequestCode : ErrorObject → Type 0
  HasRequestCode o = IsRequestCode o.code

  to_error_object-HasRequestCode : (e : EthApiError) → HasRequestCode (to_error_object e)
  unfolding to_error_object rpc_err provider_code
  to_error_object-HasRequestCode (request_error (starknet_error e)) = starknet_code-IsRequestCode e
  to_error_object-HasRequestCode (request_error array_length_mismatch) = of_params
  to_error_object-HasRequestCode (request_error rate_limited) = of_busy
  to_error_object-HasRequestCode (request_error (other e)) = of_unknown
  to_error_object-HasRequestCode (conversion_error e) = of_internal
  to_error_object-HasRequestCode (EthApiError.data_decoding_error e) = of_internal
  to_error_object-HasRequestCode (other_error e) = of_internal

  asked-Raises : {A : Type 0} (m : Async EthApiError A) → Raises HasRequestCode (asked m)
  asked-Raises m = Raises-map_error HasRequestCode to_error_object to_error_object-HasRequestCode m

  starknet_block-Raises : (id : Eth.BlockId) → Raises HasRequestCode (starknet_block id)
  unfolding starknet_block
  starknet_block-Raises id =
      Raises-ret HasRequestCode _
        (map_err-Fails HasRequestCode to_error_object to_error_object-HasRequestCode _)

  pure-Raises : {A : Type 0} (a : A) → Raises {E = ErrorObject} HasRequestCode (pure a)
  pure-Raises a = Raises-ret HasRequestCode _ tt

  bind-Raises :
      {A B : Type 0} {m : Async ErrorObject A} (f : A → Async ErrorObject B)
      → Raises HasRequestCode m
      → ((a : A) → Raises HasRequestCode (f a))
      → Raises HasRequestCode (m >>= f)
  bind-Raises = Raises-bind HasRequestCode

  required-Raises :
      {A : Type 0} (message : String) (o : Option A)
      → Raises HasRequestCode (lift (ok_or (rpc_err (neg internal_error_code) message) o))
  unfolding rpc_err
  required-Raises message o = Raises-ok_or HasRequestCode _ o of_internal

  unwrap-Raises :
      {A : Type 0} (o : Option A) → Raises {E = ErrorObject} HasRequestCode (lift (unwrap o))
  unwrap-Raises none = Raises-ret HasRequestCode _ tt
  unwrap-Raises (some a) = Raises-ret HasRequestCode _ tt

  ruleset raises_rules = (
    asked-Raises, starknet_block-Raises, pure-Raises, required-Raises, unwrap-Raises, bind-Raises,
  )

  count-Raises :
      (p : KakarotProvider) (a : H160) (b : Option Eth.BlockId)
      → Raises HasRequestCode (Rpc.transaction_count p a b)
  unfolding Rpc.transaction_count
  count-Raises p a none = asked-Raises _
  count-Raises p a (some b) = search (raises_rules)

module _ ⦃crates : Crates⦄ (types : JsonTypes) (p : KakarotProvider) where
  serve-Raises : (m : Method) (ps : Params types m) → Raises (IsErrorOf m) (serve types p m ps)
  unfolding serve
  serve-Raises Method.block_number _ = unfold Rpc.block_number in search raises_rules
  serve-Raises Method.syncing _ = unfold Rpc.syncing in search raises_rules
  serve-Raises Method.block_by_hash (a, b) = unfold Rpc.block_by_hash in search raises_rules
  serve-Raises Method.block_by_number (a, b) = unfold Rpc.block_by_number in search raises_rules
  serve-Raises Method.block_transaction_count_by_hash a =
      unfold Rpc.block_transaction_count_by_hash in search raises_rules
  serve-Raises Method.block_transaction_count_by_number a =
      unfold Rpc.block_transaction_count_by_number in search raises_rules
  serve-Raises Method.transaction_by_hash a = unfold Rpc.transaction_by_hash in search raises_rules
  serve-Raises Method.transaction_by_block_hash_and_index (a, b) =
      unfold Rpc.transaction_by_block_hash_and_index in search raises_rules
  serve-Raises Method.transaction_by_block_number_and_index (a, b) =
      unfold Rpc.transaction_by_block_number_and_index in search raises_rules
  serve-Raises Method.transaction_receipt a = unfold Rpc.transaction_receipt in search raises_rules
  serve-Raises Method.balance (a, b) = unfold Rpc.balance in search raises_rules
  serve-Raises Method.get_code (a, b) = unfold Rpc.get_code in search raises_rules
  serve-Raises Method.call (a, b) = unfold Rpc.call in search raises_rules
  serve-Raises Method.fee_history (a, b, c) = unfold Rpc.fee_history in search raises_rules
  serve-Raises Method.send_raw_transaction a =
      unfold Rpc.send_raw_transaction in search raises_rules
  serve-Raises Method.transaction_count (a, b) = count-Raises p a b
  serve-Raises Method.protocol_version _ = unfold Rpc.protocol_version in Raises-ret _ _ tt
  serve-Raises Method.accounts _ = unfold Rpc.accounts in Raises-ret _ _ tt
  serve-Raises Method.chain_id _ = unfold Rpc.chain_id in Raises-ret _ _ tt
  serve-Raises Method.estimate_gas _ = unfold Rpc.estimate_gas in Raises-ret _ _ tt
  serve-Raises Method.gas_price _ = unfold Rpc.gas_price in Raises-ret _ _ tt
  serve-Raises Method.max_priority_fee_per_gas _ =
      unfold Rpc.max_priority_fee_per_gas in Raises-ret _ _ tt
  serve-Raises Method.author _ = unfold Unfinished.author in Raises-ret _ _ tt
  serve-Raises Method.block_uncles_count_by_hash _ =
      unfold Unfinished.block_uncles_count_by_hash in Raises-ret _ _ tt
  serve-Raises Method.block_uncles_count_by_number _ =
      unfold Unfinished.block_uncles_count_by_number in Raises-ret _ _ tt
  serve-Raises Method.uncle_by_block_hash_and_index _ =
      unfold Unfinished.uncle_by_block_hash_and_index in Raises-ret _ _ tt
  serve-Raises Method.uncle_by_block_number_and_index _ =
      unfold Unfinished.uncle_by_block_number_and_index in Raises-ret _ _ tt
  serve-Raises Method.storage_at _ = unfold Unfinished.storage_at in Raises-ret _ _ tt
  serve-Raises Method.create_access_list _ =
      unfold Unfinished.create_access_list in Raises-ret _ _ tt
  serve-Raises Method.submit_hashrate _ = unfold Unfinished.submit_hashrate in Raises-ret _ _ tt
  serve-Raises Method.submit_work _ = unfold Unfinished.submit_work in Raises-ret _ _ tt
  serve-Raises Method.send_transaction _ = unfold Unfinished.send_transaction in Raises-ret _ _ tt
  serve-Raises Method.sign _ = unfold Unfinished.sign in Raises-ret _ _ tt
  serve-Raises Method.sign_transaction _ = unfold Unfinished.sign_transaction in Raises-ret _ _ tt
  serve-Raises Method.sign_typed_data _ = unfold Unfinished.sign_typed_data in Raises-ret _ _ tt
  serve-Raises Method.get_proof _ = unfold Unfinished.get_proof in Raises-ret _ _ tt
  serve-Raises Method.is_mining _ =
      unfold Rpc.is_mining Rpc.unsupported rpc_err in Raises-ret _ _ refl
  serve-Raises Method.hashrate _ =
      unfold Rpc.hashrate Rpc.unsupported rpc_err in Raises-ret _ _ refl
  serve-Raises Method.get_work _ =
      unfold Unfinished.get_work Rpc.unsupported rpc_err in Raises-ret _ _ refl

  -- Whatever the client does and the node replies, if a method of the server gives an error
  -- object, then either it is a method that is refused by name and the code is the one of a
  -- method that is not found, or it is a method that asks the client and the code is one of
  -- eight: those for an execution, an input, a resource and a transaction, and those of JSON-RPC
  -- for internal errors, parameters, a busy server and an unknown error. The methods that give a
  -- constant or are not written give no error.
  pub serve-IsErrorOf :
      (m : Method) (ps : Params types m) (s : Script) (n : ℕ) (e : ErrorObject)
      → (run (serve types p m ps) s n).0 ≡ err e
      → IsErrorOf m e
  serve-IsErrorOf m ps s n e failed =
      Raises-run (IsErrorOf m) (serve types p m ps) s n (serve-Raises m ps) failed
