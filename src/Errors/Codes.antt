-- ===== src/Errors/Codes.antt =====
-- The JSON-RPC error objects that errors become: crates/core/src/client/errors.rs.
use Prim.Native.String.{◌++◌}
use kakarot_rpc_adapter.Prelude.{String}
use kakarot_rpc_adapter.Prelude.Int.{ℤ, pos, neg}
use kakarot_rpc_adapter.Crates.{Crates}
use kakarot_rpc_adapter.Errors.{
  StarknetError, ProviderError, DataDecodingError, ConversionError, EthApiError,
  signature_decoding_error, from_byte_array_error, transaction_conversion_error,
  felt252_wrapper_conversion_error, starknet_error, array_length_mismatch, rate_limited, other,
  request_error, conversion_error, other_error, block_not_found, class_hash_not_found,
  contract_not_found, no_blocks, transaction_hash_not_found, contract_error, invalid_contract_class,
  invalid_continuation_token, invalid_transaction_index, page_size_too_big, too_many_keys_in_filter,
  class_already_declared, failed_to_receive_transaction,
}

-- The cast of an error code to i32 is its `to_i32`.
pub data EthRpcErrorCode : Type 0 where
  execution_error invalid_input resource_not_found transaction_rejected : EthRpcErrorCode

unfoldable pub to_i32 : EthRpcErrorCode → ℤ
to_i32 execution_error = pos 3
to_i32 invalid_input = neg 32000
to_i32 resource_not_found = neg 32001
to_i32 transaction_rejected = neg 32003

-- jsonrpsee::types::ErrorObject, with no data.
pub record ErrorObject : Type 0 where
  pub code : ℤ
  pub message : String

-- jsonrpsee::core::Error, the variant that errors.rs builds.
pub data JsonRpseeError : Type 0 where
  call : ErrorObject → JsonRpseeError

unfoldable pub rpc_err : ℤ → String → ErrorObject
rpc_err code message = record { code = code; message = message }

-- `to_string` of DataDecodingError.
unfoldable pub data_decoding_text : DataDecodingError → String
data_decoding_text (signature_decoding_error e) = "failed to decode signature " ++ e

-- The arm of `StarknetError` that an error matches.
unfoldable pub starknet_code : StarknetError → EthRpcErrorCode
starknet_code block_not_found = resource_not_found
starknet_code class_hash_not_found = resource_not_found
starknet_code contract_not_found = resource_not_found
starknet_code no_blocks = resource_not_found
starknet_code transaction_hash_not_found = resource_not_found
starknet_code contract_error = execution_error
starknet_code invalid_contract_class = invalid_input
starknet_code invalid_continuation_token = invalid_input
starknet_code invalid_transaction_index = invalid_input
starknet_code page_size_too_big = invalid_input
starknet_code too_many_keys_in_filter = invalid_input
starknet_code class_already_declared = invalid_input
starknet_code failed_to_receive_transaction = transaction_rejected

module _ ⦃crates : Crates⦄ where
  open crates use {
    provider_error_text, from_byte_array_error_text, internal_error_code, invalid_params_code,
    server_is_busy_code, unknown_error_code,
  }

  -- `to_string` of ConversionError: transparent but for its first variant.
  unfoldable pub conversion_text : ConversionError → String
  unfolding data_decoding_text
  conversion_text (transaction_conversion_error e) = "transaction conversion error: " ++ e
  conversion_text (felt252_wrapper_conversion_error from_byte_array_error) =
      from_byte_array_error_text
  conversion_text (ConversionError.data_decoding_error e) = data_decoding_text e

  -- `to_string` of EthApiError, which is transparent.
  unfoldable pub api_error_text : EthApiError → String
  unfolding conversion_text data_decoding_text
  api_error_text (request_error e) = provider_error_text e
  api_error_text (conversion_error e) = conversion_text e
  api_error_text (EthApiError.data_decoding_error e) = data_decoding_text e
  api_error_text (other_error e) = e

  unfoldable pub provider_code : ProviderError → ℤ
  unfolding starknet_code to_i32
  provider_code (starknet_error err) = to_i32 (starknet_code err)
  provider_code array_length_mismatch = neg invalid_params_code
  provider_code rate_limited = neg server_is_busy_code
  provider_code (other _) = neg unknown_error_code

  -- From<EthApiError> for ErrorObject.
  unfoldable pub to_error_object : EthApiError → ErrorObject
  unfolding provider_code rpc_err conversion_text data_decoding_text
  to_error_object (request_error err_provider) =
      rpc_err (provider_code err_provider) (provider_error_text err_provider)
  to_error_object (conversion_error err) = rpc_err (neg internal_error_code) (conversion_text err)
  to_error_object (EthApiError.data_decoding_error err) =
      rpc_err (neg internal_error_code) (data_decoding_text err)
  to_error_object (other_error err) = rpc_err (neg internal_error_code) err

  -- From<EthApiError> for jsonrpsee::core::Error.
  unfoldable pub to_jsonrpsee_error : EthApiError → JsonRpseeError
  to_jsonrpsee_error err = call (to_error_object err)
