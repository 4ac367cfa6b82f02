-- ===== src/Errors.antt =====
-- The error types of crates/core/src/client/errors.rs, crates/core/src/models/mod.rs,
-- crates/core/src/models/felt.rs and crates/core/src/client/helpers.rs, the `From` conversions
-- between them that `?` inserts, and the errors of the Starknet provider crate that they wrap.

pub mod Codes
use kakarot_rpc_adapter.Prelude.{String}

-- starknet::core::types::StarknetError, the variants that errors.rs names.
pub data StarknetError : Type 0 where
  block_not_found class_hash_not_found contract_not_found no_blocks transaction_hash_not_found :
      StarknetError
  contract_error : StarknetError
  invalid_contract_class invalid_continuation_token invalid_transaction_index page_size_too_big :
      StarknetError
  too_many_keys_in_filter class_already_declared : StarknetError
  failed_to_receive_transaction : StarknetError

-- starknet::providers::ProviderError.
pub data ProviderError : Type 0 where
  starknet_error : StarknetError → ProviderError
  array_length_mismatch rate_limited : ProviderError
  other : String → ProviderError

-- helpers.rs
pub data DataDecodingError : Type 0 where
  signature_decoding_error : String → DataDecodingError

-- models/felt.rs
pub data Felt252WrapperError : Type 0 where
  from_byte_array_error : Felt252WrapperError

-- models/mod.rs
pub data ConversionError : Type 0 where
  transaction_conversion_error : String → ConversionError
  felt252_wrapper_conversion_error : Felt252WrapperError → ConversionError
  data_decoding_error : DataDecodingError → ConversionError

pub data EthApiError : Type 0 where
  request_error : ProviderError → EthApiError
  conversion_error : ConversionError → EthApiError
  data_decoding_error : DataDecodingError → EthApiError
  other_error : String → EthApiError

-- models/signature.rs
pub data StarknetSignatureError : Type 0 where
  missing_signature_params_error : String → StarknetSignatureError

-- From<Felt252WrapperError> for EthApiError
unfoldable pub eth_of_felt_error : Felt252WrapperError → EthApiError
eth_of_felt_error err = EthApiError.conversion_error (felt252_wrapper_conversion_error err)
