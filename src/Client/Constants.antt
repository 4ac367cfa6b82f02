-- ===== src/Client/Constants.antt =====
-- crates/core/src/client/constants.rs: the values that stand in for data not yet fetched.
use kakarot_rpc_adapter.Prelude.{Option, none, some, String, replicate}
use kakarot_rpc_adapter.Types.{FieldElement, H64, H256, U8, U64, U128, U256, Bloom}
use kakarot_rpc_adapter.Crates.{Crates}

abbrev pub chain_id : U64
chain_id = 1_263_227_476

abbrev pub starknet_native_token : String
starknet_native_token = "0x49d36570d4e46f48e99674bd3fcc84644ddd6b96f7c741b1562b82f9e004dc7"

module _ ⦃crates : Crates⦄ where
  open crates use {selector, felt_from_uint}

  abbrev pub bytecode_selector : FieldElement
  bytecode_selector = selector "bytecode"

  abbrev pub eth_call_selector : FieldElement
  eth_call_selector = selector "eth_call"

  abbrev pub eth_send_transaction_selector : FieldElement
  eth_send_transaction_selector = selector "eth_send_transaction"

  abbrev pub compute_starknet_address_selector : FieldElement
  compute_starknet_address_selector = selector "compute_starknet_address"

  abbrev pub get_evm_address_selector : FieldElement
  get_evm_address_selector = selector "get_evm_address"

  abbrev pub balance_of_selector : FieldElement
  balance_of_selector = selector "balanceOf"

  abbrev pub max_fee : FieldElement
  max_fee = felt_from_uint 100_000_000_000_000_000

abbrev pub base_fee_per_gas : U64
base_fee_per_gas = 1

abbrev pub max_priority_fee_per_gas : U128
max_priority_fee_per_gas = 0

abbrev pub invalid_transaction_type : String
invalid_transaction_type = "L1Handler, Declare, Deploy and DeployAccount transactions unsupported"

abbrev pub gas_limit : U256
gas_limit = 1_000_000

abbrev pub gas_used : U256
gas_used = 500_000

abbrev pub cumulative_gas_used : U256
cumulative_gas_used = 1_000_000

abbrev pub effective_gas_price : U128
effective_gas_price = 1_000_000

abbrev pub size : Option U256
size = some 1_000_000

abbrev pub estimate_gas : U256
estimate_gas = 100_000_000_000_000_000

abbrev pub transaction_type : U8
transaction_type = 0

abbrev pub h256_zero : H256
h256_zero = replicate 32 0

abbrev pub nonce : Option H64
nonce = some (replicate 8 0)

abbrev pub mix_hash : H256
mix_hash = h256_zero

abbrev pub difficulty : U256
difficulty = 0

abbrev pub total_difficulty : Option U256
total_difficulty = none

-- `Bloom::default()`
abbrev pub bloom_default : Bloom
bloom_default = replicate 256 0
