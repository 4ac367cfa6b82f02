-- ===== src/Server/Names.antt =====
-- The names of the JSON-RPC methods: crates/eth-rpc/src/eth_api.rs and crates/eth-rpc/src/eth_rpc.rs.
use mathlib.Core.Path.{ap}
use mathlib.Core.Option.{some-injective}
use text.Mathlib.Text.{◌==◌}
use kakarot_rpc_adapter.Prelude.{
  ◌≡◌, refl, List, [], ◌∷◌, Option, none, some, String, if◌then◌else◌, sym, ◌∙◌,
}
use kakarot_rpc_adapter.Server.{Method, name}

-- The methods that `into_rpc` of EthApiServer registers, in the order of the trait.
abbrev pub registered : List Method
registered =
    Method.block_number ∷ Method.protocol_version ∷ Method.syncing ∷ Method.author ∷ Method.accounts
    ∷ Method.chain_id ∷ Method.block_by_hash ∷ Method.block_by_number
    ∷ Method.block_transaction_count_by_hash ∷ Method.block_transaction_count_by_number
    ∷ Method.block_uncles_count_by_hash ∷ Method.block_uncles_count_by_number
    ∷ Method.uncle_by_block_hash_and_index ∷ Method.uncle_by_block_number_and_index
    ∷ Method.transaction_by_hash ∷ Method.transaction_by_block_hash_and_index
    ∷ Method.transaction_by_block_number_and_index ∷ Method.transaction_receipt ∷ Method.balance
    ∷ Method.storage_at ∷ Method.transaction_count ∷ Method.get_code ∷ Method.call
    ∷ Method.create_access_list ∷ Method.estimate_gas ∷ Method.gas_price ∷ Method.fee_history
    ∷ Method.max_priority_fee_per_gas ∷ Method.is_mining ∷ Method.hashrate ∷ Method.get_work
    ∷ Method.submit_hashrate ∷ Method.submit_work ∷ Method.send_transaction
    ∷ Method.send_raw_transaction ∷ Method.sign ∷ Method.sign_transaction ∷ Method.sign_typed_data
    ∷ Method.get_proof ∷ []

-- The first of the methods that has a name.
unfoldable pub find_method : String → List Method → Option Method
unfolding name
find_method wanted [] = none
find_method wanted (m ∷ ms) =
    let rest = find_method wanted ms in if name m == wanted then some m else rest

-- Every method of the trait is registered, and is the first that is found under its name: no two
-- have the same.
pub find_method-name : (m : Method) → find_method (name m) registered ≡ some m
unfolding find_method name
find_method-name Method.block_number = refl
find_method-name Method.protocol_version = refl
find_method-name Method.syncing = refl
find_method-name Method.author = refl
find_method-name Method.accounts = refl
find_method-name Method.chain_id = refl
find_method-name Method.block_by_hash = refl
find_method-name Method.block_by_number = refl
find_method-name Method.block_transaction_count_by_hash = refl
find_method-name Method.block_transaction_count_by_number = refl
find_method-name Method.block_uncles_count_by_hash = refl
find_method-name Method.block_uncles_count_by_number = refl
find_method-name Method.uncle_by_block_hash_and_index = refl
find_method-name Method.uncle_by_block_number_and_index = refl
find_method-name Method.transaction_by_hash = refl
find_method-name Method.transaction_by_block_hash_and_index = refl
find_method-name Method.transaction_by_block_number_and_index = refl
find_method-name Method.transaction_receipt = refl
find_method-name Method.balance = refl
find_method-name Method.storage_at = refl
find_method-name Method.transaction_count = refl
find_method-name Method.get_code = refl
find_method-name Method.call = refl
find_method-name Method.create_access_list = refl
find_method-name Method.estimate_gas = refl
find_method-name Method.gas_price = refl
find_method-name Method.fee_history = refl
find_method-name Method.max_priority_fee_per_gas = refl
find_method-name Method.is_mining = refl
find_method-name Method.hashrate = refl
find_method-name Method.get_work = refl
find_method-name Method.submit_hashrate = refl
find_method-name Method.submit_work = refl
find_method-name Method.send_transaction = refl
find_method-name Method.send_raw_transaction = refl
find_method-name Method.sign = refl
find_method-name Method.sign_transaction = refl
find_method-name Method.sign_typed_data = refl
find_method-name Method.get_proof = refl

-- No two methods have the same name.
pub name-injective : (m n : Method) → name m ≡ name n → m ≡ n
name-injective m n h =
    some-injective m n
      (sym (find_method-name m) ∙ ap (λ t. find_method t registered) h ∙ find_method-name n)
