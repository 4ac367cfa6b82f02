-- ===== src/Tests/Sample.antt =====
-- Concrete third-party functions that behave as documented.
use kakarot_rpc_adapter.Prelude.{
  codes, ℕ, suc, ◌+◌, ◌-◌, ◌*◌, ◌%◌, ◌^◌, ◌≡◌, ◌≢◌, refl, Option, none, some, inl, inr, List, [],
  ◌∷◌, ltb, ◌==◌, ==_iff, true, if◌then◌else◌, length, arith,
}
use kakarot_rpc_adapter.Prelude.Bytes.{be_value, be_bytes, length-be_bytes, be_bytes-IsBytes}
use kakarot_rpc_adapter.Types.{prime, TransactionSigned}
use kakarot_rpc_adapter.Errors.{rate_limited}
use kakarot_rpc_adapter.Crates.{Crates}
use kakarot_rpc_adapter.Starknet
use kakarot_rpc_adapter.Eth
use kakarot_rpc_adapter.Async.{Request, pure}
use kakarot_rpc_adapter.Async.Run.{Script}
use kakarot_rpc_adapter.Client.Api.{TransactionClient, BlockClient}
use kakarot_rpc_adapter.Client.Contracts.{KakarotClient}
use kakarot_rpc_adapter.Server.{JsonTypes}
use kakarot_rpc_adapter.Tests.Digits.{
  decimal, decimal_one, decimal_more, minimal, be_value-minimal, minimal-IsBytes, length-minimal,
  minimal_long,
}

-- The address of which every byte is the given one.
abbrev pub address_of : ℕ → List ℕ
address_of b = b ∷ b ∷ b ∷ b ∷ b ∷ b ∷ b ∷ b ∷ b ∷ b ∷ b ∷ b ∷ b ∷ b ∷ b ∷ b ∷ b ∷ b ∷ b ∷ b ∷ []

abbrev pub signed : TransactionSigned
signed = record {
  signature = record { r = 5; s = 6; odd_y_parity = true };
  nonce = 9;
  contents = [];
}

abbrev pub exact : ℕ → List ℕ → Option (List ℕ)
exact n bs = if length bs == n then some bs else none

pub exact_lem : (n : ℕ) (bs : List ℕ) → length bs ≡ n → exact n bs ≡ some bs
exact_lem n bs h = rw ((==_iff (length bs) n).1 h)

pub exact_other : (n : ℕ) (bs : List ℕ) → length bs ≢ n → exact n bs ≡ none
exact_other n bs h = ground arith

-- A hash that is the right one of one text.
abbrev pub hash_of : List ℕ → List ℕ
hash_of bs = be_bytes 32 (
    if be_value bs == be_value (codes "balanceOf(address)")
    then 0x70a08231b98ef4ca268c9cc3f6b4590e4bfec28280db06bb5d45e689f2a360be
    else be_value bs)

pub hash_of-balance_of :
    hash_of (codes "balanceOf(address)")
    ≡ be_bytes 32 0x70a08231b98ef4ca268c9cc3f6b4590e4bfec28280db06bb5d45e689f2a360be
unfolding be_value
hash_of-balance_of = refl

instance abbrev pub sample : Crates
sample = record {
  felt_add = λ a b. (a + b) % prime;
  felt_mul = λ a b. a * b % prime;
  felt_sub = λ a b. (a + prime - b) % prime;
  felt_max = prime - 1;
  felt_from_uint = λ n. n;
  felt_from_bytes_be = λ bs. if ltb (be_value bs) prime then some (be_value bs) else none;
  felt_from_byte_slice_be = λ bs. some (be_value bs);
  felt_from_hex_be = λ _. some (2 ^ 128);
  felt_from_str = λ _. some 1;
  felt_to_bytes_be = be_bytes 32;
  u8_try_from = λ a. if ltb a 256 then some a else none;
  u32_try_from = λ a. if ltb a (2 ^ 32) then some a else none;
  felt_add_lem = λ a b ha hb. refl;
  felt_mul_lem = λ a b ha hb. refl;
  felt_sub_lem = λ a b ha hb. refl;
  felt_max_lem = refl;
  felt_from_uint_lem = λ n h. refl;
  felt_from_bytes_be_lem = λ bs h. refl;
  felt_from_byte_slice_be_lem = λ bs h k. refl;
  felt_to_bytes_be-IsArray = λ a. (length-be_bytes 32 a, be_bytes-IsBytes 32 a);
  felt_to_bytes_be_lem = λ a h. refl;
  u8_try_from_lem = λ a h. refl;
  u32_try_from_lem = λ a h. refl;
  felt_from_hex_be_two_pow_128 = refl;
  selector = λ _. 7;
  selector-IsFelt = λ _. omega arith;
  from_slice = exact;
  from_slice_lem = exact_lem;
  from_slice_panics = exact_other;
  h160_to_string = λ _. [];
  bytes_to_string = λ _. [];
  u256_from_be_bytes = be_value;
  u256_to_be_bytes = be_bytes 32;
  u256_sub = λ a b. a - b;
  u256_to_string = λ n. decimal (suc n) n;
  u256_from_str_radix = λ _ _. some 0;
  u256_from_be_bytes_lem = λ bs h. refl;
  u256_to_be_bytes-IsArray = λ v. (length-be_bytes 32 v, be_bytes-IsBytes 32 v);
  u256_to_be_bytes_lem = λ v h. refl;
  u256_sub_lem = λ a b h k. refl;
  u256_to_string_digit = λ n h. decimal_one n n h;
  u256_to_string_digits = λ n h k. decimal_more n h;
  biguint_from_bytes_be = be_value;
  biguint_to_bytes_be = λ n. minimal (suc n) n;
  biguint_from_bytes_be_lem = λ bs h. refl;
  be_value-biguint_to_bytes_be = λ n. be_value-minimal (suc n) n (omega arith);
  biguint_to_bytes_be-IsBytes = λ n. minimal-IsBytes (suc n) n;
  length-biguint_to_bytes_be = λ n k h. length-minimal (suc n) n k h;
  biguint_to_bytes_be_long = λ n k h. minimal_long (suc n) n k (omega arith) h;
  transaction_decode = λ _. inr signed;
  recover_signer = λ _. some (address_of 3);
  keccak256 = hash_of;
  keccak256-balance_of = hash_of-balance_of;
  value_out_of_range = "out of range";
  from_byte_array_error_text = "bytes out of range";
  provider_error_text = λ _. "provider error";
  internal_error_code = 32603;
  invalid_params_code = 32602;
  method_not_found_code = 32601;
  server_is_busy_code = 32009;
  unknown_error_code = 32001;
}

-- A node that answers every call of a contract by the same elements.
abbrev pub node : List ℕ → Script
node felts n (Request.call _ _) = inr felts
node felts n (Request.get_class_hash_at _ _) = inr 77
node felts n (Request.add_invoke_transaction _) = inr 55
node felts n (Request.get_block_with_tx_hashes _) = inl rate_limited
node felts n (Request.get_block_with_txs _) = inl rate_limited
node felts n (Request.get_transaction_by_block_id_and_index _ _) = inl rate_limited
node felts n (Request.get_transaction_by_hash _) = inl rate_limited
node felts n (Request.get_transaction_receipt _) = inl rate_limited
node felts n (Request.get_nonce _ _) = inr 4
node felts n Request.block_number = inl rate_limited
node felts n Request.syncing = inl rate_limited

-- A node that answers every request by an error.
abbrev pub broken : Script
broken n r = inl rate_limited

abbrev pub client : KakarotClient
client = record { kakarot_address = 100; proxy_account_class_hash = 77 }

abbrev pub tx_client : TransactionClient
tx_client = record {
  kakarot_address = 100;
  proxy_account_class_hash = 77;
  get_evm_address = λ _ _. pure (address_of 3);
  max_priority_fee_per_gas = 1;
}

abbrev pub block_client : BlockClient
block_client = record {
  transaction_client = tx_client;
  base_fee_per_gas = 1;
  filter_starknet_into_eth_txs = λ _ _ _. pure (Eth.BlockTransactions.full []);
}

-- The cells of a submitted transaction of the bytes 4, 2.
abbrev pub submitted : List ℕ
submitted = 1 ∷ 100 ∷ 7 ∷ 0 ∷ 2 ∷ 2 ∷ 4 ∷ 2 ∷ []

abbrev pub invoke_tx : Starknet.Transaction
invoke_tx = Starknet.Transaction.invoke (
    Starknet.InvokeTransaction.v1
      (record { transaction_hash = 5; nonce = 9; sender_address = 42; calldata = submitted }))

abbrev pub no_types : JsonTypes
no_types = record {
  AccessListWithGasUsed = Unit;
  TransactionRequest = Unit;
  Value = Unit;
  AccountProof = Unit;
  Work = Unit;
  F64 = Unit;
}
