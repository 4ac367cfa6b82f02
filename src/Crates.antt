-- ===== src/Crates.antt =====
-- The functions of third-party crates that the program calls: parameters of the model, each with
-- the documented behaviour that the program relies on. They reach every definition that uses
-- them as the instance argument `crates`.
use kakarot_rpc_adapter.Prelude.{
  ℕ, suc, ◌+◌, ◌-◌, ◌*◌, ◌/◌, ◌%◌, ◌^◌, ◌≤◌, ◌<◌, ◌≡◌, ◌≢◌, ◌⊎◌, Option, none, some, List, [], ◌∷◌,
  ◌++◌, String, codes, ltb, if◌then◌else◌, length,
}
use kakarot_rpc_adapter.Prelude.Bytes.{be_value, be_bytes, IsBytes}
use kakarot_rpc_adapter.Types.{
  FieldElement, prime, IsFelt, Bytes, H160, H256, U256, TransactionSigned, IsArray,
}
use kakarot_rpc_adapter.Errors.{ProviderError}

pub record Crates : Type 0 where
  -- starknet_core: FieldElement
  pub felt_add : FieldElement → FieldElement → FieldElement
  pub felt_mul : FieldElement → FieldElement → FieldElement
  pub felt_sub : FieldElement → FieldElement → FieldElement
  pub felt_max : FieldElement
  pub felt_from_uint : ℕ → FieldElement
  pub felt_from_bytes_be : Bytes → Option FieldElement
  pub felt_from_byte_slice_be : Bytes → Option FieldElement
  pub felt_from_hex_be : String → Option FieldElement
  pub felt_from_str : List ℕ → Option FieldElement
  pub felt_to_bytes_be : FieldElement → Bytes
  pub u8_try_from : FieldElement → Option ℕ
  pub u32_try_from : FieldElement → Option ℕ
  pub felt_add_lem : (a b : ℕ) → IsFelt a → IsFelt b → felt_add a b ≡ (a + b) % prime
  pub felt_mul_lem : (a b : ℕ) → IsFelt a → IsFelt b → felt_mul a b ≡ a * b % prime
  pub felt_sub_lem : (a b : ℕ) → IsFelt a → IsFelt b → felt_sub a b ≡ (a + prime - b) % prime
  pub felt_max_lem : felt_max ≡ prime - 1
  pub felt_from_uint_lem : (n : ℕ) → n < 2 ^ 64 → felt_from_uint n ≡ n
  pub felt_from_bytes_be_lem :
      (bs : Bytes)
      → IsArray 32 bs
      → felt_from_bytes_be bs ≡ (if ltb (be_value bs) prime then some (be_value bs) else none)
  pub felt_from_byte_slice_be_lem :
      (bs : Bytes) → IsBytes bs → length bs < 32 → felt_from_byte_slice_be bs ≡ some (be_value bs)
  pub felt_to_bytes_be-IsArray : (a : ℕ) → IsArray 32 (felt_to_bytes_be a)
  pub felt_to_bytes_be_lem : (a : ℕ) → IsFelt a → felt_to_bytes_be a ≡ be_bytes 32 a
  pub u8_try_from_lem : (a : ℕ) → IsFelt a → u8_try_from a ≡ (if ltb a 256 then some a else none)
  pub u32_try_from_lem :
      (a : ℕ) → IsFelt a → u32_try_from a ≡ (if ltb a (2 ^ 32) then some a else none)
  pub felt_from_hex_be_two_pow_128 :
      felt_from_hex_be "0x100000000000000000000000000000000" ≡ some (2 ^ 128)
  -- starknet: the `selector!` macro
  pub selector : String → FieldElement
  pub selector-IsFelt : (name : String) → IsFelt (selector name)
  -- fixed_hash: `from_slice` of an array type of that many bytes; `none` is its panic
  pub from_slice : ℕ → Bytes → Option Bytes
  pub from_slice_lem : (n : ℕ) (bs : Bytes) → length bs ≡ n → from_slice n bs ≡ some bs
  pub from_slice_panics : (n : ℕ) (bs : Bytes) → length bs ≢ n → from_slice n bs ≡ none
  -- the text of an H160, and the text of Bytes
  pub h160_to_string : H160 → List ℕ
  pub bytes_to_string : Bytes → List ℕ
  -- ruint: U256
  pub u256_from_be_bytes : Bytes → U256
  pub u256_to_be_bytes : U256 → Bytes
  pub u256_sub : U256 → U256 → U256
  pub u256_to_string : U256 → List ℕ
  pub u256_from_str_radix : List ℕ → ℕ → Option U256
  pub u256_from_be_bytes_lem : (bs : Bytes) → IsArray 32 bs → u256_from_be_bytes bs ≡ be_value bs
  pub u256_to_be_bytes-IsArray : (v : ℕ) → IsArray 32 (u256_to_be_bytes v)
  pub u256_to_be_bytes_lem : (v : ℕ) → v < 2 ^ 256 → u256_to_be_bytes v ≡ be_bytes 32 v
  pub u256_sub_lem : (a b : ℕ) → b ≤ a → a < 2 ^ 256 → u256_sub a b ≡ a - b
  -- decimal digits, in ASCII
  pub u256_to_string_digit : (n : ℕ) → n < 10 → u256_to_string n ≡ (48 + n) ∷ []
  pub u256_to_string_digits :
      (n : ℕ)
      → 10 ≤ n
      → n < 2 ^ 256
      → u256_to_string n ≡ u256_to_string (n / 10) ++ (48 + n % 10) ∷ []
  -- num_bigint: BigUint, whose values are the natural numbers; no byte leads that is not needed
  pub biguint_from_bytes_be : Bytes → ℕ
  pub biguint_to_bytes_be : ℕ → Bytes
  pub biguint_from_bytes_be_lem : (bs : Bytes) → IsBytes bs → biguint_from_bytes_be bs ≡ be_value bs
  pub be_value-biguint_to_bytes_be : (n : ℕ) → be_value (biguint_to_bytes_be n) ≡ n
  pub biguint_to_bytes_be-IsBytes : (n : ℕ) → IsBytes (biguint_to_bytes_be n)
  pub length-biguint_to_bytes_be :
      (n k : ℕ) → n < 256 ^ suc k → length (biguint_to_bytes_be n) ≤ suc k
  pub biguint_to_bytes_be_long : (n k : ℕ) → 256 ^ k ≤ n → k < length (biguint_to_bytes_be n)
  -- reth_rlp, reth_primitives
  pub transaction_decode : Bytes → String ⊎ TransactionSigned
  pub recover_signer : TransactionSigned → Option H160
  pub keccak256 : Bytes → H256
  pub keccak256-balance_of :
      keccak256 (codes "balanceOf(address)")
      ≡ be_bytes 32 0x70a08231b98ef4ca268c9cc3f6b4590e4bfec28280db06bb5d45e689f2a360be
  -- the text of a number out of range, and of a provider's error
  pub value_out_of_range : String
  pub from_byte_array_error_text : String
  pub provider_error_text : ProviderError → String
  -- jsonrpsee: the error codes, each the negation of this number
  pub internal_error_code : ℕ
  pub invalid_params_code : ℕ
  pub method_not_found_code : ℕ
  pub server_is_busy_code : ℕ
  pub unknown_error_code : ℕ
