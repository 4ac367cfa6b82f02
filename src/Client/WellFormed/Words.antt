-- ===== src/Client/WellFormed/Words.antt =====
-- The widths that the conversions of crates/core/src/models/felt.rs and
-- crates/core/src/client/helpers.rs give.
use kakarot_rpc_adapter.Prelude.{
  ℕ, List, [], ◌∷◌, Option, none, some, flat_map, All-append, All-take, All-drop, arith, drop,
  slice, length-take, length-drop,
}
use kakarot_rpc_adapter.Prelude.Bytes.{IsByte, IsBytes, be_value-lt}
use kakarot_rpc_adapter.Types.{FieldElement, IsArray}
use kakarot_rpc_adapter.Errors.{EthApiError}
use kakarot_rpc_adapter.Outcome.{unwrap, ok_or}
use kakarot_rpc_adapter.Crates.{Crates}
use kakarot_rpc_adapter.Models.Felt.{Felt252Wrapper, to_felt, to_h256, to_u256}
use kakarot_rpc_adapter.Client.Helpers.{vec_felt_to_bytes, starknet_address_to_ethereum_address}
use kakarot_rpc_adapter.Async.Yields.{Ends, Ends-bind, Given}
use kakarot_rpc_adapter.Client.WellFormed.{IsWord}

pub unwrapped :
    {A : Type 0} (P : A → Type 0) (o : Option A) → Given P o → Ends {E = EthApiError} P (unwrap o)
unwrapped P none h = tt
unwrapped P (some a) h = h

module _ ⦃crates : Crates⦄ where
  open crates use {
    felt_to_bytes_be, from_slice, felt_to_bytes_be-IsArray, from_slice_lem, u256_from_be_bytes_lem,
  }

  pub h256_bytes :
      (a : FieldElement)
      → Ends {E = EthApiError} (IsArray 32) (unwrap (from_slice 32 (felt_to_bytes_be a)))
  h256_bytes a =
      rw (from_slice_lem 32 (felt_to_bytes_be a) (felt_to_bytes_be-IsArray a).0)
        (felt_to_bytes_be-IsArray a)

  pub to_h256-IsArray : (a : Felt252Wrapper) → Ends {E = EthApiError} (IsArray 32) (to_h256 a)
  unfolding to_h256
  to_h256-IsArray a = h256_bytes (to_felt a)

  pub to_u256-IsWord : (a : Felt252Wrapper) → IsWord (to_u256 a)
  unfolding to_u256
  to_u256-IsWord a =
      let (size, bytes) = felt_to_bytes_be-IsArray (to_felt a) in
      let value = u256_from_be_bytes_lem (felt_to_bytes_be (to_felt a)) (size, bytes) in
      let below = be_value-lt (felt_to_bytes_be (to_felt a)) bytes in rw value (rw size at below)

  pub vec_felt_to_bytes-IsBytes : (xs : List FieldElement) → IsBytes (vec_felt_to_bytes xs)
  unfolding vec_felt_to_bytes flat_map
  vec_felt_to_bytes-IsBytes [] = tt
  vec_felt_to_bytes-IsBytes (x ∷ xs) =
      All-append IsByte (felt_to_bytes_be x) (vec_felt_to_bytes xs) (felt_to_bytes_be-IsArray x).1
        (vec_felt_to_bytes-IsBytes xs)

  -- The last 20 of 32 bytes.
  pub last_20 : (bs : List ℕ) → IsArray 32 bs → Given (IsArray 20) (slice bs 12 32)
  last_20 bs (size, bytes) = rw size (
    length-take 20 (drop 12 bs) (rw (length-drop, size) (omega arith)),
    All-take IsByte 20 (drop 12 bs) (All-drop IsByte 12 bs bytes),
  )

  pub last_20_or :
      (e : EthApiError) (o : Option (List ℕ)) → Given (IsArray 20) o → Ends (IsArray 20) (ok_or e o)
  last_20_or e none h = tt
  last_20_or e (some bs) h = h

  pub from_slice_20 :
      (bs : List ℕ)
      → IsArray 20 bs
      → Ends {E = EthApiError} (IsArray 20) (unwrap (from_slice 20 bs))
  from_slice_20 bs h = rw (from_slice_lem 20 bs h.0) h

  pub sliced-IsArray :
      (a : FieldElement)
      → Ends {E = EthApiError} (IsArray 20) (starknet_address_to_ethereum_address a)
  unfolding starknet_address_to_ethereum_address
  sliced-IsArray a =
      Ends-bind (IsArray 20) (IsArray 20) (unwrap (slice (felt_to_bytes_be a) 12 32)) _
        (unwrapped _ (slice (felt_to_bytes_be a) 12 32)
          (last_20 (felt_to_bytes_be a) (felt_to_bytes_be-IsArray a)))
        from_slice_20
