-- ===== src/Models/Felt.antt =====
-- crates/core/src/models/felt.rs: the conversions between field elements and Ethereum words.
pub mod RoundTrip
use kakarot_rpc_adapter.Prelude.{ℕ, ◌≡◌, Option, none, some, slice_from, if◌then◌else◌}
use kakarot_rpc_adapter.Types.{FieldElement, H160, H256, U64, U256}
use kakarot_rpc_adapter.Errors.{Felt252WrapperError, from_byte_array_error}
use kakarot_rpc_adapter.Outcome.{Outcome, ok, err, ok_or, unwrap, ◌>>=◌}
use kakarot_rpc_adapter.Crates.{Crates}

pub record Felt252Wrapper : Type 0 where
  pub felt : FieldElement

-- From<FieldElement>, and From<Felt252Wrapper> for FieldElement.
abbrev pub from_felt : FieldElement → Felt252Wrapper
from_felt felt = record { felt = felt }

abbrev pub to_felt : Felt252Wrapper → FieldElement
to_felt felt = felt.felt

module _ ⦃crates : Crates⦄ {E : Type 0} where
  open crates use {
    felt_from_uint, felt_from_byte_slice_be, felt_from_bytes_be, felt_to_bytes_be, from_slice,
    u256_to_be_bytes, u256_from_be_bytes,
  }

  -- From<H160>
  unfoldable pub from_h160 : H160 → Outcome E Felt252Wrapper
  from_h160 h160 = do felt ← unwrap (felt_from_byte_slice_be h160); ok (from_felt felt)

  -- From<Felt252Wrapper> for H160
  unfoldable pub to_h160 : Felt252Wrapper → Outcome E H160
  to_h160 felt = do
    bytes ← unwrap (slice_from (felt_to_bytes_be (to_felt felt)) 12)
    unwrap (from_slice 20 bytes)

  -- From<Felt252Wrapper> for H256
  unfoldable pub to_h256 : Felt252Wrapper → Outcome E H256
  to_h256 felt = unwrap (from_slice 32 (felt_to_bytes_be (to_felt felt)))

module _ ⦃crates : Crates⦄ where
  open crates use {
    felt_from_uint, felt_from_bytes_be, felt_to_bytes_be, u256_to_be_bytes, u256_from_be_bytes,
  }

  -- From<u64>
  unfoldable pub from_u64 : U64 → Felt252Wrapper
  from_u64 n = from_felt (felt_from_uint n)

  -- TryFrom<H256>
  unfoldable pub try_from_h256 : H256 → Outcome Felt252WrapperError Felt252Wrapper
  try_from_h256 h256 = do
    felt ← ok_or from_byte_array_error (felt_from_bytes_be h256)
    ok (from_felt felt)

  -- TryFrom<U256>
  unfoldable pub try_from_u256 : U256 → Outcome Felt252WrapperError Felt252Wrapper
  try_from_u256 u256 = do
    felt ← ok_or from_byte_array_error (felt_from_bytes_be (u256_to_be_bytes u256))
    ok (from_felt felt)

  -- From<Felt252Wrapper> for U256
  unfoldable pub to_u256 : Felt252Wrapper → U256
  to_u256 felt = u256_from_be_bytes (felt_to_bytes_be (to_felt felt))
