-- ===== src/Client/Chain.antt =====
-- The chain's state and fees in crates/core/src/client/mod.rs.
pub mod Fees
pub mod Counts
use kakarot_rpc_adapter.Prelude.{
  ℕ, zero, suc, ◌+◌, ◌-◌, ◌*◌, ◌^◌, Bool, true, false, ◌&&◌, List, [], ◌∷◌, Option, none, some, leb,
  ltb, ◌==◌, if◌then◌else◌, replicate,
}
use kakarot_rpc_adapter.Types.{U64, U256}
use kakarot_rpc_adapter.Errors.{EthApiError}
use kakarot_rpc_adapter.Crates.{Crates}
use kakarot_rpc_adapter.Starknet
use kakarot_rpc_adapter.Starknet.{SyncStatusType}
use kakarot_rpc_adapter.Eth
use kakarot_rpc_adapter.Eth.{SyncStatus, BlockNumberOrTag, FeeHistory}
use kakarot_rpc_adapter.Outcome.{Outcome, ok, panic}
use kakarot_rpc_adapter.Async.{Async, Request, ask, pure, lift, crash, ◌>>=◌}
use kakarot_rpc_adapter.Client.Constants

unfoldable pub block_number : Async EthApiError U64
block_number = ask Request.block_number

unfoldable pub sync_status : SyncStatusType → SyncStatus
sync_status SyncStatusType.not_syncing = SyncStatus.none
sync_status (SyncStatusType.syncing status) = SyncStatus.info (record {
  starting_block = status.starting_block_num;
  current_block = status.current_block_num;
  highest_block = status.highest_block_num;
  warp_chunks_amount = none;
  warp_chunks_processed = none;
})

unfoldable pub syncing : Async EthApiError SyncStatus
unfolding sync_status
syncing = do status ← ask Request.syncing; pure (sync_status status)

unfoldable pub base_fee_per_gas : U256
base_fee_per_gas = Constants.base_fee_per_gas

-- A digit of base 16, in ASCII.
unfoldable pub hex_digit : ℕ → Option ℕ
hex_digit c =
    if leb b'0' c && leb c b'9'
    then some (c - b'0')
    else if leb b'a' c && leb c b'f'
    then some (c - b'a' + 10)
    else if leb b'A' c && leb c b'F'
    then some (c - b'A' + 10)
    else none

-- One more digit behind what was read; `none` on a character that is no digit, and on overflow of
-- a usize of 64 bits.
unfoldable pub push_digit : ℕ → Option ℕ → Option ℕ
push_digit acc none = none
push_digit acc (some d) = if ltb (acc * 16 + d) (2 ^ 64) then some (acc * 16 + d) else none

unfoldable pub hex_loop : Option ℕ → List ℕ → Option ℕ
hex_loop acc [] = acc
hex_loop none (c ∷ cs) = none
hex_loop (some acc) (c ∷ cs) = hex_loop (push_digit acc (hex_digit c)) cs

-- `usize::from_str_radix(_, 16)`: at least one digit, behind a `+` that may stand in front.
unfoldable pub usize_from_hex : List ℕ → Option ℕ
usize_from_hex [] = none
usize_from_hex (c ∷ []) = hex_loop (some 0) (c ∷ [])
usize_from_hex (c ∷ d ∷ cs) =
    if c == b'+' then hex_loop (some 0) (d ∷ cs) else hex_loop (some 0) (c ∷ d ∷ cs)

-- `unwrap_or(1)`
unfoldable pub one_if_none : Option ℕ → ℕ
one_if_none none = 1
one_if_none (some n) = n

-- `vec![value; n]` of values of a size in bytes: more bytes than an isize of 64 bits counts are a
-- panic, capacity overflow.
unfoldable pub vec_of : {E A : Type 0} → ℕ → A → ℕ → Outcome E (List A)
vec_of size value n = if ltb (n * size) (2 ^ 63) then ok (replicate n value) else panic

unfoldable pub newest_block_number : BlockNumberOrTag → Async EthApiError U64
newest_block_number (BlockNumberOrTag.number n) = pure n
newest_block_number BlockNumberOrTag.earliest = pure 1
newest_block_number _ = block_number

module _ ⦃crates : Crates⦄ where
  open crates use {u256_to_string, u256_sub}

  -- The count of blocks, as the length of the lists.
  unfoldable pub block_count_usize : U256 → ℕ
  block_count_usize block_count = one_if_none (usize_from_hex (u256_to_string block_count))

  -- The ratio 0.9 is nine tenths. The reward percentiles are not read. A text of decimal digits
  -- is read to less than the largest usize, so the sum does not wrap.
  unfoldable pub fee_history : U256 → BlockNumberOrTag → Async EthApiError FeeHistory
  fee_history block_count newest_block = do
    base_fee_per_gas ← lift (vec_of 32 base_fee_per_gas (block_count_usize block_count + 1))
    newest_block ← newest_block_number newest_block
    gas_used_ratio ← lift (vec_of 8 9 (block_count_usize block_count))
    pure (record {
      base_fee_per_gas = base_fee_per_gas;
      gas_used_ratio = gas_used_ratio;
      oldest_block = u256_sub newest_block block_count;
      reward = none;
    })

-- `todo!()`
unfoldable pub estimate_gas : Eth.CallRequest → Option Eth.BlockId → Async EthApiError U256
estimate_gas _ _ = crash
