-- ===== src/Models/Balance.antt =====
-- crates/core/src/models/balance.rs.
use kakarot_rpc_adapter.Prelude.{String, List, Option}
use kakarot_rpc_adapter.Types.{H160, U256}

pub record TokenBalance : Type 0 where
  pub contract_address : H160
  pub token_balance : Option U256
  pub error : Option String

pub record TokenBalances : Type 0 where
  pub address : H160
  pub token_balances : List TokenBalance
