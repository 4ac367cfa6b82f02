-- ===== src/Server/Ledger.antt =====
-- What the JSON-RPC methods that ask for an account promise, apart from how the node is asked: the
-- ledger of Ethereum accounts that they show. crates/eth-rpc/src/eth_rpc.rs over
-- crates/core/src/client/mod.rs.
pub mod Refinement
use kakarot_rpc_adapter.Prelude.{
  ℕ, suc, ◌/◌, ◌%◌, ◌^◌, ◌≡◌, refl, ap, ◌∙◌, List, [], ◌∷◌, ◌++◌, All, flat_map, Option, some, inr,
  length,
}
use kakarot_rpc_adapter.Prelude.Bytes.{IsBytes, be_bytes}
use kakarot_rpc_adapter.Types.{FieldElement, IsFelt, Bytes, H160, U256, IsArray}
use kakarot_rpc_adapter.Errors.Codes.{ErrorObject}
use kakarot_rpc_adapter.Outcome.{ok}
use kakarot_rpc_adapter.Crates.{Crates}
use kakarot_rpc_adapter.Starknet
use kakarot_rpc_adapter.Eth.{BlockId}
use kakarot_rpc_adapter.Async.{Async, Request, ◌>>=◌}
use kakarot_rpc_adapter.Async.Run.{run, run-map_error}
use kakarot_rpc_adapter.Async.Interleaving.{Node, steady}
use kakarot_rpc_adapter.Client.Constants
use kakarot_rpc_adapter.Client.Helpers.{ethers_block_id_to_starknet_block_id, vec_felt_to_bytes}
use kakarot_rpc_adapter.Client.Contracts.{KakarotClient}
use kakarot_rpc_adapter.Client.Contracts.Answers.{
  address_request, bytecode_request, view_request, get_code_lem,
}
use kakarot_rpc_adapter.Client.Contracts.Amounts.{balance_request, nonce_lem, balance_lem}
use kakarot_rpc_adapter.Client.Provider.{kakarot_provider}
use kakarot_rpc_adapter.Rpc
use kakarot_rpc_adapter.Rpc.EthCall.{call_lem}
use kakarot_rpc_adapter.Server
use kakarot_rpc_adapter.Server.{Method, JsonTypes, serve}

-- The code is what the contract of the account keeps of it, in field elements.
pub record Account : Type 0 where
  pub balance : U256
  pub nonce : U256
  pub code : List FieldElement

-- The accounts, and what a contract returns for a calldata.
pub record Ledger : Type 0 where
  pub account : H160 → Account
  pub returns : H160 → Bytes → Bytes

pub data Query : Type 0 where
  balance transaction_count code : H160 → Query
  call : H160 → Bytes → Query

abbrev pub Shown : Query → Type 0
Shown (balance _) = U256
Shown (transaction_count _) = U256
Shown (code _) = Bytes
Shown (call _ _) = Bytes

abbrev pub of_account : Query → H160
of_account (balance address) = address
of_account (transaction_count address) = address
of_account (code address) = address
of_account (call address _) = address

-- The specification: of a balance its low 128 bits, and of code 32 bytes for each field element.
abbrev pub show : Ledger → (q : Query) → Shown q
show ledger (balance address) = (ledger.account address).balance % 2 ^ 128
show ledger (transaction_count address) = (ledger.account address).nonce
show ledger (code address) = flat_map (be_bytes 32) (ledger.account address).code
show ledger (call address calldata) = ledger.returns address calldata

module _ ⦃crates : Crates⦄ (types : JsonTypes) (client : KakarotClient) (block : BlockId) where
  -- The implementation: the server's method for each query, at a block.
  unfoldable pub answer : (q : Query) → Async ErrorObject (Shown q)
  answer (balance address) =
      serve types (kakarot_provider client) Method.balance (address, some block)
  answer (transaction_count address) =
      serve types (kakarot_provider client) Method.transaction_count (address, some block)
  answer (code address) =
      serve types (kakarot_provider client) Method.get_code (address, some block)
  answer (call address calldata) =
      serve types (kakarot_provider client) Method.call
        (record { to = some address; calldata = some calldata }, some block)

module _ ⦃crates : Crates⦄ (client : KakarotClient) (id : Starknet.BlockId) where
  open crates use {felt_from_hex_be}

  -- A node whose contracts hold a ledger, at a Starknet block: Kakarot knows the Starknet address of
  -- each account, the chain its nonce, the native token its balance as a Uint256, in a low and a high
  -- half, its contract its code, and Kakarot what a call returns.
  pub record Represents (node : Node) (ledger : Ledger) : Type 0 where
    pub native_token : FieldElement
    pub contract : H160 → FieldElement
    pub rest : H160 → Bytes → List FieldElement
    pub native_token_parses : felt_from_hex_be Constants.starknet_native_token ≡ some native_token
    pub contract_told :
        (a : H160) → IsArray 20 a → node (address_request client id a) ≡ inr (contract a ∷ [])
    pub nonce_told :
        (a : H160)
        → IsArray 20 a
        → node (Request.get_nonce id (contract a)) ≡ inr (ledger.account a).nonce
    pub nonce-IsFelt : (a : H160) → IsArray 20 a → IsFelt (ledger.account a).nonce
    pub balance_told :
        (a : H160)
        → IsArray 20 a
        → node (balance_request client id native_token (contract a))
          ≡ inr ((ledger.account a).balance % 2 ^ 128 ∷ (ledger.account a).balance / 2 ^ 128 ∷ [])
    pub code_told :
        (a : H160)
        → IsArray 20 a
        → node (bytecode_request client id (contract a)) ≡ inr (ledger.account a).code
    pub code-IsFelt : (a : H160) → IsArray 20 a → All IsFelt (ledger.account a).code
    pub call_told :
        (a : H160) (calldata : Bytes)
        → IsArray 20 a
        → node (view_request client id a calldata)
          ≡ inr (length (ledger.returns a calldata) ∷ ledger.returns a calldata ++ rest a calldata)
    pub returns-IsBytes :
        (a : H160) (calldata : Bytes) → IsArray 20 a → IsBytes (ledger.returns a calldata)
    pub length-IsFelt :
        (a : H160) (calldata : Bytes) → IsArray 20 a → IsFelt (length (ledger.returns a calldata))
