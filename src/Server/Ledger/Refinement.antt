-- ===== src/Server/Ledger/Refinement.antt =====
-- The JSON-RPC methods that ask for an account show the ledger that the node holds:
-- crates/eth-rpc/src/eth_rpc.rs over crates/core/src/client/mod.rs.
use kakarot_rpc_adapter.Prelude.{
  ℕ, ◌/◌, ◌%◌, ◌^◌, arith, ◌≡◌, refl, ap, List, [], ◌∷◌, ◌++◌, All, flat_map, some,
}
use kakarot_rpc_adapter.Prelude.Bytes.{be_bytes}
use kakarot_rpc_adapter.Types.{FieldElement, IsFelt, IsArray}
use kakarot_rpc_adapter.Outcome.{ok}
use kakarot_rpc_adapter.Crates.{Crates}
use kakarot_rpc_adapter.Starknet
use kakarot_rpc_adapter.Eth.{BlockId}
use kakarot_rpc_adapter.Async.{◌>>=◌}
use kakarot_rpc_adapter.Async.Run.{run, run-map_error}
use kakarot_rpc_adapter.Async.Interleaving.{Node, steady}
use kakarot_rpc_adapter.Client.Helpers.{ethers_block_id_to_starknet_block_id, vec_felt_to_bytes}
use kakarot_rpc_adapter.Client.Contracts.{KakarotClient}
use kakarot_rpc_adapter.Client.Contracts.Answers.{get_code_lem}
use kakarot_rpc_adapter.Client.Contracts.Amounts.{nonce_lem, balance_lem}
use kakarot_rpc_adapter.Rpc
use kakarot_rpc_adapter.Rpc.EthCall.{call_lem}
use kakarot_rpc_adapter.Server.{JsonTypes, serve}
use kakarot_rpc_adapter.Server.Ledger.{
  Ledger, Query, balance, transaction_count, code, call, of_account, show, answer, Represents,
}

module _ ⦃crates : Crates⦄ where
  open crates use {felt_to_bytes_be_lem}

  vec_felt_to_bytes_lem :
      (xs : List FieldElement) → All IsFelt xs → vec_felt_to_bytes xs ≡ flat_map (be_bytes 32) xs
  unfolding vec_felt_to_bytes flat_map
  vec_felt_to_bytes_lem [] h = refl
  vec_felt_to_bytes_lem (x ∷ xs) (hx, h) =
      rw (felt_to_bytes_be_lem x hx) (ap (λ bs. be_bytes 32 x ++ bs) (vec_felt_to_bytes_lem xs h))

module _ ⦃crates : Crates⦄ (types : JsonTypes) (client : KakarotClient) (block : BlockId)
    (id : Starknet.BlockId) (converts : ethers_block_id_to_starknet_block_id block ≡ ok id)
    (node : Node) (ledger : Ledger) (represents : Represents client id node ledger) where
  -- At a block whose id converts, over a node that represents a ledger of accounts there: the
  -- server answers every query for the balance, the transaction count or the code of an account
  -- of 20 bytes, and every call to one, by what the ledger shows: of a balance, which the native
  -- token answers as a Uint256, the low 128 bits, and of code 32 bytes for each field element
  -- that the contract keeps.
  pub answer-show :
      (q : Query) (n : ℕ)
      → IsArray 20 (of_account q)
      → (run (answer types client block q) (steady node) n).0 ≡ ok (show ledger q)
  unfolding answer serve Rpc.balance Rpc.transaction_count Rpc.get_code Rpc.starknet_block
      Rpc.or_latest
  answer-show (balance a) n size = rw converts (
      unfold ◌>>=◌ in
      rw
        (
          run-map_error,
          balance_lem client id a (steady node) n (represents.contract a) [] represents.native_token
              ((ledger.account a).balance % 2 ^ 128) ((ledger.account a).balance / 2 ^ 128 ∷ [])
              size (omega arith) represents.native_token_parses (represents.contract_told a size)
              (represents.balance_told a size),
        )
        refl)
  answer-show (transaction_count a) n size = rw converts (
      unfold ◌>>=◌ in
      rw
        (
          run-map_error,
          nonce_lem client id a (steady node) n (represents.contract a) [] (ledger.account a).nonce
              size (represents.nonce-IsFelt a size) (represents.contract_told a size)
              (represents.nonce_told a size),
        )
        refl)
  answer-show (code a) n size =
      (unfold ◌>>=◌ in
        rw converts (
          rw
            (
              run-map_error,
              get_code_lem client id a (steady node) n (represents.contract a)
                  (ledger.account a).code size (represents.contract_told a size)
                  (represents.code_told a size),
            )
            (ap ok
              (vec_felt_to_bytes_lem (ledger.account a).code (represents.code-IsFelt a size)))))
  answer-show (call a calldata) n size =
      ap (λ p. p.0)
        (call_lem client a calldata (ledger.returns a calldata) (some block) id
          (represents.rest a calldata) (steady node) n converts size
          (represents.returns-IsBytes a calldata size) (represents.length-IsFelt a calldata size)
          (represents.call_told a calldata size))
