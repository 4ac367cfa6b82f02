-- ===== src/Tests/ServerTests.antt =====
-- The server and its start at concrete inputs.
use kakarot_rpc_adapter.Prelude.{
  ℕ, ◌+◌, ◌/◌, ◌%◌, ◌^◌, ◌≡◌, refl, List, [], ◌∷◌, some, none, inl, inr, arith, true, ◌==◌,
  if◌then◌else◌, String,
}
use kakarot_rpc_adapter.Prelude.Bytes.{be_value, be_bytes, be_value-lt}
use kakarot_rpc_adapter.Types.{IsFelt, IsArray}
use kakarot_rpc_adapter.Errors.{request_error, rate_limited}
use kakarot_rpc_adapter.Errors.Codes.{to_error_object}
use kakarot_rpc_adapter.Outcome.{ok, err}
use kakarot_rpc_adapter.Eth.{BlockId, BlockNumberOrTag}
use kakarot_rpc_adapter.Async.{Request, ask, map_error}
use kakarot_rpc_adapter.Async.Interleaving.{Node, steady}
use kakarot_rpc_adapter.Async.Only.{ReadsOnly}
use kakarot_rpc_adapter.Async.Panics.{NeverPanics}
use kakarot_rpc_adapter.Async.Once.{SubmitsOnce}
use kakarot_rpc_adapter.Async.Run.{run}
use kakarot_rpc_adapter.Async.Yields.{Yields}
use kakarot_rpc_adapter.Models.Transaction.{latest_block}
use kakarot_rpc_adapter.Client.Helpers.{
  ethers_block_id_to_starknet_block_id, ethers_block_number_to_starknet_block_id,
}
use kakarot_rpc_adapter.Client.Chain
use kakarot_rpc_adapter.Client.Config.{Environment, from_env, get_env_var, hex_env_var}
use kakarot_rpc_adapter.Client.Provider.{kakarot_provider}
use kakarot_rpc_adapter.Rpc
use kakarot_rpc_adapter.Server.Failures.{IsErrorOf, serve-IsErrorOf}
use kakarot_rpc_adapter.Server.{Method, serve}
use kakarot_rpc_adapter.Server.ReadOnly.{serve-ReadsOnly}
use kakarot_rpc_adapter.Server.Panics.{serve-NeverPanics}
use kakarot_rpc_adapter.Server.Submissions.{serve-SubmitsOnce}
use kakarot_rpc_adapter.Server.Answers.{IsAnswer, serve-IsAnswer}
use kakarot_rpc_adapter.Server.Ledger.{Ledger, Query, answer, show, Represents}
use kakarot_rpc_adapter.Server.Ledger.Refinement.{answer-show}
use kakarot_rpc_adapter.Startup.{
  Host, main, run_server, new_client, rpc_config_from_env, new_rpc_config,
}
use kakarot_rpc_adapter.Client.Tokens.Refused.{out_of_range, token_balances_refused}
use kakarot_rpc_adapter.Tests.Sample.{no_types, sample, node, client, address_of}

-- A node that refuses every request.
abbrev refused : Node
refused r = inl rate_limited

serve-ReadsOnly_example :
    ReadsOnly (serve no_types (kakarot_provider client) Method.transaction_receipt (be_bytes 32 5))
serve-ReadsOnly_example =
    serve-ReadsOnly no_types client Method.transaction_receipt (be_bytes 32 5) cc

serve-SubmitsOnce_example :
    SubmitsOnce (serve no_types (kakarot_provider client) Method.send_raw_transaction (4 ∷ 2 ∷ []))
serve-SubmitsOnce_example =
    serve-SubmitsOnce no_types client Method.send_raw_transaction (4 ∷ 2 ∷ [])

unanswered :
    (run (serve no_types (kakarot_provider client) Method.block_number tt) (steady refused) 0).0
    ≡ err (to_error_object (request_error rate_limited))
unfolding serve Rpc.block_number Chain.block_number run ask map_error
unanswered = refl

serve-IsErrorOf_example :
    IsErrorOf Method.block_number (to_error_object (request_error rate_limited))
serve-IsErrorOf_example =
    serve-IsErrorOf no_types (kakarot_provider client) Method.block_number tt (steady refused) 0
      (to_error_object (request_error rate_limited)) unanswered

serve-IsAnswer_example :
    Yields (IsAnswer no_types Method.block_by_number (BlockNumberOrTag.latest, true)) (
      serve no_types
        (kakarot_provider client)
        Method.block_by_number
        (BlockNumberOrTag.latest, true))
serve-IsAnswer_example =
    serve-IsAnswer no_types client Method.block_by_number (BlockNumberOrTag.latest, true)

-- A ledger in which balance, nonce and code are made from the address.
abbrev ledger : Ledger
ledger = record {
  account = λ a. record {
    balance = 2 ^ 128 + be_value a;
    nonce = be_value a % 7;
    code = be_value a ∷ [];
  };
  returns = λ a calldata. 1 ∷ 2 ∷ [];
}

abbrev answer_call : ℕ → List ℕ → List ℕ
answer_call to [] = to ∷ []
answer_call to (x ∷ []) =
    if to == 100 then x ∷ [] else (2 ^ 128 + x) % 2 ^ 128 ∷ (2 ^ 128 + x) / 2 ^ 128 ∷ []
answer_call to (x ∷ y ∷ rest) = 2 ∷ 1 ∷ 2 ∷ []

-- The node with the contracts of that ledger.
abbrev ledger_node : Node
ledger_node (Request.get_nonce _ x) = inr (x % 7)
ledger_node (Request.call c _) = inr (answer_call c.contract_address c.calldata)
ledger_node r = node [] 0 r

address-IsFelt : (a : List ℕ) → IsArray 20 a → IsFelt (be_value a)
address-IsFelt a (size, bytes) = let below = be_value-lt a bytes in omega (arith, rw size at below)

ledger_held : Represents client latest_block ledger_node ledger
ledger_held = record {
  native_token = 2 ^ 128;
  contract = be_value;
  rest = λ a calldata. [];
  native_token_parses = refl;
  contract_told = λ a size. refl;
  nonce_told = λ a size. refl;
  nonce-IsFelt = λ a size. omega arith;
  balance_told = λ a size. refl;
  code_told = λ a size. refl;
  code-IsFelt = λ a size. (address-IsFelt a size, tt);
  call_told = λ a calldata size. refl;
  returns-IsBytes = λ a calldata size. (omega arith, (omega arith, tt));
  length-IsFelt = λ a calldata size. omega arith;
}

address_3-IsArray : IsArray 20 (address_of 3)
address_3-IsArray = (refl, ground arith)

latest_converts :
    ethers_block_id_to_starknet_block_id (BlockId.number BlockNumberOrTag.latest) ≡ ok latest_block
unfolding ethers_block_id_to_starknet_block_id ethers_block_number_to_starknet_block_id
latest_converts = refl

answer-show_example :
    (run
      (answer no_types client
        (BlockId.number BlockNumberOrTag.latest)
        (Query.balance (address_of 3)))
      (steady ledger_node)
      0).0
    ≡ ok (show ledger (Query.balance (address_of 3)))
answer-show_example =
    answer-show no_types client (BlockId.number BlockNumberOrTag.latest) latest_block
      latest_converts ledger_node ledger ledger_held (Query.balance (address_of 3)) 0
      address_3-IsArray

-- A host that starts every server.
abbrev host : Host no_types
host = record {
  Url = String;
  UrlError = Unit;
  SocketAddr = String;
  AddrParseError = Unit;
  HttpServer = String;
  ServerHandle = ℕ;
  JsonRpcError = Unit;
  FilterError = Unit;
  parse_url = λ text. inr text;
  parse_socket_addr = λ text. inr text;
  build = λ addr. inr addr;
  local_addr = λ server. inr server;
  start = λ server methods. inr 1;
  init_tracing = inr tt;
}

abbrev everywhere : Environment
everywhere variable = some "127.0.0.1:3030"

main_runs : main host everywhere ≡ ok ("127.0.0.1:3030", 1)
unfolding main run_server new_client rpc_config_from_env new_rpc_config from_env get_env_var
    hex_env_var
main_runs = refl

token_balances_refused_example :
    run
      (Rpc.token_balances
        (kakarot_provider client)
        (address_of 3)
        (address_of 4 ∷ address_of 5 ∷ []))
      (steady refused)
      0
    ≡ (err (to_error_object out_of_range), 0)
token_balances_refused_example =
    token_balances_refused client (address_of 3) (address_of 4 ∷ address_of 5 ∷ []) (steady refused)
      0

serve-NeverPanics_example :
    NeverPanics
      (serve no_types (kakarot_provider client) Method.transaction_count (address_of 3, none))
serve-NeverPanics_example =
    serve-NeverPanics no_types client (2 ^ 128) refl Method.transaction_count (address_of 3, none)
      address_3-IsArray
