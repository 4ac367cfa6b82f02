-- ===== src/Tests/ReceiptTests.antt =====
-- Receipts, counts of transactions and the configuration at concrete inputs.
use kakarot_rpc_adapter.Prelude.{
  ◌+◌, ◌*◌, ◌^◌, ◌<◌, ◌≡◌, refl, [], ◌∷◌, map, some, none, inr, take, drop, arith,
}
use kakarot_rpc_adapter.Prelude.Bytes.{be_value, be_bytes, be_value-be_bytes}
use kakarot_rpc_adapter.Types.{prime}
use kakarot_rpc_adapter.Outcome.{ok, map_ok}
use kakarot_rpc_adapter.Starknet
use kakarot_rpc_adapter.Eth
use kakarot_rpc_adapter.Async
use kakarot_rpc_adapter.Async.{Request, ask}
use kakarot_rpc_adapter.Async.Run.{Script, run}
use kakarot_rpc_adapter.Async.Interleaving.{Node, steady, final, Steps-ended}
use kakarot_rpc_adapter.Models.Transaction.{from_transaction, latest_block}
use kakarot_rpc_adapter.Models.Transaction.Kakarot.{to_eth_transaction_lem}
use kakarot_rpc_adapter.Client.Constants
use kakarot_rpc_adapter.Client.Config.{Environment, StarknetConfig}
use kakarot_rpc_adapter.Client.Contracts.{get_evm_address}
use kakarot_rpc_adapter.Client.Helpers.{vec_felt_to_bytes}
use kakarot_rpc_adapter.Client.Transactions.{
  transaction_client, transactions_len, get_transaction_count_by_block,
}
use kakarot_rpc_adapter.Client.Transactions.AnyOrder.{kept}
use kakarot_rpc_adapter.Client.Transactions.Counted.{
  conversions_of, get_transaction_count_by_block-Steps,
}
use kakarot_rpc_adapter.Client.Receipts.{transaction_receipt}
use kakarot_rpc_adapter.Client.Receipts.Whole.{receipt_at, transaction_receipt_lem}
use kakarot_rpc_adapter.Tests.Invoke.{
  sender_of_invoke, hash_of_invoke, nonce_of_invoke, calldata_of_invoke, submitted_signature,
}
use kakarot_rpc_adapter.Tests.Sample.{sample, signed, node, client, submitted, invoke_tx}

abbrev set_env : Environment
set_env name = some "0x100000000000000000000000000000000"

abbrev config : StarknetConfig
config = record {
  starknet_rpc = "0x100000000000000000000000000000000";
  kakarot_address = 2 ^ 128;
  proxy_account_class_hash = 2 ^ 128;
}

abbrev pending_block : Starknet.MaybePendingBlockWithTxs
pending_block = Starknet.MaybePendingBlockWithTxs.pending_block (record {
  parent_hash = 1;
  timestamp = 2;
  sequencer_address = 3;
  transactions = invoke_tx ∷ Starknet.Transaction.declare ∷ [];
})

-- A node with a pending block.
abbrev block_node : Node
block_node (Request.get_block_with_txs _) = inr pending_block
block_node r = node (11 ∷ []) 0 r

get_transaction_count_by_block-Steps_example :
    (run (get_transaction_count_by_block client latest_block) (steady block_node) 0).0
    ≡ map_ok transactions_len (kept (map (final block_node) (conversions_of client pending_block)))
get_transaction_count_by_block-Steps_example =
    get_transaction_count_by_block-Steps client block_node latest_block pending_block
      (map (final block_node) (conversions_of client pending_block)) 0 refl
      (Steps-ended block_node (conversions_of client pending_block))

abbrev invoke_receipt : Starknet.InvokeTransactionReceipt
invoke_receipt = record {
  transaction_hash = 5;
  status = Starknet.TransactionStatus.accepted_on_l2;
  block_hash = 6;
  block_number = 7;
  events = record { from_address = 42; keys = 1 ∷ 2 ∷ []; event_data = 4 ∷ [] } ∷ [];
}

-- A node that knows the invoke transaction and its receipt.
abbrev receipt_node : Script
receipt_node n (Request.get_transaction_receipt _) = inr (
    Starknet.MaybePendingTransactionReceipt.receipt
      (Starknet.TransactionReceipt.invoke invoke_receipt))
receipt_node n (Request.get_transaction_by_hash _) = inr invoke_tx
receipt_node n r = node (11 ∷ []) n r

abbrev unplaced : Eth.Transaction
unplaced = record {
  hash = be_bytes 32 5;
  nonce = 9;
  block_hash = none;
  block_number = none;
  transaction_index = none;
  from = take 20 (drop 12 (be_bytes 32 11));
  to = none;
  value = 100;
  gas_price = none;
  gas = 100;
  max_fee_per_gas = none;
  max_priority_fee_per_gas = some Constants.max_priority_fee_per_gas;
  input = vec_felt_to_bytes submitted;
  signature = some (record { r = 5; s = 6; v = 1 + 35 + 2 * Constants.chain_id });
  chain_id = some Constants.chain_id;
  access_list = none;
  transaction_type = none;
}

from_of_receipt :
    run (get_evm_address client 42 latest_block) receipt_node 4
    ≡ (ok (take 20 (drop 12 (be_bytes 32 11))), 5)
unfolding run get_evm_address ask Async.◌>>=◌ be_bytes
from_of_receipt = refl

hash_in_range : be_value (be_bytes 32 5) < prime
hash_in_range = rw (be_value-be_bytes 32 5) (omega arith)

transaction_receipt_example :
    run (transaction_receipt client (be_bytes 32 5)) receipt_node 0
    ≡ (ok (some (receipt_at client receipt_node invoke_receipt 42 unplaced 2 5)), 6)
transaction_receipt_example =
    transaction_receipt_lem client receipt_node (be_bytes 32 5) invoke_receipt invoke_tx 42 unplaced
      0 5 (sample.felt_to_bytes_be-IsArray 5) hash_in_range refl refl sender_of_invoke
      (to_eth_transaction_lem (from_transaction invoke_tx) (transaction_client client) none none
        none receipt_node 3 42 5 9 submitted (take 20 (drop 12 (be_bytes 32 11))) signed.signature 5
        sender_of_invoke hash_of_invoke nonce_of_invoke calldata_of_invoke (omega arith) refl
        from_of_receipt submitted_signature)
