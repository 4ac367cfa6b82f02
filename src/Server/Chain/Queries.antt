-- ===== src/Server/Chain/Queries.antt =====
-- The specification of the JSON-RPC methods that ask for blocks and transactions: what they show of a
-- chain, and where they fail. crates/eth-rpc/src/eth_rpc.rs.
use kakarot_rpc_adapter.Prelude.{
  ℕ, ◌^◌, map, Option, none, some, Bool, false, ltb, if◌then◌else◌, length, get_elem?, drop,
}
use kakarot_rpc_adapter.Prelude.Bytes.{be_value}
use kakarot_rpc_adapter.Types.{FieldElement, prime, H160, H256, U64}
use kakarot_rpc_adapter.Errors.{
  EthApiError, conversion_error, block_not_found, no_blocks, transaction_hash_not_found,
  invalid_transaction_index, felt252_wrapper_conversion_error, from_byte_array_error,
}
use kakarot_rpc_adapter.Outcome.{Outcome, ok, err, map_ok, ok_or, ◌>>=◌}
use kakarot_rpc_adapter.Crates.{Crates}
use kakarot_rpc_adapter.Starknet
use kakarot_rpc_adapter.Eth
use kakarot_rpc_adapter.Eth.{BlockId, BlockNumberOrTag, BlockTransactions}
use kakarot_rpc_adapter.Client.Constants
use kakarot_rpc_adapter.Client.Constants.{chain_id, invalid_transaction_type}
use kakarot_rpc_adapter.Client.Helpers.{vec_felt_to_bytes}
use kakarot_rpc_adapter.Client.Contracts.{KakarotClient}
use kakarot_rpc_adapter.Server.Chain.{Block, Chain, find, locate, height}
use kakarot_rpc_adapter.Starknet.{
  Event, InvokeTransactionReceipt, MaybePendingTransactionReceipt, TransactionReceipt,
}
use kakarot_rpc_adapter.Client.Receipts.{status_code, key_pairs}
use kakarot_rpc_adapter.Server.Chain.Shown.{missing, invoked, show_block, show_transaction, listed}

-- A hash of 32 bytes as a field element.
abbrev pub felt_of_hash : H256 → Outcome EthApiError FieldElement
felt_of_hash h =
    if ltb (be_value h) prime
    then ok (be_value h)
    else err (conversion_error (felt252_wrapper_conversion_error from_byte_array_error))

abbrev pub starknet_id : BlockId → Outcome EthApiError Starknet.BlockId
starknet_id (BlockId.hash h) = map_ok Starknet.BlockId.hash (felt_of_hash h)
starknet_id (BlockId.number (BlockNumberOrTag.number n)) = ok (Starknet.BlockId.number n)
starknet_id (BlockId.number BlockNumberOrTag.earliest) = ok (Starknet.BlockId.number 0)
starknet_id (BlockId.number BlockNumberOrTag.pending) =
    ok (Starknet.BlockId.tag Starknet.BlockTag.pending)
starknet_id (BlockId.number _) = ok (Starknet.BlockId.tag Starknet.BlockTag.latest)

pub data Query : Type 0 where
  block : BlockId → Bool → Query
  transaction_count : BlockId → Query
  transaction_at : BlockId → ℕ → Query
  transaction : H256 → Query
  receipt : H256 → Query
  newest_number : Query

abbrev pub Shown : Query → Type 0
Shown (block _ _) = Option Eth.Block
Shown (transaction_count _) = U64
Shown (transaction_at _ _) = Option Eth.Transaction
Shown (transaction _) = Option Eth.Transaction
Shown (receipt _) = Option Eth.TransactionReceipt
Shown newest_number = U64

abbrev pub or_self : FieldElement → Option FieldElement → FieldElement
or_self contract none = contract
or_self contract (some address) = address

module _ ⦃crates : Crates⦄ (client : KakarotClient) (chain : Chain) where
  open crates use {felt_to_bytes_be}

  -- The last 20 bytes of the address that a contract answers, or of its own.
  abbrev pub address_of : FieldElement → H160
  address_of contract = drop 12 (felt_to_bytes_be (or_self contract (chain.evm_address contract)))

  abbrev pub show_log : Event → Eth.Log
  show_log event = record {
    address = address_of event.from_address;
    topics = map felt_to_bytes_be (key_pairs (2 ^ 128) event.keys);
    log_data = vec_felt_to_bytes event.event_data;
    block_hash = none;
    block_number = none;
    transaction_hash = none;
    transaction_index = none;
    log_index = none;
    removed = false;
  }

  abbrev pub receipt_of :
      InvokeTransactionReceipt → FieldElement → Eth.Transaction → Eth.TransactionReceipt
  receipt_of tr sender eth_tx = record {
    transaction_hash = some (felt_to_bytes_be tr.transaction_hash);
    transaction_index = none;
    block_hash = some (felt_to_bytes_be tr.block_hash);
    block_number = some tr.block_number;
    from = eth_tx.from;
    to = eth_tx.to;
    cumulative_gas_used = 1_000_000;
    gas_used = some 500_000;
    contract_address = some (address_of sender);
    logs = map show_log tr.events;
    state_root = none;
    logs_bloom = Constants.bloom_default;
    status_code = some (status_code tr.status);
    effective_gas_price = 1_000_000;
    transaction_type = 0;
  }

  -- The receipt of a transaction: none unless it is an invoke transaction in a final block, and the
  -- error of that transaction if it is not shown.
  abbrev pub show_receipt :
      MaybePendingTransactionReceipt
      → Starknet.Transaction
      → Outcome EthApiError (Option Eth.TransactionReceipt)
  show_receipt (MaybePendingTransactionReceipt.receipt (TransactionReceipt.invoke tr))
        (Starknet.Transaction.invoke tx) =
      map_ok (λ eth_tx. some (receipt_of tr (invoked tx).sender eth_tx))
        (show_transaction client chain none none (Starknet.Transaction.invoke tx))
  show_receipt r tx = ok none

  abbrev pub found : BlockId → Outcome EthApiError Block
  found id = do
    starknet_id ← starknet_id id
    ok_or (missing block_not_found) (find chain starknet_id)

  -- The specification.
  abbrev pub show : (q : Query) → Outcome EthApiError (Shown q)
  show (block id full) = do b ← found id; map_ok some (show_block client chain full b)
  show (transaction_count id) = do b ← found id; map_ok length (listed client chain b)
  show (transaction_at id index) = do
    b ← found id
    t ← ok_or (missing invalid_transaction_index) (get_elem? b.transactions index)
    map_ok some (show_transaction client chain b.place (some index) t.1)
  show (transaction h) = do
    hash ← felt_of_hash h
    t ← ok_or (missing transaction_hash_not_found) (locate chain hash)
    map_ok some (show_transaction client chain t.0.place none t.1)
  show (receipt h) = do
    hash ← felt_of_hash h
    t ← ok_or (missing transaction_hash_not_found) (locate chain hash)
    show_receipt (chain.receipt hash) t.1
  show newest_number = ok_or (missing no_blocks) (height chain.blocks)
