-- ===== src/Starknet.antt =====
-- The data of the Starknet JSON-RPC interface (crate starknet, core::types), with the fields that
-- the program reads.
use kakarot_rpc_adapter.Prelude.{List}
use kakarot_rpc_adapter.Types.{FieldElement, U64}

pub data BlockTag : Type 0 where
  latest pending : BlockTag

pub data BlockId : Type 0 where
  hash : FieldElement → BlockId
  number : U64 → BlockId
  tag : BlockTag → BlockId

pub record FunctionCall : Type 0 where
  pub contract_address : FieldElement
  pub entry_point_selector : FieldElement
  pub calldata : List FieldElement

-- starknet::accounts::Call
pub record Call : Type 0 where
  pub to : FieldElement
  pub selector : FieldElement
  pub calldata : List FieldElement

pub record Event : Type 0 where
  pub from_address : FieldElement
  pub keys : List FieldElement
  pub event_data : List FieldElement

pub record InvokeTransactionV0 : Type 0 where
  pub transaction_hash : FieldElement
  pub nonce : FieldElement
  pub contract_address : FieldElement
  pub calldata : List FieldElement

pub record InvokeTransactionV1 : Type 0 where
  pub transaction_hash : FieldElement
  pub nonce : FieldElement
  pub sender_address : FieldElement
  pub calldata : List FieldElement

pub data InvokeTransaction : Type 0 where
  v0 : InvokeTransactionV0 → InvokeTransaction
  v1 : InvokeTransactionV1 → InvokeTransaction

pub data Transaction : Type 0 where
  invoke : InvokeTransaction → Transaction
  l1_handler declare deploy deploy_account : Transaction

pub record BlockWithTxs : Type 0 where
  pub block_hash : FieldElement
  pub parent_hash : FieldElement
  pub block_number : U64
  pub timestamp : U64
  pub sequencer_address : FieldElement
  pub transactions : List Transaction

pub record PendingBlockWithTxs : Type 0 where
  pub parent_hash : FieldElement
  pub timestamp : U64
  pub sequencer_address : FieldElement
  pub transactions : List Transaction

pub data MaybePendingBlockWithTxs : Type 0 where
  block : BlockWithTxs → MaybePendingBlockWithTxs
  pending_block : PendingBlockWithTxs → MaybePendingBlockWithTxs

pub record BlockWithTxHashes : Type 0 where
  pub block_hash : FieldElement
  pub parent_hash : FieldElement
  pub block_number : U64
  pub timestamp : U64
  pub sequencer_address : FieldElement
  pub transactions : List FieldElement

pub record PendingBlockWithTxHashes : Type 0 where
  pub parent_hash : FieldElement
  pub timestamp : U64
  pub sequencer_address : FieldElement
  pub transactions : List FieldElement

pub data MaybePendingBlockWithTxHashes : Type 0 where
  block : BlockWithTxHashes → MaybePendingBlockWithTxHashes
  pending_block : PendingBlockWithTxHashes → MaybePendingBlockWithTxHashes

pub data TransactionStatus : Type 0 where
  pending accepted_on_l2 accepted_on_l1 rejected : TransactionStatus

pub record InvokeTransactionReceipt : Type 0 where
  pub transaction_hash : FieldElement
  pub status : TransactionStatus
  pub block_hash : FieldElement
  pub block_number : U64
  pub events : List Event

pub data TransactionReceipt : Type 0 where
  invoke : InvokeTransactionReceipt → TransactionReceipt
  l1_handler declare deploy deploy_account : TransactionReceipt

pub data MaybePendingTransactionReceipt : Type 0 where
  receipt : TransactionReceipt → MaybePendingTransactionReceipt
  pending_receipt : MaybePendingTransactionReceipt

pub record SyncData : Type 0 where
  pub starting_block_num : U64
  pub current_block_num : U64
  pub highest_block_num : U64

pub data SyncStatusType : Type 0 where
  not_syncing : SyncStatusType
  syncing : SyncData → SyncStatusType

pub record BroadcastedInvokeTransactionV1 : Type 0 where
  pub max_fee : FieldElement
  pub signature : List FieldElement
  pub nonce : FieldElement
  pub sender_address : FieldElement
  pub calldata : List FieldElement
