-- ===== src/Server.antt =====
-- crates/eth-rpc/src/eth_api.rs: the trait EthApi as the methods that a server offers, with the names
-- that its attributes give them, and their parameters and results; and the server of
-- crates/eth-rpc/src/eth_rpc.rs, which answers a method over a client.
pub mod Names
pub mod ReadOnly
pub mod Submissions
pub mod Answers
pub mod Panics
pub mod Failures
pub mod Ledger
pub mod Chain
use kakarot_rpc_adapter.Prelude.{ℕ, Bool, List, Option, String}
use kakarot_rpc_adapter.Types.{Bytes, H64, H160, H256, U64, U128, U256}
use kakarot_rpc_adapter.Errors.Codes.{ErrorObject}
use kakarot_rpc_adapter.Crates.{Crates}
use kakarot_rpc_adapter.Eth
use kakarot_rpc_adapter.Eth.{BlockId, BlockNumberOrTag}
use kakarot_rpc_adapter.Async.{Async}
use kakarot_rpc_adapter.Client.Api.{KakarotProvider}
use kakarot_rpc_adapter.Rpc
use kakarot_rpc_adapter.Rpc.Unfinished

pub data Method : Type 0 where
  block_number protocol_version syncing author accounts chain_id block_by_hash block_by_number
        block_transaction_count_by_hash block_transaction_count_by_number block_uncles_count_by_hash
        block_uncles_count_by_number uncle_by_block_hash_and_index uncle_by_block_number_and_index
        transaction_by_hash transaction_by_block_hash_and_index
        transaction_by_block_number_and_index transaction_receipt balance storage_at
        transaction_count get_code call create_access_list estimate_gas gas_price fee_history
        max_priority_fee_per_gas is_mining hashrate get_work submit_hashrate submit_work
        send_transaction send_raw_transaction sign sign_transaction sign_typed_data get_proof :
      Method

-- `#[method(name = ...)]`
unfoldable pub name : Method → String
name block_number = "eth_blockNumber"
name protocol_version = "net_version"
name syncing = "eth_syncing"
name author = "eth_coinbase"
name accounts = "eth_accounts"
name chain_id = "eth_chainId"
name block_by_hash = "eth_getBlockByHash"
name block_by_number = "eth_getBlockByNumber"
name block_transaction_count_by_hash = "eth_getBlockTransactionCountByHash"
name block_transaction_count_by_number = "eth_getBlockTransactionCountByNumber"
name block_uncles_count_by_hash = "eth_getUncleCountByBlockHash"
name block_uncles_count_by_number = "eth_getUncleCountByBlockNumber"
name uncle_by_block_hash_and_index = "eth_getUncleByBlockHashAndIndex"
name uncle_by_block_number_and_index = "eth_getUncleByBlockNumberAndIndex"
name transaction_by_hash = "eth_getTransactionByHash"
name transaction_by_block_hash_and_index = "eth_getTransactionByBlockHashAndIndex"
name transaction_by_block_number_and_index = "eth_getTransactionByBlockNumberAndIndex"
name transaction_receipt = "eth_getTransactionReceipt"
name balance = "eth_getBalance"
name storage_at = "eth_getStorageAt"
name transaction_count = "eth_getTransactionCount"
name get_code = "eth_getCode"
name call = "eth_call"
name create_access_list = "eth_createAccessList"
name estimate_gas = "eth_estimateGas"
name gas_price = "eth_gasPrice"
name fee_history = "eth_feeHistory"
name max_priority_fee_per_gas = "eth_maxPriorityFeePerGas"
name is_mining = "eth_mining"
name hashrate = "eth_hashrate"
name get_work = "eth_getWork"
name submit_hashrate = "eth_submitHashrate"
name submit_work = "eth_submitWork"
name send_transaction = "eth_sendTransaction"
name send_raw_transaction = "eth_sendRawTransaction"
name sign = "eth_sign"
name sign_transaction = "eth_signTransaction"
name sign_typed_data = "eth_signTypedData"
name get_proof = "eth_getProof"

-- The types of the interface that no method that is written looks into.
pub record JsonTypes : Type 1 where
  pub AccessListWithGasUsed : Type 0
  pub TransactionRequest : Type 0
  pub Value : Type 0
  pub AccountProof : Type 0
  pub Work : Type 0
  pub F64 : Type 0

module _ (types : JsonTypes) where
  -- The parameters of a method, as one tuple.
  abbrev pub Params : Method → Type 0
  Params block_by_hash = H256 × Bool
  Params block_by_number = BlockNumberOrTag × Bool
  Params block_transaction_count_by_hash = H256
  Params block_transaction_count_by_number = BlockNumberOrTag
  Params block_uncles_count_by_hash = H256
  Params block_uncles_count_by_number = BlockNumberOrTag
  Params uncle_by_block_hash_and_index = H256 × ℕ
  Params uncle_by_block_number_and_index = BlockNumberOrTag × ℕ
  Params transaction_by_hash = H256
  Params transaction_by_block_hash_and_index = H256 × ℕ
  Params transaction_by_block_number_and_index = BlockNumberOrTag × ℕ
  Params transaction_receipt = H256
  Params balance = H160 × Option BlockId
  Params storage_at = H160 × U256 × Option BlockId
  Params transaction_count = H160 × Option BlockId
  Params get_code = H160 × Option BlockId
  Params call = Eth.CallRequest × Option BlockId
  Params create_access_list = Eth.CallRequest × Option BlockId
  Params estimate_gas = Eth.CallRequest × Option BlockId
  Params fee_history = U256 × BlockNumberOrTag × Option (List types.F64)
  Params submit_hashrate = U256 × H256
  Params submit_work = H64 × H256 × H256
  Params send_transaction = types.TransactionRequest
  Params send_raw_transaction = Bytes
  Params sign = H160 × Bytes
  Params sign_transaction = Eth.CallRequest
  Params sign_typed_data = H160 × types.Value
  Params get_proof = H160 × List H256 × Option BlockId
  Params _ = Unit

  abbrev pub Response : Method → Type 0
  Response block_number = U64
  Response protocol_version = U64
  Response syncing = Eth.SyncStatus
  Response author = H160
  Response accounts = List H160
  Response chain_id = Option U64
  Response block_by_hash = Option Eth.Block
  Response block_by_number = Option Eth.Block
  Response block_transaction_count_by_hash = U64
  Response block_transaction_count_by_number = U64
  Response block_uncles_count_by_hash = U256
  Response block_uncles_count_by_number = U256
  Response uncle_by_block_hash_and_index = Option Eth.Block
  Response uncle_by_block_number_and_index = Option Eth.Block
  Response transaction_by_hash = Option Eth.Transaction
  Response transaction_by_block_hash_and_index = Option Eth.Transaction
  Response transaction_by_block_number_and_index = Option Eth.Transaction
  Response transaction_receipt = Option Eth.TransactionReceipt
  Response balance = U256
  Response storage_at = H256
  Response transaction_count = U256
  Response get_code = Bytes
  Response call = Bytes
  Response create_access_list = types.AccessListWithGasUsed
  Response estimate_gas = U256
  Response gas_price = U256
  Response fee_history = Eth.FeeHistory
  Response max_priority_fee_per_gas = U128
  Response is_mining = Bool
  Response hashrate = U256
  Response get_work = types.Work
  Response submit_hashrate = Bool
  Response submit_work = Bool
  Response send_transaction = H256
  Response send_raw_transaction = H256
  Response sign = Bytes
  Response sign_transaction = Bytes
  Response sign_typed_data = Bytes
  Response get_proof = types.AccountProof

  module _ ⦃crates : Crates⦄ (kakarot_client : KakarotProvider) where
    unfoldable pub serve : (m : Method) → Params m → Async ErrorObject (Response m)
    serve block_number _ = Rpc.block_number kakarot_client
    serve protocol_version _ = Rpc.protocol_version
    serve syncing _ = Rpc.syncing kakarot_client
    serve author _ = Unfinished.author
    serve accounts _ = Rpc.accounts
    serve chain_id _ = Rpc.chain_id
    serve block_by_hash (a, b) = Rpc.block_by_hash kakarot_client a b
    serve block_by_number (a, b) = Rpc.block_by_number kakarot_client a b
    serve block_transaction_count_by_hash a = Rpc.block_transaction_count_by_hash kakarot_client a
    serve block_transaction_count_by_number a =
        Rpc.block_transaction_count_by_number kakarot_client a
    serve block_uncles_count_by_hash a = Unfinished.block_uncles_count_by_hash a
    serve block_uncles_count_by_number a = Unfinished.block_uncles_count_by_number a
    serve uncle_by_block_hash_and_index (a, b) = Unfinished.uncle_by_block_hash_and_index a b
    serve uncle_by_block_number_and_index (a, b) = Unfinished.uncle_by_block_number_and_index a b
    serve transaction_by_hash a = Rpc.transaction_by_hash kakarot_client a
    serve transaction_by_block_hash_and_index (a, b) =
        Rpc.transaction_by_block_hash_and_index kakarot_client a b
    serve transaction_by_block_number_and_index (a, b) =
        Rpc.transaction_by_block_number_and_index kakarot_client a b
    serve transaction_receipt a = Rpc.transaction_receipt kakarot_client a
    serve balance (a, b) = Rpc.balance kakarot_client a b
    serve storage_at (a, b, c) = Unfinished.storage_at a b c
    serve transaction_count (a, b) = Rpc.transaction_count kakarot_client a b
    serve get_code (a, b) = Rpc.get_code kakarot_client a b
    serve call (a, b) = Rpc.call kakarot_client a b
    serve create_access_list (a, b) =
        Unfinished.create_access_list types.AccessListWithGasUsed types.TransactionRequest
          types.Value types.AccountProof a b
    serve estimate_gas (a, b) = Rpc.estimate_gas a b
    serve gas_price _ = Rpc.gas_price kakarot_client
    serve fee_history (a, b, c) = Rpc.fee_history kakarot_client a b
    serve max_priority_fee_per_gas _ = Rpc.max_priority_fee_per_gas kakarot_client
    serve is_mining _ = Rpc.is_mining
    serve hashrate _ = Rpc.hashrate
    serve get_work _ = Unfinished.get_work
    serve submit_hashrate (a, b) = Unfinished.submit_hashrate a b
    serve submit_work (a, b, c) = Unfinished.submit_work a b c
    serve send_transaction a =
        Unfinished.send_transaction types.AccessListWithGasUsed types.TransactionRequest types.Value
          types.AccountProof a
    serve send_raw_transaction a = Rpc.send_raw_transaction kakarot_client a
    serve sign (a, b) = Unfinished.sign a b
    serve sign_transaction a = Unfinished.sign_transaction a
    serve sign_typed_data (a, b) =
        Unfinished.sign_typed_data types.AccessListWithGasUsed types.TransactionRequest types.Value
          types.AccountProof a b
    serve get_proof (a, b, c) =
        Unfinished.get_proof types.AccessListWithGasUsed types.TransactionRequest types.Value
          types.AccountProof a b c
