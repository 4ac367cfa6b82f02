-- ===== src/Rpc/ReadOnly.antt =====
-- Which requests the JSON-RPC methods make: crates/eth-rpc/src/eth_rpc.rs.
use kakarot_rpc_adapter.Prelude.{ℕ, Bool, List, Option, none, some}
use kakarot_rpc_adapter.Types.{H160, H256, U256}
use kakarot_rpc_adapter.Crates.{Crates}
use kakarot_rpc_adapter.Eth
use kakarot_rpc_adapter.Eth.{BlockId, BlockNumberOrTag}
use kakarot_rpc_adapter.Async.Only.{ReadsOnly, reads_rules}
use kakarot_rpc_adapter.Client.Api.{KakarotProvider}
use kakarot_rpc_adapter.Client.ReadOnly.{IsReader}
use kakarot_rpc_adapter.Rpc

module _ ⦃crates : Crates⦄ (p : KakarotProvider) where
  -- The methods over a client, but the submission of a transaction.
  pub record IsReadApi : Type 0 where
    pub block_number : ReadsOnly (Rpc.block_number p)
    pub syncing : ReadsOnly (Rpc.syncing p)
    pub block_by_hash : (h : H256) (full : Bool) → ReadsOnly (Rpc.block_by_hash p h full)
    pub block_by_number :
        (n : BlockNumberOrTag) (full : Bool) → ReadsOnly (Rpc.block_by_number p n full)
    pub count_by_hash : (h : H256) → ReadsOnly (Rpc.block_transaction_count_by_hash p h)
    pub count_by_number :
        (n : BlockNumberOrTag) → ReadsOnly (Rpc.block_transaction_count_by_number p n)
    pub transaction_by_hash : (h : H256) → ReadsOnly (Rpc.transaction_by_hash p h)
    pub by_hash_and_index :
        (h : H256) (i : ℕ) → ReadsOnly (Rpc.transaction_by_block_hash_and_index p h i)
    pub by_number_and_index :
        (n : BlockNumberOrTag) (i : ℕ) → ReadsOnly (Rpc.transaction_by_block_number_and_index p n i)
    pub transaction_receipt : (h : H256) → ReadsOnly (Rpc.transaction_receipt p h)
    pub balance : (a : H160) (b : Option BlockId) → ReadsOnly (Rpc.balance p a b)
    pub transaction_count :
        (a : H160) (b : Option BlockId) → ReadsOnly (Rpc.transaction_count p a b)
    pub get_code : (a : H160) (b : Option BlockId) → ReadsOnly (Rpc.get_code p a b)
    pub call : (r : Eth.CallRequest) (b : Option BlockId) → ReadsOnly (Rpc.call p r b)
    pub gas_price : ReadsOnly (Rpc.gas_price p)
    pub fee_history : (c : U256) (n : BlockNumberOrTag) → ReadsOnly (Rpc.fee_history p c n)
    pub max_priority_fee_per_gas : ReadsOnly (Rpc.max_priority_fee_per_gas p)
    pub token_balances : (a : H160) (cs : List H160) → ReadsOnly (Rpc.token_balances p a cs)

  count-ReadsOnly :
      IsReader p → (a : H160) (b : Option BlockId) → ReadsOnly (Rpc.transaction_count p a b)
  unfolding Rpc.transaction_count Rpc.starknet_block
  count-ReadsOnly r a none = search (reads_rules, r.nonce)
  count-ReadsOnly r a (some b) = search (reads_rules, r.nonce)

  -- Over a client whose reading methods only read, every JSON-RPC method that asks the client,
  -- but `eth_sendRawTransaction`, only reads, whatever the node replies.
  pub rpc-IsReadApi : IsReader p → IsReadApi
  unfolding Rpc.block_number Rpc.syncing Rpc.block_by_hash Rpc.block_by_number
      Rpc.block_transaction_count_by_hash Rpc.block_transaction_count_by_number
      Rpc.transaction_by_hash Rpc.transaction_by_block_hash_and_index
      Rpc.transaction_by_block_number_and_index Rpc.transaction_receipt Rpc.balance Rpc.get_code
      Rpc.call Rpc.gas_price Rpc.fee_history Rpc.max_priority_fee_per_gas Rpc.token_balances
      Rpc.starknet_block
  rpc-IsReadApi r = record {
    block_number = search (reads_rules, r.block_number);
    syncing = search (reads_rules, r.syncing);
    block_by_hash = λ h full. search (reads_rules, r.eth_block);
    block_by_number = λ n full. search (reads_rules, r.eth_block);
    count_by_hash = λ h. search (reads_rules, r.count_by_hash);
    count_by_number = λ n. search (reads_rules, r.count_by_number);
    transaction_by_hash = λ h. search (reads_rules, r.transaction_by_hash);
    by_hash_and_index = λ h i. search (reads_rules, r.by_index);
    by_number_and_index = λ n i. search (reads_rules, r.by_index);
    transaction_receipt = λ h. search (reads_rules, r.transaction_receipt);
    balance = λ a b. search (reads_rules, r.balance);
    transaction_count = count-ReadsOnly r;
    get_code = λ a b. search (reads_rules, r.get_code);
    call = λ q b. search (reads_rules, r.call_view) depth 12;
    gas_price = search reads_rules;
    fee_history = λ c n. search (reads_rules, r.fee_history);
    max_priority_fee_per_gas = search reads_rules;
    token_balances = λ a cs. search (reads_rules, r.token_balances);
  }
