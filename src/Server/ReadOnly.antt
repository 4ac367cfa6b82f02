-- ===== src/Server/ReadOnly.antt =====
-- Which requests the server's methods make: crates/eth-rpc/src/eth_rpc.rs over
-- crates/core/src/client/mod.rs.
use kakarot_rpc_adapter.Prelude.{◌≢◌, refl}
use kakarot_rpc_adapter.Crates.{Crates}
use kakarot_rpc_adapter.Async.Only.{ReadsOnly, ReadsOnly-ret}
use kakarot_rpc_adapter.Client.Contracts.{KakarotClient}
use kakarot_rpc_adapter.Client.Provider.{kakarot_provider}
use kakarot_rpc_adapter.Client.Api.{KakarotProvider}
use kakarot_rpc_adapter.Client.ReadOnly.{kakarot_provider-IsReader}
use kakarot_rpc_adapter.Rpc
use kakarot_rpc_adapter.Rpc.ReadOnly.{IsReadApi, rpc-IsReadApi}
use kakarot_rpc_adapter.Rpc.Unfinished
use kakarot_rpc_adapter.Server.{Method, JsonTypes, Params, serve}

module _ ⦃crates : Crates⦄ (types : JsonTypes) where
  serve_over-ReadsOnly :
      (p : KakarotProvider)
      → IsReadApi p
      → (m : Method) (ps : Params types m) → m ≢ Method.send_raw_transaction
      → ReadsOnly (serve types p m ps)
  unfolding serve
  serve_over-ReadsOnly p r Method.block_number _ h = r.block_number
  serve_over-ReadsOnly p r Method.protocol_version _ h =
      unfold Rpc.protocol_version in ReadsOnly-ret _
  serve_over-ReadsOnly p r Method.syncing _ h = r.syncing
  serve_over-ReadsOnly p r Method.author _ h = unfold Unfinished.author in ReadsOnly-ret _
  serve_over-ReadsOnly p r Method.accounts _ h = unfold Rpc.accounts in ReadsOnly-ret _
  serve_over-ReadsOnly p r Method.chain_id _ h = unfold Rpc.chain_id in ReadsOnly-ret _
  serve_over-ReadsOnly p r Method.block_by_hash (a, b) h = r.block_by_hash a b
  serve_over-ReadsOnly p r Method.block_by_number (a, b) h = r.block_by_number a b
  serve_over-ReadsOnly p r Method.block_transaction_count_by_hash a h = r.count_by_hash a
  serve_over-ReadsOnly p r Method.block_transaction_count_by_number a h = r.count_by_number a
  serve_over-ReadsOnly p r Method.block_uncles_count_by_hash _ h =
      unfold Unfinished.block_uncles_count_by_hash in ReadsOnly-ret _
  serve_over-ReadsOnly p r Method.block_uncles_count_by_number _ h =
      unfold Unfinished.block_uncles_count_by_number in ReadsOnly-ret _
  serve_over-ReadsOnly p r Method.uncle_by_block_hash_and_index _ h =
      unfold Unfinished.uncle_by_block_hash_and_index in ReadsOnly-ret _
  serve_over-ReadsOnly p r Method.uncle_by_block_number_and_index _ h =
      unfold Unfinished.uncle_by_block_number_and_index in ReadsOnly-ret _
  serve_over-ReadsOnly p r Method.transaction_by_hash a h = r.transaction_by_hash a
  serve_over-ReadsOnly p r Method.transaction_by_block_hash_and_index (a, b) h =
      r.by_hash_and_index a b
  serve_over-ReadsOnly p r Method.transaction_by_block_number_and_index (a, b) h =
      r.by_number_and_index a b
  serve_over-ReadsOnly p r Method.transaction_receipt a h = r.transaction_receipt a
  serve_over-ReadsOnly p r Method.balance (a, b) h = r.balance a b
  serve_over-ReadsOnly p r Method.storage_at _ h = unfold Unfinished.storage_at in ReadsOnly-ret _
  serve_over-ReadsOnly p r Method.transaction_count (a, b) h = r.transaction_count a b
  serve_over-ReadsOnly p r Method.get_code (a, b) h = r.get_code a b
  serve_over-ReadsOnly p r Method.call (a, b) h = r.call a b
  serve_over-ReadsOnly p r Method.create_access_list _ h =
      unfold Unfinished.create_access_list in ReadsOnly-ret _
  serve_over-ReadsOnly p r Method.estimate_gas _ h = unfold Rpc.estimate_gas in ReadsOnly-ret _
  serve_over-ReadsOnly p r Method.gas_price _ h = r.gas_price
  serve_over-ReadsOnly p r Method.fee_history (a, b, _) h = r.fee_history a b
  serve_over-ReadsOnly p r Method.max_priority_fee_per_gas _ h = r.max_priority_fee_per_gas
  serve_over-ReadsOnly p r Method.is_mining _ h =
      unfold Rpc.is_mining Rpc.unsupported in ReadsOnly-ret _
  serve_over-ReadsOnly p r Method.hashrate _ h =
      unfold Rpc.hashrate Rpc.unsupported in ReadsOnly-ret _
  serve_over-ReadsOnly p r Method.get_work _ h =
      unfold Unfinished.get_work Rpc.unsupported in ReadsOnly-ret _
  serve_over-ReadsOnly p r Method.submit_hashrate _ h =
      unfold Unfinished.submit_hashrate in ReadsOnly-ret _
  serve_over-ReadsOnly p r Method.submit_work _ h = unfold Unfinished.submit_work in ReadsOnly-ret _
  serve_over-ReadsOnly p r Method.send_transaction _ h =
      unfold Unfinished.send_transaction in ReadsOnly-ret _
  serve_over-ReadsOnly p r Method.send_raw_transaction _ h = absurd (h refl)
  serve_over-ReadsOnly p r Method.sign _ h = unfold Unfinished.sign in ReadsOnly-ret _
  serve_over-ReadsOnly p r Method.sign_transaction _ h =
      unfold Unfinished.sign_transaction in ReadsOnly-ret _
  serve_over-ReadsOnly p r Method.sign_typed_data _ h =
      unfold Unfinished.sign_typed_data in ReadsOnly-ret _
  serve_over-ReadsOnly p r Method.get_proof _ h = unfold Unfinished.get_proof in ReadsOnly-ret _

  -- Whatever the node replies, no method of the server but `eth_sendRawTransaction` makes
  -- another request than one that reads.
  pub serve-ReadsOnly :
      (client : KakarotClient) (m : Method) (ps : Params types m)
      → m ≢ Method.send_raw_transaction
      → ReadsOnly (serve types (kakarot_provider client) m ps)
  serve-ReadsOnly client =
      serve_over-ReadsOnly (kakarot_provider client)
        (rpc-IsReadApi (kakarot_provider client) (kakarot_provider-IsReader client))
