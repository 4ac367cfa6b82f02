-- ===== src/Tests/CrashTests.antt =====
-- A chain with a transaction that has no calldata.
use kakarot_rpc_adapter.Prelude.{◌≡◌, refl, [], ◌∷◌, none, some, true, ◌==◌, if◌then◌else◌, arith}
use kakarot_rpc_adapter.Outcome.{panic}
use kakarot_rpc_adapter.Starknet
use kakarot_rpc_adapter.Starknet.{MaybePendingTransactionReceipt, TransactionReceipt}
use kakarot_rpc_adapter.Async.Run.{run}
use kakarot_rpc_adapter.Async.Interleaving.{steady}
use kakarot_rpc_adapter.Client.Calls.Submitted.{decode_signature_panics}
use kakarot_rpc_adapter.Server.Chain.{Block, Chain}
use kakarot_rpc_adapter.Server.Chain.Queries.{Query}
use kakarot_rpc_adapter.Server.Chain.Told.{IsChain}
use kakarot_rpc_adapter.Server.Chain.Replies.{reply}
use kakarot_rpc_adapter.Server.Chain.Newest.{latest}
use kakarot_rpc_adapter.Server.Chain.Crash.{reply-panics}
use kakarot_rpc_adapter.Tests.ChainNode.{node_of, node_of-Represents}
use kakarot_rpc_adapter.Tests.Sample.{no_types, sample, client}

abbrev empty_call : Starknet.InvokeTransaction
empty_call =
    Starknet.InvokeTransaction.v1
      (record { transaction_hash = 5; nonce = 9; sender_address = 42; calldata = [] })

abbrev block_12 : Block
block_12 = record {
  place = some (7000, 12);
  parent_hash = 6000;
  timestamp = 99;
  sequencer_address = 8;
  transactions = (5, Starknet.Transaction.invoke empty_call) ∷ [];
}

abbrev chain : Chain
chain = record {
  blocks = block_12 ∷ [];
  pending = none;
  receipt = λ h. MaybePendingTransactionReceipt.receipt (
      TransactionReceipt.invoke (record {
        transaction_hash = h;
        status = Starknet.TransactionStatus.accepted_on_l2;
        block_hash = 7000;
        block_number = 12;
        events = [];
      }));
  class_hash = λ sender. if sender == 42 then some 77 else none;
  evm_address = λ _. some 11;
}

chained : IsChain chain
chained = (
  record {
    is_place = omega arith;
    are_listed = (
      record {
        is_transaction = (refl, omega arith);
        hash-IsFelt = omega arith;
        located = refl;
        fits = (refl, refl, refl);
      },
      tt,
    );
  },
  tt,
)

reply-panics_example :
    ((run (reply no_types client (Query.block latest true)) (steady (node_of chain)) 0).0 ≡ panic)
    × ((run (reply no_types client (Query.transaction_count latest)) (steady (node_of chain)) 0).0
        ≡ panic)
reply-panics_example =
    reply-panics no_types client (node_of chain) chain (node_of-Represents chain) chained latest
      (Starknet.BlockId.tag Starknet.BlockTag.latest) block_12 0 5 empty_call 11 0 tt refl refl refl
      refl refl decode_signature_panics.0
