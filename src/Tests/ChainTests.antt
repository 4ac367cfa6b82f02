-- ===== src/Tests/ChainTests.antt =====
-- The chain that the server shows, at a chain of one block.
use kakarot_rpc_adapter.Prelude.{
  ◌≡◌, refl, ◌∙◌, List, [], ◌∷◌, none, some, true, inr, ◌==◌, if◌then◌else◌, All, arith,
}
use kakarot_rpc_adapter.Errors.Codes.{to_error_object}
use kakarot_rpc_adapter.Outcome.{ok, map_err}
use kakarot_rpc_adapter.Starknet
use kakarot_rpc_adapter.Starknet.{MaybePendingTransactionReceipt, TransactionReceipt}
use kakarot_rpc_adapter.Eth
use kakarot_rpc_adapter.Eth.{BlockId, BlockNumberOrTag, BlockTransactions}
use kakarot_rpc_adapter.Async.Run.{run}
use kakarot_rpc_adapter.Async.Interleaving.{steady}
use kakarot_rpc_adapter.Models.Block.{block_of}
use kakarot_rpc_adapter.Server.Chain.{Block, Chain, all_blocks}
use kakarot_rpc_adapter.Server.Chain.Shown.{show_header, kakarot_transaction, invoked}
use kakarot_rpc_adapter.Server.Chain.Queries.{Query, show}
use kakarot_rpc_adapter.Server.Chain.Told.{IsChain}
use kakarot_rpc_adapter.Server.Chain.Refinement.{reply-show}
use kakarot_rpc_adapter.Server.Chain.Replies.{reply}
use kakarot_rpc_adapter.Server.Chain.Agreement.{reply-agrees}
use kakarot_rpc_adapter.Server.Chain.Whole.{reply-IsResult}
use kakarot_rpc_adapter.Server.Chain.Readable.{AreReadable}
use kakarot_rpc_adapter.Async.Panics.{IsResult}
use kakarot_rpc_adapter.Server.Chain.Newest.{latest, numbered, reply-newest}
use kakarot_rpc_adapter.Tests.ChainNode.{node_of, node_of-Represents}
use kakarot_rpc_adapter.Tests.Invoke.{submitted_signature}
use kakarot_rpc_adapter.Tests.Sample.{no_types, signed, sample, client, submitted}

abbrev invocation : Starknet.InvokeTransaction
invocation =
    Starknet.InvokeTransaction.v1
      (record { transaction_hash = 5; nonce = 9; sender_address = 42; calldata = submitted })

-- A block with a transaction of Kakarot and another one.
abbrev block_12 : Block
block_12 = record {
  place = some (7000, 12);
  parent_hash = 6000;
  timestamp = 99;
  sequencer_address = 8;
  transactions =
      (5, Starknet.Transaction.invoke invocation) ∷ (6, Starknet.Transaction.declare) ∷ [];
}

abbrev chain : Chain
chain = record {
  blocks = block_12 ∷ [];
  pending = none;
  receipt = λ h. MaybePendingTransactionReceipt.receipt (
      if h == 5
      then TransactionReceipt.invoke (record {
        transaction_hash = 5;
        status = Starknet.TransactionStatus.accepted_on_l2;
        block_hash = 7000;
        block_number = 12;
        events = [];
      })
      else TransactionReceipt.declare);
  class_hash = λ sender. if sender == 42 then some 77 else none;
  evm_address = λ _. some 11;
}

chained : IsChain chain
chained = (
  record {
    is_place = omega arith;
    are_listed = (
      record {
        is_transaction = (refl, omega arith);
        hash-IsFelt = omega arith;
        located = refl;
        fits = (refl, refl, refl);
      },
      (record { is_transaction = tt; hash-IsFelt = omega arith; located = refl; fits = tt }, tt),
    );
  },
  tt,
)

reply-show_example :
    (run (reply no_types client (Query.block latest true)) (steady (node_of chain)) 0).0
    ≡ map_err to_error_object (show client chain (Query.block latest true))
reply-show_example =
    reply-show no_types client (node_of chain) chain (node_of-Represents chain) chained
      (Query.block latest true) 0 tt

abbrev shown_transactions : List Eth.Transaction
shown_transactions =
    kakarot_transaction client (some (7000, 12)) none (invoked invocation) 11 signed.signature ∷ []

abbrev shown_12 : Eth.Block
shown_12 =
    show_header client chain (some (7000, 12)) block_12 (BlockTransactions.full shown_transactions)

block_12_shown :
    map_err to_error_object (show client chain (Query.block latest true)) ≡ ok (some shown_12)
block_12_shown = rw submitted_signature refl

transactions_of_shown_12 : shown_12.transactions ≡ BlockTransactions.full shown_transactions
unfolding block_of
transactions_of_shown_12 = refl

reply-agrees_example :
    ((run (reply no_types client (Query.transaction_count latest)) (steady (node_of chain)) 0).0
      ≡ ok 1)
    × All
        (λ t.
          (run (reply no_types client (Query.transaction t.hash)) (steady (node_of chain)) 0).0
          ≡ ok (some t))
        shown_transactions
reply-agrees_example =
    reply-agrees no_types client (node_of chain) chain (node_of-Represents chain) chained latest
      shown_12 shown_transactions 0 tt (reply-show_example ∙ block_12_shown)
      transactions_of_shown_12

reply-newest_example :
    ((run (reply no_types client (Query.block (numbered 12) true)) (steady (node_of chain)) 0).0
      ≡ (run (reply no_types client (Query.block latest true)) (steady (node_of chain)) 0).0)
    × ((run
          (reply no_types client (Query.transaction_count (numbered 12)))
          (steady (node_of chain))
          0).0
        ≡ (run
            (reply no_types client (Query.transaction_count latest))
            (steady (node_of chain))
            0).0)
    × ((run
          (reply no_types client (Query.transaction_at (numbered 12) 1))
          (steady (node_of chain))
          0).0
        ≡ (run
            (reply no_types client (Query.transaction_at latest 1))
            (steady (node_of chain))
            0).0)
reply-newest_example =
    reply-newest no_types client (node_of chain) chain (node_of-Represents chain) chained 12 true 1
      0
      (reply-show no_types client (node_of chain) chain (node_of-Represents chain) chained
        Query.newest_number 0 tt)

readable : All (AreReadable client chain) (all_blocks chain)
readable = ((inr (rw submitted_signature tt), (tt, tt)), tt)

reply-IsResult_example :
    IsResult (run (reply no_types client (Query.block latest true)) (steady (node_of chain)) 0).0
reply-IsResult_example =
    reply-IsResult no_types client (node_of chain) chain (node_of-Represents chain) chained
      (Query.block latest true) 0 tt readable
