-- ===== src/Server/Chain/Newest.antt =====
-- The number that `eth_blockNumber` gives names the newest block: crates/eth-rpc/src/eth_rpc.rs.
use kakarot_rpc_adapter.Prelude.{
  ℕ, ◌≡◌, refl, sym, ◌∙◌, List, [], ◌∷◌, Option, none, some, Bool, true, ==_iff,
}
use kakarot_rpc_adapter.Types.{FieldElement, U64}
use kakarot_rpc_adapter.Errors.{no_blocks}
use kakarot_rpc_adapter.Errors.Codes.{to_error_object}
use kakarot_rpc_adapter.Outcome.{ok, ok_or-eq-ok, map_err-eq-ok}
use kakarot_rpc_adapter.Crates.{Crates}
use kakarot_rpc_adapter.Starknet
use kakarot_rpc_adapter.Eth.{BlockId, BlockNumberOrTag}
use kakarot_rpc_adapter.Async.Run.{run}
use kakarot_rpc_adapter.Async.Interleaving.{Node, steady}
use kakarot_rpc_adapter.Client.Contracts.{KakarotClient}
use kakarot_rpc_adapter.Server.{JsonTypes}
use kakarot_rpc_adapter.Server.Chain.{
  Block, Chain, find, first, height, number_of, place_has_number,
}
use kakarot_rpc_adapter.Server.Chain.Shown.{missing}
use kakarot_rpc_adapter.Server.Chain.Queries.{
  newest_number, block, transaction_count, transaction_at, show,
}
use kakarot_rpc_adapter.Server.Chain.Told.{Represents, IsChain}
use kakarot_rpc_adapter.Server.Chain.Replies.{reply}
use kakarot_rpc_adapter.Server.Chain.Refinement.{reply-show}

-- A block with a number passes the test for it.
has_number :
    (place : Option (FieldElement × U64)) (k : U64)
    → number_of place ≡ some k
    → place_has_number k place ≡ true
has_number none k e = cc
has_number (some (hash, number)) k e = (==_iff number k).1 (cc)

first_of_height :
    (bs : List Block) (k : U64)
    → height bs ≡ some k
    → first (λ b. place_has_number k b.place) bs ≡ first (λ _. true) bs
first_of_height [] k e = cc
first_of_height (b ∷ bs) k e = rw (has_number b.place k e) refl

-- The number of the newest block finds the one that is found as the latest.
find-height :
    (chain : Chain) (k : U64)
    → height chain.blocks ≡ some k
    → find chain (Starknet.BlockId.number k)
      ≡ find chain (Starknet.BlockId.tag Starknet.BlockTag.latest)
find-height chain k e = first_of_height chain.blocks k e

abbrev pub latest : BlockId
latest = BlockId.number BlockNumberOrTag.latest

abbrev pub numbered : U64 → BlockId
numbered k = BlockId.number (BlockNumberOrTag.number k)

module _ ⦃crates : Crates⦄ (types : JsonTypes) (client : KakarotClient) (node : Node)
    (chain : Chain) (represents : Represents client node chain) (chained : IsChain chain) where
  -- Over a node that holds a chain of blocks whose transactions are found by their hashes, with
  -- receipts that name them and place them in their blocks: if the server answers the newest
  -- block number with a number, then for a block, for its count of transactions and for a
  -- transaction in it, it replies to that number as it does to the latest block.
  pub reply-newest :
      (k : U64) (full : Bool) (index : ℕ) (n : ℕ)
      → (run (reply types client newest_number) (steady node) n).0 ≡ ok k
      → ((run (reply types client (block (numbered k) full)) (steady node) n).0
          ≡ (run (reply types client (block latest full)) (steady node) n).0)
        × ((run (reply types client (transaction_count (numbered k))) (steady node) n).0
            ≡ (run (reply types client (transaction_count latest)) (steady node) n).0)
        × ((run (reply types client (transaction_at (numbered k) index)) (steady node) n).0
            ≡ (run (reply types client (transaction_at latest index)) (steady node) n).0)
  reply-newest k full index n e =
      let told = reply-show types client node chain represents chained in
      let same = find-height chain k (
        ok_or-eq-ok (missing no_blocks) (height chain.blocks) (
          map_err-eq-ok to_error_object (show client chain newest_number)
            (sym (told newest_number n tt) ∙ e))) in
      (
        told (block (numbered k) full) n tt ∙ rw same refl ∙ sym (told (block latest full) n tt),
        told (transaction_count (numbered k)) n tt
            ∙ rw same refl
            ∙ sym (told (transaction_count latest) n tt),
        told (transaction_at (numbered k) index) n tt
            ∙ rw same refl
            ∙ sym (told (transaction_at latest index) n tt),
      )
