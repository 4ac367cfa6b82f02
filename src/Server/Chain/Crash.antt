-- ===== src/Server/Chain/Crash.antt =====
-- A block with a transaction whose signature cannot be read: crates/eth-rpc/src/eth_rpc.rs over
-- `decode_signature_from_tx_calldata` of crates/core/src/client/helpers.rs.
use kakarot_rpc_adapter.Prelude.{
  ℕ, zero, suc, ◌≡◌, refl, ◌∙◌, List, [], ◌∷◌, map, Option, none, some, true, ==_iff, get_elem?,
}
use kakarot_rpc_adapter.Types.{FieldElement, U64}
use kakarot_rpc_adapter.Outcome.{Outcome, ok, err, panic}
use kakarot_rpc_adapter.Crates.{Crates}
use kakarot_rpc_adapter.Starknet
use kakarot_rpc_adapter.Eth.{BlockId}
use kakarot_rpc_adapter.Async.Run.{run}
use kakarot_rpc_adapter.Async.Interleaving.{Node, steady}
use kakarot_rpc_adapter.Client.Calls.{decode_signature_from_tx_calldata}
use kakarot_rpc_adapter.Client.Contracts.{KakarotClient}
use kakarot_rpc_adapter.Server.{JsonTypes}
use kakarot_rpc_adapter.Server.Chain.{Block, Chain, find}
use kakarot_rpc_adapter.Server.Chain.Shown.{invoked, values, show_transaction, listed}
use kakarot_rpc_adapter.Server.Chain.Queries.{block, transaction_count, starknet_id}
use kakarot_rpc_adapter.Server.Chain.Told.{Represents, IsChain}
use kakarot_rpc_adapter.Server.Chain.Replies.{reply, IsBlockId}
use kakarot_rpc_adapter.Server.Chain.Refinement.{reply-show}

module _ {E A B : Type 0} (f : A → Outcome E B) where
  -- One panic among the results is one of the whole.
  values_panic :
      (xs : List A) (k : ℕ) (x : A)
      → get_elem? xs k ≡ some x
      → f x ≡ panic
      → values (map f xs) ≡ panic
  values_panic [] k x e p = cc
  values_panic (y ∷ xs) zero x e p = let here : f y ≡ panic = cc in rw here refl
  values_panic (y ∷ xs) (suc k) x e p = behind (f y) (values_panic xs k x e p)
    where
      behind : (o : Outcome E B) → values (map f xs) ≡ panic → values (o ∷ map f xs) ≡ panic
      behind (ok b) h = rw h refl
      behind (err x) h = h
      behind panic h = refl

module _ ⦃crates : Crates⦄ (client : KakarotClient) (chain : Chain) where
  show_transaction_panic :
      (place : Option (FieldElement × U64)) (tx : Starknet.InvokeTransaction) (a : FieldElement)
      → chain.class_hash (invoked tx).sender ≡ some client.proxy_account_class_hash
      → chain.evm_address (invoked tx).sender ≡ some a
      → decode_signature_from_tx_calldata (invoked tx).calldata ≡ panic
      → show_transaction client chain place none (Starknet.Transaction.invoke tx) ≡ panic
  show_transaction_panic place tx a class address unread =
      rw
        (
          class,
          (==_iff client.proxy_account_class_hash client.proxy_account_class_hash).1 refl,
          address,
          unread,
        )
        refl

module _ ⦃crates : Crates⦄ (types : JsonTypes) (client : KakarotClient) (node : Node)
    (chain : Chain) (represents : Represents client node chain) (chained : IsChain chain) where
  -- Over a node that holds a chain of blocks whose transactions are found by their hashes, with
  -- receipts that name them and place them in their blocks: if a transaction of a block that the
  -- chain finds for a block id is an invoke transaction, its sender has the class of the proxy
  -- accounts and answers an address, and its calldata makes the reading of the signature panic,
  -- then the request for that block with full transactions panics, and so does the one for its
  -- count of transactions.
  pub reply-panics :
      (id : BlockId) (i : Starknet.BlockId) (b : Block) (k : ℕ) (h : FieldElement)
      (tx : Starknet.InvokeTransaction) (a : FieldElement) (n : ℕ)
      → IsBlockId id
      → starknet_id id ≡ ok i
      → find chain i ≡ some b
      → get_elem? b.transactions k ≡ some (h, Starknet.Transaction.invoke tx)
      → chain.class_hash (invoked tx).sender ≡ some client.proxy_account_class_hash
      → chain.evm_address (invoked tx).sender ≡ some a
      → decode_signature_from_tx_calldata (invoked tx).calldata ≡ panic
      → ((run (reply types client (block id true)) (steady node) n).0 ≡ panic)
        × ((run (reply types client (transaction_count id)) (steady node) n).0 ≡ panic)
  reply-panics id i b k h tx a n is_id converts held at class address unread =
      let told = reply-show types client node chain represents chained in
      let whole : listed client chain b ≡ panic =
        values_panic (λ t. show_transaction client chain b.place none t.1) b.transactions k
          (h, Starknet.Transaction.invoke tx) at
          (show_transaction_panic client chain b.place tx a class address unread) in
      (
        told (block id true) n is_id ∙ rw (converts, held, whole) refl,
        told (transaction_count id) n is_id ∙ rw (converts, held, whole) refl,
      )
