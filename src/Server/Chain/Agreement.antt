-- ===== src/Server/Chain/Agreement.antt =====
-- The JSON-RPC methods agree on the transactions of a block: crates/eth-rpc/src/eth_rpc.rs.
use mathlib.Core.Path.{subst}
use kakarot_rpc_adapter.Prelude.{
  ℕ, ◌≡◌, refl, sym, ap, ◌∙◌, List, [], ◌∷◌, map, Option, none, some, true, All, All-imp, inl, inr,
  Bool-cases, ◌==◌, lt→ltb, length,
}
use kakarot_rpc_adapter.Types.{FieldElement, U64, U256, IsFelt, IsArray, prime}
use kakarot_rpc_adapter.Errors.{EthApiError, block_not_found}
use kakarot_rpc_adapter.Errors.Codes.{to_error_object}
use kakarot_rpc_adapter.Outcome.{
  Outcome, ok, err, panic, map_err, ok_or, >>=-eq-ok, ok_or-eq-ok, map_ok-eq-ok, map_err-eq-ok,
}
use kakarot_rpc_adapter.Crates.{Crates}
use kakarot_rpc_adapter.Starknet
use kakarot_rpc_adapter.Eth
use kakarot_rpc_adapter.Eth.{BlockId, BlockTransactions}
use kakarot_rpc_adapter.Async.Run.{run}
use kakarot_rpc_adapter.Async.Interleaving.{Node, steady}
use kakarot_rpc_adapter.Models.Felt.RoundTrip.{be_value-felt_to_bytes_be}
use kakarot_rpc_adapter.Models.Block.{block_of}
use kakarot_rpc_adapter.Client.Calls.{decode_signature_from_tx_calldata}
use kakarot_rpc_adapter.Client.Contracts.{KakarotClient}
use kakarot_rpc_adapter.Server.{JsonTypes}
use kakarot_rpc_adapter.Server.Chain.{Block, Chain, find}
use kakarot_rpc_adapter.Server.Chain.Shown.{
  Invoked, invoked, kakarot_transaction, show_signed, values, show_block, show_transaction, listed,
  missing,
}
use kakarot_rpc_adapter.Server.Chain.Queries.{
  show, found, felt_of_hash, starknet_id, block, transaction_count, transaction,
}
use kakarot_rpc_adapter.Server.Chain.Told.{Represents, IsChain, IsBlock, IsListed, IsTransaction}
use kakarot_rpc_adapter.Server.Chain.Found.{find-All}
use kakarot_rpc_adapter.Server.Chain.Replies.{IsBlockId, reply}
use kakarot_rpc_adapter.Server.Chain.Refinement.{reply-show}

nil_of_ok : {E A : Type 0} (ys : List A) → ◌≡◌ {A = Outcome E (List A)} (ok []) (ok ys) → [] ≡ ys
nil_of_ok ys e = cc

values_first :
    {E B : Type 0} (P : B → Type 0) (o : Outcome E B) (os : List (Outcome E B)) (ys : List B)
    → ((y : B) → o ≡ ok y → P y)
    → ((zs : List B) → values os ≡ ok zs → All P zs)
    → values (o ∷ os) ≡ ok ys
    → All P ys
values_first P (ok y) os ys first rest e =
    let (zs, ez, same) = map_ok-eq-ok (λ l. y ∷ l) (values os) e in
    subst (All P) same (first y refl, rest zs ez)
values_first P (err x) os ys first rest e = rest ys e
values_first P panic os ys first rest e = cc

module _ {E A B : Type 0} (P : B → Type 0) (f : A → Outcome E B) where
  -- What holds of each result that is a value holds of all values.
  values-All :
      (xs : List A) (ys : List B)
      → All (λ x. (y : B) → f x ≡ ok y → P y) xs
      → values (map f xs) ≡ ok ys
      → All P ys
  values-All [] ys h e = subst (All P) {x = []} (nil_of_ok {E = E} ys e) tt
  values-All (x ∷ xs) ys (h, hs) e =
      values_first P (f x) (map f xs) ys h (λ zs ez. values-All xs zs hs ez) e

module _ ⦃crates : Crates⦄ (client : KakarotClient) (chain : Chain) where
  open crates use {felt_to_bytes_be, felt_to_bytes_be-IsArray}

  signed_hash :
      (place : Option (FieldElement × U64)) (index : Option U256) (tx : Invoked)
      (t : Eth.Transaction)
      → show_signed client chain place index tx ≡ ok t
      → t.hash ≡ felt_to_bytes_be tx.hash
  signed_hash place index tx t e =
      let (address, answered, e') = >>=-eq-ok (ok_or _ (chain.evm_address tx.sender)) _ e in
      let (signature, decoded, made) =
        map_ok-eq-ok (kakarot_transaction client place index tx address)
          (map_err EthApiError.data_decoding_error (decode_signature_from_tx_calldata tx.calldata))
          e' in
      sym (ap (λ x. x.hash) made)

  -- A transaction is shown with its hash.
  shown_hash :
      (place : Option (FieldElement × U64)) (index : Option U256) (hash : FieldElement)
      (tx : Starknet.Transaction) (t : Eth.Transaction)
      → IsTransaction hash tx
      → show_transaction client chain place index tx ≡ ok t
      → t.hash ≡ felt_to_bytes_be hash
  shown_hash place index hash (Starknet.Transaction.invoke tx) t h e =
      let (c, held, e') = >>=-eq-ok (ok_or _ (chain.class_hash (invoked tx).sender)) _ e in
      elim (Bool-cases (c == client.proxy_account_class_hash)) [
        | inl same ↦
            signed_hash place index (invoked tx) t (rw same at e') ∙ ap felt_to_bytes_be h.0
        | inr other ↦ cc (rw other at e')
      ]
  shown_hash place index hash Starknet.Transaction.l1_handler t h e = cc
  shown_hash place index hash Starknet.Transaction.declare t h e = cc
  shown_hash place index hash Starknet.Transaction.deploy t h e = cc
  shown_hash place index hash Starknet.Transaction.deploy_account t h e = cc

  shown_hash-IsArray :
      (b : Block) (listed : FieldElement × Starknet.Transaction) (t : Eth.Transaction)
      → IsListed chain b listed
      → show_transaction client chain b.place none listed.1 ≡ ok t
      → IsArray 32 t.hash
  shown_hash-IsArray b (hash, tx) t h e =
      subst (IsArray 32) (sym (shown_hash b.place none hash tx t h.is_transaction e))
        (felt_to_bytes_be-IsArray hash)

  felt_of_hash-felt_to_bytes_be :
      (hash : FieldElement) → IsFelt hash → felt_of_hash (felt_to_bytes_be hash) ≡ ok hash
  felt_of_hash-felt_to_bytes_be hash h = rw (be_value-felt_to_bytes_be hash h, lt→ltb hash prime h)

  -- A transaction that is shown in a block is shown under its hash.
  shown_by_hash :
      (b : Block) (listed : FieldElement × Starknet.Transaction) (t : Eth.Transaction)
      → IsListed chain b listed
      → show_transaction client chain b.place none listed.1 ≡ ok t
      → show client chain (transaction t.hash) ≡ ok (some t)
  shown_by_hash b (hash, tx) t h e =
      ap (λ x. show client chain (transaction x))
        (shown_hash b.place none hash tx t h.is_transaction e)
      ∙ rw (felt_of_hash-felt_to_bytes_be hash h.hash-IsFelt, h.located, e)

  full_inj :
      (xs ys : List Eth.Transaction)
      → BlockTransactions.full xs ≡ BlockTransactions.full ys
      → xs ≡ ys
  full_inj xs ys e = cc

  some_inj : (x y : Eth.Block) → ◌≡◌ {A = Option Eth.Block} (some x) (some y) → x ≡ y
  some_inj x y e = cc

  -- The block behind the one that is shown.
  listed_of_shown :
      (id : BlockId) (eth_block : Eth.Block) (ts : List Eth.Transaction)
      → show client chain (block id true) ≡ ok (some eth_block)
      → eth_block.transactions ≡ BlockTransactions.full ts
      → (b : Block) × (found client chain id ≡ ok b) × (listed client chain b ≡ ok ts)
  unfolding block_of
  listed_of_shown id eth_block ts e full =
      let (b, found_b, e') = >>=-eq-ok (found client chain id) _ e in
      let (shown, shown_b, wrapped) = map_ok-eq-ok some (show_block client chain true b) e' in
      let (kept, listed_b, made) = map_ok-eq-ok _ (listed client chain b) shown_b in
      let same : kept ≡ ts =
        full_inj kept ts
          (ap (λ x. x.transactions) (made ∙ some_inj shown eth_block wrapped) ∙ full) in
      (b, found_b, listed_b ∙ ap ok same)

  found-IsBlock :
      (id : BlockId) (b : Block) → IsChain chain → found client chain id ≡ ok b → IsBlock chain b
  found-IsBlock id b chained e =
      let (i, converted, e') = >>=-eq-ok (starknet_id id) _ e in
      find-All (IsBlock chain) chain i b chained
        (ok_or-eq-ok (missing block_not_found) (find chain i) e')

  -- What the listing of a block says of the other queries.
  shown_block_agrees :
      (id : BlockId) (eth_block : Eth.Block) (ts : List Eth.Transaction)
      → IsChain chain
      → show client chain (block id true) ≡ ok (some eth_block)
      → eth_block.transactions ≡ BlockTransactions.full ts
      → (show client chain (transaction_count id) ≡ ok (length ts))
        × All (λ t. IsArray 32 t.hash × (show client chain (transaction t.hash) ≡ ok (some t))) ts
  shown_block_agrees id eth_block ts chained e full =
      let (b, found_b, listed_b) = listed_of_shown id eth_block ts e full in
      (
        rw (found_b, listed_b) refl,
        values-All (λ t. IsArray 32 t.hash × (show client chain (transaction t.hash) ≡ ok (some t)))
            (λ t. show_transaction client chain b.place none t.1) b.transactions ts
            (All-imp b.transactions
              (λ t h y shown. (shown_hash-IsArray b t y h shown, shown_by_hash b t y h shown))
              (found-IsBlock id b chained found_b).are_listed)
            listed_b,
      )

module _ ⦃crates : Crates⦄ (types : JsonTypes) (client : KakarotClient) (node : Node)
    (chain : Chain) (represents : Represents client node chain) (chained : IsChain chain) where
  -- Over a node that holds a chain of blocks whose transactions are found by their hashes, with
  -- receipts that name them and place them in their blocks: if the server gives a block with
  -- full transactions, then for the same block id it counts as many as are in it, and for the
  -- hash of each of them it gives that same transaction.
  pub reply-agrees :
      (id : BlockId) (eth_block : Eth.Block) (ts : List Eth.Transaction) (n : ℕ)
      → IsBlockId id
      → (run (reply types client (block id true)) (steady node) n).0 ≡ ok (some eth_block)
      → eth_block.transactions ≡ BlockTransactions.full ts
      → ((run (reply types client (transaction_count id)) (steady node) n).0 ≡ ok (length ts))
        × All
            (λ t. (run (reply types client (transaction t.hash)) (steady node) n).0 ≡ ok (some t))
            ts
  reply-agrees id eth_block ts n h e full =
      let shown : show client chain (block id true) ≡ ok (some eth_block) =
        map_err-eq-ok to_error_object (show client chain (block id true))
          (sym (reply-show types client node chain represents chained (block id true) n h) ∙ e) in
      let (counted, hashed) = shown_block_agrees client chain id eth_block ts chained shown full in
      (
        reply-show types client node chain represents chained (transaction_count id) n h
            ∙ ap (map_err to_error_object) counted,
        All-imp ts
            (λ t k.
              reply-show types client node chain represents chained (transaction t.hash) n k.0
              ∙ ap (map_err to_error_object) k.1)
            hashed,
      )
