-- ===== src/Server/Chain/Readable.antt =====
-- What the chain shows of transactions whose signatures can be read is no panic: the specification of
-- crates/core/src/models and crates/core/src/client/mod.rs.
use kakarot_rpc_adapter.Prelude.{
  ◌≡◌, ◌≢◌, ◌⊎◌, refl, ◌∙◌, List, [], ◌∷◌, map, Option, none, some, Bool, true, false, All, All-imp,
  inl, inr, Bool-cases, ◌==◌, ==_iff, ap,
}
use kakarot_rpc_adapter.Types.{FieldElement, U64, U256}
use kakarot_rpc_adapter.Errors.{EthApiError, contract_error, contract_not_found}
use kakarot_rpc_adapter.Outcome
use kakarot_rpc_adapter.Outcome.{
  Outcome, ok, err, panic, map_ok, map_err, ok_or, ok_or-eq-ok, >>=-eq-ok,
}
use kakarot_rpc_adapter.Crates.{Crates}
use kakarot_rpc_adapter.Starknet
use kakarot_rpc_adapter.Starknet.{MaybePendingTransactionReceipt, TransactionReceipt}
use kakarot_rpc_adapter.Async.Panics.{IsResult, ok_or-IsResult, map_err-IsResult}
use kakarot_rpc_adapter.Client.Calls.{decode_signature_from_tx_calldata}
use kakarot_rpc_adapter.Client.Contracts.{KakarotClient}
use kakarot_rpc_adapter.Server.Chain.{Block, Chain}
use kakarot_rpc_adapter.Server.Chain.Shown.{
  missing, Invoked, invoked, values, kakarot_transaction, show_signed, show_transaction, show_block,
  listed,
}
use kakarot_rpc_adapter.Server.Chain.Queries.{show_receipt}

module _ {E A B : Type 0} where
  -- A chain has a result if its parts have one, the rest on the value of the first.
  pub bind_ok-IsResult :
      (o : Outcome E A) (f : A → Outcome E B)
      → IsResult o
      → ((a : A) → o ≡ ok a → IsResult (f a))
      → IsResult (Outcome.◌>>=◌ o f)
  bind_ok-IsResult (ok a) f h k = k a refl
  bind_ok-IsResult (err e) f h k = tt
  bind_ok-IsResult panic f h k = h

  pub map_ok-IsResult : (f : A → B) (o : Outcome E A) → IsResult o → IsResult (map_ok f o)
  map_ok-IsResult f (ok a) h = tt
  map_ok-IsResult f (err e) h = tt
  map_ok-IsResult f panic h = h

values-IsResult : {E A : Type 0} (os : List (Outcome E A)) → All IsResult os → IsResult (values os)
values-IsResult [] hs = tt
values-IsResult (ok a ∷ os) (h, hs) =
    map_ok-IsResult (λ as'. a ∷ as') (values os) (values-IsResult os hs)
values-IsResult (err e ∷ os) (h, hs) = values-IsResult os hs
values-IsResult (panic ∷ os) (h, hs) = h

All-map :
    {A B : Type 0} (P : B → Type 0) (f : A → B) (xs : List A)
    → All (λ x. P (f x)) xs
    → All P (map f xs)
All-map P f [] hs = tt
All-map P f (x ∷ xs) (h, hs) = (h, All-map P f xs hs)

module _ ⦃crates : Crates⦄ (client : KakarotClient) (chain : Chain) where
  -- If the sender of a transaction has the class of the proxy accounts, then its calldata has a
  -- signature or gives an error.
  abbrev pub IsReadable : Starknet.Transaction → Type 0
  IsReadable (Starknet.Transaction.invoke tx) =
      (chain.class_hash (invoked tx).sender ≢ some client.proxy_account_class_hash)
      ⊎ IsResult (decode_signature_from_tx_calldata (invoked tx).calldata)
  IsReadable _ = Unit

  abbrev pub AreReadable : Block → Type 0
  AreReadable b = All (λ t. IsReadable t.1) b.transactions

  show_signed-IsResult :
      (place : Option (FieldElement × U64)) (index : Option U256) (tx : Invoked)
      → IsResult (decode_signature_from_tx_calldata tx.calldata)
      → IsResult (show_signed client chain place index tx)
  show_signed-IsResult place index tx h =
      bind_ok-IsResult (ok_or (missing contract_error) (chain.evm_address tx.sender)) _
        (ok_or-IsResult (missing contract_error) (chain.evm_address tx.sender))
        (λ address _. map_ok-IsResult (kakarot_transaction client place index tx address) _ (
          map_err-IsResult EthApiError.data_decoding_error
            (decode_signature_from_tx_calldata tx.calldata) h))

  pub show_transaction-IsResult :
      (place : Option (FieldElement × U64)) (index : Option U256) (tx : Starknet.Transaction)
      → IsReadable tx
      → IsResult (show_transaction client chain place index tx)
  show_transaction-IsResult place index (Starknet.Transaction.invoke tx) h =
      bind_ok-IsResult (ok_or (missing contract_not_found) (chain.class_hash (invoked tx).sender)) _
        (ok_or-IsResult (missing contract_not_found) (chain.class_hash (invoked tx).sender))
        (λ c held. elim (Bool-cases (c == client.proxy_account_class_hash)) [
          | inl same ↦ rw same (
              show_signed-IsResult place index (invoked tx) (elim h [
                | inl foreign ↦ absurd (
                    foreign (
                      ok_or-eq-ok (missing contract_not_found)
                        (chain.class_hash (invoked tx).sender) held
                      ∙ ap some ((==_iff c client.proxy_account_class_hash).0 same)))
                | inr readable ↦ readable
              ]))
          | inr other ↦ rw other tt
        ])
  show_transaction-IsResult place index Starknet.Transaction.l1_handler h = tt
  show_transaction-IsResult place index Starknet.Transaction.declare h = tt
  show_transaction-IsResult place index Starknet.Transaction.deploy h = tt
  show_transaction-IsResult place index Starknet.Transaction.deploy_account h = tt

  pub listed-IsResult : (b : Block) → AreReadable b → IsResult (listed client chain b)
  listed-IsResult b h = values-IsResult _ (
      All-map IsResult (λ t. show_transaction client chain b.place none t.1) b.transactions
        (All-imp b.transactions (λ t r. show_transaction-IsResult b.place none t.1 r) h))

  pub show_block-IsResult :
      (full : Bool) (b : Block) → AreReadable b → IsResult (show_block client chain full b)
  show_block-IsResult true b h = map_ok-IsResult _ (listed client chain b) (listed-IsResult b h)
  show_block-IsResult false b h = tt

  pub show_receipt-IsResult :
      (r : MaybePendingTransactionReceipt) (tx : Starknet.Transaction)
      → IsReadable tx
      → IsResult (show_receipt client chain r tx)
  show_receipt-IsResult (MaybePendingTransactionReceipt.receipt (TransactionReceipt.invoke tr))
        (Starknet.Transaction.invoke tx) h =
      map_ok-IsResult _ (show_transaction client chain none none (Starknet.Transaction.invoke tx))
        (show_transaction-IsResult none none (Starknet.Transaction.invoke tx) h)
  show_receipt-IsResult (MaybePendingTransactionReceipt.receipt (TransactionReceipt.invoke tr))
        Starknet.Transaction.l1_handler h =
      tt
  show_receipt-IsResult (MaybePendingTransactionReceipt.receipt (TransactionReceipt.invoke tr))
        Starknet.Transaction.declare h =
      tt
  show_receipt-IsResult (MaybePendingTransactionReceipt.receipt (TransactionReceipt.invoke tr))
        Starknet.Transaction.deploy h =
      tt
  show_receipt-IsResult (MaybePendingTransactionReceipt.receipt (TransactionReceipt.invoke tr))
        Starknet.Transaction.deploy_account h =
      tt
  show_receipt-IsResult (MaybePendingTransactionReceipt.receipt TransactionReceipt.l1_handler) tx
        h =
      tt
  show_receipt-IsResult (MaybePendingTransactionReceipt.receipt TransactionReceipt.declare) tx h =
      tt
  show_receipt-IsResult (MaybePendingTransactionReceipt.receipt TransactionReceipt.deploy) tx h = tt
  show_receipt-IsResult (MaybePendingTransactionReceipt.receipt TransactionReceipt.deploy_account)
        tx h =
      tt
  show_receipt-IsResult MaybePendingTransactionReceipt.pending_receipt tx h = tt
