-- ===== src/Async.antt =====
-- The `async` functions of the client. Such a function is a tree: it ends in an outcome, or makes
-- one request of the Starknet provider (trait `Provider` of the crate starknet) and goes on with
-- the reply. What the node replies is not part of the model: a run takes it from a script, which
-- may answer the same request otherwise each time.
pub mod Run
pub mod Join
pub mod Only
pub mod Once
pub mod Yields
pub mod Raises
pub mod Bounded
pub mod Panics
pub mod Interleaving
pub mod Final
use kakarot_rpc_adapter.Prelude.{ℕ, List, ◌⊎◌, inl, inr, Option, none, some}
use kakarot_rpc_adapter.Types.{FieldElement, U64}
use kakarot_rpc_adapter.Errors.{ProviderError, EthApiError}
use kakarot_rpc_adapter.Starknet.{
  BlockId, FunctionCall, Transaction, MaybePendingBlockWithTxs, MaybePendingBlockWithTxHashes,
  MaybePendingTransactionReceipt, SyncStatusType, BroadcastedInvokeTransactionV1,
}
use kakarot_rpc_adapter.Outcome.{Outcome, ok, err, panic, map_err}

pub data Request : Type 0 where
  block_number syncing : Request
  get_block_with_txs get_block_with_tx_hashes : BlockId → Request
  call : FunctionCall → BlockId → Request
  get_transaction_by_block_id_and_index : BlockId → U64 → Request
  get_transaction_by_hash get_transaction_receipt : FieldElement → Request
  get_nonce get_class_hash_at : BlockId → FieldElement → Request
  add_invoke_transaction : BroadcastedInvokeTransactionV1 → Request

abbrev pub Value : Request → Type 0
Value block_number = U64
Value syncing = SyncStatusType
Value (get_block_with_txs _) = MaybePendingBlockWithTxs
Value (get_block_with_tx_hashes _) = MaybePendingBlockWithTxHashes
Value (call _ _) = List FieldElement
Value (get_transaction_by_block_id_and_index _ _) = Transaction
Value (get_transaction_by_hash _) = Transaction
Value (get_transaction_receipt _) = MaybePendingTransactionReceipt
Value (get_nonce _ _) = FieldElement
Value (get_class_hash_at _ _) = FieldElement
Value (add_invoke_transaction _) = FieldElement

abbrev pub Reply : Request → Type 0
Reply r = ProviderError ⊎ Value r

pub data Async (E A : Type 0) : Type 0 where
  ret : Outcome E A → Async E A
  request : (r : Request) → (Reply r → Async E A) → Async E A

module _ {E A B : Type 0} where
  abbrev pub after : Outcome E A → (A → Async E B) → Async E B
  after (ok a) f = f a
  after (err e) f = ret (err e)
  after panic f = ret panic

  infixl 5 ◌>>=◌
  unfoldable pub ◌>>=◌ : Async E A → (A → Async E B) → Async E B
  ret o >>= f = after o f
  request r k >>= f = request r (λ x. k x >>= f)

module _ {E A : Type 0} where
  abbrev pub pure : A → Async E A
  pure a = ret (ok a)

  abbrev pub throw : E → Async E A
  throw e = ret (err e)

  -- A call of a function that is not `async`.
  abbrev pub lift : Outcome E A → Async E A
  lift o = ret o

  abbrev pub crash : Async E A
  crash = ret panic

module _ {E F A : Type 0} where
  -- The conversion of the error that `?` inserts.
  unfoldable pub map_error : (E → F) → Async E A → Async F A
  map_error f (ret o) = ret (map_err f o)
  map_error f (request r k) = request r (λ x. map_error f (k x))

module _ {E A : Type 0} where
  -- The `Result` of an awaited future, kept as a value. A panic is no `Result`.
  abbrev pub caught : Outcome E A → Outcome E (E ⊎ A)
  caught (ok a) = ok (inr a)
  caught (err e) = ok (inl e)
  caught panic = panic

  unfoldable pub attempt : Async E A → Async E (E ⊎ A)
  attempt (ret o) = ret (caught o)
  attempt (request r k) = request r (λ x. attempt (k x))

-- `provider.r().await?`
abbrev pub received : (r : Request) → Reply r → Async EthApiError (Value r)
received r (inl e) = ret (err (EthApiError.request_error e))
received r (inr v) = ret (ok v)

unfoldable pub ask : (r : Request) → Async EthApiError (Value r)
ask r = request r (received r)
