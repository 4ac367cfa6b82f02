-- ===== src/Server/Chain/Placed.antt =====
-- A receipt places the transaction that is converted where its block is, over a node that holds a
-- chain: crates/core/src/client/mod.rs.
use kakarot_rpc_adapter.Prelude.{◌≡◌, refl, sym, ap, ◌∙◌, Option, none, some}
use kakarot_rpc_adapter.Types.{FieldElement, U64, U256, H256}
use kakarot_rpc_adapter.Errors.{EthApiError, conversion_error, transaction_conversion_error}
use kakarot_rpc_adapter.Outcome.{ok, err}
use kakarot_rpc_adapter.Crates.{Crates}
use kakarot_rpc_adapter.Starknet
use kakarot_rpc_adapter.Starknet.{MaybePendingTransactionReceipt, TransactionReceipt}
use kakarot_rpc_adapter.Eth
use kakarot_rpc_adapter.Async
use kakarot_rpc_adapter.Async.{Async, Request}
use kakarot_rpc_adapter.Async.Interleaving.{Node, final, run-steady, steady}
use kakarot_rpc_adapter.Models.Felt.RoundTrip.{to_h256_lem}
use kakarot_rpc_adapter.Models.Transaction.{
  from_transaction, to_eth_transaction, sender_address, invoke_transaction_field,
}
use kakarot_rpc_adapter.Models.Transaction.Kakarot.{to_eth_transaction_other}
use kakarot_rpc_adapter.Client.Constants.{invalid_transaction_type}
use kakarot_rpc_adapter.Client.Contracts.{KakarotClient}
use kakarot_rpc_adapter.Client.Transactions.{transaction_client, place_of_receipt}
use kakarot_rpc_adapter.Server.Chain.{Block, Chain}
use kakarot_rpc_adapter.Server.Chain.Shown.{hash_at, number_at, show_transaction}
use kakarot_rpc_adapter.Server.Chain.Told.{Represents, Fits, IsListed}
use kakarot_rpc_adapter.Server.Chain.Transactions.{final-show_transaction}

module _ ⦃crates : Crates⦄ where
  open crates use {felt_to_bytes_be}

  -- A receipt that fits places a transaction where its block is.
  place_of_receipt_lem :
      (place : Option (FieldElement × U64)) (h : FieldElement) (tx : Starknet.InvokeTransaction)
      (r : MaybePendingTransactionReceipt)
      → Fits place (h, Starknet.Transaction.invoke tx) r
      → place_of_receipt r ≡ ok (hash_at place, number_at place)
  unfolding place_of_receipt
  place_of_receipt_lem none h tx MaybePendingTransactionReceipt.pending_receipt fits = refl
  place_of_receipt_lem none h tx
        (MaybePendingTransactionReceipt.receipt (TransactionReceipt.invoke tr)) fits =
      absurd fits
  place_of_receipt_lem none h tx
        (MaybePendingTransactionReceipt.receipt TransactionReceipt.l1_handler) fits =
      absurd fits
  place_of_receipt_lem none h tx (MaybePendingTransactionReceipt.receipt TransactionReceipt.declare)
        fits =
      absurd fits
  place_of_receipt_lem none h tx (MaybePendingTransactionReceipt.receipt TransactionReceipt.deploy)
        fits =
      absurd fits
  place_of_receipt_lem none h tx
        (MaybePendingTransactionReceipt.receipt TransactionReceipt.deploy_account) fits =
      absurd fits
  place_of_receipt_lem (some (hash, number)) h tx
        (MaybePendingTransactionReceipt.receipt (TransactionReceipt.invoke tr)) fits =
      rw (to_h256_lem {E = EthApiError}, fits.0, fits.1)
  place_of_receipt_lem (some (hash, number)) h tx MaybePendingTransactionReceipt.pending_receipt
        fits =
      absurd fits
  place_of_receipt_lem (some (hash, number)) h tx
        (MaybePendingTransactionReceipt.receipt TransactionReceipt.l1_handler) fits =
      absurd fits
  place_of_receipt_lem (some (hash, number)) h tx
        (MaybePendingTransactionReceipt.receipt TransactionReceipt.declare) fits =
      absurd fits
  place_of_receipt_lem (some (hash, number)) h tx
        (MaybePendingTransactionReceipt.receipt TransactionReceipt.deploy) fits =
      absurd fits
  place_of_receipt_lem (some (hash, number)) h tx
        (MaybePendingTransactionReceipt.receipt TransactionReceipt.deploy_account) fits =
      absurd fits

  -- Every receipt places a transaction somewhere or nowhere.
  place_of_receipt_total :
      (r : MaybePendingTransactionReceipt)
      → (p : Option H256 × Option U256) × (place_of_receipt r ≡ ok p)
  unfolding place_of_receipt
  place_of_receipt_total (MaybePendingTransactionReceipt.receipt (TransactionReceipt.invoke tr)) = (
    (some (felt_to_bytes_be tr.block_hash), some tr.block_number),
    rw (to_h256_lem {E = EthApiError}),
  )
  place_of_receipt_total MaybePendingTransactionReceipt.pending_receipt = (_, refl)
  place_of_receipt_total (MaybePendingTransactionReceipt.receipt TransactionReceipt.l1_handler) =
      (_, refl)
  place_of_receipt_total (MaybePendingTransactionReceipt.receipt TransactionReceipt.declare) =
      (_, refl)
  place_of_receipt_total (MaybePendingTransactionReceipt.receipt TransactionReceipt.deploy) =
      (_, refl)
  place_of_receipt_total
        (MaybePendingTransactionReceipt.receipt TransactionReceipt.deploy_account) =
      (_, refl)

module _ ⦃crates : Crates⦄ (client : KakarotClient) (node : Node) (chain : Chain)
    (represents : Represents client node chain) where
  -- The last part of both functions: the place, and the conversion with it.
  unfoldable pub placed :
      MaybePendingTransactionReceipt
      → Starknet.Transaction
      → Option U256
      → Async EthApiError Eth.Transaction
  placed r tx index = Async.◌>>=◌ (Async.lift (place_of_receipt r)) (λ (block_hash, block_num).
      to_eth_transaction (from_transaction tx) (transaction_client client) block_hash block_num
        index)

  final-other :
      (r : MaybePendingTransactionReceipt) (tx : Starknet.Transaction) (index : Option U256)
      → sender_address (from_transaction tx)
        ≡ err (transaction_conversion_error invalid_transaction_type)
      → final node (placed r tx index)
        ≡ err (conversion_error (transaction_conversion_error invalid_transaction_type))
  unfolding placed
  final-other r tx index e =
      let (p, placed) = place_of_receipt_total r in
      rw placed (
        unfold Async.◌>>=◌ in
        sym (run-steady node _ 0)
        ∙ ap (λ p. p.0)
            (to_eth_transaction_other (from_transaction tx) (transaction_client client) p.0 p.1
              index (steady node) 0 e))

  pub final-placed :
      (b : Block) (hash : FieldElement) (tx : Starknet.Transaction) (index : Option U256)
      → IsListed chain b (hash, tx)
      → final node (placed (chain.receipt hash) tx index)
        ≡ show_transaction client chain b.place index tx
  unfolding placed sender_address invoke_transaction_field
  final-placed b hash (Starknet.Transaction.invoke tx) index h =
      rw (place_of_receipt_lem b.place hash tx (chain.receipt hash) h.fits) (
        unfold Async.◌>>=◌ in
        final-show_transaction client node chain represents b.place index hash
          (Starknet.Transaction.invoke tx) h.is_transaction)
  final-placed b hash Starknet.Transaction.l1_handler index h = final-other _ _ index refl
  final-placed b hash Starknet.Transaction.declare index h = final-other _ _ index refl
  final-placed b hash Starknet.Transaction.deploy index h = final-other _ _ index refl
  final-placed b hash Starknet.Transaction.deploy_account index h = final-other _ _ index refl
