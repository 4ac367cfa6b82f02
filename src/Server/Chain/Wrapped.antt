-- ===== src/Server/Chain/Wrapped.antt =====
-- What the methods of the server make of what they ask of the client: crates/eth-rpc/src/eth_rpc.rs.
use kakarot_rpc_adapter.Prelude.{
  none, Option, ◌≡◌, refl, sym, ap, ◌∙◌, some, ltb, Bool-cases, inl, inr,
}
use kakarot_rpc_adapter.Prelude.Bytes.{be_value}
use kakarot_rpc_adapter.Types.{prime}
use kakarot_rpc_adapter.Errors.{StarknetError, EthApiError}
use kakarot_rpc_adapter.Errors.Codes.{to_error_object}
use kakarot_rpc_adapter.Outcome
use kakarot_rpc_adapter.Outcome.{
  Outcome, ok, err, panic, map_ok, map_ok_lem, map_err, ok_or, map_ok-map_err, map_ok->>=,
  >>=_assoc,
}
use kakarot_rpc_adapter.Crates.{Crates}
use kakarot_rpc_adapter.Starknet
use kakarot_rpc_adapter.Eth.{BlockId, BlockNumberOrTag}
use kakarot_rpc_adapter.Async
use kakarot_rpc_adapter.Async.{Async, Request, lift, map_error, pure}
use kakarot_rpc_adapter.Async.Interleaving.{Node, final}
use kakarot_rpc_adapter.Async.Final.{of_reply, final->>=, final-map_error}
use kakarot_rpc_adapter.Client.Helpers.{
  ethers_block_id_to_starknet_block_id, ethers_block_number_to_starknet_block_id,
}
use kakarot_rpc_adapter.Client.Helpers.Conversions.{ethers_block_id_to_starknet_block_id-hash}
use kakarot_rpc_adapter.Rpc
use kakarot_rpc_adapter.Server.Chain.Shown.{missing}
use kakarot_rpc_adapter.Server.Chain.Queries.{starknet_id}
use kakarot_rpc_adapter.Server.Chain.Told.{told}
use kakarot_rpc_adapter.Server.Chain.Replies.{IsBlockId}

pub of_reply-told :
    {A : Type 0} (e : StarknetError) (o : Option A) → of_reply (told e o) ≡ ok_or (missing e) o
of_reply-told e none = refl
of_reply-told e (some a) = refl

pub shown_by_id :
    {E A B C : Type 0} (o : Outcome E A) (p : A → Outcome E B) (f : B → Outcome E C)
    → map_ok some (Outcome.◌>>=◌ o (λ a. Outcome.◌>>=◌ (p a) f))
      ≡ Outcome.◌>>=◌ (Outcome.◌>>=◌ o p) (λ b. map_ok some (f b))
shown_by_id o p f = ap (map_ok some) (sym (>>=_assoc o p f)) ∙ map_ok->>= some (Outcome.◌>>=◌ o p) f

module _ ⦃crates : Crates⦄ where
  pub starknet_id_lem :
      (id : BlockId) → IsBlockId id → ethers_block_id_to_starknet_block_id id ≡ starknet_id id
  unfolding ethers_block_id_to_starknet_block_id ethers_block_number_to_starknet_block_id
  starknet_id_lem (BlockId.hash h) a = elim (Bool-cases (ltb (be_value h) prime)) [
    | inl lt ↦ rw (ethers_block_id_to_starknet_block_id-hash h a, lt)
    | inr ge ↦ rw (ethers_block_id_to_starknet_block_id-hash h a, ge)
  ]
  starknet_id_lem (BlockId.number BlockNumberOrTag.latest) a = refl
  starknet_id_lem (BlockId.number BlockNumberOrTag.finalized) a = refl
  starknet_id_lem (BlockId.number BlockNumberOrTag.safe) a = refl
  starknet_id_lem (BlockId.number BlockNumberOrTag.earliest) a = refl
  starknet_id_lem (BlockId.number BlockNumberOrTag.pending) a = refl
  starknet_id_lem (BlockId.number (BlockNumberOrTag.number n)) a = refl

  -- A method that asks the client and wraps the value.
  pub final-wrapped :
      {A : Type 0} (node : Node) (m : Async EthApiError A)
      → final node (Async.◌>>=◌ (map_error to_error_object m) λ a. pure (some a))
        ≡ map_err to_error_object (map_ok some (final node m))
  unfolding final
  final-wrapped node m =
      rw (final->>=, final-map_error)
        (map_ok_lem some (map_err to_error_object (final node m))
          ∙ map_ok-map_err to_error_object some (final node m))

  -- A method that converts its block id, asks the client and wraps the value.
  pub final-by_id :
      {A : Type 0} (node : Node) (id : BlockId) (f : Starknet.BlockId → Async EthApiError A)
      → IsBlockId id
      → final node (
          Async.◌>>=◌
            (Rpc.starknet_block id)
            λ i. Async.◌>>=◌ (map_error to_error_object (f i)) λ a. pure (some a))
        ≡ map_err to_error_object
            (map_ok some (Outcome.◌>>=◌ (starknet_id id) (λ i. final node (f i))))
  unfolding Rpc.starknet_block final
  final-by_id node id f a = rw (starknet_id_lem id a) (by_conversion (starknet_id id))
    where
      by_conversion :
          (o : Outcome EthApiError Starknet.BlockId)
          → final node (
              Async.◌>>=◌
                (lift (map_err to_error_object o))
                λ i. Async.◌>>=◌ (map_error to_error_object (f i)) λ a. pure (some a))
            ≡ map_err to_error_object (map_ok some (Outcome.◌>>=◌ o (λ i. final node (f i))))
      by_conversion (ok i) = (unfold Async.◌>>=◌ in final-wrapped node (f i))
      by_conversion (err x) = (unfold Async.◌>>=◌ in refl)
      by_conversion panic = (unfold Async.◌>>=◌ in refl)
