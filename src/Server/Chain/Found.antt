-- ===== src/Server/Chain/Found.antt =====
-- What holds of all blocks, and of all transactions of them, holds of those that are found in a chain.
use kakarot_rpc_adapter.Prelude.{
  ℕ, ◌≡◌, List, [], ◌∷◌, Option, none, some, Bool, true, ◌==◌, Bool-cases, Option-cases, ==_iff,
  inl, inr, All, get_elem?, zero, suc,
}
use mathlib.Core.Path.{subst}
use kakarot_rpc_adapter.Types.{FieldElement}
use kakarot_rpc_adapter.Starknet
use kakarot_rpc_adapter.Server.Chain.{
  Block, Chain, all_blocks, with_pending, first, find, lookup, locate_in,
}

some_inj : {A : Type 0} {a b : A} → some a ≡ some b → a ≡ b
some_inj e = cc

module _ (P : Block → Type 0) where
  first-All :
      (test : Block → Bool) (bs : List Block) (b : Block) → All P bs → first test bs ≡ some b → P b
  first-All test [] b ps e = cc
  first-All test (c ∷ bs) b (p, ps) e = elim (Bool-cases (test c)) [
    | inl passed ↦ subst P (cc (rw passed at e)) p
    | inr failed ↦ first-All test bs b ps (rw failed at e)
  ]

  with_pending-All :
      (pending : Option Block) (bs : List Block) → All P (with_pending pending bs) → All P bs
  with_pending-All none bs ps = ps
  with_pending-All (some b) bs (p, ps) = ps

  with_pending-pending :
      (pending : Option Block) (bs : List Block) (b : Block)
      → All P (with_pending pending bs)
      → pending ≡ some b
      → P b
  with_pending-pending none bs b ps e = cc
  with_pending-pending (some c) bs b (p, ps) e = subst P (cc e) p

  -- What holds of all blocks holds of the one that is found.
  pub find-All :
      (chain : Chain) (id : Starknet.BlockId) (b : Block)
      → All P (all_blocks chain)
      → find chain id ≡ some b
      → P b
  find-All chain (Starknet.BlockId.hash h) b ps e =
      first-All _ chain.blocks b (with_pending-All chain.pending chain.blocks ps) e
  find-All chain (Starknet.BlockId.number n) b ps e =
      first-All _ chain.blocks b (with_pending-All chain.pending chain.blocks ps) e
  find-All chain (Starknet.BlockId.tag Starknet.BlockTag.latest) b ps e =
      first-All (λ _. true) chain.blocks b (with_pending-All chain.pending chain.blocks ps) e
  find-All chain (Starknet.BlockId.tag Starknet.BlockTag.pending) b ps e =
      with_pending-pending chain.pending chain.blocks b ps e

module _ {A : Type 0} (P : A → Type 0) where
  pub get_elem?-All : (xs : List A) (i : ℕ) (x : A) → All P xs → get_elem? xs i ≡ some x → P x
  get_elem?-All [] i x ps e = cc
  get_elem?-All (y ∷ xs) zero x (p, ps) e = subst P (cc e) p
  get_elem?-All (y ∷ xs) (suc i) x (p, ps) e = get_elem?-All xs i x ps e

module _ (P : Block → FieldElement × Starknet.Transaction → Type 0) where
  lookup-All :
      (b : Block) (h : FieldElement) (ts : List (FieldElement × Starknet.Transaction))
      (tx : Starknet.Transaction)
      → All (P b) ts
      → lookup h ts ≡ some tx
      → P b (h, tx)
  lookup-All b h [] tx ps e = cc
  lookup-All b h ((hash, t) ∷ ts) tx (p, ps) e = elim (Bool-cases (hash == h)) [
    | inl same ↦ subst (P b) (cc ((==_iff hash h).0 same, rw same at e)) p
    | inr other ↦ lookup-All b h ts tx ps (rw other at e)
  ]

  -- What holds of all transactions of all blocks holds of the one that is located.
  pub locate_in-All :
      (bs : List Block) (h : FieldElement) (b : Block) (tx : Starknet.Transaction)
      → All (λ b. All (P b) b.transactions) bs
      → locate_in h bs ≡ some (b, tx)
      → P b (h, tx)
  locate_in-All [] h b tx ps e = cc
  locate_in-All (c ∷ bs) h b tx (p, ps) e = elim (Option-cases (lookup h c.transactions)) [
    | inl absent ↦ locate_in-All bs h b tx ps (rw absent at e)
    | inr (t, held) ↦
        subst (λ x. P x.0 (h, x.1)) (some_inj (rw held at e))
          (lookup-All c h c.transactions t p held)
  ]
