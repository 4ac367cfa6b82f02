-- ===== src/Client/Decode/Total.antt =====
-- The loops of the decoders of crates/core/src/client/helpers.rs end, and decode what stands behind
-- `tmp_counter`.
use native.Mathlib.Numerals.{unary_clauses}
use mathlib.Core.Option.{some-ne-none}
use kakarot_rpc_adapter.Prelude.{
  ℕ, zero, suc, ◌+◌, ◌≤◌, ◌≡◌, refl, ◌⊎◌, inl, inr, List, [], ◌∷◌, true, none, some, String, length,
  get_elem?, drop, arith, get_elem?-past, sym, ◌∙◌, dec_lt, ◌==◌, Bool-cases,
}
use kakarot_rpc_adapter.Types.{FieldElement}
use kakarot_rpc_adapter.Errors.{EthApiError}
use kakarot_rpc_adapter.Outcome
use kakarot_rpc_adapter.Outcome.{Outcome, ok, err, panic}
use kakarot_rpc_adapter.Crates.{Crates}
use kakarot_rpc_adapter.Client.Decode.{
  FeltOrFeltArray, next, array_loop, push_last, decode_eth_call_return,
  decode_eth_send_transaction_return,
}
use kakarot_rpc_adapter.Client.Decode.Loops.{
  Fuelled, ◌>>=◌, cell, array_while, decode_eth_call_return_while,
  decode_eth_send_transaction_return_while,
}

-- A run with fuel ends, in what a reading of the list gives, seen through a view.
data Agrees {X Y : Type 0} (view : X → Y) : Fuelled X → Outcome EthApiError Y → Type 0 where
  value : (x : X) → Agrees view (some (ok x)) (ok (view x))
  error : (e : EthApiError) → Agrees view (some (err e)) (err e)

Agrees-same :
    {X : Type 0} {m : Fuelled X} {o : Outcome EthApiError X} → Agrees (λ x. x) m o → m ≡ some o
Agrees-same (value x) = refl
Agrees-same (error e) = refl

module _ {X Y V W : Type 0} where
  Agrees-bind :
      (view : X → Y) (view' : V → W) {m : Fuelled X} {o : Outcome EthApiError Y} (f : X → Fuelled V)
      (g : Y → Outcome EthApiError W)
      → Agrees view m o
      → ((x : X) → Agrees view' (f x) (g (view x)))
      → Agrees view' (m >>= f) (Outcome.◌>>=◌ o g)
  Agrees-bind view view' f g (value x) h = h x
  Agrees-bind view view' f g (error e) h = error e

-- What a counter points at, and what stands behind it.
cell_cases :
    (cells : List FieldElement) (c : ℕ)
    → ((get_elem? cells c ≡ none) × (drop c cells ≡ []))
      ⊎ ((a : FieldElement) × (get_elem? cells c ≡ some a)
          × (drop c cells ≡ a ∷ drop (c + 1) cells))
cell_cases cells c = simp unary_clauses (go cells c)
  where
    go :
        (cells : List FieldElement) (c : ℕ)
        → ((get_elem? cells c ≡ none) × (drop c cells ≡ []))
          ⊎ ((a : FieldElement) × (get_elem? cells c ≡ some a)
              × (drop c cells ≡ a ∷ drop (suc c) cells))
    go [] zero = inl (refl, refl)
    go [] (suc c) = inl (refl, refl)
    go (a ∷ cells) zero = inr (a, refl, refl)
    go (a ∷ cells) (suc c) = go cells c

module _ (cells : List FieldElement) where
  abbrev behind : ℕ → FieldElement → FieldElement × List FieldElement
  behind c a = (a, drop (c + 1) cells)

  Agrees-cell :
      (missing : String) (c : ℕ)
      → Agrees (behind c) (cell missing cells c) (next missing (drop c cells))
  unfolding cell next
  Agrees-cell missing c = elim (cell_cases cells c) [
    | inl (out, nil) ↦ rw (out, nil) (error _)
    | inr (a, at, more) ↦ rw (at, more) (value a)
  ]

  abbrev left : List FeltOrFeltArray × ℕ → List FeltOrFeltArray × List FieldElement
  left x = (x.0, drop x.1 cells)

module _ ⦃crates : Crates⦄ (cells : List FieldElement) where
  open crates use {felt_sub, felt_from_uint}

  array_loop_zero :
      (missing : String) (rest : List FieldElement) (n : FieldElement)
      (segmented : List FeltOrFeltArray)
      → n == 0 ≡ true
      → array_loop missing rest n segmented ≡ ok (segmented, rest)
  unfolding array_loop
  array_loop_zero missing [] n segmented e = rw e refl
  array_loop_zero missing (a ∷ rest) n segmented e = rw e refl

  -- The counter has not passed the cells while it points at one.
  within : (c : ℕ) (a : FieldElement) → get_elem? cells c ≡ some a → suc c ≤ length cells
  within c a at = elim (dec_lt c (length cells)) [
    | yes h ↦ omega (arith, h)
    | no h ↦ absurd (some-ne-none a (sym at ∙ get_elem?-past cells c (omega arith)))
  ]

  abbrev LoopAgrees : ℕ → String → ℕ → FieldElement → List FeltOrFeltArray → Type 0
  LoopAgrees fuel missing c n segmented =
      Agrees (left cells) (array_while fuel missing cells c n segmented)
        (array_loop missing (drop c cells) n segmented)

  one_round :
      (fuel : ℕ) (missing : String) (c : ℕ) (n : FieldElement) (segmented : List FeltOrFeltArray)
      → ((a : FieldElement)
          → get_elem? cells c ≡ some a
          → LoopAgrees fuel missing (c + 1) (felt_sub n (felt_from_uint 1)) (push_last segmented a))
      → LoopAgrees (suc fuel) missing c n segmented
  unfolding array_while array_loop cell
  one_round fuel missing c n segmented h = elim (Bool-cases (n == 0)) [
    | inl e ↦ rw (array_loop_zero missing (drop c cells) n segmented e, e) (value (segmented, c))
    | inr e ↦ elim (cell_cases cells c) [
      | inl (out, nil) ↦ rw (out, nil, e) (error _)
      | inr (a, at, more) ↦ rw (at, more, e) (h a at)
    ]
  ]

  -- The loop ends, and gives what the list behind the counter gives.
  Agrees-while :
      (fuel : ℕ) (missing : String) (c : ℕ) (n : FieldElement) (segmented : List FeltOrFeltArray)
      → length cells ≤ c + fuel
      → LoopAgrees (suc fuel) missing c n segmented
  Agrees-while zero missing c n segmented h =
      one_round zero missing c n segmented λ a at. absurd (omega (arith, within c a at))
  Agrees-while (suc fuel) missing c n segmented h =
      one_round (suc fuel) missing c n segmented
        λ a at. Agrees-while fuel missing (c + 1) _ _ (omega arith)

  module _ (fuel : ℕ) (enough : length cells ≤ fuel) where
    array_while-Agrees :
        (missing : String) (c : ℕ) (n : FieldElement) (segmented : List FeltOrFeltArray)
        → LoopAgrees (suc fuel) missing c n segmented
    array_while-Agrees missing c n segmented = Agrees-while fuel missing c n segmented (omega arith)

    decode_eth_call_return_while-Agrees :
        Agrees
          (λ s. s)
          (decode_eth_call_return_while (suc fuel) cells)
          (decode_eth_call_return cells)
    unfolding decode_eth_call_return_while decode_eth_call_return
    decode_eth_call_return_while-Agrees =
        Agrees-bind (behind cells 0) (λ s. s) _ _ (Agrees-cell cells _ 0)
          λ n. Agrees-bind (left cells) (λ s. s) _ _ (array_while-Agrees _ 1 n _) λ x. value x.0

    decode_eth_send_transaction_return_while-Agrees :
        Agrees
          (λ s. s)
          (decode_eth_send_transaction_return_while (suc fuel) cells)
          (decode_eth_send_transaction_return cells)
    unfolding decode_eth_send_transaction_return_while decode_eth_send_transaction_return
    decode_eth_send_transaction_return_while-Agrees =
        Agrees-bind (behind cells 0) (λ s. s) _ _ (Agrees-cell cells _ 0)
          λ n.
            Agrees-bind (left cells) (λ s. s) _ _ (array_while-Agrees _ 1 n _)
              λ stack.
                Agrees-bind (behind cells _) (λ s. s) _ _ (Agrees-cell cells _ _)
                  λ stack_len.
                    Agrees-bind (behind cells _) (λ s. s) _ _ (Agrees-cell cells _ _)
                      λ n.
                        Agrees-bind (left cells) (λ s. s) _ _ (array_while-Agrees _ _ n _)
                          λ memory.
                            Agrees-bind (behind cells _) (λ s. s) _ _ (Agrees-cell cells _ _)
                              λ memory_len.
                                Agrees-bind (behind cells _) (λ s. s) _ _ (Agrees-cell cells _ _)
                                  λ evm_address.
                                    Agrees-bind (behind cells _) (λ s. s) _ _
                                      (Agrees-cell cells _ _)
                                      λ starknet_address.
                                        Agrees-bind (behind cells _) (λ s. s) _ _
                                          (Agrees-cell cells _ _)
                                          λ n.
                                            Agrees-bind (left cells) (λ s. s) _ _
                                              (array_while-Agrees _ _ n _)
                                              λ returned.
                                                Agrees-bind (behind cells _) (λ s. s) _ _
                                                  (Agrees-cell cells _ _) λ gas_used. value _

module _ ⦃crates : Crates⦄ (cells : List FieldElement) (fuel : ℕ) where
  -- With more fuel than there are cells, the loop of `decode_eth_call_return` over `tmp_counter`
  -- ends, and the function gives what it gives as a reading of the list from the front.
  pub decode_eth_call_return_while_lem :
      length cells ≤ fuel
      → decode_eth_call_return_while (suc fuel) cells ≡ some (decode_eth_call_return cells)
  decode_eth_call_return_while_lem h =
      Agrees-same (decode_eth_call_return_while-Agrees cells fuel h)

  -- With more fuel than there are cells, the loops of `decode_eth_send_transaction_return` over
  -- `tmp_counter` end, and the function gives what it gives as a reading of the list from the
  -- front.
  pub decode_eth_send_transaction_return_while_lem :
      length cells ≤ fuel
      → decode_eth_send_transaction_return_while (suc fuel) cells
        ≡ some (decode_eth_send_transaction_return cells)
  decode_eth_send_transaction_return_while_lem h =
      Agrees-same (decode_eth_send_transaction_return_while-Agrees cells fuel h)
