-- ===== src/Client/Decode/Segments.antt =====
-- Which segments `decode_eth_call_return` and `decode_eth_send_transaction_return` of
-- crates/core/src/client/helpers.rs find.
use kakarot_rpc_adapter.Prelude.{
  ℕ, zero, suc, ◌+◌, ◌≡◌, refl, ap, List, [], ◌∷◌, ◌++◌, String, length, take, drop, leb,
  if◌then◌else◌, arith, append-nil, take-append_length, drop-append_length, length-append, le→leb,
  append_assoc,
}
use kakarot_rpc_adapter.Types.{FieldElement, IsFelt}
use kakarot_rpc_adapter.Errors.{other_error}
use kakarot_rpc_adapter.Outcome.{ok, err}
use kakarot_rpc_adapter.Crates.{Crates}
use kakarot_rpc_adapter.Client.Decode.{
  FeltOrFeltArray, felt, felt_array, push_last, array_loop, decode_eth_call_return,
  decode_eth_send_transaction_return,
}

push_last-append :
    (front : List FeltOrFeltArray) (xs : List FieldElement) (element : FieldElement)
    → push_last (front ++ felt_array xs ∷ []) element
      ≡ front ++ felt_array (xs ++ element ∷ []) ∷ []
unfolding push_last
push_last-append [] xs element = refl
push_last-append (felt a ∷ []) xs element = refl
push_last-append (felt_array ys ∷ []) xs element = refl
push_last-append (s ∷ t ∷ rest) xs element =
    ap (λ l. s ∷ l) (push_last-append (t ∷ rest) xs element)

module _ ⦃crates : Crates⦄ where
  open crates use {felt_sub, felt_from_uint, felt_sub_lem, felt_from_uint_lem}

  one_less : (n : ℕ) → IsFelt (suc n) → felt_sub (suc n) (felt_from_uint 1) ≡ n
  one_less n h =
      rw (felt_from_uint_lem 1 (omega arith), felt_sub_lem (suc n) 1 h (omega arith)) (omega arith)

  -- The loop moves as many cells as its count says into the last array; if there are fewer, it fails.
  array_loop_lem :
      (missing : String) (rest : List FieldElement) (n : ℕ) (front : List FeltOrFeltArray)
      (xs : List FieldElement)
      → IsFelt n
      → array_loop missing rest n (front ++ felt_array xs ∷ []) ≡ (
          if leb n (length rest)
          then ok (front ++ felt_array (xs ++ take n rest) ∷ [], drop n rest)
          else err (other_error missing))
  unfolding array_loop
  array_loop_lem missing [] zero front xs h = rw append-nil
  array_loop_lem missing [] (suc n) front xs h = ground arith
  array_loop_lem missing (element ∷ rest) zero front xs h = ground (arith, append-nil xs)
  array_loop_lem missing (element ∷ rest) (suc n) front xs h = ground (
    arith,
    one_less n h,
    push_last-append front xs element,
    append_assoc xs (element ∷ []) (take n rest),
    array_loop_lem missing rest n front (xs ++ element ∷ []) (omega arith),
  )

  -- For a count below the prime in the first cell, `decode_eth_call_return` gives one array, the
  -- cells that it counts, whatever follows them, and fails exactly if there are fewer cells than
  -- that.
  pub decode_eth_call_return_lem :
      (n : FieldElement) (rest : List FieldElement)
      → IsFelt n
      → decode_eth_call_return (n ∷ rest) ≡ (
          if leb n (length rest)
          then ok (felt_array (take n rest) ∷ [])
          else err (
              other_error
                "Cannot parse and decode return arguments of Kakarot call: return data array"))
  unfolding decode_eth_call_return
  decode_eth_call_return_lem n rest h = ground (
    arith,
    array_loop_lem "Cannot parse and decode return arguments of Kakarot call: return data array"
        rest n [] [] h,
  )

  -- A count that is met exactly, in front of the rest.
  array_loop-append :
      (missing : String) (front : List FeltOrFeltArray) (xs rest : List FieldElement)
      → IsFelt (length xs)
      → array_loop missing (xs ++ rest) (length xs) (front ++ felt_array [] ∷ [])
        ≡ ok (front ++ felt_array xs ∷ [], rest)
  array_loop-append missing front xs rest h = rw (
    array_loop_lem missing (xs ++ rest) (length xs) front [] h,
    take-append_length,
    drop-append_length,
    length-append,
    le→leb (length xs) (length xs + length rest) (omega arith),
  )

-- What the entrypoint `eth_send_transaction` returns, in the order of its cells.
pub record SendTransactionReturn : Type 0 where
  pub stack_accesses : List FieldElement
  pub stack_len : FieldElement
  pub memory_accesses : List FieldElement
  pub memory_len : FieldElement
  pub evm_address : FieldElement
  pub starknet_address : FieldElement
  pub return_data : List FieldElement
  pub gas_used : FieldElement

-- Each array behind its length.
abbrev pub cells : SendTransactionReturn → List FieldElement
cells r =
    length r.stack_accesses ∷ r.stack_accesses
    ++ (r.stack_len ∷ length r.memory_accesses ∷ r.memory_accesses
        ++ (r.memory_len ∷ r.evm_address ∷ r.starknet_address ∷ length r.return_data ∷ r.return_data
            ++ (r.gas_used ∷ [])))

abbrev pub segments : SendTransactionReturn → List FeltOrFeltArray
segments r =
    felt_array r.stack_accesses
    ∷ felt r.stack_len
    ∷ felt_array r.memory_accesses
    ∷ felt r.memory_len
    ∷ felt r.evm_address
    ∷ felt r.starknet_address
    ∷ felt_array r.return_data
    ∷ felt r.gas_used
    ∷ []

module _ ⦃crates : Crates⦄ where
  -- The eight segments of what `eth_send_transaction` returns are found, in their order, if the
  -- lengths of its three arrays lie below the prime.
  pub decode_eth_send_transaction_return-cells :
      (r : SendTransactionReturn)
      → IsFelt (length r.stack_accesses)
      → IsFelt (length r.memory_accesses)
      → IsFelt (length r.return_data)
      → decode_eth_send_transaction_return (cells r) ≡ ok (segments r)
  unfolding decode_eth_send_transaction_return
  decode_eth_send_transaction_return-cells r hs hm hd = rw (
    array_loop-append _ [] r.stack_accesses _ hs,
    array_loop-append _ (felt_array r.stack_accesses ∷ felt r.stack_len ∷ []) r.memory_accesses _
        hm,
    array_loop-append _
        (felt_array r.stack_accesses
          ∷ felt r.stack_len
          ∷ felt_array r.memory_accesses
          ∷ felt r.memory_len
          ∷ felt r.evm_address
          ∷ felt r.starknet_address
          ∷ [])
        r.return_data _ hd,
  )
