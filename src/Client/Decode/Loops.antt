-- ===== src/Client/Decode/Loops.antt =====
-- The decoders of crates/core/src/client/helpers.rs as loops over `tmp_counter`. A loop takes fuel:
-- `none` is a run that has used it up.
use kakarot_rpc_adapter.Prelude.{
  ℕ, zero, suc, ◌+◌, List, [], ◌∷◌, ◌++◌, Option, none, some, String, ◌==◌, if◌then◌else◌,
  get_elem?,
}
use kakarot_rpc_adapter.Types.{FieldElement}
use kakarot_rpc_adapter.Errors.{EthApiError, other_error}
use kakarot_rpc_adapter.Outcome.{Outcome, ok, err, panic, ok_or}
use kakarot_rpc_adapter.Crates.{Crates}
use kakarot_rpc_adapter.Client.Decode.{FeltOrFeltArray, felt, felt_array, push_last}

abbrev pub Fuelled : Type 0 → Type 0
Fuelled A = Option (Outcome EthApiError A)

infixl 5 ◌>>=◌
abbrev pub ◌>>=◌ : {A B : Type 0} → Fuelled A → (A → Fuelled B) → Fuelled B
none >>= f = none
some (ok a) >>= f = f a
some (err e) >>= f = some (err e)
some panic >>= f = some panic

-- `call_result.get(tmp_counter).ok_or_else(...)?`
unfoldable pub cell : String → List FieldElement → ℕ → Fuelled FieldElement
cell missing call_result tmp_counter =
    some (ok_or (other_error missing) (get_elem? call_result tmp_counter))

module _ ⦃crates : Crates⦄ where
  open crates use {felt_sub, felt_from_uint}

  -- `while tmp_array_len != FieldElement::ZERO`: the segments and `tmp_counter` at its end.
  unfoldable pub array_while :
      ℕ
      → String
      → List FieldElement
      → ℕ
      → FieldElement
      → List FeltOrFeltArray
      → Fuelled (List FeltOrFeltArray × ℕ)
  unfolding cell
  array_while zero missing call_result tmp_counter tmp_array_len segmented = none
  array_while (suc fuel) missing call_result tmp_counter tmp_array_len segmented =
      let body = (do
        element ← cell missing call_result tmp_counter
        array_while fuel missing call_result (tmp_counter + 1)
            (felt_sub tmp_array_len (felt_from_uint 1)) (push_last segmented element)) in
      if tmp_array_len == 0 then some (ok (segmented, tmp_counter)) else body

  unfoldable pub decode_eth_call_return_while :
      ℕ → List FieldElement → Fuelled (List FeltOrFeltArray)
  unfolding cell
  decode_eth_call_return_while fuel call_result = do
    tmp_array_len ← cell "Cannot parse and decode return arguments of Kakarot call" call_result 0
    (segmented, tmp_counter) ←
        array_while fuel
          "Cannot parse and decode return arguments of Kakarot call: return data array" call_result
          1 tmp_array_len (felt_array [] ∷ [])
    some (ok segmented)

  unfoldable pub decode_eth_send_transaction_return_while :
      ℕ → List FieldElement → Fuelled (List FeltOrFeltArray)
  unfolding cell
  decode_eth_send_transaction_return_while fuel call_result = do
    stack_accesses_len ←
        cell "Cannot parse and decode return arguments of Kakarot call" call_result 0
    (segmented, tmp_counter) ←
        array_while fuel
          "Cannot parse and decode return arguments of Kakarot call: stack accesses array"
          call_result 1 stack_accesses_len (felt_array [] ∷ [])
    stack_len ←
        cell "Cannot parse and decode return arguments of Kakarot call: stack_len" call_result
          tmp_counter
    memory_accesses_len ←
        cell "Cannot parse and decode return arguments of Kakarot call: memory_accesses_len"
          call_result (tmp_counter + 1)
    (segmented, tmp_counter) ←
        array_while fuel
          "Cannot parse and decode return arguments of Kakarot call: memory accesses array"
          call_result (tmp_counter + 1 + 1) memory_accesses_len
          (segmented ++ felt stack_len ∷ felt_array [] ∷ [])
    memory_len ←
        cell "Cannot parse and decode return arguments of Kakarot call: memory len" call_result
          tmp_counter
    evm_address ←
        cell "Cannot parse and decode return arguments of Kakarot call: evm address" call_result
          (tmp_counter + 1)
    starknet_address ←
        cell "Cannot parse and decode return arguments of Kakarot call: starknet address"
          call_result (tmp_counter + 1 + 1)
    return_data_len ←
        cell "Cannot parse and decode return arguments of Kakarot call: return_data_len" call_result
          (tmp_counter + 1 + 1 + 1)
    (segmented, tmp_counter) ←
        array_while fuel
          "Cannot parse and decode return arguments of Kakarot call: return data array" call_result
          (tmp_counter + 1 + 1 + 1 + 1) return_data_len
          (segmented
            ++ felt memory_len ∷ felt evm_address ∷ felt starknet_address ∷ felt_array [] ∷ [])
    gas_used ←
        cell "Cannot parse and decode return arguments of Kakarot call: gas used" call_result
          tmp_counter
    some (ok (segmented ++ felt gas_used ∷ []))
