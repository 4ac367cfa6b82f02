-- ===== src/Client/Decode.antt =====
-- The return values of Kakarot's entrypoints `eth_call` and `eth_send_transaction`, cut into
-- segments: crates/core/src/client/helpers.rs.
pub mod Segments
pub mod Loops
pub mod Total
use kakarot_rpc_adapter.Prelude.{
  ℕ, List, [], ◌∷◌, ◌++◌, Option, none, some, String, ◌==◌, if◌then◌else◌,
}
use kakarot_rpc_adapter.Types.{FieldElement}
use kakarot_rpc_adapter.Errors.{EthApiError, other_error}
use kakarot_rpc_adapter.Outcome.{Outcome, ok, err, ok_or, ◌>>=◌}
use kakarot_rpc_adapter.Crates.{Crates}

pub data FeltOrFeltArray : Type 0 where
  felt : FieldElement → FeltOrFeltArray
  felt_array : List FieldElement → FeltOrFeltArray

-- A push to the array that `segmented_result` ends in, by `last_mut`.
unfoldable pub push_last : List FeltOrFeltArray → FieldElement → List FeltOrFeltArray
push_last [] element = []
push_last (felt a ∷ []) element = felt a ∷ []
push_last (felt_array xs ∷ []) element = felt_array (xs ++ element ∷ []) ∷ []
push_last (s ∷ t ∷ rest) element = s ∷ push_last (t ∷ rest) element

-- The segments so far, and what of `call_result` stands from `tmp_counter` on.
abbrev pub Parsed : Type 0
Parsed = List FeltOrFeltArray × List FieldElement

-- `call_result.get(tmp_counter)`, and `tmp_counter += 1`.
unfoldable pub next :
    String → List FieldElement → Outcome EthApiError (FieldElement × List FieldElement)
next missing [] = err (other_error missing)
next missing (element ∷ rest) = ok (element, rest)

module _ ⦃crates : Crates⦄ where
  open crates use {felt_sub, felt_from_uint}

  -- `while tmp_array_len != FieldElement::ZERO`. The list is what stands from `tmp_counter` on.
  unfoldable pub array_loop :
      String → List FieldElement → FieldElement → List FeltOrFeltArray → Outcome EthApiError Parsed
  array_loop missing [] tmp_array_len segmented =
      if tmp_array_len == 0 then ok (segmented, []) else err (other_error missing)
  array_loop missing (element ∷ rest) tmp_array_len segmented =
      let more =
        array_loop missing rest (felt_sub tmp_array_len (felt_from_uint 1))
          (push_last segmented element) in
      if tmp_array_len == 0 then ok (segmented, element ∷ rest) else more

  unfoldable pub decode_eth_call_return :
      List FieldElement → Outcome EthApiError (List FeltOrFeltArray)
  unfolding next
  decode_eth_call_return call_result = do
    (tmp_array_len, rest) ←
        next "Cannot parse and decode return arguments of Kakarot call" call_result
    (segmented, rest) ←
        array_loop "Cannot parse and decode return arguments of Kakarot call: return data array"
          rest tmp_array_len (felt_array [] ∷ [])
    ok segmented

  unfoldable pub decode_eth_send_transaction_return :
      List FieldElement → Outcome EthApiError (List FeltOrFeltArray)
  unfolding next
  decode_eth_send_transaction_return call_result = do
    (stack_accesses_len, rest) ←
        next "Cannot parse and decode return arguments of Kakarot call" call_result
    (segmented, rest) ←
        array_loop "Cannot parse and decode return arguments of Kakarot call: stack accesses array"
          rest stack_accesses_len (felt_array [] ∷ [])
    (stack_len, rest) ←
        next "Cannot parse and decode return arguments of Kakarot call: stack_len" rest
    (memory_accesses_len, rest) ←
        next "Cannot parse and decode return arguments of Kakarot call: memory_accesses_len" rest
    (segmented, rest) ←
        array_loop "Cannot parse and decode return arguments of Kakarot call: memory accesses array"
          rest memory_accesses_len (segmented ++ felt stack_len ∷ felt_array [] ∷ [])
    (memory_len, rest) ←
        next "Cannot parse and decode return arguments of Kakarot call: memory len" rest
    (evm_address, rest) ←
        next "Cannot parse and decode return arguments of Kakarot call: evm address" rest
    (starknet_address, rest) ←
        next "Cannot parse and decode return arguments of Kakarot call: starknet address" rest
    (return_data_len, rest) ←
        next "Cannot parse and decode return arguments of Kakarot call: return_data_len" rest
    (segmented, rest) ←
        array_loop "Cannot parse and decode return arguments of Kakarot call: return data array"
          rest return_data_len
          (segmented
            ++ felt memory_len ∷ felt evm_address ∷ felt starknet_address ∷ felt_array [] ∷ [])
    (gas_used, rest) ←
        next "Cannot parse and decode return arguments of Kakarot call: gas used" rest
    ok (segmented ++ felt gas_used ∷ [])
