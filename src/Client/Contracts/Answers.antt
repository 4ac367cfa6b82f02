-- ===== src/Client/Contracts/Answers.antt =====
-- What the calls of contracts give for the node's replies: crates/core/src/client/mod.rs.
use kakarot_rpc_adapter.Prelude.{
  ℕ, suc, slice, ◌≡◌, refl, get_elem?, List, [], ◌∷◌, ◌++◌, map, inl, inr, ◌⊎◌, length, le→leb,
  arith, take-append_length, length-append, take_all,
}
use kakarot_rpc_adapter.Prelude.Bytes.{be_value, IsBytes}
use kakarot_rpc_adapter.Types.{FieldElement, Bytes, H160, IsFelt, IsArray}
use kakarot_rpc_adapter.Errors.{EthApiError, ProviderError, request_error, other_error}
use kakarot_rpc_adapter.Outcome.{ok, err, ok_or}
use kakarot_rpc_adapter.Crates.{Crates}
use kakarot_rpc_adapter.Starknet
use kakarot_rpc_adapter.Async.{Request, ask, lift, received, attempt, ◌>>=◌}
use kakarot_rpc_adapter.Async.Run.{Script, run, run-ask, run-refused, run->>=}
use kakarot_rpc_adapter.Models.Felt.{from_felt, to_h160}
use kakarot_rpc_adapter.Models.Felt.RoundTrip.{from_h160_lem, to_h160_lem, length-tail}
use kakarot_rpc_adapter.Client.Constants
use kakarot_rpc_adapter.Client.Calls.Submitted.{filter_map-u8_try_from}
use kakarot_rpc_adapter.Client.Decode.Segments.{decode_eth_call_return_lem}
use kakarot_rpc_adapter.Client.Helpers.{vec_felt_to_bytes}
use kakarot_rpc_adapter.Client.Helpers.Conversions.{starknet_address_to_ethereum_address_lem}
use kakarot_rpc_adapter.Client.Contracts.{
  KakarotClient, compute_starknet_address, get_evm_address, safe_get_evm_address, or_sliced,
  get_code, bytes_of_segment, call_view,
}

-- The element whose last 20 bytes are the address of a contract: the first one that the contract
-- answers, and its Starknet address if there is none.
abbrev pub evm_address_source : ProviderError ⊎ List FieldElement → FieldElement → FieldElement
evm_address_source (inl e) starknet_address = starknet_address
evm_address_source (inr []) starknet_address = starknet_address
evm_address_source (inr (x ∷ rest)) starknet_address = x

module _ ⦃crates : Crates⦄ (client : KakarotClient) (block_id : Starknet.BlockId) where
  open crates use {
    felt_to_bytes_be, felt_to_bytes_be-IsArray, felt_from_hex_be, u256_from_be_bytes_lem, felt_max,
    felt_from_uint, u8_try_from,
  }

  -- The request for the Starknet address of an account.
  abbrev pub address_request : H160 → Request
  address_request address =
      Request.call
        (record {
          contract_address = client.kakarot_address;
          entry_point_selector = Constants.compute_starknet_address_selector;
          calldata = be_value address ∷ [];
        })
        block_id

  abbrev pub bytecode_request : FieldElement → Request
  bytecode_request starknet_address =
      Request.call
        (record {
          contract_address = starknet_address;
          entry_point_selector = Constants.bytecode_selector;
          calldata = [];
        })
        block_id

  abbrev pub evm_address_request : FieldElement → Request
  evm_address_request starknet_address =
      Request.call
        (record {
          contract_address = starknet_address;
          entry_point_selector = Constants.get_evm_address_selector;
          calldata = [];
        })
        block_id

  abbrev pub view_request : H160 → Bytes → Request
  view_request address calldata =
      Request.call
        (record {
          contract_address = client.kakarot_address;
          entry_point_selector = Constants.eth_call_selector;
          calldata =
              (be_value address ∷ felt_max ∷ 0 ∷ 0 ∷ felt_from_uint (length calldata) ∷ [])
              ++ map felt_from_uint calldata;
        })
        block_id

  -- The Starknet address of an account is the first element of the reply.
  pub run-compute_starknet_address :
      (address : H160) (s : Script) (n : ℕ) (x : FieldElement) (rest : List FieldElement)
      → IsArray 20 address
      → s n (address_request address) ≡ inr (x ∷ rest)
      → run (compute_starknet_address client address block_id) s n ≡ (ok x, suc n)
  unfolding compute_starknet_address
  run-compute_starknet_address address s n x rest a e =
      rw (from_h160_lem address a, run->>=)
        (unfold run in rw (run->>=, run-ask (address_request address) s n (x ∷ rest) e) refl)

  -- The code of an account of 20 bytes: the node is asked for its Starknet address, and if it
  -- answers that alone, that contract is asked for its code, whose elements are written in 32
  -- bytes each.
  pub get_code_lem :
      (address : H160) (s : Script) (n : ℕ) (x : FieldElement) (code : List FieldElement)
      → IsArray 20 address
      → s n (address_request address) ≡ inr (x ∷ [])
      → s (suc n) (bytecode_request x) ≡ inr code
      → run (get_code client address block_id) s n ≡ (ok (vec_felt_to_bytes code), suc (suc n))
  unfolding get_code
  get_code_lem address s n x code a ex ec =
      rw (from_h160_lem address a, run->>=)
        (unfold run in
          rw (run->>=, run-ask (address_request address) s n (x ∷ []) ex)
            (rw run->>=
              (unfold run in rw (run->>=, run-ask (bytecode_request x) s (suc n) code ec) refl)))

  -- A view call: the request carries the calldata one byte per element behind its length; of a
  -- reply that starts with a count of cells and that many bytes, the call gives those bytes.
  pub call_view_lem :
      (address : H160) (calldata answer : Bytes) (rest : List FieldElement) (s : Script) (n : ℕ)
      → IsArray 20 address
      → IsBytes answer
      → IsFelt (length answer)
      → s n (view_request address calldata) ≡ inr (length answer ∷ answer ++ rest)
      → run (call_view client address calldata block_id) s n ≡ (ok answer, suc n)
  unfolding call_view bytes_of_segment
  call_view_lem address calldata answer rest s n a b h e =
      rw (from_h160_lem address a, run->>=)
        (unfold run in
          rw
            (
              run->>=,
              run-ask (view_request address calldata) s n (length answer ∷ answer ++ rest) e,
              decode_eth_call_return_lem (length answer) (answer ++ rest) h,
              le→leb (length answer) (length (answer ++ rest)) (rw length-append (omega arith)),
              take-append_length answer rest,
            )
            (unfold ◌>>=◌ in rw (filter_map-u8_try_from answer b) refl))

  -- An error of the node is the error of a view call.
  pub call_view_refused :
      (address : H160) (calldata : Bytes) (e : ProviderError) (s : Script) (n : ℕ)
      → IsArray 20 address
      → s n (view_request address calldata) ≡ inl e
      → run (call_view client address calldata block_id) s n ≡ (err (request_error e), suc n)
  unfolding call_view
  call_view_refused address calldata e s n a h =
      rw (from_h160_lem address a, run->>=)
        (unfold run in rw (run->>=, run-refused (view_request address calldata) s n e h) refl)

  -- The EVM address of a contract, whatever the node replies: the last 20 bytes of the first
  -- element that the contract answers, and those of its Starknet address if it answers none or
  -- the node answers an error.
  pub safe_get_evm_address_lem :
      (starknet_address : FieldElement) (s : Script) (n : ℕ)
      → run (safe_get_evm_address client starknet_address block_id) s n ≡ (
        to_h160 (
            from_felt
              (evm_address_source (s n (evm_address_request starknet_address)) starknet_address)),
        suc n,
      )
  unfolding safe_get_evm_address get_evm_address run ask ◌>>=◌ attempt
  safe_get_evm_address_lem starknet_address s n =
      by_reply (s n (evm_address_request starknet_address))
    where
      by_reply :
          (reply : ProviderError ⊎ List FieldElement)
          → run
              (attempt (
                  received (evm_address_request starknet_address) reply >>= λ felts.
                  lift (
                    ok_or
                      (other_error
                        "Kakarot Core: Failed to get EVM address from smart contract on Kakarot")
                      (get_elem? felts 0))
                  >>= λ evm_address. lift (
                      ok_or
                        (other_error
                          "Kakarot Core: Failed to cast EVM address from 32 bytes to 20 bytes EVM format")
                        (slice (felt_to_bytes_be evm_address) 12 32)))
                >>= or_sliced starknet_address)
              s
              (suc n)
            ≡ (to_h160 (from_felt (evm_address_source reply starknet_address)), suc n)
      by_reply (inl e) =
          rw (starknet_address_to_ethereum_address_lem {E = EthApiError} starknet_address) refl
      by_reply (inr []) =
          rw (starknet_address_to_ethereum_address_lem {E = EthApiError} starknet_address) refl
      by_reply (inr (x ∷ rest)) =
          rw (to_h160_lem, (felt_to_bytes_be-IsArray x).0, take_all 20 _ (length-tail x)) refl
