-- ===== src/Models/Signature.antt =====
-- crates/core/src/models/signature.rs: a Starknet signature as an Ethereum signature.
use kakarot_rpc_adapter.Prelude.{
  ℕ, ◌<◌, ◌≡◌, refl, List, [], ◌∷◌, String, get_elem?, length, arith, zero, suc,
}
use kakarot_rpc_adapter.Types.{FieldElement, IsFelt}
use kakarot_rpc_adapter.Errors.{StarknetSignatureError, missing_signature_params_error}
use kakarot_rpc_adapter.Outcome.{Outcome, ok, err, ok_or, ◌>>=◌}
use kakarot_rpc_adapter.Crates.{Crates}
use kakarot_rpc_adapter.Eth.{Signature}
use kakarot_rpc_adapter.Models.Felt.{from_felt, to_u256}
use kakarot_rpc_adapter.Models.Felt.RoundTrip.{to_u256_lem}

pub record StarknetSignature : Type 0 where
  pub felts : List FieldElement

module _ ⦃crates : Crates⦄ where
  -- TryFrom<StarknetSignature> for EthSignature
  unfoldable pub try_from_starknet_signature :
      StarknetSignature → Outcome StarknetSignatureError Signature
  try_from_starknet_signature value = do
    r ← ok_or (missing_signature_params_error "r") (get_elem? value.felts 0)
    s ← ok_or (missing_signature_params_error "s") (get_elem? value.felts 1)
    v ← ok_or (missing_signature_params_error "v") (get_elem? value.felts 2)
    ok (record { r = to_u256 (from_felt r); s = to_u256 (from_felt s); v = to_u256 (from_felt v) })

  -- The name of the parameter that stands at a place.
  abbrev pub parameter : ℕ → String
  parameter n = elim n [ zero ↦ "r" | suc m ↦ elim m [ zero ↦ "s" | suc _ ↦ "v" ] ]

  -- Three elements or more, the first three below the prime, give the signature of the first
  -- three.
  pub try_from_starknet_signature_complete :
      (r s v : FieldElement) (rest : List FieldElement)
      → IsFelt r
      → IsFelt s
      → IsFelt v
      → try_from_starknet_signature (record { felts = r ∷ s ∷ v ∷ rest })
        ≡ ok (record { r = r; s = s; v = v })
  unfolding try_from_starknet_signature
  try_from_starknet_signature_complete r s v rest hr hs hv =
      rw (to_u256_lem r hr, to_u256_lem s hs, to_u256_lem v hv)

  -- Fewer than three elements are refused, with the name of the first parameter that is missing.
  pub try_from_starknet_signature_missing :
      (felts : List FieldElement)
      → length felts < 3
      → try_from_starknet_signature (record { felts = felts })
        ≡ err (missing_signature_params_error (parameter (length felts)))
  unfolding try_from_starknet_signature
  try_from_starknet_signature_missing [] h = refl
  try_from_starknet_signature_missing (r ∷ []) h = refl
  try_from_starknet_signature_missing (r ∷ s ∷ []) h = refl
  try_from_starknet_signature_missing (r ∷ s ∷ v ∷ rest) h = absurd (omega arith)
