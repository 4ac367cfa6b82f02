-- ===== src/Models/Event/Topics.antt =====
-- The topic of one pair of keys: crates/core/src/models/event.rs.
use kakarot_rpc_adapter.Prelude.{
  ℕ, zero, suc, ◌+◌, ◌-◌, ◌*◌, ◌^◌, ◌≤◌, ◌≡◌, refl, ap, ◌∙◌, List, ◌++◌, some, length, replicate,
  arith, ltb, lt→ltb, le→ltb, if◌then◌else◌, inl, inr, Bool-cases, ltb→lt, ltb→le, sym,
  length-append, length-replicate, All-append, All-replicate,
}
use kakarot_rpc_adapter.Prelude.Bytes.{be_value, be_bytes, IsByte, IsBytes, be_bytes-be_value}
use kakarot_rpc_adapter.Types.{FieldElement, IsFelt}
use kakarot_rpc_adapter.Outcome.{ok, panic}
use kakarot_rpc_adapter.Crates.{Crates}
use kakarot_rpc_adapter.Models.Felt.RoundTrip.{be_value-felt_to_bytes_be}
use kakarot_rpc_adapter.Models.Event.{pad_to_h256, topic_of_chunk}

be_value-pad : (k : ℕ) (bs : List ℕ) → be_value (replicate k 0 ++ bs) ≡ be_value bs
unfolding be_value
be_value-pad zero bs = refl
be_value-pad (suc k) bs = omega (arith, be_value-pad k bs)

module _ ⦃crates : Crates⦄ where
  open crates use {
    felt_to_bytes_be, felt_to_bytes_be-IsArray, from_slice, from_slice_lem,
    biguint_from_bytes_be_lem, biguint_from_bytes_be, biguint_to_bytes_be,
    be_value-biguint_to_bytes_be, biguint_to_bytes_be-IsBytes, length-biguint_to_bytes_be,
    biguint_to_bytes_be_long,
  }

  biguint-felt : (a : FieldElement) → IsFelt a → biguint_from_bytes_be (felt_to_bytes_be a) ≡ a
  biguint-felt a h =
      rw (biguint_from_bytes_be_lem _ (felt_to_bytes_be-IsArray a).1)
        (be_value-felt_to_bytes_be a h)

  abbrev padded : List ℕ → List ℕ
  padded bs = replicate (32 - length bs) 0 ++ bs

  length-padded : (bs : List ℕ) → length bs ≤ 32 → length (padded bs) ≡ 32
  length-padded bs h = rw (length-append, length-replicate) (omega arith)

  padded_lem : (bs : List ℕ) → IsBytes bs → length bs ≤ 32 → padded bs ≡ be_bytes 32 (be_value bs)
  padded_lem bs b h =
      sym (
        be_bytes-be_value (padded bs)
          (All-append IsByte _ bs (All-replicate IsByte (32 - length bs) (omega arith)) b))
      ∙ ap (λ n. be_bytes n (be_value (padded bs))) (length-padded bs h)
      ∙ ap (be_bytes 32) (be_value-pad (32 - length bs) bs)

  -- The bytes of a number are filled up to its 32 bytes if it has no more than 256 bits, and the
  -- conversion panics if it has more.
  pub pad_to_h256_lem :
      (n : ℕ)
      → pad_to_h256 (biguint_to_bytes_be n)
        ≡ (if ltb n (2 ^ 256) then ok (be_bytes 32 n) else panic)
  unfolding pad_to_h256
  pad_to_h256_lem n = elim (Bool-cases (ltb n (2 ^ 256))) [
    | inl lt ↦
        let short = length-biguint_to_bytes_be n 31 (ltb→lt n _ lt) in
        rw (
          lt,
          le→ltb 32 (length (biguint_to_bytes_be n)) short,
          from_slice_lem 32 (padded (biguint_to_bytes_be n)) (length-padded _ short),
          padded_lem (biguint_to_bytes_be n) (biguint_to_bytes_be-IsBytes n) short,
          be_value-biguint_to_bytes_be n,
        )
    | inr ge ↦ rw (
      ge,
      lt→ltb 32 (length (biguint_to_bytes_be n)) (biguint_to_bytes_be_long n 32 (ltb→le n _ ge)),
    )
  ]

  -- The topic of a pair is the 32 bytes of `low + 2 ^ 128 * high`; a number of more than 256 bits
  -- panics.
  pub topic_of_chunk_lem :
      (low high : FieldElement)
      → IsFelt low
      → IsFelt high
      → topic_of_chunk (low, some high) ≡ (
          if ltb (low + 2 ^ 128 * high) (2 ^ 256)
          then ok (be_bytes 32 (low + 2 ^ 128 * high))
          else panic)
  unfolding topic_of_chunk
  topic_of_chunk_lem low high hl hh =
      rw (biguint-felt low hl, biguint-felt high hh) (pad_to_h256_lem (low + 2 ^ 128 * high))
