-- ===== src/Models/Felt/RoundTrip.antt =====
-- Which words a field element holds, and what comes back: crates/core/src/models/felt.rs.
use kakarot_rpc_adapter.Prelude.{
  ℕ, ◌%◌, ◌^◌, ◌<◌, ◌≡◌, refl, ap, length, arith, ltb, if◌then◌else◌, lt→ltb, ltb→lt, Bool-cases,
  inl, inr, length-drop, drop,
}
use kakarot_rpc_adapter.Prelude.Bytes.{
  be_value, be_bytes, length-be_bytes, be_value-be_bytes, be_bytes-be_value, be_value-lt,
  be_bytes-IsBytes,
}
use kakarot_rpc_adapter.Types.{prime, IsFelt, IsArray, H160, H256}
use kakarot_rpc_adapter.Errors.{from_byte_array_error}
use kakarot_rpc_adapter.Outcome.{ok, err, ◌>>=◌}
use kakarot_rpc_adapter.Crates.{Crates}
use kakarot_rpc_adapter.Models.Felt.{
  Felt252Wrapper, from_felt, from_u64, from_h160, to_h160, to_h256, try_from_h256, try_from_u256,
  to_u256,
}

module _ ⦃crates : Crates⦄ where
  open crates use {
    felt_to_bytes_be, felt_to_bytes_be-IsArray, felt_to_bytes_be_lem, felt_from_bytes_be_lem,
    felt_from_byte_slice_be_lem, from_slice_lem, u256_to_be_bytes, u256_to_be_bytes-IsArray,
    u256_to_be_bytes_lem, u256_from_be_bytes_lem, felt_from_uint_lem,
  }

  -- The conversion into an H256 does not panic, and gives the 32 bytes of the element.
  pub to_h256_lem :
      {E : Type 0} (w : Felt252Wrapper) → to_h256 {E = E} w ≡ ok (felt_to_bytes_be w.felt)
  unfolding to_h256
  to_h256_lem w =
      rw (from_slice_lem 32 (felt_to_bytes_be w.felt) (felt_to_bytes_be-IsArray w.felt).0)

  pub length-tail : (a : ℕ) → length (drop 12 (felt_to_bytes_be a)) ≡ 20
  length-tail a = rw (length-drop 12, (felt_to_bytes_be-IsArray a).0)

  -- Nor does that into an H160, which keeps the last 20 bytes.
  pub to_h160_lem :
      {E : Type 0} (w : Felt252Wrapper) → to_h160 {E = E} w ≡ ok (drop 12 (felt_to_bytes_be w.felt))
  unfolding to_h160
  to_h160_lem w =
      rw (felt_to_bytes_be-IsArray w.felt).0 (rw (from_slice_lem 20 _ (length-tail w.felt)))

  pub from_h160_lem :
      {E : Type 0} (h : H160) → IsArray 20 h → from_h160 {E = E} h ≡ ok (from_felt (be_value h))
  unfolding from_h160
  from_h160_lem h (l, b) = rw (felt_from_byte_slice_be_lem h b (omega arith))

  -- A hash is accepted exactly when its value lies below the prime.
  pub try_from_h256_lem :
      (h : H256)
      → IsArray 32 h
      → try_from_h256 h ≡ (
          if ltb (be_value h) prime then ok (from_felt (be_value h)) else err from_byte_array_error)
  unfolding try_from_h256
  try_from_h256_lem h a = rw (felt_from_bytes_be_lem h a) (ground arith)

  word-value : (v : ℕ) → v < 2 ^ 256 → be_value (u256_to_be_bytes v) ≡ v
  word-value v h = rw (u256_to_be_bytes_lem v h, be_value-be_bytes) (omega arith)

  -- A U256 is accepted exactly when it lies below the prime.
  pub try_from_u256_lem :
      (v : ℕ)
      → v < 2 ^ 256
      → try_from_u256 v ≡ (if ltb v prime then ok (from_felt v) else err from_byte_array_error)
  unfolding try_from_u256
  try_from_u256_lem v h =
      rw (felt_from_bytes_be_lem _ (u256_to_be_bytes-IsArray v), word-value v h) (ground arith)

  pub be_value-array_lt : (n : ℕ) (h : H256) → IsArray n h → be_value h < 256 ^ n
  be_value-array_lt n h (l, b) = rw l at (be_value-lt h b)

  be_bytes-array : (n : ℕ) (h : H256) → IsArray n h → be_bytes n (be_value h) ≡ h
  be_bytes-array n h (l, b) = rw l at (be_bytes-be_value h b)

  address-IsFelt : (h : H160) → IsArray 20 h → IsFelt (be_value h)
  address-IsFelt h a = omega (arith, be_value-array_lt 20 h a)

  drop-be_bytes : (v : ℕ) → drop 12 (be_bytes 32 v) ≡ be_bytes 20 v
  unfolding be_bytes
  drop-be_bytes v = refl

  pub to_h160_of_address :
      {E : Type 0} (h : H160) → IsArray 20 h → to_h160 {E = E} (from_felt (be_value h)) ≡ ok h
  to_h160_of_address h a =
      rw (to_h160_lem, felt_to_bytes_be_lem (be_value h) (address-IsFelt h a), drop-be_bytes)
        (ap ok (be_bytes-array 20 h a))

  -- An address of 20 bytes goes into a field element and comes back, without a panic.
  pub to_h160-from_h160 :
      {E : Type 0} (h : H160) → IsArray 20 h → (from_h160 {E = E} h >>= to_h160) ≡ ok h
  to_h160-from_h160 h a = rw (from_h160_lem h a) (to_h160_of_address h a)

  -- A field element below the prime goes into an address and comes back as its value modulo 2 ^
  -- 160.
  pub from_h160-to_h160 :
      {E : Type 0} (a : ℕ)
      → IsFelt a
      → (to_h160 {E = E} (from_felt a) >>= from_h160) ≡ ok (from_felt (a % 2 ^ 160))
  from_h160-to_h160 a h = rw (
    to_h160_lem,
    felt_to_bytes_be_lem a h,
    drop-be_bytes,
    from_h160_lem (be_bytes 20 a) (length-be_bytes 20 a, be_bytes-IsBytes 20 a),
    be_value-be_bytes,
  )

  felt-IsArray : (a : ℕ) → IsFelt a → be_value (felt_to_bytes_be a) ≡ a
  felt-IsArray a h = rw (felt_to_bytes_be_lem a h, be_value-be_bytes) (omega arith)

  pub be_value-felt_to_bytes_be : (a : ℕ) → IsFelt a → be_value (felt_to_bytes_be a) ≡ a
  be_value-felt_to_bytes_be a h = rw (felt_to_bytes_be_lem a h, be_value-be_bytes) (omega arith)

  pub to_u256_lem : (a : ℕ) → IsFelt a → to_u256 (from_felt a) ≡ a
  unfolding to_u256
  to_u256_lem a h =
      rw (u256_from_be_bytes_lem _ (felt_to_bytes_be-IsArray a)) (be_value-felt_to_bytes_be a h)

  -- A number of 64 bits goes into a field element and comes back as it was.
  pub to_u256-from_u64 : (n : ℕ) → n < 2 ^ 64 → to_u256 (from_u64 n) ≡ n
  unfolding from_u64
  to_u256-from_u64 n h = rw (felt_from_uint_lem n h) (to_u256_lem n (omega arith))

  -- A field element below the prime goes into a hash and comes back as it was.
  pub try_from_h256-to_h256 :
      (a : ℕ) → IsFelt a → (to_h256 (from_felt a) >>= try_from_h256) ≡ ok (from_felt a)
  try_from_h256-to_h256 a h = rw (
    to_h256_lem,
    try_from_h256_lem (felt_to_bytes_be a) (felt_to_bytes_be-IsArray a),
    be_value-felt_to_bytes_be a h,
    lt→ltb a prime h,
  )

  hash_back : (h : H256) → IsArray 32 h → be_value h < prime → felt_to_bytes_be (be_value h) ≡ h
  hash_back h a lt = rw (felt_to_bytes_be_lem (be_value h) lt) (be_bytes-array 32 h a)

  -- A hash of 32 bytes goes into a field element and comes back as it was if its value lies
  -- below the prime, and is refused if not.
  pub to_h256-try_from_h256 :
      (h : H256)
      → IsArray 32 h
      → (try_from_h256 h >>= to_h256)
        ≡ (if ltb (be_value h) prime then ok h else err from_byte_array_error)
  to_h256-try_from_h256 h a = elim (Bool-cases (ltb (be_value h) prime)) [
    | inl lt ↦ rw (try_from_h256_lem h a, lt, to_h256_lem) (ap ok (hash_back h a (ltb→lt _ _ lt)))
    | inr ge ↦ rw (try_from_h256_lem h a, ge)
  ]

  -- A number of 256 bits goes into a field element and comes back as it was if it lies below the
  -- prime, and is refused if not.
  pub to_u256-try_from_u256 :
      (v : ℕ)
      → v < 2 ^ 256
      → (try_from_u256 v >>= λ w. ok (to_u256 w))
        ≡ (if ltb v prime then ok v else err from_byte_array_error)
  to_u256-try_from_u256 v h = elim (Bool-cases (ltb v prime)) [
    | inl lt ↦ rw (try_from_u256_lem v h, lt) (ap ok (to_u256_lem v (ltb→lt _ _ lt)))
    | inr ge ↦ rw (try_from_u256_lem v h, ge)
  ]
