-- ===== src/Client/Chain/Counts.antt =====
-- How large a count of blocks `fee_history` of crates/core/src/client/mod.rs reads.
use kakarot_rpc_adapter.Prelude.{
  ℕ, zero, suc, ◌+◌, ◌*◌, ◌/◌, ◌^◌, ◌<◌, ◌≤◌, ◌≡◌, refl, List, [], ◌∷◌, Option, none, some,
  Bool-cases, inl, inr, ltb, ltb→lt, ltb→le, length, length-append, arith, ◌==◌,
}
use kakarot_rpc_adapter.Crates.{Crates}
use kakarot_rpc_adapter.Client.Chain.{
  hex_digit, push_digit, hex_loop, usize_from_hex, one_if_none, block_count_usize,
}

abbrev IsBelow : ℕ → Option ℕ → Type 0
IsBelow k none = Unit
IsBelow k (some v) = v < k

hex_digit-lt : (c d : ℕ) → hex_digit c ≡ some d → d < 16
unfolding hex_digit
hex_digit-lt c d h = ground (arith, h)

of_value : (k : ℕ) (o : Option ℕ) → ((v : ℕ) → o ≡ some v → v < k) → IsBelow k o
of_value k none h = tt
of_value k (some v) h = h v refl

hex_digit-IsBelow : (c : ℕ) → IsBelow 16 (hex_digit c)
hex_digit-IsBelow c = of_value 16 (hex_digit c) (hex_digit-lt c)

push_digit-IsBelow :
    (k acc : ℕ) (o : Option ℕ) → acc < k → IsBelow 16 o → IsBelow (k * 16) (push_digit acc o)
unfolding push_digit
push_digit-IsBelow k acc none h d = tt
push_digit-IsBelow k acc (some d) h lt = elim (Bool-cases (ltb (acc * 16 + d) (2 ^ 64))) [
  | inl fits ↦ rw fits (omega arith)
  | inr wraps ↦ rw wraps tt
]

-- `k` times 16, as often as there are digits.
abbrev scaled : ℕ → ℕ → ℕ
scaled zero k = k
scaled (suc n) k = scaled n (k * 16)

le-scaled : (n k : ℕ) → k ≤ scaled n k
le-scaled zero k = omega arith
le-scaled (suc n) k = omega (arith, le-scaled n (k * 16))

hex_loop-none : (cs : List ℕ) → hex_loop none cs ≡ none
unfolding hex_loop
hex_loop-none [] = refl
hex_loop-none (c ∷ cs) = refl

hex_loop-IsBelow :
    (n k : ℕ) (cs : List ℕ) (o : Option ℕ)
    → length cs ≤ n
    → IsBelow k o
    → IsBelow (scaled n k) (hex_loop o cs)
unfolding hex_loop
hex_loop-IsBelow n k cs none l h = rw (hex_loop-none cs) tt
hex_loop-IsBelow n k [] (some acc) l h = omega (arith, h, le-scaled n k)
hex_loop-IsBelow zero k (c ∷ cs) (some acc) l h = absurd (omega (arith, l))
hex_loop-IsBelow (suc n) k (c ∷ cs) (some acc) l h =
    hex_loop-IsBelow n (k * 16) cs (push_digit acc (hex_digit c)) (omega (arith, l))
      (push_digit-IsBelow k acc (hex_digit c) h (hex_digit-IsBelow c))

usize_from_hex-IsBelow : (cs : List ℕ) → length cs ≤ 14 → IsBelow (2 ^ 56) (usize_from_hex cs)
unfolding usize_from_hex
usize_from_hex-IsBelow [] l = tt
usize_from_hex-IsBelow (c ∷ []) l = hex_loop-IsBelow 14 1 (c ∷ []) (some 0) l (omega arith)
usize_from_hex-IsBelow (c ∷ d ∷ cs) l = elim (Bool-cases (c == b'+')) [
  | inl plus ↦ rw plus (hex_loop-IsBelow 14 1 (d ∷ cs) (some 0) (omega (arith, l)) (omega arith))
  | inr digit ↦ rw digit (hex_loop-IsBelow 14 1 (c ∷ d ∷ cs) (some 0) l (omega arith))
]

one_if_none-lt : (o : Option ℕ) → IsBelow (2 ^ 56) o → one_if_none o < 2 ^ 56
unfolding one_if_none
one_if_none-lt none h = omega arith
one_if_none-lt (some v) h = h

-- Ten times as large a number has one digit more.
abbrev limit : ℕ → ℕ
limit zero = 10
limit (suc k) = limit k * 10

module _ ⦃crates : Crates⦄ where
  open crates use {u256_to_string, u256_to_string_digit, u256_to_string_digits}

  length-u256_to_string : (k n : ℕ) → n < limit k → n < 2 ^ 256 → length (u256_to_string n) ≤ suc k
  length-u256_to_string zero n h w = rw (u256_to_string_digit n h) (omega arith)
  length-u256_to_string (suc k) n h w = elim (Bool-cases (ltb n 10)) [
    | inl lt ↦ rw (u256_to_string_digit n (ltb→lt n 10 lt)) (omega arith)
    | inr ge ↦
        rw (u256_to_string_digits n (ltb→le n 10 ge) w, length-append)
          (omega (arith, length-u256_to_string k (n / 10) (omega (arith, h)) (omega (arith, w))))
  ]

  -- A count below 10 ^ 14 is read as less than 2 ^ 56.
  pub block_count_usize-lt : (n : ℕ) → n < 10 ^ 14 → block_count_usize n < 2 ^ 56
  unfolding block_count_usize
  block_count_usize-lt n h =
      one_if_none-lt (usize_from_hex (u256_to_string n)) (
        usize_from_hex-IsBelow (u256_to_string n) (length-u256_to_string 13 n h (omega (arith, h))))
