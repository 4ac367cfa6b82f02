-- ===== src/Client/Chain/Fees.antt =====
-- How many blocks `fee_history` of crates/core/src/client/mod.rs reports.
use kakarot_rpc_adapter.Prelude.{
  ℕ, ap, ◌∙◌, ◌-◌, ◌==◌, false, lt→ltb, ltb→lt, ltb→le, Bool-cases, inl, inr, replicate, ◌+◌, ◌*◌,
  ◌/◌, ◌%◌, ◌^◌, ◌<◌, ◌≤◌, ◌≡◌, List, [], ◌∷◌, some, none, ltb, arith,
}
use kakarot_rpc_adapter.Crates.{Crates}
use kakarot_rpc_adapter.Client.Chain.{
  vec_of, hex_digit, push_digit, hex_loop, usize_from_hex, one_if_none, block_count_usize,
  fee_history, newest_block_number, base_fee_per_gas,
}
use kakarot_rpc_adapter.Outcome.{ok}
use kakarot_rpc_adapter.Async.{◌>>=◌}
use kakarot_rpc_adapter.Async.Run.{Script, run}
use kakarot_rpc_adapter.Eth.{BlockNumberOrTag}

hex_digit_lem : (d : ℕ) → d < 10 → hex_digit (48 + d) ≡ some d
unfolding hex_digit
hex_digit_lem d h = ground arith

push_digit_lem : (acc d : ℕ) → acc < 100 → d < 10 → push_digit acc (some d) ≡ some (acc * 16 + d)
unfolding push_digit
push_digit_lem acc d ha hd = rw (lt→ltb (acc * 16 + d) (2 ^ 64) (omega arith))

one_digit : (d : ℕ) → d < 10 → usize_from_hex ((48 + d) ∷ []) ≡ some d
unfolding usize_from_hex hex_loop
one_digit d h = rw (hex_digit_lem d h) (push_digit_lem 0 d (omega arith) h ∙ ap some (omega arith))

one_more :
    (acc d : ℕ) (cs : List ℕ)
    → acc < 100
    → d < 10
    → hex_loop (some acc) ((48 + d) ∷ cs) ≡ hex_loop (some (acc * 16 + d)) cs
unfolding hex_loop
one_more acc d cs ha hd = rw (hex_digit_lem d hd, push_digit_lem acc d ha hd)

two_digits :
    (d e : ℕ) → d < 10 → e < 10 → usize_from_hex ((48 + d) ∷ (48 + e) ∷ []) ≡ some (d * 16 + e)
unfolding usize_from_hex
two_digits d e hd he =
    rw
      (
        no_plus,
        one_more 0 d ((48 + e) ∷ []) (omega arith) hd,
        one_more (0 * 16 + d) e [] (omega arith) he,
      )
      (unfold hex_loop in ap some (omega arith))
  where
    no_plus : (48 + d == b'+') ≡ false
    no_plus = ground arith

module _ ⦃crates : Crates⦄ where
  open crates use {
    u256_to_string, u256_to_string_digit, u256_to_string_digits, u256_sub, u256_sub_lem,
  }

  decimal_text : (n : ℕ) → n < 100 → 10 ≤ n → u256_to_string n ≡ (48 + n / 10) ∷ (48 + n % 10) ∷ []
  decimal_text n h ten =
      rw (u256_to_string_digits n ten (omega arith), u256_to_string_digit (n / 10) (omega arith))

  read_text : (n : ℕ) → n < 100 → usize_from_hex (u256_to_string n) ≡ some (n / 10 * 16 + n % 10)
  read_text n h = elim (Bool-cases (ltb n 10)) [
    | inl lt ↦
        let small = ltb→lt n 10 lt in
        rw (u256_to_string_digit n small, one_digit n small) (ap some (omega arith))
    | inr ge ↦ rw (
      decimal_text n h (ltb→le n 10 ge),
      two_digits (n / 10) (n % 10) (omega arith) (omega arith),
    )
  ]

  -- For a count of blocks below 100 and a newest block that is given by its number and is no
  -- less than the count, the lists of the fee history report `n / 10 * 16 + n % 10` blocks for
  -- the count `n`, whose decimal text is read in base 16; the oldest block lies the count itself
  -- below the newest.
  pub fee_history_lem :
      (block_count newest : ℕ) (s : Script) (n : ℕ)
      → block_count < 100
      → block_count ≤ newest
      → newest < 2 ^ 256
      → run (fee_history block_count (BlockNumberOrTag.number newest)) s n ≡ (
        ok (record {
          base_fee_per_gas =
              replicate (block_count / 10 * 16 + block_count % 10 + 1) base_fee_per_gas;
          gas_used_ratio = replicate (block_count / 10 * 16 + block_count % 10) 9;
          oldest_block = newest - block_count;
          reward = none;
        }),
        n,
      )
  unfolding fee_history vec_of block_count_usize newest_block_number one_if_none run ◌>>=◌
  fee_history_lem block_count newest s n h le bound = rw (
    read_text block_count h,
    lt→ltb ((block_count / 10 * 16 + block_count % 10 + 1) * 32) (2 ^ 63) (omega arith),
    lt→ltb ((block_count / 10 * 16 + block_count % 10) * 8) (2 ^ 63) (omega arith),
    u256_sub_lem newest block_count le bound,
  )
