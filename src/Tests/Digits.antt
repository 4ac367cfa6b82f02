-- ===== src/Tests/Digits.antt =====
-- The digits of numbers, as the concrete third-party functions write them.
use kakarot_rpc_adapter.Prelude.{
  ℕ, zero, suc, ◌+◌, ◌*◌, ◌/◌, ◌%◌, ◌^◌, ◌≤◌, ◌<◌, ◌≡◌, ap, ◌∙◌, List, [], ◌∷◌, ◌++◌, length,
  length-append, ltb, ltb→lt, ltb→le, lt→ltb, le→ltb, if◌then◌else◌, arith, Bool-cases, inl, inr,
  All-append,
}
use kakarot_rpc_adapter.Prelude.Bytes.{be_value, IsByte, IsBytes, pow_pos}
use native.Mathlib.Nat.{pow-suc}

-- On fuel above the number.
unfoldable pub decimal : ℕ → ℕ → List ℕ
decimal zero n = []
decimal (suc k) n =
    let rest = decimal k (n / 10) in if ltb n 10 then (48 + n) ∷ [] else rest ++ (48 + n % 10) ∷ []

pub decimal_stable : (k m n : ℕ) → n < k → n < m → decimal k n ≡ decimal m n
unfolding decimal
decimal_stable zero m n hk hm = absurd (omega arith)
decimal_stable (suc k) zero n hk hm = absurd (omega arith)
decimal_stable (suc k) (suc m) n hk hm = elim (Bool-cases (ltb n 10)) [
  | inl lt ↦ rw lt
  | inr ge ↦
      let high = ltb→le n 10 ge in rw (ge, decimal_stable k m (n / 10) (omega arith) (omega arith))
]

pub decimal_one : (k n : ℕ) → n < 10 → decimal (suc k) n ≡ (48 + n) ∷ []
unfolding decimal
decimal_one k n h = rw (lt→ltb n 10 h)

pub decimal_more :
    (n : ℕ) → 10 ≤ n → decimal (suc n) n ≡ decimal (suc (n / 10)) (n / 10) ++ (48 + n % 10) ∷ []
unfolding decimal
decimal_more n h =
    rw (le→ltb n 10 h, decimal_stable n (suc (n / 10)) (n / 10) (omega arith) (omega arith))

-- On fuel above the number.
unfoldable pub minimal : ℕ → ℕ → List ℕ
minimal zero n = []
minimal (suc k) n =
    let rest = minimal k (n / 256) in if ltb n 256 then n ∷ [] else rest ++ (n % 256) ∷ []

pub minimal_stable : (k m n : ℕ) → n < k → n < m → minimal k n ≡ minimal m n
unfolding minimal
minimal_stable zero m n hk hm = absurd (omega arith)
minimal_stable (suc k) zero n hk hm = absurd (omega arith)
minimal_stable (suc k) (suc m) n hk hm = elim (Bool-cases (ltb n 256)) [
  | inl lt ↦ rw lt
  | inr ge ↦
      let high = ltb→le n 256 ge in
      rw (ge, minimal_stable k m (n / 256) (omega arith) (omega arith))
]

pub minimal_one : (k n : ℕ) → n < 256 → minimal (suc k) n ≡ n ∷ []
unfolding minimal
minimal_one k n h = rw (lt→ltb n 256 h)

pub minimal_more :
    (n : ℕ) → 256 ≤ n → minimal (suc n) n ≡ minimal (suc (n / 256)) (n / 256) ++ (n % 256) ∷ []
unfolding minimal
minimal_more n h =
    rw (le→ltb n 256 h, minimal_stable n (suc (n / 256)) (n / 256) (omega arith) (omega arith))

pow_more : (l : ℕ) → 256 ^ (l + 1) ≡ 256 ^ l * 256
pow_more l = ap (λ (t : ℕ). 256 ^ t) one_more ∙ pow-suc 256 l
  where
    one_more : l + 1 ≡ suc l
    one_more = omega arith

shifted : (c p v b : ℕ) → c * (p * 256) + (v * 256 + b) ≡ (c * p + v) * 256 + b
shifted c p v b = omega arith

quotient_lt : (n j : ℕ) → n < 256 ^ suc j → n / 256 < 256 ^ j
quotient_lt n j h = omega (arith, pow_bound)
  where
    pow_bound : n < 256 ^ j * 256
    pow_bound = rw pow-suc at h

le_quotient : (n j : ℕ) → 256 ^ suc j ≤ n → 256 ^ j ≤ n / 256
le_quotient n j h = omega (arith, pow_bound)
  where
    pow_bound : 256 ^ j * 256 ≤ n
    pow_bound = rw pow-suc at h

be_value-snoc : (bs : List ℕ) (b : ℕ) → be_value (bs ++ b ∷ []) ≡ be_value bs * 256 + b
unfolding be_value
be_value-snoc [] b = omega arith
be_value-snoc (c ∷ bs) b =
    rw (length-append, be_value-snoc bs b, pow_more (length bs))
      (shifted c (256 ^ length bs) (be_value bs) b)

pub be_value-minimal : (k n : ℕ) → n < k → be_value (minimal k n) ≡ n
unfolding minimal
be_value-minimal zero n h = absurd (omega arith)
be_value-minimal (suc k) n h = elim (Bool-cases (ltb n 256)) [
  | inl lt ↦ rw lt (unfold be_value in omega arith)
  | inr ge ↦
      let high = ltb→le n 256 ge in
      rw (ge, be_value-snoc, be_value-minimal k (n / 256) (omega arith)) (omega arith)
]

pub minimal-IsBytes : (k n : ℕ) → IsBytes (minimal k n)
unfolding minimal
minimal-IsBytes zero n = tt
minimal-IsBytes (suc k) n = elim (Bool-cases (ltb n 256)) [
  | inl lt ↦ rw lt (ltb→lt n 256 lt, tt)
  | inr ge ↦
      rw ge
        (All-append IsByte (minimal k (n / 256)) _ (minimal-IsBytes k (n / 256)) (omega arith, tt))
]

-- As many bytes as the number needs, and no more.
pub length-minimal : (k n j : ℕ) → n < 256 ^ suc j → length (minimal k n) ≤ suc j
unfolding minimal
length-minimal zero n j h = omega arith
length-minimal (suc k) n zero h = rw (minimal_one k n (omega arith)) (omega arith)
length-minimal (suc k) n (suc j) h = elim (Bool-cases (ltb n 256)) [
  | inl lt ↦ rw lt (omega arith)
  | inr ge ↦
      rw (ge, length-append) (omega (arith, length-minimal k (n / 256) j (quotient_lt n (suc j) h)))
]

pub minimal_long : (k n j : ℕ) → n < k → 256 ^ j ≤ n → j < length (minimal k n)
unfolding minimal
minimal_long zero n j hk h = absurd (omega arith)
minimal_long (suc k) n zero hk h = elim (Bool-cases (ltb n 256)) [
  | inl lt ↦ rw lt (omega arith)
  | inr ge ↦ rw (ge, length-append) (omega arith)
]
minimal_long (suc k) n (suc j) hk h = elim (Bool-cases (ltb n 256)) [
  | inl lt ↦ absurd (omega (arith, ltb→lt n 256 lt, le_quotient n j h, pow_pos j))
  | inr ge ↦
      let high = ltb→le n 256 ge in
      rw (ge, length-append)
        (omega (arith, minimal_long k (n / 256) j (omega arith) (le_quotient n j h)))
]
