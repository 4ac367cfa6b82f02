-- ===== src/Prelude/Bytes.antt =====
-- Big-endian byte strings as numbers: what the conversions between words and byte arrays mean.
use Prim.Native.Nat.{ℕ, zero, suc, ◌+◌, ◌*◌, ◌/◌, ◌%◌, ◌^◌, ◌<◌}
use mathlib.Core.Path.{◌≡◌, refl, sym, ap, ◌∙◌}
use mathlib.Core.List.{List, [], ◌∷◌}
use native.Mathlib.Omega.{arith}
use native.Mathlib.Nat.{
  div-add-mod, pow-suc, mod-eq_of_lt, mod-lt, mul-add-mod_self_left, mul-add-div, mul-add-div_right,
  div-eq_of_lt,
}
use kakarot_rpc_adapter.Prelude.Lists.{length, All}

abbrev pub IsByte : ℕ → Type 0
IsByte b = b < 256

abbrev pub IsBytes : List ℕ → Type 0
IsBytes bs = All IsByte bs

-- The number that a byte string writes in base 256, first byte highest.
unfoldable pub be_value : List ℕ → ℕ
be_value [] = 0
be_value (b ∷ bs) = b * 256 ^ length bs + be_value bs

-- The `n` lowest base-256 digits of `v`, highest first.
unfoldable pub be_bytes : ℕ → ℕ → List ℕ
be_bytes zero v = []
be_bytes (suc n) v = (v / 256 ^ n % 256) ∷ be_bytes n v

pub length-be_bytes : (n v : ℕ) → length (be_bytes n v) ≡ n
unfolding be_bytes
length-be_bytes zero v = refl
length-be_bytes (suc n) v = ap suc (length-be_bytes n v)

pub be_bytes-IsBytes : (n v : ℕ) → IsBytes (be_bytes n v)
unfolding be_bytes
be_bytes-IsBytes zero v = tt
be_bytes-IsBytes (suc n) v = (omega arith, be_bytes-IsBytes n v)

digit_fits : (b p v : ℕ) → b < 256 → v < p → b * p + v < p * 256
digit_fits b p v hb hv = grind arith

pub be_value-lt : (bs : List ℕ) → IsBytes bs → be_value bs < 256 ^ length bs
unfolding be_value
be_value-lt [] h = omega arith
be_value-lt (b ∷ bs) (hb, h) = rw pow-suc (digit_fits b _ _ hb (be_value-lt bs h))

pub pow_pos : (n : ℕ) → 0 < 256 ^ n
pow_pos zero = omega arith
pow_pos (suc n) = rw pow-suc (omega (arith, pow_pos n))

-- `v` in base `p`, with the lowest digit of the quotient split off.
regroup : (v p : ℕ) → p * 256 * (v / p / 256) + (v / p % 256 * p + v % p) ≡ v
regroup v p = omega (arith, ap (λ (t : ℕ). p * t) (div-add-mod (v / p) 256), div-add-mod v p)

mod_split : (v p : ℕ) → 0 < p → v / p % 256 * p + v % p ≡ v % (p * 256)
mod_split v p h =
    sym (mod-eq_of_lt (digit_fits (v / p % 256) p (v % p) (omega arith) (mod-lt v h)))
    ∙ sym (mul-add-mod_self_left (p * 256) (v / p / 256) (v / p % 256 * p + v % p))
    ∙ ap (λ (t : ℕ). t % (p * 256)) (regroup v p)

pub be_value-be_bytes : (n v : ℕ) → be_value (be_bytes n v) ≡ v % 256 ^ n
unfolding be_value be_bytes
be_value-be_bytes zero v = omega arith
be_value-be_bytes (suc n) v =
    rw (length-be_bytes, be_value-be_bytes n v, pow-suc) (mod_split v (256 ^ n) (pow_pos n))

regroup_high : (c p : ℕ) → c * (p * 256) ≡ p * (c * 256)
regroup_high c p = omega arith

high_digit : (c v p : ℕ) → 0 < p → (c * (p * 256) + v) / p % 256 ≡ v / p % 256
high_digit c v p h =
    ap (λ (t : ℕ). (t + v) / p % 256) (regroup_high c p)
    ∙ rw (mul-add-div h (c * 256) v) (omega arith)

regroup_low : (c p : ℕ) → c * (p * 256) ≡ c * 256 * p
regroup_low c p = omega arith

pub be_bytes-add_high : (n c v : ℕ) → be_bytes n (c * 256 ^ n + v) ≡ be_bytes n v
unfolding be_bytes
be_bytes-add_high zero c v = refl
be_bytes-add_high (suc n) c v =
    rw (pow-suc, high_digit c v (256 ^ n) (pow_pos n), ← be_bytes-add_high n (c * 256) v)
      (cc (regroup_low c (256 ^ n)))

top_digit : (b v p : ℕ) → b < 256 → v < p → (b * p + v) / p % 256 ≡ b
top_digit b v p hb hv =
    rw (mul-add-div_right {m = p} (omega arith) b v, div-eq_of_lt hv) (omega arith)

pub be_bytes-be_value : (bs : List ℕ) → IsBytes bs → be_bytes (length bs) (be_value bs) ≡ bs
unfolding be_value be_bytes
be_bytes-be_value [] h = refl
be_bytes-be_value (b ∷ bs) (hb, h) =
    rw (be_bytes-add_high (length bs) b (be_value bs), be_bytes-be_value bs h)
      (ap (λ t. t ∷ bs) (top_digit b _ _ hb (be_value-lt bs h)))
