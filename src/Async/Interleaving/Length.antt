-- ===== src/Async/Interleaving/Length.antt =====
-- How long the interleavings of futures are.
use Prim.Native.Nat.mul
use kakarot_rpc_adapter.Prelude.{
  ℕ, zero, suc, ◌+◌, ◌*◌, ◌≤◌, ◌≡◌, refl, ap, List, [], ◌∷◌, map, length, arith,
}
use kakarot_rpc_adapter.Async.{Async, ret, request}
use kakarot_rpc_adapter.Async.Bounded.{Requests, AtMost}
use kakarot_rpc_adapter.Async.Interleaving.{
  Node, Step, Steps, here, there, done, more, final, ended,
}

module _ {E A : Type 0} (answer : Node) where
  -- The requests that a future still makes, and those that all of them do.
  unfoldable pub requests : Async E A → ℕ
  requests (ret o) = 0
  requests (request r k) = suc (requests (k (answer r)))

  unfoldable pub total : List (Async E A) → ℕ
  total [] = 0
  total (m ∷ ms) = requests m + total ms

  unfoldable pub steps_taken : {ms ms' : List (Async E A)} → Steps answer ms ms' → ℕ
  steps_taken (done ms) = 0
  steps_taken (more ms ms' ms'' s rest) = suc (steps_taken rest)

  Step-total : {ms ms' : List (Async E A)} → Step answer ms ms' → total ms ≡ suc (total ms')
  unfolding total requests
  Step-total (here r k ms) = omega arith
  Step-total (there m ms ms' s) = omega (arith, Step-total s)

  -- Each step makes one of the requests that are left.
  pub Steps-total :
      {ms ms' : List (Async E A)} (s : Steps answer ms ms') → steps_taken s + total ms' ≡ total ms
  unfolding steps_taken
  Steps-total (done ms) = omega arith
  Steps-total (more ms ms' ms'' s rest) = omega (arith, Step-total s, Steps-total rest)

  total-zero : (ms : List (Async E A)) → total ms ≡ 0 → ms ≡ ended answer (map (final answer) ms)
  unfolding total requests final ended
  total-zero [] h = refl
  total-zero (ret o ∷ ms) h = ap (λ l. ret o ∷ l) (total-zero ms (omega (arith, h)))
  total-zero (request r k ∷ ms) h = absurd (omega (arith, h))

  requests-AtMost : (n : ℕ) (m : Async E A) → Requests n m → requests m ≤ n
  unfolding requests
  requests-AtMost n (ret o) h = omega arith
  requests-AtMost zero (request r k) h = absurd h
  requests-AtMost (suc n) (request r k) h =
      omega (arith, requests-AtMost n (k (answer r)) (h (answer r)))

  pub total-AtMost :
      {B : Type 0} (n : ℕ) (f : B → Async E A)
      → ((b : B) → AtMost n (f b))
      → (bs : List B) → total (map f bs) ≤ length bs * n
  unfolding total
  total-AtMost n f h [] = omega arith
  total-AtMost n f h (b ∷ bs) =
      rw (mul.suc (length bs) n)
        (omega (arith, requests-AtMost n (f b) (h b).requests, total-AtMost n f h bs))
