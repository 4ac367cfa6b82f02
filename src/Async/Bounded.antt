-- ===== src/Async/Bounded.antt =====
-- How many requests a tree makes at most, whatever the replies: one rule for each way to build a tree.
use kakarot_rpc_adapter.Prelude.{
  ℕ, zero, suc, ◌+◌, ◌≤◌, ◌≡◌, Bool, true, false, inl, inr, if◌then◌else◌, arith,
}
use kakarot_rpc_adapter.Outcome.{Outcome, ok, err, panic, map_err}
use kakarot_rpc_adapter.Async.{
  Request, Reply, Async, ret, request, received, ask, attempt, caught, map_error, ◌>>=◌,
}
use kakarot_rpc_adapter.Async.Run.{Script, run}

abbrev pub Requests : {E A : Type 0} → ℕ → Async E A → Type 0
Requests n (ret o) = Unit
Requests zero (request r k) = ⊥
Requests (suc n) (request r k) = (x : Reply r) → Requests n (k x)

-- On every branch the tree makes no more than that many requests.
pub record AtMost (n : ℕ) {E A : Type 0} (m : Async E A) : Type 0 where
  pub requests : Requests n m

module _ {E A : Type 0} where
  pub AtMost-ret : (n : ℕ) (o : Outcome E A) → AtMost n (ret o)
  AtMost-ret zero o = record { requests = tt }
  AtMost-ret (suc n) o = record { requests = tt }

  Requests-more : (n k : ℕ) (m : Async E A) → n ≤ k → Requests n m → Requests k m
  Requests-more n k (ret o) le h = (AtMost-ret k o).requests
  Requests-more zero k (request r q) le h = absurd h
  Requests-more (suc n) zero (request r q) le h = absurd (omega (arith, le))
  Requests-more (suc n) (suc k) (request r q) le h =
      λ x. Requests-more n k (q x) (omega (arith, le)) (h x)

  pub AtMost-more : (n k : ℕ) {m : Async E A} → n ≤ k → AtMost n m → AtMost k m
  AtMost-more n k le h = record { requests = Requests-more n k _ le h.requests }

  pub AtMost-if :
      (n : ℕ) (b : Bool) (m m' : Async E A)
      → AtMost n m
      → AtMost n m'
      → AtMost n (if b then m else m')
  AtMost-if n true m m' h h' = h
  AtMost-if n false m m' h h' = h'

  Requests-run : (n : ℕ) (m : Async E A) (s : Script) (i : ℕ) → Requests n m → (run m s i).1 ≤ i + n
  unfolding run
  Requests-run zero (ret o) s i h = omega arith
  Requests-run (suc n) (ret o) s i h = omega arith
  Requests-run zero (request r k) s i h = absurd h
  Requests-run (suc n) (request r k) s i h =
      omega (arith, Requests-run n (k (s i r)) s (suc i) (h (s i r)))

  -- Every run is as short.
  pub AtMost-run : (n : ℕ) (m : Async E A) (s : Script) (i : ℕ) → AtMost n m → (run m s i).1 ≤ i + n
  AtMost-run n m s i h = Requests-run n m s i h.requests

suc_add : (n k : ℕ) → suc n + k ≡ suc (n + k)
suc_add n k = omega arith

module _ {E A B : Type 0} where
  Requests-bind :
      (n k : ℕ) (m : Async E A) (f : A → Async E B)
      → Requests n m
      → ((a : A) → AtMost k (f a))
      → Requests (n + k) (m >>= f)
  unfolding ◌>>=◌
  Requests-bind n k (ret (ok a)) f h b = Requests-more k (n + k) (f a) (omega arith) (b a).requests
  Requests-bind n k (ret (err e)) f h b = (AtMost-ret {A = B} (n + k) (err e)).requests
  Requests-bind n k (ret panic) f h b = (AtMost-ret {E = E} {A = B} (n + k) panic).requests
  Requests-bind zero k (request r q) f h b = absurd h
  Requests-bind (suc n) k (request r q) f h b =
      rw (suc_add n k) (λ x. Requests-bind n k (q x) f (h x) b)

  pub AtMost-bind :
      (n k : ℕ) {m : Async E A} (f : A → Async E B)
      → AtMost n m
      → ((a : A) → AtMost k (f a))
      → AtMost (n + k) (m >>= f)
  AtMost-bind n k f h b = record { requests = Requests-bind n k _ f h.requests b }

module _ {E A : Type 0} where
  Requests-attempt : (n : ℕ) (m : Async E A) → Requests n m → Requests n (attempt m)
  unfolding attempt
  Requests-attempt n (ret o) h = (AtMost-ret n (caught o)).requests
  Requests-attempt zero (request r k) h = absurd h
  Requests-attempt (suc n) (request r k) h = λ x. Requests-attempt n (k x) (h x)

  pub AtMost-attempt : (n : ℕ) {m : Async E A} → AtMost n m → AtMost n (attempt m)
  AtMost-attempt n h = record { requests = Requests-attempt n _ h.requests }

module _ {E F A : Type 0} (f : E → F) where
  Requests-map_error : (n : ℕ) (m : Async E A) → Requests n m → Requests n (map_error f m)
  unfolding map_error
  Requests-map_error n (ret o) h = (AtMost-ret n (map_err f o)).requests
  Requests-map_error zero (request r k) h = absurd h
  Requests-map_error (suc n) (request r k) h = λ x. Requests-map_error n (k x) (h x)

  pub AtMost-map_error : (n : ℕ) {m : Async E A} → AtMost n m → AtMost n (map_error f m)
  AtMost-map_error n h = record { requests = Requests-map_error n _ h.requests }

received-Requests : (r : Request) (x : Reply r) → Requests 0 (received r x)
received-Requests r (inl e) = tt
received-Requests r (inr v) = tt

pub AtMost-ask : (r : Request) → AtMost 1 (ask r)
unfolding ask
AtMost-ask r = record { requests = received-Requests r }
