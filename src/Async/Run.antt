-- ===== src/Async/Run.antt =====
-- Running a tree against a script of replies, and the laws of its steps.
use kakarot_rpc_adapter.Prelude.{ℕ, suc, ◌≡◌, refl, ap, inl, inr}
use kakarot_rpc_adapter.Outcome.{Outcome, ok, err, map_err}
use kakarot_rpc_adapter.Errors.{EthApiError, ProviderError}
use kakarot_rpc_adapter.Async.{
  Request, Value, Reply, Async, ret, request, after, ◌>>=◌, ask, received, attempt, map_error,
  caught,
}

-- The reply to a request that is the `n`-th of the run.
abbrev pub Script : Type 0
Script = ℕ → (r : Request) → Reply r

module _ {E A : Type 0} where
  -- From the point where `n` requests were made: the outcome, and the count at the end.
  unfoldable pub run : Async E A → Script → ℕ → Outcome E A × ℕ
  run (ret o) s n = (o, n)
  run (request r k) s n = run (k (s n r)) s (suc n)

module _ {E A B : Type 0} where
  abbrev pub run_after : Outcome E A × ℕ → (A → Async E B) → Script → Outcome E B × ℕ
  run_after (o, n) f s = run (after o f) s n

  -- A sequence runs its first part, and the rest from where that ended.
  pub run->>= :
      (m : Async E A) (f : A → Async E B) (s : Script) (n : ℕ)
      → run (m >>= f) s n ≡ run_after (run m s n) f s
  unfolding run ◌>>=◌
  run->>= (ret o) f s n = refl
  run->>= (request r k) f s n = run->>= (k (s n r)) f s (suc n)

-- A request on its own.
pub run-ask :
    (r : Request) (s : Script) (n : ℕ) (v : Value r)
    → s n r ≡ inr v
    → run (ask r) s n ≡ (ok v, suc n)
unfolding run ask
run-ask r s n v h = ap (λ x. run (received r x) s (suc n)) h

-- What `?` makes of an outcome on the way out.
pub run-map_error :
    {E F A : Type 0} (f : E → F) (m : Async E A) (s : Script) (n : ℕ)
    → run (map_error f m) s n ≡ (map_err f (run m s n).0, (run m s n).1)
unfolding run map_error
run-map_error f (ret o) s n = refl
run-map_error f (request r k) s n = run-map_error f (k (s n r)) s (suc n)

-- A request that fails on its own.
pub run-refused :
    (r : Request) (s : Script) (n : ℕ) (e : ProviderError)
    → s n r ≡ inl e
    → run (ask r) s n ≡ (err (EthApiError.request_error e), suc n)
unfolding run ask
run-refused r s n e h = ap (λ x. run (received r x) s (suc n)) h

-- A `Result` that is kept as a value.
pub run-attempt :
    {E A : Type 0} (m : Async E A) (s : Script) (n : ℕ)
    → run (attempt m) s n ≡ (caught (run m s n).0, (run m s n).1)
unfolding run attempt
run-attempt (ret o) s n = refl
run-attempt (request r k) s n = run-attempt (k (s n r)) s (suc n)
