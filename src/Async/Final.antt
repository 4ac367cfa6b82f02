-- ===== src/Async/Final.antt =====
-- What a tree of requests comes to over a node that answers alike whenever it is asked, step by step.
use kakarot_rpc_adapter.Prelude.{◌≡◌, refl, ◌⊎◌, inl, inr}
use kakarot_rpc_adapter.Errors.{ProviderError, EthApiError, request_error}
use kakarot_rpc_adapter.Outcome
use kakarot_rpc_adapter.Outcome.{Outcome, ok, err, panic, map_err, map_ok}
use kakarot_rpc_adapter.Async.{
  Request, Reply, Async, ret, request, after, pure, ◌>>=◌, ask, received, map_error,
}
use kakarot_rpc_adapter.Async.Interleaving.{Node, final}

-- The `Result` of a reply.
abbrev pub of_reply : {A : Type 0} → ProviderError ⊎ A → Outcome EthApiError A
of_reply (inl e) = err (request_error e)
of_reply (inr v) = ok v

module _ (node : Node) where
  -- A sequence comes to what its parts come to.
  pub final->>= :
      {E A B : Type 0} (m : Async E A) (f : A → Async E B)
      → final node (m >>= f) ≡ Outcome.◌>>=◌ (final node m) (λ a. final node (f a))
  unfolding ◌>>=◌ final
  final->>= (ret (ok a)) f = refl
  final->>= (ret (err e)) f = refl
  final->>= (ret panic) f = refl
  final->>= (request r k) f = final->>= (k (node r)) f

  pub final-ask : (r : Request) → final node (ask r) ≡ of_reply (node r)
  unfolding ask final
  final-ask r = by_reply (node r)
    where
      by_reply : (reply : Reply r) → final node (received r reply) ≡ of_reply reply
      by_reply (inl e) = refl
      by_reply (inr v) = refl

  pub final-map_error :
      {E F A : Type 0} (f : E → F) (m : Async E A)
      → final node (map_error f m) ≡ map_err f (final node m)
  unfolding map_error final
  final-map_error f (ret o) = refl
  final-map_error f (request r k) = final-map_error f (k (node r))

  -- A value that is passed on.
  pub final-pure :
      {E A B : Type 0} (o : Outcome E A) (f : A → B)
      → final node (after o (λ a. pure (f a))) ≡ map_ok f o
  unfolding final
  final-pure (ok a) f = refl
  final-pure (err e) f = refl
  final-pure panic f = refl
