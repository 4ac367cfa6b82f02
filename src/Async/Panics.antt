-- ===== src/Async/Panics.antt =====
-- Trees that end in no panic, whatever the replies: one rule for each way to build a tree.
use kakarot_rpc_adapter.Prelude.{Option, none, some, inl, inr, List, [], ◌∷◌}
use kakarot_rpc_adapter.Outcome.{Outcome, ok, err, panic, ok_or, map_err, traverse}
use kakarot_rpc_adapter.Outcome
use kakarot_rpc_adapter.Async.{
  Request, Reply, Async, ret, request, received, ask, lift, map_error, ◌>>=◌,
}

abbrev pub IsResult : {E A : Type 0} → Outcome E A → Type 0
IsResult (ok a) = Unit
IsResult (err e) = Unit
IsResult panic = ⊥

abbrev pub Results : {E A : Type 0} → Async E A → Type 0
Results (ret o) = IsResult o
Results (request r k) = (x : Reply r) → Results (k x)

-- On every branch the tree ends in a value or an error.
pub record NeverPanics {E A : Type 0} (m : Async E A) : Type 0 where
  pub results : Results m

module _ {E A : Type 0} where
  pub NeverPanics-lift : (o : Outcome E A) → IsResult o → NeverPanics (lift o)
  NeverPanics-lift o h = record { results = h }

  pub ok_or-IsResult : (e : E) (o : Option A) → IsResult (ok_or e o)
  ok_or-IsResult e none = tt
  ok_or-IsResult e (some a) = tt

module _ {E F A : Type 0} (f : E → F) where
  pub map_err-IsResult : (o : Outcome E A) → IsResult o → IsResult (map_err f o)
  map_err-IsResult (ok a) h = tt
  map_err-IsResult (err e) h = tt
  map_err-IsResult panic h = h

  Results-map_error : (m : Async E A) → Results m → Results (map_error f m)
  unfolding map_error
  Results-map_error (ret o) h = map_err-IsResult o h
  Results-map_error (request r k) h = λ x. Results-map_error (k x) (h x)

  pub NeverPanics-map_error : {m : Async E A} → NeverPanics m → NeverPanics (map_error f m)
  NeverPanics-map_error h = record { results = Results-map_error _ h.results }

module _ {E A B : Type 0} where
  Results-bind :
      (m : Async E A) (f : A → Async E B)
      → Results m
      → ((a : A) → NeverPanics (f a))
      → Results (m >>= f)
  unfolding ◌>>=◌
  Results-bind (ret (ok a)) f h k = (k a).results
  Results-bind (ret (err e)) f h k = tt
  Results-bind (ret panic) f h k = h
  Results-bind (request r q) f h k = λ x. Results-bind (q x) f (h x) k

  pub NeverPanics-bind :
      {m : Async E A} (f : A → Async E B)
      → NeverPanics m
      → ((a : A) → NeverPanics (f a))
      → NeverPanics (m >>= f)
  NeverPanics-bind f h k = record { results = Results-bind _ f h.results k }

  pub bind-IsResult :
      (o : Outcome E A) (f : A → Outcome E B)
      → IsResult o
      → ((a : A) → IsResult (f a))
      → IsResult (Outcome.◌>>=◌ o f)
  bind-IsResult (ok a) f h k = k a
  bind-IsResult (err e) f h k = tt
  bind-IsResult panic f h k = h

received-Results : (r : Request) (x : Reply r) → Results (received r x)
received-Results r (inl e) = tt
received-Results r (inr v) = tt

pub NeverPanics-ask : (r : Request) → NeverPanics (ask r)
unfolding ask
NeverPanics-ask r = record { results = received-Results r }

module _ {E A : Type 0} where
  pub NeverPanics-pure : (a : A) → NeverPanics {E = E} (ret (ok a))
  NeverPanics-pure a = record { results = tt }

  pub NeverPanics-ok_or : (e : E) (o : Option A) → NeverPanics (lift (ok_or e o))
  NeverPanics-ok_or e o = record { results = ok_or-IsResult e o }

  pub NeverPanics-throw : (e : E) → NeverPanics {A = A} (ret (err e))
  NeverPanics-throw e = record { results = tt }

pub ruleset result_rules = (
  NeverPanics-ask, NeverPanics-pure, NeverPanics-ok_or, NeverPanics-throw, NeverPanics-bind,
  NeverPanics-map_error,
)

pub traverse-IsResult :
    {E A B : Type 0} (f : A → Outcome E B)
    → ((a : A) → IsResult (f a))
    → (xs : List A) → IsResult (traverse f xs)
unfolding traverse
traverse-IsResult f h [] = tt
traverse-IsResult f h (x ∷ xs) =
    bind-IsResult (f x) _ (h x)
      λ y. bind-IsResult (traverse f xs) _ (traverse-IsResult f h xs) λ ys. tt
