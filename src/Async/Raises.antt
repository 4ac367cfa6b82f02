-- ===== src/Async/Raises.antt =====
-- What holds of every error that a tree can end in, whatever the replies: one rule for each way to
-- build a tree.
use mathlib.Core.Path.{subst}
use kakarot_rpc_adapter.Prelude.{ℕ, suc, ◌≡◌, Option, none, some}
use kakarot_rpc_adapter.Outcome.{Outcome, ok, err, panic, map_err, ok_or}
use kakarot_rpc_adapter.Async.{Reply, Async, ret, request, map_error, ◌>>=◌}
use kakarot_rpc_adapter.Async.Run.{Script, run}

-- The error of an outcome, if it has one.
abbrev pub Fails : {E A : Type 0} → (E → Type 0) → Outcome E A → Type 0
Fails P (ok a) = Unit
Fails P (err e) = P e
Fails P panic = Unit

abbrev Errors : {E A : Type 0} → (E → Type 0) → Async E A → Type 0
Errors P (ret o) = Fails P o
Errors P (request r k) = (x : Reply r) → Errors P (k x)

pub record Raises {E A : Type 0} (P : E → Type 0) (m : Async E A) : Type 0 where
  pub errors : Errors P m

module _ {E A : Type 0} (P : E → Type 0) where
  pub Raises-ret : (o : Outcome E A) → Fails P o → Raises P (ret o)
  Raises-ret o h = record { errors = h }

  pub Raises-ok_or : (e : E) (o : Option A) → P e → Raises P (ret (ok_or e o))
  Raises-ok_or e none h = record { errors = h }
  Raises-ok_or e (some a) h = record { errors = tt }

  Errors-run : (m : Async E A) (s : Script) (n : ℕ) → Errors P m → Fails P (run m s n).0
  unfolding run
  Errors-run (ret o) s n h = h
  Errors-run (request r k) s n h = Errors-run (k (s n r)) s (suc n) (h (s n r))

  -- Every run gives such an error, if it gives one.
  pub Raises-run :
      (m : Async E A) (s : Script) (n : ℕ) {e : E} → Raises P m → (run m s n).0 ≡ err e → P e
  Raises-run m s n h eq = subst (Fails P) eq (Errors-run m s n h.errors)

module _ {E A B : Type 0} (P : E → Type 0) where
  Errors-bind :
      (m : Async E A) (f : A → Async E B)
      → Errors P m
      → ((a : A) → Raises P (f a))
      → Errors P (m >>= f)
  unfolding ◌>>=◌
  Errors-bind (ret (ok a)) f h k = (k a).errors
  Errors-bind (ret (err e)) f h k = h
  Errors-bind (ret panic) f h k = tt
  Errors-bind (request r q) f h k = λ x. Errors-bind (q x) f (h x) k

  pub Raises-bind :
      {m : Async E A} (f : A → Async E B)
      → Raises P m
      → ((a : A) → Raises P (f a))
      → Raises P (m >>= f)
  Raises-bind f h k = record { errors = Errors-bind _ f h.errors k }

-- The errors that the conversion of `?` makes.
module _ {E F A : Type 0} (P : F → Type 0) (f : E → F) (made : (e : E) → P (f e)) where
  pub map_err-Fails : (o : Outcome E A) → Fails P (map_err f o)
  map_err-Fails (ok a) = tt
  map_err-Fails (err e) = made e
  map_err-Fails panic = tt

  Errors-map_error : (m : Async E A) → Errors P (map_error f m)
  unfolding map_error
  Errors-map_error (ret o) = map_err-Fails o
  Errors-map_error (request r k) = λ x. Errors-map_error (k x)

  pub Raises-map_error : (m : Async E A) → Raises P (map_error f m)
  Raises-map_error m = record { errors = Errors-map_error m }
