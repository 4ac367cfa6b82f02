-- ===== src/Async/Yields.antt =====
-- What holds of every value that a tree can end in, whatever the replies: one rule for each way to
-- build a tree.
use mathlib.Core.Path.{subst}
use kakarot_rpc_adapter.Prelude.{
  ℕ, suc, ◌≡◌, Bool, true, false, List, [], ◌∷◌, ◌⊎◌, inl, inr, map, All, Option, none, some,
  if◌then◌else◌,
}
use kakarot_rpc_adapter.Outcome
use kakarot_rpc_adapter.Outcome.{Outcome, ok, err, panic, map_err, map_ok, traverse, unwrap}
use kakarot_rpc_adapter.Async.{Reply, Async, ret, request, attempt, caught, map_error, ◌>>=◌}
use kakarot_rpc_adapter.Async.Run.{Script, run}
use kakarot_rpc_adapter.Async.Join.{join_all}

-- The value of an outcome, if it has one.
abbrev pub Ends : {E A : Type 0} → (A → Type 0) → Outcome E A → Type 0
Ends P (ok a) = P a
Ends P (err e) = Unit
Ends P panic = Unit

-- The value of an option, if it has one.
abbrev pub Given : {A : Type 0} → (A → Type 0) → Option A → Type 0
Given P none = Unit
Given P (some a) = P a

-- The value of a `Result` that is kept as a value.
abbrev pub Right : {E A : Type 0} → (A → Type 0) → E ⊎ A → Type 0
Right P (inl e) = Unit
Right P (inr a) = P a

abbrev pub Values : {E A : Type 0} → (A → Type 0) → Async E A → Type 0
Values P (ret o) = Ends P o
Values P (request r k) = (x : Reply r) → Values P (k x)

pub record Yields {E A : Type 0} (P : A → Type 0) (m : Async E A) : Type 0 where
  pub values : Values P m

module _ {E A : Type 0} (P : A → Type 0) where
  pub Yields-ret : (o : Outcome E A) → Ends P o → Yields P (ret o)
  Yields-ret o h = record { values = h }

  pub Yields-if :
      (b : Bool) (m n : Async E A) → Yields P m → Yields P n → Yields P (if b then m else n)
  Yields-if true m n hm hn = hm
  Yields-if false m n hm hn = hn

  Values-run : (m : Async E A) (s : Script) (n : ℕ) → Values P m → Ends P (run m s n).0
  unfolding run
  Values-run (ret o) s n h = h
  Values-run (request r k) s n h = Values-run (k (s n r)) s (suc n) (h (s n r))

  -- Every run gives such a value, if it gives one.
  pub Yields-run :
      (m : Async E A) (s : Script) (n : ℕ) {a : A} → Yields P m → (run m s n).0 ≡ ok a → P a
  Yields-run m s n h e = subst (Ends P) e (Values-run m s n h.values)

module _ {E A B : Type 0} (P : A → Type 0) (Q : B → Type 0) where
  Values-bind :
      (m : Async E A) (f : A → Async E B)
      → Values P m
      → ((a : A) → P a → Yields Q (f a))
      → Values Q (m >>= f)
  unfolding ◌>>=◌
  Values-bind (ret (ok a)) f h k = (k a h).values
  Values-bind (ret (err e)) f h k = tt
  Values-bind (ret panic) f h k = tt
  Values-bind (request r q) f h k = λ x. Values-bind (q x) f (h x) k

  pub Yields-bind :
      {m : Async E A} (f : A → Async E B)
      → Yields P m
      → ((a : A) → P a → Yields Q (f a))
      → Yields Q (m >>= f)
  Yields-bind f h k = record { values = Values-bind _ f h.values k }

module _ {E A : Type 0} (P Q : A → Type 0) (w : (a : A) → P a → Q a) where
  Ends-weaken : (o : Outcome E A) → Ends P o → Ends Q o
  Ends-weaken (ok a) h = w a h
  Ends-weaken (err e) h = tt
  Ends-weaken panic h = tt

  Values-weaken : (m : Async E A) → Values P m → Values Q m
  Values-weaken (ret o) h = Ends-weaken o h
  Values-weaken (request r k) h = λ x. Values-weaken (k x) (h x)

  pub Yields-weaken : {m : Async E A} → Yields P m → Yields Q m
  Yields-weaken h = record { values = Values-weaken _ h.values }

module _ {E A : Type 0} where
  Values-any : (m : Async E A) → Values (λ _. Unit) m
  Values-any (ret (ok a)) = tt
  Values-any (ret (err e)) = tt
  Values-any (ret panic) = tt
  Values-any (request r k) = λ x. Values-any (k x)

  pub Yields-any : (m : Async E A) → Yields (λ _. Unit) m
  Yields-any m = record { values = Values-any m }

module _ {E A B : Type 0} (Q : B → Type 0) where
  -- A first part of which nothing is needed.
  pub Yields-after :
      (m : Async E A) (f : A → Async E B) → ((a : A) → Yields Q (f a)) → Yields Q (m >>= f)
  Yields-after m f k = Yields-bind (λ _. Unit) Q f (Yields-any m) (λ a _. k a)

module _ {E A : Type 0} (P : A → Type 0) where
  Ends-caught : (o : Outcome E A) → Ends P o → Ends (Right P) (caught o)
  Ends-caught (ok a) h = h
  Ends-caught (err e) h = tt
  Ends-caught panic h = tt

  Values-attempt : (m : Async E A) → Values P m → Values (Right P) (attempt m)
  unfolding attempt
  Values-attempt (ret o) h = Ends-caught o h
  Values-attempt (request r k) h = λ x. Values-attempt (k x) (h x)

  pub Yields-attempt : {m : Async E A} → Yields P m → Yields (Right P) (attempt m)
  Yields-attempt h = record { values = Values-attempt _ h.values }

module _ {E F A : Type 0} (P : A → Type 0) (f : E → F) where
  pub Ends-map_err : (o : Outcome E A) → Ends P o → Ends P (map_err f o)
  Ends-map_err (ok a) h = h
  Ends-map_err (err e) h = tt
  Ends-map_err panic h = tt

  Values-map_error : (m : Async E A) → Values P m → Values P (map_error f m)
  unfolding map_error
  Values-map_error (ret o) h = Ends-map_err o h
  Values-map_error (request r k) h = λ x. Values-map_error (k x) (h x)

  pub Yields-map_error : {m : Async E A} → Yields P m → Yields P (map_error f m)
  Yields-map_error h = record { values = Values-map_error _ h.values }

module _ {E A B : Type 0} (P : A → Type 0) (Q : B → Type 0) where
  pub Ends-bind :
      (o : Outcome E A) (f : A → Outcome E B)
      → Ends P o
      → ((a : A) → P a → Ends Q (f a))
      → Ends Q (Outcome.◌>>=◌ o f)
  Ends-bind (ok a) f h k = k a h
  Ends-bind (err e) f h k = tt
  Ends-bind panic f h k = tt

module _ {E A B : Type 0} (P : A → Type 0) where
  pub Yields-join_all :
      (f : B → Async E A)
      → ((b : B) → Yields P (f b))
      → (bs : List B) → Yields (All (Right P)) (join_all (map f bs))
  unfolding join_all
  Yields-join_all f h [] = Yields-ret _ _ tt
  Yields-join_all f h (b ∷ bs) = Yields-bind (Right P) _ _ (Yields-attempt P (h b)) λ r hr.
      Yields-bind (All (Right P)) _ _ (Yields-join_all f h bs) λ rs hrs. Yields-ret _ _ (hr, hrs)

  pub Ends-traverse :
      (f : B → Outcome E A)
      → ((b : B) → Ends P (f b))
      → (bs : List B) → Ends (All P) (traverse f bs)
  unfolding traverse
  Ends-traverse f h [] = tt
  Ends-traverse f h (b ∷ bs) =
      Ends-bind P (All P) (f b) _ (h b) λ y hy.
        Ends-bind (All P) (All P) (traverse f bs) _ (Ends-traverse f h bs) λ ys hys. (hy, hys)

pub map_ok-Ends :
    {E A B : Type 0} (P : A → Type 0) (Q : B → Type 0) (f : A → B) (o : Outcome E A)
    → Ends P o
    → ((a : A) → P a → Q (f a))
    → Ends Q (map_ok f o)
map_ok-Ends P Q f (ok a) h k = k a h
map_ok-Ends P Q f (err e) h k = tt
map_ok-Ends P Q f panic h k = tt

pub Ends-any : {E A : Type 0} (o : Outcome E A) → Ends (λ _. Unit) o
Ends-any (ok a) = tt
Ends-any (err e) = tt
Ends-any panic = tt
