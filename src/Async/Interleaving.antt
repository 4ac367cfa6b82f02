-- ===== src/Async/Interleaving.antt =====
-- `futures::future::join_all` when the requests of its futures are made in any order.
pub mod Length
use kakarot_rpc_adapter.Prelude.{ℕ, suc, ◌≡◌, refl, ap, ◌∙◌, List, [], ◌∷◌, map, ◌⊎◌}
use kakarot_rpc_adapter.Outcome
use kakarot_rpc_adapter.Outcome.{Outcome, ok, err, panic, traverse}
use kakarot_rpc_adapter.Async.{Request, Reply, Async, ret, request, pure, caught, attempt}
use kakarot_rpc_adapter.Async.Join.{join_all}
use kakarot_rpc_adapter.Async.Run.{Script, run, run_after, run-attempt, run->>=}

-- A node that answers each request alike, whenever it is made.
abbrev pub Node : Type 0
Node = (r : Request) → Reply r

abbrev pub steady : Node → Script
steady answer n r = answer r

module _ {E A : Type 0} (answer : Node) where
  -- One future makes its next request.
  pub data Step : List (Async E A) → List (Async E A) → Type 0 where
    here :
        (r : Request) (k : Reply r → Async E A) (ms : List (Async E A))
        → Step (request r k ∷ ms) (k (answer r) ∷ ms)
    there : (m : Async E A) (ms ms' : List (Async E A)) → Step ms ms' → Step (m ∷ ms) (m ∷ ms')

  -- Any number of requests, by any of the futures.
  pub data Steps : List (Async E A) → List (Async E A) → Type 0 where
    done : (ms : List (Async E A)) → Steps ms ms
    more : (ms ms' ms'' : List (Async E A)) → Step ms ms' → Steps ms' ms'' → Steps ms ms''

  -- What a future comes to.
  unfoldable pub final : Async E A → Outcome E A
  final (ret o) = o
  final (request r k) = final (k (answer r))

  pub run-steady : (m : Async E A) (n : ℕ) → (run m (steady answer) n).0 ≡ final m
  unfolding run final
  run-steady (ret o) n = refl
  run-steady (request r k) n = run-steady (k (answer r)) (suc n)

  -- A request changes nothing in what the futures come to.
  Step-final : (ms ms' : List (Async E A)) → Step ms ms' → map final ms ≡ map final ms'
  unfolding final
  Step-final _ _ (here r k ms) = refl
  Step-final _ _ (there m ms ms' s) = ap (λ os. final m ∷ os) (Step-final ms ms' s)

  Steps-final : (ms ms' : List (Async E A)) → Steps ms ms' → map final ms ≡ map final ms'
  Steps-final _ _ (done ms) = refl
  Steps-final _ _ (more ms ms' ms'' s rest) = Step-final ms ms' s ∙ Steps-final ms' ms'' rest

  -- The futures that have ended, and where they are when each has made all its requests.
  pub ended : List (Outcome E A) → List (Async E A)
  ended os = map ret os

  Steps-there :
      (m : Async E A) (ms ms' : List (Async E A)) → Steps ms ms' → Steps (m ∷ ms) (m ∷ ms')
  Steps-there m _ _ (done ms) = done (m ∷ ms)
  Steps-there m _ _ (more ms ms' ms'' s rest) =
      more (m ∷ ms) (m ∷ ms') (m ∷ ms'') (there m ms ms' s) (Steps-there m ms' ms'' rest)

  Steps-first :
      (m : Async E A) (ms ms' : List (Async E A))
      → Steps ms ms'
      → Steps (m ∷ ms) (ret (final m) ∷ ms')
  unfolding final
  Steps-first (ret o) ms ms' s = Steps-there (ret o) ms ms' s
  Steps-first (request r k) ms ms' s =
      more (request r k ∷ ms) (k (answer r) ∷ ms) _ (here r k ms)
        (Steps-first (k (answer r)) ms ms' s)

  -- The futures can all end.
  pub Steps-ended : (ms : List (Async E A)) → Steps ms (ended (map final ms))
  unfolding ended
  Steps-ended [] = done []
  Steps-ended (m ∷ ms) = Steps-first m ms (ended (map final ms)) (Steps-ended ms)

  final-ended : (os : List (Outcome E A)) → map final (ended os) ≡ os
  unfolding ended final
  final-ended [] = refl
  final-ended (o ∷ os) = ap (λ l. o ∷ l) (final-ended os)

-- A sequence comes to what its parts come to.
pub bound :
    {E A B : Type 0} (answer : Node) (p : Outcome E A × ℕ) (f : A → Async E B) (g : A → Outcome E B)
    → ((a : A) (n : ℕ) → (run (f a) (steady answer) n).0 ≡ g a)
    → (run_after p f (steady answer)).0 ≡ Outcome.◌>>=◌ p.0 g
unfolding run
bound answer (ok a, n) f g h = h a n
bound answer (err e, n) f g h = refl
bound answer (panic, n) f g h = refl

module _ {E A : Type 0} (answer : Node) where
  run-attempt-steady :
      (m : Async E A) (n : ℕ) → (run (attempt m) (steady answer) n).0 ≡ caught (final answer m)
  run-attempt-steady m n = rw (run-attempt m (steady answer) n) (ap caught (run-steady answer m n))

  -- The results behind the first.
  pub results : List (Async E A) → E ⊎ A → Outcome E (List (E ⊎ A))
  results ms r = Outcome.◌>>=◌ (traverse caught (map (final answer) ms)) λ rs. ok (r ∷ rs)

  -- What `join_all` gives depends only on what the futures come to.
  run-join_all :
      (ms : List (Async E A)) (n : ℕ)
      → (run (join_all ms) (steady answer) n).0 ≡ traverse caught (map (final answer) ms)
  unfolding join_all traverse results
  run-join_all [] n = (unfold run in refl)
  run-join_all (m ∷ ms) n = rw (run->>=) (
      bound answer (run (attempt m) (steady answer) n) _ (results ms) (λ r k.
        rw (run->>= (join_all ms)) (
          bound answer (run (join_all ms) (steady answer) k) (λ rs. pure (r ∷ rs))
            (λ rs. ok (r ∷ rs)) (λ rs i. (unfold run in refl))
          ∙ ap (λ o. Outcome.◌>>=◌ o (λ rs. ok (r ∷ rs))) (run-join_all ms k)))
      ∙ ap (λ o. Outcome.◌>>=◌ o (results ms)) (run-attempt-steady m n))

  -- In whichever order the futures make their requests, once all have ended `join_all` gives their
  -- ends, in the order of the futures, as it does when they run one after the other.
  pub run-join_all-Steps :
      (ms : List (Async E A)) (os : List (Outcome E A)) (n : ℕ)
      → Steps answer ms (ended answer os)
      → (run (join_all ms) (steady answer) n).0 ≡ traverse caught os
  run-join_all-Steps ms os n s =
      run-join_all ms n
      ∙ ap (traverse caught) (Steps-final answer ms (ended answer os) s ∙ final-ended answer os)
