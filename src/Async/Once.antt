-- ===== src/Async/Once.antt =====
-- Trees that submit at most one transaction, whatever the replies.
use kakarot_rpc_adapter.Prelude.{◌⊎◌, inl, inr}
use kakarot_rpc_adapter.Errors.{EthApiError}
use kakarot_rpc_adapter.Outcome.{ok, err, panic}
use kakarot_rpc_adapter.Async.{
  Request, Value, Reply, Async, ret, request, received, ask, map_error, ◌>>=◌,
}
use kakarot_rpc_adapter.Async.Only.{IsRead, Reads, ReadsOnly}

-- A request reads, or all that follows it does.
abbrev pub Submits : {E A : Type 0} → Async E A → Type 0
Submits (ret o) = Unit
Submits (request r k) = (IsRead r × ((x : Reply r) → Submits (k x))) ⊎ ((x : Reply r) → Reads (k x))

-- On every branch the tree makes at most one request that does not read.
pub record SubmitsOnce {E A : Type 0} (m : Async E A) : Type 0 where
  pub submits : Submits m

module _ {E A : Type 0} where
  Reads-Submits : (m : Async E A) → Reads m → Submits m
  Reads-Submits (ret o) h = tt
  Reads-Submits (request r k) (hr, h) = inr h

  pub SubmitsOnce-reads : (m : Async E A) → ReadsOnly m → SubmitsOnce m
  SubmitsOnce-reads m h = record { submits = Reads-Submits m h.reads }

module _ {E A B : Type 0} where
  Submits-bind :
      (m : Async E A) (f : A → Async E B)
      → Reads m
      → ((a : A) → SubmitsOnce (f a))
      → Submits (m >>= f)
  unfolding ◌>>=◌
  Submits-bind (ret (ok a)) f h k = (k a).submits
  Submits-bind (ret (err e)) f h k = tt
  Submits-bind (ret panic) f h k = tt
  Submits-bind (request r q) f (hr, h) k = inl (hr, λ x. Submits-bind (q x) f (h x) k)

  -- What reads, and then submits once.
  pub SubmitsOnce-bind :
      (m : Async E A) (f : A → Async E B)
      → ReadsOnly m
      → ((a : A) → SubmitsOnce (f a))
      → SubmitsOnce (m >>= f)
  SubmitsOnce-bind m f h k = record { submits = Submits-bind m f h.reads k }

module _ {A : Type 0} where
  Reads-received :
      (r : Request) (f : Value r → Async EthApiError A)
      → ((v : Value r) → ReadsOnly (f v))
      → (x : Reply r) → Reads (received r x >>= f)
  unfolding ◌>>=◌
  Reads-received r f h (inl e) = tt
  Reads-received r f h (inr v) = (h v).reads

  -- A request of any kind, and then what reads.
  pub SubmitsOnce-ask :
      (r : Request) (f : Value r → Async EthApiError A)
      → ((v : Value r) → ReadsOnly (f v))
      → SubmitsOnce (ask r >>= f)
  unfolding ask ◌>>=◌
  SubmitsOnce-ask r f h = record { submits = inr (Reads-received r f h) }

module _ {E F A : Type 0} where
  Reads-map_error : (f : E → F) (m : Async E A) → Reads m → Reads (map_error f m)
  unfolding map_error
  Reads-map_error f (ret o) h = tt
  Reads-map_error f (request r k) (hr, h) = (hr, λ x. Reads-map_error f (k x) (h x))

  Submits-map_error : (f : E → F) (m : Async E A) → Submits m → Submits (map_error f m)
  unfolding map_error
  Submits-map_error f (ret o) h = tt
  Submits-map_error f (request r k) (inl (hr, h)) = inl (hr, λ x. Submits-map_error f (k x) (h x))
  Submits-map_error f (request r k) (inr h) = inr (λ x. Reads-map_error f (k x) (h x))

  pub SubmitsOnce-map_error :
      (f : E → F) (m : Async E A) → SubmitsOnce m → SubmitsOnce (map_error f m)
  SubmitsOnce-map_error f m h = record { submits = Submits-map_error f m h.submits }
