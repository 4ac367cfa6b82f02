-- ===== src/Async/Only.antt =====
-- Which requests a tree can make, whatever the replies: one rule for each way to build a tree.
use kakarot_rpc_adapter.Prelude.{Bool, true, false, List, [], ◌∷◌, inl, inr, map, if◌then◌else◌}
use kakarot_rpc_adapter.Outcome.{Outcome, ok, err, panic}
use kakarot_rpc_adapter.Async.{
  Request, Reply, Async, ret, request, received, ask, attempt, map_error, ◌>>=◌,
  add_invoke_transaction,
}
use kakarot_rpc_adapter.Async.Join.{join_all}

-- A request that leaves the node's chain as it is.
abbrev pub IsRead : Request → Type 0
IsRead (add_invoke_transaction _) = ⊥
IsRead _ = Unit

abbrev pub Reads : {E A : Type 0} → Async E A → Type 0
Reads (ret o) = Unit
Reads (request r k) = IsRead r × ((x : Reply r) → Reads (k x))

-- On every branch the tree makes only requests that read.
pub record ReadsOnly {E A : Type 0} (m : Async E A) : Type 0 where
  pub reads : Reads m

module _ {E A : Type 0} where
  pub ReadsOnly-ret : (o : Outcome E A) → ReadsOnly (ret o)
  ReadsOnly-ret o = record { reads = tt }

  pub ReadsOnly-if :
      (b : Bool) (m n : Async E A) → ReadsOnly m → ReadsOnly n → ReadsOnly (if b then m else n)
  ReadsOnly-if true m n hm hn = hm
  ReadsOnly-if false m n hm hn = hn

module _ {E A B : Type 0} where
  Reads-bind :
      (m : Async E A) (f : A → Async E B) → Reads m → ((a : A) → ReadsOnly (f a)) → Reads (m >>= f)
  unfolding ◌>>=◌
  Reads-bind (ret (ok a)) f h k = (k a).reads
  Reads-bind (ret (err e)) f h k = tt
  Reads-bind (ret panic) f h k = tt
  Reads-bind (request r q) f (hr, h) k = (hr, λ x. Reads-bind (q x) f (h x) k)

  pub ReadsOnly-bind :
      (m : Async E A) (f : A → Async E B)
      → ReadsOnly m
      → ((a : A) → ReadsOnly (f a))
      → ReadsOnly (m >>= f)
  ReadsOnly-bind m f h k = record { reads = Reads-bind m f h.reads k }

module _ {E A : Type 0} where
  Reads-attempt : (m : Async E A) → Reads m → Reads (attempt m)
  unfolding attempt
  Reads-attempt (ret o) h = tt
  Reads-attempt (request r k) (hr, h) = (hr, λ x. Reads-attempt (k x) (h x))

  pub ReadsOnly-attempt : (m : Async E A) → ReadsOnly m → ReadsOnly (attempt m)
  ReadsOnly-attempt m h = record { reads = Reads-attempt m h.reads }

module _ {E F A : Type 0} where
  Reads-map_error : (f : E → F) (m : Async E A) → Reads m → Reads (map_error f m)
  unfolding map_error
  Reads-map_error f (ret o) h = tt
  Reads-map_error f (request r k) (hr, h) = (hr, λ x. Reads-map_error f (k x) (h x))

  pub ReadsOnly-map_error : (f : E → F) (m : Async E A) → ReadsOnly m → ReadsOnly (map_error f m)
  ReadsOnly-map_error f m h = record { reads = Reads-map_error f m h.reads }

Reads-received : (r : Request) (x : Reply r) → Reads (received r x)
Reads-received r (inl e) = tt
Reads-received r (inr v) = tt

pub ReadsOnly-ask : (r : Request) → IsRead r → ReadsOnly (ask r)
unfolding ask
ReadsOnly-ask r h = record { reads = (h, λ x. Reads-received r x) }

pub ReadsOnly-join_all :
    {E A B : Type 0} (f : B → Async E A)
    → ((b : B) → ReadsOnly (f b))
    → (bs : List B) → ReadsOnly (join_all (map f bs))
unfolding join_all
ReadsOnly-join_all f h [] = ReadsOnly-ret _
ReadsOnly-join_all f h (b ∷ bs) =
    ReadsOnly-bind (attempt (f b)) _ (ReadsOnly-attempt (f b) (h b))
      λ r. ReadsOnly-bind (join_all (map f bs)) _ (ReadsOnly-join_all f h bs) λ rs. ReadsOnly-ret _

pub ruleset reads_rules = (
  ReadsOnly-ret, ReadsOnly-if, ReadsOnly-bind, ReadsOnly-attempt, ReadsOnly-map_error,
  ReadsOnly-ask,
)
