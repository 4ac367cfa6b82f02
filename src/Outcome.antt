-- ===== src/Outcome.antt =====
-- What a call of a Rust function comes to: a value, the error of its `Result`, or a panic.
use kakarot_rpc_adapter.Prelude.{◌≡◌, refl, ◌⊎◌, inl, inr, Option, none, some, List, [], ◌∷◌}

pub data Outcome (E A : Type 0) : Type 0 where
  ok : A → Outcome E A
  err : E → Outcome E A
  panic : Outcome E A

infixl 5 ◌>>=◌
abbrev pub ◌>>=◌ : {E A B : Type 0} → Outcome E A → (A → Outcome E B) → Outcome E B
ok a >>= f = f a
err e >>= f = err e
panic >>= f = panic

-- `map_err`, and the `From` conversion that `?` inserts.
abbrev pub map_err : {E F A : Type 0} → (E → F) → Outcome E A → Outcome F A
map_err f (ok a) = ok a
map_err f (err e) = err (f e)
map_err f panic = panic

-- `map` of a `Result`.
abbrev pub map_ok : {E A B : Type 0} → (A → B) → Outcome E A → Outcome E B
map_ok f (ok a) = ok (f a)
map_ok f (err e) = err e
map_ok f panic = panic

-- `ok_or`.
abbrev pub ok_or : {E A : Type 0} → E → Option A → Outcome E A
ok_or e none = err e
ok_or e (some a) = ok a

-- `unwrap`, indexing and slicing: a missing value is a panic.
abbrev pub unwrap : {E A : Type 0} → Option A → Outcome E A
unwrap none = panic
unwrap (some a) = ok a

-- The `Result` of a crate's function.
abbrev pub of_result : {E A : Type 0} → E ⊎ A → Outcome E A
of_result (inl e) = err e
of_result (inr a) = ok a

-- A `map` whose results are collected into one `Result`: it stops at the first that is no value.
unfoldable pub traverse : {E A B : Type 0} → (A → Outcome E B) → List A → Outcome E (List B)
traverse f [] = ok []
traverse f (x ∷ xs) = do y ← f x; ys ← traverse f xs; ok (y ∷ ys)

module _ {E A B : Type 0} where
  -- A chain that gives a value has a first part that gives one.
  pub >>=-eq-ok :
      (first : Outcome E A) (rest : A → Outcome E B) {result : B}
      → first >>= rest ≡ ok result
      → (value : A) × (first ≡ ok value) × (rest value ≡ ok result)
  >>=-eq-ok panic rest equation = cc
  >>=-eq-ok (err _) rest equation = cc
  >>=-eq-ok (ok value) rest equation = (value, refl, equation)

pub ok_or-eq-ok : {E A : Type 0} (e : E) (o : Option A) {a : A} → ok_or e o ≡ ok a → o ≡ some a
ok_or-eq-ok e none h = cc
ok_or-eq-ok e (some a) h = cc

pub map_ok_lem : {E A B : Type 0} (f : A → B) (o : Outcome E A) → (o >>= λ a. ok (f a)) ≡ map_ok f o
map_ok_lem f (ok a) = refl
map_ok_lem f (err e) = refl
map_ok_lem f panic = refl

pub map_ok_ext :
    {E A B : Type 0} (f : A → B) (k : A → Outcome E B) (o : Outcome E A)
    → ((a : A) → k a ≡ ok (f a))
    → (o >>= k) ≡ map_ok f o
map_ok_ext f k (ok a) h = h a
map_ok_ext f k (err e) h = refl
map_ok_ext f k panic h = refl

pub map_ok-map_ok :
    {E A B C : Type 0} (g : B → C) (f : A → B) (o : Outcome E A)
    → map_ok g (map_ok f o) ≡ map_ok (λ a. g (f a)) o
map_ok-map_ok g f (ok a) = refl
map_ok-map_ok g f (err e) = refl
map_ok-map_ok g f panic = refl

pub map_ok-map_err :
    {E F A B : Type 0} (e : E → F) (g : A → B) (o : Outcome E A)
    → map_ok g (map_err e o) ≡ map_err e (map_ok g o)
map_ok-map_err e g (ok a) = refl
map_ok-map_err e g (err x) = refl
map_ok-map_err e g panic = refl

module _ {E A B C : Type 0} where
  pub map_ok->>= :
      (g : B → C) (o : Outcome E A) (f : A → Outcome E B)
      → map_ok g (o >>= f) ≡ (o >>= λ a. map_ok g (f a))
  map_ok->>= g (ok a) f = refl
  map_ok->>= g (err x) f = refl
  map_ok->>= g panic f = refl

  pub >>=_assoc :
      (o : Outcome E A) (f : A → Outcome E B) (g : B → Outcome E C)
      → o >>= f >>= g ≡ (o >>= λ a. f a >>= g)
  >>=_assoc (ok a) f g = refl
  >>=_assoc (err x) f g = refl
  >>=_assoc panic f g = refl

pub map_ok-eq-ok :
    {E A B : Type 0} (f : A → B) (o : Outcome E A) {b : B}
    → map_ok f o ≡ ok b
    → (a : A) × (o ≡ ok a) × (f a ≡ b)
map_ok-eq-ok f (ok a) e = (a, refl, cc)
map_ok-eq-ok f (err x) e = cc
map_ok-eq-ok f panic e = cc

pub map_err-eq-ok :
    {E F A : Type 0} (f : E → F) (o : Outcome E A) {a : A} → map_err f o ≡ ok a → o ≡ ok a
map_err-eq-ok f (ok a) e = cc
map_err-eq-ok f (err x) e = cc
map_err-eq-ok f panic e = cc
