-- ===== src/Prelude/Maybe.antt =====
-- Results that may fail, for `do` blocks, and loops over lists that fail at the first failure.
use mathlib.Core.Path.{◌≡◌, refl}
use mathlib.Core.Option.{Option, none, some}
use mathlib.Core.List.{List, [], ◌∷◌}
use kubeocean.Prelude.Lists.{All}

infixl 5 ◌>>=◌
abbrev pub ◌>>=◌ {ℓ} : {A B : Type ℓ} → Option A → (A → Option B) → Option B
none >>= f = none
some a >>= f = f a

-- The loop that rewrites each element in place.
abbrev pub traverse : {A B : Type 0} → (A → Option B) → List A → Option (List B)
traverse f [] = some []
traverse f (x ∷ xs) = do y ← f x; ys ← traverse f xs; some (y ∷ ys)

-- A computation that succeeds.
abbrev pub Succeeds : {A : Type 0} → Option A → Type 0
Succeeds {A} o = (a : A) × (o ≡ some a)

pub bind-Succeeds :
    {A B : Type 0} (o : Option A) (f : A → Option B)
    → Succeeds o
    → ((a : A) → Succeeds (f a))
    → Succeeds (o >>= f)
bind-Succeeds o f (a, e) g = rw e (g a)

pub traverse-Succeeds :
    {A B : Type 0} (f : A → Option B) (xs : List A)
    → All (λ x. Succeeds (f x)) xs
    → Succeeds (traverse f xs)
traverse-Succeeds f [] a = ([], refl)
traverse-Succeeds f (x ∷ xs) a =
    bind-Succeeds (f x) _ a.0
      (λ y. bind-Succeeds (traverse f xs) _ (traverse-Succeeds f xs a.1) (λ ys. (y ∷ ys, refl)))
