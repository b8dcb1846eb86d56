-- ===== src/Effect/Keeps.antt =====
-- What holds of all calls of a program, by the program's parts.
use kubeocean.Effect.{M, ◌>>=◌, return, call}
use kubeocean.Prelude.{◌≡◌, refl, Bool, true, false, List, ◌∷◌, All, if◌then◌else◌}

module _ {Call : Type 0} (P : Call → Type 0) where
  -- A program all of whose calls have the property.
  abbrev pub Keeps : {A : Type 0} → M Call A → Type 0
  Keeps m = (log : List Call) → All P log → All P (m log).1

  pub return-Keeps : {A : Type 0} (a : A) → Keeps (return {Call = Call} a)
  return-Keeps a log h = h

  -- The rest is to be shown for each result that the first part can have.
  pub bind-Keeps :
      {A B : Type 0} (m : M Call A) (f : A → M Call B)
      → Keeps m
      → ((log : List Call) → Keeps (f (m log).0))
      → Keeps (m >>= f)
  bind-Keeps m f k g log h = g log (m log).1 (k log h)

  pub call-Keeps :
      {A B : Type 0} (c : Call) (answer : List Call → A) (f : A → M Call B)
      → P c
      → ((log : List Call) → Keeps (f (answer log)))
      → Keeps (call c answer >>= f)
  call-Keeps c answer f p g log h = g log (c ∷ log) (p, h)

  pub if-Keeps :
      {A : Type 0} (b : Bool) (m k : M Call A)
      → (b ≡ true → Keeps m)
      → (b ≡ false → Keeps k)
      → Keeps (if b then m else k)
  if-Keeps true m k f g = f refl
  if-Keeps false m k f g = g refl
