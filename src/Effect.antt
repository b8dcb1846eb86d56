-- ===== src/Effect.antt =====
-- Handlers as programs over the calls that they make of the API servers. A program takes the
-- calls made so far, the latest first, and returns its result with the longer list of calls.
pub mod Keeps
use kubeocean.Prelude.{List, ◌∷◌}

abbrev pub M : Type 0 → Type 0 → Type 0
M Call A = List Call → A × List Call

module _ {Call : Type 0} where
  infixl 5 ◌>>=◌ ◌>>◌
  abbrev pub ◌>>=◌ : {A B : Type 0} → M Call A → (A → M Call B) → M Call B
  ◌>>=◌ m f log = let (a, log') = m log in f a log'

  abbrev pub ◌>>◌ : {A B : Type 0} → M Call A → M Call B → M Call B
  m >> k = m >>= λ _. k

  abbrev pub return : {A : Type 0} → A → M Call A
  return a log = (a, log)

  -- A call is answered by what was called before it, and is then on record.
  abbrev pub call : {A : Type 0} → Call → (List Call → A) → M Call A
  call c answer log = (answer log, c ∷ log)
