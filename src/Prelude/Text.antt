-- ===== src/Prelude/Text.antt =====
-- Texts compared by a decision, so that a test hands its branches the equation.
use mathlib.Core.Path.{◌≡◌, refl}
use mathlib.Core.Logic.{◌≢◌}
use mathlib.Core.Bool.{Bool, true, false, not}
use native.Mathlib.Omega.{arith}
use text.Mathlib.Text.{◌==◌ as str_eq}
use text.Mathlib.TextEquality.{eq_iff}
pub use Prim.Native.String.{String}

dec_of_test : {a b : String} (t : Bool) → str_eq a b ≡ t → Dec (a ≡ b)
dec_of_test {a} {b} true e = yes ((eq_iff a b).0 e)
dec_of_test {a} {b} false e = no λ p. ground (arith, eq_iff a b)

unfoldable pub str_dec : Discrete String
unfolding dec_of_test
str_dec a b = dec_of_test (str_eq a b) refl

abbrev pub is_yes {ℓ} : {P : Type ℓ} → Dec P → Bool
is_yes (yes p) = true
is_yes (no p) = false

infix 50 ◌==◌ ◌≠?◌
abbrev pub ◌==◌ : String → String → Bool
a == b = is_yes (str_dec a b)

abbrev pub ◌≠?◌ : String → String → Bool
a ≠? b = not (a == b)

pub of_== : (a b : String) → (a == b) ≡ true → a ≡ b
of_== a b h = ground arith

pub to_== : (a b : String) → a ≡ b → (a == b) ≡ true
to_== a b h = ground arith

-- Two texts that are compared by evaluation.
pub text_ne : (a b : String) → str_eq a b ≡ false → a ≢ b
text_ne a b h = λ e. ground (arith, eq_iff a b)
