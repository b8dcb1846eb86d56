-- ===== src/Prelude.antt =====
-- The names that the other modules share: those of the libraries, and of the three children.
mod Tests
mod Lists
mod Text
pub mod Int
pub mod Maybe
pub use Tests.*
pub use Lists.*
pub use Text.{String, is_yes, of_==, to_==, text_ne}
unfoldable pub use Text.{str_dec, ◌==◌, ◌≠?◌}
pub use Prim.Native.Nat.{ℕ, zero, suc, ◌+◌, ◌-◌, ◌*◌, ◌/◌, ◌%◌, ◌^◌, ◌≤◌, ◌<◌}
pub use mathlib.Core.Path.{◌≡◌, refl, sym, ap, ◌∙◌, subst}
pub use mathlib.Core.Logic.{◌≢◌, ◌↔◌, ◌⊎◌, inl, inr, ite, if_pos, if_neg}
pub use mathlib.Core.Bool.{Bool, true, false, not, ◌&&◌, ◌||◌}
pub use mathlib.Core.Option.{Option, none, some}
pub use mathlib.Core.List.{List, [], ◌∷◌, ◌++◌, map}
pub use native.Mathlib.Omega.{arith}
unfoldable pub use native.Mathlib.Decide.{dec_lt, dec_le, ℕ_discrete}
