-- ===== src/Resources/Quantity.antt =====
-- The interface of resource.Quantity, and resource lists over it.
use kubeocean.Dict.{lookup}
use kubeocean.Prelude.Int.{ℤ, pos, ◌+ℤ◌, ◌-ℤ◌, ltb_ℤ}
use kubeocean.Prelude.{◌≡◌, Bool, Option, none, some, List, String, str_dec}

pub data Format : Type 0 where
  decimal_si binary_si decimal_exponent : Format

pub record Quantities : Type 1 where
  pub Quantity : Type 0
  pub format : Quantity → Format
  pub zero_quantity : Quantity  -- MustParse("0")
  pub one_quantity : Quantity  -- MustParse("1")
  pub add : Quantity → Quantity → Quantity
  pub sub : Quantity → Quantity → Quantity
  pub less : Quantity → Quantity → Bool  -- a.Cmp(b) < 0
  pub is_negative : Quantity → Bool  -- a.Sign() < 0
  pub is_zero : Quantity → Bool
  pub milli_value : Quantity → ℤ
  pub value : Quantity → ℤ
  pub new_milli_quantity : ℤ → Format → Quantity
  pub new_quantity : ℤ → Format → Quantity
  pub nano : Quantity → ℤ
  pub nano_zero : nano zero_quantity ≡ pos 0
  pub nano_one : nano one_quantity ≡ pos 1_000_000_000
  pub nano_add : (a b : Quantity) → nano (add a b) ≡ nano a +ℤ nano b
  pub nano_sub : (a b : Quantity) → nano (sub a b) ≡ nano a -ℤ nano b
  pub less_nano : (a b : Quantity) → less a b ≡ ltb_ℤ (nano a) (nano b)
  pub negative_nano : (a : Quantity) → is_negative a ≡ ltb_ℤ (nano a) (pos 0)

module _ (quantities : Quantities) where
  open quantities use {Quantity, nano}

  abbrev pub ResourceList : Type 0
  ResourceList = List (String × Quantity)

  abbrev pub nano_or_zero : Option Quantity → ℤ
  nano_or_zero none = pos 0
  nano_or_zero (some q) = nano q

  -- What a list holds of a resource; nothing, where it does not name it.
  abbrev pub amount : ResourceList → String → ℤ
  amount l r = nano_or_zero (lookup str_dec r l)
