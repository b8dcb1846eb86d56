-- ===== src/Resources/Limits.antt =====
-- physical_node_controller.go: calculatePercentageLimit, calculateEffectiveLimit and
-- applyResourceLimits.
pub mod Capped
pub mod Exact
use kubeocean.Dict.{lookup, insert, lookup-insert}
use kubeocean.Prelude.Int.{ℤ, pos, negsuc, ◌≤ℤ◌, ltb_ℤ}
use kubeocean.Prelude.{
  ℕ, ◌+◌, ◌-◌, ◌*◌, ◌/◌, ◌%◌, ◌^◌, ◌≤◌, ◌<◌, ◌≡◌, refl, ◌∙◌, true, false, not, ◌||◌, Option, none,
  some, List, [], ◌∷◌, arith, String, str_dec, ltb, if◌then◌else◌, ite, ◌++◌, Bool-cases,
  Option-cases, inl, inr,
}
use kubeocean.Resources.Quantity.{
  Quantities, ResourceList, Format, decimal_si, binary_si, decimal_exponent,
}

-- An int64 product, wrapped around, of a value and a percentage.
unfoldable pub int64 : ℕ → ℤ
int64 n = let w = n % 2 ^ 64 in if ltb w (2 ^ 63) then pos w else negsuc (2 ^ 64 - 1 - w)

-- The magnitude of an integer's multiple, with its sign: Go's int64 `a * b` before the wrap.
pub mul_int64 : ℤ → ℕ → ℤ
unfolding int64
mul_int64 (pos n) p = int64 (n * p)
mul_int64 (negsuc n) p = int64 (2 ^ 64 * ((n + 1) * p) - (n + 1) * p)

-- `/ 100` rounds towards zero.
pub div_100 : ℤ → ℤ
div_100 (pos n) = pos (n / 100)
div_100 (negsuc n) = let m = (n + 1) / 100 in if ltb 0 m then negsuc (m - 1) else pos 0

pub int64_small : (n : ℕ) → n < 2 ^ 63 → div_100 (int64 n) ≡ pos (n / 100)
unfolding div_100 int64
int64_small n h = rw (small, in_half) refl
  where
    small : n % 2 ^ 64 ≡ n
    small = omega arith

    in_half : ltb n (2 ^ 63) ≡ true
    in_half = ground arith

int64_wrapped : (n : ℕ) → 2 ^ 63 ≤ n → n + 100 ≤ 2 ^ 64 → (k : ℕ) × (div_100 (int64 n) ≡ negsuc k)
unfolding div_100 int64
int64_wrapped n h b = ((2 ^ 64 - n) / 100 - 1, rw (small, past_half) (ground arith))
  where
    small : n % 2 ^ 64 ≡ n
    small = omega arith

    past_half : ltb n (2 ^ 63) ≡ false
    past_half = ground arith

module _ (quantities : Quantities) where
  open quantities use {
    Quantity, format, zero_quantity, less, is_zero, milli_value, value, new_milli_quantity,
    new_quantity, nano, less_nano,
  }

  -- A limit names a resource, with a quantity, a percentage, both or neither.
  pub record ResourceLimit : Type 0 where
    pub resource : String
    pub quantity : Option Quantity
    pub percent : Option ℤ  -- int32

  pub percent_in : Format → Quantity → ℕ → Quantity
  unfolding mul_int64 div_100
  percent_in decimal_si current percent =
      new_milli_quantity (div_100 (mul_int64 (milli_value current) percent)) decimal_si
  percent_in binary_si current percent =
      new_quantity (div_100 (mul_int64 (value current) percent)) binary_si
  percent_in decimal_exponent current percent =
      new_quantity (div_100 (mul_int64 (value current) percent)) decimal_exponent

  pub calculate_percentage_limit : Quantity → ℤ → Quantity
  unfolding percent_in
  calculate_percentage_limit current (negsuc n) = zero_quantity
  calculate_percentage_limit current (pos percent) =
      if not (ltb 0 percent) || ltb 100 percent
      then zero_quantity
      else percent_in (format current) current percent

  -- The limit by quantity, where one is given that is not zero.
  pub quantity_limit : Option Quantity → Option Quantity
  quantity_limit none = none
  quantity_limit (some q) = if is_zero q then none else some q

  pub percent_limit : Quantity → Option ℤ → Option Quantity
  unfolding calculate_percentage_limit
  percent_limit current none = none
  percent_limit current (some percent) =
      if ltb_ℤ (pos 0) percent then some (calculate_percentage_limit current percent) else none

  -- The least of the limits that were collected; the quantity comes first.
  pub least : Option Quantity → Option Quantity → Option Quantity
  least none p = p
  least (some q) none = some q
  least (some q) (some p) = if less p q then some p else some q

  pub calculate_effective_limit : ResourceLimit → Quantity → Option Quantity
  unfolding quantity_limit percent_limit least
  calculate_effective_limit limit current =
      least (quantity_limit limit.quantity) (percent_limit current limit.percent)

  -- An entry is written only where the limit is below the current amount.
  pub write_limit :
      ResourceList quantities → String → Quantity → Option Quantity → ResourceList quantities
  write_limit result name current none = result
  write_limit result name current (some l) =
      if less l current then insert str_dec name l result else result

  -- The body of the loop over the limits: a resource that is not there is skipped.
  pub apply_limit : ResourceList quantities → ResourceLimit → ResourceList quantities
  unfolding calculate_effective_limit
  apply_limit result limit = elim (lookup str_dec limit.resource result) [
    | none ↦ result
    | some current ↦
        write_limit result limit.resource current (calculate_effective_limit limit current)
  ]

  pub apply_resource_limits : ResourceList quantities → List ResourceLimit → ResourceList quantities
  unfolding apply_limit
  apply_resource_limits result [] = result
  apply_resource_limits result (limit ∷ limits) =
      apply_resource_limits (apply_limit result limit) limits

  abbrev pub AtMost : Option Quantity → Option Quantity → Type 0
  AtMost none none = Unit
  AtMost (some a) (some b) = nano a ≤ℤ nano b
  AtMost _ _ = ⊥

  AtMost-refl : (a : Option Quantity) → AtMost a a
  AtMost-refl none = tt
  AtMost-refl (some a) = omega arith

  AtMost-trans : (a b c : Option Quantity) → AtMost a b → AtMost b c → AtMost a c
  AtMost-trans none none none h k = tt
  AtMost-trans (some a) (some b) (some c) h k = omega arith
  AtMost-trans none none (some c) h k = elim k [ ]
  AtMost-trans none (some b) c h k = elim h [ ]
  AtMost-trans (some a) none c h k = elim h [ ]
  AtMost-trans (some a) (some b) none h k = elim k [ ]

  write_limit-AtMost :
      (result : ResourceList quantities) (name r : String) (current : Quantity)
      (o : Option Quantity)
      → lookup str_dec name result ≡ some current
      → AtMost (lookup str_dec r (write_limit result name current o)) (lookup str_dec r result)
  unfolding write_limit
  write_limit-AtMost result name r current none h = AtMost-refl (lookup str_dec r result)
  write_limit-AtMost result name r current (some l) h = elim (Bool-cases (less l current)) [
    | inr kept ↦ rw (kept, write_limit) (AtMost-refl (lookup str_dec r result))
    | inl lower ↦
        rw (lower, write_limit)
          (rw (lookup-insert str_dec name r l result) (by_name (str_dec name r) lower))
  ]
    where
      by_name :
          (d : Dec (name ≡ r))
          → less l current ≡ true
          → AtMost (ite d (some l) (lookup str_dec r result)) (lookup str_dec r result)
      by_name (no n) lower = AtMost-refl (lookup str_dec r result)
      by_name (yes e) lower =
          let at_r : lookup str_dec r result ≡ some current = rw (← e) h in
          rw at_r (ground (arith, less_nano l current))

  apply_limit-AtMost :
      (result : ResourceList quantities) (limit : ResourceLimit) (r : String)
      → AtMost (lookup str_dec r (apply_limit result limit)) (lookup str_dec r result)
  unfolding apply_limit
  apply_limit-AtMost result limit r = elim (Option-cases (lookup str_dec limit.resource result)) [
    | inl absent ↦ rw (absent, apply_limit) (AtMost-refl (lookup str_dec r result))
    | inr (current, found) ↦
        rw (found, apply_limit)
          (write_limit-AtMost result limit.resource r current
            (calculate_effective_limit limit current) found)
  ]

  -- Limits only take away: whatever they are, every resource stays listed exactly where it was, and
  -- at no more than it was.
  pub apply_resource_limits-AtMost :
      (available : ResourceList quantities) (limits : List ResourceLimit) (r : String)
      → AtMost
          (lookup str_dec r (apply_resource_limits available limits))
          (lookup str_dec r available)
  unfolding apply_resource_limits
  apply_resource_limits-AtMost available [] r = AtMost-refl (lookup str_dec r available)
  apply_resource_limits-AtMost available (limit ∷ limits) r =
      AtMost-trans _ _ (lookup str_dec r available)
        (apply_resource_limits-AtMost (apply_limit available limit) limits r)
        (apply_limit-AtMost available limit r)

  -- No limits change nothing.
  pub no_limits :
      (available : ResourceList quantities) → apply_resource_limits available [] ≡ available
  unfolding apply_resource_limits
  no_limits available = refl

  percentage_decimal :
      (current : Quantity) (milli percent : ℕ)
      → format current ≡ decimal_si
      → milli_value current ≡ pos milli
      → 0 < percent
      → percent ≤ 100
      → calculate_percentage_limit current (pos percent)
        ≡ new_milli_quantity (div_100 (int64 (milli * percent))) decimal_si
  unfolding calculate_percentage_limit
  percentage_decimal current milli percent f m l u =
      rw f (rw tested (rw (m, percent_in, mul_int64) refl))
    where
      tested : (not (ltb 0 percent) || ltb 100 percent) ≡ false
      tested = ground arith

  -- Past int64 the product wraps: where the thousandths of the amount, times the percentage, lie
  -- from 2⁶³ up to 2⁶⁴ - 100, the limit is negative.
  pub percentage_overflow :
      (current : Quantity) (milli percent : ℕ)
      → format current ≡ decimal_si
      → milli_value current ≡ pos milli
      → 0 < percent
      → percent ≤ 100
      → 2 ^ 63 ≤ milli * percent
      → milli * percent + 100 ≤ 2 ^ 64
      → (k : ℕ) × (calculate_percentage_limit current (pos percent)
          ≡ new_milli_quantity (negsuc k) decimal_si)
  percentage_overflow current milli percent f m l u b c =
      let (k, e) = int64_wrapped (milli * percent) b c in
      (k, percentage_decimal current milli percent f m l u ∙ rw e)
