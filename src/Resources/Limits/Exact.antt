-- ===== src/Resources/Limits/Exact.antt =====
-- calculatePercentageLimit within int64.
use native.Mathlib.Nat.{mul-le-mul_left}
use kubeocean.Prelude.Int.{ℤ, pos, negsuc, ltb_ℤ}
use kubeocean.Prelude.{ℕ, ◌*◌, ◌/◌, ◌^◌, ◌<◌, ◌≤◌, ◌≡◌, refl, true, false, not, ◌||◌, arith, ltb}
use kubeocean.Resources.Limits.{mul_int64, int64_small, percent_in, calculate_percentage_limit}
use kubeocean.Resources.Quantity.{Quantities, Format, decimal_si, binary_si, decimal_exponent}

less_of : (a n : ℕ) → n ≤ 100 → a * 100 < 2 ^ 63 → a * n < 2 ^ 63
less_of a n h b = omega (arith, mul-le-mul_left a h)

module _ (quantities : Quantities) where
  open quantities use {
    Quantity, format, zero_quantity, milli_value, value, new_milli_quantity, new_quantity,
  }

  -- The whole number that a percentage is taken of: thousandths in decimal notation, else units.
  abbrev pub amount_in : Format → Quantity → ℤ
  amount_in decimal_si current = milli_value current
  amount_in binary_si current = value current
  amount_in decimal_exponent current = value current

  abbrev pub quantity_in : Format → ℤ → Quantity
  quantity_in decimal_si z = new_milli_quantity z decimal_si
  quantity_in binary_si z = new_quantity z binary_si
  quantity_in decimal_exponent z = new_quantity z decimal_exponent

  percent_in-exact :
      (f : Format) (current : Quantity) (amount percent : ℕ)
      → amount_in f current ≡ pos amount
      → amount * percent < 2 ^ 63
      → percent_in quantities f current percent ≡ quantity_in f (pos (amount * percent / 100))
  unfolding percent_in mul_int64
  percent_in-exact decimal_si current amount percent h b =
      rw (h, percent_in, mul_int64) (rw (int64_small (amount * percent) b) refl)
  percent_in-exact binary_si current amount percent h b =
      rw (h, percent_in, mul_int64) (rw (int64_small (amount * percent) b) refl)
  percent_in-exact decimal_exponent current amount percent h b =
      rw (h, percent_in, mul_int64) (rw (int64_small (amount * percent) b) refl)

  -- Of an amount that is not negative and whose hundredfold fits an int64, in any of the three
  -- formats, the limit by a percentage from 1 to 100 is that share of it, rounded down to a thousandth
  -- in decimal notation and to a unit in the others, in the same format; by any other percentage it
  -- is zero.
  pub percentage_exact :
      (current : Quantity) (amount : ℕ) (percent : ℤ)
      → amount_in (format current) current ≡ pos amount
      → amount * 100 < 2 ^ 63
      → ((p : ℕ)
          → percent ≡ pos p
          → 1 ≤ p
          → p ≤ 100
          → calculate_percentage_limit quantities current percent
            ≡ quantity_in (format current) (pos (amount * p / 100)))
        × (ltb_ℤ percent (pos 1) ≡ true
            → calculate_percentage_limit quantities current percent ≡ zero_quantity)
        × (ltb_ℤ (pos 100) percent ≡ true
            → calculate_percentage_limit quantities current percent ≡ zero_quantity)
  unfolding calculate_percentage_limit
  percentage_exact current amount percent h b = (inside, below percent, above percent)
    where
      inside :
          (p : ℕ)
          → percent ≡ pos p
          → 1 ≤ p
          → p ≤ 100
          → calculate_percentage_limit quantities current percent
            ≡ quantity_in (format current) (pos (amount * p / 100))
      inside p e l u = rw e (
          rw (tested) (percent_in-exact (format current) current amount p h (less_of amount p u b)))
        where
          tested : (not (ltb 0 p) || ltb 100 p) ≡ false
          tested = ground arith

      below :
          (z : ℤ)
          → ltb_ℤ z (pos 1) ≡ true
          → calculate_percentage_limit quantities current z ≡ zero_quantity
      below (negsuc n) k = refl
      below (pos n) k = let t : (not (ltb 0 n) || ltb 100 n) ≡ true = ground arith in rw t refl

      above :
          (z : ℤ)
          → ltb_ℤ (pos 100) z ≡ true
          → calculate_percentage_limit quantities current z ≡ zero_quantity
      above (negsuc n) k = refl
      above (pos n) k = let t : (not (ltb 0 n) || ltb 100 n) ≡ true = ground arith in rw t refl
