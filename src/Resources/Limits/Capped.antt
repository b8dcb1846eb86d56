-- ===== src/Resources/Limits/Capped.antt =====
-- applyResourceLimits: that every limit is kept.
use kubeocean.Dict.{lookup, insert, lookup-insert}
use kubeocean.Prelude.Int.{ℤ, pos, ◌≤ℤ◌, ltb_ℤ}
use kubeocean.Prelude.{
  ◌≡◌, refl, true, false, Option, none, some, List, [], ◌∷◌, arith, str_dec, if◌then◌else◌, ◌++◌,
  Bool-cases, Option-cases, inl, inr,
}
use kubeocean.Resources.Limits.{
  ResourceLimit, calculate_percentage_limit, quantity_limit, percent_limit, least,
  calculate_effective_limit, write_limit, apply_limit, apply_resource_limits, AtMost,
  apply_resource_limits-AtMost,
}
use kubeocean.Resources.Quantity.{Quantities, ResourceList}

module _ (quantities : Quantities) where
  open quantities use {Quantity, less, is_zero, nano, less_nano}

  -- The entry is at most the quantity, or there is none.
  abbrev pub Capped : Option Quantity → Quantity → Type 0
  Capped none q = Unit
  Capped (some a) q = nano a ≤ℤ nano q

  AtMost-Capped :
      (a b : Option Quantity) (q : Quantity) → AtMost quantities a b → Capped b q → Capped a q
  AtMost-Capped none b q h c = tt
  AtMost-Capped (some a) none q h c = elim h [ ]
  AtMost-Capped (some a) (some b) q h c = omega arith

  effective-Capped :
      (limit : ResourceLimit quantities) (current q : Quantity)
      → limit.quantity ≡ some q
      → is_zero q ≡ false
      → (l : Quantity) × (calculate_effective_limit quantities limit current ≡ some l)
        × (nano l ≤ℤ nano q)
  unfolding calculate_effective_limit
  effective-Capped limit current q h z =
      rw (h, calculate_effective_limit)
        (rw (z, quantity_limit) (by_percent (percent_limit quantities current limit.percent)))
    where
      by_percent :
          (p : Option Quantity)
          → (l : Quantity) × (least quantities (some q) p ≡ some l) × (nano l ≤ℤ nano q)
      by_percent none = (q, refl, omega arith)
      by_percent (some p) = elim (Bool-cases (less p q)) [
        | inl lower ↦ (p, rw (lower, least), ground (arith, less_nano p q))
        | inr not_lower ↦ (q, rw (not_lower, least), omega arith)
      ]

  capped :
      (result : ResourceList quantities) (limit : ResourceLimit quantities) (current l q : Quantity)
      → lookup str_dec limit.resource result ≡ some current
      → nano l ≤ℤ nano q
      → Capped
          (lookup str_dec limit.resource
            (if less l current then insert str_dec limit.resource l result else result))
          q
  capped result limit current l q found le =
      ground
        (arith, less_nano l current, lookup-insert str_dec limit.resource limit.resource l result)

  apply_limit-Capped :
      (result : ResourceList quantities) (limit : ResourceLimit quantities) (q : Quantity)
      → limit.quantity ≡ some q
      → is_zero q ≡ false
      → Capped (lookup str_dec limit.resource (apply_limit quantities result limit)) q
  unfolding apply_limit write_limit
  apply_limit-Capped result limit q h z =
      elim (Option-cases (lookup str_dec limit.resource result)) [
        | inl absent ↦ rw (absent, apply_limit) (rw absent tt)
        | inr (current, found) ↦
            let (l, e, le) = effective-Capped limit current q h z in
            rw (found, apply_limit) (rw (e, write_limit) (capped result limit current l q found le))
      ]

  percent-Capped :
      (limit : ResourceLimit quantities) (current : Quantity) (p : ℤ)
      → limit.percent ≡ some p
      → ltb_ℤ (pos 0) p ≡ true
      → (l : Quantity) × (calculate_effective_limit quantities limit current ≡ some l)
        × (nano l ≤ℤ nano (calculate_percentage_limit quantities current p))
  unfolding calculate_effective_limit percent_limit
  percent-Capped limit current p h z =
      rw (h, calculate_effective_limit)
        (rw (z, percent_limit) (by_quantity (quantity_limit quantities limit.quantity)))
    where
      c : Quantity
      c = calculate_percentage_limit quantities current p

      by_quantity :
          (o : Option Quantity)
          → (l : Quantity) × (least quantities o (some c) ≡ some l) × (nano l ≤ℤ nano c)
      by_quantity none = (c, refl, omega arith)
      by_quantity (some q) = elim (Bool-cases (less c q)) [
        | inl lower ↦ (c, rw (lower, least) refl, omega arith)
        | inr not_lower ↦ (q, rw (not_lower, least) refl, ground (arith, less_nano c q))
      ]

  apply_limit-Percent :
      (result : ResourceList quantities) (limit : ResourceLimit quantities) (current : Quantity)
      (p : ℤ)
      → lookup str_dec limit.resource result ≡ some current
      → limit.percent ≡ some p
      → ltb_ℤ (pos 0) p ≡ true
      → Capped
          (lookup str_dec limit.resource (apply_limit quantities result limit))
          (calculate_percentage_limit quantities current p)
  unfolding apply_limit write_limit
  apply_limit-Percent result limit current p found h z =
      let (l, e, le) = percent-Capped limit current p h z in
      rw (found, apply_limit) (rw (e, write_limit) (capped result limit current l _ found le))

  apply-append :
      (available : ResourceList quantities) (before after : List (ResourceLimit quantities))
      → apply_resource_limits quantities available (before ++ after)
        ≡ apply_resource_limits quantities (apply_resource_limits quantities available before) after
  unfolding apply_resource_limits
  apply-append available [] after = refl
  apply-append available (x ∷ before) after =
      apply-append (apply_limit quantities available x) before after

  -- Each limit is kept, wherever it stands among the limits and whatever the others say. Of the
  -- resource that it names there is in the end at most its quantity, unless that is zero, and at most
  -- the percentage limit that is calculated from what the limits before it left, if its percentage
  -- is positive.
  pub apply_resource_limits-Capped :
      (available : ResourceList quantities) (before after : List (ResourceLimit quantities))
      (limit : ResourceLimit quantities)
      → let final =
          lookup str_dec limit.resource
            (apply_resource_limits quantities available (before ++ (limit ∷ after))) in
        ((q : Quantity) → limit.quantity ≡ some q → is_zero q ≡ false → Capped final q)
        × ((current : Quantity) (p : ℤ)
            → lookup str_dec limit.resource (apply_resource_limits quantities available before)
              ≡ some current
            → limit.percent ≡ some p
            → ltb_ℤ (pos 0) p ≡ true
            → Capped final (calculate_percentage_limit quantities current p))
  unfolding apply_resource_limits
  apply_resource_limits-Capped available before after limit =
      rw (apply-append available before (limit ∷ after)) (
        λ q h z. later q (apply_limit-Capped reached limit q h z),
        λ current p found h z.
            later (calculate_percentage_limit quantities current p)
              (apply_limit-Percent reached limit current p found h z),
      )
    where
      reached : ResourceList quantities
      reached = apply_resource_limits quantities available before

      later :
          (q : Quantity)
          → Capped (lookup str_dec limit.resource (apply_limit quantities reached limit)) q
          → Capped
              (lookup str_dec limit.resource
                (apply_resource_limits quantities (apply_limit quantities reached limit) after))
              q
      later q c =
          AtMost-Capped _ _ q
            (apply_resource_limits-AtMost quantities (apply_limit quantities reached limit) after
              limit.resource)
            c
