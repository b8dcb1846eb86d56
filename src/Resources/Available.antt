-- ===== src/Resources/Available.antt =====
-- physical_node_controller.go: getBaseResources and calculateAvailableResources, less the metrics
-- that it reports.
use mathlib.Core.Option
use kubeocean.Dict.{lookup, insert, lookup-insert}
use kubeocean.Prelude.Int.{ℤ, pos, ◌-ℤ◌, ◌≤ℤ◌, ltb_ℤ}
use kubeocean.Prelude.{
  ◌≡◌, refl, ◌∙◌, ap, Bool, true, false, Option, none, some, List, [], ◌∷◌, String, str_dec,
  if◌then◌else◌, ite,
}
use kubeocean.Resources.Quantity.{Quantities, ResourceList, amount, nano_or_zero}
use kubeocean.Resources.Usage.{UsagePod, calculate_node_resource_usage}
use kubeocean.Resources.Limits.{
  ResourceLimit, apply_resource_limits, AtMost, apply_resource_limits-AtMost, no_limits,
}

module _ (quantities : Quantities) where
  open quantities use {
    Quantity, zero_quantity, sub, is_negative, nano, nano_zero, nano_sub, negative_nano,
  }

  -- Allocatable, or capacity where there is nothing allocatable.
  abbrev pub get_base_resources :
      ResourceList quantities → ResourceList quantities → ResourceList quantities
  get_base_resources capacity [] = capacity
  get_base_resources capacity (r ∷ allocatable) = r ∷ allocatable

  used_of : Option Quantity → Quantity
  used_of none = zero_quantity
  used_of (some q) = q

  remaining_of : Quantity → Quantity → Quantity
  remaining_of allocatable used =
      let remaining = sub allocatable used in
      if is_negative remaining then zero_quantity else remaining

  -- The loop over the allocatable resources.
  pub actual_available : ResourceList quantities → ResourceList quantities → ResourceList quantities
  unfolding used_of remaining_of
  actual_available usage [] = []
  actual_available usage ((name, allocatable) ∷ rest) =
      insert str_dec name (remaining_of allocatable (used_of (lookup str_dec name usage)))
        (actual_available usage rest)

  -- The limits of the policy; with no policy there are none.
  limits_of : Option (List (ResourceLimit quantities)) → List (ResourceLimit quantities)
  limits_of none = []
  limits_of (some limits) = limits

  -- `none` is the error of a list of pods that could not be read.
  pub calculate_available_resources :
      ResourceList quantities
      → ResourceList quantities
      → Option (List (UsagePod quantities))
      → Option (List (ResourceLimit quantities))
      → Option (ResourceList quantities)
  unfolding limits_of
  calculate_available_resources capacity allocatable pods policy_limits =
      elim (calculate_node_resource_usage quantities pods) [
        | none ↦ none
        | some (usage, kubeocean_usage) ↦ some (
            apply_resource_limits quantities
              (actual_available usage (get_base_resources capacity allocatable))
              (limits_of policy_limits))
      ]

  lookup-actual :
      (usage base : ResourceList quantities) (r : String)
      → lookup str_dec r (actual_available usage base)
        ≡ Option.map
            (λ a. remaining_of a (used_of (lookup str_dec r usage)))
            (lookup str_dec r base)
  unfolding actual_available lookup
  lookup-actual usage [] r = refl
  lookup-actual usage ((name, a) ∷ rest) r =
      lookup-insert str_dec name r _ (actual_available usage rest)
      ∙ by_name (str_dec name r) (lookup-actual usage rest r)
    where
      by_name :
          (d : Dec (name ≡ r))
          → lookup str_dec r (actual_available usage rest)
            ≡ Option.map
                (λ a. remaining_of a (used_of (lookup str_dec r usage)))
                (lookup str_dec r rest)
          → ite d
              (some (remaining_of a (used_of (lookup str_dec name usage))))
              (lookup str_dec r (actual_available usage rest))
            ≡ Option.map
                (λ a. remaining_of a (used_of (lookup str_dec r usage)))
                (ite d (some a) (lookup str_dec r rest))
      by_name (yes e) h = rw e refl
      by_name (no n) h = h

  abbrev pub max_zero : ℤ → ℤ
  max_zero z = if ltb_ℤ z (pos 0) then pos 0 else z

  nano-used_of : (o : Option Quantity) → nano (used_of o) ≡ nano_or_zero quantities o
  unfolding used_of
  nano-used_of none = nano_zero
  nano-used_of (some q) = refl

  nano-remaining :
      (a : Quantity) (o : Option Quantity)
      → nano (remaining_of a (used_of o)) ≡ max_zero (nano a -ℤ nano_or_zero quantities o)
  unfolding remaining_of
  nano-remaining a o =
      by_sign (is_negative (sub a (used_of o))) (negative_nano (sub a (used_of o)))
        (nano_sub a (used_of o) ∙ ap (λ z. nano a -ℤ z) (nano-used_of o))
    where
      by_sign :
          {z : ℤ} (b : Bool)
          → b ≡ ltb_ℤ (nano (sub a (used_of o))) (pos 0)
          → nano (sub a (used_of o)) ≡ z
          → nano (if b then zero_quantity else sub a (used_of o)) ≡ max_zero z
      by_sign true e h = rw (← h, ← e) nano_zero
      by_sign false e h = rw (← h, ← e) refl

  -- What is offered of a resource that the base list has, and that it is offered at all exactly
  -- where the base list has it.
  abbrev pub Offered : Option Quantity → Option Quantity → ℤ → Type 0
  Offered none none used = Unit
  Offered (some q) (some a) used = nano q ≤ℤ max_zero (nano a -ℤ used)
  Offered _ _ used = ⊥

  abbrev pub OfferedExactly : Option Quantity → Option Quantity → ℤ → Type 0
  OfferedExactly none none used = Unit
  OfferedExactly (some q) (some a) used = nano q ≡ max_zero (nano a -ℤ used)
  OfferedExactly _ _ used = ⊥

  offered_exactly :
      (base used : Option Quantity)
      → OfferedExactly
          (Option.map (λ a. remaining_of a (used_of used)) base)
          base
          (nano_or_zero quantities used)
  offered_exactly none used = tt
  offered_exactly (some a) used = nano-remaining a used

  offered :
      (result base used : Option Quantity)
      → AtMost quantities result (Option.map (λ a. remaining_of a (used_of used)) base)
      → Offered result base (nano_or_zero quantities used)
  offered none none used h = tt
  offered (some q) (some a) used h = rw (← nano-remaining a used) h
  offered none (some a) used h = elim h [ ]
  offered (some q) none used h = elim h [ ]

  -- The virtual node offers exactly the resources of the base list. Without a policy it offers of
  -- each exactly what the pods that kubeocean does not manage leave of it, or nothing where they use
  -- more; under a policy it offers at most that.
  pub calculate_available_resources-Offered :
      (capacity allocatable : ResourceList quantities) (pods : List (UsagePod quantities))
      (policy_limits : Option (List (ResourceLimit quantities))) (r : String)
      {usage kubeocean_usage : ResourceList quantities}
      → calculate_node_resource_usage quantities (some pods) ≡ some (usage, kubeocean_usage)
      → (result : ResourceList quantities) × (calculate_available_resources capacity allocatable
            (some pods)
            policy_limits
          ≡ some result)
        × Offered
            (lookup str_dec r result)
            (lookup str_dec r (get_base_resources capacity allocatable))
            (amount quantities usage r)
        × (policy_limits ≡ none
            → OfferedExactly
                (lookup str_dec r result)
                (lookup str_dec r (get_base_resources capacity allocatable))
                (amount quantities usage r))
  unfolding calculate_available_resources limits_of
  calculate_available_resources-Offered capacity allocatable pods policy_limits r {usage} h = (
    apply_resource_limits quantities (actual_available usage base) (limits_of policy_limits),
    rw (h, calculate_available_resources) refl,
    offered _ (lookup str_dec r base) (lookup str_dec r usage) (
        rw (← lookup-actual usage base r) (
          apply_resource_limits-AtMost quantities (actual_available usage base)
            (limits_of policy_limits) r)),
    λ e. rw e (
        rw (no_limits quantities (actual_available usage base), lookup-actual usage base r)
          (offered_exactly (lookup str_dec r base) (lookup str_dec r usage))),
  )
    where
      base : ResourceList quantities
      base = get_base_resources capacity allocatable
