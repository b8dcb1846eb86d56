-- ===== src/Tests/Resources.antt =====
-- A node's resources, over quantities that are their number of billionths with a format.
use kubeocean.Dict.{lookup, insert}
use kubeocean.Prelude.Int.{ℤ, pos, negsuc, ◌+ℤ◌, ◌-ℤ◌, ltb_ℤ}
use kubeocean.Resources.Quantity.{Quantities, ResourceList, Format, decimal_si, amount}
use kubeocean.Resources.Usage.{
  UsagePod, running, calculate_node_resource_usage, calculate_node_resource_usage-sum, active_usage,
}
use kubeocean.Resources.Limits.{
  ResourceLimit, apply_resource_limits, calculate_percentage_limit, percentage_overflow,
}
use kubeocean.Resources.Limits.Capped.{apply_resource_limits-Capped, Capped}
use kubeocean.Resources.Limits.Exact.{percentage_exact, quantity_in}
use kubeocean.Resources.Available.{
  calculate_available_resources, calculate_available_resources-Offered, Offered, OfferedExactly,
  get_base_resources,
}
use kubeocean.Prelude.{
  ℕ, ◌+◌, ◌*◌, ◌/◌, ◌≤◌, ◌≡◌, refl, true, false, none, ◌++◌, some, List, [], ◌∷◌, arith, String,
  str_dec, eqb,
}

record Fixed : Type 0 where
  billionths : ℤ
  unit : Format

-- `q * 10⁻⁶` rounded up, and `n * 10⁶`.
abbrev thousandths : ℤ → ℤ
thousandths (pos n) = pos ((n + 999_999) / 1_000_000)
thousandths (negsuc n) = negsuc (n / 1_000_000)

abbrev units : ℤ → ℤ
units (pos n) = pos ((n + 999_999_999) / 1_000_000_000)
units (negsuc n) = negsuc (n / 1_000_000_000)

abbrev times : ℕ → ℤ → ℤ
times k (pos n) = pos (k * n)
times k (negsuc n) = negsuc (k * n)

abbrev of_units : ℕ → Fixed
of_units n = record { billionths = pos (1_000_000_000 * n); unit = decimal_si }

abbrev fixed : Quantities
fixed = record {
  Quantity = Fixed;
  format = λ q. q.unit;
  zero_quantity = of_units 0;
  one_quantity = of_units 1;
  add = λ a b. record { billionths = a.billionths +ℤ b.billionths; unit = a.unit };
  sub = λ a b. record { billionths = a.billionths -ℤ b.billionths; unit = a.unit };
  less = λ a b. ltb_ℤ a.billionths b.billionths;
  is_negative = λ a. ltb_ℤ a.billionths (pos 0);
  is_zero = λ a. elim a.billionths [ pos n ↦ eqb n 0 | negsuc n ↦ false ];
  milli_value = λ a. thousandths a.billionths;
  value = λ a. units a.billionths;
  new_milli_quantity = λ z f. record { billionths = times 1_000_000 z; unit = f };
  new_quantity = λ z f. record { billionths = times 1_000_000_000 z; unit = f };
  nano = λ a. a.billionths;
  nano_zero = refl;
  nano_one = refl;
  nano_add = λ a b. refl;
  nano_sub = λ a b. refl;
  less_nano = λ a b. refl;
  negative_nano = λ a. refl;
}

-- Eight CPUs; one pod of the node's own that asks for two, and one of kubeocean's.
abbrev pod_of : List (String × String) → ℕ → UsagePod fixed
pod_of labels cpus = record {
  labels = labels;
  phase = running;
  init_containers = [];
  containers = (("cpu", of_units cpus) ∷ []) ∷ [];
  ephemeral_containers = [];
}

abbrev pods : List (UsagePod fixed)
pods = pod_of [] 2 ∷ pod_of (("kubeocean.io/managed-by", "kubeocean") ∷ []) 1 ∷ []

abbrev half : ResourceLimit fixed
half = record { resource = "cpu"; quantity = some (of_units 4); percent = some (pos 50) }

abbrev node_resources : ResourceList fixed
node_resources = ("cpu", of_units 8) ∷ []

abbrev own_usage : ResourceList fixed
own_usage = ("cpu", of_units 2) ∷ ("memory", of_units 0) ∷ ("pods", of_units 1) ∷ []

abbrev kubeocean_usage : ResourceList fixed
kubeocean_usage = ("cpu", of_units 1) ∷ ("memory", of_units 0) ∷ ("pods", of_units 1) ∷ []

usage_of_pods : calculate_node_resource_usage fixed (some pods) ≡ some (own_usage, kubeocean_usage)
unfolding calculate_node_resource_usage lookup insert str_dec ◌+ℤ◌
usage_of_pods = refl

calculate_node_resource_usage-sum_example :
    amount fixed own_usage "cpu" +ℤ amount fixed kubeocean_usage "cpu"
    ≡ active_usage fixed pods "cpu"
calculate_node_resource_usage-sum_example =
    calculate_node_resource_usage-sum fixed pods "cpu" usage_of_pods

calculate_available_resources-Offered_example :
    (result : ResourceList fixed) × (calculate_available_resources fixed [] node_resources
        (some pods)
        (some (half ∷ []))
      ≡ some result)
    × Offered fixed
        (lookup str_dec "cpu" result)
        (lookup str_dec "cpu" (get_base_resources fixed [] node_resources))
        (amount fixed own_usage "cpu")
    × (some (half ∷ []) ≡ none
        → OfferedExactly fixed
            (lookup str_dec "cpu" result)
            (lookup str_dec "cpu" (get_base_resources fixed [] node_resources))
            (amount fixed own_usage "cpu"))
calculate_available_resources-Offered_example =
    calculate_available_resources-Offered fixed [] node_resources pods (some (half ∷ [])) "cpu"
      usage_of_pods

apply_resource_limits-Capped_example :
    let final =
      lookup str_dec "cpu" (apply_resource_limits fixed node_resources ([] ++ (half ∷ []))) in
    ((q : Fixed) → half.quantity ≡ some q → fixed.is_zero q ≡ false → Capped fixed final q)
    × ((current : Fixed) (p : ℤ)
        → lookup str_dec "cpu" (apply_resource_limits fixed node_resources []) ≡ some current
        → half.percent ≡ some p
        → ltb_ℤ (pos 0) p ≡ true
        → Capped fixed final (calculate_percentage_limit fixed current p))
apply_resource_limits-Capped_example = apply_resource_limits-Capped fixed node_resources [] [] half

percentage_exact_example :
    ((p : ℕ)
      → pos 25 ≡ pos p
      → 1 ≤ p
      → p ≤ 100
      → calculate_percentage_limit fixed (of_units 8) (pos 25)
        ≡ quantity_in fixed decimal_si (pos (8000 * p / 100)))
    × (ltb_ℤ (pos 25) (pos 1) ≡ true
        → calculate_percentage_limit fixed (of_units 8) (pos 25) ≡ fixed.zero_quantity)
    × (ltb_ℤ (pos 100) (pos 25) ≡ true
        → calculate_percentage_limit fixed (of_units 8) (pos 25) ≡ fixed.zero_quantity)
percentage_exact_example = percentage_exact fixed (of_units 8) 8000 (pos 25) refl (omega arith)

-- Ninety-five per cent of a hundred terabytes of storage.
percentage_overflow_example :
    (k : ℕ) × (calculate_percentage_limit fixed (of_units 100_000_000_000_000) (pos 95)
      ≡ fixed.new_milli_quantity (negsuc k) decimal_si)
percentage_overflow_example =
    percentage_overflow fixed (of_units 100_000_000_000_000) 100_000_000_000_000_000 95 refl refl
      (omega arith) (omega arith) (omega arith) (omega arith)
