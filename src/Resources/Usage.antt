-- ===== src/Resources/Usage.antt =====
-- physical_node_controller.go: calculatePodResourceRequests and calculateNodeResourceUsage.
use kubeocean.Dict.{StrMap, lookup, insert, lookup-insert, ◌at◌, IsUnique, insert-IsUnique}
use kubeocean.Prelude.Int.{ℤ, pos, ◌+ℤ◌, int_laws}
use kubeocean.Prelude.{
  ◌≡◌, refl, Bool, true, false, Option, none, some, List, [], ◌∷◌, ◌++◌, arith, String, str_dec,
  ◌==◌, ◌∙◌, ap, is_yes, if◌then◌else◌, ite,
}
use kubeocean.Resources.Quantity.{Quantities, ResourceList, amount, nano_or_zero}

pub data PodPhase : Type 0 where
  pending running succeeded failed unknown : PodPhase

module _ (quantities : Quantities) where
  open quantities use {
    Quantity, zero_quantity, one_quantity, add, nano, nano_zero, nano_one, nano_add,
  }

  -- The requests of each container, by the three lists of a pod's spec.
  pub record UsagePod : Type 0 where
    pub labels : StrMap
    pub phase : PodPhase
    pub init_containers : List (ResourceList quantities)
    pub containers : List (ResourceList quantities)
    pub ephemeral_containers : List (ResourceList quantities)

  add_to : Option Quantity → Quantity → Quantity
  add_to none q = q
  add_to (some existing) q = add existing q

  -- The loop over one map of requests.
  pub add_all : ResourceList quantities → ResourceList quantities → ResourceList quantities
  unfolding add_to
  add_all total [] = total
  add_all total ((name, q) ∷ rest) =
      add_all (insert str_dec name (add_to (lookup str_dec name total) q) total) rest

  add_containers :
      ResourceList quantities → List (ResourceList quantities) → ResourceList quantities
  unfolding add_all
  add_containers total [] = total
  add_containers total (c ∷ cs) = add_containers (add_all total c) cs

  pub calculate_pod_resource_requests : UsagePod → ResourceList quantities
  unfolding add_containers
  calculate_pod_resource_requests pod =
      add_containers
        (add_containers (("cpu", zero_quantity) ∷ ("memory", zero_quantity) ∷ [])
          (pod.init_containers ++ pod.containers))
        pod.ephemeral_containers

  -- `m[k]` of a map of quantities.
  abbrev or_zero : Option Quantity → Quantity
  or_zero none = zero_quantity
  or_zero (some q) = q

  -- Usage with one pod more: its requests, and the pod itself.
  pub count_pod : ResourceList quantities → UsagePod → ResourceList quantities
  unfolding add_all
  count_pod usage pod =
      let summed = add_all usage (calculate_pod_resource_requests pod) in
      insert str_dec "pods" (add (or_zero (lookup str_dec "pods" summed)) one_quantity) summed

  abbrev is_active : PodPhase → Bool
  is_active running = true
  is_active pending = true
  is_active _ = false

  abbrev pub is_managed : UsagePod → Bool
  is_managed pod = pod.labels at "kubeocean.io/managed-by" == "kubeocean"

  -- The body of the loop over the pods: `continue` on a pod that is not active, and else the usage
  -- by other pods or by kubeocean's.
  tally :
      Bool
      → Bool
      → UsagePod
      → ResourceList quantities × ResourceList quantities
      → ResourceList quantities × ResourceList quantities
  tally false managed pod usage = usage
  tally true true pod usage = (usage.0, count_pod usage.1 pod)
  tally true false pod usage = (count_pod usage.0 pod, usage.1)

  usage_from :
      ResourceList quantities × ResourceList quantities
      → List UsagePod
      → ResourceList quantities × ResourceList quantities
  unfolding tally
  usage_from usage [] = usage
  usage_from usage (pod ∷ pods) =
      usage_from (tally (is_active pod.phase) (is_managed pod) pod usage) pods

  abbrev no_usage : ResourceList quantities
  no_usage = ("cpu", zero_quantity) ∷ ("memory", zero_quantity) ∷ ("pods", zero_quantity) ∷ []

  -- `none` is a list of pods that could not be read.
  unfoldable pub calculate_node_resource_usage :
      Option (List UsagePod) → Option (ResourceList quantities × ResourceList quantities)
  unfolding usage_from tally count_pod calculate_pod_resource_requests
  calculate_node_resource_usage none = none
  calculate_node_resource_usage (some pods) = some (usage_from (no_usage, no_usage) pods)

  -- What a map of requests asks of a resource, entry by entry.
  abbrev pub requested : ResourceList quantities → String → ℤ
  requested [] r = pos 0
  requested ((name, q) ∷ rest) r = (if name == r then nano q else pos 0) +ℤ requested rest r

  abbrev requested_by : List (ResourceList quantities) → String → ℤ
  requested_by [] r = pos 0
  requested_by (c ∷ cs) r = requested c r +ℤ requested_by cs r

  -- What a pod asks of a resource: the sum over all its containers.
  abbrev pub pod_requests : UsagePod → String → ℤ
  pod_requests pod r =
      requested_by pod.init_containers r
      +ℤ requested_by pod.containers r
      +ℤ requested_by pod.ephemeral_containers r

  amount-add_to :
      (o : Option Quantity) (q : Quantity) → nano (add_to o q) ≡ nano_or_zero quantities o +ℤ nano q
  unfolding add_to
  amount-add_to none q = omega int_laws
  amount-add_to (some e) q = nano_add e q

  amount-insert :
      (total : ResourceList quantities) (name r : String) (q : Quantity)
      → amount quantities (insert str_dec name q total) r
        ≡ (if name == r then nano q else amount quantities total r)
  amount-insert total name r q = ground (arith, lookup-insert str_dec name r q total)

  amount-add :
      (total : ResourceList quantities) (name r : String) (q : Quantity)
      → amount quantities (insert str_dec name (add_to (lookup str_dec name total) q) total) r
        ≡ amount quantities total r +ℤ (if name == r then nano q else pos 0)
  amount-add total name r q =
      rw (amount-insert total name r (add_to (lookup str_dec name total) q))
        (rw (amount-add_to (lookup str_dec name total) q) (by_name (str_dec name r)))
    where
      by_name :
          (d : Dec (name ≡ r))
          → (if is_yes d then amount quantities total name +ℤ nano q else amount quantities total r)
            ≡ amount quantities total r +ℤ (if is_yes d then nano q else pos 0)
      by_name (yes e) = rw e refl
      by_name (no n) = omega int_laws

  amount-add_all :
      (total reqs : ResourceList quantities) (r : String)
      → amount quantities (add_all total reqs) r ≡ amount quantities total r +ℤ requested reqs r
  unfolding add_all
  amount-add_all total [] r = omega int_laws
  amount-add_all total ((name, q) ∷ rest) r =
      amount-add_all (insert str_dec name (add_to (lookup str_dec name total) q) total) rest r
      ∙ rw (amount-add total name r q) (omega int_laws)

  amount-add_containers :
      (total : ResourceList quantities) (cs : List (ResourceList quantities)) (r : String)
      → amount quantities (add_containers total cs) r
        ≡ amount quantities total r +ℤ requested_by cs r
  unfolding add_containers
  amount-add_containers total [] r = omega int_laws
  amount-add_containers total (c ∷ cs) r =
      amount-add_containers (add_all total c) cs r ∙ rw (amount-add_all total c r) (omega int_laws)

  requested_by-append :
      (cs ds : List (ResourceList quantities)) (r : String)
      → requested_by (cs ++ ds) r ≡ requested_by cs r +ℤ requested_by ds r
  requested_by-append [] ds r = omega int_laws
  requested_by-append (c ∷ cs) ds r = rw (requested_by-append cs ds r) (omega int_laws)

  amount_start :
      (r : String)
      → amount quantities (("cpu", zero_quantity) ∷ ("memory", zero_quantity) ∷ []) r ≡ pos 0
  unfolding lookup
  amount_start r = ground (arith, nano_zero)

  -- The requests of a pod are, resource by resource, the sum over all its containers: init,
  -- regular and ephemeral.
  pub calculate_pod_resource_requests-sum :
      (pod : UsagePod) (r : String)
      → amount quantities (calculate_pod_resource_requests pod) r ≡ pod_requests pod r
  unfolding calculate_pod_resource_requests
  calculate_pod_resource_requests-sum pod r =
      amount-add_containers _ pod.ephemeral_containers r
      ∙ rw
          (
            amount-add_containers (("cpu", zero_quantity) ∷ ("memory", zero_quantity) ∷ [])
                (pod.init_containers ++ pod.containers) r,
            amount_start r,
            requested_by-append pod.init_containers pod.containers r,
          )
          (omega int_laws)

  add_all-IsUnique :
      (total reqs : ResourceList quantities)
      → IsUnique str_dec total
      → IsUnique str_dec (add_all total reqs)
  unfolding add_all
  add_all-IsUnique total [] u = u
  add_all-IsUnique total ((name, q) ∷ rest) u =
      add_all-IsUnique (insert str_dec name (add_to (lookup str_dec name total) q) total) rest
        (insert-IsUnique str_dec name (add_to (lookup str_dec name total) q) total u)

  add_containers-IsUnique :
      (total : ResourceList quantities) (cs : List (ResourceList quantities))
      → IsUnique str_dec total
      → IsUnique str_dec (add_containers total cs)
  unfolding add_containers
  add_containers-IsUnique total [] u = u
  add_containers-IsUnique total (c ∷ cs) u =
      add_containers-IsUnique (add_all total c) cs (add_all-IsUnique total c u)

  requests-IsUnique : (pod : UsagePod) → IsUnique str_dec (calculate_pod_resource_requests pod)
  unfolding calculate_pod_resource_requests lookup str_dec
  requests-IsUnique pod = add_containers-IsUnique _ pod.ephemeral_containers (
      add_containers-IsUnique (("cpu", zero_quantity) ∷ ("memory", zero_quantity) ∷ [])
        (pod.init_containers ++ pod.containers) (refl, (refl, tt)))

  requested-amount :
      (l : ResourceList quantities) (r : String)
      → IsUnique str_dec l
      → requested l r ≡ amount quantities l r
  unfolding lookup
  requested-amount [] r u = refl
  requested-amount ((name, q) ∷ rest) r u = by_name (requested-amount rest r u.1) (str_dec name r)
    where
      by_name :
          requested rest r ≡ amount quantities rest r
          → (d : Dec (name ≡ r))
          → (if is_yes d then nano q else pos 0) +ℤ requested rest r
            ≡ nano_or_zero quantities (ite d (some q) (lookup str_dec r rest))
      by_name later (yes e) =
          let gone : lookup str_dec r rest ≡ none = rw (← e) u.0 in
          rw (later, gone) (omega int_laws)
      by_name later (no n) = rw later (omega int_laws)

  -- What a pod counts for: its requests, and one under the resource `pods`.
  abbrev pub pod_usage : UsagePod → String → ℤ
  pod_usage pod r = pod_requests pod r +ℤ (if "pods" == r then pos 1_000_000_000 else pos 0)

  abbrev pub active_usage : List UsagePod → String → ℤ
  active_usage [] r = pos 0
  active_usage (pod ∷ pods) r =
      (if is_active pod.phase then pod_usage pod r else pos 0) +ℤ active_usage pods r

  count_pod-amount :
      (usage : ResourceList quantities) (pod : UsagePod) (r : String)
      → amount quantities (count_pod usage pod) r ≡ amount quantities usage r +ℤ pod_usage pod r
  unfolding count_pod
  count_pod-amount usage pod r =
      amount-insert summed "pods" r (add (or_zero (lookup str_dec "pods" summed)) one_quantity)
      ∙ rw (nano_add (or_zero (lookup str_dec "pods" summed)) one_quantity, nano_one, nano-or_zero)
          (by_name (str_dec "pods" r))
    where
      summed : ResourceList quantities
      summed = add_all usage (calculate_pod_resource_requests pod)

      nano-or_zero : nano (or_zero (lookup str_dec "pods" summed)) ≡ amount quantities summed "pods"
      nano-or_zero = ground (arith, nano_zero)

      total : amount quantities summed r ≡ amount quantities usage r +ℤ pod_requests pod r
      total =
          amount-add_all usage (calculate_pod_resource_requests pod) r
          ∙ rw
              (
                requested-amount (calculate_pod_resource_requests pod) r (requests-IsUnique pod),
                calculate_pod_resource_requests-sum pod r,
              )
              refl

      by_name :
          (d : Dec ("pods" ≡ r))
          → (if is_yes d
              then amount quantities summed "pods" +ℤ pos 1_000_000_000
              else amount quantities summed r)
            ≡ amount quantities usage r
              +ℤ (pod_requests pod r +ℤ (if is_yes d then pos 1_000_000_000 else pos 0))
      by_name (yes e) = rw e (rw total (omega int_laws))
      by_name (no n) = rw total (omega int_laws)

  amount_none : (r : String) → amount quantities no_usage r ≡ pos 0
  unfolding lookup
  amount_none r = ground (arith, nano_zero)

  abbrev both : ResourceList quantities × ResourceList quantities → String → ℤ
  both usage r = amount quantities usage.0 r +ℤ amount quantities usage.1 r

  tally-sum :
      (active managed : Bool) (pod : UsagePod)
      (usage : ResourceList quantities × ResourceList quantities) (r : String)
      → both (tally active managed pod usage) r
        ≡ both usage r +ℤ (if active then pod_usage pod r else pos 0)
  unfolding tally
  tally-sum false managed pod usage r = omega int_laws
  tally-sum true true pod usage r = rw (count_pod-amount usage.1 pod r) (omega int_laws)
  tally-sum true false pod usage r = rw (count_pod-amount usage.0 pod r) (omega int_laws)

  usage_from-sum :
      (usage : ResourceList quantities × ResourceList quantities) (pods : List UsagePod)
      (r : String)
      → both (usage_from usage pods) r ≡ both usage r +ℤ active_usage pods r
  unfolding usage_from
  usage_from-sum usage [] r = omega int_laws
  usage_from-sum usage (pod ∷ pods) r =
      usage_from-sum (tally (is_active pod.phase) (is_managed pod) pod usage) pods r
      ∙ rw (tally-sum (is_active pod.phase) (is_managed pod) pod usage r) (omega int_laws)

  -- No usage is lost or counted twice: whichever of the two lists a pod goes to, together they hold
  -- of each resource what the pending and running pods of the node use of it, and of the resource
  -- `pods` one for each of them.
  pub calculate_node_resource_usage-sum :
      (pods : List UsagePod) (r : String) {physical kubeocean_usage : ResourceList quantities}
      → calculate_node_resource_usage (some pods) ≡ some (physical, kubeocean_usage)
      → amount quantities physical r +ℤ amount quantities kubeocean_usage r ≡ active_usage pods r
  unfolding calculate_node_resource_usage
  calculate_node_resource_usage-sum pods r h =
      rw (← ap get h)
        (usage_from-sum (no_usage, no_usage) pods r ∙ rw (amount_none r) (omega int_laws))
    where
      get : Option (ResourceList quantities × ResourceList quantities) → ℤ
      get none = pos 0
      get (some (p, k)) = amount quantities p r +ℤ amount quantities k r
