-- ===== src/VirtualPod/PodSpec.antt =====
-- virtual_pod_controller.go: buildPhysicalPodSpec. `print` is Go's %d, and `trim_right` is
-- strings.TrimRight.
pub mod Safe
pub mod Env
pub mod Inject
use Prim.Native.String.{len, slice, ◌++◌ as join}
use kubeocean.Effect.{M, ◌>>=◌, return, call}
use kubeocean.Kube.{Fetch, found, missing, failed, Reply, done, already_exists}
use kubeocean.Prelude.{
  ℕ, zero, suc, ltb, Bool, true, false, not, ◌||◌, Option, none, some, List, [], ◌∷◌, ◌++◌, map,
  any, String, ◌==◌, ◌≠?◌, if◌then◌else◌,
}
use kubeocean.VirtualPod.Defs.{
  Pod, Call, get_binding, get_priority_class, create_priority_class, get_service, Service, Binding,
  Api, Config,
}
use kubeocean.VirtualPod.Spec.{
  Spec, EnvVar, Container, on_node, ResourceMapping, replace_resource_names,
}

abbrev pub default_priority_class : String
default_priority_class = "kubeocean-default"

abbrev pub service_host : String
service_host = "KUBERNETES_SERVICE_HOST"

abbrev pub service_port : String
service_port = "KUBERNETES_SERVICE_PORT"

abbrev pub hostname_var : String
hostname_var = "HOSTNAME"

abbrev pub is_named : String → EnvVar → Bool
is_named n e = e.name == n

abbrev pub plain : String → String → EnvVar
plain n v = record { name = n; value = v; from = none }

-- A variable takes its value from the pod no longer.
abbrev pub set_env : String → String → EnvVar → EnvVar
set_env n v e = if is_named n e then record e { value = v; from = none } else e

-- The host and the port are set in one pass, and the host is appended first.
unfoldable pub inject_kubernetes_service_env_vars : String → String → List EnvVar → List EnvVar
inject_kubernetes_service_env_vars host port env =
    let set = map (λ e. set_env service_port port (set_env service_host host e)) env in
    let with_host =
      if any (is_named service_host) env then set else set ++ (plain service_host host ∷ []) in
    if any (is_named service_port) env
    then with_host
    else with_host ++ (plain service_port port ∷ [])

-- The first variable of the name.
unfoldable pub set_first : String → String → List EnvVar → List EnvVar
set_first n v [] = plain n v ∷ []
set_first n v (e ∷ env) =
    let rest = set_first n v env in
    if is_named n e then record e { value = v; from = none } ∷ env else e ∷ rest

unfoldable pub inject_hostname_env_var : String → List EnvVar → List EnvVar
inject_hostname_env_var pod_name env = set_first hostname_var pod_name env

abbrev pub inject : String → String → String → Container → Container
inject host port pod_name c = record c {
  env = inject_hostname_env_var pod_name (inject_kubernetes_service_env_vars host port c.env);
}

abbrev pub add_host_aliases : String → String → String → Spec → Spec
add_host_aliases host port pod_name spec = record spec {
  host_aliases =
      spec.host_aliases
      ++ ((
        host,
        "kubernetes.default.svc" ∷ "kubernetes.default" ∷ "kubernetes"
            ∷ "kubernetes.default.svc.cluster.local" ∷ [],
      )
          ∷ []);
  containers = map (inject host port pod_name) spec.containers;
  init_containers = map (inject host port pod_name) spec.init_containers;
}

abbrev pub with_dns : String → String → Spec → Spec
with_dns ip namespace spec = record spec {
  dns_policy = "None";
  dns_config = some (record {
    nameservers = ip ∷ [];
    searches = join namespace ".svc.cluster.local" ∷ "svc.cluster.local" ∷ "cluster.local" ∷ [];
    options = ("ndots", "5") ∷ [];
  });
}

abbrev first : {A : Type 0} → List A → Option A
first [] = none
first (x ∷ xs) = some x

abbrev non_empty : Option String → Option String
non_empty none = none
non_empty (some t) = if t == "" then none else some t

abbrev pub ingress_ip : Fetch Service → Option String
ingress_ip (found s) = non_empty (first s.ingress)
ingress_ip _ = none

-- truncateHostnameIfNeeded
abbrev pub truncate_hostname_if_needed : (String → String → String) → String → Option String
truncate_hostname_if_needed trim_right name =
    if not (ltb 63 (len name))
    then some name
    else non_empty (some (trim_right (slice name 0 63) "-."))

abbrev pub hostname_of : (String → String → String) → Spec → String → Option String
hostname_of trim_right spec name =
    if spec.hostname == "" then truncate_hostname_if_needed trim_right name else some spec.hostname

-- The node of the pod, and its spec: scheduled directly, or by the scheduler to that node.
abbrev pub configure : Binding → String → String → Spec → String × Spec
configure b node priority spec = (
  (if b.direct_scheduling then node else ""),
  record spec {
    affinity = if b.direct_scheduling then none else some (on_node node);
    node_selector = [];
    scheduler_name = "";
    priority_class_name = priority;
    priority = none;
    preemption_policy = none;
  },
)

module _ {Ephemeral : Type 0} (print : ℕ → String) (trim_right : String → String → String)
    (api : Api Ephemeral) (config : Config) where
  open api use {binding, priority_class, priority_class_created, service}
  open config use {cluster_name, intranet, dns_ip}

  abbrev port_of : Option ℕ → Option String
  port_of none = none
  port_of (some zero) = none
  port_of (some (suc p)) = some (print (suc p))

  abbrev pair : Option String → Option String → Option (String × String)
  pair (some ip) (some port) = some (ip, port)
  pair _ _ = none

  abbrev address_of : Fetch Service → Option (String × String)
  address_of (found s) = pair (ingress_ip (found s)) (port_of (first s.ports))
  address_of _ = none

  get_unless_known : Option (String × String) → M (Call Ephemeral) (Option (String × String))
  get_unless_known (some address) = return (some address)
  get_unless_known none = do
    answer ←
        call (get_service "default" "kubernetes-intranet")
          (λ log. service log "default" "kubernetes-intranet")
    return (address_of answer)

  get_kubernetes_intranet_ip_and_port : M (Call Ephemeral) (Option (String × String))
  unfolding get_unless_known
  get_kubernetes_intranet_ip_and_port = get_unless_known intranet

  get_kube_dns_intranet_ip : M (Call Ephemeral) (Option String)
  get_kube_dns_intranet_ip = if dns_ip ≠? "" then return (some dns_ip) else (do
    answer ←
        call (get_service "kube-system" "kube-dns-intranet")
          (λ log. service log "kube-system" "kube-dns-intranet")
    return (ingress_ip answer))

  with_dns_ip : String → String × Spec → Option String → M (Call Ephemeral) (Option (String × Spec))
  with_dns_ip namespace (node, spec) none = return none
  with_dns_ip namespace (node, spec) (some ip) = return (some (node, with_dns ip namespace spec))

  configure_dns_policy : String → String × Spec → M (Call Ephemeral) (Option (String × Spec))
  unfolding get_kube_dns_intranet_ip with_dns_ip
  configure_dns_policy namespace (node, spec) =
      if not (spec.dns_policy == "ClusterFirst" || spec.dns_policy == "ClusterFirstWithHostNet")
      then return (some (node, spec))
      else (do ip ← get_kube_dns_intranet_ip; with_dns_ip namespace (node, spec) ip)

  with_address :
      Pod Ephemeral
      → String × Spec
      → Option (String × String)
      → M (Call Ephemeral) (Option (String × Spec))
  unfolding configure_dns_policy
  with_address virtual (node, spec) none = return none
  with_address virtual (node, spec) (some address) =
      configure_dns_policy virtual.namespace
        (node, add_host_aliases address.0 address.1 virtual.name spec)

  with_names : Pod Ephemeral → String → Option Spec → M (Call Ephemeral) (Option (String × Spec))
  unfolding with_address get_kubernetes_intranet_ip_and_port
  with_names virtual node none = return none
  with_names virtual node (some spec) = do
    address ← get_kubernetes_intranet_ip_and_port
    with_address virtual (node, spec) address

  with_hostname :
      Pod Ephemeral
      → ResourceMapping
      → String × Spec
      → Option String
      → M (Call Ephemeral) (Option (String × Spec))
  unfolding with_names
  with_hostname virtual mapping (node, spec) none = return none
  with_hostname virtual mapping (node, spec) (some hostname') =
      with_names virtual node
        (replace_resource_names mapping (record spec { hostname = hostname' }))

  abbrev is_there : Reply → Bool
  is_there done = true
  is_there already_exists = true
  is_there _ = false

  after_priority_class : Fetch Unit → M (Call Ephemeral) Bool
  after_priority_class (found u) = return true
  after_priority_class failed = return false
  after_priority_class missing = do
    reply ←
        call (create_priority_class default_priority_class)
          (λ log. priority_class_created log default_priority_class)
    return (is_there reply)

  ensure_default_priority_class : M (Call Ephemeral) Bool
  unfolding after_priority_class
  ensure_default_priority_class = do
    answer ←
        call (get_priority_class default_priority_class)
          (λ log. priority_class log default_priority_class)
    after_priority_class answer

  with_priority :
      Pod Ephemeral
      → String
      → ResourceMapping
      → Binding
      → String
      → Bool
      → M (Call Ephemeral) (Option (String × Spec))
  unfolding with_hostname
  with_priority virtual node mapping b priority false = return none
  with_priority virtual node mapping b priority true =
      with_hostname virtual mapping (configure b node priority virtual.spec)
        (hostname_of trim_right virtual.spec virtual.name)

  with_binding :
      Pod Ephemeral
      → String
      → ResourceMapping
      → Fetch Binding
      → M (Call Ephemeral) (Option (String × Spec))
  unfolding with_priority ensure_default_priority_class
  with_binding virtual node mapping (found b) =
      if b.priority_class_name == ""
      then (do
        ok ← ensure_default_priority_class
        with_priority virtual node mapping b default_priority_class ok)
      else with_priority virtual node mapping b b.priority_class_name true
  with_binding virtual node mapping _ = return none

  pub build_physical_pod_spec :
      Pod Ephemeral → String → ResourceMapping → M (Call Ephemeral) (Option (String × Spec))
  unfolding with_binding
  build_physical_pod_spec virtual node mapping = do
    answer ← call (get_binding cluster_name) (λ log. binding log cluster_name)
    with_binding virtual node mapping answer
