-- ===== src/VirtualPod/PodSpec/Safe.antt =====
-- The calls of the building of a pod's spec are due for it.
use kubeocean.Effect.Keeps.{Keeps, if-Keeps}
use kubeocean.Kube.{Fetch, found, missing, failed}
use kubeocean.Prelude.{
  ◌≡◌, refl, List, ℕ, Bool, true, false, not, ◌||◌, Option, none, some, String, ◌==◌, ◌≠?◌,
}
use kubeocean.VirtualPod.Allowed.{IsQuiet, IsDue, Duly}
use kubeocean.VirtualPod.Defs.{
  Pod, Call, get_binding, get_priority_class, create_priority_class, get_service, Binding, Api,
  Config,
}
use kubeocean.VirtualPod.PodSpec.{
  default_priority_class, configure, hostname_of, get_unless_known,
  get_kubernetes_intranet_ip_and_port, get_kube_dns_intranet_ip, with_dns_ip, configure_dns_policy,
  with_address, with_names, with_hostname, after_priority_class, ensure_default_priority_class,
  with_priority, with_binding, build_physical_pod_spec, add_host_aliases,
}
use kubeocean.VirtualPod.Spec.{Spec, ResourceMapping, replace_resource_names}

module _ {Ephemeral : Type 0} (print : ℕ → String) (trim_right : String → String → String)
    (api : Api Ephemeral) (config : Config) (P : Call Ephemeral → Type 0)
    (quiet : (c : Call Ephemeral) → IsQuiet c → P c)
    (adds : (n : String)
      → (n ≡ default_priority_class)
        × ((log : List (Call Ephemeral)) × (api.priority_class log n ≡ missing))
      → P (create_priority_class n)) where
  open api use {binding, priority_class}
  open config use {cluster_name, intranet, dns_ip}

  get_unless_known-Keeps :
      (o : Option (String × String)) → Keeps P (get_unless_known print trim_right api config o)
  unfolding get_unless_known
  get_unless_known-Keeps (some address) = λ log h. h
  get_unless_known-Keeps none = λ log h. (quiet (get_service "default" "kubernetes-intranet") tt, h)

  get_dns-Keeps : Keeps P (get_kube_dns_intranet_ip print trim_right api config)
  unfolding get_kube_dns_intranet_ip
  get_dns-Keeps =
      if-Keeps P (dns_ip ≠? "") _ _ (λ e log h. h)
        (λ e log h. (quiet (get_service "kube-system" "kube-dns-intranet") tt, h))

  with_dns_ip-Keeps :
      (ns : String) (s : String × Spec) (o : Option String)
      → Keeps P (with_dns_ip print trim_right api config ns s o)
  unfolding with_dns_ip
  with_dns_ip-Keeps ns (node, spec) none = λ log h. h
  with_dns_ip-Keeps ns (node, spec) (some ip) = λ log h. h

  configure_dns_policy-Keeps :
      (ns : String) (s : String × Spec)
      → Keeps P (configure_dns_policy print trim_right api config ns s)
  unfolding configure_dns_policy
  configure_dns_policy-Keeps ns (node, spec) =
      if-Keeps P
        (not (spec.dns_policy == "ClusterFirst" || spec.dns_policy == "ClusterFirstWithHostNet")) _
        _ (λ e log h. h)
        (λ e log h.
          with_dns_ip-Keeps ns (node, spec)
            (get_kube_dns_intranet_ip print trim_right api config log).0 _ (get_dns-Keeps log h))

  with_address-Keeps :
      (virtual : Pod Ephemeral) (s : String × Spec) (o : Option (String × String))
      → Keeps P (with_address print trim_right api config virtual s o)
  unfolding with_address
  with_address-Keeps virtual (node, spec) none = λ log h. h
  with_address-Keeps virtual (node, spec) (some address) =
      configure_dns_policy-Keeps virtual.namespace
        (node, add_host_aliases address.0 address.1 virtual.name spec)

  with_names-Keeps :
      (virtual : Pod Ephemeral) (node : String) (o : Option Spec)
      → Keeps P (with_names print trim_right api config virtual node o)
  unfolding with_names get_kubernetes_intranet_ip_and_port
  with_names-Keeps virtual node none = λ log h. h
  with_names-Keeps virtual node (some spec) = λ log h.
      with_address-Keeps virtual (node, spec)
        (get_unless_known print trim_right api config intranet log).0 _
        (get_unless_known-Keeps intranet log h)

  with_hostname-Keeps :
      (virtual : Pod Ephemeral) (mapping : ResourceMapping) (s : String × Spec) (o : Option String)
      → Keeps P (with_hostname print trim_right api config virtual mapping s o)
  unfolding with_hostname
  with_hostname-Keeps virtual mapping (node, spec) none = λ log h. h
  with_hostname-Keeps virtual mapping (node, spec) (some n) =
      with_names-Keeps virtual node (replace_resource_names mapping (record spec { hostname = n }))

  with_priority-Keeps :
      (virtual : Pod Ephemeral) (node : String) (mapping : ResourceMapping) (b : Binding)
      (priority : String) (ok : Bool)
      → Keeps P (with_priority print trim_right api config virtual node mapping b priority ok)
  unfolding with_priority
  with_priority-Keeps virtual node mapping b priority false = λ log h. h
  with_priority-Keeps virtual node mapping b priority true =
      with_hostname-Keeps virtual mapping (configure b node priority virtual.spec)
        (hostname_of trim_right virtual.spec virtual.name)

  after_priority_class-Keeps :
      (o : Fetch Unit)
      → (log : List (Call Ephemeral)) × (priority_class log default_priority_class ≡ o)
      → Keeps P (after_priority_class print trim_right api config o)
  unfolding after_priority_class
  after_priority_class-Keeps (found u) a = λ log h. h
  after_priority_class-Keeps failed a = λ log h. h
  after_priority_class-Keeps missing a = λ log h. (adds default_priority_class (refl, a), h)

  ensure-Keeps : Keeps P (ensure_default_priority_class print trim_right api config)
  unfolding ensure_default_priority_class
  ensure-Keeps log h =
      after_priority_class-Keeps (priority_class log default_priority_class) (log, refl) _
        (quiet (get_priority_class default_priority_class) tt, h)

  with_binding-Keeps :
      (virtual : Pod Ephemeral) (node : String) (mapping : ResourceMapping) (o : Fetch Binding)
      → Keeps P (with_binding print trim_right api config virtual node mapping o)
  unfolding with_binding
  with_binding-Keeps virtual node mapping missing = λ log h. h
  with_binding-Keeps virtual node mapping failed = λ log h. h
  with_binding-Keeps virtual node mapping (found b) =
      if-Keeps P (b.priority_class_name == "") _ _
        (λ e log h.
          with_priority-Keeps virtual node mapping b default_priority_class
            (ensure_default_priority_class print trim_right api config log).0 _
            (ensure-Keeps log h))
        (λ e. with_priority-Keeps virtual node mapping b b.priority_class_name true)

  build-Keeps :
      (virtual : Pod Ephemeral) (node : String) (mapping : ResourceMapping)
      → Keeps P (build_physical_pod_spec print trim_right api config virtual node mapping)
  unfolding build_physical_pod_spec
  build-Keeps virtual node mapping log h =
      with_binding-Keeps virtual node mapping (binding log cluster_name) _
        (quiet (get_binding cluster_name) tt, h)

pub build_physical_pod_spec_duly :
    {Ephemeral : Type 0} (md5_hex base64 : String → String) (print : ℕ → String)
    (trim_right : String → String → String) (api : Api Ephemeral) (config : Config)
    (virtual : Pod Ephemeral) (node : String) (mapping : ResourceMapping)
    → Duly md5_hex base64 api config virtual
        (build_physical_pod_spec print trim_right api config virtual node mapping)
build_physical_pod_spec_duly md5_hex base64 print trim_right api config virtual node mapping P due =
    build-Keeps print trim_right api config P (λ c q. due c (IsDue.harmless c q))
      (λ n m. due (create_priority_class n) (IsDue.added n m)) virtual node mapping
