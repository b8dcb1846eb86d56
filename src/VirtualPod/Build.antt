-- ===== src/VirtualPod/Build.antt =====
-- virtual_pod_controller.go: the labels and annotations of a physical pod, the workload that it
-- belongs to, and createPhysicalPod. The synchronisation of the resources that a pod depends on and
-- buildPhysicalPodSpec are an interface, `Builder`.
pub mod Safe
use kubeocean.Dict.{StrMap, put, copy_but}
use kubeocean.Effect.{M, ◌>>=◌, return, call}
use kubeocean.Kube.{Fetch, found, missing, failed, Reply, done, already_exists}
use kubeocean.PhysicalPod.Defs.{
  label_managed_by, label_managed_by_value, label_virtual_namespace, label_workload_type,
  label_workload_name, virtual_pod_namespace, virtual_pod_name, virtual_pod_uid, virtual_node_name,
  physical_pod_namespace, physical_pod_name, expected_metadata,
}
use kubeocean.Prelude.{
  ℕ, Bool, true, false, Option, none, some, List, [], ◌∷◌, String, ◌==◌, if◌then◌else◌, find,
}
use kubeocean.VirtualPod.Defs.{
  Owner, Pod, Call, get_cached_pod, get_direct_pod, get_replica_set, create_physical_pod, Api,
  Config,
}
use kubeocean.VirtualPod.Metadata.{Expected, current_expected, is_kubeocean_annotation}
use kubeocean.VirtualPod.Spec.{Spec, ResourceMapping}

-- syncDependentResources and buildPhysicalPodSpec, where none is an error. The spec comes with the
-- name of the node, which is empty unless pods are scheduled directly.
pub record Builder (Ephemeral : Type 0) : Type 0 where
  pub sync_dependent_resources : Pod Ephemeral → M (Call Ephemeral) (Option ResourceMapping)
  pub build_physical_pod_spec :
      Pod Ephemeral → String → ResourceMapping → M (Call Ephemeral) (Option (String × Spec))

-- What the controller is run with. `md5_hex`, `base64` and `to_lower` are Go's; `encode` and
-- `decode` are those of the expected metadata, and the deciders are reflect.DeepEqual.
pub record Env (Ephemeral : Type 0) : Type 0 where
  pub md5_hex : String → String
  pub base64 : String → String
  pub to_lower : String → String
  pub encode : Expected → String
  pub decode : String → Option Expected
  pub deadline_dec : Discrete (Option ℕ)
  pub ephemeral_dec : Discrete Ephemeral
  pub config : Config
  pub api : Api Ephemeral
  pub builder : Builder Ephemeral

abbrev pub put_unless_empty : String → String → StrMap → StrMap
put_unless_empty k v m = if v == "" then m else put k v m

module _ {Ephemeral : Type 0} where
  pub build_physical_pod_labels : Pod Ephemeral → String → String → StrMap
  build_physical_pod_labels virtual workload_type workload_name =
      put_unless_empty label_workload_name workload_name (
        put_unless_empty label_workload_type workload_type (
          put label_virtual_namespace virtual.namespace
            (put label_managed_by label_managed_by_value (copy_but (λ k. false) virtual.labels))))

module _ {Ephemeral : Type 0} (env : Env Ephemeral) where
  open env use {encode, decode, deadline_dec, to_lower, api, builder}
  open api use {cached_pod, direct_pod, replica_set, physical_created}
  open builder use {sync_dependent_resources, build_physical_pod_spec}

  pub build_physical_pod_annotations : Pod Ephemeral → StrMap
  build_physical_pod_annotations virtual =
      put expected_metadata (encode (current_expected encode decode deadline_dec virtual)) (
        put virtual_node_name virtual.node_name (
          put virtual_pod_uid virtual.uid (
            put virtual_pod_name virtual.name (
              put virtual_pod_namespace virtual.namespace
                (copy_but is_kubeocean_annotation virtual.annotations)))))

  -- The name of the deployment among the owners, or "".
  abbrev deployment_name : List Owner → String
  deployment_name owners = elim (find (λ (o : Owner). o.kind == "Deployment") owners) [
    | none ↦ ""
    | some o ↦ o.name
  ]

  abbrev replica_set_workload : String → Fetch (List Owner) → Option (String × String)
  replica_set_workload name (found owners) =
      if deployment_name owners == ""
      then some ("replicaset", name)
      else some ("deployment", deployment_name owners)
  replica_set_workload name _ = none

  abbrev workload_type : String → String
  workload_type kind =
      if kind == "Deployment"
      then "deployment"
      else if kind == "DaemonSet"
      then "daemonset"
      else if kind == "StatefulSet"
      then "statefulset"
      else if kind == "CronJob"
      then "cronjob"
      else if kind == "Job"
      then "job"
      else to_lower kind

  owner_workload : String → List Owner → M (Call Ephemeral) (Option (String × String))
  owner_workload namespace [] = return (some ("pod", ""))
  owner_workload namespace (o ∷ owners) =
      if o.kind == "ReplicaSet"
      then (do
        answer ← call (get_replica_set namespace o.name) (λ log. replica_set log namespace o.name)
        return (replica_set_workload o.name answer))
      else return (some (workload_type o.kind, o.name))

  pub get_workload_info : Pod Ephemeral → M (Call Ephemeral) (Option (String × String))
  unfolding owner_workload
  get_workload_info pod = owner_workload pod.namespace pod.owners

  -- The cache first, and where it has nothing, the server.
  after_cached :
      String → String → Fetch (Pod Ephemeral) → M (Call Ephemeral) (Fetch (Pod Ephemeral))
  after_cached namespace name (found pod) = return (found pod)
  after_cached namespace name failed = return failed
  after_cached namespace name missing =
      call (get_direct_pod namespace name) (λ log. direct_pod log namespace name)

  pub get_physical_pod_with_fallback : String → String → M (Call Ephemeral) (Fetch (Pod Ephemeral))
  unfolding after_cached
  get_physical_pod_with_fallback namespace name = do
    answer ← call (get_cached_pod namespace name) (λ log. cached_pod log namespace name)
    after_cached namespace name answer

  abbrev pub physical_pod_of : Pod Ephemeral → String × Spec → String × String → Pod Ephemeral
  physical_pod_of virtual (node, spec) (kind, name) = record virtual {
    meta = record {
      namespace = kubeocean.Dict.◌at◌ virtual.annotations physical_pod_namespace;
      name = kubeocean.Dict.◌at◌ virtual.annotations physical_pod_name;
      uid = "";
      labels = build_physical_pod_labels virtual kind name;
      annotations = build_physical_pod_annotations virtual;
      finalizers = [];
      deleting = false;
    };
    owners = [];
    node_name = node;
    spec = spec;
    created = none;
    phase = "";
    reason = "";
    message = "";
  }

  is_readable : Fetch (Pod Ephemeral) → Bool
  is_readable (found pod) = true
  is_readable _ = false

  after_create : String → String → Reply → M (Call Ephemeral) Bool
  unfolding is_readable
  after_create namespace name done = return true
  after_create namespace name already_exists = do
    existing ← get_physical_pod_with_fallback namespace name
    return (is_readable existing)
  after_create namespace name _ = return false

  with_workload : Pod Ephemeral → String × Spec → Option (String × String) → M (Call Ephemeral) Bool
  unfolding after_create
  with_workload virtual built none = return false
  with_workload virtual built (some workload) = do
    reply ←
        call (create_physical_pod (physical_pod_of virtual built workload))
          (λ log. physical_created log (physical_pod_of virtual built workload))
    after_create (physical_pod_of virtual built workload).namespace
        (physical_pod_of virtual built workload).name reply

  with_spec : Pod Ephemeral → Option (String × Spec) → M (Call Ephemeral) Bool
  unfolding with_workload
  with_spec virtual none = return false
  with_spec virtual (some built) = do
    workload ← get_workload_info virtual
    with_workload virtual built workload

  with_mapping : Pod Ephemeral → String → Option ResourceMapping → M (Call Ephemeral) Bool
  unfolding with_spec
  with_mapping virtual node none = return false
  with_mapping virtual node (some mapping) = do
    built ← build_physical_pod_spec virtual node mapping
    with_spec virtual built

  -- Whether it went well.
  pub create_pod : Pod Ephemeral → String → M (Call Ephemeral) Bool
  unfolding with_mapping
  create_pod virtual node = do
    mapping ← sync_dependent_resources virtual
    with_mapping virtual node mapping
