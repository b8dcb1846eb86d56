-- ===== src/VirtualPod/Checks.antt =====
-- virtual_pod_controller.go: what the controller of virtual pods tests before it acts. Times are in
-- nanoseconds.
pub mod Safe
use kubeocean.Dict.{◌at◌, put}
use kubeocean.Effect.{M, ◌>>=◌, return, call}
use kubeocean.Kube.{Meta, Fetch, found, missing, failed}
use kubeocean.PhysicalPod.Defs.{
  label_managed_by, label_managed_by_value, virtual_pod_namespace, virtual_pod_name,
  virtual_pod_uid, physical_pod_namespace, physical_pod_name, physical_pod_uid,
}
use kubeocean.Prelude.{
  ℕ, ◌+◌, ◌-◌, ltb, Bool, true, false, not, ◌&&◌, ◌||◌, Option, none, some, [], ◌∷◌, String, ◌==◌,
  ◌≠?◌, if◌then◌else◌, any,
}
use kubeocean.VirtualPod.Build.{Env}
use kubeocean.VirtualPod.Defs.{Owner, Pod, Call, get_virtual_node, get_cluster_binding}

abbrev pub label_host_port_fake_pod : String
label_host_port_fake_pod = "kubeocean.io/hostport-fake-pod"

abbrev pub running_daemonset : String
running_daemonset = "kubeocean.io/running-daemonset"

abbrev pub cluster_id_label : String
cluster_id_label = "kubeocean.io/physical-cluster-id"

abbrev pub node_name_label : String
node_name_label = "kubeocean.io/physical-node-name"

abbrev pub cluster_name_annotation : String
cluster_name_annotation = "kubeocean.io/physical-cluster-name"

-- Five minutes.
abbrev pub scheduling_timeout : ℕ
scheduling_timeout = 300000000000

-- Ten minutes.
abbrev pub token_refresh : ℕ
token_refresh = 600000000000

abbrev pub is_overdue : Option ℕ → ℕ → Bool
is_overdue none now = true
is_overdue (some created) now = ltb (created + scheduling_timeout) now

abbrev pub remaining_time : Option ℕ → ℕ → ℕ
remaining_time none now = scheduling_timeout
remaining_time (some created) now = created + scheduling_timeout - now

module _ {Ephemeral : Type 0} where
  abbrev pub is_system_pod : Pod Ephemeral → Bool
  is_system_pod pod =
      any (λ ns. pod.namespace == ns)
        ("kube-system" ∷ "kube-public" ∷ "kube-node-lease" ∷ "kubeocean-system" ∷ "kubeocean-fake"
          ∷ [])

  abbrev pub is_daemon_set_pod : Pod Ephemeral → Bool
  is_daemon_set_pod pod = any (λ (o : Owner). o.kind == "DaemonSet") pod.owners

  -- The physical pod names the virtual pod.
  abbrev pub names_virtual_pod : Pod Ephemeral → Pod Ephemeral → Bool
  names_virtual_pod physical virtual =
      physical.annotations at virtual_pod_namespace == virtual.namespace
      && physical.annotations at virtual_pod_name == virtual.name

  abbrev pub is_physical_pod_owned : Pod Ephemeral → Pod Ephemeral → Bool
  is_physical_pod_owned physical virtual =
      names_virtual_pod physical virtual && physical.annotations at virtual_pod_uid == virtual.uid

  -- The physical pod was made for another virtual pod of the same name.
  abbrev pub is_stale : Pod Ephemeral → Pod Ephemeral → Bool
  is_stale physical virtual =
      names_virtual_pod physical virtual
      && physical.annotations at virtual_pod_uid ≠? ""
      && physical.annotations at virtual_pod_uid ≠? virtual.uid

  abbrev pub has_mapping : Pod Ephemeral → Bool
  has_mapping virtual =
      virtual.annotations at physical_pod_namespace ≠? ""
      && virtual.annotations at physical_pod_name ≠? ""

  abbrev pub annotate : String → String → Pod Ephemeral → Pod Ephemeral
  annotate k v pod = record pod {
    meta = record (pod.meta) { annotations = put k v pod.annotations };
  }

  abbrev pub with_names : String → String → Pod Ephemeral → Pod Ephemeral
  with_names namespace name pod =
      annotate physical_pod_name name (annotate physical_pod_namespace namespace pod)

  -- recordPhysicalPodMapping
  abbrev pub with_physical_pod : Pod Ephemeral → Pod Ephemeral → Pod Ephemeral
  with_physical_pod physical pod =
      annotate physical_pod_uid physical.uid (with_names physical.namespace physical.name pod)

  abbrev pub set_failed : Pod Ephemeral → String → Pod Ephemeral
  set_failed virtual message' = record virtual {
    phase = "Failed";
    reason = "PhysicalPodLost";
    message = message';
  }

-- Whether a virtual pod is this cluster's, with the name of its physical node.
pub data Managed : Type 0 where
  managed : String → Managed
  elsewhere unknown : Managed

module _ {Ephemeral : Type 0} (env : Env Ephemeral) where
  open env use {md5_hex, base64, encode, decode, deadline_dec, ephemeral_dec, config, api}
  open config use {cluster_name, cluster_id, mount_namespace}
  open api use {
    virtual_pod, virtual_node, runs_daemonsets, virtual_deleted, virtual_updated, physical_updated,
    ephemeral_patched, physical_deleted, now,
  }

  abbrev is_this_cluster : Meta → Bool
  is_this_cluster node =
      node.labels at label_managed_by == label_managed_by_value
      && (node.annotations at cluster_name_annotation == ""
          || node.annotations at cluster_name_annotation == cluster_name)
      && (node.annotations at cluster_name_annotation ≠? ""
          || node.labels at cluster_id_label == ""
          || node.labels at cluster_id_label == cluster_id)

  abbrev pub managed_by_node : Fetch Meta → Managed
  managed_by_node missing = elsewhere
  managed_by_node failed = unknown
  managed_by_node (found node) =
      if not (is_this_cluster node)
      then elsewhere
      else if node.labels at node_name_label == ""
      then unknown
      else managed (node.labels at node_name_label)

  pub should_manage_virtual_pod : Pod Ephemeral → M (Call Ephemeral) Managed
  should_manage_virtual_pod virtual = if virtual.node_name == "" then return elsewhere else (do
    node ← call (get_virtual_node virtual.node_name) (λ log. virtual_node log virtual.node_name)
    return (managed_by_node node))

  abbrev runs : Fetch Bool → Bool
  runs (found b) = b
  runs _ = false

  -- IsRunningDaemonsetByDefault, whose errors count as false.
  pub is_running_daemonset_by_default : M (Call Ephemeral) Bool
  is_running_daemonset_by_default = if cluster_name == "" then return false else (do
    answer ← call (get_cluster_binding cluster_name) (λ log. runs_daemonsets log cluster_name)
    return (runs answer))

  abbrev pub is_fake : Pod Ephemeral → Bool
  is_fake virtual = virtual.labels at label_host_port_fake_pod == "true"

  abbrev pub by_default : Pod Ephemeral → Bool → Bool
  by_default virtual running =
      (running || virtual.annotations at running_daemonset == "true") && not (is_fake virtual)

  pub should_create_physical_pod : Pod Ephemeral → M (Call Ephemeral) Bool
  unfolding is_running_daemonset_by_default
  should_create_physical_pod virtual =
      if virtual.node_name == "" || is_system_pod virtual
      then return false
      else if is_daemon_set_pod virtual
      then (do running ← is_running_daemonset_by_default; return (by_default virtual running))
      else return (not (is_fake virtual))
