-- ===== src/PhysicalPod/Defs.antt =====
-- physical_pod_controller.go: the pods, and the checks of a pod's labels and annotations.
use kubeocean.Dict.{has, ◌at◌}
use kubeocean.Kube.{Meta}
use kubeocean.Prelude.{ℕ, Bool, ◌&&◌, Option, List, [], ◌∷◌, String, ◌==◌, ◌≠?◌, all}

-- The keys of api/v1beta1/constants.go.
abbrev pub label_managed_by : String
label_managed_by = "kubeocean.io/managed-by"

abbrev pub label_managed_by_value : String
label_managed_by_value = "kubeocean"

abbrev pub label_service_account_token : String
label_service_account_token = "kubeocean.io/service-account-token"

abbrev pub label_virtual_namespace : String
label_virtual_namespace = "kubeocean.io/virtual-namespace"

abbrev pub label_workload_type : String
label_workload_type = "kubeocean.io/workload-type"

abbrev pub label_workload_name : String
label_workload_name = "kubeocean.io/workload-name"

abbrev pub virtual_pod_namespace : String
virtual_pod_namespace = "kubeocean.io/virtual-pod-namespace"

abbrev pub virtual_pod_name : String
virtual_pod_name = "kubeocean.io/virtual-pod-name"

abbrev pub virtual_pod_uid : String
virtual_pod_uid = "kubeocean.io/virtual-pod-uid"

abbrev pub physical_pod_namespace : String
physical_pod_namespace = "kubeocean.io/physical-pod-namespace"

abbrev pub physical_pod_name : String
physical_pod_name = "kubeocean.io/physical-pod-name"

abbrev pub physical_pod_uid : String
physical_pod_uid = "kubeocean.io/physical-pod-uid"

abbrev pub virtual_node_name : String
virtual_node_name = "kubeocean.io/virtual-node-name"

abbrev pub last_sync_time : String
last_sync_time = "kubeocean.io/last-sync-time"

abbrev pub expected_metadata : String
expected_metadata = "kubeocean.io/expected-metadata"

pub record Condition (Payload : Type 0) : Type 0 where
  pub kind : String
  pub rest : Payload

-- corev1.PodStatus: `carried` is the fields that are copied whole (the container statuses), and
-- `kept` those that are not copied.
pub record PodStatus (Payload : Type 0) : Type 0 where
  pub phase : String
  pub conditions : List (Condition Payload)
  pub message : String
  pub reason : String
  pub host_ip : String
  pub pod_ip : String
  pub pod_ips : List String
  pub start_time : Option ℕ
  pub carried : Payload
  pub kept : Payload

-- A volume's secret, and the secrets of the sources of a projected volume.
pub record Volume : Type 0 where
  pub name : String
  pub secret : Option String
  pub projected : Option (List (Option String))

pub record Pod (Payload : Type 0) : Type 0 where
  pub meta : Meta
  pub open meta use {namespace, name, uid, labels, annotations, deleting}
  pub volumes : List Volume
  pub status : PodStatus Payload

abbrev required_annotations : List String
required_annotations = virtual_pod_namespace ∷ virtual_pod_name ∷ virtual_pod_uid ∷ []

module _ {Payload : Type 0} where
  abbrev pub is_kubeocean_managed_pod : Pod Payload → Bool
  is_kubeocean_managed_pod pod =
      has label_managed_by pod.labels && pod.labels at label_managed_by == label_managed_by_value

  abbrev pub has_required_annotations : Pod Payload → Bool
  has_required_annotations pod =
      all (λ key. has key pod.annotations && pod.annotations at key ≠? "") required_annotations

  -- The virtual pod's annotations point back to the physical pod.
  abbrev pub validate_virtual_pod_annotations : Pod Payload → Pod Payload → Bool
  validate_virtual_pod_annotations virtual physical =
      has physical_pod_namespace virtual.annotations
      && has physical_pod_name virtual.annotations
      && virtual.annotations at physical_pod_namespace == physical.namespace
      && virtual.annotations at physical_pod_name == physical.name
