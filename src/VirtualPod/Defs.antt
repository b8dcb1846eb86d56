-- ===== src/VirtualPod/Defs.antt =====
-- virtual_pod_controller.go: pods, as far as the controller of virtual pods reads and writes them,
-- and the calls that it makes of the two API servers.
use kubeocean.Dict.{StrMap}
use kubeocean.Kube.{Meta, Fetch, Reply}
use kubeocean.Prelude.{ℕ, Bool, Option, List, String}
use kubeocean.Synced.Physical.{ResourceType}
use kubeocean.Synced.Resource.{Resource}
use kubeocean.VirtualPod.Spec.{Spec, Token, Required}

-- metav1.OwnerReference
pub record Owner : Type 0 where
  pub kind : String
  pub name : String

-- corev1.Pod; `Ephemeral` is the type of what is only compared and copied, as the ephemeral
-- containers and the content of other resources are. A creation time is in nanoseconds, and none if it is zero.
pub record Pod (Ephemeral : Type 0) : Type 0 where
  pub meta : Meta
  pub open meta use {namespace, name, uid, labels, annotations, finalizers, deleting}
  pub owners : List Owner
  pub node_name : String
  pub spec : Spec
  pub created : Option ℕ
  pub active_deadline : Option ℕ
  pub ephemeral : Ephemeral
  pub phase : String
  pub reason : String
  pub message : String

-- The secret in the physical cluster that holds a token.
pub record TokenSecret : Type 0 where
  pub namespace : String
  pub name : String
  pub labels : StrMap
  pub annotations : StrMap
  pub token : String

-- corev1.Service: the IPs of its load balancer, and its ports.
pub record Service : Type 0 where
  pub ingress : List String
  pub ports : List ℕ

-- What buildPhysicalPodSpec reads of a ClusterBinding.
pub record Binding : Type 0 where
  pub direct_scheduling : Bool
  pub priority_class_name : String

-- The calls, of the virtual cluster, of the physical one (by the cache and directly), of the token
-- manager and of the controllers of ConfigMaps and Secrets.
pub data Call (Ephemeral : Type 0) : Type 0 where
  get_virtual_pod get_cached_pod get_direct_pod get_replica_set : String → String → Call Ephemeral
  get_virtual_node get_cluster_binding : String → Call Ephemeral
  force_delete_virtual_pod : String → String → String → Call Ephemeral
  update_virtual_status create_physical_pod update_physical_pod patch_ephemeral :
      Pod Ephemeral → Call Ephemeral
  delete_physical_pod get_secret delete_secret : String → String → Call Ephemeral
  create_secret update_secret : TokenSecret → Call Ephemeral
  get_token : String → String → Token → String → String → Call Ephemeral
  forget_tokens : String → Call Ephemeral
  forget_config_maps forget_secrets : String → String → Call Ephemeral
  record_event : String → Call Ephemeral
  need_config_maps need_secrets : String → String → Required → Call Ephemeral
  get_resource get_cached_resource get_direct_resource :
      ResourceType → String → String → Call Ephemeral
  update_resource create_resource : ResourceType → Resource Ephemeral → Call Ephemeral
  get_service : String → String → Call Ephemeral
  get_binding get_priority_class create_priority_class : String → Call Ephemeral

-- What is answered, the clock, and how many rounds a poll has the time for. A token is requested for a namespace, a service account, a
-- projection and the name and UID of the pod that it is bound to.
pub record Api (Ephemeral : Type 0) : Type 0 where
  pub virtual_pod : List (Call Ephemeral) → String → String → Fetch (Pod Ephemeral)
  pub cached_pod : List (Call Ephemeral) → String → String → Fetch (Pod Ephemeral)
  pub direct_pod : List (Call Ephemeral) → String → String → Fetch (Pod Ephemeral)
  pub virtual_node : List (Call Ephemeral) → String → Fetch Meta
  pub runs_daemonsets : List (Call Ephemeral) → String → Fetch Bool
  pub replica_set : List (Call Ephemeral) → String → String → Fetch (List Owner)
  pub virtual_deleted : List (Call Ephemeral) → String → String → String → Reply
  pub virtual_updated : List (Call Ephemeral) → Pod Ephemeral → Reply
  pub physical_created : List (Call Ephemeral) → Pod Ephemeral → Reply
  pub physical_updated : List (Call Ephemeral) → Pod Ephemeral → Reply
  pub ephemeral_patched : List (Call Ephemeral) → Pod Ephemeral → Reply
  pub physical_deleted : List (Call Ephemeral) → String → String → Reply
  pub secret : List (Call Ephemeral) → String → String → Fetch TokenSecret
  pub secret_created : List (Call Ephemeral) → TokenSecret → Reply
  pub secret_updated : List (Call Ephemeral) → TokenSecret → Reply
  pub secret_deleted : List (Call Ephemeral) → String → String → Reply
  pub token : List (Call Ephemeral) → String → String → Token → String → String → Option String
  pub resource : List (Call Ephemeral) → ResourceType → String → String → Fetch (Resource Ephemeral)
  pub cached_resource :
      List (Call Ephemeral) → ResourceType → String → String → Fetch (Resource Ephemeral)
  pub direct_resource :
      List (Call Ephemeral) → ResourceType → String → String → Fetch (Resource Ephemeral)
  pub resource_updated : List (Call Ephemeral) → ResourceType → Resource Ephemeral → Reply
  pub resource_created : List (Call Ephemeral) → ResourceType → Resource Ephemeral → Reply
  pub service : List (Call Ephemeral) → String → String → Fetch Service
  pub binding : List (Call Ephemeral) → String → Fetch Binding
  pub priority_class : List (Call Ephemeral) → String → Fetch Unit
  pub priority_class_created : List (Call Ephemeral) → String → Reply
  pub poll_rounds : List (Call Ephemeral) → ℕ
  pub now : List (Call Ephemeral) → ℕ

-- What the controller knows when a reconciliation starts; the IP and port of the API server and the
-- IP of the DNS, none or "" unless they were read before.
pub record Config : Type 0 where
  pub cluster_name : String
  pub cluster_id : String
  pub mount_namespace : String
  pub intranet : Option (String × String)
  pub dns_ip : String
