-- ===== src/Node/Calls.antt =====
-- physical_node_controller.go: the calls that the controller makes, the answers to them, and the
-- pods that it lists.
use kubeocean.Kube.{Fetch, Reply}
use kubeocean.Node.Defs.{Node, out_of_time_windows}
use kubeocean.Prelude.{Bool, ◌||◌, ◌&&◌, not, Option, List, [], ◌∷◌, String, ◌==◌, any}
use kubeocean.Prelude.Int.{ℤ}

pub record BoundPod : Type 0 where
  pub namespace : String
  pub name : String
  pub uid : String
  pub node_name : String
  pub phase : String
  pub deleting : Bool
  pub tolerations : List String  -- their keys

pub data Call : Type 0 where
  get_physical_node get_virtual_node list_pods : String → Call
  patch_policy_label : String → Option String → Call
  update_node : Node → Call
  delete_node : String → String → Call
  delete_pod : BoundPod → Call
  start_lease stop_lease release_port : String → Call

-- Nodes and pods are deleted with their UID as the precondition.
pub record Api : Type 0 where
  pub physical_node : List Call → String → Fetch Node
  pub virtual_node : List Call → String → Fetch Node
  pub pods : List Call → String → Option (List BoundPod)
  pub label_patched : List Call → String → Option String → Reply
  pub node_updated : List Call → Node → Reply
  pub node_deleted : List Call → String → String → Reply
  pub pod_deleted : List Call → BoundPod → Reply
  pub now : List Call → ℤ

-- utils.IsSystemPod
abbrev system_namespaces : List String
system_namespaces =
    "kube-system" ∷ "kube-public" ∷ "kube-node-lease" ∷ "kubeocean-system" ∷ "kubeocean-fake" ∷ []

unfoldable pub is_system_namespace : String → Bool
is_system_namespace namespace = any (λ ns. namespace == ns) system_namespaces

-- A pod that keeps its virtual node from going.
unfoldable pub holds_node : String → BoundPod → Bool
unfolding is_system_namespace
holds_node vname pod =
    not (is_system_namespace pod.namespace)
    && (pod.node_name == vname && (pod.phase == "Pending" || pod.phase == "Running"))

pub tolerates_windows : BoundPod → Bool
tolerates_windows pod = any (λ key. key == out_of_time_windows) pod.tolerations
