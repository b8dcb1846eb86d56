-- ===== src/Node/Defs.antt =====
-- physical_node_controller.go: nodes, taints and leasing policies, as far as the controller
-- reads and writes them. Times and durations are in nanoseconds.
use kubeocean.Kube.{Meta}
use kubeocean.Policy.Windows.{TimeWindow}
use kubeocean.Prelude.{suc, ◌-◌, ◌*◌, Bool, Option, List, String}
use kubeocean.Prelude.Int.{ℤ, pos, negsuc}

abbrev pub vnode_deleting : String
vnode_deleting = "kubeocean.io/vnode-deleting"

abbrev pub deletion_taint_time : String
deletion_taint_time = "kubeocean.io/deletion-taint-time"

abbrev pub out_of_time_windows : String
out_of_time_windows = "kubeocean.io/out-of-time-windows"

abbrev pub unschedulable_key : String
unschedulable_key = "node.kubernetes.io/unschedulable"

abbrev pub physical_node_unschedulable : String
physical_node_unschedulable = "kubeocean.io/physical-node-unschedulable"

-- The key of the default taint, and the finalizer of a virtual node.
abbrev pub vnode : String
vnode = "kubeocean.io/vnode"

abbrev pub node_metadata : String
node_metadata = "kubeocean.io/expected-metadata"

pub record Taint : Type 0 where
  pub key : String
  pub value : String
  pub effect : String
  pub time_added : Option ℤ

-- corev1.Node without its status.
pub record Node : Type 0 where
  pub meta : Meta
  pub open meta use {name, uid, labels, annotations, finalizers, deleting}
  pub taints : List Taint
  pub unschedulable : Bool

-- ResourceLeasingPolicy, without its resource limits; `Selector` is corev1.NodeSelector.
pub record Policy (Selector : Type 0) : Type 0 where
  pub name : String
  pub created : ℤ
  pub deleting : Bool
  pub cluster : String
  pub node_selector : Option Selector
  pub time_windows : List TimeWindow
  pub force_reclaim : Bool
  pub graceful_period : ℤ  -- int32, seconds

-- `time.Duration(s) * time.Second`
abbrev pub seconds : ℤ → ℤ
seconds (pos n) = pos (1_000_000_000 * n)
seconds (negsuc n) = negsuc (1_000_000_000 * suc n - 1)

-- ctrl.Result with its error: no requeue, one after a duration, or a retry.
pub data Outcome : Type 0 where
  finished : Outcome
  again : ℤ → Outcome
  retry : Outcome
