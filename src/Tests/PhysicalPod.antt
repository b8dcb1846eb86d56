-- ===== src/Tests/PhysicalPod.antt =====
-- A physical pod and its virtual pod.
use kubeocean.Dict.{lookup}
use kubeocean.Kube.{found, missing, done}
use kubeocean.PhysicalPod.Defs.{Pod, PodStatus}
use kubeocean.PhysicalPod.Secrets.{Api}
use kubeocean.PhysicalPod.Sync.{build_sync_pod, build_sync_pod_stable, stamp, is_pods_status_equal}
use kubeocean.PhysicalPod.Controller.{reconcile}
use kubeocean.PhysicalPod.Controller.Safety.{Allowed, reconcile-Allowed}
use kubeocean.Prelude.{◌≡◌, refl, true, false, none, [], ◌∷◌, String, str_dec, ℕ_discrete, All}

-- No payload: the statuses differ in their own fields only.
abbrev Status : Type 0
Status = PodStatus String

unfoldable deep_equal : Discrete Status
deep_equal = hlevel (str_dec, ℕ_discrete)

abbrev status_of : String → Status
status_of phase = record {
  phase = phase;
  conditions = record { kind = "PodScheduled"; rest = "" } ∷ [];
  message = "";
  reason = "";
  host_ip = "";
  pod_ip = "";
  pod_ips = [];
  start_time = none;
  carried = "";
  kept = "";
}

abbrev physical : Pod String
physical = record {
  meta = record {
    namespace = "mount";
    name = "web-1f";
    uid = "p1";
    labels = ("kubeocean.io/managed-by", "kubeocean") ∷ [];
    annotations =
        ("kubeocean.io/virtual-pod-namespace", "default")
        ∷ ("kubeocean.io/virtual-pod-name", "web")
        ∷ ("kubeocean.io/virtual-pod-uid", "v1")
        ∷ [];
    finalizers = [];
    deleting = false;
  };
  volumes = [];
  status = status_of "Running";
}

abbrev virtual : Pod String
virtual = record {
  meta = record {
    namespace = "default";
    name = "web";
    uid = "v1";
    labels = [];
    annotations =
        ("kubeocean.io/physical-pod-namespace", "mount")
        ∷ ("kubeocean.io/physical-pod-name", "web-1f")
        ∷ [];
    finalizers = [];
    deleting = false;
  };
  volumes = [];
  status = status_of "Pending";
}

abbrev api : Api String
api = record {
  physical_pod = λ log namespace name. found physical;
  virtual_pod = λ log namespace name. found virtual;
  secret_labels = λ log namespace name. missing;
  pod_deleted = λ log namespace name uid. done;
  secret_deleted = λ log namespace name. done;
  status_updated = λ log pod. done;
  now = λ log. "12:00";
}

reconcile-Allowed_example :
    All (Allowed deep_equal api "mount" "web-1f") (reconcile deep_equal api "mount" "web-1f" []).1
reconcile-Allowed_example = reconcile-Allowed deep_equal api "mount" "web-1f"

build_sync_pod_stable_example :
    is_pods_status_equal deep_equal
      (build_sync_pod physical (stamp "12:00" (build_sync_pod physical virtual)))
      (stamp "12:00" (build_sync_pod physical virtual))
    ≡ true
unfolding lookup str_dec
build_sync_pod_stable_example =
    build_sync_pod_stable deep_equal physical virtual "12:00" (refl, tt) (refl, (refl, (refl, tt)))
      refl
