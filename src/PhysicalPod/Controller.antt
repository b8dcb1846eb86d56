-- ===== src/PhysicalPod/Controller.antt =====
-- physical_pod_controller.go: Reconcile, getAndValidateVirtualPod, deletePhysicalPod and
-- syncPhysicalPodToVirtual. `deep_equal` is reflect.DeepEqual on the two statuses.
pub mod Safety
use kubeocean.Dict.{◌at◌}
use kubeocean.Effect.{M, ◌>>=◌, ◌>>◌, return, call}
use kubeocean.Kube.{
  Fetch, found, missing, failed, Reply, done, not_found, already_exists, refused, Outcome,
  requeue_after, error,
}
use kubeocean.PhysicalPod.Defs.{
  Pod, PodStatus, is_kubeocean_managed_pod, has_required_annotations,
  validate_virtual_pod_annotations, virtual_pod_namespace, virtual_pod_name, virtual_pod_uid,
}
use kubeocean.PhysicalPod.Secrets.{
  Api, Call, get_physical_pod, get_virtual_pod, delete_pod, update_status,
  delete_service_account_token_secrets,
}
use kubeocean.PhysicalPod.Sync.{build_sync_pod, stamp, is_pods_status_equal}
use kubeocean.Prelude.{
  Bool, true, false, not, ◌&&◌, Option, none, some, String, ◌==◌, if◌then◌else◌,
}

module _ {Payload : Type 0} (deep_equal : Discrete (PodStatus Payload)) (api : Api Payload) where
  open api use {physical_pod, virtual_pod, pod_deleted, status_updated, now}

  after_secrets : Bool → M (Call Payload) Outcome
  after_secrets true = return (requeue_after 0)
  after_secrets false = return error

  after_delete : Pod Payload → Reply → M (Call Payload) Outcome
  unfolding after_secrets
  after_delete pod refused = return error
  after_delete pod already_exists = return error
  after_delete pod _ = do
    all_deleted ← delete_service_account_token_secrets api pod.namespace pod.volumes
    after_secrets all_deleted

  pub delete_physical_pod : Pod Payload → M (Call Payload) Outcome
  unfolding after_delete
  delete_physical_pod pod = if pod.deleting then return (requeue_after 0) else (do
    reply ←
        call (delete_pod pod.namespace pod.name pod.uid)
          (λ log. pod_deleted log pod.namespace pod.name pod.uid)
    after_delete pod reply)

  after_update : Reply → M (Call Payload) Outcome
  after_update done = return (requeue_after 0)
  after_update _ = return error

  pub sync_physical_pod_to_virtual : Pod Payload → Pod Payload → M (Call Payload) Outcome
  unfolding after_update
  sync_physical_pod_to_virtual physical virtual log =
      if is_pods_status_equal deep_equal (build_sync_pod physical virtual) virtual
      then return (requeue_after 0) log
      else (let updated = stamp (now log) (build_sync_pod physical virtual) in
          (do
            reply ← call (update_status updated) (λ log'. status_updated log' updated)
            after_update reply)
            log)

  -- The virtual pod that the physical pod's annotations name, if it is the same pod; the steps 3
  -- to 5 of Reconcile.
  with_virtual : Pod Payload → Fetch (Pod Payload) → M (Call Payload) Outcome
  with_virtual physical failed = return error
  with_virtual physical missing = delete_physical_pod physical
  with_virtual physical (found virtual) =
      if not (virtual.uid == (physical.annotations at virtual_pod_uid))
      then delete_physical_pod physical
      else if not (validate_virtual_pod_annotations virtual physical)
      then delete_physical_pod physical
      else sync_physical_pod_to_virtual physical virtual

  with_physical : Fetch (Pod Payload) → M (Call Payload) Outcome
  unfolding with_virtual
  with_physical missing = return (requeue_after 0)
  with_physical failed = return error
  with_physical (found physical) =
      if not (is_kubeocean_managed_pod physical)
      then return (requeue_after 0)
      else if not (has_required_annotations physical)
      then delete_physical_pod physical
      else (let namespace = physical.annotations at virtual_pod_namespace in
          let name = physical.annotations at virtual_pod_name in
          (do
            answer ← call (get_virtual_pod namespace name) (λ log. virtual_pod log namespace name)
            with_virtual physical answer))

  pub reconcile : String → String → M (Call Payload) Outcome
  unfolding with_physical
  reconcile namespace name = do
    answer ← call (get_physical_pod namespace name) (λ log. physical_pod log namespace name)
    with_physical answer
