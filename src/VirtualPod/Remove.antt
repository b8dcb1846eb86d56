-- ===== src/VirtualPod/Remove.antt =====
-- virtual_pod_controller.go: the deletion of virtual pods and of physical ones.
pub mod Safe
use kubeocean.Dict.{◌at◌}
use kubeocean.Effect.{M, ◌>>=◌, return, call}
use kubeocean.Kube.{
  Fetch, found, missing, failed, Reply, done, not_found, Outcome, requeue_after, error,
}
use kubeocean.Names.{generate_physical_resource_name}
use kubeocean.PhysicalPod.Defs.{physical_pod_namespace, physical_pod_name}
use kubeocean.Prelude.{Bool, true, false, not, String, ◌==◌, if◌then◌else◌}
use kubeocean.VirtualPod.Build.{Env, get_physical_pod_with_fallback}
use kubeocean.VirtualPod.Defs.{
  Pod, Call, force_delete_virtual_pod, update_virtual_status, delete_physical_pod,
  forget_config_maps, forget_secrets,
}
use kubeocean.VirtualPod.Tokens.{cleanup_service_account_token}
use kubeocean.VirtualPod.Checks.{is_stale, names_virtual_pod, has_mapping}

module _ {Ephemeral : Type 0} (env : Env Ephemeral) where
  open env use {md5_hex, base64, encode, decode, deadline_dec, ephemeral_dec, config, api}
  open config use {mount_namespace}
  open api use {
    virtual_pod, virtual_deleted, virtual_updated, physical_updated, ephemeral_patched,
    physical_deleted, now,
  }

  abbrev pub end : M (Call Ephemeral) Outcome
  end = return (requeue_after 0)

  abbrev pub end_error : M (Call Ephemeral) Outcome
  end_error = return error

  abbrev pub gone_outcome : Reply → M (Call Ephemeral) Outcome
  gone_outcome done = end
  gone_outcome not_found = end
  gone_outcome _ = end_error

  abbrev pub delete_pod :
      Pod Ephemeral → (Reply → M (Call Ephemeral) Outcome) → M (Call Ephemeral) Outcome
  delete_pod physical next = do
    reply ←
        call (delete_physical_pod physical.namespace physical.name)
          (λ log. physical_deleted log physical.namespace physical.name)
    next reply

  -- deletePhysicalPod
  pub delete_unless_deleting : Pod Ephemeral → M (Call Ephemeral) Outcome
  delete_unless_deleting physical =
      if physical.deleting then end else delete_pod physical gone_outcome

  pub force_delete : Pod Ephemeral → M (Call Ephemeral) Outcome
  force_delete virtual = do
    reply ←
        call (force_delete_virtual_pod virtual.namespace virtual.name virtual.uid)
          (λ log. virtual_deleted log virtual.namespace virtual.name virtual.uid)
    gone_outcome reply

  -- The one update of a virtual pod's annotations or status.
  abbrev pub updated_outcome : Reply → Outcome
  updated_outcome done = requeue_after 0
  updated_outcome _ = error

  pub update_virtual : Pod Ephemeral → M (Call Ephemeral) Outcome
  update_virtual pod = do
    reply ← call (update_virtual_status pod) (λ log. virtual_updated log pod)
    return (updated_outcome reply)

  with_deleted : Pod Ephemeral → Fetch (Pod Ephemeral) → M (Call Ephemeral) Outcome
  with_deleted virtual failed = end_error
  with_deleted virtual missing = force_delete virtual
  with_deleted virtual (found physical) =
      if names_virtual_pod physical virtual
      then delete_unless_deleting physical
      else force_delete virtual

  after_cleanup : Pod Ephemeral → Bool → M (Call Ephemeral) Outcome
  unfolding with_deleted
  after_cleanup virtual false = end_error
  after_cleanup virtual true = if not (has_mapping virtual) then force_delete virtual else (do
    answer ←
        get_physical_pod_with_fallback env (virtual.annotations at physical_pod_namespace)
          (virtual.annotations at physical_pod_name)
    with_deleted virtual answer)

  pub handle_virtual_pod_deletion : Pod Ephemeral → M (Call Ephemeral) Outcome
  unfolding after_cleanup
  handle_virtual_pod_deletion virtual = do
    cleaned ← cleanup_service_account_token md5_hex base64 api config virtual
    after_cleanup virtual cleaned

  with_orphan : Fetch (Pod Ephemeral) → M (Call Ephemeral) Outcome
  with_orphan missing = end
  with_orphan failed = end_error
  with_orphan (found physical) = delete_unless_deleting physical

  pub handle_virtual_pod_not_found : String → String → M (Call Ephemeral) Outcome
  unfolding with_orphan
  handle_virtual_pod_not_found namespace name = do
    _ ← call (forget_config_maps namespace name) (λ log. tt)
    _ ← call (forget_secrets namespace name) (λ log. tt)
    if mount_namespace == "" then end else (do
      answer ←
          get_physical_pod_with_fallback env mount_namespace
            (generate_physical_resource_name md5_hex name namespace)
      with_orphan answer)

  abbrev pub check_physical_pod_exists : Pod Ephemeral → M (Call Ephemeral) (Fetch (Pod Ephemeral))
  check_physical_pod_exists virtual =
      if not (has_mapping virtual)
      then return missing
      else get_physical_pod_with_fallback env (virtual.annotations at physical_pod_namespace)
          (virtual.annotations at physical_pod_name)

  -- Whether the reconciliation goes on. A deletion is an error in any case.
  pub delete_mismatched_physical_pod : Pod Ephemeral → Pod Ephemeral → M (Call Ephemeral) Bool
  delete_mismatched_physical_pod virtual physical =
      if not (is_stale physical virtual) then return true else (do
        _ ←
            call (delete_physical_pod physical.namespace physical.name)
              (λ log. physical_deleted log physical.namespace physical.name)
        return false)
