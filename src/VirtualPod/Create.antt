-- ===== src/VirtualPod/Create.antt =====
-- virtual_pod_controller.go: the mapping and the creation of a physical pod.
pub mod Safe
use kubeocean.Dict.{◌at◌}
use kubeocean.Effect.{M, ◌>>=◌, call}
use kubeocean.Kube.{Fetch, found, missing, failed, Outcome}
use kubeocean.Names.{generate_physical_resource_name}
use kubeocean.PhysicalPod.Defs.{physical_pod_name, physical_pod_uid}
use kubeocean.Prelude.{Bool, true, false, ◌&&◌, String, ◌==◌, ◌≠?◌, if◌then◌else◌}
use kubeocean.VirtualPod.Build.{Env, create_pod, get_physical_pod_with_fallback}
use kubeocean.VirtualPod.Defs.{Pod, Call, record_event}
use kubeocean.VirtualPod.Checks.{
  is_physical_pod_owned, has_mapping, with_names, with_physical_pod, set_failed,
}
use kubeocean.VirtualPod.Remove.{end, end_error, update_virtual, delete_mismatched_physical_pod}

module _ {Ephemeral : Type 0} (env : Env Ephemeral) where
  open env use {md5_hex, base64, encode, decode, deadline_dec, ephemeral_dec, config, api}
  open config use {mount_namespace}
  open api use {
    virtual_pod, virtual_deleted, virtual_updated, physical_updated, ephemeral_patched,
    physical_deleted, now,
  }

  with_existing : Pod Ephemeral → Fetch (Pod Ephemeral) → M (Call Ephemeral) Outcome
  with_existing virtual failed = end_error env
  with_existing virtual missing = update_virtual env (
      with_names mount_namespace
        (generate_physical_resource_name md5_hex virtual.name virtual.namespace) virtual)
  with_existing virtual (found existing) =
      if is_physical_pod_owned existing virtual
      then update_virtual env (with_physical_pod existing virtual)
      else (do _ ← delete_mismatched_physical_pod env virtual existing; end_error env)

  pub generate_physical_pod_mapping : Pod Ephemeral → M (Call Ephemeral) Outcome
  unfolding with_existing
  generate_physical_pod_mapping virtual = if mount_namespace == "" then end_error env else (do
    answer ←
        get_physical_pod_with_fallback env mount_namespace
          (generate_physical_resource_name md5_hex virtual.name virtual.namespace)
    with_existing virtual answer)

  after_creation : Bool → M (Call Ephemeral) Outcome
  after_creation true = end env
  after_creation false = do _ ← call (record_event "FailedCreatePod") (λ log. tt); end_error env

  -- What the mapping of a virtual pod without a physical pod calls for.
  pub handle_physical_pod_creation : Pod Ephemeral → String → M (Call Ephemeral) Outcome
  unfolding after_creation
  handle_physical_pod_creation virtual node =
      if has_mapping virtual && virtual.annotations at physical_pod_uid ≠? ""
      then update_virtual env (set_failed virtual "Physical pod was deleted unexpectedly")
      else if virtual.annotations at physical_pod_uid == ""
          && virtual.annotations at physical_pod_name == ""
      then generate_physical_pod_mapping virtual
      else if virtual.annotations at physical_pod_uid == "" && has_mapping virtual
      then (do created ← create_pod env virtual node; after_creation created)
      else end env
