-- ===== src/VirtualPod/Controller.antt =====
-- virtual_pod_controller.go: Reconcile, with the synchronisation of a pair of pods and the timeout of
-- one that is not scheduled.
pub mod Safety
use kubeocean.Dict.{◌at◌}
use kubeocean.Effect.{M, ◌>>=◌, return, call}
use kubeocean.Kube.{
  Fetch, found, missing, failed, Reply, done, already_exists, refused, Outcome, requeue_after,
}
use kubeocean.PhysicalPod.Defs.{physical_pod_uid}
use kubeocean.Prelude.{Bool, true, false, String, ◌==◌, if◌then◌else◌, is_yes}
use kubeocean.VirtualPod.Build.{Env}
use kubeocean.VirtualPod.Defs.{
  Pod, Call, get_virtual_pod, update_physical_pod, patch_ephemeral, record_event,
}
use kubeocean.VirtualPod.Metadata.{Plan, skip, failure, keep, update, plan_sync}
use kubeocean.VirtualPod.Tokens.{Synced, synced, absent, broken, sync_service_account_tokens}
use kubeocean.VirtualPod.Checks.{
  is_overdue, remaining_time, annotate, token_refresh, Managed, managed, elsewhere, unknown,
  should_manage_virtual_pod, should_create_physical_pod,
}
use kubeocean.VirtualPod.Remove.{
  end, end_error, delete_pod, update_virtual, handle_virtual_pod_deletion,
  handle_virtual_pod_not_found, check_physical_pod_exists, delete_mismatched_physical_pod,
}
use kubeocean.VirtualPod.Create.{handle_physical_pod_creation}

module _ {Ephemeral : Type 0} (env : Env Ephemeral) where
  open env use {md5_hex, base64, encode, decode, deadline_dec, ephemeral_dec, config, api}
  open config use {mount_namespace}
  open api use {
    virtual_pod, virtual_deleted, virtual_updated, physical_updated, ephemeral_patched,
    physical_deleted, now,
  }

  after_timeout : Reply → M (Call Ephemeral) Outcome
  after_timeout already_exists = end_error env
  after_timeout refused = end_error env
  after_timeout _ = do _ ← call (record_event "FailedSchedulingPod") (λ log. tt); end env

  pub handle_unscheduled_physical_pod : Pod Ephemeral → M (Call Ephemeral) Outcome
  unfolding after_timeout
  handle_unscheduled_physical_pod physical log =
      if is_overdue physical.created (now log)
      then delete_pod env physical after_timeout log
      else return (requeue_after (remaining_time physical.created (now log))) log

  abbrev is_done : Reply → Bool
  is_done done = true
  is_done _ = false

  patch_if_changed : Pod Ephemeral → Pod Ephemeral → M (Call Ephemeral) Bool
  patch_if_changed virtual physical =
      if is_yes (ephemeral_dec physical.ephemeral virtual.ephemeral) then return true else (do
        reply ←
            call (patch_ephemeral (record physical { ephemeral = virtual.ephemeral }))
              (λ log. ephemeral_patched log (record physical { ephemeral = virtual.ephemeral }))
        return (is_done reply))

  run_plan : Pod Ephemeral → Plan Ephemeral → M (Call Ephemeral) Bool
  unfolding patch_if_changed
  run_plan virtual skip = return true
  run_plan virtual failure = return false
  run_plan virtual (keep physical) = patch_if_changed virtual physical
  run_plan virtual (update physical) = do
    reply ← call (update_physical_pod physical) (λ log. physical_updated log physical)
    if is_done reply then patch_if_changed virtual physical else return false

  pub sync_virtual_pod_metadata_and_spec : Pod Ephemeral → Pod Ephemeral → M (Call Ephemeral) Bool
  unfolding run_plan
  sync_virtual_pod_metadata_and_spec virtual physical =
      run_plan virtual (plan_sync encode decode deadline_dec virtual physical)

  after_tokens : {A : Type 0} → Synced A → M (Call Ephemeral) Outcome
  after_tokens (synced names) = return (requeue_after token_refresh)
  after_tokens absent = end env
  after_tokens broken = end_error env

  -- A pair that was synchronised.
  after_sync : Pod Ephemeral → Pod Ephemeral → Bool → M (Call Ephemeral) Outcome
  unfolding after_tokens
  after_sync virtual physical false = end_error env
  after_sync virtual physical true =
      if physical.node_name == ""
      then handle_unscheduled_physical_pod physical
      else if virtual.spec.service_account == ""
      then end env
      else (do
        tokens ← sync_service_account_tokens md5_hex base64 api config virtual false
        after_tokens tokens)

  -- A physical pod that is not stale; the step 7 of Reconcile.
  after_mismatch : Pod Ephemeral → Pod Ephemeral → Bool → M (Call Ephemeral) Outcome
  unfolding after_sync
  after_mismatch virtual physical false = end_error env
  after_mismatch virtual physical true =
      if virtual.annotations at physical_pod_uid == ""
      then update_virtual env (annotate physical_pod_uid physical.uid virtual)
      else (do
        ok ← sync_virtual_pod_metadata_and_spec virtual physical
        after_sync virtual physical ok)

  with_pair : Pod Ephemeral → String → Fetch (Pod Ephemeral) → M (Call Ephemeral) Outcome
  unfolding after_mismatch
  with_pair virtual node failed = end_error env
  with_pair virtual node missing = handle_physical_pod_creation env virtual node
  with_pair virtual node (found physical) = do
    ok ← delete_mismatched_physical_pod env virtual physical
    after_mismatch virtual physical ok

  if_created : Pod Ephemeral → String → Bool → M (Call Ephemeral) Outcome
  unfolding with_pair
  if_created virtual node false = end env
  if_created virtual node true = do
    answer ← check_physical_pod_exists env virtual
    with_pair virtual node answer

  if_managed : Pod Ephemeral → Managed → M (Call Ephemeral) Outcome
  unfolding if_created
  if_managed virtual unknown = end_error env
  if_managed virtual elsewhere = end env
  if_managed virtual (managed node) =
      if virtual.deleting
      then handle_virtual_pod_deletion env virtual
      else (do creates ← should_create_physical_pod env virtual; if_created virtual node creates)

  with_virtual : String → String → Fetch (Pod Ephemeral) → M (Call Ephemeral) Outcome
  unfolding if_managed
  with_virtual namespace name failed = end_error env
  with_virtual namespace name missing = handle_virtual_pod_not_found env namespace name
  with_virtual namespace name (found virtual) =
      if virtual.node_name == ""
      then end env
      else (do manages ← should_manage_virtual_pod env virtual; if_managed virtual manages)

  pub reconcile : String → String → M (Call Ephemeral) Outcome
  unfolding with_virtual
  reconcile namespace name = do
    answer ← call (get_virtual_pod namespace name) (λ log. virtual_pod log namespace name)
    with_virtual namespace name answer
