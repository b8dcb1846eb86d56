-- ===== src/VirtualPod/Controller/Safety.antt =====
-- Every call of a reconciliation of a virtual pod has its reason.
use kubeocean.Dict.{◌at◌}
use kubeocean.Effect.Keeps.{Keeps, if-Keeps}
use kubeocean.Kube.{Fetch, found, missing, failed, Reply, done, not_found, already_exists, refused}
use kubeocean.PhysicalPod.Defs.{physical_pod_uid}
use kubeocean.Prelude.{
  ◌≡◌, refl, inl, inr, Bool, true, false, List, [], ◌∷◌, String, ◌==◌, All, Bool-cases, arith,
  is_yes,
}
use kubeocean.VirtualPod.Allowed.{
  BuilderLaw, IsMapped, IsOurs, IsLive, IsPair, MayDelete, MayUpdate, Allowed,
}
use kubeocean.VirtualPod.Build.{Env}
use kubeocean.VirtualPod.Checks.{
  is_system_pod, is_fake, is_stale, is_overdue, has_mapping, Managed, managed, elsewhere, unknown,
  managed_by_node, should_manage_virtual_pod, should_create_physical_pod,
}
use kubeocean.VirtualPod.Checks.Safe.{
  managed_by_node-result, should_create-result, should_manage-Keeps, should_create-Keeps,
}
use kubeocean.VirtualPod.Controller.{
  after_timeout, handle_unscheduled_physical_pod, is_done, patch_if_changed, run_plan,
  sync_virtual_pod_metadata_and_spec, after_tokens, after_sync, after_mismatch, with_pair,
  if_created, if_managed, with_virtual, reconcile,
}
use kubeocean.VirtualPod.Create.Safe.{handle_physical_pod_creation-Keeps}
use kubeocean.VirtualPod.Defs.{Pod, Call, get_virtual_pod, update_physical_pod, delete_physical_pod}
use kubeocean.VirtualPod.Metadata.{Plan, skip, failure, keep, update, plan_sync}
use kubeocean.VirtualPod.Remove.{check_physical_pod_exists, delete_mismatched_physical_pod}
use kubeocean.VirtualPod.Remove.Safe.{
  quiet-Allowed, update_virtual-Keeps, handle_virtual_pod_deletion-Keeps,
  handle_virtual_pod_not_found-Keeps, IsChecked, check-IsChecked, check-Keeps,
  delete_mismatched-Keeps, delete_mismatched-result,
}
use kubeocean.VirtualPod.Tokens.{Synced, synced, absent, broken, sync_service_account_tokens}
use kubeocean.VirtualPod.Tokens.Safe.{sync_service_account_tokens-Keeps}

module _ {Ephemeral : Type 0} (env : Env Ephemeral) (namespace name : String) where
  open env use {md5_hex, base64, encode, decode, deadline_dec, ephemeral_dec, config, api, builder}
  open api use {virtual_pod, virtual_node, physical_updated, physical_deleted, now}

  -- The calls of a program are allowed.
  abbrev IsSafe : {A : Type 0} → kubeocean.Effect.M (Call Ephemeral) A → Type 0
  IsSafe = Keeps (Allowed env namespace name)

  module _ (virtual physical : Pod Ephemeral) (live : IsLive env namespace name virtual)
      (mapped : IsMapped env namespace name virtual (found physical))
      (fresh : is_stale physical virtual ≡ false) where
    after_timeout-IsSafe : (r : Reply) → IsSafe (after_timeout env r)
    unfolding after_timeout
    after_timeout-IsSafe already_exists = λ log h. h
    after_timeout-IsSafe refused = λ log h. h
    after_timeout-IsSafe done = λ log h. (tt, h)
    after_timeout-IsSafe not_found = λ log h. (tt, h)

    unscheduled-IsSafe :
        (physical.node_name == "") ≡ true → IsSafe (handle_unscheduled_physical_pod env physical)
    unfolding handle_unscheduled_physical_pod
    unscheduled-IsSafe e log h = elim (Bool-cases (is_overdue physical.created (now log))) [
      | inr early ↦ rw early h
      | inl late ↦ rw late (
          after_timeout-IsSafe (physical_deleted log physical.namespace physical.name)
            (delete_physical_pod physical.namespace physical.name ∷ log)
            ((physical, MayDelete.overdue virtual live mapped fresh e log late, refl, refl), h))
    ]

    after_tokens-IsSafe : {A : Type 0} (r : Synced A) → IsSafe (after_tokens env r)
    unfolding after_tokens
    after_tokens-IsSafe (synced names) = λ log h. h
    after_tokens-IsSafe absent = λ log h. h
    after_tokens-IsSafe broken = λ log h. h

    after_sync-IsSafe : (ok : Bool) → IsSafe (after_sync env virtual physical ok)
    unfolding after_sync
    after_sync-IsSafe false = λ log h. h
    after_sync-IsSafe true =
        if-Keeps (Allowed env namespace name) (physical.node_name == "") _ _
          (λ e. unscheduled-IsSafe e)
          (λ e.
            if-Keeps (Allowed env namespace name) (virtual.spec.service_account == "") _ _
              (λ e1 log h. h)
              (λ e1 log h.
                after_tokens-IsSafe
                  (sync_service_account_tokens md5_hex base64 api config virtual false log).0 _
                  (sync_service_account_tokens-Keeps md5_hex base64 api config virtual
                    (Allowed env namespace name) (λ t. tt) (λ n. tt) (λ s m. (virtual, live, m))
                    false (λ s m. (virtual, live, m)) log h)))

    module _ (pair : IsPair env namespace name virtual physical) where
      patch-IsSafe : (p : Pod Ephemeral) → IsSafe (patch_if_changed env virtual p)
      unfolding patch_if_changed
      patch-IsSafe p =
          if-Keeps (Allowed env namespace name)
            (is_yes (ephemeral_dec p.ephemeral virtual.ephemeral)) _ _ (λ e log h. h)
            (λ e log h. ((virtual, physical, pair, refl), h))

      run_plan-IsSafe :
          (plan : Plan Ephemeral)
          → plan_sync encode decode deadline_dec virtual physical ≡ plan
          → IsSafe (run_plan env virtual plan)
      unfolding run_plan
      run_plan-IsSafe skip e = λ log h. h
      run_plan-IsSafe failure e = λ log h. h
      run_plan-IsSafe (keep p) e = patch-IsSafe p
      run_plan-IsSafe (update p) e = λ log h.
          if-Keeps (Allowed env namespace name) (is_done env (physical_updated log p)) _ _
            (λ e1. patch-IsSafe p) (λ e1 log' h'. h') (update_physical_pod p ∷ log)
            ((virtual, physical, pair, e), h)

    after_mismatch-IsSafe : (ok : Bool) → IsSafe (after_mismatch env virtual physical ok)
    unfolding after_mismatch sync_virtual_pod_metadata_and_spec
    after_mismatch-IsSafe false = λ log h. h
    after_mismatch-IsSafe true =
        if-Keeps (Allowed env namespace name) (virtual.annotations at physical_pod_uid == "") _ _
          (λ e.
            update_virtual-Keeps env namespace name virtual live _
              (MayUpdate.to_linked physical mapped fresh e))
          (λ e log h.
            after_sync-IsSafe (sync_virtual_pod_metadata_and_spec env virtual physical log).0 _ (
              run_plan-IsSafe (live, mapped, fresh, e)
                (plan_sync encode decode deadline_dec virtual physical) refl log h))

  module _ (law : BuilderLaw md5_hex base64 api config builder) (virtual : Pod Ephemeral) where
    with_pair-IsSafe :
        (node : String) (answer : Fetch (Pod Ephemeral))
        → IsLive env namespace name virtual
        → IsChecked env namespace name virtual answer
        → is_system_pod virtual ≡ false
        → is_fake env virtual ≡ false
        → IsSafe (with_pair env virtual node answer)
    unfolding with_pair
    with_pair-IsSafe node failed live c user fake = λ log h. h
    with_pair-IsSafe node missing live c user fake =
        handle_physical_pod_creation-Keeps env namespace name virtual live node law c.0 user fake
    with_pair-IsSafe node (found physical) live c user fake = λ log h.
        elim (Bool-cases (is_stale physical virtual)) [
          | inl stale ↦
              rw (delete_mismatched-result env namespace name virtual physical log, stale)
                (mismatch-IsSafe log h)
          | inr fresh ↦
              after_mismatch-IsSafe virtual physical live mapped fresh
                (delete_mismatched_physical_pod env virtual physical log).0 _
                (mismatch-IsSafe log h)
        ]
      where
        mapped : IsMapped env namespace name virtual (found physical)
        mapped = elim (Bool-cases (has_mapping virtual)) [
          | inl m ↦ c.0 m
          | inr n ↦ absurd (ground (arith, c.1 n))
        ]

        mismatch-IsSafe : IsSafe (delete_mismatched_physical_pod env virtual physical)
        mismatch-IsSafe =
            delete_mismatched-Keeps env namespace name virtual physical
              (λ s. MayDelete.stale virtual live (inl mapped) s)

    if_created-IsSafe :
        (node : String) (creates : Bool)
        → IsLive env namespace name virtual
        → (creates ≡ true → (is_system_pod virtual ≡ false) × (is_fake env virtual ≡ false))
        → IsSafe (if_created env virtual node creates)
    unfolding if_created
    if_created-IsSafe node false live user = λ log h. h
    if_created-IsSafe node true live user = λ log h.
        with_pair-IsSafe node (check_physical_pod_exists env virtual log).0 live
          (check-IsChecked env namespace name virtual log) (user refl).0 (user refl).1 _
          (check-Keeps env namespace name virtual log h)

    if_managed-IsSafe :
        (answer : Managed)
        → virtual_pod [] namespace name ≡ found virtual
        → ((node : String)
            → answer ≡ managed node
            → (log : List (Call Ephemeral)) × (managed_by_node env
                  (virtual_node log virtual.node_name)
                ≡ managed node))
        → IsSafe (if_managed env virtual answer)
    unfolding if_managed
    if_managed-IsSafe unknown seen at_node = λ log h. h
    if_managed-IsSafe elsewhere seen at_node = λ log h. h
    if_managed-IsSafe (managed node') seen at_node =
        if-Keeps (Allowed env namespace name) virtual.deleting _ _
          (λ e. handle_virtual_pod_deletion-Keeps env namespace name virtual (ours, e))
          (λ e log h.
            if_created-IsSafe node' (should_create_physical_pod env virtual log).0 (ours, e)
              (should_create-result env virtual log) _
              (should_create-Keeps env virtual (Allowed env namespace name)
                (quiet-Allowed env namespace name) log h))
      where
        ours : IsOurs env namespace name virtual
        ours = record { seen = seen; node = node'; at_node = at_node node' refl }

  with_virtual-IsSafe :
      BuilderLaw md5_hex base64 api config builder
      → (answer : Fetch (Pod Ephemeral)) → virtual_pod [] namespace name ≡ answer
      → IsSafe (with_virtual env namespace name answer)
  unfolding with_virtual
  with_virtual-IsSafe law failed seen = λ log h. h
  with_virtual-IsSafe law missing seen = handle_virtual_pod_not_found-Keeps env namespace name seen
  with_virtual-IsSafe law (found virtual) seen =
      if-Keeps (Allowed env namespace name) (virtual.node_name == "") _ _ (λ e log h. h)
        (λ e log h.
          if_managed-IsSafe law virtual (should_manage_virtual_pod env virtual log).0 seen
            (λ node m. (log, managed_by_node-result env virtual node log m)) _
            (should_manage-Keeps env virtual (Allowed env namespace name)
              (quiet-Allowed env namespace name) log h))

  -- Every call of the reconciliation of a virtual pod has its reason, whatever the API servers, the
  -- token manager and the clock answer, if each of the builder's own calls is due for the pod.
  -- A virtual pod is deleted at once only if it is being deleted, is on a node of this cluster, and has
  -- no physical pod; a physical pod is deleted only as an orphan, for its virtual pod's deletion, as
  -- stale, or as overdue, and, unless overdue or an orphan, only if it names the virtual pod; one is
  -- created only while its name is recorded and its UID is not, the server has no pod of that name,
  -- and the new pod names the virtual pod; the virtual pod is updated in one of four ways; and a
  -- secret is deleted only as one of the tokens of a virtual pod that is being deleted.
  pub virtual_reconcile-Allowed :
      BuilderLaw md5_hex base64 api config builder
      → All (Allowed env namespace name) (reconcile env namespace name []).1
  unfolding reconcile
  virtual_reconcile-Allowed law =
      with_virtual-IsSafe law (virtual_pod [] namespace name) refl
        (get_virtual_pod namespace name ∷ []) (tt, tt)
