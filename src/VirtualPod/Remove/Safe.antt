-- ===== src/VirtualPod/Remove/Safe.antt =====
-- What the deletion of virtual and physical pods calls.
use kubeocean.Dict.{◌at◌}
use kubeocean.Effect.Keeps.{Keeps, if-Keeps}
use kubeocean.Kube.{Fetch, found, missing, failed, Reply, done, not_found, already_exists, refused}
use kubeocean.Names.{generate_physical_resource_name}
use kubeocean.PhysicalPod.Defs.{physical_pod_namespace, physical_pod_name}
use kubeocean.Prelude.{
  ◌≡◌, refl, Bool, true, false, not, List, [], ◌∷◌, String, ◌==◌, arith, if◌then◌else◌,
}
use kubeocean.VirtualPod.Allowed.{
  IsQuiet, IsDue, IsMapped, IsGenerated, IsLive, IsDying, MayGo, MayDelete, MayUpdate, Allowed,
}
use kubeocean.VirtualPod.Build.{Env, get_physical_pod_with_fallback}
use kubeocean.VirtualPod.Build.Safe.{fallback-IsRead, fallback-Keeps}
use kubeocean.VirtualPod.Checks.{is_stale, names_virtual_pod, has_mapping}
use kubeocean.VirtualPod.Defs.{
  Pod, Call, get_virtual_pod, get_cached_pod, get_direct_pod, get_replica_set, get_virtual_node,
  get_cluster_binding, force_delete_virtual_pod, update_virtual_status, create_physical_pod,
  update_physical_pod, patch_ephemeral, delete_physical_pod, get_secret, delete_secret,
  create_secret, update_secret, get_token, forget_tokens, forget_config_maps, forget_secrets,
  record_event, need_config_maps, need_secrets, get_resource, get_cached_resource,
  get_direct_resource, update_resource, create_resource, get_service, get_binding,
  get_priority_class, create_priority_class,
}
use kubeocean.VirtualPod.Remove.{
  gone_outcome, delete_unless_deleting, force_delete, update_virtual, with_deleted, after_cleanup,
  handle_virtual_pod_deletion, with_orphan, handle_virtual_pod_not_found, check_physical_pod_exists,
  delete_mismatched_physical_pod,
}
use kubeocean.VirtualPod.Tokens.{cleanup_service_account_token}
use kubeocean.VirtualPod.Tokens.Safe.{cleanup_service_account_token-Keeps}

pub positive : (b : Bool) → not b ≡ false → b ≡ true
positive true e = refl
positive false e = absurd (ground (arith, e))

pub negative : (b : Bool) → not b ≡ true → b ≡ false
negative true e = absurd (ground (arith, e))
negative false e = refl

module _ {Ephemeral : Type 0} (env : Env Ephemeral) (namespace name : String) where
  open env use {md5_hex, base64, config, api}
  open config use {mount_namespace}
  open api use {virtual_pod, cached_pod, direct_pod, physical_deleted, virtual_deleted}

  -- A quiet call needs no reason.
  pub quiet-Allowed : (c : Call Ephemeral) → IsQuiet c → Allowed env namespace name c
  quiet-Allowed (get_virtual_pod ns n) q = tt
  quiet-Allowed (get_cached_pod ns n) q = tt
  quiet-Allowed (get_direct_pod ns n) q = tt
  quiet-Allowed (get_replica_set ns n) q = tt
  quiet-Allowed (get_virtual_node n) q = tt
  quiet-Allowed (get_cluster_binding n) q = tt
  quiet-Allowed (force_delete_virtual_pod ns n uid) q = absurd q
  quiet-Allowed (update_virtual_status pod) q = absurd q
  quiet-Allowed (create_physical_pod pod) q = absurd q
  quiet-Allowed (update_physical_pod pod) q = absurd q
  quiet-Allowed (patch_ephemeral pod) q = absurd q
  quiet-Allowed (delete_physical_pod ns n) q = absurd q
  quiet-Allowed (get_secret ns n) q = tt
  quiet-Allowed (delete_secret ns n) q = absurd q
  quiet-Allowed (create_secret s) q = absurd q
  quiet-Allowed (update_secret s) q = absurd q
  quiet-Allowed (get_token ns n t p uid) q = tt
  quiet-Allowed (forget_tokens uid) q = tt
  quiet-Allowed (forget_config_maps ns n) q = tt
  quiet-Allowed (forget_secrets ns n) q = tt
  quiet-Allowed (record_event e) q = tt
  quiet-Allowed (need_config_maps ns n r) q = tt
  quiet-Allowed (need_secrets ns n r) q = tt
  quiet-Allowed (get_resource k ns n) q = tt
  quiet-Allowed (get_cached_resource k ns n) q = tt
  quiet-Allowed (get_direct_resource k ns n) q = tt
  quiet-Allowed (update_resource k r) q = absurd q
  quiet-Allowed (create_resource k r) q = absurd q
  quiet-Allowed (get_service ns n) q = tt
  quiet-Allowed (get_binding n) q = tt
  quiet-Allowed (get_priority_class n) q = tt
  quiet-Allowed (create_priority_class n) q = absurd q

  -- What is due for the pod while it is live has its reason.
  pub due-Allowed :
      (virtual : Pod Ephemeral)
      → IsLive env namespace name virtual
      → (c : Call Ephemeral) → IsDue md5_hex base64 api config virtual c
      → Allowed env namespace name c
  due-Allowed virtual live c (IsDue.harmless _ q) = quiet-Allowed c q
  due-Allowed virtual live c (IsDue.marked kind r m) = (virtual, live, m)
  due-Allowed virtual live c (IsDue.made kind r m) = (virtual, live, m)
  due-Allowed virtual live c (IsDue.stored t m) = (virtual, live, m)
  due-Allowed virtual live c (IsDue.refreshed t m) = (virtual, live, m)
  due-Allowed virtual live c (IsDue.added n m) = (virtual, live, m)

  gone_outcome-Keeps : (r : Reply) → Keeps (Allowed env namespace name) (gone_outcome env r)
  gone_outcome-Keeps done = λ log h. h
  gone_outcome-Keeps not_found = λ log h. h
  gone_outcome-Keeps already_exists = λ log h. h
  gone_outcome-Keeps refused = λ log h. h

  delete_unless_deleting-Keeps :
      (physical : Pod Ephemeral)
      → (physical.deleting ≡ false → MayDelete env namespace name physical)
      → Keeps (Allowed env namespace name) (delete_unless_deleting env physical)
  unfolding delete_unless_deleting
  delete_unless_deleting-Keeps physical why =
      if-Keeps (Allowed env namespace name) physical.deleting _ _ (λ e log h. h)
        (λ e log h.
          gone_outcome-Keeps (physical_deleted log physical.namespace physical.name)
            (delete_physical_pod physical.namespace physical.name ∷ log)
            ((physical, why e, refl, refl), h))

  force_delete-Keeps :
      (virtual : Pod Ephemeral)
      → IsDying env namespace name virtual
      → MayGo env namespace name virtual
      → Keeps (Allowed env namespace name) (force_delete env virtual)
  unfolding force_delete
  force_delete-Keeps virtual d g log h =
      gone_outcome-Keeps (virtual_deleted log virtual.namespace virtual.name virtual.uid)
        (force_delete_virtual_pod virtual.namespace virtual.name virtual.uid ∷ log)
        ((virtual, d, g, refl, refl, refl), h)

  with_deleted-Keeps :
      (virtual : Pod Ephemeral) (answer : Fetch (Pod Ephemeral))
      → IsDying env namespace name virtual
      → IsMapped env namespace name virtual answer
      → Keeps (Allowed env namespace name) (with_deleted env virtual answer)
  unfolding with_deleted
  with_deleted-Keeps virtual failed d m = λ log h. h
  with_deleted-Keeps virtual missing d m = force_delete-Keeps virtual d (MayGo.lost m)
  with_deleted-Keeps virtual (found physical) d m =
      if-Keeps (Allowed env namespace name) (names_virtual_pod physical virtual) _ _
        (λ e. delete_unless_deleting-Keeps physical (λ l. MayDelete.deleted virtual d m e l))
        (λ e. force_delete-Keeps virtual d (MayGo.foreign physical m e))

  after_cleanup-Keeps :
      (virtual : Pod Ephemeral) (ok : Bool)
      → IsDying env namespace name virtual
      → Keeps (Allowed env namespace name) (after_cleanup env virtual ok)
  unfolding after_cleanup
  after_cleanup-Keeps virtual false d = λ log h. h
  after_cleanup-Keeps virtual true d =
      if-Keeps (Allowed env namespace name) (not (has_mapping virtual)) _ _
        (λ e. force_delete-Keeps virtual d (MayGo.unmapped (negative _ e)))
        (λ e log h.
          let ns = virtual.annotations at physical_pod_namespace in
          let n = virtual.annotations at physical_pod_name in
          with_deleted-Keeps virtual (get_physical_pod_with_fallback env ns n log).0 d
            (positive _ e, fallback-IsRead env ns n namespace name log) _
            (fallback-Keeps env (Allowed env namespace name) quiet-Allowed ns n log h))

  pub handle_virtual_pod_deletion-Keeps :
      (virtual : Pod Ephemeral)
      → IsDying env namespace name virtual
      → Keeps (Allowed env namespace name) (handle_virtual_pod_deletion env virtual)
  unfolding handle_virtual_pod_deletion
  handle_virtual_pod_deletion-Keeps virtual d log h =
      after_cleanup-Keeps virtual
        (cleanup_service_account_token md5_hex base64 api config virtual log).0 d _
        (cleanup_service_account_token-Keeps md5_hex base64 api config virtual
          (Allowed env namespace name) tt (λ n t. (virtual, d, refl, t)) log h)

  with_orphan-Keeps :
      (answer : Fetch (Pod Ephemeral))
      → virtual_pod [] namespace name ≡ missing
      → IsGenerated env namespace name namespace name answer
      → Keeps (Allowed env namespace name) (with_orphan env answer)
  unfolding with_orphan
  with_orphan-Keeps missing v g = λ log h. h
  with_orphan-Keeps failed v g = λ log h. h
  with_orphan-Keeps (found physical) v g =
      delete_unless_deleting-Keeps physical (λ l. MayDelete.orphan v g l)

  pub handle_virtual_pod_not_found-Keeps :
      virtual_pod [] namespace name ≡ missing
      → Keeps (Allowed env namespace name) (handle_virtual_pod_not_found env namespace name)
  unfolding handle_virtual_pod_not_found
  handle_virtual_pod_not_found-Keeps v log h =
      if-Keeps (Allowed env namespace name) (mount_namespace == "") _ _ (λ e log' h'. h')
        (λ e log' h'.
          let n = generate_physical_resource_name md5_hex name namespace in
          with_orphan-Keeps (get_physical_pod_with_fallback env mount_namespace n log').0 v
            (fallback-IsRead env mount_namespace n namespace name log') _
            (fallback-Keeps env (Allowed env namespace name) quiet-Allowed mount_namespace n log'
              h'))
        (forget_secrets namespace name ∷ forget_config_maps namespace name ∷ log) (tt, (tt, h))

  pub delete_mismatched-Keeps :
      (virtual physical : Pod Ephemeral)
      → (is_stale physical virtual ≡ true → MayDelete env namespace name physical)
      → Keeps (Allowed env namespace name) (delete_mismatched_physical_pod env virtual physical)
  unfolding delete_mismatched_physical_pod
  delete_mismatched-Keeps virtual physical why =
      if-Keeps (Allowed env namespace name) (not (is_stale physical virtual)) _ _ (λ e log h. h)
        (λ e log h. ((physical, why (positive _ e), refl, refl), h))

  pub update_virtual-Keeps :
      (virtual : Pod Ephemeral)
      → IsLive env namespace name virtual
      → (pod : Pod Ephemeral) → MayUpdate env namespace name virtual pod
      → Keeps (Allowed env namespace name) (update_virtual env pod)
  unfolding update_virtual
  update_virtual-Keeps virtual live pod u log h = ((virtual, live, u), h)

  -- What is known of the answer to the check that the physical pod exists.
  abbrev pub IsChecked : Pod Ephemeral → Fetch (Pod Ephemeral) → Type 0
  IsChecked virtual answer =
      (has_mapping virtual ≡ true → IsMapped env namespace name virtual answer)
      × (has_mapping virtual ≡ false → answer ≡ missing)

  pub check-IsChecked :
      (virtual : Pod Ephemeral) (log : List (Call Ephemeral))
      → IsChecked virtual (check_physical_pod_exists env virtual log).0
  check-IsChecked virtual log = by_mapping (has_mapping virtual) refl
    where
      by_mapping :
          (b : Bool)
          → has_mapping virtual ≡ b
          → (has_mapping virtual ≡ true
              → IsMapped env namespace name virtual
                  ((if not b
                      then kubeocean.Effect.return missing
                      else get_physical_pod_with_fallback env
                          (virtual.annotations at physical_pod_namespace)
                          (virtual.annotations at physical_pod_name))
                    log).0)
            × (has_mapping virtual ≡ false
                → ((if not b
                      then kubeocean.Effect.return missing
                      else get_physical_pod_with_fallback env
                          (virtual.annotations at physical_pod_namespace)
                          (virtual.annotations at physical_pod_name))
                    log).0
                  ≡ missing)
      by_mapping true m = (
        (λ e. (e, fallback-IsRead env _ _ namespace name log)),
        (λ e. absurd (ground (arith, m, e))),
      )
      by_mapping false m = ((λ e. absurd (ground (arith, m, e))), (λ e. refl))

  pub check-Keeps :
      (virtual : Pod Ephemeral)
      → Keeps (Allowed env namespace name) (check_physical_pod_exists env virtual)
  check-Keeps virtual =
      if-Keeps (Allowed env namespace name) (not (has_mapping virtual)) _ _ (λ e log h. h)
        (λ e. fallback-Keeps env (Allowed env namespace name) quiet-Allowed _ _)

  -- The reconciliation goes on only with a pod that is not stale.
  pub delete_mismatched-result :
      (virtual physical : Pod Ephemeral) (log : List (Call Ephemeral))
      → (delete_mismatched_physical_pod env virtual physical log).0
        ≡ not (is_stale physical virtual)
  unfolding delete_mismatched_physical_pod
  delete_mismatched-result virtual physical log = by_test (is_stale physical virtual)
    where
      by_test :
          (b : Bool)
          → ((if not b
                then kubeocean.Effect.return true
                else (λ l. (false, delete_physical_pod physical.namespace physical.name ∷ l)))
              log).0
            ≡ not b
      by_test true = refl
      by_test false = refl
