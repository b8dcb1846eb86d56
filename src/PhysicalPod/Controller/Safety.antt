-- ===== src/PhysicalPod/Controller/Safety.antt =====
-- What the controller of physical pods may write: every call of a reconciliation is justified by
-- what the API servers answered.
use kubeocean.Dict.{◌at◌}
use kubeocean.Kube.{Fetch, found, missing, failed, Reply, done, not_found, already_exists, refused}
use kubeocean.PhysicalPod.Defs.{
  Pod, PodStatus, is_kubeocean_managed_pod, has_required_annotations,
  validate_virtual_pod_annotations, virtual_pod_namespace, virtual_pod_name, virtual_pod_uid,
}
use kubeocean.PhysicalPod.Secrets.{
  Api, Call, get_physical_pod, delete_pod, delete_secret, update_status,
  delete_service_account_token_secrets, IsTokenSecret, token_secrets-All,
}
use kubeocean.PhysicalPod.Sync.{build_sync_pod, stamp, is_pods_status_equal}
use kubeocean.PhysicalPod.Controller.{
  reconcile, delete_physical_pod, sync_physical_pod_to_virtual, with_virtual, with_physical,
  after_delete, after_update, after_secrets,
}
use kubeocean.Prelude.{
  ◌≡◌, ◌≢◌, refl, inl, inr, Bool, true, false, List, [], ◌∷◌, String, ◌==◌, All, Bool-cases, of_==,
  to_==,
}

-- The physical pod and the virtual pod name each other, and the UID is the virtual pod's.
pub record IsLinked {Payload : Type 0} (physical virtual : Pod Payload) : Type 0 where
  pub managed : is_kubeocean_managed_pod physical ≡ true
  pub annotated : has_required_annotations physical ≡ true
  pub same_uid : virtual.uid ≡ physical.annotations at virtual_pod_uid
  pub points_back : validate_virtual_pod_annotations virtual physical ≡ true

-- The physical pod has lost its virtual pod, by what the virtual cluster answered.
pub data IsBroken {Payload : Type 0} (physical : Pod Payload) (answer : Fetch (Pod Payload))
    : Type 0 where
  unannotated : has_required_annotations physical ≡ false → IsBroken physical answer
  gone : answer ≡ missing → IsBroken physical answer
  replaced :
      (virtual : Pod Payload)
      → answer ≡ found virtual
      → virtual.uid ≢ physical.annotations at virtual_pod_uid
      → IsBroken physical answer
  astray :
      (virtual : Pod Payload)
      → answer ≡ found virtual
      → validate_virtual_pod_annotations virtual physical ≡ false
      → IsBroken physical answer

clash : {b : Bool} → b ≡ false → b ≡ true → ⊥
clash e f = cc

module _ {Payload : Type 0} (deep_equal : Discrete (PodStatus Payload)) (api : Api Payload)
    (namespace name : String) where
  open api use {physical_pod, virtual_pod, pod_deleted, status_updated, now}

  -- What the virtual cluster answers, after the physical pod was read.
  abbrev virtual_answer : Pod Payload → Fetch (Pod Payload)
  virtual_answer physical =
      virtual_pod (get_physical_pod namespace name ∷ [])
        (physical.annotations at virtual_pod_namespace) (physical.annotations at virtual_pod_name)

  -- When a call is justified. Reads always are.
  abbrev pub Allowed : Call Payload → Type 0
  Allowed (update_status pod) =
      (physical : Pod Payload) × (virtual : Pod Payload) × (time : String) × (physical_pod []
          namespace name
        ≡ found physical)
      × (virtual_answer physical ≡ found virtual)
      × IsLinked physical virtual
      × (is_pods_status_equal deep_equal (build_sync_pod physical virtual) virtual ≡ false)
      × (pod ≡ stamp time (build_sync_pod physical virtual))
  Allowed (delete_pod ns n uid) =
      (physical : Pod Payload) × (physical_pod [] namespace name ≡ found physical)
      × (is_kubeocean_managed_pod physical ≡ true)
      × (physical.deleting ≡ false)
      × IsBroken physical (virtual_answer physical)
      × (ns ≡ physical.namespace)
      × (n ≡ physical.name)
      × (uid ≡ physical.uid)
  Allowed (delete_secret ns secret) =
      (physical : Pod Payload) × (physical_pod [] namespace name ≡ found physical)
      × (is_kubeocean_managed_pod physical ≡ true)
      × (physical.deleting ≡ false)
      × IsBroken physical (virtual_answer physical)
      × (ns ≡ physical.namespace)
      × IsTokenSecret api ns physical.volumes secret
  Allowed _ = Unit

  module _ (physical : Pod Payload) (seen : physical_pod [] namespace name ≡ found physical)
      (managed : is_kubeocean_managed_pod physical ≡ true) where
    after_secrets-Allowed :
        (b : Bool) (log : List (Call Payload))
        → All Allowed log
        → All Allowed (after_secrets deep_equal api b log).1
    unfolding after_secrets
    after_secrets-Allowed true log a = a
    after_secrets-Allowed false log a = a

    after_update-Allowed :
        (r : Reply) (log : List (Call Payload))
        → All Allowed log
        → All Allowed (after_update deep_equal api r log).1
    unfolding after_update
    after_update-Allowed done log a = a
    after_update-Allowed not_found log a = a
    after_update-Allowed already_exists log a = a
    after_update-Allowed refused log a = a

    after_delete-Allowed :
        (r : Reply) (log : List (Call Payload))
        → physical.deleting ≡ false
        → IsBroken physical (virtual_answer physical)
        → All Allowed log
        → All Allowed (after_delete deep_equal api physical r log).1
    unfolding after_delete after_secrets
    after_delete-Allowed refused log d b a = a
    after_delete-Allowed already_exists log d b a = a
    after_delete-Allowed done log d b a =
        after_secrets-Allowed
          (delete_service_account_token_secrets api physical.namespace physical.volumes log).0 _
          (token_secrets-All api physical.namespace Allowed (λ n. tt) physical.volumes log
            (λ n t. (physical, seen, managed, d, b, refl, t)) a)
    after_delete-Allowed not_found log d b a =
        after_secrets-Allowed
          (delete_service_account_token_secrets api physical.namespace physical.volumes log).0 _
          (token_secrets-All api physical.namespace Allowed (λ n. tt) physical.volumes log
            (λ n t. (physical, seen, managed, d, b, refl, t)) a)

    delete_physical_pod-Allowed :
        (log : List (Call Payload))
        → IsBroken physical (virtual_answer physical)
        → All Allowed log
        → All Allowed (delete_physical_pod deep_equal api physical log).1
    unfolding delete_physical_pod
    delete_physical_pod-Allowed log b a = elim (Bool-cases physical.deleting) [
      | inl e ↦ rw e a
      | inr e ↦ rw e (
          after_delete-Allowed (pod_deleted log physical.namespace physical.name physical.uid)
            (delete_pod physical.namespace physical.name physical.uid ∷ log) e b
            ((physical, seen, managed, e, b, refl, refl, refl), a))
    ]

    sync-Allowed :
        (virtual : Pod Payload) (log : List (Call Payload))
        → virtual_answer physical ≡ found virtual
        → IsLinked physical virtual
        → All Allowed log
        → All Allowed (sync_physical_pod_to_virtual deep_equal api physical virtual log).1
    unfolding sync_physical_pod_to_virtual
    sync-Allowed virtual log e l a =
        elim (Bool-cases
          (is_pods_status_equal deep_equal (build_sync_pod physical virtual) virtual)) [
            | inl same ↦ rw same a
            | inr differs ↦ rw differs (
                after_update-Allowed (status_updated _ _) _
                  ((physical, virtual, now log, seen, e, l, differs, refl), a))
          ]

    with_virtual-Allowed :
        (answer : Fetch (Pod Payload)) (log : List (Call Payload))
        → has_required_annotations physical ≡ true
        → virtual_answer physical ≡ answer
        → All Allowed log
        → All Allowed (with_virtual deep_equal api physical answer log).1
    unfolding with_virtual
    with_virtual-Allowed failed log q e a = a
    with_virtual-Allowed missing log q e a = delete_physical_pod-Allowed log (IsBroken.gone e) a
    with_virtual-Allowed (found virtual) log q e a =
        elim (Bool-cases (virtual.uid == (physical.annotations at virtual_pod_uid))) [
          | inr other ↦ rw other (
              delete_physical_pod-Allowed log
                (IsBroken.replaced virtual e (λ same. clash other (to_== _ _ same))) a)
          | inl same ↦
              rw same (elim (Bool-cases (validate_virtual_pod_annotations virtual physical)) [
                | inr off ↦
                    rw off (delete_physical_pod-Allowed log (IsBroken.astray virtual e off) a)
                | inl back ↦ rw back (
                    sync-Allowed virtual log e
                      (record {
                        managed = managed;
                        annotated = q;
                        same_uid = of_== _ _ same;
                        points_back = back;
                      })
                      a)
              ])
        ]

  with_physical-Allowed :
      (answer : Fetch (Pod Payload))
      → physical_pod [] namespace name ≡ answer
      → All Allowed (with_physical deep_equal api answer (get_physical_pod namespace name ∷ [])).1
  unfolding with_physical
  with_physical-Allowed missing e = (tt, tt)
  with_physical-Allowed failed e = (tt, tt)
  with_physical-Allowed (found physical) e = elim (Bool-cases (is_kubeocean_managed_pod physical)) [
    | inr other ↦ rw other (tt, tt)
    | inl managed ↦ rw managed (elim (Bool-cases (has_required_annotations physical)) [
      | inr bare ↦
          rw bare
            (delete_physical_pod-Allowed physical e managed _ (IsBroken.unannotated bare) (tt, tt))
      | inl annotated ↦ rw annotated (
          with_virtual-Allowed physical e managed (virtual_answer physical) _ annotated refl
            (tt, (tt, tt)))
    ])
  ]

  -- Every call of a reconciliation is justified, whatever the API servers answer. A virtual pod is
  -- updated only by a managed physical pod that it is linked to, both ways and by UID, only where
  -- it differs, and only to the state that is built from the two. A physical pod is deleted only
  -- if it is managed, not already being deleted and found broken by a definite answer, and by its
  -- own UID. A secret is deleted only for such a pod, which the same four conditions hold of, in the
  -- pod's namespace, by one of its token volumes, and only if it is labelled as a service-account
  -- token.
  pub reconcile-Allowed : All Allowed (reconcile deep_equal api namespace name []).1
  unfolding reconcile
  reconcile-Allowed = with_physical-Allowed (physical_pod [] namespace name) refl
