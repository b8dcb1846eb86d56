-- ===== src/VirtualPod/Create/Safe.antt =====
-- What the mapping and the creation of a physical pod call.
use kubeocean.Dict.{◌at◌}
use kubeocean.Effect.Keeps.{Keeps, if-Keeps}
use kubeocean.Kube.{Fetch, found, missing, failed}
use kubeocean.Names.{generate_physical_resource_name}
use kubeocean.PhysicalPod.Defs.{physical_pod_name, physical_pod_uid}
use kubeocean.Prelude.{◌≡◌, refl, inr, Bool, true, false, not, ◌&&◌, String, ◌==◌, ◌≠?◌, arith}
use kubeocean.VirtualPod.Allowed.{
  BuilderLaw, IsMapped, IsGenerated, IsLive, MayDelete, MayUpdate, MayCreate, Allowed,
}
use kubeocean.VirtualPod.Build.{Env, create_pod, get_physical_pod_with_fallback}
use kubeocean.VirtualPod.Build.Safe.{
  physical_pod_of-owned, fallback-IsRead, fallback-Keeps, create_pod-Keeps,
}
use kubeocean.VirtualPod.Checks.{
  is_system_pod, is_physical_pod_owned, has_mapping, label_host_port_fake_pod,
}
use kubeocean.VirtualPod.Create.{
  with_existing, generate_physical_pod_mapping, after_creation, handle_physical_pod_creation,
}
use kubeocean.VirtualPod.Defs.{Pod}
use kubeocean.VirtualPod.Remove.Safe.{
  quiet-Allowed, due-Allowed, update_virtual-Keeps, delete_mismatched-Keeps,
}

and_true : (a b : Bool) → (a && b) ≡ true → (a ≡ true) × (b ≡ true)
and_true true b e = (refl, e)
and_true false b e = absurd (ground (arith, e))

module _ {Ephemeral : Type 0} (env : Env Ephemeral) (namespace name : String)
    (virtual : Pod Ephemeral) (live : IsLive env namespace name virtual) where
  open env use {md5_hex, base64, api, config}
  open config use {mount_namespace}

  module _ (unnamed : (virtual.annotations at physical_pod_name == "") ≡ true)
      (unrecorded : (virtual.annotations at physical_pod_uid == "") ≡ true) where
    with_existing-Keeps :
        (answer : Fetch (Pod Ephemeral))
        → IsGenerated env namespace name virtual.namespace virtual.name answer
        → Keeps (Allowed env namespace name) (with_existing env virtual answer)
    unfolding with_existing
    with_existing-Keeps failed g = λ log h. h
    with_existing-Keeps missing g =
        update_virtual-Keeps env namespace name virtual live _
          (MayUpdate.to_mapped unnamed unrecorded g)
    with_existing-Keeps (found existing) g =
        if-Keeps (Allowed env namespace name) (is_physical_pod_owned existing virtual) _ _
          (λ e.
            update_virtual-Keeps env namespace name virtual live _
              (MayUpdate.to_recorded existing g e))
          (λ e.
            delete_mismatched-Keeps env namespace name virtual existing
              (λ s. MayDelete.stale virtual live (inr g) s))

    generate_physical_pod_mapping-Keeps :
        Keeps (Allowed env namespace name) (generate_physical_pod_mapping env virtual)
    unfolding generate_physical_pod_mapping
    generate_physical_pod_mapping-Keeps =
        if-Keeps (Allowed env namespace name) (mount_namespace == "") _ _ (λ e log h. h)
          (λ e log h.
            let n = generate_physical_resource_name md5_hex virtual.name virtual.namespace in
            with_existing-Keeps (get_physical_pod_with_fallback env mount_namespace n log).0
              (fallback-IsRead env mount_namespace n namespace name log) _
              (fallback-Keeps env (Allowed env namespace name) (quiet-Allowed env namespace name)
                mount_namespace n log h))

  after_creation-Keeps : (ok : Bool) → Keeps (Allowed env namespace name) (after_creation env ok)
  unfolding after_creation
  after_creation-Keeps true = λ log h. h
  after_creation-Keeps false = λ log h. (tt, h)

  -- Only where the physical pod is missing is this called: by its mapping, or as there is none.
  pub handle_physical_pod_creation-Keeps :
      (node : String)
      → BuilderLaw md5_hex base64 api config (env.builder)
      → (has_mapping virtual ≡ true → IsMapped env namespace name virtual missing)
      → is_system_pod virtual ≡ false
      → (virtual.labels at label_host_port_fake_pod == "true") ≡ false
      → Keeps (Allowed env namespace name) (handle_physical_pod_creation env virtual node)
  unfolding handle_physical_pod_creation
  handle_physical_pod_creation-Keeps node law gone user no_fake =
      if-Keeps (Allowed env namespace name)
        (has_mapping virtual && virtual.annotations at physical_pod_uid ≠? "") _ _
        (λ e.
          let (m, u) = and_true (has_mapping virtual) _ e in
          update_virtual-Keeps env namespace name virtual live _
            (MayUpdate.to_failed (gone m) (ne _ u)))
        (λ e.
          if-Keeps (Allowed env namespace name)
            (virtual.annotations at physical_pod_uid == ""
              && virtual.annotations at physical_pod_name == "")
            _ _
            (λ e1.
              let (u, n) = and_true (virtual.annotations at physical_pod_uid == "") _ e1 in
              generate_physical_pod_mapping-Keeps n u)
            (λ e1.
              if-Keeps (Allowed env namespace name)
                (virtual.annotations at physical_pod_uid == "" && has_mapping virtual) _ _
                (λ e2.
                  let (u, m) = and_true (virtual.annotations at physical_pod_uid == "") _ e2 in
                  λ log h. after_creation-Keeps (create_pod env virtual node log).0 _ (
                    create_pod-Keeps env (Allowed env namespace name)
                      (quiet-Allowed env namespace name) virtual
                      (λ built workload. (virtual, made u m built workload))
                      (due-Allowed env namespace name virtual live) law node log h))
                (λ e2 log h. h)))
    where
      ne : (b : Bool) → not b ≡ true → b ≡ false
      ne b e = ground (arith, e)

      made :
          (virtual.annotations at physical_pod_uid == "") ≡ true
          → has_mapping virtual ≡ true
          → (built : String × kubeocean.VirtualPod.Spec.Spec) (workload : String × String)
          → MayCreate env namespace name virtual
              (kubeocean.VirtualPod.Build.physical_pod_of env virtual built workload)
      made u m built workload = record {
        live = live;
        absent = gone m;
        unrecorded = u;
        user_pod = user;
        no_fake = no_fake;
        at_namespace = refl;
        at_name = refl;
        owned = physical_pod_of-owned env virtual built workload;
      }
