-- ===== src/VirtualPod/Build/Safe.antt =====
-- What the creation of a physical pod and the reads before it call.
use kubeocean.Dict.{lookup-insert, ◌at◌}
use kubeocean.Effect.Keeps.{Keeps, if-Keeps}
use kubeocean.Kube.{Fetch, found, missing, failed, Reply, done, not_found, already_exists, refused}
use kubeocean.PhysicalPod.Defs.{virtual_pod_namespace, virtual_pod_name, virtual_pod_uid}
use kubeocean.Prelude.{
  ◌≡◌, refl, inl, inr, Option, none, some, List, [], ◌∷◌, true, String, str_dec, ◌==◌, to_==,
}
use kubeocean.VirtualPod.Allowed.{IsQuiet, IsDue, BuilderLaw, IsRead}
use kubeocean.VirtualPod.Build.{
  Env, build_physical_pod_annotations, physical_pod_of, after_cached,
  get_physical_pod_with_fallback, owner_workload, get_workload_info, after_create, with_workload,
  with_spec, with_mapping, create_pod,
}
use kubeocean.VirtualPod.Checks.{is_physical_pod_owned}
use kubeocean.VirtualPod.Defs.{
  Owner, Pod, Call, get_cached_pod, get_direct_pod, get_replica_set, create_physical_pod,
}
use kubeocean.VirtualPod.Spec.{Spec, ResourceMapping}

module _ {Ephemeral : Type 0} (env : Env Ephemeral) where
  open env use {md5_hex, base64, config, api, builder}
  open api use {cached_pod, direct_pod, physical_created, replica_set}
  open builder use {sync_dependent_resources, build_physical_pod_spec}

  annotated :
      (virtual : Pod Ephemeral)
      → let m = build_physical_pod_annotations env virtual in
        (m at virtual_pod_namespace ≡ virtual.namespace)
        × (m at virtual_pod_name ≡ virtual.name)
        × (m at virtual_pod_uid ≡ virtual.uid)
  unfolding build_physical_pod_annotations str_dec
  annotated virtual = (simp lookup-insert, simp lookup-insert, simp lookup-insert)

  pub physical_pod_of-owned :
      (virtual : Pod Ephemeral) (built : String × Spec) (workload : String × String)
      → is_physical_pod_owned (physical_pod_of env virtual built workload) virtual ≡ true
  physical_pod_of-owned virtual built workload =
      let (a, b, c) = annotated virtual in rw (to_== _ _ a, to_== _ _ b, to_== _ _ c) refl

  -- What the fallback answers was read.
  after_cached-IsRead :
      (ns n namespace name : String) (answer : Fetch (Pod Ephemeral))
      (log log' : List (Call Ephemeral))
      → cached_pod log' ns n ≡ answer
      → IsRead env namespace name ns n (after_cached env ns n answer log).0
  unfolding after_cached
  after_cached-IsRead ns n namespace name (found pod) log log' e = (log', inl e)
  after_cached-IsRead ns n namespace name failed log log' e = tt
  after_cached-IsRead ns n namespace name missing log log' e = by_direct (direct_pod log ns n) refl
    where
      by_direct :
          (a : Fetch (Pod Ephemeral)) → direct_pod log ns n ≡ a → IsRead env namespace name ns n a
      by_direct (found pod) d = (log, inr d)
      by_direct missing d = (log, d)
      by_direct failed d = tt

  pub fallback-IsRead :
      (ns n namespace name : String) (log : List (Call Ephemeral))
      → IsRead env namespace name ns n (get_physical_pod_with_fallback env ns n log).0
  unfolding get_physical_pod_with_fallback
  fallback-IsRead ns n namespace name log =
      after_cached-IsRead ns n namespace name (cached_pod log ns n) _ log refl

  module _ (P : Call Ephemeral → Type 0) (quiet : (c : Call Ephemeral) → IsQuiet c → P c) where
    after_cached-Keeps :
        (ns n : String) (answer : Fetch (Pod Ephemeral)) → Keeps P (after_cached env ns n answer)
    unfolding after_cached
    after_cached-Keeps ns n (found pod) = λ log h. h
    after_cached-Keeps ns n failed = λ log h. h
    after_cached-Keeps ns n missing = λ log h. (quiet (get_direct_pod ns n) tt, h)

    pub fallback-Keeps : (ns n : String) → Keeps P (get_physical_pod_with_fallback env ns n)
    unfolding get_physical_pod_with_fallback
    fallback-Keeps ns n log h =
        after_cached-Keeps ns n (cached_pod log ns n) (get_cached_pod ns n ∷ log)
          (quiet (get_cached_pod ns n) tt, h)

    owner_workload-Keeps :
        (namespace : String) (owners : List Owner) → Keeps P (owner_workload env namespace owners)
    unfolding owner_workload
    owner_workload-Keeps namespace [] = λ log h. h
    owner_workload-Keeps namespace (o ∷ owners) =
        if-Keeps P (o.kind == "ReplicaSet") _ _
          (λ e log h. (quiet (get_replica_set namespace o.name) tt, h)) (λ e log h. h)

    after_create-Keeps : (ns n : String) (reply : Reply) → Keeps P (after_create env ns n reply)
    unfolding after_create
    after_create-Keeps ns n done = λ log h. h
    after_create-Keeps ns n already_exists = λ log h. fallback-Keeps ns n log h
    after_create-Keeps ns n not_found = λ log h. h
    after_create-Keeps ns n refused = λ log h. h

    module _ (virtual : Pod Ephemeral)
        (creates : (built : String × Spec) (workload : String × String)
          → P (create_physical_pod (physical_pod_of env virtual built workload)))
        (due : (c : Call Ephemeral) → IsDue md5_hex base64 api config virtual c → P c) where
      with_workload-Keeps :
          (built : String × Spec) (workload : Option (String × String))
          → Keeps P (with_workload env virtual built workload)
      unfolding with_workload
      with_workload-Keeps built none = λ log h. h
      with_workload-Keeps built (some workload) = λ log h.
          after_create-Keeps _ _ (physical_created log (physical_pod_of env virtual built workload))
            _ (creates built workload, h)

      with_spec-Keeps : (built : Option (String × Spec)) → Keeps P (with_spec env virtual built)
      unfolding with_spec get_workload_info
      with_spec-Keeps none = λ log h. h
      with_spec-Keeps (some built) = λ log h.
          with_workload-Keeps built (get_workload_info env virtual log).0 _
            (owner_workload-Keeps virtual.namespace virtual.owners log h)

      module _ (law : BuilderLaw md5_hex base64 api config builder) where
        with_mapping-Keeps :
            (node : String) (mapping : Option ResourceMapping)
            → Keeps P (with_mapping env virtual node mapping)
        unfolding with_mapping
        with_mapping-Keeps node none = λ log h. h
        with_mapping-Keeps node (some mapping) = λ log h.
            with_spec-Keeps (build_physical_pod_spec virtual node mapping log).0 _
              (law.spec virtual node mapping P due log h)

        pub create_pod-Keeps : (node : String) → Keeps P (create_pod env virtual node)
        unfolding create_pod
        create_pod-Keeps node log h =
            with_mapping-Keeps node (sync_dependent_resources virtual log).0 _
              (law.dependents virtual P due log h)
