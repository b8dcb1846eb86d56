-- ===== src/VirtualPod/Resources/Safe.antt =====
-- The calls of the synchronisation of resources are quiet, or have their reason.
use kubeocean.Dict.{StrMap}
use kubeocean.Effect.Keeps.{Keeps, if-Keeps}
use kubeocean.Kube.{Meta, Fetch, found, missing, failed}
use kubeocean.Names.{generate_physical_resource_name}
use kubeocean.Prelude.{
  ◌≡◌, refl, inl, inr, List, Bool, true, false, not, Option, none, some, [], ◌∷◌, String, ◌==◌,
}
use kubeocean.Synced.Marks.{Change, unchanged, clashing, write, update_virtual_resource}
use kubeocean.Synced.Physical.{ResourceType, secret, pvc, pv}
use kubeocean.Synced.Resource.{Resource, Opt, no_opt, build_physical_resource}
use kubeocean.VirtualPod.Allowed.{IsQuiet}
use kubeocean.VirtualPod.Defs.{
  Call, get_resource, get_cached_resource, get_direct_resource, update_resource, create_resource,
  Api, Config,
}
use kubeocean.VirtualPod.Resources.{
  after_cached_resource, check_physical_resource, run_change, create_built,
  create_physical_resource, mark_and_create, with_physical_resource, with_virtual_resource,
  sync_resource, sync_named, add_synced, sync_refs, with_csi_secret, with_secret_ref, with_pv,
  sync_pv, with_physical_pv, with_pvc, sync_pvc, add_claim, sync_claims, is_owned, direct_namespace,
}
use kubeocean.VirtualPod.Reasons.{IsAbsent, IsShown, IsFree, IsVirtual, MayMark, MayMake}
use kubeocean.VirtualPod.Spec.{Required}
use kubeocean.VirtualPod.Tokens.{Synced, synced, absent, broken}

module _ {Ephemeral : Type 0} (md5_hex base64 : String → String) (api : Api Ephemeral)
    (config : Config) (P : Call Ephemeral → Type 0) (quiet : (c : Call Ephemeral) → IsQuiet c → P c)
    (marks : (kind : ResourceType) (r : Resource Ephemeral)
      → MayMark md5_hex base64 api config kind r
      → P (update_resource kind r))
    (makes : (kind : ResourceType) (r : Resource Ephemeral)
      → MayMake md5_hex base64 api config kind r
      → P (create_resource kind r)) where
  open api use {resource, cached_resource, direct_resource}
  open config use {cluster_id, mount_namespace}

  after_cached_resource-Keeps :
      (kind : ResourceType) (ns n : String) (answer : Fetch (Resource Ephemeral))
      → Keeps P (after_cached_resource md5_hex api config kind ns n answer)
  unfolding after_cached_resource
  after_cached_resource-Keeps kind ns n missing =
      λ log h. (quiet (get_direct_resource kind (direct_namespace kind ns) n) tt, h)
  after_cached_resource-Keeps kind ns n failed = λ log h. h
  after_cached_resource-Keeps kind ns n (found r) = λ log h. h

  check-Keeps :
      (kind : ResourceType) (ns n : String)
      → Keeps P (check_physical_resource md5_hex api config kind ns n)
  unfolding check_physical_resource
  check-Keeps kind ns n log h =
      after_cached_resource-Keeps kind ns n (cached_resource log kind ns n) _
        (quiet (get_cached_resource kind ns n) tt, h)

  -- The answer of the check, as it was given.
  abbrev IsChecked : ResourceType → String → String → Fetch (Resource Ephemeral) → Type 0
  IsChecked kind namespace name (found physical) =
      IsShown md5_hex base64 api config kind namespace name physical
  IsChecked kind namespace name missing = IsAbsent md5_hex base64 api config kind namespace name
  IsChecked kind namespace name failed = Unit

  check-IsChecked :
      (kind : ResourceType) (ns n : String) (log : List (Call Ephemeral))
      → IsChecked kind ns n (check_physical_resource md5_hex api config kind ns n log).0
  unfolding check_physical_resource after_cached_resource
  check-IsChecked kind ns n log = by_cache (cached_resource log kind ns n) refl
    where
      asked : List (Call Ephemeral)
      asked = get_cached_resource kind ns n ∷ log

      by_server :
          (a : Fetch (Resource Ephemeral))
          → direct_resource asked kind (direct_namespace kind ns) n ≡ a
          → IsChecked kind ns n a
      by_server (found p) e = (asked, inr e)
      by_server missing e = (asked, e)
      by_server failed e = tt

      by_cache :
          (a : Fetch (Resource Ephemeral))
          → cached_resource log kind ns n ≡ a
          → IsChecked kind ns n (after_cached_resource md5_hex api config kind ns n a asked).0
      by_cache (found p) e = (log, inl e)
      by_cache missing e = by_server (direct_resource asked kind (direct_namespace kind ns) n) refl
      by_cache failed e = tt

  run_change-Keeps :
      (kind : ResourceType) (r : Resource Ephemeral) (c : Change)
      → ((m : Meta) → c ≡ write m → P (update_resource kind (record r { meta = m })))
      → Keeps P (run_change md5_hex api config kind r c)
  unfolding run_change
  run_change-Keeps kind r unchanged p = λ log h. h
  run_change-Keeps kind r clashing p = λ log h. h
  run_change-Keeps kind r (write meta) p = λ log h. (p meta refl, h)

  create_built-Keeps :
      (kind : ResourceType) (o : Option (Resource Ephemeral))
      → ((r : Resource Ephemeral) → o ≡ some r → P (create_resource kind r))
      → Keeps P (create_built md5_hex api config kind o)
  unfolding create_built
  create_built-Keeps kind none p = λ log h. h
  create_built-Keeps kind (some r) p = λ log h. (p r refl, h)

  -- For one virtual resource, which was read.
  module _ (kind : ResourceType) (ns n : String) (r : Resource Ephemeral) (namespace : String)
      (opt : Opt) (seen : IsVirtual md5_hex base64 api config kind ns n r) where
    abbrev physical_name : String
    physical_name = generate_physical_resource_name md5_hex n ns

    create-Keeps :
        IsAbsent md5_hex base64 api config kind namespace physical_name
        → Keeps P (create_physical_resource md5_hex api config kind r physical_name namespace opt)
    unfolding create_physical_resource
    create-Keeps a =
        create_built-Keeps kind (build_physical_resource kind r physical_name namespace opt) (λ m e.
          makes kind m (record {
            ns = ns;
            n = n;
            namespace = namespace;
            opt = opt;
            original = r;
            is_virtual = seen;
            is_absent = a;
            is_built = e;
          }))

    mark_and_create-Keeps :
        (exists : Bool)
        → IsFree md5_hex base64 api config kind namespace physical_name ns n
        → (exists ≡ false → IsAbsent md5_hex base64 api config kind namespace physical_name)
        → Keeps P (mark_and_create md5_hex api config kind r physical_name namespace opt exists)
    unfolding mark_and_create
    mark_and_create-Keeps exists free a log h =
        let change =
          update_virtual_resource cluster_id physical_name namespace opt.is_pv_ref_secret r.meta in
        if-Keeps P (not (run_change md5_hex api config kind r change log).0) _ _ (λ e log' h'. h')
          (λ e.
            if-Keeps P exists _ _ (λ e1 log' h'. h') (λ e1 log' h'. create-Keeps (a e1) log' h'))
          _
          (run_change-Keeps kind r change
            (λ m e. marks kind _ (record {
              ns = ns;
              n = n;
              namespace = namespace;
              for_pv = opt.is_pv_ref_secret;
              original = r;
              marked = m;
              is_virtual = seen;
              is_free = free;
              with_marks = e;
              only_meta = refl;
            }))
            log h)

    with_physical_resource-Keeps :
        (answer : Fetch (Resource Ephemeral))
        → IsChecked kind namespace physical_name answer
        → Keeps P (
            with_physical_resource md5_hex api config kind ns n r physical_name namespace opt
              answer)
    unfolding with_physical_resource
    with_physical_resource-Keeps failed c = λ log h. h
    with_physical_resource-Keeps missing c = mark_and_create-Keeps false (IsFree.absent c) (λ e. c)
    with_physical_resource-Keeps (found physical) c =
        if-Keeps P (is_owned md5_hex api config ns n physical) _ _
          (λ e. mark_and_create-Keeps true (IsFree.owned physical c e) (λ f. absurd (cc)))
          (λ e log h. h)

  with_virtual_resource-Keeps :
      (kind : ResourceType) (ns n namespace : String) (opt : Opt)
      (answer : Fetch (Resource Ephemeral))
      → ((log : List (Call Ephemeral)) × (resource log kind ns n ≡ answer))
      → Keeps P (with_virtual_resource md5_hex api config kind ns n namespace opt answer)
  unfolding with_virtual_resource
  with_virtual_resource-Keeps kind ns n namespace opt failed a = λ log h. h
  with_virtual_resource-Keeps kind ns n namespace opt missing a = λ log h. h
  with_virtual_resource-Keeps kind ns n namespace opt (found r) a = λ log h.
      let name = generate_physical_resource_name md5_hex n ns in
      with_physical_resource-Keeps kind ns n r namespace opt a
        (check_physical_resource md5_hex api config kind namespace name log).0
        (check-IsChecked kind namespace name log) _ (check-Keeps kind namespace name log h)

  sync_resource-Keeps :
      (kind : ResourceType) (ns n namespace : String) (opt : Opt)
      → Keeps P (sync_resource md5_hex api config kind ns n namespace opt)
  unfolding sync_resource
  sync_resource-Keeps kind ns n namespace opt log h =
      with_virtual_resource-Keeps kind ns n namespace opt (resource log kind ns n) (log, refl) _
        (quiet (get_resource kind ns n) tt, h)

  pub sync_refs-Keeps :
      (kind : ResourceType) (ns : String) (refs : Required) (names : StrMap)
      → Keeps P (sync_refs md5_hex api config kind ns refs names)
  unfolding sync_refs sync_named
  sync_refs-Keeps kind ns [] names = λ log h. h
  sync_refs-Keeps kind ns ((n, required) ∷ refs) names = λ log h.
      by_result (sync_resource md5_hex api config kind ns n mount_namespace no_opt log).0
        (sync_refs-Keeps kind ns refs) _
        (sync_resource-Keeps kind ns n mount_namespace no_opt log h)
    where
      by_result :
          (r : Synced String)
          → ((m : StrMap) → Keeps P (sync_refs md5_hex api config kind ns refs m))
          → Keeps P (
              add_synced md5_hex api config ns n required
                (λ m. sync_refs md5_hex api config kind ns refs m)
                names
                r)
      by_result (synced name) k = k _
      by_result absent k = if-Keeps P required _ _ (λ e log h. h) (λ e. k _)
      by_result broken k = λ log h. h

  with_csi_secret-Keeps :
      (n : String) (r : Synced String) → Keeps P (with_csi_secret md5_hex api config n r)
  unfolding with_csi_secret
  with_csi_secret-Keeps n (synced name) = sync_resource-Keeps pv "" n "" _
  with_csi_secret-Keeps n absent = λ log h. h
  with_csi_secret-Keeps n broken = λ log h. h

  with_secret_ref-Keeps :
      (n : String) (o : Option (String × String)) → Keeps P (with_secret_ref md5_hex api config n o)
  unfolding with_secret_ref
  with_secret_ref-Keeps n none = sync_resource-Keeps pv "" n "" no_opt
  with_secret_ref-Keeps n (some ref) = λ log h.
      let opt = record no_opt { is_pv_ref_secret = true } in
      with_csi_secret-Keeps n (sync_resource md5_hex api config secret ref.0 ref.1 ref.0 opt log).0
        _ (sync_resource-Keeps secret ref.0 ref.1 ref.0 opt log h)

  with_pv-Keeps :
      (n : String) (answer : Fetch (Resource Ephemeral))
      → Keeps P (with_pv md5_hex api config n answer)
  unfolding with_pv
  with_pv-Keeps n missing = λ log h. h
  with_pv-Keeps n failed = λ log h. h
  with_pv-Keeps n (found r) = with_secret_ref-Keeps n r.csi_secret

  sync_pv-Keeps : (n : String) → Keeps P (sync_pv md5_hex api config n)
  unfolding sync_pv
  sync_pv-Keeps n log h =
      with_pv-Keeps n (resource log pv "" n) _ (quiet (get_resource pv "" n) tt, h)

  with_physical_pv-Keeps :
      (ns n : String) (r : Synced String) → Keeps P (with_physical_pv md5_hex api config ns n r)
  unfolding with_physical_pv
  with_physical_pv-Keeps ns n (synced name) = sync_resource-Keeps pvc ns n mount_namespace _
  with_physical_pv-Keeps ns n absent = λ log h. h
  with_physical_pv-Keeps ns n broken = λ log h. h

  with_pvc-Keeps :
      (ns n : String) (answer : Fetch (Resource Ephemeral))
      → Keeps P (with_pvc md5_hex api config ns n answer)
  unfolding with_pvc
  with_pvc-Keeps ns n missing = λ log h. h
  with_pvc-Keeps ns n failed = λ log h. h
  with_pvc-Keeps ns n (found r) =
      if-Keeps P (not (r.phase == "Bound")) _ _ (λ e log h. h)
        (λ e.
          if-Keeps P (r.volume_name == "") _ _ (λ e1 log h. h)
            (λ e1 log h.
              with_physical_pv-Keeps ns n (sync_pv md5_hex api config r.volume_name log).0 _
                (sync_pv-Keeps r.volume_name log h)))

  sync_pvc-Keeps : (ns n : String) → Keeps P (sync_pvc md5_hex api config ns n)
  unfolding sync_pvc
  sync_pvc-Keeps ns n log h =
      with_pvc-Keeps ns n (resource log pvc ns n) _ (quiet (get_resource pvc ns n) tt, h)

  pub sync_claims-Keeps :
      (ns : String) (refs : Required) (names : StrMap)
      → Keeps P (sync_claims md5_hex api config ns refs names)
  unfolding sync_claims
  sync_claims-Keeps ns [] names = λ log h. h
  sync_claims-Keeps ns ((n, required) ∷ refs) names = λ log h.
      by_result (sync_pvc md5_hex api config ns n log).0 (sync_claims-Keeps ns refs) _
        (sync_pvc-Keeps ns n log h)
    where
      by_result :
          (r : Synced String)
          → ((m : StrMap) → Keeps P (sync_claims md5_hex api config ns refs m))
          → Keeps P (
              add_claim md5_hex api config n
                (λ m. sync_claims md5_hex api config ns refs m)
                names
                r)
      by_result (synced name) k = k _
      by_result absent k = λ log h. h
      by_result broken k = λ log h. h
