-- ===== src/VirtualPod/Resources.antt =====
-- virtual_pod_controller.go: syncResource with the synchronisation of ConfigMaps, Secrets, claims and
-- volumes.
pub mod Safe
use kubeocean.Dict.{StrMap, put, ◌at◌}
use kubeocean.Effect.{M, ◌>>=◌, return, call}
use kubeocean.Kube.{
  Meta, Fetch, found, missing, failed, Reply, done, not_found, already_exists, refused,
}
use kubeocean.Names.{generate_physical_resource_name}
use kubeocean.Prelude.{
  Bool, true, false, not, ◌&&◌, Option, none, some, List, [], ◌∷◌, String, ◌==◌, if◌then◌else◌,
}
use kubeocean.Synced.Marks.{Change, unchanged, clashing, write, update_virtual_resource}
use kubeocean.Synced.Physical.{
  ResourceType, config_map, secret, pvc, pv, unsupported, virtual_name, virtual_namespace,
}
use kubeocean.Synced.Resource.{Resource, Opt, no_opt, build_physical_resource}
use kubeocean.VirtualPod.Defs.{
  Call, get_resource, get_cached_resource, get_direct_resource, update_resource, create_resource,
  Api, Config,
}
use kubeocean.VirtualPod.Spec.{Required}
use kubeocean.VirtualPod.Tokens.{Synced, synced, absent, broken}

-- A volume has no namespace.
abbrev pub direct_namespace : ResourceType → String → String
direct_namespace pv ns = ""
direct_namespace _ ns = ns

module _ {Ephemeral : Type 0} (md5_hex : String → String) (api : Api Ephemeral)
    (config : Config) where
  open api use {resource, cached_resource, direct_resource, resource_updated, resource_created}
  open config use {cluster_id, mount_namespace}

  -- CheckPhysicalResourceExists, for a whole resource.
  unfoldable pub after_cached_resource :
      ResourceType
      → String
      → String
      → Fetch (Resource Ephemeral)
      → M (Call Ephemeral) (Fetch (Resource Ephemeral))
  after_cached_resource kind ns n missing =
      call (get_direct_resource kind (direct_namespace kind ns) n)
        (λ log. direct_resource log kind (direct_namespace kind ns) n)
  after_cached_resource kind ns n answer = return answer

  unfoldable pub check_physical_resource :
      ResourceType → String → String → M (Call Ephemeral) (Fetch (Resource Ephemeral))
  unfolding after_cached_resource
  check_physical_resource kind ns n = do
    answer ← call (get_cached_resource kind ns n) (λ log. cached_resource log kind ns n)
    after_cached_resource kind ns n answer

  abbrev pub is_owned : String → String → Resource Ephemeral → Bool
  is_owned ns n physical =
      physical.meta.annotations at virtual_name == n
      && physical.meta.annotations at virtual_namespace == ns

  abbrev pub is_accepted : Reply → Bool
  is_accepted done = true
  is_accepted _ = false

  -- updateVirtualResourceLabelsAndAnnotations
  unfoldable pub run_change : ResourceType → Resource Ephemeral → Change → M (Call Ephemeral) Bool
  run_change kind r unchanged = return true
  run_change kind r clashing = return false
  run_change kind r (write meta') = do
    reply ←
        call (update_resource kind (record r { meta = meta' }))
          (λ log. resource_updated log kind (record r { meta = meta' }))
    return (is_accepted reply)

  abbrev is_created : Reply → Bool
  is_created done = true
  is_created already_exists = true
  is_created _ = false

  unfoldable pub create_built : ResourceType → Option (Resource Ephemeral) → M (Call Ephemeral) Bool
  create_built kind none = return false
  create_built kind (some r) = do
    reply ← call (create_resource kind r) (λ log. resource_created log kind r)
    return (is_created reply)

  -- CreatePhysicalResourceWithOpt
  unfoldable pub create_physical_resource :
      ResourceType → Resource Ephemeral → String → String → Opt → M (Call Ephemeral) Bool
  unfolding create_built
  create_physical_resource kind r name namespace opt =
      create_built kind (build_physical_resource kind r name namespace opt)

  abbrev named : String → Bool → Synced String
  named name ok = if ok then synced name else broken

  -- The steps 4 and 5 of syncResource.
  unfoldable pub mark_and_create :
      ResourceType
      → Resource Ephemeral
      → String
      → String
      → Opt
      → Bool
      → M (Call Ephemeral) (Synced String)
  unfolding run_change
  mark_and_create kind r name namespace opt exists = do
    marked ←
        run_change kind r
          (update_virtual_resource cluster_id name namespace opt.is_pv_ref_secret r.meta)
    if not marked then return broken else if exists then return (synced name) else (do
      created ← create_physical_resource kind r name namespace opt
      return (named name created))

  unfoldable pub with_physical_resource :
      ResourceType
      → String
      → String
      → Resource Ephemeral
      → String
      → String
      → Opt
      → Fetch (Resource Ephemeral)
      → M (Call Ephemeral) (Synced String)
  unfolding mark_and_create
  with_physical_resource kind ns n r name namespace opt failed = return broken
  with_physical_resource kind ns n r name namespace opt missing =
      mark_and_create kind r name namespace opt false
  with_physical_resource kind ns n r name namespace opt (found physical) =
      if is_owned ns n physical
      then mark_and_create kind r name namespace opt true
      else return broken

  unfoldable pub with_virtual_resource :
      ResourceType
      → String
      → String
      → String
      → Opt
      → Fetch (Resource Ephemeral)
      → M (Call Ephemeral) (Synced String)
  unfolding with_physical_resource
  with_virtual_resource kind ns n namespace opt failed = return broken
  with_virtual_resource kind ns n namespace opt missing = return absent
  with_virtual_resource kind ns n namespace opt (found r) = do
    physical ← check_physical_resource kind namespace (generate_physical_resource_name md5_hex n ns)
    with_physical_resource kind ns n r (generate_physical_resource_name md5_hex n ns) namespace opt
        physical

  -- The name of the physical resource; `absent` is the error of a virtual resource that is not there.
  unfoldable pub sync_resource :
      ResourceType → String → String → String → Opt → M (Call Ephemeral) (Synced String)
  unfolding with_virtual_resource
  sync_resource kind ns n namespace opt = do
    answer ← call (get_resource kind ns n) (λ log. resource log kind ns n)
    with_virtual_resource kind ns n namespace opt answer

  -- A ConfigMap or a Secret of the pod.
  unfoldable pub sync_named : ResourceType → String → String → M (Call Ephemeral) (Synced String)
  sync_named kind ns n = sync_resource kind ns n mount_namespace no_opt

  abbrev pub add_synced :
      String
      → String
      → Bool
      → (StrMap → M (Call Ephemeral) (Option StrMap))
      → StrMap
      → Synced String
      → M (Call Ephemeral) (Option StrMap)
  add_synced ns n required rest names (synced name) = rest (put n name names)
  add_synced ns n required rest names absent =
      if required
      then return none
      else rest (put n (generate_physical_resource_name md5_hex n ns) names)
  add_synced ns n required rest names broken = return none

  -- The loop of syncConfigMaps and of syncSecrets, with the names found so far.
  unfoldable pub sync_refs :
      ResourceType → String → Required → StrMap → M (Call Ephemeral) (Option StrMap)
  sync_refs kind ns [] names = return (some names)
  sync_refs kind ns ((n, required) ∷ refs) names = do
    result ← sync_named kind ns n
    add_synced ns n required (λ m. sync_refs kind ns refs m) names result

  -- A volume whose secret, if it has one, is synchronised.
  unfoldable pub with_csi_secret : String → Synced String → M (Call Ephemeral) (Synced String)
  with_csi_secret n (synced name) =
      sync_resource pv "" n "" (record no_opt { physical_pv_secret = name })
  with_csi_secret n _ = return broken

  unfoldable pub with_secret_ref :
      String → Option (String × String) → M (Call Ephemeral) (Synced String)
  unfolding with_csi_secret
  with_secret_ref n none = sync_resource pv "" n "" no_opt
  with_secret_ref n (some ref) = do
    result ← sync_resource secret ref.0 ref.1 ref.0 (record no_opt { is_pv_ref_secret = true })
    with_csi_secret n result

  unfoldable pub with_pv : String → Fetch (Resource Ephemeral) → M (Call Ephemeral) (Synced String)
  unfolding with_secret_ref
  with_pv n missing = return broken
  with_pv n failed = return broken
  with_pv n (found r) = with_secret_ref n r.csi_secret

  unfoldable pub sync_pv : String → M (Call Ephemeral) (Synced String)
  unfolding with_pv
  sync_pv n = do
    answer ← call (get_resource pv "" n) (λ log. resource log pv "" n)
    with_pv n answer

  unfoldable pub with_physical_pv :
      String → String → Synced String → M (Call Ephemeral) (Synced String)
  with_physical_pv ns n (synced name) =
      sync_resource pvc ns n mount_namespace (record no_opt { physical_pv_name = name })
  with_physical_pv ns n _ = return broken

  unfoldable pub with_pvc :
      String → String → Fetch (Resource Ephemeral) → M (Call Ephemeral) (Synced String)
  unfolding with_physical_pv
  with_pvc ns n missing = return broken
  with_pvc ns n failed = return broken
  with_pvc ns n (found r) =
      if not (r.phase == "Bound")
      then return broken
      else if r.volume_name == ""
      then return broken
      else (do result ← sync_pv r.volume_name; with_physical_pv ns n result)

  unfoldable pub sync_pvc : String → String → M (Call Ephemeral) (Synced String)
  unfolding with_pvc
  sync_pvc ns n = do
    answer ← call (get_resource pvc ns n) (λ log. resource log pvc ns n)
    with_pvc ns n answer

  abbrev pub add_claim :
      String
      → (StrMap → M (Call Ephemeral) (Option StrMap))
      → StrMap
      → Synced String
      → M (Call Ephemeral) (Option StrMap)
  add_claim n rest names (synced name) = rest (put n name names)
  add_claim n rest names _ = return none

  -- The loop of syncPVCs.
  unfoldable pub sync_claims : String → Required → StrMap → M (Call Ephemeral) (Option StrMap)
  sync_claims ns [] names = return (some names)
  sync_claims ns ((n, required) ∷ refs) names = do
    result ← sync_pvc ns n
    add_claim n (λ m. sync_claims ns refs m) names result
