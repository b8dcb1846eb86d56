-- ===== src/VirtualPod/Allowed.antt =====
-- What the controller of virtual pods may do, in terms of what it was answered.
use kubeocean.Dict.{◌at◌}
use kubeocean.Effect.{M}
use kubeocean.Effect.Keeps.{Keeps}
use kubeocean.Kube.{Fetch, found, missing, failed}
use kubeocean.Names.{generate_physical_resource_name}
use kubeocean.PhysicalPod.Defs.{physical_pod_namespace, physical_pod_name, physical_pod_uid}
use kubeocean.Prelude.{◌≡◌, ◌⊎◌, true, false, List, [], String, ◌==◌, Any}
use kubeocean.VirtualPod.Build.{Env, Builder}
use kubeocean.VirtualPod.Checks.{
  is_system_pod, names_virtual_pod, is_physical_pod_owned, is_stale, is_overdue, has_mapping,
  annotate, with_names, set_failed, managed, managed_by_node, label_host_port_fake_pod,
}
use kubeocean.VirtualPod.Defs.{
  Pod, Call, force_delete_virtual_pod, update_virtual_status, create_physical_pod,
  update_physical_pod, patch_ephemeral, delete_physical_pod, delete_secret, create_secret,
  update_secret, update_resource, create_resource, create_priority_class, TokenSecret, Api, Config,
}
use kubeocean.Synced.Physical.{ResourceType}
use kubeocean.Synced.Resource.{Resource}
use kubeocean.VirtualPod.Reasons.{MayMark, MayMake, MayStore, MayRefresh, MayAdd}
use kubeocean.VirtualPod.Metadata.{update, plan_sync}
use kubeocean.VirtualPod.Spec.{Token, ResourceMapping}
use kubeocean.VirtualPod.Tokens.{projected_tokens, old_secret_name, token_secret_name}

-- Calls that need no reason: reads, requests of tokens, and what the controller keeps for itself.
abbrev pub IsQuiet : {Ephemeral : Type 0} → Call Ephemeral → Type 0
IsQuiet (force_delete_virtual_pod ns n uid) = ⊥
IsQuiet (update_virtual_status pod) = ⊥
IsQuiet (create_physical_pod pod) = ⊥
IsQuiet (update_physical_pod pod) = ⊥
IsQuiet (patch_ephemeral pod) = ⊥
IsQuiet (delete_physical_pod ns n) = ⊥
IsQuiet (delete_secret ns n) = ⊥
IsQuiet (create_secret s) = ⊥
IsQuiet (update_secret s) = ⊥
IsQuiet (update_resource kind r) = ⊥
IsQuiet (create_resource kind r) = ⊥
IsQuiet (create_priority_class n) = ⊥
IsQuiet _ = Unit

module _ {Ephemeral : Type 0} (md5_hex base64 : String → String) (api : Api Ephemeral)
    (config : Config) where
  -- What a builder calls for a pod: quiet calls, and writes that have their reasons.
  pub data IsDue (pod : Pod Ephemeral) : Call Ephemeral → Type 0 where
    harmless : (c : Call Ephemeral) → IsQuiet c → IsDue pod c
    marked :
        (kind : ResourceType) (r : Resource Ephemeral)
        → MayMark md5_hex base64 api config kind r
        → IsDue pod (update_resource kind r)
    made :
        (kind : ResourceType) (r : Resource Ephemeral)
        → MayMake md5_hex base64 api config kind r
        → IsDue pod (create_resource kind r)
    stored :
        (s : TokenSecret) → MayStore md5_hex base64 api config pod s → IsDue pod (create_secret s)
    refreshed :
        (s : TokenSecret) → MayRefresh md5_hex base64 api config pod s → IsDue pod (update_secret s)
    added : (n : String) → MayAdd md5_hex base64 api config n → IsDue pod (create_priority_class n)

  -- A program whose calls are due for a pod: they have every property that the due ones have.
  abbrev pub Duly : {A : Type 0} → Pod Ephemeral → M (Call Ephemeral) A → Type 1
  Duly pod m =
      (P : Call Ephemeral → Type 0) → ((c : Call Ephemeral) → IsDue pod c → P c) → Keeps P m

  -- The law of the interface.
  pub record BuilderLaw (builder : Builder Ephemeral) : Type 1 where
    pub dependents : (pod : Pod Ephemeral) → Duly pod (builder.sync_dependent_resources pod)
    pub spec :
        (pod : Pod Ephemeral) (node : String) (mapping : ResourceMapping)
        → Duly pod (builder.build_physical_pod_spec pod node mapping)

module _ {Ephemeral : Type 0} (env : Env Ephemeral) (namespace name : String) where
  open env use {md5_hex, base64, encode, decode, deadline_dec, ephemeral_dec, config, api}
  open config use {mount_namespace}
  open api use {virtual_pod, virtual_node, cached_pod, direct_pod, now}

  -- A read of a pod in the physical cluster: what is found is from the cache or the server, and what
  -- is missing is so for the server.
  abbrev pub IsRead : String → String → Fetch (Pod Ephemeral) → Type 0
  IsRead ns n (found physical) =
      (log : List (Call Ephemeral)) × ((cached_pod log ns n ≡ found physical)
        ⊎ (direct_pod log ns n ≡ found physical))
  IsRead ns n missing = (log : List (Call Ephemeral)) × (direct_pod log ns n ≡ missing)
  IsRead ns n failed = Unit

  -- A read by the annotations of the virtual pod.
  abbrev pub IsMapped : Pod Ephemeral → Fetch (Pod Ephemeral) → Type 0
  IsMapped virtual answer =
      (has_mapping virtual ≡ true)
      × IsRead (virtual.annotations at physical_pod_namespace)
          (virtual.annotations at physical_pod_name) answer

  -- A read by the name that is generated.
  abbrev pub IsGenerated : String → String → Fetch (Pod Ephemeral) → Type 0
  IsGenerated ns n answer =
      IsRead mount_namespace (generate_physical_resource_name md5_hex n ns) answer

  -- The virtual pod that is reconciled, which runs on a node of this cluster.
  pub record IsOurs (virtual : Pod Ephemeral) : Type 0 where
    pub seen : virtual_pod [] namespace name ≡ found virtual
    pub node : String
    pub at_node :
        (log : List (Call Ephemeral)) × (managed_by_node env (virtual_node log virtual.node_name)
          ≡ managed node)

  abbrev pub IsLive : Pod Ephemeral → Type 0
  IsLive virtual = IsOurs virtual × (virtual.deleting ≡ false)

  abbrev pub IsDying : Pod Ephemeral → Type 0
  IsDying virtual = IsOurs virtual × (virtual.deleting ≡ true)

  -- Why a virtual pod is deleted at once.
  pub data MayGo (virtual : Pod Ephemeral) : Type 0 where
    unmapped : has_mapping virtual ≡ false → MayGo virtual
    lost : IsMapped virtual missing → MayGo virtual
    foreign :
        (physical : Pod Ephemeral)
        → IsMapped virtual (found physical)
        → names_virtual_pod physical virtual ≡ false
        → MayGo virtual

  -- Why a physical pod is deleted.
  pub data MayDelete (physical : Pod Ephemeral) : Type 0 where
    orphan :
        virtual_pod [] namespace name ≡ missing
        → IsGenerated namespace name (found physical)
        → physical.deleting ≡ false
        → MayDelete physical
    deleted :
        (virtual : Pod Ephemeral)
        → IsDying virtual
        → IsMapped virtual (found physical)
        → names_virtual_pod physical virtual ≡ true
        → physical.deleting ≡ false
        → MayDelete physical
    stale :
        (virtual : Pod Ephemeral)
        → IsLive virtual
        → IsMapped virtual (found physical)
          ⊎ IsGenerated virtual.namespace virtual.name (found physical)
        → is_stale physical virtual ≡ true
        → MayDelete physical
    overdue :
        (virtual : Pod Ephemeral)
        → IsLive virtual
        → IsMapped virtual (found physical)
        → is_stale physical virtual ≡ false
        → (physical.node_name == "") ≡ true
        → (log : List (Call Ephemeral)) → is_overdue physical.created (now log) ≡ true
        → MayDelete physical

  -- What a virtual pod is updated to, and why.
  pub data MayUpdate (virtual : Pod Ephemeral) : Pod Ephemeral → Type 0 where
    to_failed :
        IsMapped virtual missing
        → (virtual.annotations at physical_pod_uid == "") ≡ false
        → MayUpdate virtual (set_failed virtual "Physical pod was deleted unexpectedly")
    to_mapped :
        (virtual.annotations at physical_pod_name == "") ≡ true
        → (virtual.annotations at physical_pod_uid == "") ≡ true
        → IsGenerated virtual.namespace virtual.name missing
        → MayUpdate virtual (
            with_names mount_namespace
              (generate_physical_resource_name md5_hex virtual.name virtual.namespace)
              virtual)
    to_recorded :
        (existing : Pod Ephemeral)
        → IsGenerated virtual.namespace virtual.name (found existing)
        → is_physical_pod_owned existing virtual ≡ true
        → MayUpdate virtual (
            annotate physical_pod_uid existing.uid
              (with_names existing.namespace existing.name virtual))
    to_linked :
        (physical : Pod Ephemeral)
        → IsMapped virtual (found physical)
        → is_stale physical virtual ≡ false
        → (virtual.annotations at physical_pod_uid == "") ≡ true
        → MayUpdate virtual (annotate physical_pod_uid physical.uid virtual)

  -- A physical pod is made once: only while the virtual pod has its name and not yet its UID, and the
  -- server has no pod of that name.
  pub record MayCreate (virtual created : Pod Ephemeral) : Type 0 where
    pub live : IsLive virtual
    pub absent : IsMapped virtual missing
    pub unrecorded : (virtual.annotations at physical_pod_uid == "") ≡ true
    pub user_pod : is_system_pod virtual ≡ false
    pub no_fake : (virtual.labels at label_host_port_fake_pod == "true") ≡ false
    pub at_namespace : created.namespace ≡ virtual.annotations at physical_pod_namespace
    pub at_name : created.name ≡ virtual.annotations at physical_pod_name
    pub owned : is_physical_pod_owned created virtual ≡ true

  -- A physical pod that is synchronised with its virtual pod.
  abbrev pub IsPair : Pod Ephemeral → Pod Ephemeral → Type 0
  IsPair virtual physical =
      IsLive virtual
      × IsMapped virtual (found physical)
      × (is_stale physical virtual ≡ false)
      × ((virtual.annotations at physical_pod_uid == "") ≡ false)

  abbrev pub Allowed : Call Ephemeral → Type 0
  Allowed (force_delete_virtual_pod ns n uid) =
      (virtual : Pod Ephemeral) × IsDying virtual
      × MayGo virtual
      × (ns ≡ virtual.namespace)
      × (n ≡ virtual.name)
      × (uid ≡ virtual.uid)
  Allowed (update_virtual_status pod) =
      (virtual : Pod Ephemeral) × IsLive virtual × MayUpdate virtual pod
  Allowed (create_physical_pod pod) = (virtual : Pod Ephemeral) × MayCreate virtual pod
  Allowed (update_physical_pod pod) =
      (virtual : Pod Ephemeral) × (physical : Pod Ephemeral) × IsPair virtual physical
      × (plan_sync encode decode deadline_dec virtual physical ≡ update pod)
  Allowed (patch_ephemeral pod) =
      (virtual : Pod Ephemeral) × (physical : Pod Ephemeral) × IsPair virtual physical
      × (pod.ephemeral ≡ virtual.ephemeral)
  Allowed (delete_physical_pod ns n) =
      (physical : Pod Ephemeral) × MayDelete physical
      × (ns ≡ physical.namespace)
      × (n ≡ physical.name)
  Allowed (delete_secret ns n) =
      (virtual : Pod Ephemeral) × IsDying virtual
      × (ns ≡ mount_namespace)
      × ((n ≡ old_secret_name md5_hex base64 api config virtual)
          ⊎ Any
              (λ (e : String × Token). n ≡ token_secret_name md5_hex base64 api config virtual e.0)
              (projected_tokens virtual.spec.volumes))
  Allowed (create_secret s) =
      (virtual : Pod Ephemeral) × IsLive virtual × MayStore md5_hex base64 api config virtual s
  Allowed (update_secret s) =
      (virtual : Pod Ephemeral) × IsLive virtual × MayRefresh md5_hex base64 api config virtual s
  Allowed (update_resource kind r) =
      (virtual : Pod Ephemeral) × IsLive virtual × MayMark md5_hex base64 api config kind r
  Allowed (create_resource kind r) =
      (virtual : Pod Ephemeral) × IsLive virtual × MayMake md5_hex base64 api config kind r
  Allowed (create_priority_class n) =
      (virtual : Pod Ephemeral) × IsLive virtual × MayAdd md5_hex base64 api config n
  Allowed _ = Unit
