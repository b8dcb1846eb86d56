-- ===== src/VirtualPod/Reasons.antt =====
-- Why the controller of virtual pods writes what a pod depends on: the resources that it marks and
-- makes, the secrets that hold tokens, and the priority class.
use kubeocean.Kube.{Meta, found, missing}
use kubeocean.Names.{generate_physical_resource_name}
use kubeocean.Prelude.{◌≡◌, ◌⊎◌, true, false, Bool, List, some, String, ◌==◌, Any}
use kubeocean.Synced.Marks.{write, update_virtual_resource}
use kubeocean.Synced.Physical.{ResourceType}
use kubeocean.Synced.Resource.{Resource, Opt, build_physical_resource}
use kubeocean.VirtualPod.Defs.{Pod, TokenSecret, Call, Api, Config}
use kubeocean.VirtualPod.PodSpec.{default_priority_class}
use kubeocean.VirtualPod.Resources.{direct_namespace, is_owned}
use kubeocean.VirtualPod.Spec.{Token}
use kubeocean.VirtualPod.Tokens.{projected_tokens, token_secret, token_secret_name}

module _ {Ephemeral : Type 0} (md5_hex base64 : String → String) (api : Api Ephemeral)
    (config : Config) where
  open api use {resource, cached_resource, direct_resource, secret, token, priority_class}
  open config use {cluster_id, mount_namespace}

  -- The server has no such resource in the physical cluster.
  abbrev pub IsAbsent : ResourceType → String → String → Type 0
  IsAbsent kind namespace name =
      (log : List (Call Ephemeral)) × (direct_resource log kind (direct_namespace kind namespace)
          name
        ≡ missing)

  -- The cache or the server shows the resource of the physical cluster.
  abbrev pub IsShown : ResourceType → String → String → Resource Ephemeral → Type 0
  IsShown kind namespace name physical =
      (log : List (Call Ephemeral)) × ((cached_resource log kind namespace name ≡ found physical)
        ⊎ (direct_resource log kind (direct_namespace kind namespace) name ≡ found physical))

  -- The physical resource is free to be taken for a virtual one: it is not there, or it names the
  -- virtual one.
  pub data IsFree (kind : ResourceType) (namespace name ns n : String) : Type 0 where
    absent : IsAbsent kind namespace name → IsFree kind namespace name ns n
    owned :
        (physical : Resource Ephemeral)
        → IsShown kind namespace name physical
        → is_owned md5_hex api config ns n physical ≡ true
        → IsFree kind namespace name ns n

  abbrev pub IsVirtual : ResourceType → String → String → Resource Ephemeral → Type 0
  IsVirtual kind ns n r = (log : List (Call Ephemeral)) × (resource log kind ns n ≡ found r)

  -- A virtual resource is written only with the marks of this cluster, and only if the resource of
  -- its generated name is free.
  pub record MayMark (kind : ResourceType) (written : Resource Ephemeral) : Type 0 where
    pub ns : String
    pub n : String
    pub namespace : String
    pub for_pv : Bool
    pub original : Resource Ephemeral
    pub marked : Meta
    pub is_virtual : IsVirtual kind ns n original
    pub is_free : IsFree kind namespace (generate_physical_resource_name md5_hex n ns) ns n
    pub with_marks :
        update_virtual_resource cluster_id
          (generate_physical_resource_name md5_hex n ns)
          namespace
          for_pv
          original.meta
        ≡ write marked
    pub only_meta : written ≡ record original { meta = marked }

  -- A physical resource is made only of a virtual one, under its generated name, where the server has
  -- none.
  pub record MayMake (kind : ResourceType) (made : Resource Ephemeral) : Type 0 where
    pub ns : String
    pub n : String
    pub namespace : String
    pub opt : Opt
    pub original : Resource Ephemeral
    pub is_virtual : IsVirtual kind ns n original
    pub is_absent : IsAbsent kind namespace (generate_physical_resource_name md5_hex n ns)
    pub is_built :
        build_physical_resource kind original
          (generate_physical_resource_name md5_hex n ns)
          namespace
          opt
        ≡ some made

  -- A text that was answered for a token which the pod projects in a volume.
  pub record IsToken (pod : Pod Ephemeral) (volume text : String) : Type 0 where
    pub projection : Token
    pub projected : Any (λ e. e ≡ (volume, projection)) (projected_tokens pod.spec.volumes)
    pub log : List (Call Ephemeral)
    pub answered :
        token log pod.namespace pod.spec.service_account projection pod.name pod.uid ≡ some text

  -- The secret of a volume's token is made where the server has none, with the token.
  pub record MayStore (pod : Pod Ephemeral) (s : TokenSecret) : Type 0 where
    pub volume : String
    pub text : String
    pub is_token : IsToken pod volume text
    pub log : List (Call Ephemeral)
    pub is_absent :
        secret log mount_namespace (token_secret_name md5_hex base64 api config pod volume)
        ≡ missing
    pub is_secret : s ≡ token_secret md5_hex base64 api config pod volume text

  -- The secret that is there is written with the token, and else as it was, where it holds another.
  pub record MayRefresh (pod : Pod Ephemeral) (s : TokenSecret) : Type 0 where
    pub volume : String
    pub text : String
    pub existing : TokenSecret
    pub is_token : IsToken pod volume text
    pub log : List (Call Ephemeral)
    pub is_there :
        secret log mount_namespace (token_secret_name md5_hex base64 api config pod volume)
        ≡ found existing
    pub differs : (existing.token == base64 text) ≡ false
    pub only_token : s ≡ record existing { token = text }

  -- Only the default priority class is added, where there is none.
  abbrev pub MayAdd : String → Type 0
  MayAdd n =
      (n ≡ default_priority_class)
      × ((log : List (Call Ephemeral)) × (priority_class log n ≡ missing))
