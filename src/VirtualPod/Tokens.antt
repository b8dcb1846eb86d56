-- ===== src/VirtualPod/Tokens.antt =====
-- virtual_pod_controller.go: the secrets in the physical cluster that hold the tokens of a virtual
-- pod's service account. `base64` is encoding/base64; names are as in Names.
pub mod Safe
use Prim.Native.String.{◌++◌ as join}
use kubeocean.Effect.{M, ◌>>=◌, return, call}
use kubeocean.Dict.{StrMap, put}
use kubeocean.Kube.{Fetch, found, missing, failed, Reply, done, not_found}
use kubeocean.Names.{generate_physical_resource_name}
use kubeocean.PhysicalPod.Defs.{
  label_managed_by, label_managed_by_value, label_service_account_token, virtual_pod_name,
  virtual_pod_namespace, virtual_pod_uid,
}
use kubeocean.Prelude.{
  Bool, true, false, Option, none, some, List, [], ◌∷◌, ◌++◌, String, ◌==◌, if◌then◌else◌, not,
}
use kubeocean.VirtualPod.Defs.{
  Pod, TokenSecret, Call, forget_tokens, get_token, get_secret, create_secret, update_secret,
  delete_secret, Api, Config,
}
use kubeocean.VirtualPod.Spec.{Source, Volume, Token}

-- The volumes' names with the tokens that they project, in the order of the two loops.
abbrev pub source_tokens : String → List Source → List (String × Token)
source_tokens volume [] = []
source_tokens volume (s ∷ sources) = elim s.token [
  | none ↦ source_tokens volume sources
  | some t ↦ (volume, t) ∷ source_tokens volume sources
]

abbrev pub volume_tokens : Volume → List (String × Token)
volume_tokens v = elim v.projected [ none ↦ [] | some sources ↦ source_tokens v.name sources ]

abbrev pub projected_tokens : List Volume → List (String × Token)
projected_tokens [] = []
projected_tokens (v ∷ volumes) = volume_tokens v ++ projected_tokens volumes

-- A token, the name of its secret, or an error; an absent secret is an error for which IsNotFound
-- holds.
pub data Synced (A : Type 0) : Type 0 where
  synced : A → Synced A
  absent broken : Synced A

module _ {Ephemeral : Type 0} (md5_hex base64 : String → String) (api : Api Ephemeral)
    (config : Config) (pod : Pod Ephemeral) where
  open api use {secret, secret_created, secret_updated, secret_deleted, token}
  open config use {mount_namespace}

  abbrev token_key : String → String
  token_key volume = join pod.name (join "-" (join volume (join "-" pod.uid)))

  pub token_secret_name : String → String
  token_secret_name volume =
      generate_physical_resource_name md5_hex (token_key volume) pod.namespace

  -- The name of the one secret that was made for all volumes.
  pub old_secret_name : String
  old_secret_name =
      generate_physical_resource_name md5_hex (join pod.name (join "-" pod.uid)) pod.namespace

  abbrev is_gone : Reply → Bool
  is_gone done = true
  is_gone not_found = true
  is_gone _ = false

  -- The deletion of one secret, then the rest unless there was an error.
  pub delete_service_account_token_secret :
      String → M (Call Ephemeral) Bool → M (Call Ephemeral) Bool
  delete_service_account_token_secret name rest = do
    reply ←
        call (delete_secret mount_namespace name) (λ log. secret_deleted log mount_namespace name)
    if is_gone reply then rest else return false

  pub delete_volume_secrets : List (String × Token) → M (Call Ephemeral) Bool
  delete_volume_secrets [] = return true
  delete_volume_secrets ((volume, t) ∷ tokens) =
      delete_service_account_token_secret (token_secret_name volume) (delete_volume_secrets tokens)

  pub cleanup_service_account_token : M (Call Ephemeral) Bool
  unfolding delete_service_account_token_secret delete_volume_secrets
  cleanup_service_account_token = if pod.spec.service_account == "" then return true else (do
    _ ← call (forget_tokens pod.uid) (λ log. tt)
    delete_service_account_token_secret old_secret_name
        (delete_volume_secrets (projected_tokens pod.spec.volumes)))

  pub token_secret : String → String → TokenSecret
  token_secret volume text = record {
    namespace = mount_namespace;
    name = token_secret_name volume;
    labels =
        (label_managed_by, label_managed_by_value) ∷ (label_service_account_token, "true") ∷ [];
    annotations =
        (virtual_pod_name, pod.name)
        ∷ (virtual_pod_namespace, pod.namespace)
        ∷ (virtual_pod_uid, pod.uid)
        ∷ ("kubeocean.io/service-account", pod.spec.service_account)
        ∷ [];
    token = text;
  }

  abbrev written : String → Reply → Synced String
  written name done = synced name
  written name _ = broken

  -- The secret as it is read, and the token that it is to hold.
  pub store_token : Bool → String → String → Fetch TokenSecret → M (Call Ephemeral) (Synced String)
  store_token create volume text failed = return broken
  store_token create volume text missing = if not create then return absent else (do
    reply ←
        call (create_secret (token_secret volume text))
          (λ log. secret_created log (token_secret volume text))
    return (written (token_secret_name volume) reply))
  store_token create volume text (found existing) =
      if existing.token == base64 text then return (synced (token_secret_name volume)) else (do
        reply ←
            call (update_secret (record existing { token = text }))
              (λ log. secret_updated log (record existing { token = text }))
        return (written (token_secret_name volume) reply))

  with_token : Bool → String → Option String → M (Call Ephemeral) (Synced String)
  with_token create volume none = return broken
  with_token create volume (some text) = do
    existing ←
        call (get_secret mount_namespace (token_secret_name volume))
          (λ log. secret log mount_namespace (token_secret_name volume))
    store_token create volume text existing

  pub sync_service_account_token : Bool → String → Token → M (Call Ephemeral) (Synced String)
  unfolding with_token
  sync_service_account_token create volume t = do
    text ←
        call (get_token pod.namespace pod.spec.service_account t pod.name pod.uid)
          (λ log. token log pod.namespace pod.spec.service_account t pod.name pod.uid)
    with_token create volume text

  -- The loop, with the names found so far; the error of a secret that is not there is passed on as
  -- such only where none is to be created.
  abbrev pub add_name :
      Bool
      → String
      → (StrMap → M (Call Ephemeral) (Synced StrMap))
      → StrMap
      → Synced String
      → M (Call Ephemeral) (Synced StrMap)
  add_name create volume rest names (synced name) = rest (put volume name names)
  add_name create volume rest names absent = return (if create then broken else absent)
  add_name create volume rest names broken = return broken

  unfoldable pub sync_tokens :
      Bool → List (String × Token) → StrMap → M (Call Ephemeral) (Synced StrMap)
  sync_tokens create [] names = return (synced names)
  sync_tokens create ((volume, t) ∷ tokens) names = do
    result ← sync_service_account_token create volume t
    add_name create volume (λ m. sync_tokens create tokens m) names result

  unfoldable pub sync_service_account_tokens : Bool → M (Call Ephemeral) (Synced StrMap)
  sync_service_account_tokens create = sync_tokens create (projected_tokens pod.spec.volumes) []
