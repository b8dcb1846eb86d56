-- ===== src/VirtualPod/Dependents.antt =====
-- virtual_pod_controller.go: syncDependentResources and pollPhysicalResources. A poll goes on for as
-- many rounds as the time allows, which is answered when it starts.
pub mod Safe
pub mod Enough
pub mod Suffices
use kubeocean.Dict.{StrMap, lookup}
use kubeocean.Effect.{M, ◌>>=◌, return, call}
use kubeocean.Kube.{Fetch, found, missing, failed}
use kubeocean.Prelude.{
  ℕ, zero, suc, Bool, true, false, not, Option, none, some, List, [], ◌∷◌, ◌++◌, String, str_dec,
  ◌==◌, if◌then◌else◌,
}
use kubeocean.Synced.Physical.{ResourceType, config_map, secret, pvc}
use kubeocean.Synced.Resource.{Resource}
use kubeocean.VirtualPod.Defs.{
  Pod, Call, get_cached_resource, need_config_maps, need_secrets, Api, Config,
}
use kubeocean.VirtualPod.Resources.{sync_refs, sync_claims}
use kubeocean.VirtualPod.Spec.{
  Required, ResourceMapping, collect_config_map_refs, collect_secret_refs, collect_claims,
}
use kubeocean.VirtualPod.Tokens.{Synced, synced, absent, broken, sync_service_account_tokens}

-- A round of the poll: all is there, something is missing, or an error.
pub data Round : Type 0 where
  ready waiting failing : Round

abbrev round_of : {A : Type 0} → Fetch A → Round
round_of (found a) = ready
round_of missing = waiting
round_of failed = failing

-- configMapsRequired[name], where a missing name reads as false.
abbrev is_required : Required → String → Bool
is_required required n = elim (lookup str_dec n required) [ none ↦ false | some b ↦ b ]

abbrev pub mapping_of : StrMap → StrMap → StrMap → StrMap → ResourceMapping
mapping_of config_maps' secrets' claims' tokens' = record {
  config_maps = config_maps';
  secrets = secrets';
  claims = claims';
  tokens = tokens';
}

-- The names in the physical cluster of what is required.
abbrev pub required_names : Required → StrMap → List String
required_names required [] = []
required_names required ((n, physical) ∷ names) =
    let rest = required_names required names in
    if is_required required n then physical ∷ rest else rest

abbrev pub all_names : StrMap → List String
all_names [] = []
all_names ((n, physical) ∷ names) = physical ∷ all_names names

abbrev of_kind : ResourceType → List String → List (ResourceType × String)
of_kind kind [] = []
of_kind kind (n ∷ names) = (kind, n) ∷ of_kind kind names

module _ {Ephemeral : Type 0} (md5_hex base64 : String → String) (api : Api Ephemeral)
    (config : Config) (pod : Pod Ephemeral) where
  open api use {cached_resource, poll_rounds}
  open config use {mount_namespace}

  -- The resources of a mapping that a poll asks for, in the order of the four loops.
  abbrev pub polled : ResourceMapping → List (ResourceType × String)
  polled m =
      of_kind config_map (required_names (collect_config_map_refs pod.spec) m.config_maps)
      ++ (of_kind secret (required_names (collect_secret_refs pod.spec) m.secrets)
          ++ (of_kind pvc (all_names m.claims) ++ of_kind secret (all_names m.tokens)))

  abbrev next_round : M (Call Ephemeral) Round → Round → M (Call Ephemeral) Round
  next_round rest ready = rest
  next_round rest r = return r

  unfoldable pub poll_round : List (ResourceType × String) → M (Call Ephemeral) Round
  poll_round [] = return ready
  poll_round ((kind, n) ∷ resources) = do
    answer ←
        call (get_cached_resource kind mount_namespace n)
          (λ log. cached_resource log kind mount_namespace n)
    next_round (poll_round resources) (round_of answer)

  abbrev after_round : M (Call Ephemeral) Bool → Round → M (Call Ephemeral) Bool
  after_round rest ready = return true
  after_round rest waiting = rest
  after_round rest failing = return false

  -- Whether all was found in time.
  unfoldable pub poll : ℕ → List (ResourceType × String) → M (Call Ephemeral) Bool
  poll zero resources = return false
  poll (suc rounds) resources = do r ← poll_round resources; after_round (poll rounds resources) r

  unfoldable pub poll_physical_resources : ResourceMapping → M (Call Ephemeral) Bool
  poll_physical_resources m log = poll (poll_rounds log) (polled m) log

  unfoldable pub with_poll : ResourceMapping → Bool → M (Call Ephemeral) (Option ResourceMapping)
  with_poll m true = return (some m)
  with_poll m false = return none

  unfoldable pub with_tokens :
      StrMap → StrMap → StrMap → Synced StrMap → M (Call Ephemeral) (Option ResourceMapping)
  unfolding with_poll
  with_tokens config_maps' secrets' claims' (synced tokens') = do
    found_all ← poll_physical_resources (mapping_of config_maps' secrets' claims' tokens')
    with_poll (mapping_of config_maps' secrets' claims' tokens') found_all
  with_tokens config_maps' secrets' claims' _ = return none

  -- A pod without a service account has no tokens.
  abbrev pub sync_pod_tokens : M (Call Ephemeral) (Synced StrMap)
  sync_pod_tokens =
      if pod.spec.service_account == ""
      then return (synced [])
      else sync_service_account_tokens md5_hex base64 api config pod true

  unfoldable pub with_claims :
      StrMap → StrMap → Option StrMap → M (Call Ephemeral) (Option ResourceMapping)
  unfolding with_tokens
  with_claims config_maps' secrets' none = return none
  with_claims config_maps' secrets' (some claims') = do
    tokens' ← sync_pod_tokens
    with_tokens config_maps' secrets' claims' tokens'

  unfoldable pub with_secrets : StrMap → Option StrMap → M (Call Ephemeral) (Option ResourceMapping)
  unfolding with_claims
  with_secrets config_maps' none = return none
  with_secrets config_maps' (some secrets') = do
    claims' ← sync_claims md5_hex api config pod.namespace (collect_claims pod.spec) []
    with_claims config_maps' secrets' claims'

  -- The names are announced to the controller of their kind, if there are any.
  abbrev announce : (Required → Call Ephemeral) → Required → M (Call Ephemeral) Unit
  announce need [] = return tt
  announce need refs = call (need refs) (λ log. tt)

  abbrev pub sync_secrets : M (Call Ephemeral) (Option StrMap)
  sync_secrets = do
    _ ← announce (need_secrets pod.namespace pod.name) (collect_secret_refs pod.spec)
    sync_refs md5_hex api config secret pod.namespace (collect_secret_refs pod.spec) []

  abbrev pub sync_config_maps : M (Call Ephemeral) (Option StrMap)
  sync_config_maps = do
    _ ← announce (need_config_maps pod.namespace pod.name) (collect_config_map_refs pod.spec)
    sync_refs md5_hex api config config_map pod.namespace (collect_config_map_refs pod.spec) []

  unfoldable pub with_config_maps : Option StrMap → M (Call Ephemeral) (Option ResourceMapping)
  unfolding with_secrets
  with_config_maps none = return none
  with_config_maps (some config_maps') = do
    secrets' ← sync_secrets
    with_secrets config_maps' secrets'

  unfoldable pub sync_dependent_resources : M (Call Ephemeral) (Option ResourceMapping)
  unfolding with_config_maps
  sync_dependent_resources = do config_maps' ← sync_config_maps; with_config_maps config_maps'
