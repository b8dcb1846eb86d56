-- ===== src/VirtualPod/Dependents/Safe.antt =====
-- The calls of the synchronisation of what a pod depends on are due for it.
use kubeocean.Dict.{StrMap}
use kubeocean.Effect.Keeps.{Keeps, if-Keeps}
use kubeocean.Prelude.{
  ℕ, zero, suc, Bool, true, false, Option, none, some, List, [], ◌∷◌, String, ◌==◌,
}
use kubeocean.Synced.Physical.{ResourceType, config_map, secret}
use kubeocean.VirtualPod.Allowed.{IsQuiet, IsDue, Duly}
use kubeocean.VirtualPod.Defs.{
  Pod, Call, get_cached_resource, need_config_maps, need_secrets, get_token, get_secret,
  create_secret, update_secret, update_resource, create_resource, Api, Config,
}
use kubeocean.VirtualPod.Dependents.{
  mapping_of, Round, ready, waiting, failing, round_of, next_round, poll_round, after_round, poll,
  poll_physical_resources, polled, with_poll, with_tokens, sync_pod_tokens, with_claims,
  with_secrets, announce, sync_secrets, sync_config_maps, with_config_maps,
  sync_dependent_resources,
}
use kubeocean.VirtualPod.Resources.{sync_claims}
use kubeocean.VirtualPod.Resources.Safe.{sync_refs-Keeps, sync_claims-Keeps}
use kubeocean.VirtualPod.Spec.{
  Required, ResourceMapping, collect_config_map_refs, collect_secret_refs, collect_claims,
}
use kubeocean.VirtualPod.Tokens.{Synced, synced, absent, broken}
use kubeocean.VirtualPod.Tokens.Safe.{sync_service_account_tokens-Keeps}

module _ {Ephemeral : Type 0} (md5_hex base64 : String → String) (api : Api Ephemeral)
    (config : Config) (pod : Pod Ephemeral) (P : Call Ephemeral → Type 0)
    (due : (c : Call Ephemeral) → IsDue md5_hex base64 api config pod c → P c) where
  open api use {cached_resource, poll_rounds}
  open config use {mount_namespace}

  quiet : (c : Call Ephemeral) → IsQuiet c → P c
  quiet c q = due c (IsDue.harmless c q)

  poll_round-Keeps :
      (resources : List (ResourceType × String))
      → Keeps P (poll_round md5_hex base64 api config pod resources)
  unfolding poll_round
  poll_round-Keeps [] = λ log h. h
  poll_round-Keeps ((kind, n) ∷ resources) = λ log h.
      by_round (round_of (cached_resource log kind mount_namespace n)) (poll_round-Keeps resources)
        _ (quiet (get_cached_resource kind mount_namespace n) tt, h)
    where
      by_round :
          (r : Round)
          → Keeps P (poll_round md5_hex base64 api config pod resources)
          → Keeps P (
              next_round md5_hex base64 api config pod
                (poll_round md5_hex base64 api config pod resources)
                r)
      by_round ready k = k
      by_round waiting k = λ log h. h
      by_round failing k = λ log h. h

  poll-Keeps :
      (rounds : ℕ) (resources : List (ResourceType × String))
      → Keeps P (poll md5_hex base64 api config pod rounds resources)
  unfolding poll
  poll-Keeps zero resources = λ log h. h
  poll-Keeps (suc rounds) resources = λ log h.
      by_round (poll_round md5_hex base64 api config pod resources log).0
        (poll-Keeps rounds resources) _ (poll_round-Keeps resources log h)
    where
      by_round :
          (r : Round)
          → Keeps P (poll md5_hex base64 api config pod rounds resources)
          → Keeps P (
              after_round md5_hex base64 api config pod
                (poll md5_hex base64 api config pod rounds resources)
                r)
      by_round ready k = λ log h. h
      by_round waiting k = k
      by_round failing k = λ log h. h

  with_poll-Keeps :
      (m : ResourceMapping) (ok : Bool) → Keeps P (with_poll md5_hex base64 api config pod m ok)
  unfolding with_poll
  with_poll-Keeps m true = λ log h. h
  with_poll-Keeps m false = λ log h. h

  with_tokens-Keeps :
      (a b c : StrMap) (r : Synced StrMap)
      → Keeps P (with_tokens md5_hex base64 api config pod a b c r)
  unfolding with_tokens poll_physical_resources
  with_tokens-Keeps a b c (synced d) = λ log h.
      let m = mapping_of a b c d in
      with_poll-Keeps m (poll_physical_resources md5_hex base64 api config pod m log).0 _
        (poll-Keeps (poll_rounds log) (polled md5_hex base64 api config pod m) log h)
  with_tokens-Keeps a b c absent = λ log h. h
  with_tokens-Keeps a b c broken = λ log h. h

  sync_pod_tokens-Keeps : Keeps P (sync_pod_tokens md5_hex base64 api config pod)
  sync_pod_tokens-Keeps =
      if-Keeps P (pod.spec.service_account == "") _ _ (λ e log h. h)
        (λ e.
          sync_service_account_tokens-Keeps md5_hex base64 api config pod P
            (λ t. quiet (get_token pod.namespace pod.spec.service_account t pod.name pod.uid) tt)
            (λ n. quiet (get_secret mount_namespace n) tt)
            (λ s m. due (update_secret s) (IsDue.refreshed s m)) true
            (λ s m. due (create_secret s) (IsDue.stored s m)))

  with_claims-Keeps :
      (a b : StrMap) (c : Option StrMap) → Keeps P (with_claims md5_hex base64 api config pod a b c)
  unfolding with_claims
  with_claims-Keeps a b none = λ log h. h
  with_claims-Keeps a b (some c) = λ log h.
      with_tokens-Keeps a b c (sync_pod_tokens md5_hex base64 api config pod log).0 _
        (sync_pod_tokens-Keeps log h)

  with_secrets-Keeps :
      (a : StrMap) (b : Option StrMap) → Keeps P (with_secrets md5_hex base64 api config pod a b)
  unfolding with_secrets
  with_secrets-Keeps a none = λ log h. h
  with_secrets-Keeps a (some b) = λ log h.
      let refs = collect_claims pod.spec in
      with_claims-Keeps a b (sync_claims md5_hex api config pod.namespace refs [] log).0 _ (
        sync_claims-Keeps md5_hex base64 api config P quiet
          (λ kind r m. due (update_resource kind r) (IsDue.marked kind r m))
          (λ kind r m. due (create_resource kind r) (IsDue.made kind r m)) pod.namespace refs [] log
          h)

  announce-Keeps :
      (need : Required → Call Ephemeral) (refs : Required)
      → P (need refs)
      → Keeps P (announce md5_hex base64 api config pod need refs)
  announce-Keeps need [] p = λ log h. h
  announce-Keeps need (r ∷ refs) p = λ log h. (p, h)

  with_config_maps-Keeps :
      (a : Option StrMap) → Keeps P (with_config_maps md5_hex base64 api config pod a)
  unfolding with_config_maps
  with_config_maps-Keeps none = λ log h. h
  with_config_maps-Keeps (some a) = λ log h.
      with_secrets-Keeps a (sync_secrets md5_hex base64 api config pod log).0 _ (
        sync_refs-Keeps md5_hex base64 api config P quiet
          (λ kind r m. due (update_resource kind r) (IsDue.marked kind r m))
          (λ kind r m. due (create_resource kind r) (IsDue.made kind r m)) secret pod.namespace
          (collect_secret_refs pod.spec) [] _
          (announce-Keeps (need_secrets pod.namespace pod.name) (collect_secret_refs pod.spec)
            (quiet (need_secrets pod.namespace pod.name (collect_secret_refs pod.spec)) tt) log h))

  sync_dependent-Keeps : Keeps P (sync_dependent_resources md5_hex base64 api config pod)
  unfolding sync_dependent_resources
  sync_dependent-Keeps log h =
      with_config_maps-Keeps (sync_config_maps md5_hex base64 api config pod log).0 _ (
        sync_refs-Keeps md5_hex base64 api config P quiet
          (λ kind r m. due (update_resource kind r) (IsDue.marked kind r m))
          (λ kind r m. due (create_resource kind r) (IsDue.made kind r m)) config_map pod.namespace
          (collect_config_map_refs pod.spec) [] _
          (announce-Keeps (need_config_maps pod.namespace pod.name)
            (collect_config_map_refs pod.spec)
            (quiet (need_config_maps pod.namespace pod.name (collect_config_map_refs pod.spec)) tt)
            log h))

pub sync_dependent_resources_duly :
    {Ephemeral : Type 0} (md5_hex base64 : String → String) (api : Api Ephemeral) (config : Config)
    (pod : Pod Ephemeral)
    → Duly md5_hex base64 api config pod (sync_dependent_resources md5_hex base64 api config pod)
sync_dependent_resources_duly md5_hex base64 api config pod P due =
    sync_dependent-Keeps md5_hex base64 api config pod P due
